-- ===== src/PeerConnection/Observers.antt =====
-- The promises of src/PeerConnection.cpp's observers: what WebRTC calls on an observer settles a promise,
-- and the caller waits for its future.
use libmediasouphandler.Base.{String, Bool, true, false, List, [], ◌∷◌, if◌then◌else◌}
use libmediasouphandler.Base.Text.{is_empty}
use libmediasouphandler.Base.Result.{Error, Result, ok, err, error, std_error, ◌>>=◌}
use libmediasouphandler.Json.{Json, array}

-- std::promise: not settled, or with the value or the exception that its future has.
pub data Promise (A : Type 0) : Type 0 where
  pending : Promise A
  settled : Result A → Promise A

-- What a call comes to that waits for a future: it returns or throws, waits for ever, or the process
-- ends, by an exception that a callback throws in WebRTC's thread.
pub data Waited (A : Type 0) : Type 0 where
  blocked : Waited A
  terminated : Error → Waited A
  done : Result A → Waited A

-- What WebRTC calls on an observer: OnSuccess, with a description or nothing, or OnFailure, with the
-- message of its RTCError.
pub data Callback (A : Type 0) : Type 0 where
  on_success : A → Callback A
  on_failure : String → Callback A

-- What WebRTC does with an observer that it alone holds: what it calls on it, and whether it lets go of
-- it in the end.
pub record Held (A : Type 0) : Type 0 where
  pub callbacks : List (Callback A)
  pub released : Bool

module _ {A : Type 0} where
  -- promise.set_value and promise.set_exception, which throw where the promise is settled.
  unfoldable pub set_promise : Result A → Promise A → Result (Promise A)
  set_promise r pending = ok (settled r)
  set_promise r (settled _) = err (std_error "future_error")

  -- Reject.
  unfoldable pub reject : String → Promise A → Result (Promise A)
  unfolding set_promise
  reject message p = set_promise (err (error message)) p

  -- A promise that goes out of life before it is settled is broken.
  unfoldable pub abandon : Bool → Promise A → Promise A
  abandon released (settled r) = settled r
  abandon true pending = settled (err (std_error "future_error"))
  abandon false pending = pending

  unfoldable pub get : Promise A → Waited A
  get pending = blocked
  get (settled r) = done r

  -- future.get() after the callbacks, or what has ended the process.
  unfoldable pub await : Result (Promise A) → Waited A
  unfolding get
  await (ok p) = get p
  await (err e) = terminated e

-- OnSuccess and OnFailure of SetSessionDescriptionObserver and CreateSessionDescriptionObserver, where
-- `text` is what is made of a description.
unfoldable pub handle : {X A : Type 0} → (X → A) → Callback X → Promise A → Result (Promise A)
unfolding set_promise reject
handle text (on_success x) p = set_promise (ok (text x)) p
handle text (on_failure message) p = reject message p

-- The callbacks one after the other.
unfoldable pub handle_all :
    {X A : Type 0} → (X → A) → List (Callback X) → Promise A → Result (Promise A)
unfolding handle
handle_all text [] p = ok p
handle_all text (c ∷ cs) p = do p' ← handle text c p; handle_all text cs p'

-- What CreateOffer and CreateAnswer come to, which keep no reference to their observer.
unfoldable pub await_held : {X A : Type 0} → (X → A) → Held X → Waited A
unfolding handle_all abandon await
await_held text held =
    await (do p ← handle_all text held.callbacks pending; ok (abandon held.released p))

-- OnStatsDelivered, which parses the report's text: json::parse may throw.
unfoldable pub deliver : (String → Result Json) → String → Promise Json → Result (Promise Json)
unfolding set_promise
deliver parse text p =
    if is_empty text
    then set_promise (ok (array [])) p
    else (do j ← parse text; set_promise (ok j) p)

unfoldable pub deliver_all :
    (String → Result Json) → List String → Promise Json → Result (Promise Json)
unfolding deliver
deliver_all parse [] p = ok p
deliver_all parse (text ∷ texts) p = do p' ← deliver parse text p; deliver_all parse texts p'
