-- ===== src/PeerConnection/Returns.antt =====
-- The calls of src/PeerConnection.cpp that wait for a future, by what WebRTC calls on the observer.
use libmediasouphandler.Base.{
  ℕ, String, Bool, true, false, List, [], ◌∷◌, ◌≡◌, refl, ◌∙◌, ◌⊎◌, inl, inr, Bool-cases,
}
use libmediasouphandler.Base.Text.{is_empty}
use libmediasouphandler.Base.Result.{Result, ok, err, error, std_error}
use libmediasouphandler.Json.{Json, array}
use libmediasouphandler.Handler.Connection.{SdpType}
use libmediasouphandler.PeerConnection.{
  Webrtc, Waiting, sdp_type_to_string, set_description, create_offer, create_answer,
  set_local_description, set_remote_description, get_stats, get_sender_stats, get_receiver_stats,
}
use libmediasouphandler.PeerConnection.Observers.{
  pending, Waited, blocked, terminated, done, Callback, on_success, on_failure, await, get,
  set_promise, reject, Held, abandon, await_held, handle, handle_all, deliver, deliver_all,
}

-- What a caller gets by the callbacks that its observer has: the first decides, none leaves it waiting,
-- and a second ends the process.
abbrev pub outcome : {X A : Type 0} → (X → A) → List (Callback X) → Waited A
outcome text [] = blocked
outcome text (on_success x ∷ []) = done (ok (text x))
outcome text (on_failure message ∷ []) = done (err (error message))
outcome text (c ∷ d ∷ cs) = terminated (std_error "future_error")

await-handle_all :
    {X A : Type 0} (text : X → A) (cs : List (Callback X))
    → await (handle_all text cs pending) ≡ outcome text cs
unfolding await handle_all handle set_promise reject get
await-handle_all text [] = refl
await-handle_all text (on_success x ∷ []) = refl
await-handle_all text (on_failure m ∷ []) = refl
await-handle_all text (on_success x ∷ on_success y ∷ cs) = refl
await-handle_all text (on_success x ∷ on_failure y ∷ cs) = refl
await-handle_all text (on_failure x ∷ on_success y ∷ cs) = refl
await-handle_all text (on_failure x ∷ on_failure y ∷ cs) = refl

-- The same where WebRTC alone holds the observer: without a callback, the promise is broken once WebRTC
-- lets go of the observer.
abbrev pub held_outcome : {X A : Type 0} → (X → A) → List (Callback X) → Bool → Waited A
held_outcome text [] true = done (err (std_error "future_error"))
held_outcome text [] false = blocked
held_outcome text (c ∷ cs) released = outcome text (c ∷ cs)

await_held-outcome :
    {X A : Type 0} (text : X → A) (held : Held X)
    → await_held text held ≡ held_outcome text held.callbacks held.released
unfolding await_held await abandon handle_all handle set_promise reject get
await_held-outcome {X} text held = by_callbacks held.callbacks held.released
  where
    by_callbacks :
        (cs : List (Callback X)) (b : Bool)
        → await_held text (record { callbacks = cs; released = b }) ≡ held_outcome text cs b
    by_callbacks [] true = refl
    by_callbacks [] false = refl
    by_callbacks (on_success x ∷ []) b = refl
    by_callbacks (on_failure m ∷ []) b = refl
    by_callbacks (on_success x ∷ on_success y ∷ cs) b = refl
    by_callbacks (on_success x ∷ on_failure y ∷ cs) b = refl
    by_callbacks (on_failure x ∷ on_success y ∷ cs) b = refl
    by_callbacks (on_failure x ∷ on_failure y ∷ cs) b = refl

-- One callback, success or failure.
abbrev pub IsOne : {A : Type 0} → List A → Type 0
IsOne [] = ⊥
IsOne (a ∷ []) = Unit
IsOne (a ∷ b ∷ rest) = ⊥

-- One report, whose text is empty or JSON.
abbrev pub IsReport : (String → Result Json) → List String → Type 0
IsReport parse texts =
    (text : String) × (texts ≡ text ∷ [])
    × ((is_empty text ≡ true) ⊎ ((j : Json) × (parse text ≡ ok j)))

module _ {W X C D Y : Type 0} (webrtc : Webrtc W X C D Y) (parse : String → Result Json) where
  -- WebRTC calls each observer once: its documented behaviour.
  pub record AnswersOnce : Type 0 where
    pub create_offer : (b : Bool) (s : W) → IsOne (webrtc.create_offer b s).0.callbacks
    pub create_answer : (s : W) → IsOne (webrtc.create_answer s).0.callbacks
    pub set_local_description : (x : X) (s : W) → IsOne (webrtc.set_local_description x s).0
    pub set_remote_description : (x : X) (s : W) → IsOne (webrtc.set_remote_description x s).0
    pub get_stats : (s : W) → IsReport parse (webrtc.get_stats s).0
    pub get_sender_stats : (n : ℕ) (s : W) → IsReport parse (webrtc.get_sender_stats n s).0
    pub get_receiver_stats : (n : ℕ) (s : W) → IsReport parse (webrtc.get_receiver_stats n s).0

-- A call that returns or throws, in time.
abbrev pub Returns : {W A : Type 0} → Waiting W A → Type 0
Returns {W} {A} call = (s : W) → (r : Result A) × ((call s).0 ≡ done r)

outcome-one :
    {X A : Type 0} (text : X → A) (cs : List (Callback X))
    → IsOne cs
    → (r : Result A) × (outcome text cs ≡ done r)
outcome-one text (on_success x ∷ []) h = (ok (text x), refl)
outcome-one text (on_failure m ∷ []) h = (err (error m), refl)
outcome-one text [] h = absurd h
outcome-one text (on_success x ∷ d ∷ cs) h = absurd h
outcome-one text (on_failure m ∷ d ∷ cs) h = absurd h

held_outcome-one :
    {X A : Type 0} (text : X → A) (cs : List (Callback X)) (b : Bool)
    → IsOne cs
    → (r : Result A) × (held_outcome text cs b ≡ done r)
held_outcome-one text [] b h = absurd h
held_outcome-one text (on_success x ∷ []) b h = (ok (text x), refl)
held_outcome-one text (on_failure m ∷ []) b h = (err (error m), refl)
held_outcome-one text (on_success x ∷ d ∷ cs) b h = absurd h
held_outcome-one text (on_failure m ∷ d ∷ cs) b h = absurd h

await-one :
    {X A : Type 0} (text : X → A) (cs : List (Callback X))
    → IsOne cs
    → (r : Result A) × (await (handle_all text cs pending) ≡ done r)
await-one text cs h = let (r, e) = outcome-one text cs h in (r, await-handle_all text cs ∙ e)

held-one :
    {X A : Type 0} (text : X → A) (held : Held X)
    → IsOne held.callbacks
    → (r : Result A) × (await_held text held ≡ done r)
held-one text held h =
    let (r, e) = held_outcome-one text held.callbacks held.released h in
    (r, await_held-outcome text held ∙ e)

await-report :
    (parse : String → Result Json) (texts : List String)
    → IsReport parse texts
    → (r : Result Json) × (await (deliver_all parse texts pending) ≡ done r)
unfolding await deliver_all deliver set_promise get
await-report parse texts (text, e, inl empty) = (ok (array []), rw (e, empty) refl)
await-report parse texts (text, e, inr (j, q)) = elim (Bool-cases (is_empty text)) [
  | inl empty ↦ (ok (array []), rw (e, empty) refl)
  | inr full ↦ (ok j, rw (e, full, q) refl)
]

module _ {W X C D Y : Type 0} (webrtc : Webrtc W X C D Y) (parse : String → Result Json) where
  set_description-Returns :
      (made : String ⊎ X) (set : X → W → List (Callback (Unit {0})) × W)
      → ((x : X) (s : W) → IsOne (set x s).0)
      → Returns (set_description made set)
  unfolding set_description await reject set_promise get
  set_description-Returns (inl description) set h s = (err (error description), refl)
  set_description-Returns (inr x) set h s = await-one (λ u. u) (set x s).0 (h x s)

  -- Where WebRTC calls each observer once, and the texts of its reports are empty or JSON, each call
  -- that waits for a future returns or throws: CreateOffer, CreateAnswer, SetLocalDescription and
  -- SetRemoteDescription of any text, and the three GetStats; none waits for ever or ends the process.
  pub waiting-Returns :
      AnswersOnce webrtc parse
      → ((b : Bool) → Returns (create_offer webrtc parse b))
        × Returns (create_answer webrtc parse)
        × ((t : SdpType) (sdp : String) → Returns (set_local_description webrtc parse t sdp))
        × ((t : SdpType) (sdp : String) → Returns (set_remote_description webrtc parse t sdp))
        × Returns (get_stats webrtc parse)
        × ((n : ℕ) → Returns (get_sender_stats webrtc parse n))
        × ((n : ℕ) → Returns (get_receiver_stats webrtc parse n))
  unfolding create_offer create_answer set_local_description set_remote_description get_stats
      get_sender_stats get_receiver_stats
  waiting-Returns once = (
    λ b s. held-one webrtc.to_string _ (once.create_offer b s),
    λ s. held-one webrtc.to_string _ (once.create_answer s),
    λ t sdp.
        set_description-Returns (webrtc.create_session_description (sdp_type_to_string t) sdp) _
          once.set_local_description,
    λ t sdp.
        set_description-Returns (webrtc.create_session_description (sdp_type_to_string t) sdp) _
          once.set_remote_description,
    λ s. await-report parse _ (once.get_stats s),
    λ n s. await-report parse _ (once.get_sender_stats n s),
    λ n s. await-report parse _ (once.get_receiver_stats n s),
  )

-- What a text comes to that is to be a description: what it is refused for, with WebRTC not called, or
-- what the callbacks say.
abbrev pub settled_by :
    {W X : Type 0}
    → String ⊎ X
    → (X → W → List (Callback (Unit {0})) × W)
    → W
    → Waited (Unit {0}) × W
settled_by (inl description) set s = (done (err (error description)), s)
settled_by (inr x) set s = (outcome (λ u. u) (set x s).0, (set x s).1)

module _ {W X C D Y : Type 0} (webrtc : Webrtc W X C D Y) (parse : String → Result Json) where
  set_description-settled_by :
      (made : String ⊎ X) (set : X → W → List (Callback (Unit {0})) × W) (s : W)
      → set_description made set s ≡ settled_by made set s
  unfolding set_description await reject set_promise get
  set_description-settled_by (inl description) set s = refl
  set_description-settled_by (inr x) set s = rw (await-handle_all (λ u. u) (set x s).0) refl

  -- The four calls with a description, whatever WebRTC calls on their observers: without a callback the
  -- caller waits for ever (but for an offer or an answer, whose observer WebRTC alone holds: there
  -- future_error is thrown if WebRTC lets go of it), one success returns (with the description's text, for an offer and an answer),
  -- one failure throws a MediaSoupClientError with its message, and a second callback ends the process. A
  -- text that WebRTC does not take for a description is refused before: the error is the parser's, and
  -- the peer connection stays as it is.
  pub described-outcome :
      ((b : Bool) (s : W)
        → create_offer webrtc parse b s ≡ (
          held_outcome webrtc.to_string
              (webrtc.create_offer b s).0.callbacks
              (webrtc.create_offer b s).0.released,
          (webrtc.create_offer b s).1,
        ))
      × ((s : W)
          → create_answer webrtc parse s ≡ (
            held_outcome webrtc.to_string
                (webrtc.create_answer s).0.callbacks
                (webrtc.create_answer s).0.released,
            (webrtc.create_answer s).1,
          ))
      × ((t : SdpType) (sdp : String) (s : W)
          → set_local_description webrtc parse t sdp s
            ≡ settled_by
                (webrtc.create_session_description (sdp_type_to_string t) sdp)
                webrtc.set_local_description
                s)
      × ((t : SdpType) (sdp : String) (s : W)
          → set_remote_description webrtc parse t sdp s
            ≡ settled_by
                (webrtc.create_session_description (sdp_type_to_string t) sdp)
                webrtc.set_remote_description
                s)
  unfolding create_offer create_answer set_local_description set_remote_description
  described-outcome = (
    λ b s. rw (await_held-outcome webrtc.to_string (webrtc.create_offer b s).0) refl,
    λ s. rw (await_held-outcome webrtc.to_string (webrtc.create_answer s).0) refl,
    λ t sdp s.
        set_description-settled_by (webrtc.create_session_description (sdp_type_to_string t) sdp)
          webrtc.set_local_description s,
    λ t sdp s.
        set_description-settled_by (webrtc.create_session_description (sdp_type_to_string t) sdp)
          webrtc.set_remote_description s,
  )
