-- ===== src/Consumer/Once.antt =====
-- A consumer ends once: its listeners hear of it once, and nothing changes afterwards.
use libmediasouphandler.Base.{
  ℕ, suc, true, false, List, [], ◌∷◌, ◌≡◌, refl, sym, subst, if◌then◌else◌, arith,
}
use libmediasouphandler.Base.Result.{Result, err, invalid_state_error}
use libmediasouphandler.Json.{Json}
use libmediasouphandler.Consumer.{
  Event, Consumer, Call, closes, transport_closes, pauses, resumes, close, transport_close, pause,
  resume, get_stats, is_paused, step, run,
}

-- How often the listeners were told of the end.
abbrev pub endings : List Event → ℕ
endings [] = 0
endings (e ∷ es) = suc (endings es)

abbrev pub HeardOnce : Consumer → Type 0
HeardOnce c = endings c.told ≡ (if c.is_closed then 1 else 0)

step-HeardOnce : (c : Consumer) (k : Call) → HeardOnce c → HeardOnce (step c k)
unfolding step close transport_close pause resume
step-HeardOnce c closes h = ground arith
step-HeardOnce c transport_closes h = ground arith
step-HeardOnce c pauses h = ground arith
step-HeardOnce c resumes h = ground arith

-- After any calls, if a consumer's listeners had been told of its end once if it was closed and never
-- if it was open, that is still so.
pub run-HeardOnce : (c : Consumer) (ks : List Call) → HeardOnce c → HeardOnce (run c ks)
unfolding run
run-HeardOnce c [] h = h
run-HeardOnce c (k ∷ ks) h = run-HeardOnce (step c k) ks (step-HeardOnce c k h)

closed_step : (c : Consumer) (k : Call) → c.is_closed ≡ true → step c k ≡ c
unfolding step close transport_close pause resume
closed_step c closes h = rw h
closed_step c transport_closes h = rw h
closed_step c pauses h = rw h
closed_step c resumes h = rw h

-- A closed consumer stays as it is, its track included, whatever is called, and GetStats on it throws.
pub closed_consumer_run :
    (answer : Result Json) (c : Consumer) (ks : List Call)
    → c.is_closed ≡ true
    → (run c ks ≡ c) × (get_stats answer (run c ks) ≡ err (invalid_state_error "Consumer closed"))
unfolding run get_stats
closed_consumer_run answer c [] h = (refl, rw h)
closed_consumer_run answer c (k ∷ ks) h =
    let same = closed_step c k h in
    subst
      (λ d.
        (run d ks ≡ c)
        × (get_stats answer (run d ks) ≡ err (invalid_state_error "Consumer closed")))
      (sym same) (closed_consumer_run answer c ks h)

-- On an open consumer the last call of Pause and Resume decides whether it is paused, also after the other.
pub pause-resume :
    (c : Consumer)
    → c.is_closed ≡ false
    → (is_paused (pause c) ≡ true)
      × (is_paused (resume c) ≡ false)
      × (is_paused (resume (pause c)) ≡ false)
      × (is_paused (pause (resume c)) ≡ true)
unfolding is_paused pause resume
pause-resume c h = (ground arith, ground arith, ground arith, ground arith)
