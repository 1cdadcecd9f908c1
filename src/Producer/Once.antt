-- ===== src/Producer/Once.antt =====
-- A producer ends once: its listeners hear of it once, and nothing changes afterwards.
use libmediasouphandler.Base.{
  ℕ, suc, true, none, some, List, [], ◌∷◌, ◌≡◌, refl, if◌then◌else◌, arith,
}
use libmediasouphandler.Producer.{
  Event, closed, transport_closed, Producer, PrivateListener, Call, closes, transport_closes,
  pauses, resumes, gets_stats, replaces, sets_layer, close, transport_close, pause, resume,
  get_stats, replace, set_max_spatial_layer, step, run,
}

-- How often the listeners were told of the end.
abbrev pub endings : List Event → ℕ
endings [] = 0
endings (closed ∷ es) = suc (endings es)
endings (transport_closed ∷ es) = suc (endings es)
endings (_ ∷ es) = endings es

-- The listeners know of the end exactly if the producer is closed, and were told once.
abbrev pub ToldOnce : Producer → Type 0
ToldOnce p = endings p.told ≡ (if p.is_closed then 1 else 0)

pub step-ToldOnce :
    (l : PrivateListener) (p : Producer) (c : Call) → ToldOnce p → ToldOnce (step l p c)
unfolding step close transport_close pause resume get_stats replace set_max_spatial_layer
step-ToldOnce l p closes h = ground arith
step-ToldOnce l p transport_closes h = ground arith
step-ToldOnce l p pauses h = ground arith
step-ToldOnce l p resumes h = ground arith
step-ToldOnce l p gets_stats h = ground arith
step-ToldOnce l p (replaces none) h = ground arith
step-ToldOnce l p (replaces (some t)) h = ground arith
step-ToldOnce l p (sets_layer n) h = ground arith

-- After any calls, if a producer's listeners had been told of its end once if it was closed and never
-- if it was open, that is still so: whatever the order of Close, TransportClosed and the other
-- methods, the listeners are told of the end once, and then the producer is closed.
pub run-ToldOnce :
    (l : PrivateListener) (p : Producer) (cs : List Call) → ToldOnce p → ToldOnce (run l p cs)
unfolding run
run-ToldOnce l p [] h = h
run-ToldOnce l p (c ∷ cs) h = run-ToldOnce l (step l p c) cs (step-ToldOnce l p c h)

closed_step : (l : PrivateListener) (p : Producer) (c : Call) → p.is_closed ≡ true → step l p c ≡ p
unfolding step close transport_close pause resume get_stats replace set_max_spatial_layer
closed_step l p closes h = rw h
closed_step l p transport_closes h = rw h
closed_step l p pauses h = rw h
closed_step l p resumes h = rw h
closed_step l p gets_stats h = rw h
closed_step l p (replaces t) h = rw h
closed_step l p (sets_layer n) h = rw h

-- A closed producer stays as it is, its track included, whatever is called.
pub closed_run :
    (l : PrivateListener) (p : Producer) (cs : List Call) → p.is_closed ≡ true → run l p cs ≡ p
unfolding run
closed_run l p [] h = refl
closed_run l p (c ∷ cs) h = rw (closed_step l p c h) (closed_run l p cs h)
