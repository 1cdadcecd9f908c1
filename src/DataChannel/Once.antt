-- ===== src/DataChannel/Once.antt =====
-- A data producer or consumer ends once, and asks its channel to close exactly then.
use libmediasouphandler.Base.{ℕ, suc, Bool, true, false, List, [], ◌∷◌, ◌≡◌, if◌then◌else◌, arith}
use libmediasouphandler.DataChannel.{
  Event, closed, transport_closed, Endpoint, Happening, closes, transport_closes, changes_state,
  messages, buffers, close, transport_close, step, run, producer_state_change, producer_message,
  producer_buffered_amount, consumer_state_change, consumer_message, consumer_buffered_amount,
}

-- How often the end of the endpoint, by Close or by the transport, was told.
abbrev pub endings : List Event → ℕ
endings [] = 0
endings (closed ∷ es) = suc (endings es)
endings (transport_closed ∷ es) = suc (endings es)
endings (_ ∷ es) = endings es

-- The end was told once if the endpoint is closed, and else never, and its channel was asked to close as
-- often.
abbrev pub EndsOnce : Endpoint → Type 0
EndsOnce d =
    (endings d.told ≡ (if d.is_closed then 1 else 0))
    × (d.close_calls ≡ (if d.is_closed then 1 else 0))

step-EndsOnce : (b : Bool) (d : Endpoint) (h : Happening) → EndsOnce d → EndsOnce (step b d h)
unfolding step close transport_close producer_state_change consumer_state_change producer_message
    consumer_message producer_buffered_amount consumer_buffered_amount
step-EndsOnce b d closes e = (ground arith, ground arith)
step-EndsOnce b d transport_closes e = (ground arith, ground arith)
step-EndsOnce true d (changes_state s) e = (ground arith, ground arith)
step-EndsOnce false d (changes_state s) e = (ground arith, ground arith)
step-EndsOnce true d (messages n) e = (ground arith, ground arith)
step-EndsOnce false d (messages n) e = (ground arith, ground arith)
step-EndsOnce true d (buffers n) e = (ground arith, ground arith)
step-EndsOnce false d (buffers n) e = (ground arith, ground arith)

-- For a data producer or a data consumer whose end was told once and whose channel's Close was called
-- once if it is closed, and both never if it is open, that is so too after any calls of Close and
-- TransportClosed and anything that the channel reports, in whatever order. The channel's own state, a
-- close by the other side included, is only reported: it neither ends the endpoint nor is it claimed to
-- follow from it.
pub run-EndsOnce :
    (b : Bool) (d : Endpoint) (hs : List Happening) → EndsOnce d → EndsOnce (run b d hs)
unfolding run
run-EndsOnce b d [] e = e
run-EndsOnce b d (h ∷ hs) e = run-EndsOnce b (step b d h) hs (step-EndsOnce b d h e)
