-- ===== src/Handler/Received.antt =====
-- What Receive of src/Handler.cpp returns, and that StopReceiving of it undoes it.
use libmediasouphandler.Base.{
  ℕ, suc, String, false, Option, none, some, List, [], ◌∷◌, ◌≡◌, refl, sym, ◌∙◌, ap, inl, inr,
  Bool-cases, Option-cases, arith, eq_iff, eq_refl, ◌==◌, subst,
}
use libmediasouphandler.Base.Text.{is_empty}
use libmediasouphandler.Base.Result.{
  Error, Result, ok, err, ok_injective, Ensures, Ensures-ok, Ensures-err,
}
use libmediasouphandler.Base.State.{continue, lift, Yields, Yields-bind}
use libmediasouphandler.Json.{Json, find}
use libmediasouphandler.Sdp.RemoteSdp.{receive}
use libmediasouphandler.Sdp.RemoteSdp.Store.{lookup, lookup-insert}
use libmediasouphandler.Sdp.Slots.{Slot, position, add_slot, close_slot}
use libmediasouphandler.Sdp.Slots.Laws.{position_tail}
use libmediasouphandler.Sdp.Refines.{Refines}
use libmediasouphandler.Handler.{Handler, on_sdp}
use libmediasouphandler.Handler.Connection.{Peer, SdpTransform}
use libmediasouphandler.Handler.Answer.{cname_of}
use libmediasouphandler.Handler.Recv.{
  RecvResult, local_id_of, with_mid, receive_track, receive_as, note_transceiver, note_received,
  negotiate_receive, stop_receiving,
}
use libmediasouphandler.Handler.Sections.{receive_track-Settled}
use libmediasouphandler.Handler.Stopped.{stop_receiving-Stands}

with_mid-has :
    (mid : ℕ → Option String) (local_id : String) (ts : List ℕ)
    → Ensures (λ t. mid t ≡ some local_id) (with_mid mid local_id ts)
unfolding with_mid
with_mid-has mid local_id [] = Ensures-err _
with_mid-has mid local_id (t ∷ ts) = elim (Option-cases (mid t)) [
  | inl q ↦ rw q (with_mid-has mid local_id ts)
  | inr (m, q) ↦ rw q (elim (Bool-cases (m == local_id)) [
    | inl e ↦ rw e (Ensures-ok (ground (arith, eq_iff m local_id, e, q)))
    | inr e ↦ rw e (with_mid-has mid local_id ts)
  ])
]

module _ {P D C Y Q : Type 0} (peer : Peer P D C Y Q) (lib : SdpTransform) where
  -- The local id is that of a transceiver in the map, whose mid it is.
  abbrev pub Noted : String → RecvResult → Handler P → Type 0
  Noted local_id result h =
      (result.local_id ≡ local_id)
      × (t : ℕ) × (lookup local_id h.map_mid_transceiver ≡ some t)
      × (peer.mid h.pc t ≡ some local_id)
      × (result.track ≡ peer.receiver_track (peer.receiver t))

  note_transceiver-Noted :
      (local_id : String) (t : ℕ) (h : Handler P)
      → peer.mid h.pc t ≡ some local_id
      → (result : RecvResult) → (note_transceiver peer lib local_id t h).0 ≡ ok result
      → Noted local_id result (note_transceiver peer lib local_id t h).1
  unfolding note_transceiver
  note_transceiver-Noted local_id t h m result e =
      let same = ok_injective e in
      (
        sym (ap (λ r. r.local_id) same),
        t,
        lookup-insert local_id local_id t h.map_mid_transceiver ∙ rw (eq_refl local_id) refl,
        m,
        sym (ap (λ r. r.track) same),
      )

  note_received-Noted :
      (local_id : String) → Yields (Noted local_id) (note_received peer lib local_id)
  unfolding note_received
  note_received-Noted local_id h =
      from (with_mid (peer.mid h.pc) local_id (peer.get_transceivers h.pc))
        (with_mid-has (peer.mid h.pc) local_id (peer.get_transceivers h.pc))
    where
      from :
          (found : Result ℕ)
          → Ensures (λ t. peer.mid h.pc t ≡ some local_id) found
          → (result : RecvResult)
          → (continue found (note_transceiver peer lib local_id) h).0 ≡ ok result
          → Noted local_id result (continue found (note_transceiver peer lib local_id) h).1
      from (ok t) has result e = note_transceiver-Noted local_id t h (has.returns t refl) result e
      from (err x) has result e = cc

  receive_as-Noted :
      (id kind : String) (parameters : Json) (local_id : String)
      → Yields (Noted local_id) (receive_as peer lib id kind parameters local_id)
  unfolding receive_as
  receive_as-Noted id kind parameters local_id =
      Yields-bind (Noted local_id) (lift (cname_of parameters)) _ λ cname.
        Yields-bind (Noted local_id)
          (on_sdp (receive lib.show_float local_id kind parameters cname id)) _
          λ u.
            Yields-bind (Noted local_id) (negotiate_receive peer lib local_id parameters)
              (λ v. note_received peer lib local_id) λ v. note_received-Noted local_id

  -- Where Receive returns, its local id is the parameters' mid, if that is a text that is not empty, and
  -- else the size of the map; the map then has for it a transceiver of that mid, and the track returned
  -- is that of the transceiver's receiver.
  pub receive_track-Noted :
      (id kind : String) (parameters : Json) (h : Handler P) (result : RecvResult)
      → let out = receive_track peer lib id kind parameters h in
        out.0 ≡ ok result
        → (result.local_id ≡ local_id_of (find "mid" parameters) h.map_mid_transceiver)
          × (t : ℕ) × (lookup result.local_id out.1.map_mid_transceiver ≡ some t)
          × (peer.mid out.1.pc t ≡ some result.local_id)
          × (result.track ≡ peer.receiver_track (peer.receiver t))
  unfolding receive_track
  receive_track-Noted id kind parameters h result e =
      let local_id = local_id_of (find "mid" parameters) h.map_mid_transceiver in
      let (same, t, l, m, tr) = receive_as-Noted id kind parameters local_id h result e in
      (same, t, rw same l, m ∙ ap some (sym same), tr)

position-add_slot :
    (mid : String) (ss : List Slot)
    → position mid ss ≡ none
    → (i : ℕ) × (position mid (add_slot mid ss) ≡ some i)
unfolding position add_slot
position-add_slot mid [] n = (0, ground (arith, eq_refl mid))
position-add_slot mid (s ∷ ss) n = elim (Bool-cases s.closed) [
  | inl e ↦ (0, rw e (ground (arith, eq_refl mid)))
  | inr e ↦
      let (q, t) = position_tail mid s ss n in
      let (i, p) = position-add_slot mid ss t in (suc i, rw e (ground (arith, q, p)))
]

module _ {P D C Y Q : Type 0} (peer : Peer P D C Y Q) (lib : SdpTransform) where
  -- Receive of a local id that is not empty and that no slot has, on a handler whose remote description
  -- refines slots: where it returns, StopReceiving of the local id that it returned finds the
  -- transceiver, and leaves the description with the slot added and closed again (or open if it is the
  -- first), whether the negotiation returns or throws.
  pub receive-stop_receiving :
      (slots : List Slot) (id kind : String) (parameters : Json) (h : Handler P)
      (result : RecvResult)
      → let local_id = local_id_of (find "mid" parameters) h.map_mid_transceiver in
        let out = receive_track peer lib id kind parameters h in
        Refines slots h.remote_sdp
        → is_empty local_id ≡ false
        → position local_id slots ≡ none
        → out.0 ≡ ok result
        → Refines
            (close_slot result.local_id (add_slot result.local_id slots))
            (stop_receiving peer lib result.local_id out.1).1.remote_sdp
  receive-stop_receiving slots id kind parameters h result r e n returns =
      let (same, t, l, m, tr) = receive_track-Noted peer lib id kind parameters h result returns in
      let (i, p) =
        position-add_slot result.local_id slots (ap (λ mid. position mid slots) same ∙ n) in
      let out = receive_track peer lib id kind parameters h in
      elim (receive_track-Settled peer lib slots id kind parameters h r e n) [
        | inl added ↦
            stop_receiving-Stands peer lib (add_slot result.local_id slots) result.local_id t i
              out.1 (subst (λ mid. Refines (add_slot mid slots) out.1.remote_sdp) (sym same) added)
              l m p
        | inr (x, thrown, kept) ↦ absurd_result x result thrown returns
      ]
    where
      absurd_result :
          {T : Type 0} (x : Error) (res : RecvResult) {o : Result RecvResult}
          → o ≡ err x
          → o ≡ ok res
          → T
      absurd_result x res a b = cc
