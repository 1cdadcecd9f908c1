-- ===== src/Handler/Sections.antt =====
-- What Receive of src/Handler.cpp makes of the remote description's sections: the composition with the refinement of RemoteSdp.
use libmediasouphandler.Base.{
  String, false, none, some, List, ◌≡◌, refl, ◌⊎◌, inl, inr, if-cases, if◌then◌else◌, ◌==◌,
}
use libmediasouphandler.Base.Text.{is_empty}
use libmediasouphandler.Base.Result.{Error, Result, ok, err, Result-cases}
use libmediasouphandler.Base.State.{continue, ◌>>=◌, pure, Keeps, Keeps-bind, Keeps-lift}
use libmediasouphandler.Json.{Json, null, find, str, assign_member}
use libmediasouphandler.Sdp.MediaSection.Offer.{new_offer}
use libmediasouphandler.Sdp.RemoteSdp.{receive, update_dtls_role}
use libmediasouphandler.Sdp.RemoteSdp.State.{RemoteSdp}
use libmediasouphandler.Sdp.Slots.{Slot, position, add_slot}
use libmediasouphandler.Sdp.Refines.{Refines}
use libmediasouphandler.Sdp.Refines.Call.{Outcome, receive-Outcome}
use libmediasouphandler.Sdp.Refines.Update.{update_dtls_role-Refines}
use libmediasouphandler.Sdp.Refines.Reach.{get_sdp-Refines}
use libmediasouphandler.Sdp.Utils.{extract_dtls_parameters}
use libmediasouphandler.Handler.{
  Handler, on_pc, on_sdp, ask, setup_transport, ensure_transport, dtls_role,
}
use libmediasouphandler.Handler.State.{local_object}
use libmediasouphandler.Handler.Connection.{Peer, SdpTransform}
use libmediasouphandler.Handler.Answer.{cname_of}
use libmediasouphandler.Handler.Recv.{
  RecvResult, local_id_of, with_mid, receive_track, receive_as, note_transceiver, note_received,
  negotiate_receive,
}
use libmediasouphandler.Handler.Steps.{Steps, negotiate_receive-Keeps}

module _ {P D C Y Q : Type 0} (peer : Peer P D C Y Q) (lib : SdpTransform) where
  -- The handler's remote description stands for the slots.
  abbrev pub Stands : List Slot → Handler P → Type 0
  Stands slots h = Refines slots h.remote_sdp

  setup_transport-Stands :
      (slots : List Slot) (role : String) (given : Json)
      → Keeps (Stands slots) (setup_transport peer lib role given)
  unfolding setup_transport
  setup_transport-Stands slots role given =
      Keeps-bind (Stands slots) (ask (λ h. local_object peer lib h.pc given)) _ (λ h i. i)
        λ local. Keeps-lift (Stands slots) (extract_dtls_parameters local) _ λ dtls.
          Keeps-lift (Stands slots) (assign_member "role" (some (str role)) dtls) _ λ dtls'.
            Keeps-bind (Stands slots)
              (on_sdp (update_dtls_role (if role == "client" then "server" else "client"))) _
              (λ h i.
                update_dtls_role-Refines (if role == "client" then "server" else "client") slots
                  h.remote_sdp i)
              λ u. Keeps-bind (Stands slots) (on_pc (peer.on_connect dtls')) _ (λ h i. i) λ v h i. i

  pub steps-Stands : (slots : List Slot) → Steps peer lib (Stands slots)
  unfolding ensure_transport
  steps-Stands slots = record {
    offered = λ b h i. i;
    answered = λ h i. i;
    local_set = λ t text h i. i;
    remote_set = λ t text h i. i;
    printed = λ h i. get_sdp-Refines lib.write slots h.remote_sdp i;
    ensured = λ own local h i.
        if-cases (λ (out : Result (Unit {0}) × Handler P). Stands slots out.1) h.transport_ready
          (λ e. i)
          λ e.
            let out = setup_transport peer lib (dtls_role own h) local h in
            Keeps-lift (Stands slots) out.0 (λ unused. pure tt) (λ unused t j. j) out.1
              (setup_transport-Stands slots (dtls_role own h) local h i);
  }

  -- Receive has added a slot, or has thrown and left the sections alone.
  abbrev pub Settled : List Slot → String → Result RecvResult × Handler P → Type 0
  Settled slots local_id out =
      Refines (add_slot local_id slots) out.1.remote_sdp
      ⊎ ((e : Error) × (out.0 ≡ err e) × Refines slots out.1.remote_sdp)

  note_received-same :
      (local_id : String) (h : Handler P)
      → (note_received peer lib local_id h).1.remote_sdp ≡ h.remote_sdp
  unfolding note_received note_transceiver
  note_received-same local_id h =
      elim (Result-cases (with_mid (peer.mid h.pc) local_id (peer.get_transceivers h.pc))) [
        | inl (x, q) ↦ rw q refl
        | inr (t, q) ↦ rw q refl
      ]

  after_section :
      (slots : List Slot) (local_id : String) (parameters : Json)
      → Keeps
          (Stands slots)
          (negotiate_receive peer lib local_id parameters >>= λ u. note_received peer lib local_id)
  after_section slots local_id parameters =
      Keeps-bind (Stands slots) (negotiate_receive peer lib local_id parameters)
        (λ u. note_received peer lib local_id)
        (negotiate_receive-Keeps peer lib (Stands slots) (steps-Stands slots) local_id parameters)
        λ u h i. rw (note_received-same local_id h) i

  after_receive :
      {M : Type 0} (slots : List Slot) (local_id : String) (parameters : Json) (h : Handler P)
      (made : Result M) (out : Result (Unit {0}) × RemoteSdp)
      → Refines slots h.remote_sdp
      → Outcome (add_slot local_id slots) h.remote_sdp made out
      → Settled slots local_id (
          continue out.0
            (λ u. negotiate_receive peer lib local_id parameters >>= λ v.
              note_received peer lib local_id)
            (record h { remote_sdp = out.1 }))
  after_receive slots local_id parameters h (err e) out r o = rw o (inr (e, refl, r))
  after_receive slots local_id parameters h (ok m) out r (a, e, t) = rw e (
      inl (
        after_section (add_slot local_id slots) local_id parameters
          (record h { remote_sdp = out.1 }) t))

  receive_as-Settled :
      (slots : List Slot) (id kind : String) (parameters : Json) (local_id : String) (h : Handler P)
      → Refines slots h.remote_sdp
      → is_empty local_id ≡ false
      → position local_id slots ≡ none
      → Settled slots local_id (receive_as peer lib id kind parameters local_id h)
  unfolding receive_as
  receive_as-Settled slots id kind parameters local_id h r e n =
      elim (Result-cases (cname_of parameters)) [
        | inl (x, q) ↦ rw q (inr (x, refl, r))
        | inr (cname, q) ↦ rw q (
            after_receive slots local_id parameters h
              (new_offer lib.show_float h.remote_sdp.ice_parameters h.remote_sdp.ice_candidates null
                local_id kind parameters cname id)
              (receive lib.show_float local_id kind parameters cname id h.remote_sdp) r
              (receive-Outcome lib.show_float slots h.remote_sdp local_id kind parameters cname id r
                e n))
      ]

  -- Receive, on a handler whose remote description refines slots, where the local id (the parameters'
  -- mid if it is a text that is not empty, and else the size of the map) is not empty and no slot has it:
  -- either the description refines the slots with the id added, in the first closed slot or after the
  -- last, whether the negotiation that follows returns or throws, or Receive throws and the description
  -- refines the same slots.
  pub receive_track-Settled :
      (slots : List Slot) (id kind : String) (parameters : Json) (h : Handler P)
      → let local_id = local_id_of (find "mid" parameters) h.map_mid_transceiver in
        let out = receive_track peer lib id kind parameters h in
        Refines slots h.remote_sdp
        → is_empty local_id ≡ false
        → position local_id slots ≡ none
        → Refines (add_slot local_id slots) out.1.remote_sdp
          ⊎ ((e : Error) × (out.0 ≡ err e) × Refines slots out.1.remote_sdp)
  unfolding receive_track
  receive_track-Settled slots id kind parameters h r e n =
      receive_as-Settled slots id kind parameters
        (local_id_of (find "mid" parameters) h.map_mid_transceiver) h r e n
