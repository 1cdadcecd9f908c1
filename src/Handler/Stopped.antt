-- ===== src/Handler/Stopped.antt =====
-- What StopReceiving and StopSending of src/Handler.cpp make of the remote description's sections.
use libmediasouphandler.Base.{ℕ, String, false, none, some, List, ◌≡◌}
use libmediasouphandler.Sdp.RemoteSdp.Store.{lookup}
use libmediasouphandler.Sdp.Slots.{Slot, position, close_slot}
use libmediasouphandler.Sdp.Refines.{Refines}
use libmediasouphandler.Sdp.Refines.Close.{close_media_section-Refines}
use libmediasouphandler.Handler.{Handler, transceiver_of}
use libmediasouphandler.Handler.Connection.{Peer, SdpTransform}
use libmediasouphandler.Handler.Senders.{stop_sending, stop_transceiver, close_sending}
use libmediasouphandler.Handler.Recv.{stop_receiving, stop_receiving_of, close_receiving}
use libmediasouphandler.Handler.Steps.{offer_again-Keeps, answer_again-Keeps}
use libmediasouphandler.Handler.Sections.{Stands, steps-Stands}

module _ {P D C Y Q : Type 0} (peer : Peer P D C Y Q) (lib : SdpTransform) where
  close_receiving-Stands :
      (slots : List Slot) (mid : String) (i : ℕ) (h : Handler P)
      → Stands peer lib slots h
      → position mid slots ≡ some i
      → Stands peer lib (close_slot mid slots) (close_receiving peer lib mid h).1
  unfolding close_receiving
  close_receiving-Stands slots mid i h r p =
      let (r', e, t) = close_media_section-Refines slots h.remote_sdp mid i r p in
      rw e (
        answer_again-Keeps peer lib (Stands peer lib (close_slot mid slots))
          (steps-Stands peer lib (close_slot mid slots)) (record h { remote_sdp = r' }) t)

  close_sending-Stands :
      (slots : List Slot) (mid : String) (i : ℕ) (h : Handler P)
      → Stands peer lib slots h
      → position mid slots ≡ some i
      → Stands peer lib (close_slot mid slots) (close_sending peer lib mid h).1
  unfolding close_sending
  close_sending-Stands slots mid i h r p =
      let (r', e, t) = close_media_section-Refines slots h.remote_sdp mid i r p in
      rw e (
        offer_again-Keeps peer lib (Stands peer lib (close_slot mid slots))
          (steps-Stands peer lib (close_slot mid slots)) false (record h { remote_sdp = r' }) t)

  -- StopReceiving of a local id whose transceiver has it as its mid, on a handler whose remote
  -- description refines slots with that mid: the slot is closed (unless it is the first), whether the
  -- negotiation that follows returns or throws.
  pub stop_receiving-Stands :
      (slots : List Slot) (local_id : String) (transceiver i : ℕ) (h : Handler P)
      → Refines slots h.remote_sdp
      → lookup local_id h.map_mid_transceiver ≡ some transceiver
      → peer.mid h.pc transceiver ≡ some local_id
      → position local_id slots ≡ some i
      → Refines (close_slot local_id slots) (stop_receiving peer lib local_id h).1.remote_sdp
  unfolding stop_receiving transceiver_of stop_receiving_of
  stop_receiving-Stands slots local_id transceiver i h r e m p =
      rw e (rw m (close_receiving-Stands slots local_id i h r p))

  -- StopSending of a local id, whose transceiver has it as its mid when its track is taken away, on a
  -- handler whose remote description refines slots with that mid: the slot is closed (unless it is the
  -- first), whether the negotiation that follows returns or throws.
  pub stop_sending-Stands :
      (slots : List Slot) (local_id : String) (transceiver i : ℕ) (h : Handler P)
      → Refines slots h.remote_sdp
      → lookup local_id h.map_mid_transceiver ≡ some transceiver
      → peer.mid
          (peer.remove_track
            (peer.sender transceiver)
            (peer.set_track (peer.sender transceiver) none h.pc))
          transceiver
        ≡ some local_id
      → position local_id slots ≡ some i
      → Refines (close_slot local_id slots) (stop_sending peer lib local_id h).1.remote_sdp
  unfolding stop_sending transceiver_of stop_transceiver
  stop_sending-Stands slots local_id transceiver i h r e m p = rw e (
      rw m (
        close_sending-Stands slots local_id i
          (record h {
            pc =
                peer.remove_track (peer.sender transceiver)
                  (peer.set_track (peer.sender transceiver) none h.pc);
          })
          r p))
