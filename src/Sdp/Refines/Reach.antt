-- ===== src/Sdp/Refines/Reach.antt =====
-- What a RemoteSdp may become: the constructor, then any calls but DisableMediaSection, the SCTP
-- associations while no section is closed. A call that cannot make its section changes nothing and is
-- left out.
use libmediasouphandler.Base.{ℕ, String, false, none, some, List, [], ◌≡◌, refl, Option}
use libmediasouphandler.Base.Text.{is_empty}
use libmediasouphandler.Base.Result.{Result, ok, err, Ensures, Ensures-ok, Ensures-after}
use libmediasouphandler.Json.{Json, str, find, member_or_null}
use libmediasouphandler.Sdp.MediaSection.Codecs.{ShowFloat}
use libmediasouphandler.Sdp.RemoteSdp.{
  update_ice_parameters, update_dtls_role, receive, send, send_sctp_association,
  recv_sctp_association, close_media_section, get_sdp,
}
use libmediasouphandler.Sdp.RemoteSdp.State.{RemoteSdp, new_remote_sdp, latest_fingerprint}
use libmediasouphandler.Sdp.RemoteSdp.Store.{lookup}
use libmediasouphandler.Sdp.Slots.{
  reusable, Slot, position, next_slot, add_slot, close_slot, bundle,
}
use libmediasouphandler.Sdp.Refines.{Refines}
use libmediasouphandler.Sdp.Refines.Close.{close_media_section-Refines}
use libmediasouphandler.Sdp.Refines.Update.{update_ice_parameters-Refines, update_dtls_role-Refines}
use libmediasouphandler.Sdp.Refines.Call.{
  Outcome, receive-Outcome, send-Outcome, send_sctp_association-Outcome,
  recv_sctp_association-Outcome,
}

new_remote_sdp-Refines :
    (ice candidates dtls sctp : Json)
    → Ensures (Refines []) (new_remote_sdp ice candidates dtls sctp)
unfolding new_remote_sdp position lookup bundle
new_remote_sdp-Refines ice candidates dtls sctp =
    Ensures-after (member_or_null "fingerprints" dtls) _ λ fingerprints.
      Ensures-after (latest_fingerprint fingerprints) _ λ latest.
        Ensures-after (member_or_null "algorithm" latest) _ λ algorithm.
          Ensures-after (member_or_null "value" latest) _ λ value. Ensures-ok (record {
            shown = tt;
            synced = refl;
            indexed = λ mid. refl;
            well = record { named = tt; distinct = tt; head_open = tt };
            first = refl;
            bundled = refl;
          })

pub get_sdp-Refines :
    (write : Json → String) (slots : List Slot) (r : RemoteSdp)
    → Refines slots r
    → Refines slots (get_sdp write r).1
unfolding get_sdp
get_sdp-Refines write slots r h = record {
  shown = h.shown;
  synced = h.synced;
  indexed = h.indexed;
  well = h.well;
  first = h.first;
  bundled = h.bundled;
}

Outcome-ok :
    {M A : Type 0} (slots : List Slot) (r : RemoteSdp) (made : Result M)
    (out : Result A × RemoteSdp) (a : A)
    → Outcome slots r made out
    → out.0 ≡ ok a
    → Refines slots out.1
Outcome-ok slots r (err e) out a h k = cc
Outcome-ok slots r (ok m) out a h k = h.2

module _ (show_float : ShowFloat) where
  -- `Reaches slots r`: calls have made `r`, and the abstract operations `slots`.
  pub data Reaches : List Slot → RemoteSdp → Type 0 where
    constructed :
        (ice candidates dtls sctp : Json) (r : RemoteSdp)
        → new_remote_sdp ice candidates dtls sctp ≡ ok r
        → Reaches [] r
    updated_ice :
        (slots : List Slot) (r : RemoteSdp) (ice : Json)
        → Reaches slots r
        → Reaches slots (update_ice_parameters ice r).1
    updated_role :
        (slots : List Slot) (r : RemoteSdp) (role : String)
        → Reaches slots r
        → Reaches slots (update_dtls_role role r).1
    received :
        (slots : List Slot) (r : RemoteSdp) (mid kind : String) (parameters : Json)
        (stream_id track_id : String)
        → Reaches slots r
        → is_empty mid ≡ false
        → position mid slots ≡ none
        → (receive show_float mid kind parameters stream_id track_id r).0 ≡ ok tt
        → Reaches
            (add_slot mid slots)
            (receive show_float mid kind parameters stream_id track_id r).1
    sent :
        (slots : List Slot) (r : RemoteSdp) (mid : String) (offer_media offer parameters : Json)
        (options : Option Json) (offer' : Json)
        → Reaches slots r
        → find "mid" offer_media ≡ some (str mid)
        → is_empty mid ≡ false
        → position mid slots ≡ none
        → (send show_float offer_media (next_slot 0 slots).1 offer parameters options r).0
          ≡ ok offer'
        → Reaches
            (add_slot mid slots)
            (send show_float offer_media (next_slot 0 slots).1 offer parameters options r).1
    sent_sctp :
        (slots : List Slot) (r : RemoteSdp) (mid : String) (offer_media : Json)
        → Reaches slots r
        → find "mid" offer_media ≡ some (str mid)
        → is_empty mid ≡ false
        → position mid slots ≡ none
        → reusable slots ≡ none
        → (send_sctp_association show_float offer_media r).0 ≡ ok tt
        → Reaches (add_slot mid slots) (send_sctp_association show_float offer_media r).1
    received_sctp :
        (slots : List Slot) (r : RemoteSdp)
        → Reaches slots r
        → position "datachannel" slots ≡ none
        → reusable slots ≡ none
        → (recv_sctp_association show_float r).0 ≡ ok tt
        → Reaches (add_slot "datachannel" slots) (recv_sctp_association show_float r).1
    closed :
        (slots : List Slot) (r : RemoteSdp) (mid : String) (i : ℕ)
        → Reaches slots r
        → position mid slots ≡ some i
        → Reaches (close_slot mid slots) (close_media_section mid r).1
    asked :
        (slots : List Slot) (r : RemoteSdp) (write : Json → String)
        → Reaches slots r
        → Reaches slots (get_sdp write r).1

  -- A description that the constructor has made and any calls of UpdateIceParameters, UpdateDtlsRole,
  -- Receive, Send, SendSctpAssociation, RecvSctpAssociation, CloseMediaSection and GetSdp have changed
  -- (those that make a section with a new mid that is not empty and returning, Send with the mid to
  -- reuse that GetNextMediaSectionIdx gives, the associations while no section is closed, a close of a
  -- mid that is there, the updates returning or throwing) refines the slots that the abstract
  -- operations have made: each section has its slot's mid and is closed as the slot is, sdpObject has
  -- every section's object in its place, midToIndex is the position of every mid, no mid stands twice,
  -- the first section is open, and the group BUNDLE is the open sections' mids with spaces between.
  pub Reaches-Refines : (slots : List Slot) (r : RemoteSdp) → Reaches slots r → Refines slots r
  Reaches-Refines _ _ (constructed ice candidates dtls sctp r e) =
      (new_remote_sdp-Refines ice candidates dtls sctp).returns r e
  Reaches-Refines _ _ (updated_ice slots r ice h) =
      update_ice_parameters-Refines ice slots r (Reaches-Refines slots r h)
  Reaches-Refines _ _ (updated_role slots r role h) =
      update_dtls_role-Refines role slots r (Reaches-Refines slots r h)
  Reaches-Refines _ _ (received slots r mid kind parameters stream_id track_id h e n k) =
      Outcome-ok (add_slot mid slots) r _ _ tt
        (receive-Outcome show_float slots r mid kind parameters stream_id track_id
          (Reaches-Refines slots r h) e n)
        k
  Reaches-Refines _ _ (sent slots r mid offer_media offer parameters options offer' h g e n k) =
      Outcome-ok (add_slot mid slots) r _ _ offer'
        (send-Outcome show_float slots r mid offer_media offer parameters options
          (Reaches-Refines slots r h) g e n)
        k
  Reaches-Refines _ _ (sent_sctp slots r mid offer_media h g e n u k) =
      Outcome-ok (add_slot mid slots) r _ _ tt
        (send_sctp_association-Outcome show_float slots r mid offer_media
          (Reaches-Refines slots r h) g e n u)
        k
  Reaches-Refines _ _ (received_sctp slots r h n u k) =
      Outcome-ok (add_slot "datachannel" slots) r _ _ tt
        (recv_sctp_association-Outcome show_float slots r (Reaches-Refines slots r h) n u) k
  Reaches-Refines _ _ (closed slots r mid i h p) =
      let (r', e, t) = close_media_section-Refines slots r mid i (Reaches-Refines slots r h) p in
      rw e t
  Reaches-Refines _ _ (asked slots r write h) =
      get_sdp-Refines write slots r (Reaches-Refines slots r h)
