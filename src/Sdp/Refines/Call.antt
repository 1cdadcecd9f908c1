-- ===== src/Sdp/Refines/Call.antt =====
-- Receive, Send, the SCTP associations and GetNextMediaSectionIdx, as their callers see them.
use libmediasouphandler.Base.{String, false, Option, none, some, List, ◌≡◌, refl, inl, inr}
use libmediasouphandler.Base.Text.{is_empty}
use libmediasouphandler.Base.Result.{Result, ok, err, Result-cases}
use libmediasouphandler.Json.{Json, null, str, find}
use libmediasouphandler.Sdp.MediaSection.{MediaSection}
use libmediasouphandler.Sdp.MediaSection.Codecs.{ShowFloat}
use libmediasouphandler.Sdp.MediaSection.Offer.{new_offer}
use libmediasouphandler.Sdp.MediaSection.Answer.{new_answer}
use libmediasouphandler.Sdp.RemoteSdp.{
  get_next_media_section_idx, receive, send_sctp_association, recv_sctp_association, send,
}
use libmediasouphandler.Sdp.RemoteSdp.State.{RemoteSdp}
use libmediasouphandler.Sdp.Refines.Add.{add_media_section-Refines}
use libmediasouphandler.Sdp.Slots.{reusable, Slot, position, next_slot, add_slot}
use libmediasouphandler.Sdp.Shown.{next_from-Shown}
use libmediasouphandler.Sdp.Shown.Made.{new_offer-Shows}
use libmediasouphandler.Sdp.Shown.Answered.{new_answer-Shows}
use libmediasouphandler.Sdp.Refines.{Refines}
use libmediasouphandler.Sdp.Refines.Place.{place_section-Refines, next_section-Refines}

-- A call that makes a section first: where that throws, nothing has changed, and where it returns,
-- the call returns and the description stands for `slots`.
abbrev pub Outcome :
    {M A : Type 0} → List Slot → RemoteSdp → Result M → Result A × RemoteSdp → Type 0
Outcome slots r (err e) out = out ≡ (err e, r)
Outcome {A = A} slots r (ok m) out = (a : A) × (out.0 ≡ ok a) × Refines slots out.1

-- On a description that refines slots, GetNextMediaSectionIdx returns the index and the mid of the first closed section, and where none is
-- closed the number of sections and an empty text.
pub get_next_media_section_idx-Refines :
    (slots : List Slot) (r : RemoteSdp)
    → Refines slots r
    → get_next_media_section_idx r ≡ ok (next_slot 0 slots)
unfolding get_next_media_section_idx
get_next_media_section_idx-Refines slots r h = next_from-Shown 0 r.media_sections slots h.shown

module _ (show_float : ShowFloat) (slots : List Slot) (r : RemoteSdp) (mid : String) where
  -- Receive of a new mid that is not empty, on a description that refines slots: where the section
  -- cannot be made it throws the same and changes nothing; otherwise it returns, and the section has
  -- taken the first closed slot, or one after the last.
  pub receive-Outcome :
      (kind : String) (parameters : Json) (stream_id track_id : String)
      → Refines slots r
      → is_empty mid ≡ false
      → position mid slots ≡ none
      → Outcome
          (add_slot mid slots)
          r
          (new_offer show_float r.ice_parameters r.ice_candidates null mid kind parameters stream_id
            track_id)
          (receive show_float mid kind parameters stream_id track_id r)
  unfolding receive
  receive-Outcome kind parameters stream_id track_id h e n = elim (Result-cases made) [
    | inl (x, q) ↦ rw q refl
    | inr (m, q) ↦
        let shows =
          (new_offer-Shows show_float r.ice_parameters r.ice_candidates null mid kind parameters
              stream_id track_id).returns
            m q in
        let (r', p, t) = place_section-Refines slots r m mid h shows e n in rw (q, p) (tt, refl, t)
  ]
    where
      made : Result MediaSection
      made =
          new_offer show_float r.ice_parameters r.ice_candidates null mid kind parameters stream_id
            track_id

  -- Send of an offer with a new mid that is not empty and the mid to reuse that
  -- GetNextMediaSectionIdx gives, on a description that refines slots: where the section cannot be
  -- made it throws the same and changes nothing; otherwise it returns the offer's RTP parameters, and
  -- the section has taken the first closed slot, or one after the last.
  pub send-Outcome :
      (offer_media offer parameters : Json) (options : Option Json)
      → Refines slots r
      → find "mid" offer_media ≡ some (str mid)
      → is_empty mid ≡ false
      → position mid slots ≡ none
      → Outcome
          (add_slot mid slots)
          r
          (new_answer show_float options r.ice_parameters r.ice_candidates r.dtls_parameters
            r.sctp_parameters offer_media offer parameters)
          (send show_float offer_media (next_slot 0 slots).1 offer parameters options r)
  unfolding send
  send-Outcome offer_media offer parameters options h g e n = elim (Result-cases made) [
    | inl (x, q) ↦ rw q refl
    | inr ((m, offer'), q) ↦
        let shows =
          (new_answer-Shows show_float options r.ice_parameters r.ice_candidates r.dtls_parameters
              r.sctp_parameters offer_media offer parameters mid g).returns
            (m, offer') q in
        let (r', p, t) = next_section-Refines slots r m mid h shows e n in
        rw (q, p) (offer', refl, t)
  ]
    where
      made : Result (MediaSection × Json)
      made =
          new_answer show_float options r.ice_parameters r.ice_candidates r.dtls_parameters
            r.sctp_parameters offer_media offer parameters

  -- The SCTP association of what is sent, where no section is closed.
  pub send_sctp_association-Outcome :
      (offer_media : Json)
      → Refines slots r
      → find "mid" offer_media ≡ some (str mid)
      → is_empty mid ≡ false
      → position mid slots ≡ none
      → reusable slots ≡ none
      → Outcome
          (add_slot mid slots)
          r
          (new_answer show_float none r.ice_parameters r.ice_candidates r.dtls_parameters
            r.sctp_parameters offer_media null null)
          (send_sctp_association show_float offer_media r)
  unfolding send_sctp_association
  send_sctp_association-Outcome offer_media h g e n u = elim (Result-cases made) [
    | inl (x, q) ↦ rw q refl
    | inr ((m, offer'), q) ↦
        let shows =
          (new_answer-Shows show_float none r.ice_parameters r.ice_candidates r.dtls_parameters
              r.sctp_parameters offer_media null null mid g).returns
            (m, offer') q in
        let (r', p, t) = add_media_section-Refines slots r m mid h shows e n u in
        rw (q, p) (tt, refl, t)
  ]
    where
      made : Result (MediaSection × Json)
      made =
          new_answer show_float none r.ice_parameters r.ice_candidates r.dtls_parameters
            r.sctp_parameters offer_media null null

module _ (show_float : ShowFloat) (slots : List Slot) (r : RemoteSdp) where
  -- The SCTP association of what is received, where no section is closed.
  pub recv_sctp_association-Outcome :
      Refines slots r
      → position "datachannel" slots ≡ none
      → reusable slots ≡ none
      → Outcome
          (add_slot "datachannel" slots)
          r
          (new_offer show_float r.ice_parameters r.ice_candidates r.sctp_parameters "datachannel"
            "application" null "" "")
          (recv_sctp_association show_float r)
  unfolding recv_sctp_association
  recv_sctp_association-Outcome h n u = elim (Result-cases made) [
    | inl (x, q) ↦ rw q refl
    | inr (m, q) ↦
        let shows =
          (new_offer-Shows show_float r.ice_parameters r.ice_candidates r.sctp_parameters
              "datachannel" "application" null "" "").returns
            m q in
        let (r', p, t) = add_media_section-Refines slots r m "datachannel" h shows refl n u in
        rw (q, p) (tt, refl, t)
  ]
    where
      made : Result MediaSection
      made =
          new_offer show_float r.ice_parameters r.ice_candidates r.sctp_parameters "datachannel"
            "application" null "" ""
