-- ===== src/Sdp/Shown/Made.antt =====
-- The constructors of src/sdp/MediaSection.cpp make open sections with the mid they are given.
use libmediasouphandler.Base.{
  String, Bool, true, ◌&&◌, not, List, [], ◌∷◌, ◌≡◌, refl, ◌∙◌, arith, ◌==◌, if-cases,
}
use libmediasouphandler.Base.Result.{Ensures, Ensures-ok, Ensures-bind, Ensures-after}
use libmediasouphandler.Json.{
  Json, Fields, get, put, get-put, const_element, const_first, get_uint32, iterate, traverse,
}
use libmediasouphandler.Sdp.MediaSection.{put_all, new_object}
use libmediasouphandler.Sdp.MediaSection.Codecs.{
  payloads_of, extension_line, ShowFloat, data_members, is_media,
}
use libmediasouphandler.Sdp.MediaSection.Offer.{
  offer_media, offer_details, new_offer, all_codec_lines, rtx_ssrc,
}
use libmediasouphandler.Sdp.Slots.{opened}
use libmediasouphandler.Sdp.Shown.Section.{Shows, Shows-by}

-- No member has the key.
abbrev pub lacks : String → List (String × Json) → Bool
lacks k [] = true
lacks k ((j, v) ∷ ms) = not (j == k) && lacks k ms

-- The members leave a section's mid and port alone.
abbrev pub Details : List (String × Json) → Type 0
Details ms = (lacks "mid" ms ≡ true) × (lacks "port" ms ≡ true)

pub get-put_all :
    (k : String) (ms : List (String × Json)) (fs : Fields)
    → lacks k ms ≡ true
    → get k (put_all ms fs) ≡ get k fs
unfolding put_all
get-put_all k [] fs h = refl
get-put_all k ((j, v) ∷ ms) fs h = ground (arith, get-put_all k ms (put j v fs), get-put j k v fs)

pub data_members-Details : (sctp : Json) → Ensures Details (data_members sctp)
unfolding data_members
data_members-Details sctp =
    Ensures-after (const_element "port" sctp) _
      λ p. Ensures-after (const_element "maxMessageSize" sctp) _ λ q. Ensures-ok (refl, refl)

module _ (show_float : ShowFloat) where
  offer_media-Details :
      (parameters : Json) (stream_id track_id : String)
      → Ensures Details (offer_media show_float parameters stream_id track_id)
  unfolding offer_media
  offer_media-Details parameters stream_id track_id =
      Ensures-after (const_element "codecs" parameters) _ λ codecs.
        Ensures-after (all_codec_lines show_float (iterate codecs)) _ λ lines.
          Ensures-after (payloads_of const_element (iterate codecs)) _ λ payloads.
            Ensures-after (const_element "headerExtensions" parameters) _ λ exts.
              Ensures-after (traverse (extension_line const_element) (iterate exts)) _ λ ext_lines.
                Ensures-after (const_element "encodings" parameters) _ λ encodings.
                  Ensures-after (const_first encodings) _ λ encoding.
                    Ensures-after (const_element "ssrc" encoding) _ λ value.
                      Ensures-after (get_uint32 value) _ λ ssrc.
                        Ensures-after (rtx_ssrc encoding) _ λ rtx.
                          Ensures-after (const_element "rtcp" parameters) _
                            λ rtcp. Ensures-ok (refl, refl)

  offer_details-Details :
      (kind : String) (sctp parameters : Json) (stream_id track_id : String)
      → Ensures Details (offer_details show_float kind sctp parameters stream_id track_id)
  unfolding offer_details
  offer_details-Details kind sctp parameters stream_id track_id =
      if-cases (Ensures Details) (is_media kind)
        (λ e. offer_media-Details parameters stream_id track_id)
        λ e.
          if-cases (Ensures Details) (kind == "application") (λ e. data_members-Details sctp)
            λ e. Ensures-ok (refl, refl)

  -- A section that offers.
  pub new_offer-Shows :
      (ice candidates sctp : Json) (mid kind : String) (parameters : Json)
      (stream_id track_id : String)
      → Ensures
          (λ m. Shows m (opened mid))
          (new_offer show_float ice candidates sctp mid kind parameters stream_id track_id)
  unfolding new_offer put_all
  new_offer-Shows ice candidates sctp mid kind parameters stream_id track_id =
      Ensures-after (new_object ice candidates) _ λ base.
        Ensures-bind (offer_details show_float kind sctp parameters stream_id track_id) _
          (offer_details-Details kind sctp parameters stream_id track_id)
          λ details h. Ensures-ok (
            Shows-by _ mid (get-put_all "mid" details _ h.0 ∙ simp (get-put))
              (get-put_all "port" details _ h.1 ∙ simp (get-put)))
