-- ===== src/Sdp/Shown/Answered.antt =====
-- AnswerMediaSection's constructor makes an open section with the offer's mid.
use libmediasouphandler.Base.{
  String, true, Option, none, some, List, [], ◌∷◌, ◌++◌, ◌≡◌, refl, ◌∙◌, arith, ◌==◌, if◌then◌else◌,
  if-cases,
}
use libmediasouphandler.Base.Result.{ok, Ensures, Ensures-ok, Ensures-bind, Ensures-after}
use libmediasouphandler.Json.{
  Json, obj, str, get-put, find, find_value, const_element, member_or_null, get_string, iterate,
  is_object, is_array, flat_map,
}
use libmediasouphandler.Sdp.MediaSection.{put_all, new_object, setup_of}
use libmediasouphandler.Sdp.MediaSection.Codecs.{ShowFloat, data_members, is_media, payloads_of}
use libmediasouphandler.Sdp.MediaSection.Answer.{
  answer_media, answer_details, new_answer, answer_codecs, extension_lines, simulcast_members,
  simulcast_lines, with_rids, mixed_of, is_sent, rid_line, line_if,
}
use libmediasouphandler.Sdp.Slots.{opened}
use libmediasouphandler.Sdp.Shown.Section.{Shows, Shows-by, get-with_member}
use libmediasouphandler.Sdp.Shown.Made.{lacks, Details, get-put_all, data_members-Details}

lacks-append :
    (k : String) (ms ns : List (String × Json))
    → lacks k ms ≡ true
    → lacks k ns ≡ true
    → lacks k (ms ++ ns) ≡ true
lacks-append k [] ns h g = g
lacks-append k ((j, v) ∷ ms) ns h g = ground (arith, lacks-append k ms ns)

Details-append : (ms ns : List (String × Json)) → Details ms → Details ns → Details (ms ++ ns)
Details-append ms ns h g = (lacks-append "mid" ms ns h.0 g.0, lacks-append "port" ms ns h.1 g.1)

mixed_of-Details : (o : Option Json) → Details (mixed_of o)
mixed_of-Details none = (refl, refl)
mixed_of-Details (some (str s)) = (refl, refl)
mixed_of-Details (some _) = (refl, refl)

simulcast_lines-Details : (simulcast rids : Json) → Ensures Details (simulcast_lines simulcast rids)
simulcast_lines-Details simulcast rids = Ensures-after (const_element "list1" simulcast) _ λ list1.
    Ensures-after (flat_map (line_if is_sent rid_line) (iterate rids)) _
      λ lines. Ensures-ok (refl, refl)

simulcast_members-Details : (offer_media : Json) → Ensures Details (simulcast_members offer_media)
unfolding simulcast_members with_rids
simulcast_members-Details offer_media = by_simulcast (find "simulcast" offer_media)
  where
    by_simulcast :
        (o : Option Json)
        → Ensures Details (elim o [
          | none ↦ ok []
          | some simulcast ↦ if is_object simulcast then with_rids simulcast offer_media else ok []
        ])
    by_simulcast none = Ensures-ok (refl, refl)
    by_simulcast (some simulcast) =
        if-cases (Ensures Details) (is_object simulcast)
          (λ e. Ensures-after (find_value "rids" offer_media) _ λ rids.
            if-cases (Ensures Details) (is_array rids) (λ f. simulcast_lines-Details simulcast rids)
              λ f. Ensures-ok (refl, refl))
          λ e. Ensures-ok (refl, refl)

-- A member that is found is what operator[] returns.
known_member :
    (k : String) (j v : Json) → find k j ≡ some v → Ensures (λ w. w ≡ v) (const_element k j)
unfolding find const_element
known_member k (obj fs) v h = rw h (Ensures-ok refl)
known_member k _ v h = cc

abbrev rtcp : List (String × Json)
rtcp = ("rtcpMux", str "rtcp-mux") ∷ ("rtcpRsize", str "rtcp-rsize") ∷ []

module _ (show_float : ShowFloat) (options : Option Json) where
  answer_media-Details :
      (offer_media offer parameters : Json)
      → Ensures (λ d. Details d.1) (answer_media show_float options offer_media offer parameters)
  unfolding answer_media
  answer_media-Details offer_media offer parameters =
      let mixed = mixed_of (find "extmapAllowMixed" offer_media) in
      Ensures-after (member_or_null "codecs" parameters) _ λ codecs.
        Ensures-after (answer_codecs show_float options offer (iterate codecs)) _ λ l.
          Ensures-after (payloads_of member_or_null (iterate codecs)) _ λ payloads.
            Ensures-after (extension_lines offer_media parameters) _ λ exts.
              Ensures-bind (simulcast_members offer_media) _ (simulcast_members-Details offer_media)
                λ simulcast h. Ensures-ok (
                  Details-append (mixed ++ simulcast) rtcp
                    (Details-append mixed simulcast
                      (mixed_of-Details (find "extmapAllowMixed" offer_media)) h)
                    (refl, refl))

  answer_details-Details :
      (type : String) (sctp offer_media offer parameters : Json)
      → Ensures
          (λ d. Details d.1)
          (answer_details show_float options type sctp offer_media offer parameters)
  unfolding answer_details
  answer_details-Details type sctp offer_media offer parameters =
      if-cases (Ensures (λ d. Details d.1)) (is_media type)
        (λ e. answer_media-Details offer_media offer parameters)
        λ e.
          if-cases (Ensures (λ d. Details d.1)) (type == "application")
            (λ e.
              Ensures-bind (data_members sctp) _ (data_members-Details sctp) λ ms h. Ensures-ok h)
            λ e. Ensures-ok (refl, refl)

  -- A section that answers.
  pub new_answer-Shows :
      (ice candidates dtls sctp offer_media offer parameters : Json) (mid : String)
      → find "mid" offer_media ≡ some (str mid)
      → Ensures
          (λ m. Shows m.0 (opened mid))
          (new_answer show_float options ice candidates dtls sctp offer_media offer parameters)
  unfolding new_answer put_all
  new_answer-Shows ice candidates dtls sctp offer_media offer parameters mid g =
      Ensures-after (new_object ice candidates) _ λ base.
        Ensures-after (const_element "type" offer_media) _ λ value.
          Ensures-after (get_string value) _ λ type.
            Ensures-bind (const_element "mid" offer_media) _
              (known_member "mid" offer_media (str mid) g)
              λ m k. Ensures-after (const_element "protocol" offer_media) _ λ protocol.
                Ensures-after (const_element "role" dtls) _ λ role_value.
                  Ensures-after (get_string role_value) _ λ role.
                    Ensures-bind
                      (answer_details show_float options type sctp offer_media offer parameters) _
                      (answer_details-Details type sctp offer_media offer parameters)
                      λ d h. Ensures-ok (
                        Shows-by _ mid
                          (get-put_all "mid" d.1 _ h.0
                            ∙ get-with_member "mid" (setup_of role) _ refl
                            ∙ rw k (simp get-put))
                          (get-put_all "port" d.1 _ h.1
                            ∙ get-with_member "port" (setup_of role) _ refl
                            ∙ simp get-put))
