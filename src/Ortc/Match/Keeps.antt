-- ===== src/Ortc/Match/Keeps.antt =====
-- What matchCodecs leaves of the two codecs that it may modify.
use libmediasouphandler.Base.{
  String, Bool, true, false, not, ◌&&◌, Option, none, some, ◌≡◌, refl, ◌∙◌, ◌==◌, eqb,
  if◌then◌else◌,
}
use libmediasouphandler.Base.Text.{codes, lower, same_codes, matches_nocase}
use libmediasouphandler.Base.Result.{
  Result, ok, Ensures, Ensures-ok, Ensures-bind, Ensures-bind_eq, Ensures-mono,
}
use libmediasouphandler.Json.{
  Json, find, find_value, get_string, element, json_eq, assign_member, find-assign_member,
  find-element,
}
use libmediasouphandler.Ortc.Match.{
  H264, set_profile, agree, answer, match_h264, match_vp9, match_parameters, channels_agree,
  match_codecs, uint8_parameter, text_parameter, h264_params, as_text,
}

-- The two codecs have the same MIME type, kind and payload type.
abbrev pub Same : Json → Json → Type 0
Same a b =
    (find "mimeType" b ≡ find "mimeType" a)
    × (find "kind" b ≡ find "kind" a)
    × (find "preferredPayloadType" b ≡ find "preferredPayloadType" a)

pub Same-refl : (a : Json) → Same a a
Same-refl a = (refl, refl, refl)

pub Same-trans : (a b c : Json) → Same a b → Same b c → Same a c
Same-trans a b c (m, k, t) (m', k', t') = (m' ∙ m, k' ∙ k, t' ∙ t)

abbrev pub Kept : Json → Json → Bool × Json × Json → Type 0
Kept a b (matched, a', b') = Same a a' × Same b b'

element-Same :
    (key : String) (j : Json)
    → (key == "mimeType") ≡ false
    → (key == "kind") ≡ false
    → (key == "preferredPayloadType") ≡ false
    → Ensures (λ r. Same j r.0) (element key j)
element-Same key j m k t = record {
  returns = λ r e. (
    (find-element key "mimeType" j m).returns r e,
    (find-element key "kind" j k).returns r e,
    (find-element key "preferredPayloadType" j t).returns r e,
  );
}

set_profile-Same : (id : Option String) (j : Json) → Ensures (Same j) (set_profile id j)
unfolding set_profile
set_profile-Same id j =
    Ensures-bind (element "parameters" j) _ (element-Same "parameters" j refl refl refl)
      λ (j', parameters) s.
        Ensures-bind_eq (assign_member "profile-level-id" (as_text id) parameters) _
          λ parameters' _.
            Ensures-mono _ (find-assign_member "parameters" parameters' j')
              λ j'' w. Same-trans _ _ _ s (w "mimeType", w "kind", w "preferredPayloadType")

both :
    {A : Type 0} {P : A → Type 0} (b : Bool) (x y : Result A)
    → Ensures P x
    → Ensures P y
    → Ensures P (if b then x else y)
both true x y h k = h
both false x y h k = k

unchanged : (m : Bool) (a b : Json) → Ensures (Kept a b) (ok (m, a, b))
unchanged m a b = Ensures-ok (Same-refl a, Same-refl b)

agree-Kept :
    (modify : Bool) (id : Option String) (a b : Json) → Ensures (Kept a b) (agree modify id a b)
agree-Kept false id a b = unchanged true a b
agree-Kept true id a b =
    Ensures-bind (set_profile id a) _ (set_profile-Same id a)
      λ a' s. Ensures-bind (set_profile id b) _ (set_profile-Same id b) λ b' t. Ensures-ok (s, t)

module _ (h264 : H264) where
  answer-Kept :
      (modify : Bool) (o : Option (Option String)) (a b : Json)
      → Ensures (Kept a b) (answer h264 modify o a b)
  answer-Kept modify none a b = unchanged false a b
  answer-Kept modify (some id) a b = agree-Kept modify id a b

  match_h264-Kept : (modify : Bool) (a b : Json) → Ensures (Kept a b) (match_h264 h264 modify a b)
  unfolding match_h264
  match_h264-Kept modify a b =
      Ensures-bind_eq (uint8_parameter "packetization-mode" a) _ λ a_mode _.
        Ensures-bind_eq (uint8_parameter "packetization-mode" b) _ λ b_mode _.
          both (not (eqb a_mode b_mode)) _ _ (unchanged false a b) (
            Ensures-bind_eq (h264_params a a_mode) _ λ pa _.
              Ensures-bind_eq (h264_params b b_mode) _ λ pb _.
                both (not (h264.is_same_profile pa pb)) _ _ (unchanged false a b)
                  (answer-Kept modify (h264.generate_for_answer pa pb) a b))

  match_vp9-Kept : (a b : Json) → Ensures (Kept a b) (match_vp9 h264 a b)
  unfolding match_vp9
  match_vp9-Kept a b =
      Ensures-bind_eq (text_parameter "profile-id" "0" a) _
        λ p _. Ensures-bind_eq (text_parameter "profile-id" "0" b) _ λ q _. unchanged (p == q) a b

  match_parameters-Kept :
      (mime : String) (strict modify : Bool) (a b : Json)
      → Ensures (Kept a b) (match_parameters h264 mime strict modify a b)
  unfolding match_parameters
  match_parameters-Kept mime strict modify a b =
      both (matches_nocase mime "video/h264" && strict) _ _ (match_h264-Kept modify a b) (
        both (matches_nocase mime "video/vp9" && strict) _ _ (match_vp9-Kept a b)
          (unchanged true a b))

  pub match_codecs-Kept :
      (strict modify : Bool) (a b : Json) → Ensures (Kept a b) (match_codecs h264 strict modify a b)
  unfolding match_codecs
  match_codecs-Kept strict modify a b = Ensures-bind_eq (find_value "mimeType" a) _ λ a_value _.
      Ensures-bind_eq (get_string a_value) _ λ a_mime _.
        Ensures-bind_eq (find_value "mimeType" b) _ λ b_value _.
          Ensures-bind_eq (get_string b_value) _ λ b_mime _.
            both (not (same_codes (lower (codes a_mime)) (lower (codes b_mime)))) _ _
              (unchanged false a b)
              (Ensures-bind (element "clockRate" a) _ (element-Same "clockRate" a refl refl refl)
                λ (a', a_rate) s.
                  Ensures-bind (element "clockRate" b) _ (element-Same "clockRate" b refl refl refl)
                    λ (b', b_rate) t.
                      both
                        (json_eq a_rate b_rate
                          && channels_agree h264 (find "channels" a') (find "channels" b'))
                        _ _
                        (Ensures-mono _ (match_parameters-Kept a_mime strict modify a' b')
                          λ (m, a'', b'') (u, v). (Same-trans _ _ _ s u, Same-trans _ _ _ t v))
                        (Ensures-ok (s, t)))
