-- ===== src/Ortc/Extended/Rtx.antt =====
-- getExtendedRtpCapabilities, both loops over codecs together: the media codecs, and then their RTX
-- payload types.
use libmediasouphandler.Base.{
  String, Bool, true, ◌||◌, Option, none, some, List, [], ◌∷◌, ◌≡◌, refl, sym, ◌∙◌, inl, inr, ◌==◌,
  subst, Bool-cases, eq_iff,
}
use libmediasouphandler.Base.Result.{
  ok, >>=-eq-ok, ok_injective, Ensures, Ensures-ok, Ensures-bind, Ensures-bind_eq, Ensures-mono,
}
use libmediasouphandler.Json.{
  Json, array, object, const_element, iterate, Pairwise, traverse, traverse-Pairwise, assign_member,
  find-assign_member, member_or_null, flat_map,
}
use libmediasouphandler.Ortc.Match.{H264}
use libmediasouphandler.Ortc.Validate.Params.{validate_rtp_capabilities}
use libmediasouphandler.Ortc.Extended.{
  extend_codecs, match_rtx, put_rtx, find_rtx, find_remote_rtx, extend_extension,
  get_extended_rtp_capabilities,
}
use libmediasouphandler.Ortc.Extended.Pairs.{Same-list}
use libmediasouphandler.Ortc.Extended.Codecs.{FromRemotes, codecs-FromRemotes, OnlyRtx}

abbrev is_rtx_key : String → Bool
is_rtx_key k = k == "localRtxPayloadType" || k == "remoteRtxPayloadType"

assigned-OnlyRtx :
    (key : String) (v codec : Json)
    → is_rtx_key key ≡ true
    → Ensures (OnlyRtx codec) (assign_member key (some v) codec)
assigned-OnlyRtx key v codec rtx = Ensures-mono _ (find-assign_member key v codec) λ codec' e k.
    elim (Bool-cases (key == k)) [
      | inl h ↦ inr (subst (λ j. is_rtx_key j ≡ true) ((eq_iff key k).0 h) rtx)
      | inr h ↦ inl (e k ∙ rw h refl)
    ]

OnlyRtx-trans : (a b c : Json) → OnlyRtx a b → OnlyRtx b c → OnlyRtx a c
OnlyRtx-trans a b c f g k = elim (f k) [
  | inr h ↦ inr h
  | inl e ↦ elim (g k) [ inr h ↦ inr h | inl e' ↦ inl (e' ∙ e) ]
]

put-OnlyRtx :
    (codec : Json) (local remote : Option Json)
    → Ensures (OnlyRtx codec) (put_rtx codec local remote)
put-OnlyRtx codec none remote = Ensures-ok λ k. inl refl
put-OnlyRtx codec (some local) none = Ensures-ok λ k. inl refl
put-OnlyRtx codec (some local) (some remote) =
    Ensures-bind_eq (member_or_null "preferredPayloadType" local) _ λ local_type _.
      Ensures-bind_eq (member_or_null "preferredPayloadType" remote) _ λ remote_type _.
        Ensures-bind (assign_member "localRtxPayloadType" (some local_type) codec) _
          (assigned-OnlyRtx "localRtxPayloadType" local_type codec refl)
          λ codec' h.
            Ensures-mono _ (assigned-OnlyRtx "remoteRtxPayloadType" remote_type codec' refl)
              λ codec'' h'. OnlyRtx-trans codec codec' codec'' h h'

match_rtx-OnlyRtx :
    (locals remotes : List Json) (codec : Json)
    → Ensures (OnlyRtx codec) (match_rtx locals remotes codec)
unfolding match_rtx
match_rtx-OnlyRtx locals remotes codec =
    Ensures-bind_eq (member_or_null "localPayloadType" codec) _ λ t _.
      Ensures-bind_eq (find_rtx t locals) _ λ local _.
        Ensures-bind_eq (find_remote_rtx remotes codec local) _
          λ remote _. put-OnlyRtx codec local remote

module _ (h264 : H264) where
  -- What the extended capabilities say of the codecs of both sides.
  abbrev pub ExtendedSpec : Json → Json → Json → Type 0
  ExtendedSpec local_caps remote_caps caps =
      (local : Json) × (remote : Json) × (local_codecs : Json) × (remote_codecs : Json)
      × (media : List Json) × (codecs : List Json) × (extensions : List Json)
      × (validate_rtp_capabilities local_caps ≡ ok local)
      × (validate_rtp_capabilities remote_caps ≡ ok remote)
      × (const_element "codecs" local ≡ ok local_codecs)
      × (const_element "codecs" remote ≡ ok remote_codecs)
      × (caps ≡ object (("codecs", array codecs) ∷ ("headerExtensions", array extensions) ∷ []))
      × FromRemotes h264 (iterate local_codecs) (iterate remote_codecs) media
      × Pairwise OnlyRtx media codecs

  -- The extended capabilities that getExtendedRtpCapabilities returns have, in the order of the validated
  -- remote codecs, at most one codec for each, and none for an RTX codec: the extended codec of that
  -- remote codec and of one of the validated local codecs, which matchCodecs, strict and modifying,
  -- takes for a match, both but for what it may have modified before, which is never the MIME type, the
  -- kind or the payload type; only the two RTX payload types are then filled in.
  pub extended_from_matches :
      (local_caps remote_caps caps : Json)
      → get_extended_rtp_capabilities h264 local_caps remote_caps ≡ ok caps
      → ExtendedSpec local_caps remote_caps caps
  unfolding get_extended_rtp_capabilities
  extended_from_matches local_caps remote_caps caps e =
      let (local, v, e₁) = >>=-eq-ok (validate_rtp_capabilities local_caps) _ e in
      let (remote, w, e₂) = >>=-eq-ok (validate_rtp_capabilities remote_caps) _ e₁ in
      let (ls, l, e₃) = >>=-eq-ok (const_element "codecs" local) _ e₂ in
      let (rs, r, e₄) = >>=-eq-ok (const_element "codecs" remote) _ e₃ in
      let ((media, locals, remotes), m, e₅) =
        >>=-eq-ok (extend_codecs h264 (iterate rs) (iterate ls)) _ e₄ in
      let (codecs, t, e₆) = >>=-eq-ok (traverse (match_rtx locals remotes) media) _ e₅ in
      let (local_exts, _, e₇) = >>=-eq-ok (const_element "headerExtensions" local) _ e₆ in
      let (remote_exts, _, e₈) = >>=-eq-ok (const_element "headerExtensions" remote) _ e₇ in
      let (extensions, _, e₉) =
        >>=-eq-ok (flat_map (extend_extension (iterate local_exts)) (iterate remote_exts)) _ e₈ in
      (
        local,
        remote,
        ls,
        rs,
        media,
        codecs,
        extensions,
        v,
        w,
        l,
        r,
        sym (ok_injective e₉),
        (codecs-FromRemotes h264 (iterate ls) (iterate rs) (iterate ls)
              (Same-list (iterate ls))).returns
            _ m,
        (traverse-Pairwise OnlyRtx _ (match_rtx-OnlyRtx locals remotes) media).returns codecs t,
      )
