-- ===== src/Ortc/Validate/Kind.antt =====
-- What validation makes of a codec's kind and of its channels, which the kind decides.
use Prim.Native.String.{slice}
use libmediasouphandler.Base.{
  String, true, false, Option, none, some, ◌≡◌, refl, sym, ap, subst, ◌∙◌, ◌≢◌, eq_iff, ◌==◌, arith,
}
use libmediasouphandler.Base.Text.{codes, lower}
use libmediasouphandler.Base.Result.{ok, >>=-eq-ok, ok_injective}
use libmediasouphandler.Json.{Json, str, obj, Fields, get, assign, is_number_integer, obj_injective}
use libmediasouphandler.Ortc.Mime.{media_type, media_type-recased}
use libmediasouphandler.Ortc.Rule.{run, default_to}
use libmediasouphandler.Ortc.Rule.Laws.{
  run_memberwise, Passes, Passes-assign, run-Passes, get-assign_self,
}
use libmediasouphandler.Ortc.Validate.Codec.{
  validate_codec, validate_codec_capability, codec_capability_rules, mime_kind, channels_step,
}

-- The channels that a validated codec of a kind may have: an integer for audio, else none.
abbrev pub ChannelsFit : String → Option Json → Type 0
ChannelsFit kind none = (kind == "audio") ≡ false
ChannelsFit kind (some v) = ((kind == "audio") ≡ true) × (is_number_integer v ≡ true)

channels_fit :
    (kind : String) (o o' : Option Json) → channels_step kind o ≡ ok o' → ChannelsFit kind o'
unfolding channels_step default_to
channels_fit kind none none e = ground arith
channels_fit kind none (some v) e = ground arith
channels_fit kind (some w) none e = ground arith
channels_fit kind (some w) (some v) e = ground arith

mime_kind_from :
    (mime : String) (o : Option String) (kind : String)
    → media_type mime ≡ o
    → mime_kind (some (str mime)) ≡ ok kind
    → media_type mime ≡ some kind
unfolding mime_kind
mime_kind_from mime none kind e h = ground arith
mime_kind_from mime (some k) kind e h = ground arith

mime_kind-eq-ok :
    (o : Option Json) (kind : String)
    → mime_kind o ≡ ok kind
    → (mime : String) × (o ≡ some (str mime)) × (media_type mime ≡ some kind)
unfolding mime_kind
mime_kind-eq-ok (some (str mime)) kind h =
    (mime, refl, mime_kind_from mime (media_type mime) kind refl h)
mime_kind-eq-ok none kind h = cc
mime_kind-eq-ok (some v) kind h = cc

no_channels : (kind : String) (o : Option Json) → kind ≢ "audio" → ChannelsFit kind o → o ≡ none
no_channels kind none n f = refl
no_channels kind (some v) n f = absurd (n ((eq_iff kind "audio").0 f.0))

-- What a validated codec says of its kind, against the codec before.
abbrev pub KindSpec : Fields → Fields → Type 0
KindSpec fs fs' =
    (mime : String) × (kind : String) × (get "mimeType" fs' ≡ some (str mime))
    × (get "mimeType" fs ≡ some (str mime))
    × (media_type mime ≡ some kind)
    × (get "kind" fs' ≡ some (str kind))
    × ChannelsFit kind (get "channels" fs')

-- A codec that validateRtpCodecCapability accepts has a MIME type with a media type of its own, which
-- becomes its kind, in the case in which it is written; it keeps its MIME type; and it has an integer
-- number of channels if that kind is "audio", and no channels if it is anything else.
pub codec_capability_kind :
    (fs fs' : Fields) → validate_codec_capability (obj fs) ≡ ok (obj fs') → KindSpec fs fs'
unfolding validate_codec_capability validate_codec
codec_capability_kind fs fs' e =
    let (kind, k, e') = >>=-eq-ok (mime_kind (get "mimeType" fs)) _ e in
    let (gs, r, e'') = >>=-eq-ok (run (codec_capability_rules kind) fs) _ e' in
    let (mime, m, t) = mime_kind-eq-ok (get "mimeType" fs) kind k in
    let same : gs ≡ fs' = obj_injective (ok_injective e'') in
    let (steps, kept) = run_memberwise (codec_capability_rules kind) fs fs' refl (r ∙ ap ok same) in
    (
      mime,
      kind,
      kept "mimeType" refl ∙ m,
      m,
      t,
      sym (ok_injective steps.0),
      channels_fit kind (get "channels" fs) (get "channels" fs') steps.1.1.1.0,
    )

recased-Passes :
    (fs fs' : Fields) (kind kind' : String)
    → kind' ≢ "audio"
    → run (codec_capability_rules kind) fs ≡ ok fs'
    → Passes (codec_capability_rules kind') fs
unfolding channels_step
recased-Passes fs fs' kind kind' n e =
    let (k, (payload, (rate, (channels, (parameters, (feedback, t)))))) =
      (run_memberwise (codec_capability_rules kind) fs fs' refl e).0 in
    (
      (some (str kind'), refl),
      (
        (get "preferredPayloadType" fs', payload),
        (
          (get "clockRate" fs', rate),
          (
            (none, rw not_audio refl),
            ((get "parameters" fs', parameters), ((get "rtcpFeedback" fs', feedback), tt)),
          ),
        ),
      ),
    )
  where
    not_audio : (kind' == "audio") ≡ false
    not_audio = ground (arith, n, eq_iff kind' "audio")

-- The codec, with a MIME type for another.
abbrev pub with_mime : String → Fields → Fields
with_mime mime fs = assign "mimeType" (some (str mime)) fs

mime_kind-ok :
    (mime kind : String) → media_type mime ≡ some kind → mime_kind (some (str mime)) ≡ ok kind
unfolding mime_kind
mime_kind-ok mime kind e = rw (mime_kind, e) refl

recased_accepted :
    (fs fs' : Fields) (mime mime' kind : String)
    → get "mimeType" fs ≡ some (str mime)
    → media_type mime ≡ some kind
    → lower (codes mime') ≡ lower (codes mime)
    → slice mime' 0 5 ≢ "audio"
    → validate_codec_capability (obj fs) ≡ ok (obj fs')
    → (gs : Fields) × (validate_codec_capability (obj (with_mime mime' fs)) ≡ ok (obj gs))
unfolding validate_codec_capability validate_codec
recased_accepted fs fs' mime mime' kind m t same n e =
    let (kind'', k, e') = >>=-eq-ok (mime_kind (get "mimeType" fs)) _ e in
    let (fs'', r, e'') = >>=-eq-ok (run (codec_capability_rules kind'') fs) _ e' in
    let passes = recased-Passes fs fs'' kind'' (slice mime' 0 5) n r in
    let (gs, q) = run-Passes (codec_capability_rules (slice mime' 0 5)) (with_mime mime' fs) refl (
      Passes-assign (codec_capability_rules (slice mime' 0 5)) "mimeType" (some (str mime')) fs refl
        passes) in
    (
      gs,
      rw
          (
            get-assign_self "mimeType" (some (str mime')) fs,
            mime_kind-ok mime' (slice mime' 0 5) (media_type-recased mime mime' kind same t),
            q,
          )
          refl,
    )

-- Take an audio codec that validateRtpCodecCapability accepts, with the media type "audio" in lower case,
-- and the same codec with its MIME type in upper or mixed case, "Audio/opus" for "audio/opus" say, so
-- that its media type is another text. The first then has an integer number of channels. The second is
-- accepted too, since the regular expression ignores case; but its kind is the media type in its own
-- case, which is not "audio", and it has no channels.
pub mixed_case_loses_channels :
    (fs fs' : Fields) (mime mime' : String)
    → get "mimeType" fs ≡ some (str mime)
    → media_type mime ≡ some "audio"
    → lower (codes mime') ≡ lower (codes mime)
    → slice mime' 0 5 ≢ "audio"
    → validate_codec_capability (obj fs) ≡ ok (obj fs')
    → ((v : Json) × (get "channels" fs' ≡ some v) × (is_number_integer v ≡ true))
      × (gs : Fields) × (validate_codec_capability (obj (with_mime mime' fs)) ≡ ok (obj gs))
      × (get "kind" gs ≡ some (str (slice mime' 0 5)))
      × (get "channels" gs ≡ none)
mixed_case_loses_channels fs fs' mime mime' m t same n e =
    let (gs, q) = recased_accepted fs fs' mime mime' "audio" m t same n e in
    let (mime₁, kind₁, a₁, b₁, t₁, k₁, fit₁) = codec_capability_kind fs fs' e in
    let (mime₂, kind₂, a₂, b₂, t₂, k₂, fit₂) = codec_capability_kind (with_mime mime' fs) gs q in
    let own = get-assign_self "mimeType" (some (str mime')) fs in
    let recased = media_type-recased mime mime' "audio" same t in
    let audio : kind₁ ≡ "audio" = cc in
    let other : kind₂ ≡ slice mime' 0 5 = cc in
    (
      channels_there (get "channels" fs')
          (subst (λ k. ChannelsFit k (get "channels" fs')) audio fit₁),
      gs,
      q,
      k₂ ∙ ap (λ k. some (str k)) other,
      no_channels kind₂ (get "channels" gs) (λ a. n (sym other ∙ a)) fit₂,
    )
  where
    channels_there :
        (o : Option Json)
        → ChannelsFit "audio" o
        → (v : Json) × (o ≡ some v) × (is_number_integer v ≡ true)
    channels_there none f = cc
    channels_there (some v) f = (v, refl, f.1)
