-- ===== src/Ortc/Reduce/Cases.antt =====
-- What reduceCodecs returns, or throws, for a capability codec: by where the first codec that matches
-- it stands.
use libmediasouphandler.Base.{
  Bool, true, false, some, List, [], ◌∷◌, ◌++◌, ◌≡◌, refl, if◌then◌else◌,
}
use libmediasouphandler.Base.Result.{ok, err, type_error, json_error}
use libmediasouphandler.Json.{Json, obj, Fields, All, const_element}
use libmediasouphandler.Ortc.Match.{H264, is_rtx_codec, match_codecs}
use libmediasouphandler.Ortc.Reduce.{reduce_codecs, reduce_to_match, reduce_to_found}

module _ (h264 : H264) (cap : Fields) where
  -- The codec does not match, and the comparison leaves the capability codec as it is.
  abbrev pub Differs : Json → Type 0
  Differs codec =
      (codec' : Json) × (match_codecs h264 false false codec (obj cap)
        ≡ ok (false, codec', obj cap))

  skip :
      (before rest : List Json)
      → All Differs before
      → reduce_to_match h264 (obj cap) (before ++ rest) ≡ reduce_to_match h264 (obj cap) rest
  unfolding reduce_to_match
  skip [] rest d = refl
  skip (codec ∷ before) rest d = let (codec', e) = d.0 in rw e (skip before rest d.1)

  -- If the codecs before it differ from the capability codec, and the codec matches it, the result is
  -- that codec as the comparison leaves it, and the codec behind it if that is an RTX codec.
  pub reduce_codecs_match :
      (before rest : List Json) (codec codec' cap' next : Json) (rtx : Bool)
      → All Differs before
      → match_codecs h264 false false codec (obj cap) ≡ ok (true, codec', cap')
      → is_rtx_codec next ≡ ok rtx
      → reduce_codecs h264 (before ++ (codec ∷ next ∷ rest)) (some (obj cap))
        ≡ ok (if rtx then codec' ∷ next ∷ [] else codec' ∷ [])
  unfolding reduce_codecs reduce_to_match reduce_to_found
  reduce_codecs_match before rest codec codec' cap' next rtx d m r =
      rw (skip before (codec ∷ next ∷ rest) d, m, r)

  -- If the codec that matches is the last one, reduceCodecs throws the JSON library's type_error 305:
  -- it reads past the last codec, and asks what is there for its MIME type.
  pub reduce_codecs_last :
      (before : List Json) (codec codec' cap' : Json)
      → All Differs before
      → match_codecs h264 false false codec (obj cap) ≡ ok (true, codec', cap')
      → reduce_codecs h264 (before ++ (codec ∷ [])) (some (obj cap)) ≡ err (json_error 305)
  unfolding reduce_codecs reduce_to_match reduce_to_found is_rtx_codec const_element
  reduce_codecs_last before codec codec' cap' d m = rw (skip before (codec ∷ []) d, m)

  -- If every codec differs from the capability codec, reduceCodecs throws a type error.
  pub reduce_codecs_none :
      (codecs : List Json)
      → All Differs codecs
      → reduce_codecs h264 codecs (some (obj cap)) ≡ err (type_error "no matching codec found")
  unfolding reduce_codecs reduce_to_match
  reduce_codecs_none [] d = refl
  reduce_codecs_none (codec ∷ codecs) d =
      let (codec', e) = d.0 in rw e (reduce_codecs_none codecs d.1)
