-- ===== src/Ortc/Reduce.antt =====
-- reduceCodecs of src/ortc.cpp, on the array of codecs that its callers pass.
pub mod Cases
use libmediasouphandler.Base.{Bool, true, false, Option, none, some, List, [], ◌∷◌, if◌then◌else◌}
use libmediasouphandler.Base.Result.{Result, ok, err, type_error, json_error, ◌>>=◌}
use libmediasouphandler.Json.{Json, null, obj, is_object}
use libmediasouphandler.Ortc.Match.{H264, is_rtx_codec, match_codecs}

abbrev keep_rtx : Json → Json → Result (List Json)
keep_rtx codec next = do rtx ← is_rtx_codec next; ok (if rtx then codec ∷ next ∷ [] else codec ∷ [])

-- No capability codec: the first codec, and its RTX. `codecs[0]` of an empty array is null.
unfoldable pub reduce_to_first : List Json → Result (List Json)
reduce_to_first [] = ok (null ∷ [])
reduce_to_first (codec ∷ []) = ok (codec ∷ [])
reduce_to_first (codec ∷ next ∷ rest) = keep_rtx codec next

-- The codec found, and its RTX. The code reads `codecs[idx + 1]` with no test of the size: behind the
-- last codec that is null, whose MIME type isRtxCodec then asks for.
unfoldable pub reduce_to_found : Json → List Json → Result (List Json)
reduce_to_found codec [] = keep_rtx codec null
reduce_to_found codec (next ∷ rest) = keep_rtx codec next

module _ (h264 : H264) where
  unfoldable pub reduce_to_match : Json → List Json → Result (List Json)
  reduce_to_match cap_codec [] = err (type_error "no matching codec found")
  reduce_to_match cap_codec (codec ∷ rest) = do
    (matched, codec', cap_codec') ← match_codecs h264 false false codec cap_codec
    let later = reduce_to_match cap_codec' rest
    if matched then reduce_to_found codec' rest else later

  unfoldable pub reduce_codecs : List Json → Option Json → Result (List Json)
  reduce_codecs codecs (some (obj cap)) = reduce_to_match (obj cap) codecs
  reduce_codecs codecs _ = reduce_to_first codecs
