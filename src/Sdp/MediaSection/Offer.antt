-- ===== src/Sdp/MediaSection/Offer.antt =====
-- OfferMediaSection: the section that offers what a consumer is to receive.
use Prim.Native.String.{◌++◌ as append}
use libmediasouphandler.Base.{
  ℕ, String, Option, none, some, List, [], ◌∷◌, ◌++◌, ◌==◌, eqb, if◌then◌else◌,
}
use libmediasouphandler.Base.Text.{to_string}
use libmediasouphandler.Base.Result.{Result, ok, ◌>>=◌}
use libmediasouphandler.Json.{
  Json, int, number_unsigned, str, array, object, iterate, const_element, const_first, find,
  get_uint32, is_null, traverse,
}
use libmediasouphandler.Sdp.MediaSection.{MediaSection, offer, new_object, put_all}
use libmediasouphandler.Sdp.MediaSection.Codecs.{
  ShowFloat, CodecLines, codec_members, rtp_line, feedback_lines, payloads_of, extension_line,
  fmtp_lines, connection, data_members, is_media,
}

abbrev pub ssrc_line : ℕ → String → String → Json
ssrc_line ssrc attribute value =
    object (("id", number_unsigned ssrc) ∷ ("attribute", str attribute) ∷ ("value", str value) ∷ [])

-- encoding["rtx"]["ssrc"], zero if either is not there.
unfoldable pub rtx_ssrc : Json → Result ℕ
unfolding find
rtx_ssrc encoding = elim (find "rtx" encoding) [
  | none ↦ ok 0
  | some rtx ↦ elim (find "ssrc" rtx) [ none ↦ ok 0 | some ssrc ↦ get_uint32 ssrc ]
]

-- The ssrcs and ssrcGroups of an SSRC, and of the one for its retransmissions, if there is one.
unfoldable pub ssrc_lines : ℕ → ℕ → String → String → List Json × List Json
unfolding to_string
ssrc_lines ssrc rtx cname msid =
    let own = ssrc_line ssrc "cname" cname ∷ ssrc_line ssrc "msid" msid ∷ [] in
    if eqb rtx 0 then (own, []) else (
      own ++ (ssrc_line rtx "cname" cname ∷ ssrc_line rtx "msid" msid ∷ []),
      object (
            ("semantics", str "FID")
            ∷ ("ssrcs", str (append (to_string ssrc) (append " " (to_string rtx))))
            ∷ [])
          ∷ [],
    )

abbrev pub lines_for : ℕ → ℕ → String → Option Json → List Json × List Json
unfolding ssrc_lines
lines_for ssrc rtx msid (some (str cname)) = ssrc_lines ssrc rtx cname msid
lines_for ssrc rtx msid _ = ([], [])

module _ (show_float : ShowFloat) where
  abbrev pub codec_lines : Json → Result CodecLines
  codec_lines codec = do
    rtp ← rtp_line const_element codec
    parameters ← const_element "parameters" codec
    payload ← const_element "payloadType" codec
    fmtp ← fmtp_lines show_float payload parameters
    feedback ← feedback_lines const_element codec
    ok (record { rtp = rtp; fmtp = fmtp; feedback = feedback })

  abbrev pub all_codec_lines : List Json → Result (List CodecLines)
  all_codec_lines [] = ok []
  all_codec_lines (codec ∷ rest) = do
    lines ← codec_lines codec
    more ← all_codec_lines rest
    ok (lines ∷ more)

  -- The members that describe the media, by the consumer's RTP parameters.
  unfoldable pub offer_media : Json → String → String → Result (List (String × Json))
  unfolding find
  offer_media parameters stream_id track_id = do
    codecs ← const_element "codecs" parameters
    lines ← all_codec_lines (iterate codecs)
    payloads ← payloads_of const_element (iterate codecs)
    exts ← const_element "headerExtensions" parameters
    ext_lines ← traverse (extension_line const_element) (iterate exts)
    encodings ← const_element "encodings" parameters
    encoding ← const_first encodings
    value ← const_element "ssrc" encoding
    ssrc ← get_uint32 value
    rtx ← rtx_ssrc encoding
    rtcp ← const_element "rtcp" parameters
    let msid = append stream_id (append " " track_id)
    let ssrcs = lines_for ssrc rtx msid (find "cname" rtcp)
    ok (
        ("direction", str "sendonly") ∷ codec_members lines
        ++ (("payloads", str payloads)
            ∷ ("ext", array ext_lines)
            ∷ ("rtcpMux", str "rtcp-mux")
            ∷ ("rtcpRsize", str "rtcp-rsize")
            ∷ ("ssrcs", array ssrcs.0)
            ∷ ("ssrcGroups", array ssrcs.1)
            ∷ []))

  unfoldable pub offer_details :
      String → Json → Json → String → String → Result (List (String × Json))
  unfolding offer_media data_members
  offer_details kind sctp parameters stream_id track_id =
      if is_media kind
      then offer_media parameters stream_id track_id
      else if kind == "application"
      then data_members sctp
      else ok []

  -- The constructor. The DTLS parameters are not read.
  unfoldable pub new_offer :
      Json → Json → Json → String → String → Json → String → String → Result MediaSection
  unfolding offer_details put_all
  new_offer ice candidates sctp mid kind parameters stream_id track_id = do
    base ← new_object ice candidates
    details ← offer_details kind sctp parameters stream_id track_id
    let protocol = if is_null sctp then "UDP/TLS/RTP/SAVPF" else "UDP/DTLS/SCTP"
    ok (record {
      side = offer;
      object = put_all details (
          put_all
            (("mid", str mid)
              ∷ ("type", str kind)
              ∷ ("protocol", str protocol)
              ∷ ("connection", connection)
              ∷ ("port", int 7)
              ∷ ("setup", str "actpass")
              ∷ [])
            base);
    })
