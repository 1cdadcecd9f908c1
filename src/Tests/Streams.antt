-- ===== src/Tests/Streams.antt =====
-- A section with one stream, into which two are written.
use libmediasouphandler.Base.{none, [], ◌∷◌, ◌≡◌, refl, arith}
use libmediasouphandler.Base.Result.{ok, ◌>>=◌, Ensures}
use libmediasouphandler.Base.Split.{split}
use libmediasouphandler.Base.Text.{to_string, join}
use libmediasouphandler.Json.{
  Json, number_unsigned, str, array, object, put, get, find, iterate, const_element, member_or_null,
  find_if, assign_member,
}
use libmediasouphandler.Sdp.Utils.Encodings.{
  encoding_of, ssrcs_of, unique, handle_groups, encodings_of, get_rtp_encodings, rtx_of,
}
use libmediasouphandler.Sdp.Utils.Simulcast.{
  add_legacy_simulcast, add_streams, streams, rtx_streams, simulcast_ssrcs, write_streams,
  first_rtx, fid_groups, fid_group, groups_of, is_msid_line, is_cname_line,
}
use libmediasouphandler.Sdp.Utils.Streams.{Simulcast, add_legacy_simulcast-Simulcast}

-- The SSRC is the last of 32 bits.
abbrev ssrc_line : Json
ssrc_line =
    object
      (("id", number_unsigned 4294967295) ∷ ("attribute", str "cname") ∷ ("value", str "c") ∷ [])

abbrev msid_line : Json
msid_line =
    object
      (("id", number_unsigned 4294967295) ∷ ("attribute", str "msid") ∷ ("value", str "s t") ∷ [])

abbrev section : Json
section = object (("type", str "video") ∷ ("ssrcs", array (ssrc_line ∷ msid_line ∷ [])) ∷ [])

add_legacy_simulcast-Simulcast_example :
    Ensures (Simulcast 2 section) (add_legacy_simulcast 2 section)
unfolding find
add_legacy_simulcast-Simulcast_example = add_legacy_simulcast-Simulcast 2 section (omega arith) refl

-- The second SSRC is the number 0, since a uint32_t wraps around.
two_streams :
    (do written ← add_legacy_simulcast 2 section; get_rtp_encodings written)
    ≡ ok (encoding_of 4294967295 none ∷ encoding_of 0 none ∷ [])
unfolding add_legacy_simulcast add_streams streams rtx_streams simulcast_ssrcs write_streams
    first_rtx fid_groups fid_group groups_of is_msid_line is_cname_line split to_string join put get
    find iterate const_element member_or_null find_if assign_member ssrcs_of unique handle_groups
    encodings_of get_rtp_encodings rtx_of
two_streams = refl
