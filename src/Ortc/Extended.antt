-- ===== src/Ortc/Extended.antt =====
-- getExtendedRtpCapabilities of src/ortc.cpp.
pub mod Pairs
pub mod Codecs
pub mod Rtx
use libmediasouphandler.Base.{
  String, Bool, true, Option, none, some, List, [], ◌∷◌, ◌++◌, ◌==◌, if◌then◌else◌,
}
use libmediasouphandler.Base.Result.{Result, ok, ◌>>=◌}
use libmediasouphandler.Json.{
  Json, null, str, obj, Fields, put, array, members, object, iterate, const_element, find,
  member_or_null, get_string, json_eq, find_if, flat_map, traverse, assign_member,
}
use libmediasouphandler.Ortc.Match.{
  H264, is_rtx_codec, match_codecs, match_header_extensions, reduce_rtcp_feedback, and_then,
}
use libmediasouphandler.Ortc.Validate.Params.{validate_rtp_capabilities}

-- A member that is copied if it is there.
abbrev pub with_member : String → Option Json → Fields → Fields
with_member key none fs = fs
with_member key (some v) fs = put key v fs

-- The extended codec of a local and a remote codec that match; its RTX payload types are not yet known.
unfoldable pub extended_codec : Json → Json → Result Json
unfolding put
extended_codec local remote = do
  mime ← member_or_null "mimeType" local
  kind ← member_or_null "kind" local
  rate ← member_or_null "clockRate" local
  local_type ← member_or_null "preferredPayloadType" local
  remote_type ← member_or_null "preferredPayloadType" remote
  local_parameters ← member_or_null "parameters" local
  remote_parameters ← member_or_null "parameters" remote
  feedback ← reduce_rtcp_feedback local remote
  ok (
      obj (
        with_member "channels" (find "channels" local) (
          members (
            ("mimeType", mime)
            ∷ ("kind", kind)
            ∷ ("clockRate", rate)
            ∷ ("localPayloadType", local_type)
            ∷ ("localRtxPayloadType", null)
            ∷ ("remotePayloadType", remote_type)
            ∷ ("remoteRtxPayloadType", null)
            ∷ ("localParameters", local_parameters)
            ∷ ("remoteParameters", remote_parameters)
            ∷ ("rtcpFeedback", array feedback)
            ∷ []))))

-- What the search for a local codec leaves: the match, the local codecs and the remote codec, the
-- last two as matchCodecs has modified them.
abbrev pub Search : Type 0
Search = Result (Option Json × List Json × Json)

-- What one remote codec, or several, give: extended codecs, and both sides' codecs.
abbrev pub Extension : Type 0 → Type 0
Extension A = Result (List Json × List Json × A)

module _ (h264 : H264) where
  unfoldable pub search_local : Json → List Json → Search
  search_local remote [] = ok (none, [], remote)
  search_local remote (local ∷ locals) = do
    (matched, local', remote') ← match_codecs h264 true true local remote
    let later = search_local remote' locals
    if matched
        then ok (some local', local' ∷ locals, remote')
        else (do (found, locals', remote'') ← later; ok (found, local' ∷ locals', remote''))

  abbrev pub extend_found : Option Json → List Json → Json → Extension Json
  extend_found none locals remote = ok ([], locals, remote)
  extend_found (some local) locals remote = do
    codec ← extended_codec local remote
    ok (codec ∷ [], locals, remote)

  abbrev pub extend_media : Json → List Json → Extension Json
  extend_media remote locals = do
    (found, locals', remote') ← search_local remote locals
    extend_found found locals' remote'

  -- One round of the loop over the remote codecs.
  unfoldable pub extend_one : Json → List Json → Extension Json
  extend_one remote locals = do
    rtx ← is_rtx_codec remote
    if rtx then ok ([], locals, remote) else extend_media remote locals

  unfoldable pub extend_codecs : List Json → List Json → Extension (List Json)
  extend_codecs [] locals = ok ([], locals, [])
  extend_codecs (remote ∷ remotes) locals = do
    (codecs, locals', remote') ← extend_one remote locals
    (more, locals'', remotes') ← extend_codecs remotes locals'
    ok (codecs ++ more, locals'', remote' ∷ remotes')

abbrev apt_is : Json → Json → Result Bool
apt_is payload_type codec = do
  parameters ← const_element "parameters" codec
  apt ← const_element "apt" parameters
  ok (json_eq apt payload_type)

-- The RTX codec for a payload type.
unfoldable pub find_rtx : Json → List Json → Result (Option Json)
find_rtx payload_type = find_if λ codec. and_then (is_rtx_codec codec) (apt_is payload_type codec)

abbrev pub put_rtx : Json → Option Json → Option Json → Result Json
put_rtx codec (some local) (some remote) = do
  local_type ← member_or_null "preferredPayloadType" local
  remote_type ← member_or_null "preferredPayloadType" remote
  codec' ← assign_member "localRtxPayloadType" (some local_type) codec
  assign_member "remoteRtxPayloadType" (some remote_type) codec'
put_rtx codec _ _ = ok codec

abbrev pub find_remote_rtx : List Json → Json → Option Json → Result (Option Json)
find_remote_rtx remotes codec none = ok none
find_remote_rtx remotes codec (some local) = do
  payload_type ← member_or_null "remotePayloadType" codec
  find_rtx payload_type remotes

-- One round of the loop that fills in the RTX payload types of both sides.
unfoldable pub match_rtx : List Json → List Json → Json → Result Json
match_rtx locals remotes codec = do
  payload_type ← member_or_null "localPayloadType" codec
  local ← find_rtx payload_type locals
  remote ← find_remote_rtx remotes codec local
  put_rtx codec local remote

-- The remote side's direction as the local side sees it; a text that is no direction has none.
unfoldable pub local_direction : String → Option Json
local_direction s =
    if s == "sendrecv"
    then some (str "sendrecv")
    else if s == "recvonly"
    then some (str "sendonly")
    else if s == "sendonly"
    then some (str "recvonly")
    else if s == "inactive"
    then some (str "inactive")
    else none

unfoldable pub extended_extension : Json → Json → Result Json
unfolding put local_direction
extended_extension local remote = do
  kind ← member_or_null "kind" remote
  uri ← member_or_null "uri" remote
  send_id ← member_or_null "preferredId" local
  recv_id ← member_or_null "preferredId" remote
  encrypt ← member_or_null "preferredEncrypt" local
  value ← member_or_null "direction" remote
  direction ← get_string value
  ok (
      obj (
        with_member "direction" (local_direction direction) (
          members (
            ("kind", kind)
            ∷ ("uri", uri)
            ∷ ("sendId", send_id)
            ∷ ("recvId", recv_id)
            ∷ ("encrypt", encrypt)
            ∷ []))))

abbrev extension_of : Json → Option Json → Result (List Json)
extension_of remote none = ok []
extension_of remote (some local) = do ext ← extended_extension local remote; ok (ext ∷ [])

-- One round of the loop over the remote header extensions.
unfoldable pub extend_extension : List Json → Json → Result (List Json)
extend_extension locals remote = do
  found ← find_if (λ local. match_header_extensions local remote) locals
  extension_of remote found

module _ (h264 : H264) where
  unfoldable pub get_extended_rtp_capabilities : Json → Json → Result Json
  get_extended_rtp_capabilities local_caps remote_caps = do
    local ← validate_rtp_capabilities local_caps
    remote ← validate_rtp_capabilities remote_caps
    local_codecs ← const_element "codecs" local
    remote_codecs ← const_element "codecs" remote
    (media, locals, remotes) ← extend_codecs h264 (iterate remote_codecs) (iterate local_codecs)
    codecs ← traverse (match_rtx locals remotes) media
    local_exts ← const_element "headerExtensions" local
    remote_exts ← const_element "headerExtensions" remote
    extensions ← flat_map (extend_extension (iterate local_exts)) (iterate remote_exts)
    ok (object (("codecs", array codecs) ∷ ("headerExtensions", array extensions) ∷ []))
