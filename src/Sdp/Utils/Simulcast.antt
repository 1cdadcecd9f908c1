-- ===== src/Sdp/Utils/Simulcast.antt =====
-- addLegacySimulcast of src/sdp/Utils.cpp: the a=ssrc lines of several streams, numbered from the
-- first SSRC on.
use Prim.Native.String.{◌++◌ as append}
use libmediasouphandler.Base.{
  ℕ, zero, suc, ◌%◌, ◌^◌, String, Bool, false, ◌&&◌, Option, none, some, List, [], ◌∷◌, ◌++◌, ◌==◌,
  if◌then◌else◌, eqb, leb,
}
use libmediasouphandler.Base.Text.{join, to_string}
use libmediasouphandler.Base.Result.{Result, ok, err, error, undefined, ◌>>=◌}
use libmediasouphandler.Base.Split.{split, stoull}
use libmediasouphandler.Json.{
  Json, number_unsigned, str, array, object, is_number, iterate, find, member_or_null,
  assign_member, find_if, get_string, get_uint32,
}
use libmediasouphandler.Sdp.Utils.Encodings.{two_of}

abbrev has_text : String → Option Json → Bool
has_text s (some (str t)) = t == s
has_text s _ = false

abbrev has_number : Option Json → Bool
has_number none = false
has_number (some v) = is_number v

-- The lines searched for: the first with an attribute msid, and the first with an attribute cname and
-- a number for its id.
unfoldable pub is_msid_line : Json → Result Bool
unfolding find
is_msid_line line = ok (has_text "msid" (find "attribute" line))

unfoldable pub is_cname_line : Json → Result Bool
unfolding find
is_cname_line line = ok (has_number (find "id" line) && has_text "cname" (find "attribute" line))

abbrev pub found_line : String → Option Json → Result Json
found_line message none = err (error message)
found_line message (some line) = ok line

abbrev second_of : List String → Result (Option ℕ)
unfolding stoull
second_of [] = err undefined
second_of (b ∷ rest) = do rtx ← stoull b; ok (some (rtx % 2 ^ 32))

abbrev rtx_in : ℕ → List String → Result (Option ℕ)
unfolding stoull
rtx_in first [] = err undefined
rtx_in first (a ∷ rest) = do ssrc ← stoull a; if eqb ssrc first then second_of rest else ok none

-- What a group says of an SSRC: its RTX SSRC, where the group has two texts and begins with the SSRC.
abbrev rtx_of_texts : ℕ → Option Json → Option Json → Result (Option ℕ)
unfolding split
rtx_of_texts first (some (str semantics)) (some (str ssrcs)) = rtx_in first (split 32 ssrcs)
rtx_of_texts first _ _ = ok none

-- The search of the groups, which ends at the first that begins with the SSRC.
unfoldable pub first_rtx : ℕ → List Json → Result ℕ
unfolding rtx_of_texts rtx_in find
first_rtx first [] = ok 0
first_rtx first (line ∷ rest) = do
  found ← rtx_of_texts first (find "semantics" line) (find "ssrcs" line)
  let later = first_rtx first rest
  elim found [ none ↦ later | some rtx ↦ ok rtx ]

-- The SSRCs of `n` streams, each a uint32_t.
unfoldable pub streams : ℕ → ℕ → List ℕ
streams zero first = []
streams (suc n) first = first % 2 ^ 32 ∷ streams n (suc first)

abbrev ssrc_line : String → String → ℕ → Json
ssrc_line attribute value ssrc =
    object (("id", number_unsigned ssrc) ∷ ("attribute", str attribute) ∷ ("value", str value) ∷ [])

-- Two lines for each SSRC.
unfoldable pub simulcast_ssrcs : String → String → List ℕ → List Json
simulcast_ssrcs cname msid [] = []
simulcast_ssrcs cname msid (ssrc ∷ rest) =
    ssrc_line "cname" cname ssrc ∷ ssrc_line "msid" msid ssrc ∷ simulcast_ssrcs cname msid rest

abbrev pub group_line : String → String → Json
group_line semantics ssrcs = object (("semantics", str semantics) ∷ ("ssrcs", str ssrcs) ∷ [])

abbrev pub printed : List ℕ → List String
unfolding to_string
printed [] = []
printed (ssrc ∷ rest) = to_string ssrc ∷ printed rest

-- The group of a stream and its RTX.
unfoldable pub fid_group : ℕ → ℕ → Json
unfolding to_string
fid_group ssrc rtx = group_line "FID" (append (append (to_string ssrc) " ") (to_string rtx))

unfoldable pub fid_groups : List ℕ → List ℕ → List Json
unfolding fid_group
fid_groups (ssrc ∷ ssrcs) (rtx ∷ rtxs) = fid_group ssrc rtx ∷ fid_groups ssrcs rtxs
fid_groups _ _ = []

-- No RTX SSRC is the number 0.
unfoldable pub rtx_streams : ℕ → ℕ → List ℕ
unfolding streams
rtx_streams n first = if eqb first 0 then [] else streams n first

-- The lines written into the section.
unfoldable pub write_streams : String → String → List ℕ → List ℕ → Json → Result Json
unfolding assign_member join printed fid_groups simulcast_ssrcs
write_streams cname msid ssrcs rtxs media = do
  media' ←
      assign_member "ssrcGroups"
        (some (array (group_line "SIM" (join " " (printed ssrcs)) ∷ fid_groups ssrcs rtxs))) media
  assign_member "ssrcs"
      (some (array (simulcast_ssrcs cname msid ssrcs ++ simulcast_ssrcs cname msid rtxs))) media'

unfoldable pub groups_of : Option Json → List Json
unfolding iterate
groups_of none = []
groups_of (some groups) = iterate groups

abbrev pub string_member : String → Json → Result String
unfolding member_or_null
string_member key line = do value ← member_or_null key line; get_string value

unfoldable pub add_streams : ℕ → Json → Result Json
unfolding is_msid_line is_cname_line find_if first_rtx streams rtx_streams write_streams split
    groups_of string_member member_or_null iterate find
add_streams n media = do
  lines ← member_or_null "ssrcs" media
  found ← find_if is_msid_line (iterate lines)
  msid_line ← found_line "a=ssrc line with msid information not found" found
  value ← string_member "value" msid_line
  (stream_id, track_id) ← two_of (split 32 value)
  id ← member_or_null "id" msid_line
  first ← get_uint32 id
  rtx ← first_rtx first (groups_of (find "ssrcGroups" media))
  named ← find_if is_cname_line (iterate lines)
  cname_line ← found_line "CNAME line not found" named
  cname ← string_member "value" cname_line
  write_streams cname (append (append stream_id " ") track_id) (streams n first) (rtx_streams n rtx)
      media

-- numStreams is a uint8_t; one stream or none changes nothing.
unfoldable pub add_legacy_simulcast : ℕ → Json → Result Json
unfolding add_streams
add_legacy_simulcast n media = if leb n 1 then ok media else add_streams n media
