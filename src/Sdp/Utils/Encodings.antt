-- ===== src/Sdp/Utils/Encodings.antt =====
-- getRtpEncodings of src/sdp/Utils.cpp: the encodings that a section's a=ssrc lines tell.
use libmediasouphandler.Base.{
  ℕ, ◌%◌, ◌^◌, String, Bool, true, false, Option, none, some, List, [], ◌∷◌, ◌==◌, if◌then◌else◌,
  eqb, not,
}
use libmediasouphandler.Base.Result.{Result, ok, err, error, guard, undefined, ◌>>=◌, ◌>>◌}
use libmediasouphandler.Base.Split.{split, stoull}
use libmediasouphandler.Json.{
  Json, number_unsigned, obj, members, object, iterate, const_element, find, get_string, get_uint32,
}
use libmediasouphandler.Ortc.Extended.{with_member}

unfoldable pub ssrcs_of : List Json → Result (List ℕ)
unfolding const_element
ssrcs_of [] = ok []
ssrcs_of (line ∷ rest) = do
  id ← const_element "id" line
  ssrc ← get_uint32 id
  ssrcs ← ssrcs_of rest
  ok (ssrc ∷ ssrcs)

-- std::list's unique: a number that repeats the one before it is taken away.
abbrev pub unique_after : ℕ → List ℕ → List ℕ
unique_after a [] = []
unique_after a (b ∷ rest) = if eqb a b then unique_after a rest else b ∷ unique_after b rest

unfoldable pub unique : List ℕ → List ℕ
unique [] = []
unique (a ∷ rest) = a ∷ unique_after a rest

-- std::list's remove.
unfoldable pub remove_ssrc : ℕ → List ℕ → List ℕ
remove_ssrc a [] = []
remove_ssrc a (b ∷ rest) = let others = remove_ssrc a rest in if eqb b a then others else b ∷ others

-- std::map<uint32_t, uint32_t>, the latest entry of a key first.
unfoldable pub rtx_of : ℕ → List (ℕ × ℕ) → Option ℕ
rtx_of ssrc [] = none
rtx_of ssrc ((k, rtx) ∷ rest) = if eqb k ssrc then some rtx else rtx_of ssrc rest

-- The first two of a group's numbers, v[0] and v[1].
abbrev pub two_of : List String → Result (String × String)
two_of (a ∷ b ∷ rest) = ok (a, b)
two_of _ = err undefined

-- A group FID: its SSRC and its RTX SSRC, converted to uint32_t.
unfoldable pub fid_pair : Json → Result (ℕ × ℕ)
unfolding const_element split stoull
fid_pair line = do
  value ← const_element "ssrcs" line
  text ← get_string value
  (first, second) ← two_of (split 32 text)
  ssrc ← stoull first
  rtx ← stoull second
  ok (ssrc % 2 ^ 32, rtx % 2 ^ 32)

-- The pair of a group FID; any other group has none.
unfoldable pub fid_of : Json → Result (Option (ℕ × ℕ))
unfolding fid_pair const_element
fid_of line = do
  value ← const_element "semantics" line
  semantics ← get_string value
  if semantics == "FID" then (do pair ← fid_pair line; ok (some pair)) else ok none

abbrev pub without_rtx : Option (ℕ × ℕ) → List ℕ → List ℕ
unfolding remove_ssrc
without_rtx none ssrcs = ssrcs
without_rtx (some (ssrc, rtx)) ssrcs = remove_ssrc rtx ssrcs

abbrev pub with_rtx : Option (ℕ × ℕ) → List (ℕ × ℕ) → List (ℕ × ℕ)
with_rtx none rtxs = rtxs
with_rtx (some pair) rtxs = pair ∷ rtxs

-- The loop over the groups: the SSRCs left and the map.
unfoldable pub handle_groups : List Json → List ℕ → List (ℕ × ℕ) → Result (List ℕ × List (ℕ × ℕ))
unfolding fid_of without_rtx
handle_groups [] ssrcs rtxs = ok (ssrcs, rtxs)
handle_groups (line ∷ rest) ssrcs rtxs = do
  fid ← fid_of line
  handle_groups rest (without_rtx fid ssrcs) (with_rtx fid rtxs)

abbrev groups_in : Option Json → List Json
unfolding iterate
groups_in none = []
groups_in (some groups) = iterate groups

abbrev rtx_member : Option ℕ → Option Json
rtx_member none = none
rtx_member (some rtx) = some (object (("ssrc", number_unsigned rtx) ∷ []))

-- An encoding of an SSRC, and the SSRC of its RTX.
abbrev pub encoding_of : ℕ → Option ℕ → Json
encoding_of ssrc rtx =
    obj (with_member "rtx" (rtx_member rtx) (members (("ssrc", number_unsigned ssrc) ∷ [])))

unfoldable pub encodings_of : List (ℕ × ℕ) → List ℕ → List Json
unfolding rtx_of
encodings_of rtxs [] = []
encodings_of rtxs (ssrc ∷ rest) = encoding_of ssrc (rtx_of ssrc rtxs) ∷ encodings_of rtxs rest

abbrev no_ssrcs : List ℕ → Bool
no_ssrcs [] = true
no_ssrcs (a ∷ rest) = false

unfoldable pub get_rtp_encodings : Json → Result (List Json)
unfolding ssrcs_of unique groups_in handle_groups encodings_of const_element find iterate
get_rtp_encodings media = do
  lines ← const_element "ssrcs" media
  ssrcs ← ssrcs_of (iterate lines)
  guard (not (no_ssrcs ssrcs)) (error "no a=ssrc lines found")
  (left, rtxs) ← handle_groups (groups_in (find "ssrcGroups" media)) (unique ssrcs) []
  ok (encodings_of rtxs left)
