-- ===== src/Sdp/Utils/Streams.antt =====
-- What getRtpEncodings of src/sdp/Utils.cpp reads out of the lines that addLegacySimulcast writes, where
-- there is no RTX.
use Prim.Native.String.{◌++◌ as append}
use libmediasouphandler.Base.{
  ℕ, zero, suc, ◌+◌, ◌%◌, ◌^◌, ◌≤◌, String, true, Option, none, some, List, [], ◌≡◌, refl, sym,
  subst, ◌∙◌, leb, ltb, if◌then◌else◌, arith, if-cases,
}
use libmediasouphandler.Base.Result.{
  ok, ◌>>=◌, Ensures, Ensures-bind, Ensures-bind_eq, Ensures-after, Ensures-mono,
}
use libmediasouphandler.Json.{
  Json, find, iterate, member_or_null, find_if, find_if_mem, Mem, get_uint32,
}
use libmediasouphandler.Sdp.RemoteSdp.Store.{element_at}
use libmediasouphandler.Base.Split.{split}
use libmediasouphandler.Sdp.Utils.Encodings.{
  two_of, rtx_of, encoding_of, encodings_of, get_rtp_encodings,
}
use libmediasouphandler.Sdp.Utils.Simulcast.{
  found_line, string_member, groups_of, first_rtx, rtx_streams, is_cname_line, streams,
  write_streams, add_streams, add_legacy_simulcast, is_msid_line,
}
use libmediasouphandler.Sdp.Utils.Lines.{write_streams-read}

element_at-encodings_of :
    (n first i : ℕ)
    → element_at i (encodings_of [] (streams n first))
      ≡ (if ltb i n then some (encoding_of ((first + i) % 2 ^ 32) none) else none)
unfolding encodings_of streams element_at rtx_of
element_at-encodings_of zero first i = ground arith
element_at-encodings_of (suc n) first zero = rw (plus_zero first, zero_below n) refl
  where
    plus_zero : (a : ℕ) → a + 0 ≡ a
    plus_zero a = omega arith

    zero_below : (a : ℕ) → ltb 0 (suc a) ≡ true
    zero_below a = ground arith
element_at-encodings_of (suc n) first (suc i) =
    element_at-encodings_of n (suc first) i ∙ rw (plus_suc first i, ltb-suc i n) refl
  where
    plus_suc : (a b : ℕ) → suc a + b ≡ a + suc b
    plus_suc a b = omega arith

    ltb-suc : (a b : ℕ) → ltb a b ≡ ltb (suc a) (suc b)
    ltb-suc a b = ground arith

first_rtx-groups_of :
    (first : ℕ) (media : Json)
    → find "ssrcGroups" media ≡ none
    → first_rtx first (groups_of (find "ssrcGroups" media)) ≡ ok 0
unfolding first_rtx groups_of
first_rtx-groups_of first media g = rw g refl

found_line-eq-ok :
    (message : String) (o : Option Json) (line : Json)
    → found_line message o ≡ ok line
    → o ≡ some line
found_line-eq-ok message none line e = cc
found_line-eq-ok message (some x) line e = cc

no_rtx : (n : ℕ) → rtx_streams n 0 ≡ []
unfolding rtx_streams
no_rtx n = refl

-- What is read of the section `written` after `n` streams were written into the section `media`.
abbrev pub Simulcast : ℕ → Json → Json → Type 0
Simulcast n media written =
    (lines : Json) × (line : Json) × (first : ℕ) × (encodings : List Json) × (member_or_null "ssrcs"
        media
      ≡ ok lines)
    × Mem line (iterate lines)
    × (is_msid_line line ≡ ok true)
    × ((member_or_null "id" line >>= get_uint32) ≡ ok first)
    × (get_rtp_encodings written ≡ ok encodings)
    × ((i : ℕ)
        → element_at i encodings
          ≡ (if ltb i n then some (encoding_of ((first + i) % 2 ^ 32) none) else none))

written-Simulcast :
    (n : ℕ) (media lines line : Json) (first : ℕ) (written : Json)
    → member_or_null "ssrcs" media ≡ ok lines
    → Mem line (iterate lines) × (is_msid_line line ≡ ok true)
    → (member_or_null "id" line >>= get_uint32) ≡ ok first
    → get_rtp_encodings written ≡ ok (encodings_of [] (streams (suc n) first))
    → Simulcast (suc n) media written
written-Simulcast n media lines line first written l m f e = (
  lines,
  line,
  first,
  encodings_of [] (streams (suc n) first),
  l,
  m.0,
  m.1,
  f,
  e,
  element_at-encodings_of (suc n) first,
)

add_streams-Simulcast :
    (n : ℕ) (media : Json)
    → find "ssrcGroups" media ≡ none
    → Ensures (Simulcast (suc n) media) (add_streams (suc n) media)
unfolding add_streams
add_streams-Simulcast n media g = Ensures-bind_eq (member_or_null "ssrcs" media) _ λ lines l.
    Ensures-bind (find_if is_msid_line (iterate lines)) _ (find_if_mem is_msid_line (iterate lines))
      λ found has.
        Ensures-bind_eq (found_line "a=ssrc line with msid information not found" found) _ λ line e.
          Ensures-after (string_member "value" line) _ λ value.
            Ensures-after (two_of (split 32 value)) _ λ ids.
              Ensures-bind_eq (member_or_null "id" line) _ λ id q.
                Ensures-bind_eq (get_uint32 id) _ λ first f.
                  rw (first_rtx-groups_of first media g) (
                    Ensures-after (find_if is_cname_line (iterate lines)) _ λ named.
                      Ensures-after (found_line "CNAME line not found" named) _ λ cname_line.
                        Ensures-after (string_member "value" cname_line) _ λ cname.
                          subst
                            (λ rtxs. Ensures (Simulcast (suc n) media) (
                              write_streams cname (append (append ids.0 " ") ids.1)
                                (streams (suc n) first) rtxs media))
                            (sym (no_rtx (suc n)))
                            (Ensures-mono
                              (write_streams cname (append (append ids.0 " ") ids.1)
                                (streams (suc n) first) [] media)
                              (write_streams-read cname (append (append ids.0 " ") ids.1) n first
                                media)
                              (λ media'.
                                written-Simulcast n media lines line first media' l
                                  (has line (found_line-eq-ok _ found line e)) (rw q f))))

-- Where addLegacySimulcast returns, for two streams or more and a section without groups of SSRCs,
-- getRtpEncodings returns the streams it wrote: there is a line with the attribute msid in the section
-- before, with an SSRC, such that the encoding at each index below the number of streams has that SSRC
-- plus the index, modulo 2 to the 32, and no RTX, and there is no encoding at a greater index.
pub add_legacy_simulcast-Simulcast :
    (n : ℕ) (media : Json)
    → 2 ≤ n
    → find "ssrcGroups" media ≡ none
    → Ensures (Simulcast n media) (add_legacy_simulcast n media)
unfolding add_legacy_simulcast
add_legacy_simulcast-Simulcast zero media l g = absurd (omega (arith, l))
add_legacy_simulcast-Simulcast (suc n) media l g =
    if-cases (Ensures (Simulcast (suc n) media)) (leb (suc n) 1)
      (λ e. absurd (ground (arith, e, l))) λ e. add_streams-Simulcast n media g
