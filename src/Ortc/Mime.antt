-- ===== src/Ortc/Mime.antt =====
-- The regular expressions of src/ortc.cpp over MIME types, all of which ignore case.
use Prim.Native.String.{slice}
use libmediasouphandler.Base.{
  ℕ, String, Bool, true, false, not, ◌&&◌, ◌||◌, Option, none, some, List, [], ◌∷◌, ◌≡◌, refl, ap,
  ◌∙◌, eqb, if◌then◌else◌,
}
use libmediasouphandler.Base.Text.{codes, lower, matches_nocase}

-- What follows a prefix.
abbrev pub strip : List ℕ → List ℕ → Option (List ℕ)
strip [] s = some s
strip (a ∷ p) [] = none
strip (a ∷ p) (c ∷ s) = let rest = strip p s in if eqb a c then rest else none

-- `(.+)` takes one or more characters, none of which ends a line.
abbrev pub one_line : List ℕ → Bool
one_line [] = true
one_line (c ∷ s) = not (eqb c 10) && not (eqb c 13) && one_line s

abbrev some_line : Option (List ℕ) → Bool
some_line none = false
some_line (some []) = false
some_line (some (c ∷ s)) = one_line (c ∷ s)

-- "(audio|video)/(.+)" on a text in lower case.
abbrev pub is_media_line : List ℕ → Bool
is_media_line text =
    some_line (strip (codes "audio/") text) || some_line (strip (codes "video/") text)

-- "^(audio|video)/(.+)": the first group of a match, in the text's own case.
unfoldable pub media_type : String → Option String
media_type s = if is_media_line (lower (codes s)) then some (slice s 0 5) else none

if-eq-some : {A : Type 0} (b : Bool) (x y : A) → (if b then some x else none) ≡ some y → b ≡ true
if-eq-some true x y e = refl
if-eq-some false x y e = cc

-- The regular expression ignores case, and its group keeps it.
pub media_type-recased :
    (mime mime' kind : String)
    → lower (codes mime') ≡ lower (codes mime)
    → media_type mime ≡ some kind
    → media_type mime' ≡ some (slice mime' 0 5)
unfolding media_type
media_type-recased mime mime' kind same e =
    let matched : is_media_line (lower (codes mime')) ≡ true =
      ap is_media_line same
      ∙ if-eq-some (is_media_line (lower (codes mime))) (slice mime 0 5) kind e in
    ap (λ (b : Bool). if b then some (slice mime' 0 5) else none) matched

-- "^(audio|video)/rtx$".
unfoldable pub is_rtx_mime : String → Bool
unfolding matches_nocase
is_rtx_mime s = matches_nocase s "audio/rtx" || matches_nocase s "video/rtx"

media_type_runs :
    (media_type "audio/opus" ≡ some "audio")
    × (media_type "VIDEO/vp8" ≡ some "VIDEO")
    × (media_type "audio/" ≡ none)
    × (media_type "text/plain" ≡ none)
unfolding media_type
media_type_runs = (refl, refl, refl, refl)
