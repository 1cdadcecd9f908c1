-- ===== src/Base/Text.antt =====
-- Texts as the source reads them: std::tolower of the "C" locale over a text, prefixes, and the
-- decimal digits of std::to_string.
use Prim.Native.Nat.{ℕ, suc, zero, ◌+◌, ◌/◌, ◌%◌}
use Prim.Native.Char.{code}
use Prim.Native.String.{String, ◌++◌}
use mathlib.Core.Path.{◌≡◌, refl}
use mathlib.Core.Bool.{Bool, true, false, ◌&&◌, ◌||◌}
use mathlib.Core.List.{List, [], ◌∷◌}
use libmediasouphandler.Base.Tests.{ltb, leb, eqb, if◌then◌else◌}
use libmediasouphandler.Base.Int.{ℤ, pos, negsuc}

abbrev pub codes : String → List ℕ
codes String.[] = []
codes (String.◌∷◌ c s) = code c ∷ codes s

-- ::tolower on one byte.
abbrev pub lower_code : ℕ → ℕ
lower_code c = if leb b'A' c && leb c b'Z' then c + 32 else c

-- The lower-case bytes of a text; two texts that differ in case alone have the same ones.
abbrev pub lower : List ℕ → List ℕ
lower [] = []
lower (c ∷ s) = lower_code c ∷ lower s

abbrev pub same_codes : List ℕ → List ℕ → Bool
same_codes [] [] = true
same_codes (a ∷ s) (b ∷ t) = eqb a b && same_codes s t
same_codes _ _ = false

-- A match of a whole text without regard to case, against a text in lower case.
unfoldable pub matches_nocase : String → String → Bool
matches_nocase s t = same_codes (lower (codes s)) (codes t)

abbrev pub is_empty : String → Bool
is_empty String.[] = true
is_empty (String.◌∷◌ c s) = false

-- The texts with a separator between each and the next.
unfoldable pub join : String → List String → String
join sep [] = ""
join sep (s ∷ []) = s
join sep (s ∷ t ∷ rest) = s ++ sep ++ join sep (t ∷ rest)

-- The order of std::string: that of the bytes, which in UTF-8 is that of the code points.
abbrev pub codes_lt : List ℕ → List ℕ → Bool
codes_lt [] [] = false
codes_lt [] (b ∷ t) = true
codes_lt (a ∷ s) [] = false
codes_lt (a ∷ s) (b ∷ t) = ltb a b || eqb a b && codes_lt s t

-- One decimal digit; a number of ten or more counts by its last digit.
abbrev digit : ℕ → String
digit zero = "0"
digit (suc zero) = "1"
digit (suc (suc zero)) = "2"
digit (suc (suc (suc zero))) = "3"
digit (suc (suc (suc (suc zero)))) = "4"
digit (suc (suc (suc (suc (suc zero))))) = "5"
digit (suc (suc (suc (suc (suc (suc zero)))))) = "6"
digit (suc (suc (suc (suc (suc (suc (suc zero))))))) = "7"
digit (suc (suc (suc (suc (suc (suc (suc (suc zero)))))))) = "8"
digit (suc (suc (suc (suc (suc (suc (suc (suc (suc n))))))))) = "9"

-- The digits, with fuel: `n + 1` rounds are enough, since each divides by ten.
digits_fuel : ℕ → ℕ → String
digits_fuel zero n = ""
digits_fuel (suc f) n =
    let more = digits_fuel f (n / 10) ++ digit (n % 10) in if ltb n 10 then digit n else more

-- std::to_string of an unsigned and of a signed number.
unfoldable pub to_string : ℕ → String
unfolding digits_fuel
to_string n = digits_fuel (suc n) n

unfoldable pub to_string_ℤ : ℤ → String
unfolding to_string
to_string_ℤ (pos n) = to_string n
to_string_ℤ (negsuc n) = "-" ++ to_string (suc n)

to_string_runs : to_string 1205 ≡ "1205"
unfolding to_string
to_string_runs = refl

matches_runs : matches_nocase "Audio/RTX" "audio/rtx" ≡ true
unfolding matches_nocase
matches_runs = refl
