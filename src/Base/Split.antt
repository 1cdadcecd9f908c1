-- ===== src/Base/Split.antt =====
-- split of include/Utils.hpp, and the numbers that std::stoull and std::stoi read.
use Prim.Native.Char.{Char, code}
use Prim.Native.String.{String}
use Prim.Native.Nat.{ℕ, ◌+◌, ◌-◌, ◌*◌, ◌%◌, ◌^◌}
use mathlib.Core.Path.{◌≡◌, refl}
use mathlib.Core.Bool.{Bool, true, false, ◌&&◌, ◌||◌}
use mathlib.Core.Option.{Option, none, some}
use mathlib.Core.List.{List, [], ◌∷◌}
use libmediasouphandler.Base.Tests.{ltb, leb, eqb, if◌then◌else◌}
use libmediasouphandler.Base.Int.{ℤ, pos, negsuc}
use libmediasouphandler.Base.Text.{codes}
use libmediasouphandler.Base.Result.{Result, ok, err, std_error}

-- A character before the first token; a token begins where there is none.
abbrev pub prefixed : Char → List String → List String
prefixed c [] = String.◌∷◌ c "" ∷ []
prefixed c (s ∷ rest) = String.◌∷◌ c s ∷ rest

-- The tokens between separators, as std::getline reads them: no token stands behind a separator at
-- the end, and an empty text has none.
unfoldable pub split : ℕ → String → List String
split sep String.[] = []
split sep (String.◌∷◌ c s) =
    let rest = split sep s in if eqb (code c) sep then "" ∷ rest else prefixed c rest

abbrev is_space : ℕ → Bool
is_space c = eqb c 32 || leb 9 c && leb c 13

abbrev pub is_digit_code : ℕ → Bool
is_digit_code c = leb 48 c && leb c 57

abbrev drop_spaces : List ℕ → List ℕ
drop_spaces [] = []
drop_spaces (c ∷ cs) = if is_space c then drop_spaces cs else c ∷ cs

-- The value of the digits at the beginning, behind those that count `n`.
abbrev pub digits_value : ℕ → List ℕ → ℕ
digits_value n [] = n
digits_value n (c ∷ cs) = if is_digit_code c then digits_value (n * 10 + (c - 48)) cs else n

abbrev unsigned_number : List ℕ → Option ℕ
unsigned_number [] = none
unsigned_number (c ∷ cs) = if is_digit_code c then some (digits_value 0 (c ∷ cs)) else none

abbrev with_sign : Bool → Option ℕ → Option (Bool × ℕ)
with_sign negative none = none
with_sign negative (some n) = some (negative, n)

abbrev signed_number : List ℕ → Option (Bool × ℕ)
signed_number [] = none
signed_number (c ∷ cs) =
    if eqb c b'-'
    then with_sign true (unsigned_number cs)
    else if eqb c b'+'
    then with_sign false (unsigned_number cs)
    else with_sign false (unsigned_number (c ∷ cs))

abbrev as_unsigned : Option (Bool × ℕ) → Result ℕ
as_unsigned none = err (std_error "invalid_argument")
as_unsigned (some (negative, n)) =
    if leb (2 ^ 64) n
    then err (std_error "out_of_range")
    else ok (if negative then (2 ^ 64 - n) % 2 ^ 64 else n)

-- std::stoull, to the base ten.
unfoldable pub stoull : String → Result ℕ
stoull s = as_unsigned (signed_number (drop_spaces (codes s)))

abbrev negated : ℕ → ℤ
negated n = if eqb n 0 then pos 0 else negsuc (n - 1)

abbrev as_signed : Option (Bool × ℕ) → Result ℤ
as_signed none = err (std_error "invalid_argument")
as_signed (some (negative, n)) =
    if negative
    then (if ltb (2 ^ 31) n then err (std_error "out_of_range") else ok (negated n))
    else if leb (2 ^ 31) n
    then err (std_error "out_of_range")
    else ok (pos n)

-- std::stoi, to the base ten.
unfoldable pub stoi : String → Result ℤ
stoi s = as_signed (signed_number (drop_spaces (codes s)))

split_runs : (split 32 " a bc d " ≡ "" ∷ "a" ∷ "bc" ∷ "d" ∷ []) × (split 32 "" ≡ [])
unfolding split
split_runs = (refl, refl)

stoi_runs :
    (stoi " -12x" ≡ ok (negsuc 11))
    × (stoull "77 8" ≡ ok 77)
    × (stoi "x" ≡ err (std_error "invalid_argument"))
unfolding stoi stoull
stoi_runs = (refl, refl, refl)
