-- ===== src/ScalabilityMode.antt =====
-- src/scalabilityMode.cpp: the numbers of spatial and temporal layers that a scalability mode names.
pub mod Digits
pub mod Parsed
use libmediasouphandler.Base.{
  ℕ, ◌+◌, ◌-◌, ◌*◌, String, Bool, true, false, ◌&&◌, ◌||◌, Option, none, some, List, [], ◌∷◌, eqb,
  leb, if◌then◌else◌, ◌≡◌, refl,
}
use libmediasouphandler.Base.Text.{codes}
use libmediasouphandler.Json.{Json, int, number_unsigned, object}

abbrev pub is_digit : ℕ → Bool
is_digit c = leb 48 c && leb c 57

abbrev pub is_first_digit : ℕ → Bool
is_first_digit c = leb 49 c && leb c 57

-- `[1-9]\d{0,1}`, which takes a second digit wherever there is one: the number and the rest.
unfoldable pub number : List ℕ → Option (ℕ × List ℕ)
number [] = none
number (c ∷ []) = if is_first_digit c then some (c - 48, []) else none
number (c ∷ d ∷ rest) =
    if is_first_digit c
    then if is_digit d then some ((c - 48) * 10 + (d - 48), rest) else some (c - 48, d ∷ rest)
    else none

-- `.*` up to the end: a dot is no line terminator.
abbrev pub one_line : List ℕ → Bool
one_line [] = true
one_line (c ∷ cs) = if eqb c b'\n' || eqb c b'\r' then false else one_line cs

abbrev temporal_of : ℕ → Option (ℕ × List ℕ) → Option (ℕ × ℕ)
temporal_of spatial none = none
temporal_of spatial (some (temporal, rest)) =
    if one_line rest then some (spatial, temporal) else none

-- The second group, after a `T`.
abbrev after_spatial : Option (ℕ × List ℕ) → Option (ℕ × ℕ)
unfolding number
after_spatial none = none
after_spatial (some (spatial, [])) = none
after_spatial (some (spatial, c ∷ rest)) =
    if eqb c b'T' then temporal_of spatial (number rest) else none

abbrev pub match_codes : List ℕ → Option (ℕ × ℕ)
unfolding number
match_codes [] = none
match_codes (c ∷ rest) = if eqb c b'L' || eqb c b'S' then after_spatial (number rest) else none

-- The two groups of the match.
unfoldable pub match_layers : String → Option (ℕ × ℕ)
unfolding match_codes
match_layers mode = match_codes (codes mode)

abbrev layers_object : Option (ℕ × ℕ) → Json
layers_object none = object (("spatialLayers", int 1) ∷ ("temporalLayers", int 1) ∷ [])
layers_object (some (spatial, temporal)) =
    object (
      ("spatialLayers", number_unsigned spatial)
      ∷ ("temporalLayers", number_unsigned temporal)
      ∷ [])

-- A mode that does not match names one layer of each.
unfoldable pub parse_scalability_mode : String → Json
unfolding match_layers
parse_scalability_mode mode = layers_object (match_layers mode)

match_runs : match_layers "L12T3_KEY" ≡ some (12, 3)
unfolding match_layers
match_runs = refl
