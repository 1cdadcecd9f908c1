-- ===== src/ScalabilityMode/Parsed.antt =====
-- What parseScalabilityMode reads: printed layers come back, and layers are between 1 and 99.
use Prim.Native.String.{◌++◌ as append}
use libmediasouphandler.Base.{
  ℕ, ◌≤◌, ◌<◌, String, Bool, true, false, ◌&&◌, ◌||◌, subst, Option, none, some, List, [], ◌∷◌,
  ◌++◌, ◌≡◌, refl, ◌∙◌, ap, arith, ltb, eqb, if◌then◌else◌, ◌⊎◌, inl, inr, Bool-cases,
}
use libmediasouphandler.Base.Text.{codes, to_string}
use libmediasouphandler.ScalabilityMode.{
  number, one_line, match_codes, match_layers, after_spatial, temporal_of,
}
use libmediasouphandler.ScalabilityMode.Digits.{
  codes-append, codes-to_string, digits_of, starts_digit, number-digits_of,
}

-- "L" or "S", the spatial layers, "T", the temporal layers, and more.
abbrev pub printed : String → ℕ → ℕ → String → String
unfolding to_string
printed letter spatial temporal rest =
    append letter (append (to_string spatial) (append "T" (append (to_string temporal) rest)))

codes-printed :
    (letter : String) (spatial temporal : ℕ) (rest : String)
    → spatial < 100
    → temporal < 100
    → codes (printed letter spatial temporal rest)
      ≡ codes letter ++ (digits_of spatial ++ (b'T' ∷ (digits_of temporal ++ codes rest)))
unfolding printed
codes-printed letter s t rest u v =
    codes-append letter _
    ∙ ap (λ cs. codes letter ++ cs)
        (codes-append (to_string s) _
          ∙ rw (codes-to_string s u) (
              ap (λ cs. digits_of s ++ cs)
                (codes-append "T" _
                  ∙ ap (λ cs. b'T' ∷ cs)
                      (codes-append (to_string t) rest ∙ rw (codes-to_string t v) refl))))

-- A letter L or S, a number of spatial layers from 1 to 99, a T, a number of temporal layers from 1 to
-- 99, and any text on one line that does not go on with a digit after a number below ten, match with
-- just these numbers.
pub match_layers-printed :
    (letter : String) (spatial temporal : ℕ) (rest : String)
    → (letter ≡ "L") ⊎ (letter ≡ "S")
    → 1 ≤ spatial
    → spatial < 100
    → 1 ≤ temporal
    → temporal < 100
    → (ltb temporal 10 && starts_digit (codes rest)) ≡ false
    → one_line (codes rest) ≡ true
    → match_layers (printed letter spatial temporal rest) ≡ some (spatial, temporal)
unfolding match_layers
match_layers-printed letter s t rest h l u l' u' e o =
    ap match_codes (codes-printed letter s t rest u u') ∙ by_letter h
  where
    tail :
        after_spatial (number (digits_of s ++ (b'T' ∷ (digits_of t ++ codes rest)))) ≡ some (s, t)
    tail =
        rw
          (
            number-digits_of s (b'T' ∷ (digits_of t ++ codes rest)) l u (ground arith),
            number-digits_of t (codes rest) l' u' e,
            o,
          )
          refl

    by_letter :
        (letter ≡ "L") ⊎ (letter ≡ "S")
        → match_codes (codes letter ++ (digits_of s ++ (b'T' ∷ (digits_of t ++ codes rest))))
          ≡ some (s, t)
    by_letter (inl q) = rw q tail
    by_letter (inr q) = rw q tail

abbrev pub Layers : ℕ → Type 0
Layers n = (1 ≤ n) × (n ≤ 99)

number-Layers : (cs : List ℕ) (n : ℕ) (rest : List ℕ) → number cs ≡ some (n, rest) → Layers n
unfolding number
number-Layers [] n rest h = cc
number-Layers (c ∷ []) n rest h = ground arith
number-Layers (c ∷ d ∷ cs) n rest h = ground arith

pair_of : (m n a b : ℕ) → ◌≡◌ {A = Option (ℕ × ℕ)} (some (m, n)) (some (a, b)) → (m ≡ a) × (n ≡ b)
pair_of m n a b h = (cc, cc)

if_true :
    (c : Bool) {x : Option (ℕ × ℕ)} {p : ℕ × ℕ}
    → c ≡ true
    → (if c then x else none) ≡ some p
    → x ≡ some p
if_true true e h = h
if_true false e h = cc

-- Whatever text matches, the numbers of spatial and of temporal layers are between 1 and 99.
pub match_layers-Layers :
    (mode : String) (spatial temporal : ℕ)
    → match_layers mode ≡ some (spatial, temporal)
    → Layers spatial × Layers temporal
unfolding match_layers
match_layers-Layers mode s t h = in_codes (codes mode) s t h
  where
    in_temporal :
        (s : ℕ) (o : Option (ℕ × List ℕ)) (a b : ℕ)
        → ((n : ℕ) (rest : List ℕ) → o ≡ some (n, rest) → Layers n)
        → temporal_of s o ≡ some (a, b)
        → (s ≡ a) × Layers b
    in_temporal s none a b k h = cc
    in_temporal s (some (n, rest)) a b k h = elim (Bool-cases (one_line rest)) [
      | inl e ↦
          let (p, q) = pair_of s n a b (if_true (one_line rest) e h) in
          (p, subst Layers q (k n rest refl))
      | inr e ↦ ground (arith, e, h)
    ]

    in_spatial :
        (o : Option (ℕ × List ℕ)) (a b : ℕ)
        → ((n : ℕ) (rest : List ℕ) → o ≡ some (n, rest) → Layers n)
        → after_spatial o ≡ some (a, b)
        → Layers a × Layers b
    in_spatial none a b k h = cc
    in_spatial (some (n, [])) a b k h = cc
    in_spatial (some (n, c ∷ rest)) a b k h = elim (Bool-cases (eqb c b'T')) [
      | inl e ↦
          let (p, q) =
            in_temporal n (number rest) a b (number-Layers rest) (if_true (eqb c b'T') e h) in
          (subst Layers p (k n (c ∷ rest) refl), q)
      | inr e ↦ ground (arith, e, h)
    ]

    in_codes : (cs : List ℕ) (a b : ℕ) → match_codes cs ≡ some (a, b) → Layers a × Layers b
    in_codes [] a b h = cc
    in_codes (c ∷ rest) a b h = elim (Bool-cases (eqb c b'L' || eqb c b'S')) [
      | inl e ↦
          in_spatial (number rest) a b (number-Layers rest) (if_true (eqb c b'L' || eqb c b'S') e h)
      | inr e ↦ ground (arith, e, h)
    ]
