-- ===== src/ScalabilityMode/Digits.antt =====
-- The code points of the numbers below a hundred, as std::to_string prints them.
use Prim.Native.String.{◌++◌ as append}
use text.Mathlib.TextLemmas.{cons-append, nil-append}
use libmediasouphandler.Base.{
  ℕ, zero, suc, ◌+◌, ◌-◌, ◌*◌, ◌/◌, ◌%◌, ◌<◌, ◌≤◌, String, Bool, true, false, ◌&&◌, some, eqb, List,
  [], ◌∷◌, ◌++◌, ◌≡◌, refl, ◌∙◌, ap, arith, ltb, if◌then◌else◌, Bool-cases, inl, inr,
}
use Prim.Native.Char.{code}
use libmediasouphandler.Base.Text.{codes, same_codes, to_string}
use libmediasouphandler.ScalabilityMode.{is_digit, is_first_digit, number}

pub codes-append : (s t : String) → codes (append s t) ≡ codes s ++ codes t
codes-append String.[] t = ap codes (nil-append t)
codes-append (String.◌∷◌ c s) t =
    ap codes (cons-append c s t) ∙ ap (λ cs. code c ∷ cs) (codes-append s t)

-- One digit, or two.
abbrev pub digits_of : ℕ → List ℕ
digits_of n = if ltb n 10 then (48 + n) ∷ [] else (48 + n / 10) ∷ (48 + n % 10) ∷ []

abbrev all_below : ℕ → (ℕ → Bool) → Bool
all_below zero p = true
all_below (suc k) p = p k && all_below k p

below : (k : ℕ) (p : ℕ → Bool) → all_below k p ≡ true → (n : ℕ) → n < k → p n ≡ true
below zero p h n l = ground (arith, l)
below (suc k) p h n l = elim (Bool-cases (eqb n k)) [
  | inl e ↦ ground (arith, e, h)
  | inr e ↦ below k p (ground (arith, h)) n (ground (arith, e, l))
]

same_codes_sound : (a b : List ℕ) → same_codes a b ≡ true → a ≡ b
same_codes_sound [] [] h = refl
same_codes_sound (x ∷ a) [] h = cc
same_codes_sound [] (y ∷ b) h = cc
same_codes_sound (x ∷ a) (y ∷ b) h = ground (arith, same_codes_sound a b)

abbrev prints_digits : ℕ → Bool
unfolding to_string
prints_digits n = same_codes (codes (to_string n)) (digits_of n)

all_print : all_below 100 prints_digits ≡ true
unfolding prints_digits to_string
all_print = refl

pub codes-to_string : (n : ℕ) → n < 100 → codes (to_string n) ≡ digits_of n
unfolding prints_digits
codes-to_string n h = same_codes_sound _ _ (below 100 prints_digits all_print n h)

abbrev pub starts_digit : List ℕ → Bool
starts_digit [] = false
starts_digit (c ∷ cs) = is_digit c

first_is_digit : (d : ℕ) → 1 ≤ d → d < 10 → is_first_digit (48 + d) ≡ true
first_is_digit d l u = ground (arith, l, u)

digit_is_digit : (d : ℕ) → d < 10 → is_digit (48 + d) ≡ true
digit_is_digit d u = ground (arith, u)

digit_back : (d : ℕ) → 48 + d - 48 ≡ d
digit_back d = omega arith

one_digit :
    (n : ℕ) (rest : List ℕ)
    → 1 ≤ n
    → n < 10
    → starts_digit rest ≡ false
    → number ((48 + n) ∷ rest) ≡ some (n, rest)
unfolding number
one_digit n [] l u e = rw (first_is_digit n l u, digit_back n) refl
one_digit n (c ∷ cs) l u e = rw (first_is_digit n l u, e, digit_back n) refl

tens : (n : ℕ) → n / 10 * 10 + n % 10 ≡ n
tens n = omega arith

two_digits :
    (n : ℕ) (rest : List ℕ)
    → 10 ≤ n
    → n < 100
    → number ((48 + n / 10) ∷ (48 + n % 10) ∷ rest) ≡ some (n, rest)
unfolding number
two_digits n rest l u =
    rw
      (
        first_is_digit (n / 10) (omega (arith, l)) (omega (arith, u)),
        digit_is_digit (n % 10) (omega arith),
        digit_back (n / 10),
        digit_back (n % 10),
        tens n,
      )
      refl

-- The digits of a number are read back, where no further digit follows a single one.
pub number-digits_of :
    (n : ℕ) (rest : List ℕ)
    → 1 ≤ n
    → n < 100
    → (ltb n 10 && starts_digit rest) ≡ false
    → number (digits_of n ++ rest) ≡ some (n, rest)
unfolding number
number-digits_of n rest l u e = elim (Bool-cases (ltb n 10)) [
  | inl d ↦ rw d (one_digit n rest l (ground (arith, d)) (ground (arith, d, e)))
  | inr d ↦ rw d (two_digits n rest (ground (arith, d)) u)
]
