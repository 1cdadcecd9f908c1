-- ===== src/Base/Result.antt =====
-- The exceptions of include/MediaSoupClientErrors.hpp, those of the JSON library, and calls that
-- return or throw.
use mathlib.Core.Path.{◌≡◌, refl, subst}
use mathlib.Core.Logic.{◌⊎◌, inl, inr}
use mathlib.Core.Bool.{Bool, true, false}
use Prim.Native.Nat.{ℕ}
use Prim.Native.String.{String}

-- `json_error n` is nlohmann::json's exception number n, and `undefined` what C++ leaves undefined:
-- a const operator[] on a key that is not there, or the end iterator read. `std_error` is an exception
-- of C++'s own library, by its name.
pub data Error : Type 0 where
  error type_error unsupported_error invalid_state_error : String → Error
  json_error : ℕ → Error
  std_error : String → Error
  undefined : Error

pub data Result {ℓ} (A : Type ℓ) : Type ℓ where
  ok : A → Result A
  err : Error → Result A

-- `if (!condition) throw error;`.
abbrev pub guard : Bool → Error → Result (Unit {0})
guard false thrown = err thrown
guard true thrown = ok tt

pub ok_injective {ℓ} : {A : Type ℓ} {a b : A} → ok a ≡ ok b → a ≡ b
ok_injective h = cc

-- A call returns or throws.
pub Result-cases {ℓ} :
    {A : Type ℓ} (x : Result A) → ((e : Error) × (x ≡ err e)) ⊎ ((a : A) × (x ≡ ok a))
Result-cases (err e) = inl (e, refl)
Result-cases (ok a) = inr (a, refl)

infixl 5 ◌>>=◌ ◌>>◌
abbrev pub ◌>>=◌ {ℓ κ} :
    {A : Type ℓ} {B : Type κ} (call : Result A) (rest : A → Result B) → Result B
err thrown >>= rest = err thrown
ok value >>= rest = rest value

-- A block that returns has a first call that returned.
pub >>=-eq-ok {ℓ κ} :
    {A : Type ℓ} {B : Type κ} (call : Result A) (rest : A → Result B) {result : B}
    → (call >>= rest) ≡ ok result
    → (value : A) × (call ≡ ok value) × (rest value ≡ ok result)
>>=-eq-ok (err thrown) rest h = cc
>>=-eq-ok (ok value) rest h = (value, refl, h)

abbrev pub ◌>>◌ {ℓ} : {B : Type ℓ} → Result (Unit {0}) → Result B → Result B
first >> second = first >>= λ u. second

-- What is returned has `P`; nothing is said of a call that throws.
pub record Ensures {ℓ κ} {A : Type ℓ} (P : A → Type κ) (m : Result A) : Type (ℓ ⊔ κ) where
  pub returns : (a : A) → m ≡ ok a → P a

module _ {ℓ κ} {A : Type ℓ} {P : A → Type κ} where
  pub Ensures-ok : {a : A} → P a → Ensures P (ok a)
  Ensures-ok h = record { returns = λ b e. subst P (ok_injective e) h }

  pub Ensures-err : (e : Error) → Ensures P (err e)
  Ensures-err x = record { returns = λ b e. cc }

module _ {ℓ κ ι} {A : Type ℓ} {B : Type κ} {Q : B → Type ι} where
  -- The rest of a block may use the equation that the first call returned.
  pub Ensures-bind_eq :
      (m : Result A) (f : A → Result B)
      → ((a : A) → m ≡ ok a → Ensures Q (f a))
      → Ensures Q (m >>= f)
  Ensures-bind_eq (ok a) f k = k a refl
  Ensures-bind_eq (err e) f k = Ensures-err e

  pub Ensures-bind {μ} :
      {P : A → Type μ} (m : Result A) (f : A → Result B)
      → Ensures P m
      → ((a : A) → P a → Ensures Q (f a))
      → Ensures Q (m >>= f)
  Ensures-bind m f h k = Ensures-bind_eq m f λ a e. k a (h.returns a e)

  -- A call of which nothing is needed.
  pub Ensures-after :
      (m : Result A) (f : A → Result B) → ((a : A) → Ensures Q (f a)) → Ensures Q (m >>= f)
  Ensures-after m f k = Ensures-bind_eq m f λ a e. k a

module _ {ℓ κ} {A : Type ℓ} {Q : A → Type κ} where
  pub Ensures-guard :
      (b : Bool) (e : Error) (k : Result A) → (b ≡ true → Ensures Q k) → Ensures Q (guard b e >> k)
  Ensures-guard true e k h = h refl
  Ensures-guard false e k h = Ensures-err e

  pub Ensures-mono {ι} :
      {P : A → Type ι} (m : Result A) → Ensures P m → ((a : A) → P a → Q a) → Ensures Q m
  Ensures-mono m h k = record { returns = λ a e. k a (h.returns a e) }
