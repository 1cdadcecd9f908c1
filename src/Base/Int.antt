-- ===== src/Base/Int.antt =====
-- Signed integers over the native numbers: `negsuc n` is -(n + 1).
use Prim.Native.Nat.{ℕ, suc, ◌-◌, ◌*◌, ◌/◌, ◌%◌, ◌^◌}
use mathlib.Core.Bool.{Bool, false}
use libmediasouphandler.Base.Tests.{ltb, eqb, if◌then◌else◌}

pub data ℤ : Type 0 where
  pos : ℕ → ℤ
  negsuc : ℕ → ℤ

abbrev pub eqb_ℤ : ℤ → ℤ → Bool
eqb_ℤ (pos m) (pos n) = eqb m n
eqb_ℤ (negsuc m) (negsuc n) = eqb m n
eqb_ℤ _ _ = false

-- a * 2 ^ k.
abbrev pub shl_ℤ : ℤ → ℕ → ℤ
shl_ℤ (pos n) k = pos (n * 2 ^ k)
shl_ℤ (negsuc n) k = negsuc (suc n * 2 ^ k - 1)

-- a / 2 ^ k, rounded towards zero as a conversion from a floating-point number does.
abbrev pub trunc_ℤ : ℤ → ℕ → ℤ
trunc_ℤ (pos n) k = pos (n / 2 ^ k)
trunc_ℤ (negsuc n) k = let q = suc n / 2 ^ k in if eqb q 0 then pos 0 else negsuc (q - 1)

-- A conversion to an unsigned type of `w` bits.
abbrev pub to_unsigned : ℕ → ℤ → ℕ
to_unsigned w (pos n) = n % 2 ^ w
to_unsigned w (negsuc n) = 2 ^ w - 1 - n % 2 ^ w

-- A conversion to a signed type of `w + 1` bits.
abbrev pub to_signed : ℕ → ℤ → ℤ
to_signed w a =
    let u = to_unsigned (suc w) a in if ltb u (2 ^ w) then pos u else negsuc (2 ^ suc w - 1 - u)
