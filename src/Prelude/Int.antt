-- ===== src/Prelude/Int.antt =====
-- C's signed `int`, as an integer over the native numbers.
use Prim.Native.Nat.{ℕ, zero, suc}
use mathlib.Core.Path.{◌≡◌, refl}

-- `negsuc n` is -(n + 1).
pub data ℤ : Type 0 where
  pos : ℕ → ℤ
  negsuc : ℕ → ℤ

-- -n
abbrev pub neg : ℕ → ℤ
neg n = elim n [ zero ↦ pos 0 | suc k ↦ negsuc k ]

abbrev pub minus_one : ℤ
minus_one = negsuc 0

-- To prove something of a match on an integer, prove it of each case.
pub int-elim {κ ν} :
    {B : Type κ} (P : B → Type ν) (z : ℤ) (f g : ℕ → B)
    → ((n : ℕ) → z ≡ negsuc n → P (f n))
    → ((n : ℕ) → z ≡ pos n → P (g n))
    → P (elim z [ negsuc n ↦ f n | pos n ↦ g n ])
int-elim P (pos n) f g pf pg = pg n refl
int-elim P (negsuc n) f g pf pg = pf n refl
