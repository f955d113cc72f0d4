-- ===== src/Base/Int.antt =====
-- Python's integers, as far as the program needs them: exit codes, and `int(x or d)`.
use Prim.Native.Nat.{ℕ, suc, zero}
use mathlib.Core.Bool.{Bool, true, false}
use mathlib.Core.Path.{◌≡◌, refl}
use mathlib.Core.Option.{Option, none, some}

-- `negsuc n` is -(n + 1).
pub data ℤ : Type 0 where
  pos : ℕ → ℤ
  negsuc : ℕ → ℤ

abbrev pub is_zero : ℤ → Bool
is_zero (pos zero) = true
is_zero _ = false

-- `int(x or d)` for a number that may be missing: Python takes 0 for missing too.
abbrev pub or_default : Option ℤ → ℤ → ℤ
or_default none d = d
or_default (some (pos zero)) d = d
or_default (some z) d = z

-- A value of a dictionary without types: an integer, or any other value by its truth value and by what
-- `int` makes of it, so that the string "0" is `other_value true (pos 0)`.
pub data Object : Type 0 where
  int_value : ℤ → Object
  other_value : (truthy : Bool) (int : ℤ) → Object

-- `int(state.get(key, d) or d)`. Values that `int` refuses, where the program raises, are left out.
abbrev pub int_or : Option Object → ℤ → ℤ
int_or none d = d
int_or (some (int_value z)) d = or_default (some z) d
int_or (some (other_value true z)) d = z
int_or (some (other_value false z)) d = d

abbrev pub pos_part : ℤ → ℕ
pos_part (pos n) = n
pos_part (negsuc n) = 0

abbrev pub neg_part : ℤ → ℕ
neg_part (pos n) = 0
neg_part (negsuc n) = suc n

-- With the default 1 the result is never 0.
pub nonzero_default : (z : Option ℤ) → is_zero (or_default z (pos 1)) ≡ false
nonzero_default none = refl
nonzero_default (some (pos zero)) = refl
nonzero_default (some (pos (suc n))) = refl
nonzero_default (some (negsuc n)) = refl
