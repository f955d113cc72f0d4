-- ===== src/Base/Float.antt =====
-- Python's floats, as a parameter: a type with the operations that the program uses. `dec n d` is
-- the literal n / 10^d, `gtb a b` is `a > b`, `lte a b` is `a <= b`, and `round4` is `round(x, 4)`.
use Prim.Native.Nat.{ℕ}
use mathlib.Core.Bool.{Bool}
use rfsn_agent_full.Base.Tests.{if◌then◌else◌}

pub record Floats : Type 1 where
  pub Float : Type 0
  pub dec : ℕ → ℕ → Float
  pub add : Float → Float → Float
  pub sub : Float → Float → Float
  pub mul : Float → Float → Float
  pub div : Float → Float → Float
  pub gtb : Float → Float → Bool
  pub lte : Float → Float → Bool
  pub round4 : Float → Float

module _ (F : Floats) where
  open F use {Float, dec, gtb}

  abbrev pub of_ℕ : ℕ → Float
  of_ℕ n = dec n 0

  -- `min(a, b)` and `max(a, b)`: the first, unless the second is strictly better.
  unfoldable pub min_float : Float → Float → Float
  min_float a b = if gtb a b then b else a

  unfoldable pub max_float : Float → Float → Float
  max_float a b = if gtb b a then b else a
