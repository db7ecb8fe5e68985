-- ===== src/Prelude/Floats.antt =====
-- Python's floats as far as the program compares and converts them. Their arithmetic is not
-- modelled: a record of the operations is an argument of the definitions that use them.
use Prim.Native.Nat.{ℕ}
use mathlib.Core.Bool.{Bool}

pub record Floats (F : Type 0) : Type 0 where
  -- 0.0
  pub zero_float : F
  -- a >= b and a > b
  pub geb : F → F → Bool
  pub gtb : F → F → Bool
  -- (a - b) / 1e9 for two readings of the nanosecond clock
  pub seconds_between : ℕ → ℕ → F
