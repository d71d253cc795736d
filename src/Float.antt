-- ===== src/Float.antt =====
-- C's `float`, as its 32-bit pattern. Its arithmetic is the processor's, so it enters as the
-- parameter `FloatOps`; no law of it is assumed anywhere, except where a theorem says so.
use Prim.Native.Nat.{ℕ}
use mathlib.Core.Bool.{Bool}

abbrev pub Float : Type 0
Float = ℕ

pub record FloatOps : Type 0 where
  pub add : Float → Float → Float
  pub sub : Float → Float → Float
  pub div : Float → Float → Float
  pub mul : Float → Float → Float
  pub abs : Float → Float  -- fabsf
  pub lt : Float → Float → Bool  -- a < b
  pub le : Float → Float → Bool  -- a <= b
  pub eq : Float → Float → Bool  -- a == b
  pub of_u32 : ℕ → Float  -- (float) of a uint32_t
  pub of_i32 : ℕ → Float  -- (float) of an int32_t, given as its pattern
  pub to_u32 : Float → ℕ  -- (uint32_t) of a float
  pub to_i32 : Float → ℕ  -- (int) of a float, as its pattern
  pub zero : Float  -- 0.0f
