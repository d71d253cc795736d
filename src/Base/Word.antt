-- ===== src/Base/Word.antt =====
-- Unsigned words of the C code: a word is a number, and its arithmetic wraps at the word's size.
-- An `int32_t` is kept as its bit pattern, below 2 ^ 32.
use Prim.Native.Nat.{ℕ, ◌+◌, ◌-◌, ◌%◌, ◌≤◌, ◌<◌}
use mathlib.Core.Path.{◌≡◌}
use mathlib.Core.Logic.{◌↔◌}
use mathlib.Core.Bool.{Bool, true, ◌||◌}
use native.Mathlib.Omega.{arith}
use water_dispenser.Base.Tests.{ltb, leb, ◌==◌}

abbrev pub u8 : ℕ → ℕ
u8 n = n % 256

abbrev pub u16 : ℕ → ℕ
u16 n = n % 65536

abbrev pub u32 : ℕ → ℕ
u32 n = n % 4294967296

-- a - b on `uint32_t`; `b` is a word.
abbrev pub sub_u32 : ℕ → ℕ → ℕ
sub_u32 a b = (a + 4294967296 - b) % 4294967296

-- `(int32_t)w <= 0` of a word `w`.
abbrev pub is_nonpos_i32 : ℕ → Bool
is_nonpos_i32 w = w == 0 || leb 2147483648 w

-- `(int32_t)(target - tick) <= 0`: the test of every deadline in opmode_task.c.
abbrev pub expired : ℕ → ℕ → Bool
expired target tick = is_nonpos_i32 (sub_u32 target tick)

-- A deadline set `delay` ticks ahead has passed exactly when that many ticks have gone by, also
-- where the tick counter wraps, if both are below half its range.
pub expired_iff :
    (start delay elapsed : ℕ)
    → delay < 2147483648
    → elapsed < 2147483648
    → (expired (u32 (start + delay)) (u32 (start + elapsed)) ≡ true) ↔ (delay ≤ elapsed)
expired_iff start delay elapsed hd he = ground arith

-- Comparisons of two `int32_t` by their patterns: shifted by 2 ^ 31 they compare as words.
abbrev pub bias : ℕ → ℕ
bias w = (w + 2147483648) % 4294967296

abbrev pub lt_i32 : ℕ → ℕ → Bool
lt_i32 a b = ltb (bias a) (bias b)

abbrev pub le_i32 : ℕ → ℕ → Bool
le_i32 a b = leb (bias a) (bias b)

-- `a < b` of two `int8_t`, by their patterns.
abbrev pub lt_i8 : ℕ → ℕ → Bool
lt_i8 a b = ltb ((a + 128) % 256) ((b + 128) % 256)
