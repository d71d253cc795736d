-- ===== src/Base/Register.antt =====
-- A `uint16_t` of flags: the tests `r & m`, and the updates `r |= m` and `r &= ~m`.
use Prim.Native.Nat.{ℕ, zero, suc, ◌+◌, ◌-◌, ◌/◌, ◌^◌, ◌≤◌, ◌<◌, bit_and, bit_or}
use mathlib.Core.Path.{◌≡◌, refl, sym, ap, ◌∙◌}
use mathlib.Core.Logic.{◌↔◌, inl, inr}
use mathlib.Core.Bool.{Bool, true, false, not}
use native.Mathlib.Nat.{pow-suc, one-le-pow, pow-le-pow_right}
use native.Mathlib.Decide.{dec_lt}
use native.Mathlib.Omega.{arith}
use water_dispenser.Base.Tests.{◌==◌, if◌then◌else◌, Bool-cases}
use water_dispenser.Base.Bits.{bit, bit_le, bit-zero, bit_ext, bit-bit_or, bit-bit_and}

unfoldable pub has : ℕ → ℕ → Bool
has r m = not (bit_and r m == 0)

unfoldable pub set_bits : ℕ → ℕ → ℕ
set_bits r m = bit_or r m

-- `~m` is an `int` whose low 16 bits are 65535 - m; the register keeps those alone.
unfoldable pub clear_bits : ℕ → ℕ → ℕ
clear_bits r m = bit_and r (65535 - m)

pub bit-pow : (j k : ℕ) → bit j (2 ^ k) ≡ (if j == k then 1 else 0)
bit-pow zero zero = refl
bit-pow zero (suc k) = ground (arith, pow-suc 2 k)
bit-pow (suc j) zero = ground (arith, bit-zero j)
bit-pow (suc j) (suc k) = rw half (bit-pow j k ∙ shift)
  where
    half : 2 ^ suc k / 2 ≡ 2 ^ k
    half = omega (arith, pow-suc 2 k)

    shift : (if j == k then ◌+◌ 1 0 else 0) ≡ (if suc j == suc k then 1 else 0)
    shift = ground arith

pub bit-complement : (w j m : ℕ) → j < w → m < 2 ^ w → bit j (2 ^ w - 1 - m) ≡ 1 - bit j m
bit-complement zero j m p q = absurd (omega arith)
bit-complement (suc w) zero m p q = omega (arith, pow-suc 2 w, one-le-pow w 2)
bit-complement (suc w) (suc j) m p q =
    rw half (bit-complement w j (m / 2) (omega arith) (omega (arith, pow-suc 2 w)))
  where
    half : (2 ^ suc w - 1 - m) / 2 ≡ 2 ^ w - 1 - m / 2
    half = omega (arith, pow-suc 2 w, one-le-pow w 2)

-- What a test of one flag reads.
bit-and_flag : (r k j : ℕ) → bit j (bit_and r (2 ^ k)) ≡ (if j == k then bit k r else 0)
bit-and_flag r k j = elim (Bool-cases (j == k)) [
  | inl e ↦
      let same : j ≡ k = ground arith in
      rw same (ground (arith, bit-bit_and k r (2 ^ k), bit-pow k k, bit_le k r))
  | inr e ↦ ground (arith, bit-bit_and j r (2 ^ k), bit-pow j k, bit_le j r)
]

flag_off : (r k : ℕ) → bit k r ≡ 0 → bit_and r (2 ^ k) ≡ 0
flag_off r k off =
    bit_ext (bit_and r (2 ^ k)) (bit_and r (2 ^ k)) 0
      (λ j. ground (arith, bit-and_flag r k j, bit-zero j)) (omega arith) (omega arith)

flag_on : (r k : ℕ) → bit_and r (2 ^ k) ≡ 0 → bit k r ≡ 0
flag_on r k e = ground (arith, sym (bit-and_flag r k k) ∙ ap (bit k) e, bit-zero k)

-- The test of a register against one flag reads that flag.
pub has_iff : (r k : ℕ) → (has r (2 ^ k) ≡ true) ↔ (bit k r ≡ 1)
unfolding has
has_iff r k = ground (arith, flag_off r k, flag_on r k, bit_le k r)

pub has-eq_false : (r k : ℕ) → (has r (2 ^ k) ≡ false) ↔ (bit k r ≡ 0)
unfolding has
has-eq_false r k = ground (arith, flag_off r k, flag_on r k, bit_le k r)

-- `r |= 1 << k` turns flag k on and leaves the others alone.
pub bit-set_bits : (r k j : ℕ) → bit j (set_bits r (2 ^ k)) ≡ (if j == k then 1 else bit j r)
unfolding set_bits
bit-set_bits r k j = ground (arith, bit-bit_or j r (2 ^ k), bit-pow j k, bit_le j r)

-- `r &= ~(1 << k)` turns flag k off and leaves the others of the register alone.
pub bit-clear_bits :
    (r k j : ℕ) → k < 16 → j < 16 → bit j (clear_bits r (2 ^ k)) ≡ (if j == k then 0 else bit j r)
unfolding clear_bits
bit-clear_bits r k j hk hj =
    let small : 2 ^ k ≤ 2 ^ 15 =
      pow-le-pow_right {n = 2} (omega arith) {i = k} {j = 15} (omega arith) in
    ground (
      arith,
      bit-bit_and j r (65535 - 2 ^ k),
      bit-complement 16 j (2 ^ k) hj (omega arith),
      bit-pow j k,
      bit_le j r,
    )

-- A word of w bits has none above, and the converse.
pub bit-above : (w j n : ℕ) → n < 2 ^ w → w ≤ j → bit j n ≡ 0
bit-above zero j n h p = let e : n ≡ 0 = omega arith in rw e (bit-zero j)
bit-above (suc w) zero n h p = absurd (omega arith)
bit-above (suc w) (suc j) n h p = bit-above w j (n / 2) (omega (arith, pow-suc 2 w)) (omega arith)

pub lt_of_bits : (w n : ℕ) → ((j : ℕ) → w ≤ j → bit j n ≡ 0) → n < 2 ^ w
lt_of_bits zero n h =
    let e : n ≡ 0 =
      bit_ext n n 0 (λ j. ground (arith, h j, bit-zero j)) (omega arith) (omega arith) in
    omega arith
lt_of_bits (suc w) n h =
    omega (arith, pow-suc 2 w, lt_of_bits w (n / 2) (λ j p. h (suc j) (omega arith)))

flag-lt : (k : ℕ) → k < 16 → 2 ^ k < 2 ^ 16
flag-lt k h =
    let small : 2 ^ k ≤ 2 ^ 15 =
      pow-le-pow_right {n = 2} (omega arith) {i = k} {j = 15} (omega arith) in
    omega arith

-- Both updates stay within the register.
pub set_bits-lt : (r k : ℕ) → r < 65536 → k < 16 → set_bits r (2 ^ k) < 65536
set_bits-lt r k hr hk =
    lt_of_bits 16 (set_bits r (2 ^ k))
      (λ j p. ground (arith, bit-set_bits r k j, bit-above 16 j r hr p))

pub clear_bits-lt : (r m : ℕ) → r < 65536 → clear_bits r m < 65536
unfolding clear_bits
clear_bits-lt r m hr =
    lt_of_bits 16 (bit_and r (65535 - m))
      (λ j p. ground (arith, bit-bit_and j r (65535 - m), bit-above 16 j r hr p))

pub set_bits_on : (r k : ℕ) → bit k r ≡ 1 → (j : ℕ) → bit j (set_bits r (2 ^ k)) ≡ bit j r
set_bits_on r k on j = elim (Bool-cases (j == k)) [
  | inl e ↦ let same : j ≡ k = ground arith in rw same (ground (arith, bit-set_bits r k k))
  | inr e ↦ ground (arith, bit-set_bits r k j)
]

pub clear_bits_off :
    (r k : ℕ) → r < 65536 → k < 16 → bit k r ≡ 0 → (j : ℕ) → bit j (clear_bits r (2 ^ k)) ≡ bit j r
clear_bits_off r k hr hk off j = elim (dec_lt j 16) [
  | yes low ↦ elim (Bool-cases (j == k)) [
    | inl e ↦
        let same : j ≡ k = ground arith in rw same (ground (arith, bit-clear_bits r k k hk hk))
    | inr e ↦ ground (arith, bit-clear_bits r k j hk low)
  ]
  | no high ↦ ground (
    arith,
    bit-above 16 j r hr (omega arith),
    bit-above 16 j (clear_bits r (2 ^ k)) (clear_bits-lt r (2 ^ k) hr) (omega arith),
  )
]

-- Setting a flag that is on, or clearing one that is off, leaves the register as it is.
pub set_bits-eq_self : (r k : ℕ) → (set_bits r (2 ^ k) ≡ r) ↔ (bit k r ≡ 1)
set_bits-eq_self r k = (
  λ e. ground (arith, bit-set_bits r k k, ap (bit k) e),
  λ on.
      bit_ext (set_bits r (2 ^ k) + r) (set_bits r (2 ^ k)) r (set_bits_on r k on) (omega arith)
        (omega arith),
)

pub clear_bits-eq_self : (r k : ℕ) → r < 65536 → k < 16 → (clear_bits r (2 ^ k) ≡ r) ↔ (bit k r ≡ 0)
clear_bits-eq_self r k hr hk = (
  λ e. ground (arith, bit-clear_bits r k k hk hk, ap (bit k) e),
  λ off.
      bit_ext (clear_bits r (2 ^ k) + r) (clear_bits r (2 ^ k)) r (clear_bits_off r k hr hk off)
        (omega arith) (omega arith),
)

-- A test against several flags.
and_zero : (r m : ℕ) → ((k : ℕ) → bit k (bit_and r m) ≡ 0) → bit_and r m ≡ 0
and_zero r m h =
    bit_ext (bit_and r m) (bit_and r m) 0 (λ k. h k ∙ sym (bit-zero k)) (omega arith) (omega arith)

none_set :
    (r a b k : ℕ)
    → bit_and r (bit_or a b) ≡ 0
    → (bit k (bit_and r a) ≡ 0) × (bit k (bit_and r b) ≡ 0)
none_set r a b k e = ground (
  arith,
  ap (bit k) e ∙ bit-zero k,
  bit-bit_and k r (bit_or a b),
  bit-bit_or k a b,
  bit-bit_and k r a,
  bit-bit_and k r b,
)

one_set : (r a b k : ℕ) → bit_and r a ≡ 0 → bit_and r b ≡ 0 → bit k (bit_and r (bit_or a b)) ≡ 0
one_set r a b k ea eb = ground (
  arith,
  ap (bit k) ea ∙ bit-zero k,
  ap (bit k) eb ∙ bit-zero k,
  bit-bit_and k r (bit_or a b),
  bit-bit_or k a b,
  bit-bit_and k r a,
  bit-bit_and k r b,
)

pub has-set_bits :
    (r a b : ℕ) → (has r (set_bits a b) ≡ false) ↔ ((has r a ≡ false) × (has r b ≡ false))
unfolding has set_bits
has-set_bits r a b = (
  λ h.
      let e : bit_and r (bit_or a b) ≡ 0 = ground arith in
      let ea = and_zero r a (λ k. (none_set r a b k e).0) in
      let eb = and_zero r b (λ k. (none_set r a b k e).1) in (rw ea refl, rw eb refl),
  λ h.
      let ea : bit_and r a ≡ 0 = ground arith in
      let eb : bit_and r b ≡ 0 = ground arith in
      let e = and_zero r (bit_or a b) (λ k. one_set r a b k ea eb) in rw e refl,
)
