-- ===== src/Board/Flags.antt =====
-- The LED status register as a set of flags: led_bit_enable, led_bit_disable and led_bit_status of
-- main/gpio/app_led.c against a function from flags to whether they are lit.
use water_dispenser.Base.{
  ℕ, ◌^◌, ◌<◌, ◌≡◌, refl, sym, ◌∙◌, Bool, true, false, List, [], ◌∷◌, arith, ◌==◌, if◌then◌else◌,
  All, inl, inr, Bool-cases,
}
use water_dispenser.Base.Bits.{bit, bit_le}
use water_dispenser.Base.Register.{
  has, has_iff, has-eq_false, bit-set_bits, bit-clear_bits, set_bits-lt, clear_bits-lt, set_bits_on,
  clear_bits_off,
}
use water_dispenser.Board.{Board, led_bit_status, led_bit_enable, led_bit_disable}

-- The effect of each operation on one flag.
pub led_bit_enable-bit :
    (b : Board) (k j : ℕ)
    → bit j (led_bit_enable (2 ^ k) b).led_status ≡ (if j == k then 1 else bit j b.led_status)
unfolding led_bit_enable
led_bit_enable-bit b k j = elim (Bool-cases (has b.led_status (2 ^ k))) [
  | inl on ↦
      let lit = (has_iff b.led_status k).0 on in
      rw on (sym (set_bits_on b.led_status k lit j) ∙ bit-set_bits b.led_status k j)
  | inr off ↦ rw off (bit-set_bits b.led_status k j)
]

pub led_bit_disable-bit :
    (b : Board) (k j : ℕ)
    → b.led_status < 65536
    → k < 16
    → j < 16
    → bit j (led_bit_disable (2 ^ k) b).led_status ≡ (if j == k then 0 else bit j b.led_status)
unfolding led_bit_disable
led_bit_disable-bit b k j hr hk hj = elim (Bool-cases (has b.led_status (2 ^ k))) [
  | inl on ↦ rw on (bit-clear_bits b.led_status k j hk hj)
  | inr off ↦
      let dark = (has-eq_false b.led_status k).0 off in
      rw off
        (sym (clear_bits_off b.led_status k hr hk dark j) ∙ bit-clear_bits b.led_status k j hk hj)
]

pub led_bit_enable-lt :
    (b : Board) (k : ℕ)
    → b.led_status < 65536
    → k < 16
    → (led_bit_enable (2 ^ k) b).led_status < 65536
unfolding led_bit_enable
led_bit_enable-lt b k hr hk = ground (arith, set_bits-lt b.led_status k hr hk)

pub led_bit_disable-lt :
    (b : Board) (k : ℕ) → b.led_status < 65536 → (led_bit_disable (2 ^ k) b).led_status < 65536
unfolding led_bit_disable
led_bit_disable-lt b k hr = ground (arith, clear_bits-lt b.led_status (2 ^ k) hr)

-- A call of one of the two operations, on the flag `1 << k`.
pub data LedCall : Type 0 where
  enable : ℕ → LedCall
  disable : ℕ → LedCall

abbrev pub flag_of : LedCall → ℕ
flag_of (enable k) = k
flag_of (disable k) = k

pub call : LedCall → Board → Board
call (enable k) b = led_bit_enable (2 ^ k) b
call (disable k) b = led_bit_disable (2 ^ k) b

unfoldable pub calls : List LedCall → Board → Board
unfolding call
calls [] b = b
calls (c ∷ cs) b = calls cs (call c b)

-- The specification: a set of lit flags.
abbrev pub Flags : Type 0
Flags = ℕ → Bool

abbrev pub lit : LedCall → Flags → Flags
lit (enable k) f j = if j == k then true else f j
lit (disable k) f j = if j == k then false else f j

abbrev pub lit_all : List LedCall → Flags → Flags
lit_all [] f = f
lit_all (c ∷ cs) f = lit_all cs (lit c f)

abbrev pub flags : Board → Flags
flags b j = led_bit_status (2 ^ j) b

pub status-bit : (b : Board) (j : ℕ) → led_bit_status (2 ^ j) b ≡ (bit j b.led_status == 1)
unfolding led_bit_status
status-bit b j = ground (arith, has_iff b.led_status j, bit_le j b.led_status)

call-lit :
    (c : LedCall) (b : Board) (j : ℕ)
    → b.led_status < 65536
    → flag_of c < 16
    → j < 16
    → led_bit_status (2 ^ j) (call c b) ≡ lit c (flags b) j
unfolding call
call-lit (enable k) b j hr hk hj =
    ground
      (arith, status-bit (led_bit_enable (2 ^ k) b) j, status-bit b j, led_bit_enable-bit b k j)
call-lit (disable k) b j hr hk hj = ground (
  arith,
  status-bit (led_bit_disable (2 ^ k) b) j,
  status-bit b j,
  led_bit_disable-bit b k j hr hk hj,
)

call-lt :
    (c : LedCall) (b : Board)
    → b.led_status < 65536
    → flag_of c < 16
    → (call c b).led_status < 65536
unfolding call
call-lt (enable k) b hr hk = led_bit_enable-lt b k hr hk
call-lt (disable k) b hr hk = led_bit_disable-lt b k hr

lit-eq :
    (c : LedCall) (f g : Flags)
    → ((j : ℕ) → j < 16 → f j ≡ g j)
    → (j : ℕ) → j < 16
    → lit c f j ≡ lit c g j
lit-eq (enable k) f g h j hj = ground (arith, h j hj)
lit-eq (disable k) f g h j hj = ground (arith, h j hj)

lit_all-eq :
    (cs : List LedCall) (f g : Flags)
    → ((j : ℕ) → j < 16 → f j ≡ g j)
    → (j : ℕ) → j < 16
    → lit_all cs f j ≡ lit_all cs g j
lit_all-eq [] f g h j hj = h j hj
lit_all-eq (c ∷ cs) f g h j hj = lit_all-eq cs (lit c f) (lit c g) (lit-eq c f g h) j hj

-- What led_bit_status reads after any calls of led_bit_enable and led_bit_disable on flags of the
-- register is what the set of flags holds after the same calls.
pub calls_refine :
    (cs : List LedCall) (b : Board)
    → b.led_status < 65536
    → All (λ c. flag_of c < 16) cs
    → (j : ℕ) → j < 16
    → led_bit_status (2 ^ j) (calls cs b) ≡ lit_all cs (flags b) j
unfolding calls
calls_refine [] b hr h j hj = refl
calls_refine (c ∷ cs) b hr h j hj =
    calls_refine cs (call c b) (call-lt c b hr h.0) h.1 j hj
    ∙ lit_all-eq cs (flags (call c b)) (lit c (flags b)) (λ i hi. call-lit c b i hr h.0 hi) j hj
