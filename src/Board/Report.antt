-- ===== src/Board/Report.antt =====
-- The water fault code (main/mqtt/tx_mqtt.c): water_fault_enable and water_fault_disable keep the
-- reported copy equal to the code, and report a flag when it changes.
use water_dispenser.Base.{ℕ, ◌^◌, ◌<◌, ◌≡◌, ◌∷◌, arith, ◌==◌, if◌then◌else◌}
use water_dispenser.Base.Bits.{bit}
use water_dispenser.Base.Register.{
  clear_bits, bit-set_bits, bit-clear_bits, set_bits-lt, clear_bits-lt, set_bits-eq_self,
  clear_bits-eq_self, bit-above,
}
use native.Mathlib.Decide.{dec_lt}
use water_dispenser.Board.{Board, water_fault_enable, water_fault_disable, message_diagnostics}

-- Between two calls every change of the code has been reported, and the code is a word.
pub record IsReported (b : Board) : Type 0 where
  pub synced : b.fault_code_buf ≡ b.fault_code
  pub word : b.fault_code < 65536

-- What a call that turns the flag `1 << k` to `v` makes of the board.
pub record Turned (k v : ℕ) (b c : Board) : Type 0 where
  pub reported : IsReported c
  pub turned : bit k c.fault_code ≡ v
  pub flags : (j : ℕ) → bit j c.fault_code ≡ (if j == k then v else bit j b.fault_code)
  pub sent :
      c.outbox
      ≡ (if bit k b.fault_code == v then b.outbox else message_diagnostics (2 ^ k) ∷ b.outbox)
  pub led_kept : c.led_status ≡ b.led_status

-- On a board whose changes are all reported, water_fault_enable turns its flag on and keeps the
-- others, sends a diagnostics message exactly if the flag was off, and leaves all reported.
pub water_fault_enable-Turned :
    (k : ℕ) (b : Board) → k < 16 → IsReported b → Turned k 1 b (water_fault_enable (2 ^ k) b)
unfolding water_fault_enable
water_fault_enable-Turned k b hk v = record {
  reported = ground (arith, set_bits-lt b.fault_code k v.word hk);
  turned = ground (arith, bit-set_bits b.fault_code k k);
  flags = λ j. ground (arith, bit-set_bits b.fault_code k j);
  sent = ground (arith, set_bits-eq_self b.fault_code k);
  led_kept = ground arith;
}

cleared_flag :
    (k r j : ℕ)
    → k < 16
    → r < 65536
    → bit j (clear_bits r (2 ^ k)) ≡ (if j == k then 0 else bit j r)
cleared_flag k r j hk hr = elim (dec_lt j 16) [
  | yes hj ↦ ground (arith, bit-clear_bits r k j hk hj)
  | no hj ↦ ground (
    arith,
    bit-above 16 j r hr (omega arith),
    bit-above 16 j (clear_bits r (2 ^ k)) (clear_bits-lt r (2 ^ k) hr) (omega arith),
  )
]

-- On a board whose changes are all reported, water_fault_disable turns its flag off and keeps the
-- others, sends a diagnostics message exactly if the flag was on, and leaves all reported.
pub water_fault_disable-Turned :
    (k : ℕ) (b : Board) → k < 16 → IsReported b → Turned k 0 b (water_fault_disable (2 ^ k) b)
unfolding water_fault_disable
water_fault_disable-Turned k b hk v = record {
  reported = ground (arith, clear_bits-lt b.fault_code (2 ^ k) v.word);
  turned = ground (arith, bit-clear_bits b.fault_code k k hk hk);
  flags = λ j. ground (arith, cleared_flag k b.fault_code j hk v.word);
  sent = ground (arith, clear_bits-eq_self b.fault_code k v.word hk);
  led_kept = ground arith;
}
