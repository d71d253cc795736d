-- ===== src/Board/Sound.antt =====
-- A board between two calls: every call of the LED register and of the fault code keeps it sound,
-- and each leaves the other's word alone.
use water_dispenser.Base.{ℕ, ◌^◌, ◌<◌, ◌≡◌, ap, ◌∙◌, arith}
use water_dispenser.Base.Bits.{bit}
use water_dispenser.Board.{
  Board, led_bit_enable, led_bit_disable, water_fault_enable, water_fault_disable,
}
use water_dispenser.Board.Flags.{
  led_bit_enable-bit, led_bit_disable-bit, led_bit_enable-lt, led_bit_disable-lt,
}
use water_dispenser.Board.Report.{IsReported, water_fault_enable-Turned, water_fault_disable-Turned}

pub record IsSound (b : Board) : Type 0 where
  pub reported : IsReported b
  pub register : b.led_status < 65536

pub led_bit_enable-kept :
    (m : ℕ) (b : Board)
    → ((led_bit_enable m b).fault_code ≡ b.fault_code)
      × ((led_bit_enable m b).fault_code_buf ≡ b.fault_code_buf)
      × ((led_bit_enable m b).outbox ≡ b.outbox)
unfolding led_bit_enable
led_bit_enable-kept m b = ground arith

pub led_bit_disable-kept :
    (m : ℕ) (b : Board)
    → ((led_bit_disable m b).fault_code ≡ b.fault_code)
      × ((led_bit_disable m b).fault_code_buf ≡ b.fault_code_buf)
      × ((led_bit_disable m b).outbox ≡ b.outbox)
unfolding led_bit_disable
led_bit_disable-kept m b = ground arith

module _ (k : ℕ) (b : Board) (hk : k < 16) (v : IsSound b) where
  pub led_bit_enable-IsSound : IsSound (led_bit_enable (2 ^ k) b)
  led_bit_enable-IsSound = record {
    reported = ground (arith, led_bit_enable-kept (2 ^ k) b);
    register = led_bit_enable-lt b k v.register hk;
  }

  pub led_bit_disable-IsSound : IsSound (led_bit_disable (2 ^ k) b)
  led_bit_disable-IsSound = record {
    reported = ground (arith, led_bit_disable-kept (2 ^ k) b);
    register = led_bit_disable-lt b k v.register;
  }

  pub water_fault_enable-IsSound : IsSound (water_fault_enable (2 ^ k) b)
  water_fault_enable-IsSound =
      let t = water_fault_enable-Turned k b hk v.reported in
      record { reported = t.reported; register = omega (arith, t.led_kept) }

  pub water_fault_disable-IsSound : IsSound (water_fault_disable (2 ^ k) b)
  water_fault_disable-IsSound =
      let t = water_fault_disable-Turned k b hk v.reported in
      record { reported = t.reported; register = omega (arith, t.led_kept) }

-- The pattern of the tasks: light a flag and raise a fault, or clear both.
abbrev pub raise : ℕ → ℕ → Board → Board
raise led fault b = water_fault_enable (2 ^ fault) (led_bit_enable (2 ^ led) b)

abbrev pub clear : ℕ → ℕ → Board → Board
clear led fault b = water_fault_disable (2 ^ fault) (led_bit_disable (2 ^ led) b)

-- What such a pair of calls makes of the two flags.
pub record Signals (led fault v : ℕ) (c : Board) : Type 0 where
  pub sound : IsSound c
  pub lit : bit led c.led_status ≡ v
  pub fault_on : bit fault c.fault_code ≡ v

module _ (led fault : ℕ) (b : Board) (hl : led < 16) (hf : fault < 16) (v : IsSound b) where
  pub raise-Signals : Signals led fault 1 (raise led fault b)
  raise-Signals =
      let s = led_bit_enable-IsSound led b hl v in
      let t = water_fault_enable-Turned fault (led_bit_enable (2 ^ led) b) hf s.reported in
      record {
        sound = water_fault_enable-IsSound fault (led_bit_enable (2 ^ led) b) hf s;
        lit = ap (bit led) t.led_kept ∙ led_bit_enable-bit b led led ∙ ground arith;
        fault_on = t.turned;
      }

  pub clear-Signals : Signals led fault 0 (clear led fault b)
  clear-Signals =
      let s = led_bit_disable-IsSound led b hl v in
      let t = water_fault_disable-Turned fault (led_bit_disable (2 ^ led) b) hf s.reported in
      record {
        sound = water_fault_disable-IsSound fault (led_bit_disable (2 ^ led) b) hf s;
        lit =
            ap (bit led) t.led_kept ∙ led_bit_disable-bit b led led v.register hl hl ∙ ground arith;
        fault_on = t.turned;
      }
