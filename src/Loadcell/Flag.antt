-- ===== src/Loadcell/Flag.antt =====
-- What the calls that show or take back an error do to the board (`HX711_Sensing`,
-- main/sensor/app_HX711.c lines 155 to 198).
use water_dispenser.Base.{
  ℕ, ◌^◌, ◌<◌, ◌≡◌, refl, ap, sym, ◌∙◌, Bool, true, false, arith, ◌==◌, if◌then◌else◌, inl, inr,
  Bool-cases,
}
use water_dispenser.Base.Bits.{bit, bit_le}
use water_dispenser.Base.Register.{bit-above}
use native.Mathlib.Decide.{dec_lt}
use water_dispenser.Board.{
  Board, led_bit_status, led_bit_enable, led_bit_disable, water_fault_enable, water_fault_disable,
}
use water_dispenser.Board.Flags.{
  status-bit, led_bit_enable-bit, led_bit_disable-bit, led_bit_disable-lt,
}
use water_dispenser.Board.Report.{water_fault_enable-Turned, water_fault_disable-Turned}
use water_dispenser.Board.Sound.{
  IsSound, led_bit_enable-IsSound, led_bit_disable-IsSound, led_bit_enable-kept,
  led_bit_disable-kept, water_fault_enable-IsSound, water_fault_disable-IsSound,
}
use water_dispenser.Loadcell.{show_error}

-- The flag and the fault of an error at the value `v`, and all others as they were.
pub record Showing (led fault v : ℕ) (b c : Board) : Type 0 where
  pub sound : IsSound c
  pub lit : (j : ℕ) → bit j c.led_status ≡ (if j == led then v else bit j b.led_status)
  pub faults : (j : ℕ) → bit j c.fault_code ≡ (if j == fault then v else bit j b.fault_code)

module _ (led fault : ℕ) (b : Board) (hl : led < 16) (hf : fault < 16) (v : IsSound b) where
  disable-lit :
      (j : ℕ)
      → bit j (led_bit_disable (2 ^ led) b).led_status
        ≡ (if j == led then 0 else bit j b.led_status)
  disable-lit j = elim (dec_lt j 16) [
    | yes hj ↦ led_bit_disable-bit b led j v.register hl hj
    | no hj ↦ ground (
      arith,
      bit-above 16 j b.led_status v.register (omega arith),
      bit-above 16 j (led_bit_disable (2 ^ led) b).led_status (led_bit_disable-lt b led v.register)
          (omega arith),
    )
  ]

  raised : Showing led fault 1 b (water_fault_enable (2 ^ fault) (led_bit_enable (2 ^ led) b))
  raised =
      let c = led_bit_enable (2 ^ led) b in
      let s = led_bit_enable-IsSound led b hl v in
      let t = water_fault_enable-Turned fault c hf s.reported in
      record {
        sound = water_fault_enable-IsSound fault c hf s;
        lit = λ j. ap (bit j) t.led_kept ∙ led_bit_enable-bit b led j;
        faults = λ j. ground (arith, t.flags j, ap (bit j) (led_bit_enable-kept (2 ^ led) b).0);
      }

  cleared : Showing led fault 0 b (water_fault_disable (2 ^ fault) (led_bit_disable (2 ^ led) b))
  cleared =
      let c = led_bit_disable (2 ^ led) b in
      let s = led_bit_disable-IsSound led b hl v in
      let t = water_fault_disable-Turned fault c hf s.reported in
      record {
        sound = water_fault_disable-IsSound fault c hf s;
        lit = λ j. ap (bit j) t.led_kept ∙ disable-lit j;
        faults = λ j. ground (arith, t.flags j, ap (bit j) (led_bit_disable-kept (2 ^ led) b).0);
      }

  unchanged :
      (w : ℕ) → bit led b.led_status ≡ w → bit fault b.fault_code ≡ w → Showing led fault w b b
  unchanged w p q = record {
    sound = v;
    lit = λ j. same_bit led b.led_status w j p;
    faults = λ j. same_bit fault b.fault_code w j q;
  }
    where
      same_bit : (k r w j : ℕ) → bit k r ≡ w → bit j r ≡ (if j == k then w else bit j r)
      same_bit k r w j e = elim (Bool-cases (j == k)) [
        | inl f ↦ let g : j ≡ k = ground arith in rw f (ap (λ i. bit i r) g ∙ e)
        | inr f ↦ rw f refl
      ]

-- Where the flag and the fault of an error agree, showing or taking back the error gives both that
-- value, keeps all others, and reports every change of the fault code.
pub show_error-Showing :
    (on : Bool) (led fault : ℕ) (b : Board)
    → led < 16
    → fault < 16
    → IsSound b
    → bit led b.led_status ≡ bit fault b.fault_code
    → Showing led fault (if on then 1 else 0) b (show_error on (2 ^ led) (2 ^ fault) b)
unfolding show_error
show_error-Showing true led fault b hl hf v same = elim (Bool-cases (led_bit_status (2 ^ led) b)) [
  | inl e ↦
      let lit : bit led b.led_status ≡ 1 = ground (arith, status-bit b led) in
      rw e (unchanged led fault b hl hf v 1 lit (sym same ∙ lit))
  | inr e ↦ rw e (raised led fault b hl hf v)
]
show_error-Showing false led fault b hl hf v same = elim (Bool-cases (led_bit_status (2 ^ led) b)) [
  | inl e ↦ rw e (cleared led fault b hl hf v)
  | inr e ↦
      let lit : bit led b.led_status ≡ 0 =
        ground (arith, status-bit b led, bit_le led b.led_status) in
      rw e (unchanged led fault b hl hf v 0 lit (sym same ∙ lit))
]
