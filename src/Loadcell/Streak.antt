-- ===== src/Loadcell/Streak.antt =====
-- Readings in a row (`HX711_Sensing`, main/sensor/app_HX711.c): ten that are too light show low
-- water, ten that drop below the last good weight show the missing bowl, one good one clears both.
use water_dispenser.Base.{
  ℕ, ◌+◌, ◌≤◌, ◌≡◌, sym, ◌∙◌, true, false, arith, if◌then◌else◌, leb, some, List, [], ◌∷◌, All,
  length, min, subst,
}
use water_dispenser.Base.Bits.{bit}
use water_dispenser.Float.{Float, FloatOps}
use water_dispenser.Loadcell.{ScaleConfig, Loadcell, weight_of, is_dropped, hx711_sensing}
use water_dispenser.Loadcell.Weighed.{IsLoadcell, hx711_sensing-Weighs}

-- Readings in a row, the first one first.
unfoldable pub hx711_sensings : FloatOps → ScaleConfig → List ℕ → Loadcell → Loadcell
hx711_sensings ops c [] l = l
hx711_sensings ops c (raw ∷ raws) l = hx711_sensings ops c raws (hx711_sensing ops c (some raw) l)

-- A reading that is not negative and too light, or heavy enough; or one that dropped.
abbrev pub IsLight : FloatOps → ScaleConfig → ℕ → Type 0
IsLight ops c raw =
    (ops.lt (weight_of ops c raw) ops.zero ≡ false)
    × (ops.lt (weight_of ops c raw) (ops.of_u32 c.min_weight_threshold) ≡ true)

abbrev pub IsHeavy : FloatOps → ScaleConfig → ℕ → Type 0
IsHeavy ops c raw =
    (ops.lt (weight_of ops c raw) ops.zero ≡ false)
    × (ops.lt (weight_of ops c raw) (ops.of_u32 c.min_weight_threshold) ≡ false)

abbrev pub Drops : FloatOps → ScaleConfig → Float → ℕ → Type 0
Drops ops c before raw = is_dropped ops (weight_of ops c raw) before ≡ true

-- The two errors as the board shows them, each at both places.
pub record Errors (bowl low : ℕ) (l : Loadcell) : Type 0 where
  pub ok : IsLoadcell l
  pub bowl_lit : bit 13 l.board.led_status ≡ bowl
  pub bowl_fault : bit 2 l.board.fault_code ≡ bowl
  pub low_lit : bit 11 l.board.led_status ≡ low
  pub low_fault : bit 0 l.board.fault_code ≡ low

module _ (ops : FloatOps) (c : ScaleConfig) (raw : ℕ) (l : Loadcell) (v : IsLoadcell l) where
  light :
      IsLight ops c raw
      → ((hx711_sensing ops c (some raw) l).bowl_count ≡ 0)
        × ((hx711_sensing ops c (some raw) l).water_low_count ≡ min 10 (l.water_low_count + 1))
        × Errors 0 (if leb 9 l.water_low_count then 1 else 0) (hx711_sensing ops c (some raw) l)
  light (not_neg, is_light) =
      let s = hx711_sensing-Weighs ops c raw l v in
      let m = hx711_sensing ops c (some raw) l in
      let kept : is_dropped ops (weight_of ops c raw) l.before_weight ≡ false = ground arith in
      let bowl : m.bowl_count ≡ 0 = ground (arith, s.bowl) in
      let low : m.water_low_count ≡ min 10 (l.water_low_count + 1) =
        ground (arith, s.low, v.low_capped) in
      let shown : bit 11 m.board.led_status ≡ (if leb 9 l.water_low_count then 1 else 0) =
        ground (arith, s.low_error) in
      let gone : bit 13 m.board.led_status ≡ 0 = ground (arith, s.bowl_error) in
      (
        bowl,
        low,
        record {
          ok = s.ok;
          bowl_lit = gone;
          bowl_fault = sym s.ok.bowl_shown ∙ gone;
          low_lit = shown;
          low_fault = sym s.ok.low_shown ∙ shown;
        },
      )

  -- One reading that is heavy enough clears both errors.
  pub hx711_sensing-heavy : IsHeavy ops c raw → Errors 0 0 (hx711_sensing ops c (some raw) l)
  hx711_sensing-heavy (not_neg, is_heavy) =
      let s = hx711_sensing-Weighs ops c raw l v in
      let m = hx711_sensing ops c (some raw) l in
      let kept : is_dropped ops (weight_of ops c raw) l.before_weight ≡ false = ground arith in
      let bowl : m.bowl_count ≡ 0 = ground (arith, s.bowl) in
      let low : m.water_low_count ≡ 0 = ground (arith, s.low) in
      let shown : bit 11 m.board.led_status ≡ 0 = ground (arith, s.low_error) in
      let gone : bit 13 m.board.led_status ≡ 0 = ground (arith, s.bowl_error) in
      record {
        ok = s.ok;
        bowl_lit = gone;
        bowl_fault = sym s.ok.bowl_shown ∙ gone;
        low_lit = shown;
        low_fault = sym s.ok.low_shown ∙ shown;
      }

  drops :
      Drops ops c l.before_weight raw
      → ((hx711_sensing ops c (some raw) l).before_weight ≡ l.before_weight)
        × ((hx711_sensing ops c (some raw) l).bowl_count ≡ min 10 (l.bowl_count + 1))
        × (bit 13 (hx711_sensing ops c (some raw) l).board.led_status
            ≡ (if leb 9 l.bowl_count then 1 else 0))
        × IsLoadcell (hx711_sensing ops c (some raw) l)
  drops dropped =
      let s = hx711_sensing-Weighs ops c raw l v in
      (
        ground (arith, s.before),
        ground (arith, s.bowl, v.bowl_capped),
        ground (arith, s.bowl, s.bowl_error, v.bowl_capped),
        s.ok,
      )

-- Readings in a row that are not negative and below the threshold, ten or more with those already
-- counted, show low water by its flag and its fault, and no bowl error, whatever was shown before.
pub hx711_sensings-light :
    (ops : FloatOps) (c : ScaleConfig) (raws : List ℕ) (raw : ℕ) (l : Loadcell)
    → IsLoadcell l
    → All (IsLight ops c) raws
    → IsLight ops c raw
    → 9 ≤ l.water_low_count + length raws
    → Errors 0 1 (hx711_sensing ops c (some raw) (hx711_sensings ops c raws l))
unfolding hx711_sensings
hx711_sensings-light ops c [] raw l v a h n =
    let k = light ops c raw l v h in
    let full : leb 9 l.water_low_count ≡ true = ground arith in
    subst (λ t. Errors 0 (if t then 1 else 0) (hx711_sensing ops c (some raw) l)) full k.2
hx711_sensings-light ops c (r ∷ raws) raw l v (g, a) h n =
    let k = light ops c r l v g in
    hx711_sensings-light ops c raws raw (hx711_sensing ops c (some r) l) k.2.ok a h
      (omega (arith, k.1, v.low_capped))

-- Readings in a row that drop by more than 50 g below the last good weight, and below zero, ten or
-- more with those already counted, show the missing bowl by its flag and its fault.
pub hx711_sensings-Drops :
    (ops : FloatOps) (c : ScaleConfig) (raws : List ℕ) (raw : ℕ) (l : Loadcell)
    → IsLoadcell l
    → All (Drops ops c l.before_weight) raws
    → Drops ops c l.before_weight raw
    → 9 ≤ l.bowl_count + length raws
    → let m = hx711_sensing ops c (some raw) (hx711_sensings ops c raws l) in
      (bit 13 m.board.led_status ≡ 1) × (bit 2 m.board.fault_code ≡ 1) × IsLoadcell m
unfolding hx711_sensings
hx711_sensings-Drops ops c [] raw l v a h n =
    let k = drops ops c raw l v h in
    let lit : bit 13 (hx711_sensing ops c (some raw) l).board.led_status ≡ 1 =
      ground (arith, k.2) in
    (lit, sym k.3.bowl_shown ∙ lit, k.3)
hx711_sensings-Drops ops c (r ∷ raws) raw l v (g, a) h n =
    let k = drops ops c r l v g in
    let e = sym k.0 in
    hx711_sensings-Drops ops c raws raw (hx711_sensing ops c (some r) l) k.3
      (subst (λ b. All (Drops ops c b) raws) e a) (subst (λ b. Drops ops c b raw) e h)
      (omega (arith, k.1, v.bowl_capped))
