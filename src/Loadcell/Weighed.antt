-- ===== src/Loadcell/Weighed.antt =====
-- A round of the load cell's task (`HX711_Sensing`, main/sensor/app_HX711.c).
use water_dispenser.Base.{
  ℕ, ◌+◌, ◌≤◌, ◌≡◌, refl, ap, sym, ◌∙◌, true, false, arith, if◌then◌else◌, inl, inr, Bool-cases,
  leb, ltb, some, subst,
}
use water_dispenser.Base.Bits.{bit}
use water_dispenser.Float.{Float, FloatOps}
use water_dispenser.Board.Sound.{IsSound}
use water_dispenser.Loadcell.{
  ScaleConfig, Loadcell, weight_of, weigh, is_dropped, count_bowl, count_low, check_bowl, check_low,
  hx711_sensing,
}
use water_dispenser.Loadcell.Flag.{Showing, show_error-Showing}

-- The counters are at most 10, and the board shows each error at both places or at none.
pub record IsLoadcell (l : Loadcell) : Type 0 where
  pub bowl_capped : l.bowl_count ≤ 10
  pub low_capped : l.water_low_count ≤ 10
  pub sound : IsSound l.board
  pub bowl_shown : bit 13 l.board.led_status ≡ bit 2 l.board.fault_code
  pub low_shown : bit 11 l.board.led_status ≡ bit 0 l.board.fault_code

-- The next counts.
abbrev pub next_bowl : FloatOps → Float → Loadcell → ℕ
next_bowl ops w l =
    if is_dropped ops w l.before_weight
    then (if ltb l.bowl_count 10 then l.bowl_count + 1 else l.bowl_count)
    else 0

abbrev pub next_low : FloatOps → Float → ScaleConfig → Loadcell → ℕ
next_low ops w c l =
    if leb 10 (next_bowl ops w l)
    then l.water_low_count
    else if ops.lt w (ops.of_u32 c.min_weight_threshold)
    then (if ltb l.water_low_count 10 then l.water_low_count + 1 else l.water_low_count)
    else 0

-- What a reading of the weight w makes of the state.
pub record Weighs (ops : FloatOps) (w : Float) (c : ScaleConfig) (l m : Loadcell) : Type 0 where
  pub ok : IsLoadcell m
  pub weight : m.hx711_data_buf ≡ w
  pub before : m.before_weight ≡ (if is_dropped ops w l.before_weight then l.before_weight else w)
  pub bowl : m.bowl_count ≡ next_bowl ops w l
  pub low : m.water_low_count ≡ next_low ops w c l
  pub bowl_error : bit 13 m.board.led_status ≡ (if leb 10 m.bowl_count then 1 else 0)
  pub low_error : bit 11 m.board.led_status ≡ (
      if leb 10 m.bowl_count
      then bit 11 l.board.led_status
      else if leb 10 m.water_low_count
      then 1
      else 0)

counted-fields :
    (ops : FloatOps) (w : Float) (l : Loadcell)
    → l.bowl_count ≤ 10
    → ((count_bowl ops w (weigh ops w l)).hx711_data_buf ≡ w)
      × ((count_bowl ops w (weigh ops w l)).before_weight
          ≡ (if is_dropped ops w l.before_weight then l.before_weight else w))
      × ((count_bowl ops w (weigh ops w l)).bowl_count ≡ next_bowl ops w l)
      × ((count_bowl ops w (weigh ops w l)).water_low_count ≡ l.water_low_count)
      × ((count_bowl ops w (weigh ops w l)).board ≡ l.board)
unfolding count_bowl weigh
counted-fields ops w l cap = ground arith

check_bowl-Showing :
    (x : Loadcell)
    → IsSound x.board
    → bit 13 x.board.led_status ≡ bit 2 x.board.fault_code
    → Showing 13 2 (if leb 10 x.bowl_count then 1 else 0) x.board (check_bowl x).board
unfolding check_bowl
check_bowl-Showing x v same =
    show_error-Showing (leb 10 x.bowl_count) 13 2 x.board (omega arith) (omega arith) v same

check_low-Showing :
    (x : Loadcell)
    → IsSound x.board
    → bit 11 x.board.led_status ≡ bit 0 x.board.fault_code
    → Showing 11 0 (if leb 10 x.water_low_count then 1 else 0) x.board (check_low x).board
unfolding check_low
check_low-Showing x v same =
    show_error-Showing (leb 10 x.water_low_count) 11 0 x.board (omega arith) (omega arith) v same

check_bowl-fields :
    (x : Loadcell)
    → ((check_bowl x).hx711_data_buf ≡ x.hx711_data_buf)
      × ((check_bowl x).before_weight ≡ x.before_weight)
      × ((check_bowl x).bowl_count ≡ x.bowl_count)
      × ((check_bowl x).water_low_count ≡ x.water_low_count)
unfolding check_bowl
check_bowl-fields x = (refl, refl, refl, refl)

low-fields :
    (ops : FloatOps) (w : Float) (c : ScaleConfig) (x : Loadcell)
    → x.water_low_count ≤ 10
    → ((check_low (count_low ops w c x)).hx711_data_buf ≡ x.hx711_data_buf)
      × ((check_low (count_low ops w c x)).before_weight ≡ x.before_weight)
      × ((check_low (count_low ops w c x)).bowl_count ≡ x.bowl_count)
      × ((check_low (count_low ops w c x)).water_low_count ≡ (
          if ops.lt w (ops.of_u32 c.min_weight_threshold)
          then (if ltb x.water_low_count 10 then x.water_low_count + 1 else x.water_low_count)
          else 0))
      × ((count_low ops w c x).board ≡ x.board)
      × ((check_low (count_low ops w c x)).water_low_count ≡ (count_low ops w c x).water_low_count)
unfolding check_low count_low
low-fields ops w c x cap = ground arith

module _ (ops : FloatOps) (c : ScaleConfig) (raw : ℕ) (l : Loadcell) (v : IsLoadcell l) where
  abbrev w : Float
  w = weight_of ops c raw

  abbrev after_bowl : Loadcell
  after_bowl = check_bowl (count_bowl ops w (weigh ops w l))

  bowl_checked :
      Showing 13 2 (if leb 10 after_bowl.bowl_count then 1 else 0) l.board after_bowl.board
  bowl_checked =
      let x = count_bowl ops w (weigh ops w l) in
      let f = counted-fields ops w l v.bowl_capped in
      let k = check_bowl-fields x in
      let s : IsSound x.board = subst IsSound (sym f.4) v.sound in
      let b = check_bowl-Showing x s (
        ap (λ y. bit 13 y.led_status) f.4
        ∙ v.bowl_shown
        ∙ sym (ap (λ y. bit 2 y.fault_code) f.4)) in
      subst (λ n. Showing 13 2 (if leb 10 n then 1 else 0) l.board after_bowl.board) (sym k.2)
        (subst (λ y. Showing 13 2 (if leb 10 x.bowl_count then 1 else 0) y after_bowl.board) f.4 b)

  after_fields :
      (after_bowl.hx711_data_buf ≡ w)
      × (after_bowl.before_weight
          ≡ (if is_dropped ops w l.before_weight then l.before_weight else w))
      × (after_bowl.bowl_count ≡ next_bowl ops w l)
      × (after_bowl.water_low_count ≡ l.water_low_count)
  after_fields =
      let x = count_bowl ops w (weigh ops w l) in
      let f = counted-fields ops w l v.bowl_capped in
      let k = check_bowl-fields x in (k.0 ∙ f.0, k.1 ∙ f.1, k.2 ∙ f.2, k.3 ∙ f.3)

  next_bowl_capped : next_bowl ops w l ≤ 10
  next_bowl_capped = ground (arith, v.bowl_capped)

  -- The bowl is gone: low water is not looked at.
  bowl_gone : leb 10 after_bowl.bowl_count ≡ true → Weighs ops w c l after_bowl
  bowl_gone e =
      let b = bowl_checked in
      let f = after_fields in
      record {
        ok = record {
          bowl_capped = omega (arith, f.2, next_bowl_capped);
          low_capped = omega (arith, f.3, v.low_capped);
          sound = b.sound;
          bowl_shown = b.lit 13 ∙ sym (b.faults 2);
          low_shown = b.lit 11 ∙ v.low_shown ∙ sym (b.faults 0);
        };
        weight = f.0;
        before = f.1;
        bowl = f.2;
        low = ground (arith, f.2, f.3);
        bowl_error = b.lit 13;
        low_error = ground (arith, b.lit 11);
      }

  -- The bowl is there.
  bowl_there :
      leb 10 after_bowl.bowl_count ≡ false
      → Weighs ops w c l (check_low (count_low ops w c after_bowl))
  bowl_there e =
      let b = bowl_checked in
      let f = after_fields in
      let k = low-fields ops w c after_bowl (omega (arith, f.3, v.low_capped)) in
      let x = count_low ops w c after_bowl in
      let s : Showing 11 0 (if leb 10 x.water_low_count then 1 else 0) after_bowl.board
          (check_low x).board =
        subst (λ y. Showing 11 0 (if leb 10 x.water_low_count then 1 else 0) y (check_low x).board)
          k.4
          (check_low-Showing x (subst IsSound (sym k.4) b.sound) (
            ap (λ y. bit 11 y.led_status) k.4
            ∙ b.lit 11
            ∙ v.low_shown
            ∙ sym (b.faults 0)
            ∙ sym (ap (λ y. bit 0 y.fault_code) k.4))) in
      record {
        ok = record {
          bowl_capped = omega (arith, k.2, f.2, next_bowl_capped);
          low_capped = ground (arith, k.3, f.3, v.low_capped);
          sound = s.sound;
          bowl_shown = s.lit 13 ∙ b.lit 13 ∙ sym (s.faults 2 ∙ b.faults 2);
          low_shown = s.lit 11 ∙ sym (s.faults 0);
        };
        weight = k.0 ∙ f.0;
        before = k.1 ∙ f.1;
        bowl = k.2 ∙ f.2;
        low = ground (arith, k.3, f.2, f.3);
        bowl_error = ground (arith, s.lit 13, b.lit 13, k.2);
        low_error = ground (arith, s.lit 11, k.2, k.5);
      }

pub hx711_sensing-Weighs :
    (ops : FloatOps) (c : ScaleConfig) (raw : ℕ) (l : Loadcell)
    → IsLoadcell l
    → Weighs ops (weight_of ops c raw) c l (hx711_sensing ops c (some raw) l)
unfolding hx711_sensing
hx711_sensing-Weighs ops c raw l v =
    elim (Bool-cases (
      leb 10
        (check_bowl
          (count_bowl ops (weight_of ops c raw) (weigh ops (weight_of ops c raw) l))).bowl_count)) [
            | inl e ↦ rw e (bowl_gone ops c raw l v e)
            | inr e ↦ rw e (bowl_there ops c raw l v e)
          ]
