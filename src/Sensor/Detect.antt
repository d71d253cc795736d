-- ===== src/Sensor/Detect.antt =====
-- The rounds of the infrared sensor (`detect_task` of main/sensor/app_TOF.c).
use water_dispenser.Base.{
  ℕ, zero, suc, ◌+◌, ◌-◌, ◌^◌, ◌≤◌, ◌<◌, ◌≡◌, refl, ◌∙◌, Bool, true, false, ◌&&◌, leb, ◌==◌,
  if◌then◌else◌, List, [], ◌∷◌, All, length, min, arith, inl, inr, Bool-cases,
}
use water_dispenser.Base.Bits.{bit, bit_le, bit-bit_and}
use water_dispenser.Base.Register.{has, has_iff, set_bits, bit-set_bits, bit-pow, bit-complement}
use water_dispenser.Float.{Float, FloatOps}
use water_dispenser.Board.{message_access, mqtt_queue_send}
use water_dispenser.Tracker.{Tracker}
use water_dispenser.Tracker.Enter.{get_tracker_id_active}
use water_dispenser.Sensor.{Sensor, drop_bit, next_ir_count, detect_tracker, detect_task}

dropped : (j k x : ℕ) → j < 2 → k < 2 → bit j (drop_bit x k) ≡ (if j == k then 0 else bit j x)
dropped j k x hj hk =
    let small : 2 ^ k < 2 ^ 32 = small_pow k hk in
    ground (
      arith,
      bit-bit_and j x (4294967295 - 2 ^ k),
      bit-complement 32 j (2 ^ k) (omega arith) small,
      bit-pow j k,
      bit_le j x,
    )
  where
    small_pow : (k : ℕ) → k < 2 → 2 ^ k < 2 ^ 32
    small_pow zero h = omega arith
    small_pow (suc zero) h = omega arith
    small_pow (suc (suc k)) h = absurd (omega arith)

-- What a round makes of the sensor.
pub record Detects (weight : ℕ) (seen near : Bool) (s d : Sensor) : Type 0 where
  pub count : d.ir_count ≡ (if seen then min 10 (s.ir_count + 1) else s.ir_count - 1)
  pub here : bit 0 d.animal_detect ≡ (if leb 5 d.ir_count then 1 else 0)
  pub tracked : bit 1 d.animal_detect ≡ (if near then 1 else 0)
  pub sent : d.board ≡ (
      if near && (bit 1 s.animal_detect == 0)
      then mqtt_queue_send
          (message_access
            (record { detect_flag = set_bits s.animal_detect 2; start_weight = weight }))
          s.board
      else s.board)

tracker_bits :
    (ops : FloatOps) (weight : Float) (near : Bool) (s : Sensor)
    → (bit 1 (detect_tracker ops weight near s).animal_detect ≡ (if near then 1 else 0))
      × ((detect_tracker ops weight near s).ir_count ≡ s.ir_count)
      × ((detect_tracker ops weight near s).board ≡ (
          if near && (bit 1 s.animal_detect == 0)
          then mqtt_queue_send
              (message_access (record {
                detect_flag = set_bits s.animal_detect 2;
                start_weight = ops.to_i32 weight;
              }))
              s.board
          else s.board))
unfolding detect_tracker mqtt_queue_send
tracker_bits ops weight true s = elim (Bool-cases (has s.animal_detect 2)) [
  | inl e ↦
      let on : bit 1 s.animal_detect ≡ 1 = (has_iff s.animal_detect 1).0 e in
      rw (e, on) (refl, refl, refl)
  | inr e ↦
      let off : bit 1 s.animal_detect ≡ 0 =
        ground (arith, (has_iff s.animal_detect 1).1, bit_le 1 s.animal_detect) in
      rw (e, off) (ground (arith, bit-set_bits s.animal_detect 1 1), refl, refl)
]
tracker_bits ops weight false s =
    (ground (arith, dropped 1 1 s.animal_detect (omega arith) (omega arith)), refl, refl)

-- A round counts up to 10 while the light comes back and down to 0 while it does not. Bit 0 tells
-- that the count is 5 or more, and bit 1 that a tracker is near; an access message is sent exactly
-- in the round in which a tracker comes near.
pub detect_task-Detects :
    (ops : FloatOps) (weight : Float) (seen : Bool) (t : Tracker) (s : Sensor)
    → s.ir_count ≤ 10
    → Detects (ops.to_i32 weight) seen (get_tracker_id_active t) s (detect_task ops weight seen t s)
unfolding detect_task next_ir_count
detect_task-Detects ops weight seen t s cap =
    let near = get_tracker_id_active t in
    let n = next_ir_count seen s.ir_count in
    let mid = record s { ir_count = n } in
    let k = tracker_bits ops weight near mid in
    let x = (detect_tracker ops weight near mid).animal_detect in
    record {
      count = k.1 ∙ ground arith;
      here = ground (arith, k.1, bit-set_bits x 0 0, dropped 0 0 x (omega arith) (omega arith));
      tracked = ground (arith, k.0, bit-set_bits x 0 1, dropped 1 0 x (omega arith) (omega arith));
      sent = k.2;
    }

-- Rounds in a row, each with whether the light came back and the trackers of the time.
unfoldable pub detect_tasks : FloatOps → Float → List (Bool × Tracker) → Sensor → Sensor
detect_tasks ops weight [] s = s
detect_tasks ops weight ((seen, t) ∷ rs) s =
    detect_tasks ops weight rs (detect_task ops weight seen t s)

counts-seen :
    (ops : FloatOps) (weight : Float) (rs : List (Bool × Tracker)) (s : Sensor)
    → All (λ r. r.0 ≡ true) rs
    → s.ir_count ≤ 10
    → (detect_tasks ops weight rs s).ir_count ≡ min 10 (s.ir_count + length rs)
unfolding detect_tasks
counts-seen ops weight [] s a cap = omega arith
counts-seen ops weight ((seen, t) ∷ rs) s (yes_seen, a) cap =
    let d = detect_task-Detects ops weight seen t s cap in
    let n : (detect_task ops weight seen t s).ir_count ≡ min 10 (s.ir_count + 1) =
      ground (arith, d.count, yes_seen) in
    omega
      (arith, n, counts-seen ops weight rs (detect_task ops weight seen t s) a (omega (arith, n)))

counts-unseen :
    (ops : FloatOps) (weight : Float) (rs : List (Bool × Tracker)) (s : Sensor)
    → All (λ r. r.0 ≡ false) rs
    → s.ir_count ≤ 10
    → (detect_tasks ops weight rs s).ir_count ≡ s.ir_count - length rs
unfolding detect_tasks
counts-unseen ops weight [] s a cap = omega arith
counts-unseen ops weight ((seen, t) ∷ rs) s (not_seen, a) cap =
    let d = detect_task-Detects ops weight seen t s cap in
    let n : (detect_task ops weight seen t s).ir_count ≡ s.ir_count - 1 =
      ground (arith, d.count, not_seen) in
    omega
      (arith, n, counts-unseen ops weight rs (detect_task ops weight seen t s) a (omega (arith, n)))

-- After four rounds or more in a row with the light coming back, one more such round sees the
-- animal, whatever the sensor saw before.
pub detect_tasks-seen :
    (ops : FloatOps) (weight : Float) (rs : List (Bool × Tracker)) (t : Tracker) (s : Sensor)
    → All (λ r. r.0 ≡ true) rs
    → s.ir_count ≤ 10
    → 4 ≤ length rs
    → bit 0 (detect_task ops weight true t (detect_tasks ops weight rs s)).animal_detect ≡ 1
detect_tasks-seen ops weight rs t s a cap enough =
    let n = counts-seen ops weight rs s a cap in
    let d =
      detect_task-Detects ops weight true t (detect_tasks ops weight rs s) (omega (arith, n)) in
    ground (arith, d.here, d.count, n)

-- After five rounds or more in a row without the light, one more such round sees no animal.
pub detect_tasks-unseen :
    (ops : FloatOps) (weight : Float) (rs : List (Bool × Tracker)) (t : Tracker) (s : Sensor)
    → All (λ r. r.0 ≡ false) rs
    → s.ir_count ≤ 10
    → 5 ≤ length rs
    → bit 0 (detect_task ops weight false t (detect_tasks ops weight rs s)).animal_detect ≡ 0
detect_tasks-unseen ops weight rs t s a cap enough =
    let n = counts-unseen ops weight rs s a cap in
    let d =
      detect_task-Detects ops weight false t (detect_tasks ops weight rs s) (omega (arith, n)) in
    ground (arith, d.here, d.count, n)
