-- ===== src/Tracker/Share.antt =====
-- Tracker_waterintake_end of main/ble/ble_tracker_id.c: how the water of one drink is shared out.
use native.Mathlib.Nat.{
  div-add-mod, mod-lt, div-le_of_le-mul, mul-le-mul, mul-le-mul_right, le_of_mul-le-mul_left,
  lt_of_mul-lt-mul_left,
}
use native.Mathlib.Decide.{dec_lt}
use water_dispenser.Base.{
  max, ℕ, ◌+◌, ◌*◌, ◌/◌, ◌%◌, ◌^◌, ◌≤◌, ◌<◌, ◌≡◌, refl, false, Option, none, some, [], ◌∷◌, map,
  arith, ltb, u32, ◌==◌, if◌then◌else◌, All, ◌↔◌,
}
use water_dispenser.Tracker.{
  Device, Slots, Tracker, diff_of, disable_slot, total_time_sum, allocated_water, allocate_slot,
  tracker_waterintake_end,
}

-- Sums over the table, without wrapping.
abbrev pub diffs : Slots → ℕ
diffs [] = 0
diffs (s ∷ ss) = diff_of s + diffs ss

abbrev pub intake_of : Option Device → ℕ
intake_of none = 0
intake_of (some d) = d.water_intake

abbrev pub intakes : Slots → ℕ
intakes [] = 0
intakes (s ∷ ss) = intake_of s + intakes ss

-- How many devices have time to their credit.
abbrev pub contributors : Slots → ℕ
contributors [] = 0
contributors (s ∷ ss) = (if ltb 0 (diff_of s) then 1 else 0) + contributors ss

total_time_sum-eq :
    (acc : ℕ) (ss : Slots) → acc + diffs ss < 2 ^ 32 → total_time_sum acc ss ≡ acc + diffs ss
unfolding total_time_sum
total_time_sum-eq acc [] h = omega arith
total_time_sum-eq acc (s ∷ ss) h =
    let step : u32 (acc + diff_of s) ≡ acc + diff_of s = omega arith in
    omega (arith, total_time_sum-eq (u32 (acc + diff_of s)) ss (omega arith))

-- The share of one device, before it is rounded down.
share_bounds :
    (total weight diff : ℕ)
    → 0 < total
    → (total * (diff * weight / total) ≤ diff * weight)
      × (diff * weight < total * (diff * weight / total) + total)
share_bounds total weight diff h =
    omega (arith, div-add-mod (diff * weight) total, mod-lt (diff * weight) {m = total} h)

product_small : (a b : ℕ) → a < 2 ^ 32 → b < 2 ^ 32 → a * b < 2 ^ 64
product_small a b ha hb =
    let top : a * b ≤ 4294967295 * 4294967295 =
      mul-le-mul {n₁ = a} {m₁ = b} {n₂ = 4294967295} {m₂ = 4294967295} (omega arith)
        (omega arith) in
    omega arith

-- With shares of at most the whole nothing wraps.
allocated_water-eq :
    (total weight diff : ℕ)
    → 0 < total
    → diff ≤ total
    → total < 2 ^ 32
    → weight < 2 ^ 32
    → (allocated_water total weight diff ≡ diff * weight / total) × (diff * weight / total ≤ weight)
allocated_water-eq total weight diff h hd ht hw =
    let small = product_small diff weight (omega arith) hw in
    let part : diff * weight / total ≤ weight =
      div-le_of_le-mul total {m = diff * weight} {n = weight} (mul-le-mul_right weight hd) in
    let whole : diff * weight % 2 ^ 64 ≡ diff * weight = omega arith in
    (rw whole (omega arith), part)

-- The shares of all devices.
abbrev shares : ℕ → ℕ → Slots → ℕ
shares total weight [] = 0
shares total weight (s ∷ ss) = diff_of s * weight / total + shares total weight ss

shares_bounds :
    (total weight : ℕ) (ss : Slots)
    → 0 < total
    → (total * shares total weight ss ≤ diffs ss * weight)
      × (diffs ss * weight + contributors ss ≤ total * (shares total weight ss + contributors ss))
shares_bounds total weight [] h = omega arith
shares_bounds total weight (s ∷ ss) h =
    ground (arith, share_bounds total weight (diff_of s) h, shares_bounds total weight ss h)

-- Every device takes its share, none wraps, and no time is left to anyone's credit.
allocate_slot-intake :
    (total weight : ℕ) (s : Option Device)
    → 0 < total
    → diff_of s ≤ total
    → total < 2 ^ 32
    → intake_of s + weight < 2 ^ 32
    → (intake_of (allocate_slot total weight s) ≡ intake_of s + diff_of s * weight / total)
      × (diff_of (allocate_slot total weight s) ≡ 0)
unfolding allocate_slot
allocate_slot-intake total weight none h hd ht hw = omega arith
allocate_slot-intake total weight (some d) h hd ht hw =
    ground (arith, allocated_water-eq total weight d.diff_time h hd ht (omega arith))

allocate-intakes :
    (total weight : ℕ) (ss : Slots)
    → 0 < total
    → diffs ss ≤ total
    → total < 2 ^ 32
    → intakes ss + weight < 2 ^ 32
    → intakes (map (allocate_slot total weight) ss) ≡ intakes ss + shares total weight ss
allocate-intakes total weight [] h hd ht hw = refl
allocate-intakes total weight (s ∷ ss) h hd ht hw = omega (
  arith,
  allocate_slot-intake total weight s h (omega arith) ht (omega arith),
  allocate-intakes total weight ss h (omega arith) ht (omega arith),
)

disable_slot-intake : (s : Option Device) → intake_of (disable_slot s) ≡ intake_of s
unfolding disable_slot
disable_slot-intake none = refl
disable_slot-intake (some d) = ground arith

disable-intakes : (ss : Slots) → intakes (map disable_slot ss) ≡ intakes ss
disable-intakes [] = refl
disable-intakes (s ∷ ss) = omega (arith, disable_slot-intake s, disable-intakes ss)

-- A device that has stopped drinking, with no time to its credit.
abbrev pub IsSettled : Option Device → Type 0
IsSettled none = Unit {0}
IsSettled (some d) = (d.enable ≡ 0) × (d.diff_time ≡ 0)

disable_slot-IsSettled :
    (s : Option Device) → diff_of (disable_slot s) ≡ 0 → IsSettled (disable_slot s)
unfolding disable_slot
disable_slot-IsSettled none h = tt
disable_slot-IsSettled (some d) h = ground arith

disable-IsSettled :
    (ss : Slots) → diffs (map disable_slot ss) ≡ 0 → All IsSettled (map disable_slot ss)
disable-IsSettled [] h = tt
disable-IsSettled (s ∷ ss) h =
    (disable_slot-IsSettled s (omega arith), disable-IsSettled ss (omega arith))

allocate_slot-IsSettled :
    (total weight : ℕ) (s : Option Device) → IsSettled (allocate_slot total weight (disable_slot s))
unfolding allocate_slot disable_slot
allocate_slot-IsSettled total weight none = tt
allocate_slot-IsSettled total weight (some d) = ground arith

allocate-IsSettled :
    (total weight : ℕ) (ss : Slots)
    → All IsSettled (map (allocate_slot total weight) (map disable_slot ss))
allocate-IsSettled total weight [] = tt
allocate-IsSettled total weight (s ∷ ss) =
    (allocate_slot-IsSettled total weight s, allocate-IsSettled total weight ss)

-- All water that is on record.
abbrev pub drunk : Tracker → ℕ
drunk t = intakes t.devices + t.unknown_intake

abbrev pub stopped : Tracker → Slots
stopped t = map disable_slot t.devices

-- What becomes of the `weight` of one drink.
pub record Shared (weight : ℕ) (t u : Tracker) : Type 0 where
  pub no_more : drunk u ≤ drunk t + weight
  pub nearly_all : drunk t + weight < drunk u + max 1 (contributors (stopped t))
  pub unknown :
      u.unknown_intake
      ≡ (if contributors (stopped t) == 0 then t.unknown_intake + weight else t.unknown_intake)
  pub settled : All IsSettled u.devices

contributors-zero : (ss : Slots) → (diffs ss ≡ 0) ↔ (contributors ss ≡ 0)
contributors-zero [] = omega arith
contributors-zero (s ∷ ss) = ground (arith, contributors-zero ss)

module _ (weight : ℕ) (t : Tracker) (small : diffs (stopped t) < 2 ^ 32)
    (fits : drunk t + weight < 2 ^ 32) where
  total_eq : total_time_sum 0 (stopped t) ≡ diffs (stopped t)
  total_eq = omega (arith, total_time_sum-eq 0 (stopped t) (omega arith))

  -- Nobody drank: all of it is on the unknown tracker's record.
  nobody : diffs (stopped t) ≡ 0 → Shared weight t (tracker_waterintake_end weight t)
  unfolding tracker_waterintake_end
  nobody e =
      rw (total_eq, e, tracker_waterintake_end)
        (record {
          no_more = omega (arith, disable-intakes t.devices);
          nearly_all = omega (arith, disable-intakes t.devices, (contributors-zero (stopped t)).0);
          unknown = ground (arith, (contributors-zero (stopped t)).0);
          settled = disable-IsSettled t.devices e;
        })

  -- Somebody drank: the shares fall short of the whole by less than the number of those who did.
  somebody : 0 < diffs (stopped t) → Shared weight t (tracker_waterintake_end weight t)
  unfolding tracker_waterintake_end
  somebody h =
      let total = diffs (stopped t) in
      let bounds = shares_bounds total weight (stopped t) h in
      let at_most : shares total weight (stopped t) ≤ weight =
        le_of_mul-le-mul_left {k = total} bounds.0 h in
      let counted : 0 < contributors (stopped t) =
        grind (arith, (contributors-zero (stopped t)).1) in
      let short : weight < shares total weight (stopped t) + contributors (stopped t) =
        lt_of_mul-lt-mul_left total (omega (arith, bounds.1)) in
      let sum =
        allocate-intakes total weight (stopped t) h (omega arith) small
          (omega (arith, disable-intakes t.devices)) in
      rw (total_eq, tracker_waterintake_end)
        (rw busy (record {
          no_more = omega (arith, disable-intakes t.devices, sum, at_most);
          nearly_all = omega (arith, disable-intakes t.devices, sum, short);
          unknown = ground (arith, counted);
          settled = allocate-IsSettled total weight t.devices;
        }))
    where
      busy : (diffs (stopped t) == 0) ≡ false
      busy = ground arith

-- At the end of a drink of `weight`: no water is invented; if some tracker has time to its credit
-- the shares fall short of the whole by less than one unit for each of them, and the unknown
-- tracker gets nothing; if none has, the unknown tracker gets all of it; and every tracker has
-- stopped drinking, with no time to its credit. This holds where the times add up to a 32-bit word, and all the
-- water on record with the new drink too.
pub tracker_waterintake_end-Shared :
    (weight : ℕ) (t : Tracker)
    → diffs (stopped t) < 2 ^ 32
    → drunk t + weight < 2 ^ 32
    → Shared weight t (tracker_waterintake_end weight t)
tracker_waterintake_end-Shared weight t small fits = elim (dec_lt 0 (diffs (stopped t))) [
  | yes h ↦ somebody weight t small fits h
  | no h ↦ nobody weight t small fits (omega arith)
]
