-- ===== src/Tracker/Presence.antt =====
-- How long a tracker counts as present, and the drinking time that it is credited with
-- (vTrackerCaptureTask of main/ble/ble_tracker_id.c, a round each 100 ms).
use water_dispenser.Base.{
  ℕ, zero, suc, ◌+◌, ◌*◌, ◌^◌, ◌≤◌, ◌<◌, ◌≡◌, ◌∙◌, ap, Bool, Option, some, [], ◌∷◌, arith, u32,
  if◌then◌else◌, get_elem?,
}
use water_dispenser.Tracker.{Device, Slots, Tracker, capture_slot, capture_from, tracker_capture}

-- n rounds in which `stable r k` is whether the smart state was SMART_RUN_STABLE at slot k of round r.
unfoldable pub captures : (ℕ → ℕ → Bool) → ℕ → Tracker → Tracker
captures stable zero t = t
captures stable (suc n) t = tracker_capture (stable n) (captures stable n t)

-- The rounds with the state stable, of the first n.
abbrev pub stable_rounds : (ℕ → Bool) → ℕ → ℕ
stable_rounds stable zero = 0
stable_rounds stable (suc n) = stable_rounds stable n + (if stable n then 1 else 0)

pub stable_rounds-le : (stable : ℕ → Bool) (n : ℕ) → stable_rounds stable n ≤ n
stable_rounds-le stable zero = omega arith
stable_rounds-le stable (suc n) = ground (arith, stable_rounds-le stable n)

-- A round works on each slot by itself.
capture_from-slot :
    (stable : ℕ → Bool) (i : ℕ) (ss : Slots) (k : ℕ) (s : Option Device)
    → get_elem? ss k ≡ some s
    → get_elem? (capture_from stable i ss) k ≡ some (capture_slot (stable (i + k)) s)
unfolding capture_from
capture_from-slot stable i [] k s h = cc
capture_from-slot stable i (r ∷ ss) zero s h = ground arith
capture_from-slot stable i (r ∷ ss) (suc k) s h =
    let e : i + 1 + k ≡ i + suc k = omega arith in
    rw (← e) (capture_from-slot stable (i + 1) ss k s h)

tracker_capture-slot :
    (stable : ℕ → Bool) (t : Tracker) (k : ℕ) (s : Option Device)
    → get_elem? t.devices k ≡ some s
    → get_elem? (tracker_capture stable t).devices k ≡ some (capture_slot (stable k) s)
unfolding tracker_capture
tracker_capture-slot stable t k s h =
    let e : 0 + k ≡ k = omega arith in rw e at (capture_from-slot stable 0 t.devices k s h)

-- A device that was last heard n rounds ago.
abbrev pub waiting : Device → ℕ → ℕ → Device
waiting d n credit = record d { device_time = d.device_time + 100 * credit; disable_time = 100 * n }

-- A device that has been given up after 50 rounds.
abbrev pub given_up : Device → ℕ → Device
given_up d credit = record d {
  total_device_time = u32 (d.total_device_time + (d.device_time + 100 * credit));
  diff_time = d.device_time + 100 * credit;
  enable = 0;
  device_time = 0;
  disable_time = 5000;
}

-- One round before the limit, and the round that reaches it.
capture_slot-waiting :
    (b : Bool) (d : Device) (n credit : ℕ)
    → d.enable ≡ 1
    → suc n < 50
    → d.device_time + 100 * suc credit < 2 ^ 32
    → capture_slot b (some (waiting d n credit))
      ≡ some (waiting d (suc n) (credit + (if b then 1 else 0)))
unfolding capture_slot
capture_slot-waiting b d n credit on h fits = ground arith

capture_slot-given_up :
    (b : Bool) (d : Device) (credit : ℕ)
    → d.enable ≡ 1
    → d.device_time + 100 * suc credit < 2 ^ 32
    → capture_slot b (some (waiting d 49 credit))
      ≡ some (given_up d (credit + (if b then 1 else 0)))
unfolding capture_slot
capture_slot-given_up b d credit on fits = ground arith

module _ (stable : ℕ → ℕ → Bool) (t : Tracker) (k : ℕ) (d : Device)
    (here : get_elem? t.devices k ≡ some (some d)) (on : d.enable ≡ 1) (heard : d.disable_time ≡ 0)
    (fits : d.device_time + 5000 < 2 ^ 32) where
  -- A tracker that was heard stays enabled for 49 rounds, and is credited with 100 ms for each of
  -- them in which the smart state was stable.
  pub captures_present :
      (n : ℕ)
      → n < 50
      → get_elem? (captures stable n t).devices k
        ≡ some (some (waiting d n (stable_rounds (λ r. stable r k) n)))
  unfolding captures
  captures_present zero h = here ∙ ground arith
  captures_present (suc n) h =
      tracker_capture-slot (stable n) (captures stable n t) k _ (captures_present n (omega arith))
      ∙ ap some (
          capture_slot-waiting (stable n k) d n (stable_rounds (λ r. stable r k) n) on h
            (omega (arith, stable_rounds-le (λ r. stable r k) n)))

  -- If it is not heard again, the 50th round disables it, and books the time it was credited with.
  pub captures-given_up :
      get_elem? (captures stable 50 t).devices k
      ≡ some (some (given_up d (stable_rounds (λ r. stable r k) 50)))
  unfolding captures
  captures-given_up =
      tracker_capture-slot (stable 49) (captures stable 49 t) k _
        (captures_present 49 (omega arith))
      ∙ ap some (
          capture_slot-given_up (stable 49 k) d (stable_rounds (λ r. stable r k) 49) on
            (omega (arith, stable_rounds-le (λ r. stable r k) 49)))
