-- ===== src/Examples/Trackers.antt =====
-- Examples of the trackers near the dispenser.
use water_dispenser.Base.{zero, suc, ℕ, ◌≡◌, refl, true, [], ◌∷◌, arith, some, none, get_elem?}
use water_dispenser.Tracker.{DevInfo, Device, Tracker, tracker_waterintake_end, disable_slot}
use water_dispenser.Tracker.Enter.{tracker_in_id}
use water_dispenser.Tracker.Scan.{IsUnique}
use water_dispenser.Tracker.Unique.{tracker_in_id-IsUnique}
use water_dispenser.Tracker.Share.{Shared, tracker_waterintake_end-Shared}
use water_dispenser.Tracker.Presence.{captures, given_up, stable_rounds, captures-given_up}

abbrev info : DevInfo
info = record { addr = 1 ∷ 2 ∷ 3 ∷ 4 ∷ 5 ∷ 6 ∷ []; name = []; rssi = 200 }

abbrev device : Device
device = record {
  device_id = [];
  total_device_time = 0;
  device_time = 700;
  disable_time = 0;
  diff_time = 0;
  enable = 1;
  water_intake = 0;
  dev_info = info;
}

abbrev one_tracker : Tracker
one_tracker = record { devices = some device ∷ none ∷ []; unknown_intake = 0 }

abbrev free_tracker : Tracker
free_tracker = record { devices = none ∷ []; unknown_intake = 0 }

free-IsUnique : IsUnique (none ∷ [])
free-IsUnique i j d e hi hj same = absurd (never i hi)
  where
    never : (i : ℕ) → get_elem? (none ∷ []) i ≡ some (some d) → ⊥
    never zero h = cc
    never (suc i) h = cc

tracker_in_id-IsUnique_example : IsUnique (tracker_in_id true info [] free_tracker).devices
tracker_in_id-IsUnique_example = tracker_in_id-IsUnique true info [] free_tracker free-IsUnique

tracker_waterintake_end-Shared_example :
    Shared 40 one_tracker (tracker_waterintake_end 40 one_tracker)
unfolding disable_slot
tracker_waterintake_end-Shared_example =
    tracker_waterintake_end-Shared 40 one_tracker (omega arith) (omega arith)

captures-given_up_example :
    get_elem? (captures (λ r k. true) 50 one_tracker).devices 0
    ≡ some (some (given_up device (stable_rounds (λ r. true) 50)))
captures-given_up_example =
    captures-given_up (λ r k. true) one_tracker 0 device refl refl refl (omega arith)
