-- ===== src/Tracker.antt =====
-- The table of trackers seen near the dispenser (main/ble/ble_tracker_id.c). An entry of the
-- table is a pointer to a device of its own, so the table is a list of optional values.

pub mod Enter
pub mod Scan
pub mod Share
pub mod Presence
pub mod Unique
use water_dispenser.Base.{
  ℕ, ◌+◌, ◌*◌, ◌/◌, ◌%◌, ◌^◌, Bool, true, false, ◌&&◌, not, Option, none, some, List, [], ◌∷◌, map,
  u32, ltb, leb, ◌==◌, if◌then◌else◌, replicate,
}

-- `dev_info_t`: six bytes of address, the name's bytes, and the pattern of an `int8_t`.
pub record DevInfo : Type 0 where
  pub addr : List ℕ
  pub name : List ℕ
  pub rssi : ℕ

-- `Tracker_Device_t`; every number is a `uint32_t`.
pub record Device : Type 0 where
  pub device_id : List ℕ
  pub total_device_time : ℕ
  pub device_time : ℕ
  pub disable_time : ℕ
  pub diff_time : ℕ
  pub enable : ℕ
  pub water_intake : ℕ
  pub dev_info : DevInfo

abbrev pub tracker_device_max : ℕ
tracker_device_max = 20

abbrev pub Slots : Type 0
Slots = List (Option Device)

-- `Tracker_Device` and the field of `Tracker_UNKNOWN` that changes.
pub record Tracker : Type 0 where
  pub devices : Slots
  pub unknown_intake : ℕ

abbrev pub no_trackers : Tracker
no_trackers = record { devices = replicate tracker_device_max none; unknown_intake = 0 }

abbrev pub is_enabled : Device → Bool
is_enabled d = not (d.enable == 0)

-- `memcmp` of two addresses.
unfoldable pub same_bytes : List ℕ → List ℕ → Bool
same_bytes [] [] = true
same_bytes [] (y ∷ ys) = false
same_bytes (x ∷ xs) [] = false
same_bytes (x ∷ xs) (y ∷ ys) = x == y && same_bytes xs ys

abbrev pub has_addr : List ℕ → Option Device → Bool
has_addr a none = false
has_addr a (some d) = same_bytes d.dev_info.addr a

-- The first slot from index `i` on that passes a test: the scans of the table.
unfoldable pub find_slot : (Option Device → Bool) → Slots → ℕ → Option ℕ
find_slot p [] i = none
find_slot p (s ∷ ss) i = let rest = find_slot p ss (i + 1) in if p s then some i else rest

-- `Get_Tracker_Device`, as an index into the table; `none` is NULL.
unfoldable pub get_tracker_device : List ℕ → Tracker → Option ℕ
get_tracker_device addr t = find_slot (has_addr addr) t.devices 0

-- `Tracker_Device_disable` on the device that its index names.
unfoldable pub tracker_device_disable : Device → Device
tracker_device_disable d = record d {
  total_device_time = u32 (d.total_device_time + d.device_time);
  diff_time = d.device_time;
  enable = 0;
  device_time = 0;
}

-- The first loop of `Tracker_waterintake_end`.
unfoldable pub disable_slot : Option Device → Option Device
unfolding tracker_device_disable
disable_slot none = none
disable_slot (some d) = some (if is_enabled d then tracker_device_disable d else d)

abbrev pub diff_of : Option Device → ℕ
diff_of none = 0
diff_of (some d) = d.diff_time

-- The second loop.
unfoldable pub total_time_sum : ℕ → Slots → ℕ
total_time_sum acc [] = acc
total_time_sum acc (s ∷ ss) = total_time_sum (u32 (acc + diff_of s)) ss

-- The third loop; the product is a `uint64_t`.
abbrev pub allocated_water : ℕ → ℕ → ℕ → ℕ
allocated_water total weight diff = u32 (diff * weight % 2 ^ 64 / total)

unfoldable pub allocate_slot : ℕ → ℕ → Option Device → Option Device
allocate_slot total weight none = none
allocate_slot total weight (some d) = some (
    if ltb 0 d.diff_time
    then record d {
      water_intake = u32 (d.water_intake + allocated_water total weight d.diff_time);
      diff_time = 0;
    }
    else d)

unfoldable pub tracker_waterintake_end : ℕ → Tracker → Tracker
unfolding disable_slot total_time_sum allocate_slot
tracker_waterintake_end weight t =
    let stopped = map disable_slot t.devices in
    let total = total_time_sum 0 stopped in
    if total == 0
    then record { devices = stopped; unknown_intake = u32 (t.unknown_intake + weight) }
    else record t { devices = map (allocate_slot total weight) stopped }

-- `Tracker_device_time_add`: the slot afterwards.
unfoldable pub tracker_device_time_add : Option Device → Option Device
tracker_device_time_add none = none
tracker_device_time_add (some d) =
    some (if is_enabled d then record d { device_time = u32 (d.device_time + 100) } else d)

-- The rest of the loop's body in `vTrackerCaptureTask`.
unfoldable pub age_slot : Option Device → Option Device
unfolding tracker_device_disable
age_slot none = none
age_slot (some d) = some (
    if is_enabled d
    then (let aged = record d { disable_time = u32 (d.disable_time + 100) } in
        if leb 5000 aged.disable_time then tracker_device_disable aged else aged)
    else d)

unfoldable pub capture_slot : Bool → Option Device → Option Device
unfolding tracker_device_time_add age_slot
capture_slot stable s = age_slot (if stable then tracker_device_time_add s else s)

-- One round of `vTrackerCaptureTask`. Another task may change the smart state between two slots, so
-- `stable i` is whether Time_ratio_state() was SMART_RUN_STABLE at slot i.
unfoldable pub capture_from : (ℕ → Bool) → ℕ → Slots → Slots
unfolding capture_slot
capture_from stable i [] = []
capture_from stable i (s ∷ ss) = capture_slot (stable i) s ∷ capture_from stable (i + 1) ss

unfoldable pub tracker_capture : (ℕ → Bool) → Tracker → Tracker
unfolding capture_from
tracker_capture stable t = record t { devices = capture_from stable 0 t.devices }
