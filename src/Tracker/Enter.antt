-- ===== src/Tracker/Enter.antt =====
-- Tracker_In_ID of main/ble/ble_tracker_id.c: a tracker that was heard enters the table, or its
-- entry is refreshed.
use water_dispenser.Base.{
  ℕ, zero, suc, ◌+◌, ◌/◌, ◌%◌, Bool, true, false, Option, none, some, List, [], ◌∷◌, ◌++◌, ltb,
  if◌then◌else◌, set, get_elem?,
}
use water_dispenser.Tracker.{
  DevInfo, Device, Slots, Tracker, find_slot, get_tracker_device, is_enabled,
}

-- `%02X` of a byte.
abbrev hex_digit : ℕ → ℕ
hex_digit n = if ltb n 10 then 48 + n else 55 + n

abbrev hex_byte : ℕ → List ℕ
hex_byte b = hex_digit (b / 16) ∷ hex_digit (b % 16) ∷ []

abbrev hex_bytes : List ℕ → List ℕ
hex_bytes [] = []
hex_bytes (b ∷ bs) = hex_byte b ++ hex_bytes bs

abbrev take_text : ℕ → List ℕ → List ℕ
take_text zero cs = []
take_text (suc n) [] = []
take_text (suc n) (c ∷ cs) = c ∷ take_text n cs

-- The text that `snprintf` leaves in `Device_ID`, 31 bytes at most.
unfoldable pub device_id_of : List ℕ → List ℕ → List ℕ
device_id_of tracker_id addr = take_text 31 (tracker_id ++ (b'-' ∷ hex_bytes addr))

abbrev pub refreshed : DevInfo → Device → Device
refreshed info d = record d { enable = 1; disable_time = 0; dev_info = info }

abbrev pub fresh_device : DevInfo → List ℕ → Device
fresh_device info tracker_id = record {
  device_id = device_id_of tracker_id info.addr;
  total_device_time = 0;
  device_time = 0;
  disable_time = 0;
  diff_time = 0;
  enable = 1;
  water_intake = 0;
  dev_info = info;
}

abbrev pub is_empty : Option Device → Bool
is_empty none = true
is_empty (some d) = false

unfoldable pub refresh_at : DevInfo → ℕ → Slots → Slots
refresh_at info i ss = elim (get_elem? ss i) [
  | some (some d) ↦ set ss i (some (refreshed info d))
  | _ ↦ ss
]

-- `allocated` says whether malloc() gave memory for the new device.
unfoldable pub tracker_in_id : Bool → DevInfo → List ℕ → Tracker → Tracker
tracker_in_id allocated info tracker_id t = elim (get_tracker_device info.addr t) [
  | some i ↦ record t { devices = refresh_at info i t.devices }
  | none ↦ elim (find_slot is_empty t.devices 0) [
    | none ↦ t
    | some i ↦
        if allocated
        then record t { devices = set t.devices i (some (fresh_device info tracker_id)) }
        else t
  ]
]

-- `GetTracker_Id_active`; `GetTracker_Id_Name` returns the device of that slot.
abbrev pub slot_enabled : Option Device → Bool
slot_enabled none = false
slot_enabled (some d) = is_enabled d

unfoldable pub get_tracker_id_name : Tracker → Option ℕ
get_tracker_id_name t = find_slot slot_enabled t.devices 0

unfoldable pub get_tracker_id_active : Tracker → Bool
get_tracker_id_active t = elim (find_slot slot_enabled t.devices 0) [ none ↦ false | some i ↦ true ]
