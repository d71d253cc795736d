-- ===== src/Ble/Fail.antt =====
-- The packet that BLE_Receive_data fails on (main/ble/ble_parse.c).
use water_dispenser.Base.{
  ℕ, ◌≡◌, refl, Bool, true, false, ◌&&◌, List, Option, none, some, inl, inr, Option-cases,
}
use water_dispenser.Ble.{
  Packet, motion_start_response, motion_data, health_data_response, lsm6_data_response,
  time_request, setting_request, other_packet, Ble, get_conn_client_by_mac,
}
use water_dispenser.Ble.Receive.{ble_receive_data}

abbrev pub is_none {ℓ} : {A : Type ℓ} → Option A → Bool
is_none none = true
is_none (some a) = false

abbrev pub is_health : Packet → Bool
is_health (motion_start_response total send non_save) = false
is_health (motion_data seq mlc) = false
is_health (health_data_response h) = true
is_health lsm6_data_response = false
is_health time_request = false
is_health (setting_request bytes) = false
is_health (other_packet bytes) = false

-- A packet makes the code dereference NULL exactly if it is a health response and its sender is
-- not in the table of clients; every other packet, from anyone, is handled.
pub ble_receive_data-is_none :
    (mem : Bool) (now : ℕ) (mac : List ℕ) (p : Packet) (b : Ble)
    → is_none (ble_receive_data mem now mac p b)
      ≡ (is_health p && is_none (get_conn_client_by_mac (some mac) b))
unfolding ble_receive_data
ble_receive_data-is_none mem now mac (motion_start_response total send non_save) b =
    elim (Option-cases (get_conn_client_by_mac (some mac) b)) [
      | inl e ↦ rw (e, ble_receive_data) refl
      | inr (r, e) ↦ rw (e, ble_receive_data) refl
    ]
ble_receive_data-is_none mem now mac (motion_data seq mlc) b =
    elim (Option-cases (get_conn_client_by_mac (some mac) b)) [
      | inl e ↦ rw (e, ble_receive_data) refl
      | inr (r, e) ↦ rw (e, ble_receive_data) refl
    ]
ble_receive_data-is_none mem now mac (health_data_response h) b =
    elim (Option-cases (get_conn_client_by_mac (some mac) b)) [
      | inl e ↦ rw (e, ble_receive_data) refl
      | inr (r, e) ↦ rw (e, ble_receive_data) refl
    ]
ble_receive_data-is_none mem now mac lsm6_data_response b = refl
ble_receive_data-is_none mem now mac time_request b = refl
ble_receive_data-is_none mem now mac (setting_request bytes) b = refl
ble_receive_data-is_none mem now mac (other_packet bytes) b = refl
