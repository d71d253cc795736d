-- ===== src/Ble/Deliver.antt =====
-- The end of a transfer, and a whole one (BLE_Receive_data, main/ble/ble_parse.c).
use water_dispenser.Base.{
  ℕ, ◌≡◌, Bool, List, [], ◌∷◌, ◌++◌, ◌==◌, if◌then◌else◌, take, Option, none, some,
}
use water_dispenser.Ble.{motion_data, Client, Ble, get_conn_client_by_mac}
use water_dispenser.Ble.Receive.{ble_receive_data}
use water_dispenser.Ble.Motion.{Activity, activities, start_requests}

abbrev activity : (mac points : List ℕ) → (total send non_save : ℕ) → Activity
activity mac points total send non_save = record {
  mac = mac;
  points = points;
  total_point = total;
  send_point = send;
  non_save_points = non_save;
}

-- A transfer of the points `pts` is over.
pub record Delivered (mac : List ℕ) (send total non_save : ℕ) (acts : List Activity) (reqs : ℕ)
    (pts : List ℕ) (b : Ble) : Type 0 where
  pub index : ℕ
  pub client : Client
  pub found : get_conn_client_by_mac (some mac) b ≡ some (index, client)
  pub freed : client.data_buf ≡ none
  pub cleared : (client.input_count ≡ 0) × (client.send_point ≡ 0) × (client.total_point ≡ 0)
  pub sent :
      activities b.calls
      ≡ activity mac (take send pts) (if send == total then 0 else total) send non_save ∷ acts
  pub no_request : start_requests b.calls ≡ reqs

-- Packets of points in a row, the first one first; each is its number and its bytes.
unfoldable pub receive_points : Bool → ℕ → List ℕ → List (ℕ × List ℕ) → Ble → Option Ble
receive_points mem now mac [] b = some b
receive_points mem now mac ((seq, mlc) ∷ ps) b =
    elim (ble_receive_data mem now mac (motion_data seq mlc) b) [
      | none ↦ none
      | some e ↦ receive_points mem now mac ps e
    ]

abbrev pub points_of : List (ℕ × List ℕ) → List ℕ
points_of [] = []
points_of ((seq, mlc) ∷ ps) = mlc ++ points_of ps
