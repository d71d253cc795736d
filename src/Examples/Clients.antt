-- ===== src/Examples/Clients.antt =====
-- Examples of the trackers that are connected.
use water_dispenser.Base.{ℕ, true, List, [], ◌∷◌, some}
use water_dispenser.Ble.{Client, Ble, empty_client}

abbrev mac : List ℕ
mac = 1 ∷ 2 ∷ 3 ∷ 4 ∷ 5 ∷ 6 ∷ []

abbrev client : Client
client = record empty_client {
  is_connected = true;
  mac_addr = mac;
  conn_handle = 7;
  timer = some 1;
  motion_timer = some 2;
}

abbrev one_client : Ble
one_client = record {
  clients = client ∷ empty_client ∷ empty_client ∷ empty_client ∷ empty_client ∷ [];
  calls = [];
}

-- Twenty points in two packets of eighteen bytes.
abbrev points : List ℕ
points = 1 ∷ 2 ∷ 3 ∷ 4 ∷ 5 ∷ 6 ∷ 7 ∷ 8 ∷ 9 ∷ 10 ∷ 11 ∷ 12 ∷ 13 ∷ 14 ∷ 15 ∷ 16 ∷ 17 ∷ 18 ∷ []
