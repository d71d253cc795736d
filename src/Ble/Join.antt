-- ===== src/Ble/Join.antt =====
-- Connections and disconnections in the table of clients (main/ble/ble_task.c).
use water_dispenser.Base.{
  ℕ, zero, suc, ◌+◌, ◌%◌, ◌≤◌, ◌<◌, ◌≡◌, refl, ap, ◌∙◌, true, Option, none, some, List, [], ◌∷◌,
  if◌then◌else◌, get_elem?, set, ltb, arith, length, length-set, subst, min,
}
use water_dispenser.Ble.{
  Client, Ble, empty_client, has_mac, has_handle, find_client, remove_client, connected,
  count_client, get_conn_handle_by_mac, conn_handle_none, max_connections,
}
use water_dispenser.Ble.Table.{find_client-Found}

connected-le : (cs : List Client) → length cs < 256 → connected cs ≤ length cs
unfolding connected
connected-le [] h = omega arith
connected-le (c ∷ cs) h = ground (arith, connected-le cs (omega arith))

-- A write changes the count by what it changes of that one client.
connected-set :
    (cs : List Client) (k : ℕ) (c d : Client)
    → length cs < 256
    → get_elem? cs k ≡ some c
    → connected (set cs k d) + (if c.is_connected then 1 else 0)
      ≡ connected cs + (if d.is_connected then 1 else 0)
unfolding connected
connected-set [] k c d h at = cc
connected-set (e ∷ cs) zero c d h at =
    let same : e ≡ c = ground arith in rw same (ground (arith, connected-le cs (omega arith)))
connected-set (e ∷ cs) (suc k) c d h at = ground (
  arith,
  connected-set cs k c d (omega arith) at,
  connected-le cs (omega arith),
  connected-le (set cs k d) (omega (arith, length-set cs k d)),
  length-set cs k d,
)

-- What a connection makes of the table.
pub record Joined (handle : ℕ) (mac : List ℕ) (b d : Ble) : Type 0 where
  pub size : length d.clients ≡ max_connections
  pub counted : count_client d ≡ min 5 (count_client b + 1)
  pub found :
      get_conn_handle_by_mac (some mac) d
      ≡ (if ltb (count_client b) 5 then handle else conn_handle_none)

-- The client of a new connection in the place of c.
abbrev pub joined_client : ℕ → List ℕ → Option ℕ → Option ℕ → ℕ → Client → Client
joined_client handle mac timer motion_timer random c = record c {
  conn_handle = handle;
  mac_addr = mac;
  is_connected = true;
  timer = timer;
  motion_timer = motion_timer;
  first_delay_ms = random % 20 + 1;
}

pub handle_unknown :
    (mac : List ℕ) (b : Ble)
    → find_client (has_mac mac) b.clients 0 ≡ none
    → get_conn_handle_by_mac (some mac) b ≡ conn_handle_none
unfolding get_conn_handle_by_mac
handle_unknown mac b h = rw (h, get_conn_handle_by_mac) refl

pub handle_known :
    (mac : List ℕ) (b : Ble) (k : ℕ) (c : Client)
    → find_client (has_mac mac) b.clients 0 ≡ some (k, c)
    → get_conn_handle_by_mac (some mac) b ≡ c.conn_handle
unfolding get_conn_handle_by_mac
handle_known mac b k c h = rw (h, get_conn_handle_by_mac) refl

-- What a disconnection makes of the table.
pub record Removed (b d : Ble) : Type 0 where
  pub size : length d.clients ≡ max_connections
  pub counted : count_client d + 1 ≡ count_client b

remove_client-clients :
    (handle : ℕ) (b : Ble) (k : ℕ) (c : Client)
    → find_client (has_handle handle) b.clients 0 ≡ some (k, c)
    → (remove_client handle b).clients ≡ set b.clients k empty_client
unfolding remove_client
remove_client-clients handle b k c h = rw (h, remove_client) refl

-- The disconnection of a handle that is connected takes one client off the count.
pub remove_client-Removed :
    (handle k : ℕ) (c : Client) (b : Ble)
    → length b.clients ≡ max_connections
    → find_client (has_handle handle) b.clients 0 ≡ some (k, c)
    → Removed b (remove_client handle b)
unfolding count_client
remove_client-Removed handle k c b size h =
    let f = find_client-Found (has_handle handle) b.clients 0 (k, c) h in
    let put = remove_client-clients handle b k c h in
    let on : c.is_connected ≡ true = ground (arith, f.passes) in
    let here : get_elem? b.clients k ≡ some c =
      subst (λ n. get_elem? b.clients n ≡ some c) (omega (arith, f.index)) f.at in
    let count = connected-set b.clients k c empty_client (omega (arith, size)) here in
    record {
      size = ap length put ∙ length-set b.clients k empty_client ∙ size;
      counted = ap (λ cs. connected cs + 1) put ∙ ground (arith, count);
    }
