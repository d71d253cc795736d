-- ===== src/Wifi/Scan.antt =====
-- The search for access points (main/wifi/wifi_task.c): remove_duplicate_best_rssi keeps the
-- strongest record of each network at the front of an array, and wifi_scan_start collects up to 30
-- networks in three scans. A buffer is a list of its elements; the scans of the driver are given.
pub mod Best
pub mod Dedup
pub mod Found
pub mod Search
use water_dispenser.Base.{
  ℕ, zero, suc, ◌+◌, Bool, true, false, ◌&&◌, ◌||◌, not, Option, none, some, List, [], ◌∷◌, u16,
  lt_i8, ltb, leb, ◌==◌, if◌then◌else◌, set, get_elem?, take, replicate,
}

-- `wifi_ap_record_t`: `ssid` is a char[33], `rssi` the pattern of an int8_t.
pub record ApRecord : Type 0 where
  pub ssid : List ℕ
  pub rssi : ℕ
  pub authmode : ℕ
  pub bssid : List ℕ

-- `strncmp(a, b, n) == 0`; what stands behind a list is read as the end of the string.
pub strncmp_eq : ℕ → List ℕ → List ℕ → Bool
strncmp_eq zero a b = true
strncmp_eq (suc n) [] [] = true
strncmp_eq (suc n) [] (y ∷ b) = y == 0
strncmp_eq (suc n) (x ∷ a) [] = x == 0
strncmp_eq (suc n) (x ∷ a) (y ∷ b) = (x == y) && (x == 0 || strncmp_eq n a b)

unfoldable pub same_ssid : ApRecord → ApRecord → Bool
same_ssid a b = strncmp_eq 33 a.ssid b.ssid

-- The loop over j: the place of the network of `ap` among the first `rounds` records.
unfoldable pub find_ssid : (rounds j : ℕ) → ApRecord → List ApRecord → Option ℕ
find_ssid zero j ap list = none
find_ssid (suc rounds) j ap [] = none
find_ssid (suc rounds) j ap (x ∷ list) =
    let rest = find_ssid rounds (j + 1) ap list in if same_ssid ap x then some j else rest

-- `list` and `new_count`.
pub record Kept : Type 0 where
  pub list : List ApRecord
  pub new_count : ℕ

abbrev pub stronger : ℕ → ApRecord → Kept → Option ApRecord → Kept
stronger found ap k none = k
stronger found ap k (some old) =
    if lt_i8 old.rssi ap.rssi then record k { list = set k.list found ap } else k

abbrev pub keep : ℕ → ApRecord → Kept → Option ℕ → Kept
keep i ap k (some found) = stronger found ap k (get_elem? k.list found)
keep i ap k none = record {
  list = if not (i == k.new_count) then set k.list k.new_count ap else k.list;
  new_count = u16 (k.new_count + 1);
}

-- Round `i` of the loop; the array has an element there.
abbrev pub dedup_at : ℕ → Kept → Option ApRecord → Kept
dedup_at i k none = k
dedup_at i k (some ap) = keep i ap k (find_ssid k.new_count 0 ap k.list)

unfoldable pub dedup_round : ℕ → Kept → Kept
dedup_round i k = dedup_at i k (get_elem? k.list i)

unfoldable pub dedup_rounds : (rounds i : ℕ) → Kept → Kept
dedup_rounds zero i k = k
dedup_rounds (suc rounds) i k = dedup_rounds rounds (i + 1) (dedup_round i k)

unfoldable pub remove_duplicate_best_rssi : List ApRecord → ℕ → Kept
remove_duplicate_best_rssi list count = dedup_rounds count 0 (record { list = list; new_count = 0 })

-- WIFI_MAX_VALUE.
abbrev pub wifi_max_value : ℕ
wifi_max_value = 30

-- What the driver gives in one round: whether the scan ran, the number of access points that it
-- tells, whether there is memory for them, and the records that are fetched.
pub record Scan : Type 0 where
  pub ran : Bool
  pub ap_num : ℕ
  pub has_memory : Bool
  pub records : List ApRecord

-- The loop that appends the records to the buffer; `new_count` is `total_found_count`.
unfoldable pub copy_records : List ApRecord → Kept → Kept
copy_records [] k = k
copy_records (r ∷ rs) k =
    let rest =
      copy_records rs
        (record { list = set k.list k.new_count r; new_count = u16 (k.new_count + 1) }) in
    if ltb k.new_count wifi_max_value then rest else k

unfoldable pub collect : Scan → Kept → Kept
collect s k =
    let all = copy_records s.records k in
    if ltb 0 s.ap_num then remove_duplicate_best_rssi all.list all.new_count else k

-- The rounds; `continue` goes on, `break` ends the loop.
unfoldable pub scan_rounds : List Scan → Kept → Kept
scan_rounds [] k = k
scan_rounds (s ∷ ss) k =
    let skipped = scan_rounds ss k in
    let more = scan_rounds ss (collect s k) in
    if not s.ran
    then skipped
    else if ltb 0 s.ap_num && not s.has_memory
    then k
    else if leb wifi_max_value (collect s k).new_count
    then collect s k
    else more

abbrev pub empty_record : ApRecord
empty_record = record { ssid = replicate 33 0; rssi = 0; authmode = 0; bssid = replicate 6 0 }

-- `ap_list` with `total_found_count`; `none` is NULL. The buffer needs memory.
unfoldable pub wifi_scan_start : Bool → List Scan → Option (List ApRecord)
wifi_scan_start has_memory scans =
    let found =
      scan_rounds (take 3 scans)
        (record { list = replicate wifi_max_value empty_record; new_count = 0 }) in
    if not has_memory
    then none
    else if found.new_count == 0
    then none
    else some (take found.new_count found.list)
