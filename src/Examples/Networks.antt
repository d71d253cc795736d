-- ===== src/Examples/Networks.antt =====
-- Examples of the search for networks and of the connection.
use water_dispenser.Base.{
  ℕ, ◌-◌, ◌≡◌, ◌⊎◌, ◌++◌, refl, true, false, List, [], ◌∷◌, arith, take, length, replicate,
  if◌then◌else◌,
}
use water_dispenser.Examples.{calm_board}
use water_dispenser.Wifi.Scan.{ApRecord, remove_duplicate_best_rssi, Scan, wifi_scan_start}
use water_dispenser.Wifi.Scan.Best.{Shortlist}
use water_dispenser.Wifi.Scan.Dedup.{remove_duplicate_best_rssi-Shortlist}
use water_dispenser.Wifi.Scan.Found.{Found, fetched, ready}
use water_dispenser.Wifi.Scan.Search.{listed, wifi_scan_start-Found}
use water_dispenser.Wifi.Link.{
  Link, sta_disconnected, sta_got_ip, retry_timer, events, wifi_connect, Provision, wifi_prov,
  result_ok, timeout,
}
use water_dispenser.Wifi.Link.Retry.{Lost, losses-Lost}
use water_dispenser.Wifi.Link.Forsaken.{Idle, wifi_connect-Idle, wifi_prov-answer}
use water_dispenser.Wifi.Link.Judge.{Judged, wifi_prov-Judged}

-- A network named by one letter, with its signal in dBm below 0.
abbrev heard : ℕ → ℕ → ApRecord
heard letter loss = record { ssid = letter ∷ 0 ∷ []; rssi = 256 - loss; authmode = 3; bssid = [] }

abbrev heard_aps : List ApRecord
heard_aps = heard 97 70 ∷ heard 98 50 ∷ heard 97 40 ∷ heard 98 60 ∷ heard 99 80 ∷ []

remove_duplicate_best_rssi-Shortlist_example :
    Shortlist (take 4 heard_aps) (
      take
        (remove_duplicate_best_rssi heard_aps 4).new_count
        (remove_duplicate_best_rssi heard_aps 4).list)
    × (length (remove_duplicate_best_rssi heard_aps 4).list ≡ length heard_aps)
remove_duplicate_best_rssi-Shortlist_example =
    remove_duplicate_best_rssi-Shortlist heard_aps 4 (omega arith) (omega arith)

abbrev scans : List Scan
scans =
    record { ran = true; ap_num = 3; has_memory = true; records = take 3 heard_aps }
    ∷ record { ran = false; ap_num = 0; has_memory = true; records = [] }
    ∷ record { ran = true; ap_num = 2; has_memory = true; records = heard 98 60 ∷ heard 99 80 ∷ [] }
    ∷ []

wifi_scan_start-Found_example :
    Found (ready (take 3 scans)) (fetched (take 3 scans)) (listed (wifi_scan_start true scans))
wifi_scan_start-Found_example = wifi_scan_start-Found scans

abbrev new_link : Link
new_link = record {
  retry_num = 0;
  allow_reconnect = true;
  connected = false;
  failed = false;
  timer_active = false;
  wifi_conn_enable = 0;
  board = record calm_board { led_status = 32768 };
  calls = [];
}

losses-Lost_example : Lost 5 7 new_link (events (replicate 7 sta_disconnected) new_link)
losses-Lost_example = losses-Lost 5 7 new_link refl refl refl

wifi_connect-Idle_example :
    Idle
      (wifi_connect true true
        (97 ∷ [])
        (98 ∷ [])
        (sta_disconnected ∷ [])
        (sta_got_ip ∷ [])
        new_link)
      (events (sta_disconnected ∷ retry_timer ∷ []) (
        wifi_connect true true
          (97 ∷ [])
          (98 ∷ [])
          (sta_disconnected ∷ [])
          (sta_got_ip ∷ [])
          new_link))
wifi_connect-Idle_example =
    wifi_connect-Idle true (97 ∷ []) (98 ∷ []) (sta_disconnected ∷ []) (sta_got_ip ∷ [])
      (sta_disconnected ∷ retry_timer ∷ []) new_link

abbrev pub new_provision : Provision
new_provision = record {
  conn_ssid = [];
  conn_password = [];
  wifi_save_flag = false;
  answers = [];
  link = new_link;
}

wifi_prov-answer_example :
    ((wifi_prov true true
        (97 ∷ [])
        (98 ∷ [])
        (sta_disconnected ∷ [])
        (replicate 9 sta_disconnected)
        new_provision).answers
      ≡ result_ok ∷ [])
    ⊎ ((wifi_prov true true
          (97 ∷ [])
          (98 ∷ [])
          (sta_disconnected ∷ [])
          (replicate 9 sta_disconnected)
          new_provision).answers
        ≡ timeout ∷ [])
wifi_prov-answer_example =
    wifi_prov-answer (97 ∷ []) (98 ∷ []) (sta_disconnected ∷ []) (replicate 9 sta_disconnected)
      new_provision

wifi_prov-Judged_example : Judged 2 true new_provision (
    wifi_prov false true
      (97 ∷ [])
      (98 ∷ [])
      []
      (replicate 2 sta_disconnected ++ (if true then sta_got_ip ∷ [] else []))
      new_provision)
wifi_prov-Judged_example = wifi_prov-Judged 2 true (97 ∷ []) (98 ∷ []) [] new_provision refl
