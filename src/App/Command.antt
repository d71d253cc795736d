-- ===== src/App/Command.antt =====
-- BLE_APP_Command of main/ble/ble_parse.c: the commands of the app. `none` stands for the read of a
-- string that an item does not have, where the device restarts. Calls are logged, the latest first.
use water_dispenser.Base.{
  ℕ, Bool, Option, none, some, List, [], ◌∷◌, map, u16, take, length, ◌==◌, String, codes,
  strcmp_eq, c_string, if◌then◌else◌,
}
use water_dispenser.Wifi.Scan.{ApRecord, Scan, wifi_scan_start}
use water_dispenser.Wifi.Link.{
  Event, Provision, Answer, result_ok, auth_fail, timeout, judge, wifi_prov,
}
use water_dispenser.App.{
  Mbedtls, Session, ble_crypto_init_and_get_pubkey, ble_crypto_compute_session_key,
}
use water_dispenser.App.Seal.{
  ApItem, CJson, Decrypted, crash, refused, plaintext, Message, key_exchange_ack, plain_text,
  field_text, ble_decrypt_json_data, ble_send_encrypted_event,
}

pub data Call : Type 0 where
  ble_send_data_to_queue : Message → Call
  ota_main : (url : String) → Call

pub record App (E : Type 0) : Type 0 where
  pub session : Session E
  pub max_payload : ℕ  -- g_ble_max_payload
  pub env_mode : List ℕ  -- of app_config_t, a string
  pub provision : Provision
  pub calls : List Call

-- What the system gives during one command: random numbers, memory, what the Wi-Fi driver does
-- (as for wifi_scan_start and Wifi_Connect), and the weight as a text.
pub record Surroundings : Type 0 where
  pub seed : ℕ
  pub iv : List ℕ
  pub can_decrypt : Bool
  pub can_send : Bool
  pub can_scan : Bool
  pub scans : List Scan
  pub known : Bool
  pub accepted : Bool
  pub pause : List Event
  pub waiting : List Event
  pub weight : List ℕ

-- The names of the modes of `wifi_auth_mode_t`.
abbrev pub auth_str : ℕ → String
auth_str mode =
    if mode == 1
    then "wep"
    else if mode == 2
    then "wpa"
    else if mode == 3
    then "wpa2"
    else if mode == 4
    then "wpa2"
    else if mode == 6
    then "wpa3"
    else if mode == 7
    then "wpa3"
    else "open"

abbrev pub ap_item : ApRecord → ApItem
ap_item ap = record { ssid = c_string ap.ssid; rssi = ap.rssi; auth = auth_str ap.authmode }

abbrev pub found_aps : Option (List ApRecord) → List ApRecord
found_aps none = []
found_aps (some list) = list

-- "ok", "auth_fail" and "timeout".
abbrev pub result_text : Answer → String
result_text result_ok = "{\"result\":\"ok\"}"
result_text auth_fail = "{\"result\":\"auth_fail\"}"
result_text timeout = "{\"result\":\"timeout\"}"

module _ {E : Type 0} where
  abbrev pub log : Call → App E → App E
  log c a = record a { calls = c ∷ a.calls }

  abbrev pub log_message : Option Message → App E → App E
  log_message none a = a
  log_message (some m) a = log (ble_send_data_to_queue m) a

  abbrev pub mtu_info : Option ℕ → App E → App E
  mtu_info none a = a
  mtu_info (some value) a = record a { max_payload = u16 value }

  abbrev pub set_env : List ℕ → App E → App E
  set_env env a =
      if strcmp_eq env (codes "dev")
      then record a { env_mode = codes "dev" }
      else if strcmp_eq env (codes "prod")
      then record a { env_mode = codes "prod" }
      else a

  abbrev pub connect : Surroundings → (ssid pwd : List ℕ) → App E → App E
  connect w ssid pwd a = record a {
    provision = wifi_prov w.known w.accepted ssid pwd w.pause w.waiting a.provision;
  }

module _ {E N : Type 0} (tls : Mbedtls E) (json : CJson N) (w : Surroundings) where
  abbrev pub send_event : String → List ℕ → App E → App E
  send_event event_type plain a =
      log_message (ble_send_encrypted_event tls w.can_send w.iv a.session event_type plain) a

  -- `item(root, "data")` and the item in it.
  abbrev pub data_item : Option N → String → Option N
  data_item none name = none
  data_item (some data_obj) name = json.get_object_item data_obj name

  abbrev pub number_of : Option N → Option ℕ
  number_of none = none
  number_of (some item) = json.valueint item

  -- The device's key was made: the session key is computed, and the answer is sent in any case.
  abbrev pub answered : List ℕ → Session E × Option (List ℕ) → App E → App E
  answered app_pub_key (s, none) a = record a { session = s }
  answered app_pub_key (s, some dev_pub_key) a =
      log (ble_send_data_to_queue (key_exchange_ack dev_pub_key))
        (record a { session = ble_crypto_compute_session_key tls app_pub_key s })

  unfoldable pub key_exchange : Option (List ℕ) → App E → App E
  key_exchange none a = a
  key_exchange (some app_pub_key) a =
      answered app_pub_key (ble_crypto_init_and_get_pubkey tls w.seed 64) a

  abbrev pub env_text : Option (List ℕ) → App E → App E
  env_text none a = a
  env_text (some env) a = send_event "env_ack" (codes "{\"result\":\"ok\"}") (set_env env a)

  abbrev pub env_json : Option N → App E → App E
  env_json none a = a
  env_json (some root) a = env_text (field_text json (json.get_object_item root "env")) a

  abbrev pub with_env : Decrypted → App E → Option (App E)
  with_env crash a = none
  with_env refused a = some a
  with_env (plaintext plain) a = some (env_json (json.parse plain) a)

  -- The print of an empty list fails only for want of memory, and then its text is sent as it is.
  abbrev pub send_aps : ℕ → Option (List ℕ) → App E → App E
  send_aps count none a = if count == 0 then send_event "wifi_list" (codes "{\"aps\":[]}") a else a
  send_aps count (some plain) a = send_event "wifi_list" plain a

  unfoldable pub scan_wifi : App E → App E
  scan_wifi a =
      let aps = found_aps (wifi_scan_start w.can_scan w.scans) in
      send_aps (length aps) (json.print_aps (map ap_item (take 10 aps))) a

  abbrev pub password_of : Option (List ℕ) → List ℕ
  password_of none = []
  password_of (some pwd) = pwd

  abbrev pub prov_text : (ssid pwd : Option (List ℕ)) → App E → App E
  prov_text none pwd a = a
  prov_text (some ssid) pwd a =
      let joined = connect w ssid (password_of pwd) a in
      send_event "wifi_result" (codes (result_text (judge joined.provision.link))) joined

  abbrev pub prov_json : Option N → App E → App E
  prov_json none a = a
  prov_json (some root) a =
      prov_text (field_text json (json.get_object_item root "ssid"))
        (field_text json (json.get_object_item root "pwd")) a

  abbrev pub with_prov : Decrypted → App E → Option (App E)
  with_prov crash a = none
  with_prov refused a = some a
  with_prov (plaintext plain) a = some (prov_json (json.parse plain) a)

  -- `data_obj` is `data` of the command.
  unfoldable pub json_command :
      (event_type : List ℕ) → (data_obj : Option N) → App E → Option (App E)
  json_command event_type data_obj a =
      let opened = ble_decrypt_json_data tls json w.can_decrypt a.session data_obj in
      if strcmp_eq event_type (codes "mtu_info")
      then some (mtu_info (number_of (data_item data_obj "max_payload")) a)
      else if strcmp_eq event_type (codes "key_exchange")
      then some (key_exchange (field_text json (data_item data_obj "pub_key")) a)
      else if strcmp_eq event_type (codes "set_env")
      then with_env opened a
      else if strcmp_eq event_type (codes "scan_wifi")
      then some (scan_wifi a)
      else if strcmp_eq event_type (codes "wifi_prov")
      then with_prov opened a
      else some a

  abbrev pub event_command : Option (List ℕ) → (data_obj : Option N) → App E → Option (App E)
  event_command none data_obj a = some a
  event_command (some event_type) data_obj a = json_command event_type data_obj a

  -- OTA_URL and OTA_URL1.
  unfoldable pub text_command : List ℕ → App E → App E
  text_command buf a =
      if strcmp_eq buf (codes "OTA")
      then log (ota_main "https://evtago.s3.ap-northeast-2.amazonaws.com/water-dispenser-c3.bin") a
      else if strcmp_eq buf (codes "OTA1")
      then log (ota_main "https://evtago.s3.ap-northeast-2.amazonaws.com/water-dispenser-c3-v1.bin")
          a
      else if strcmp_eq buf (codes "HX711")
      then log (ble_send_data_to_queue (plain_text w.weight)) a
      else a

  abbrev pub parsed_command : List ℕ → Option N → App E → Option (App E)
  parsed_command buf none a = some (text_command buf a)
  parsed_command buf (some root) a =
      event_command (field_text json (json.get_object_item root "event_type"))
        (json.get_object_item root "data") a

  -- The buffer has 256 bytes, so 255 bytes of the packet are read.
  unfoldable pub ble_app_command : List ℕ → App E → Option (App E)
  ble_app_command packet a =
      let buf = c_string (take 255 packet) in parsed_command buf (json.parse buf) a
