-- ===== src/App/Steady.antt =====
-- The commands of the app that leave the session (BLE_APP_Command of main/ble/ble_parse.c).
use water_dispenser.Base.{
  ℕ, ◌≡◌, refl, ◌∙◌, inl, inr, Option, none, some, List, Option-cases, either, take, String, codes,
  strcmp_eq, length, ◌==◌, map,
}
use water_dispenser.Wifi.Scan.{wifi_scan_start}
use water_dispenser.Wifi.Link.{judge}
use water_dispenser.App.{Mbedtls}
use water_dispenser.App.Seal.{CJson, ble_send_encrypted_event, field_text}
use water_dispenser.App.Command.{
  Surroundings, App, scan_wifi, text_command, send_event, found_aps, ap_item, env_text, prov_text,
  set_env, connect, result_text, password_of, env_json, prov_json, mtu_info,
}

module _ {E N : Type 0} (tls : Mbedtls E) (json : CJson N) where
  module _ (w : Surroundings) where
    pub event-session :
        (event : String) (plain : List ℕ) (a : App E)
        → (send_event tls json w event plain a).session ≡ a.session
    event-session event plain a =
        elim (Option-cases (ble_send_encrypted_event tls w.can_send w.iv a.session event plain)) [
          | inl e ↦ rw e refl
          | inr (m, e) ↦ rw e refl
        ]

    pub env-session :
        (env : Option (List ℕ)) (a : App E) → (env_text tls json w env a).session ≡ a.session
    env-session none a = refl
    env-session (some env) a =
        event-session "env_ack" (codes "{\"result\":\"ok\"}") (set_env env a)
        ∙ either (λ (x : App E). x.session ≡ a.session) (strcmp_eq env (codes "dev")) _ _ refl
            (either (λ (x : App E). x.session ≡ a.session) (strcmp_eq env (codes "prod")) _ _ refl
              refl)

    pub prov-session :
        (ssid pwd : Option (List ℕ)) (a : App E)
        → (prov_text tls json w ssid pwd a).session ≡ a.session
    prov-session none pwd a = refl
    prov-session (some ssid) pwd a =
        let joined = connect w ssid (password_of tls json w pwd) a in
        event-session "wifi_result" (codes (result_text (judge joined.provision.link))) joined

    pub scan_wifi-session : (a : App E) → (scan_wifi tls json w a).session ≡ a.session
    unfolding scan_wifi
    scan_wifi-session a =
        let aps = found_aps (wifi_scan_start w.can_scan w.scans) in
        elim (Option-cases (json.print_aps (map ap_item (take 10 aps)))) [
          | inl e ↦ rw e (
              either (λ (x : App E). x.session ≡ a.session) (length aps == 0) _ _
                (event-session "wifi_list" (codes "{\"aps\":[]}") a) refl)
          | inr (p, e) ↦ rw e (event-session "wifi_list" p a)
        ]

    pub env_json-session :
        (root : Option N) (a : App E) → (env_json tls json w root a).session ≡ a.session
    env_json-session none a = refl
    env_json-session (some root) a =
        env-session (field_text json (json.get_object_item root "env")) a

    pub prov_json-session :
        (root : Option N) (a : App E) → (prov_json tls json w root a).session ≡ a.session
    prov_json-session none a = refl
    prov_json-session (some root) a =
        prov-session (field_text json (json.get_object_item root "ssid"))
          (field_text json (json.get_object_item root "pwd")) a

    pub mtu_info-session : (value : Option ℕ) (a : App E) → (mtu_info value a).session ≡ a.session
    mtu_info-session none a = refl
    mtu_info-session (some value) a = refl

    pub text_command-session :
        (buf : List ℕ) (a : App E) → (text_command tls json w buf a).session ≡ a.session
    unfolding text_command
    text_command-session buf a =
        either (λ (x : App E). x.session ≡ a.session) (strcmp_eq buf (codes "OTA")) _ _ refl
          (either (λ (x : App E). x.session ≡ a.session) (strcmp_eq buf (codes "OTA1")) _ _ refl
            (either (λ (x : App E). x.session ≡ a.session) (strcmp_eq buf (codes "HX711")) _ _ refl
              refl))
