-- ===== src/App/Secret.antt =====
-- The session key (main/crypto/ble_crypto.c) over any run of the app's commands: it is 32 zero bytes
-- or derived from a shared secret, and is_encrypted tells which.
use water_dispenser.Base.{
  ℕ, ◌≡◌, refl, inl, inr, true, false, ◌||◌, not, Option, none, some, List, [], ◌∷◌, Bool-cases,
  Option-cases, either, take, c_string, codes, strcmp_eq, length, ◌==◌, ==_iff,
}
use water_dispenser.App.{
  Mbedtls, Session, zero_key, keyed, ble_crypto_init_and_get_pubkey, ble_crypto_compute_session_key,
}
use water_dispenser.App.Seal.{
  CJson, Decrypted, crash, refused, plaintext, field_text, ble_decrypt_json_data,
}
use water_dispenser.App.Steady.{
  env_json-session, prov_json-session, mtu_info-session, text_command-session, scan_wifi-session,
}
use water_dispenser.App.Command.{
  Surroundings, App, key_exchange, json_command, ble_app_command, with_env, with_prov,
  event_command, parsed_command, number_of, data_item,
}

-- Where the key of a session comes from.
pub data Keyed {E : Type 0} (tls : Mbedtls E) (s : Session E) : Type 0 where
  not_agreed : s.is_encrypted ≡ false → s.session_key ≡ zero_key → Keyed tls s
  agreed :
      (secret : List ℕ)
      → s.is_encrypted ≡ true
      → length secret ≡ 32
      → tls.hkdf secret ≡ some s.session_key
      → Keyed tls s

abbrev IsFresh : {E : Type 0} → Session E → Type 0
IsFresh s = (s.is_encrypted ≡ false) × (s.session_key ≡ zero_key)

module _ {E : Type 0} (tls : Mbedtls E) where
  -- A session that has just begun.
  init-IsFresh : (seed room : ℕ) → IsFresh (ble_crypto_init_and_get_pubkey tls seed room).0
  unfolding ble_crypto_init_and_get_pubkey
  init-IsFresh seed room = elim (Option-cases (tls.ecdh_setup tls.ecdh_init)) [
    | inl e ↦ rw e (refl, refl)
    | inr (curve, e) ↦ rw e (elim (Option-cases (tls.ecdh_make_public seed curve)) [
      | inl f ↦ rw f (refl, refl)
      | inr (pair, f) ↦ rw f (refl, refl)
    ])
  ]

  derived-Keyed :
      (s : Session E) (secret : List ℕ)
      → Keyed tls s
      → length secret ≡ 32
      → Keyed tls (keyed tls s (tls.hkdf secret))
  derived-Keyed s secret k h = elim (Option-cases (tls.hkdf secret)) [
    | inl e ↦ rw e k
    | inr (key, e) ↦ rw e (agreed secret refl h e)
  ]

  compute-Keyed :
      (text : List ℕ) (s : Session E)
      → s.is_encrypted ≡ false
      → s.session_key ≡ zero_key
      → Keyed tls (ble_crypto_compute_session_key tls text s)
  unfolding ble_crypto_compute_session_key
  compute-Keyed text s hs hk =
      let raw = tls.base64_decode 32 text in
      either (Keyed tls) (not raw.done || not (length raw.bytes == 32)) _ _ (not_agreed hs hk)
        (elim (Option-cases (tls.ecdh_read_public (32 ∷ raw.bytes) s.ecdh)) [
          | inl e ↦ rw e (not_agreed hs hk)
          | inr (met, e) ↦ rw e (elim (Option-cases (tls.ecdh_calc_secret met)) [
            | inl f ↦ rw f (not_agreed hs hk)
            | inr (secret, f) ↦ rw f (elim (Bool-cases (length secret == 32)) [
              | inl g ↦ rw g (
                  derived-Keyed (record s { ecdh = met }) secret (not_agreed hs hk)
                    ((==_iff (length secret) 32).0 g))
              | inr g ↦ rw g (not_agreed hs hk)
            ])
          ])
        ])

-- A property of the state where the device goes on.
abbrev pub Holds : {E : Type 0} → (App E → Type 0) → Option (App E) → Type 0
Holds P none = Unit
Holds P (some a) = P a

-- What follows a result with a state.
abbrev pub continue : {E : Type 0} → Option (App E) → (App E → Option (App E)) → Option (App E)
continue none f = none
continue (some a) f = f a

continue-Holds :
    {E : Type 0} (P Q : App E → Type 0) (o : Option (App E)) (f : App E → Option (App E))
    → ((a : App E) → P a → Holds Q (f a))
    → Holds P o
    → Holds Q (continue o f)
continue-Holds P Q none f step h = tt
continue-Holds P Q (some a) f step h = step a h

module _ {E N : Type 0} (tls : Mbedtls E) (json : CJson N) where
  -- A run of commands, each with its surroundings.
  unfoldable pub app_commands : List (Surroundings × List ℕ) → App E → Option (App E)
  unfolding ble_app_command
  app_commands [] a = some a
  app_commands ((w, packet) ∷ cs) a =
      continue (ble_app_command tls json w packet a) (λ x. app_commands cs x)

  module _ (w : Surroundings) (a : App E) (k : Keyed tls a.session) where
    unchanged : {s : Session E} → s ≡ a.session → Keyed tls s
    unchanged e = rw e k

    exchange-Keyed : (text : Option (List ℕ)) → Keyed tls (key_exchange tls json w text a).session
    unfolding key_exchange
    exchange-Keyed none = k
    exchange-Keyed (some key) =
        let f = init-IsFresh tls w.seed 64 in
        elim (Option-cases (ble_crypto_init_and_get_pubkey tls w.seed 64).1) [
          | inl e ↦ rw e (not_agreed f.0 f.1)
          | inr (p, e) ↦
              rw e (compute-Keyed tls key (ble_crypto_init_and_get_pubkey tls w.seed 64).0 f.0 f.1)
        ]

    env-Holds : (d : Decrypted) → Holds (λ x. Keyed tls x.session) (with_env tls json w d a)
    env-Holds crash = tt
    env-Holds refused = k
    env-Holds (plaintext p) = unchanged (env_json-session tls json w (json.parse p) a)

    prov-Holds : (d : Decrypted) → Holds (λ x. Keyed tls x.session) (with_prov tls json w d a)
    prov-Holds crash = tt
    prov-Holds refused = k
    prov-Holds (plaintext p) = unchanged (prov_json-session tls json w (json.parse p) a)

    event-Holds :
        (event : List ℕ) (data_obj : Option N)
        → Holds (λ x. Keyed tls x.session) (json_command tls json w event data_obj a)
    unfolding json_command
    event-Holds event data_obj =
        let P : Option (App E) → Type 0 = Holds (λ x. Keyed tls x.session) in
        let opened = ble_decrypt_json_data tls json w.can_decrypt a.session data_obj in
        either P (strcmp_eq event (codes "mtu_info")) _ _
          (unchanged (
            mtu_info-session tls json w
              (number_of tls json w (data_item tls json w data_obj "max_payload")) a))
          (either P (strcmp_eq event (codes "key_exchange")) _ _
            (exchange-Keyed (field_text json (data_item tls json w data_obj "pub_key")))
            (either P (strcmp_eq event (codes "set_env")) _ _ (env-Holds opened) (
              either P (strcmp_eq event (codes "scan_wifi")) _ _
                (unchanged (scan_wifi-session tls json w a))
                (either P (strcmp_eq event (codes "wifi_prov")) _ _ (prov-Holds opened) k))))

    command-Holds :
        (event : Option (List ℕ)) (data_obj : Option N)
        → Holds (λ x. Keyed tls x.session) (event_command tls json w event data_obj a)
    command-Holds none data_obj = k
    command-Holds (some event) data_obj = event-Holds event data_obj

    parsed-Holds :
        (buf : List ℕ) (root : Option N)
        → Holds (λ x. Keyed tls x.session) (parsed_command tls json w buf root a)
    parsed-Holds buf none = unchanged (text_command-session tls json w buf a)
    parsed-Holds buf (some root) =
        command-Holds (field_text json (json.get_object_item root "event_type"))
          (json.get_object_item root "data")

    packet-Holds :
        (packet : List ℕ) → Holds (λ x. Keyed tls x.session) (ble_app_command tls json w packet a)
    unfolding ble_app_command
    packet-Holds packet = let buf = c_string (take 255 packet) in parsed-Holds buf (json.parse buf)

  -- Over any run of packets from the app the session's key stays 32 zero bytes where is_encrypted is
  -- false, and else what HKDF made of a shared secret of 32 bytes, if it was so before. Nothing is
  -- assumed of mbedTLS.
  pub app_commands-Keyed :
      (cs : List (Surroundings × List ℕ)) (a : App E)
      → Keyed tls a.session
      → Holds (λ x. Keyed tls x.session) (app_commands cs a)
  unfolding app_commands
  app_commands-Keyed [] a k = k
  app_commands-Keyed ((w, packet) ∷ cs) a k =
      continue-Holds (λ x. Keyed tls x.session) (λ x. Keyed tls x.session)
        (ble_app_command tls json w packet a) (λ x. app_commands cs x)
        (λ x h. app_commands-Keyed cs x h) (packet-Holds w a k packet)
