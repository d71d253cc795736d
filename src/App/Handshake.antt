-- ===== src/App/Handshake.antt =====
-- The exchange of keys (`key_exchange` of BLE_APP_Command and main/crypto/ble_crypto.c) between two
-- sides that run the same code: they end with one key.
use water_dispenser.Base.{
  ℕ, ◌+◌, ◌*◌, ◌/◌, ◌≤◌, ◌≡◌, refl, ap, true, false, some, List, ◌∷◌, length, arith,
}
use water_dispenser.App.{
  Mbedtls, Session, zero_key, raw_pubkey, ble_crypto_init_and_get_pubkey,
  ble_crypto_compute_session_key,
}
use water_dispenser.App.Seal.{CJson, key_exchange_ack}
use water_dispenser.App.Command.{Surroundings, App, ble_send_data_to_queue, key_exchange}
use water_dispenser.App.Laws.{Base64, Curve}

raw_pubkey_lem : (bs : List ℕ) → length bs ≡ 32 → raw_pubkey (32 ∷ bs) ≡ some bs
raw_pubkey_lem bs h = rw h refl

module _ {E : Type 0} (tls : Mbedtls E) (base64 : Base64 tls) (c : Curve tls) where
  -- The text of the public key of a seed.
  abbrev pub public_text : ℕ → List ℕ
  public_text seed = (tls.base64_encode 64 (c.public seed)).bytes

  abbrev own_session : ℕ → Session E
  own_session seed = record { ecdh = c.own seed; session_key = zero_key; is_encrypted = false }

  public_room : (seed : ℕ) → 4 * ((length (c.public seed) + 2) / 3) + 1 ≤ 64
  public_room seed = rw (c.public_length seed) (omega arith)

  pub init_lem :
      (seed : ℕ)
      → ble_crypto_init_and_get_pubkey tls seed 64 ≡ (own_session seed, some (public_text seed))
  unfolding ble_crypto_init_and_get_pubkey
  init_lem seed =
      rw
        (
          c.set_up,
          c.made seed,
          raw_pubkey_lem (c.public seed) (c.public_length seed),
          base64.encoded 64 (c.public seed) (public_room seed),
        )
        refl

  pub compute_lem :
      (mine other : ℕ)
      → ble_crypto_compute_session_key tls (public_text other) (own_session mine) ≡ record {
        ecdh = tls.ecdh_free (c.met mine other);
        session_key = c.derive (c.shared mine other);
        is_encrypted = true;
      }
  unfolding ble_crypto_compute_session_key
  compute_lem mine other =
      rw
        (
          base64.decoded 64 32 (c.public other) (public_room other)
              (rw (c.public_length other) (omega arith)),
          c.public_length other,
          c.read mine other,
          c.calculated mine other,
          c.shared_length mine other,
          c.derived (c.shared mine other) (c.shared_length mine other),
        )
        refl

-- Two sessions with one key.
pub record Agreed {E : Type 0} (s t : Session E) : Type 0 where
  pub same_key : s.session_key ≡ t.session_key
  pub encrypted : s.is_encrypted ≡ true
  pub encrypted_too : t.is_encrypted ≡ true

-- After a command `key_exchange`: what is sent, and what is left as it was.
pub record Acknowledged {E : Type 0} (pub_key : List ℕ) (before after : App E) : Type 0 where
  pub answer : after.calls ≡ ble_send_data_to_queue (key_exchange_ack pub_key) ∷ before.calls
  pub same_env : after.env_mode ≡ before.env_mode
  pub same_provision : after.provision ≡ before.provision

module _ {E N : Type 0} (tls : Mbedtls E) (base64 : Base64 tls) (c : Curve tls)
    (json : CJson N) where
  pub key_exchange_lem :
      (w : Surroundings) (other : ℕ) (a : App E)
      → key_exchange tls json w (some (public_text tls base64 c other)) a ≡ record a {
        session = record {
          ecdh = tls.ecdh_free (c.met w.seed other);
          session_key = c.derive (c.shared w.seed other);
          is_encrypted = true;
        };
        calls =
            ble_send_data_to_queue (key_exchange_ack (public_text tls base64 c w.seed)) ∷ a.calls;
      }
  unfolding key_exchange
  key_exchange_lem w other a =
      rw (init_lem tls base64 c w.seed, compute_lem tls base64 c w.seed other) refl

  -- Two devices that each answer the public key which the other sends, whatever their sessions were,
  -- end with the same session key, and each has sent its public key and changed no setting. The
  -- parameters are mbedTLS as documented, where no call fails.
  pub key_exchange-Agreed :
      (w w' : Surroundings) (a b : App E)
      → Agreed
          (key_exchange tls json w (some (public_text tls base64 c w'.seed)) a).session
          (key_exchange tls json w' (some (public_text tls base64 c w.seed)) b).session
        × Acknowledged
            (public_text tls base64 c w.seed)
            a
            (key_exchange tls json w (some (public_text tls base64 c w'.seed)) a)
        × Acknowledged
            (public_text tls base64 c w'.seed)
            b
            (key_exchange tls json w' (some (public_text tls base64 c w.seed)) b)
  key_exchange-Agreed w w' a b =
      rw (key_exchange_lem w w'.seed a, key_exchange_lem w' w.seed b)
        (
          record {
            same_key = ap c.derive (c.shared_comm w.seed w'.seed);
            encrypted = refl;
            encrypted_too = refl;
          },
          record { answer = refl; same_env = refl; same_provision = refl },
          record { answer = refl; same_env = refl; same_provision = refl },
        )
