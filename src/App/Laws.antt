-- ===== src/App/Laws.antt =====
-- What the documentation of mbedTLS and of cJSON says of the calls of main/crypto/ble_crypto.c and
-- of main/ble/ble_parse.c, where no call runs out of memory.
use water_dispenser.Base.{ℕ, ◌+◌, ◌*◌, ◌/◌, ◌≤◌, ◌≡◌, true, some, List, ◌∷◌, length}
use water_dispenser.App.{Mbedtls}
use water_dispenser.App.Seal.{CJson, field_text}

-- Base64 writes 4 letters for every 3 bytes begun, and a 0 behind them.
pub record Base64 {E : Type 0} (tls : Mbedtls E) : Type 0 where
  pub encoded :
      (room : ℕ) (bytes : List ℕ)
      → 4 * ((length bytes + 2) / 3) + 1 ≤ room
      → (tls.base64_encode room bytes).done ≡ true
  pub encoded_length :
      (room : ℕ) (bytes : List ℕ)
      → 4 * ((length bytes + 2) / 3) + 1 ≤ room
      → length (tls.base64_encode room bytes).bytes ≡ 4 * ((length bytes + 2) / 3)
  pub decoded :
      (room room' : ℕ) (bytes : List ℕ)
      → 4 * ((length bytes + 2) / 3) + 1 ≤ room
      → length bytes ≤ room'
      → tls.base64_decode room' (tls.base64_encode room bytes).bytes
        ≡ record { done = true; bytes = bytes }

-- AES-GCM with a tag of 16 bytes.
pub record Gcm {E : Type 0} (tls : Mbedtls E) : Type 0 where
  pub cipher_length :
      (key iv plain : List ℕ) → length (tls.gcm_crypt_and_tag key iv plain).0 ≡ length plain
  pub tag_length : (key iv plain : List ℕ) → length (tls.gcm_crypt_and_tag key iv plain).1 ≡ 16
  pub decrypted :
      (key iv plain : List ℕ)
      → tls.gcm_auth_decrypt key iv
          (tls.gcm_crypt_and_tag key iv plain).1
          (tls.gcm_crypt_and_tag key iv plain).0
        ≡ some plain

-- Curve25519: a seed of the random numbers fixes a pair of keys. `own` is the context with the
-- pair, `met` the one that has also read another's public key.
pub record Curve {E : Type 0} (tls : Mbedtls E) : Type 0 where
  pub curve : E
  pub own : ℕ → E
  pub public : ℕ → List ℕ
  pub met : (mine other : ℕ) → E
  pub shared : (mine other : ℕ) → List ℕ
  pub derive : List ℕ → List ℕ
  pub set_up : tls.ecdh_setup tls.ecdh_init ≡ some curve
  pub made : (seed : ℕ) → tls.ecdh_make_public seed curve ≡ some (own seed, 32 ∷ public seed)
  pub public_length : (seed : ℕ) → length (public seed) ≡ 32
  pub read :
      (mine other : ℕ) → tls.ecdh_read_public (32 ∷ public other) (own mine) ≡ some (met mine other)
  pub calculated :
      (mine other : ℕ) → tls.ecdh_calc_secret (met mine other) ≡ some (shared mine other)
  pub shared_length : (mine other : ℕ) → length (shared mine other) ≡ 32
  pub shared_comm : (mine other : ℕ) → shared mine other ≡ shared other mine
  pub derived : (secret : List ℕ) → length secret ≡ 32 → tls.hkdf secret ≡ some (derive secret)

-- The item `data` of a command has these three texts.
pub record Carries {N : Type 0} (json : CJson N) (data_obj : N) (iv ciphertext tag : List ℕ)
    : Type 0 where
  pub has_iv : field_text json (json.get_object_item data_obj "iv") ≡ some iv
  pub has_ciphertext :
      field_text json (json.get_object_item data_obj "ciphertext") ≡ some ciphertext
  pub has_tag : field_text json (json.get_object_item data_obj "tag") ≡ some tag
