-- ===== src/App.antt =====
-- The session with the app (main/crypto/ble_crypto.c): the exchange of keys, and the two functions
-- that the code has to decrypt and to encrypt under a key that was agreed. mbedTLS is a parameter.
pub mod Seal
pub mod Command
pub mod Transmit
pub mod Laws
pub mod Handshake
pub mod Sealed
pub mod Steady
pub mod Secret
pub mod Authentic
pub mod Gate
pub mod Forgets
pub mod Chunks
use water_dispenser.Base.{
  ℕ, Bool, true, false, ◌&&◌, ◌||◌, not, Option, none, some, List, [], ◌∷◌, length, replicate, ◌==◌,
  if◌then◌else◌,
}

-- What mbedtls_base64_encode and mbedtls_base64_decode leave: whether they return 0, and the bytes of
-- the caller's buffer up to the length that they tell.
pub record Coded : Type 0 where
  pub done : Bool
  pub bytes : List ℕ

-- The operations of mbedTLS that the code calls; `none` is an error. `E` is mbedtls_ecdh_context.
pub record Mbedtls (E : Type 0) : Type 0 where
  pub ecdh_init : E
  pub ecdh_setup : E → Option E  -- with Curve25519
  pub ecdh_make_public : ℕ → E → Option (E × List ℕ)  -- with a seed for the random numbers
  pub ecdh_read_public : List ℕ → E → Option E
  pub ecdh_calc_secret : E → Option (List ℕ)
  pub ecdh_free : E → E
  pub hkdf : List ℕ → Option (List ℕ)  -- with SHA-256, to 32 bytes; an error leaves the output
  pub base64_encode : (room : ℕ) → List ℕ → Coded
  pub base64_decode : (room : ℕ) → List ℕ → Coded
  pub gcm_crypt_and_tag : (key iv plain : List ℕ) → List ℕ × List ℕ  -- the ciphertext and the tag
  pub gcm_auth_decrypt : (key iv tag cipher : List ℕ) → Option (List ℕ)

-- `ble_session_t`.
pub record Session (E : Type 0) : Type 0 where
  pub ecdh : E
  pub session_key : List ℕ
  pub is_encrypted : Bool

abbrev pub zero_key : List ℕ
zero_key = replicate 32 0

-- Step 3: the 32 bytes of the key in the buffer of the library.
abbrev pub raw_pubkey : List ℕ → Option (List ℕ)
raw_pubkey [] = none
raw_pubkey (b ∷ bs) =
    if (length bs == 32) && (b == 32)
    then some bs
    else if not (length (b ∷ bs) == 32)
    then none
    else some (b ∷ bs)

-- The results of ble_crypto_decrypt and ble_crypto_encrypt.
pub data Outcome (A : Type 0) : Type 0 where
  esp_ok : A → Outcome A
  esp_fail : Outcome A
  esp_err_invalid_state : Outcome A

module _ {E : Type 0} (tls : Mbedtls E) where
  -- The session after the memset.
  abbrev pub cleared : Session E
  cleared = record { ecdh = tls.ecdh_init; session_key = zero_key; is_encrypted = false }

  abbrev pub text_of : Coded → Option (List ℕ)
  text_of c = if c.done then some c.bytes else none

  abbrev pub pubkey_text : ℕ → Option (List ℕ) → Option (List ℕ)
  pubkey_text max_len none = none
  pubkey_text max_len (some raw) = text_of (tls.base64_encode max_len raw)

  abbrev pub made : ℕ → Session E → Option (E × List ℕ) → Session E × Option (List ℕ)
  made max_len s none = (s, none)
  made max_len s (some (e, out)) = (record s { ecdh = e }, pubkey_text max_len (raw_pubkey out))

  abbrev pub set_up : (seed max_len : ℕ) → Option E → Session E × Option (List ℕ)
  set_up seed max_len none = (cleared, none)
  set_up seed max_len (some e) =
      made max_len (record cleared { ecdh = e }) (tls.ecdh_make_public seed e)

  -- The session and the text of the public key; `none` is ESP_FAIL.
  unfoldable pub ble_crypto_init_and_get_pubkey : (seed max_len : ℕ) → Session E × Option (List ℕ)
  ble_crypto_init_and_get_pubkey seed max_len = set_up seed max_len (tls.ecdh_setup tls.ecdh_init)

  abbrev pub keyed : Session E → Option (List ℕ) → Session E
  keyed s none = s
  keyed s (some key) = record {
    ecdh = tls.ecdh_free s.ecdh;
    session_key = key;
    is_encrypted = true;
  }

  abbrev pub derived : Session E → Option (List ℕ) → Session E
  derived s none = s
  derived s (some secret) = if not (length secret == 32) then s else keyed s (tls.hkdf secret)

  abbrev pub met : Session E → Option E → Session E
  met s none = s
  met s (some e) = derived (record s { ecdh = e }) (tls.ecdh_calc_secret e)

  -- The callers do not read the result, which is ESP_OK where the session is encrypted.
  unfoldable pub ble_crypto_compute_session_key : List ℕ → Session E → Session E
  ble_crypto_compute_session_key text s =
      let raw = tls.base64_decode 32 text in
      if not raw.done || not (length raw.bytes == 32)
      then s
      else met s (tls.ecdh_read_public (32 ∷ raw.bytes) s.ecdh)

  abbrev pub outcome : {A : Type 0} → Option A → Outcome A
  outcome none = esp_fail
  outcome (some a) = esp_ok a

  unfoldable pub ble_crypto_decrypt : Session E → (cipher iv tag : List ℕ) → Outcome (List ℕ)
  ble_crypto_decrypt s cipher iv tag =
      if not s.is_encrypted
      then esp_err_invalid_state
      else outcome (tls.gcm_auth_decrypt s.session_key iv tag cipher)

  -- The ciphertext and the tag; `iv` is what esp_fill_random gives.
  unfoldable pub ble_crypto_encrypt : Session E → (plain iv : List ℕ) → Outcome (List ℕ × List ℕ)
  ble_crypto_encrypt s plain iv =
      if not s.is_encrypted
      then esp_err_invalid_state
      else esp_ok (tls.gcm_crypt_and_tag s.session_key iv plain)
