-- ===== src/App/Forgets.antt =====
-- A `key_exchange` whose public key is not 32 bytes in Base64 (BLE_APP_Command of
-- main/ble/ble_parse.c and ble_crypto_compute_session_key of main/crypto/ble_crypto.c).
use water_dispenser.Base.{
  ℕ, ◌≡◌, ◌≢◌, ◌⊎◌, refl, sym, ◌∙◌, false, some, List, ◌∷◌, length, String, arith, ◌==◌, Bool-cases,
  inl, inr,
}
use water_dispenser.App.{Mbedtls, Session, zero_key, ble_crypto_compute_session_key}
use water_dispenser.App.Seal.{CJson, key_exchange_ack}
use water_dispenser.App.Command.{Surroundings, App, ble_send_data_to_queue, key_exchange}
use water_dispenser.App.Laws.{Base64, Gcm, Curve}
use water_dispenser.App.Handshake.{public_text, init_lem}
use water_dispenser.App.Sealed.{Carried, event-Carried}

-- What the decoder makes of the text is no key.
abbrev pub NoKey : {E : Type 0} → Mbedtls E → List ℕ → Type 0
NoKey tls text =
    ((tls.base64_decode 32 text).done ≡ false) ⊎ (length (tls.base64_decode 32 text).bytes ≢ 32)

-- The session of before is lost, its key is 32 zero bytes, and the app is told as of a success.
pub record Forgotten {E : Type 0} (pub_key : List ℕ) (before after : App E) : Type 0 where
  pub key : after.session.session_key ≡ zero_key
  pub encrypted : after.session.is_encrypted ≡ false
  pub answer : after.calls ≡ ble_send_data_to_queue (key_exchange_ack pub_key) ∷ before.calls

module _ {E N : Type 0} (tls : Mbedtls E) (json : CJson N) (base64 : Base64 tls)
    (c : Curve tls) where
  NoKey-refused :
      (text : List ℕ) (s : Session E)
      → NoKey tls text
      → ble_crypto_compute_session_key tls text s ≡ s
  unfolding ble_crypto_compute_session_key
  NoKey-refused text s (inl h) = rw h refl
  NoKey-refused text s (inr h) =
      let size = (tls.base64_decode 32 text).bytes in
      let other : (length size == 32) ≡ false = ground arith in
      elim (Bool-cases (tls.base64_decode 32 text).done) [
        | inl e ↦ rw (e, other) refl
        | inr e ↦ rw e refl
      ]

  -- After a `key_exchange` with a text that is no public key, the session of before is lost: the
  -- session's key is 32 zero bytes. The answer is the one of an exchange that succeeded. The other
  -- calls of mbedTLS do not fail.
  pub key_exchange-Forgotten :
      (w : Surroundings) (text : List ℕ) (a : App E)
      → NoKey tls text
      → Forgotten (public_text tls base64 c w.seed) a (key_exchange tls json w (some text) a)
  unfolding key_exchange
  key_exchange-Forgotten w text a h =
      rw (init_lem tls base64 c w.seed, NoKey-refused text _ h)
        (record { key = refl; encrypted = refl; answer = refl })

  -- After a `key_exchange` with a text that is no public key, the device reads what anyone has
  -- encrypted under 32 zero bytes, as if it came from the app. There is memory, and mbedTLS is as
  -- documented.
  pub key_exchange-forged :
      (gcm : Gcm tls) (w : Surroundings) (text : List ℕ) (a : App E) (anyone : Session E)
      (iv : List ℕ) (event : String) (plain : List ℕ)
      → NoKey tls text
      → anyone.session_key ≡ zero_key
      → length iv ≡ 12
      → Carried tls json anyone (key_exchange tls json w (some text) a).session iv event plain
  key_exchange-forged gcm w text a anyone iv event plain h zero size =
      event-Carried tls json base64 gcm anyone (key_exchange tls json w (some text) a).session iv
        event plain (zero ∙ sym (key_exchange-Forgotten w text a h).key) size
