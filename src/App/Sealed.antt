-- ===== src/App/Sealed.antt =====
-- What ble_send_encrypted_event sends is what ble_decrypt_json_data reads (main/ble/ble_parse.c):
-- the buffers for the texts and for the bytes have room.
use water_dispenser.Base.{
  ℕ, ◌+◌, ◌*◌, ◌/◌, ◌≤◌, ◌≡◌, refl, sym, ◌∙◌, true, Option, none, some, List, length, arith, String,
  c_string,
}
use water_dispenser.App.{Mbedtls, Session}
use water_dispenser.App.Seal.{
  CJson, plaintext, encrypted_event, field_text, decrypt_items, decrypt_texts,
  ble_decrypt_json_data, ble_send_encrypted_event,
}
use water_dispenser.App.Command.{Surroundings, App, key_exchange}
use water_dispenser.App.Laws.{Base64, Gcm, Curve, Carries}
use water_dispenser.App.Handshake.{public_text, key_exchange-Agreed}

module _ {E N : Type 0} (tls : Mbedtls E) (json : CJson N) where
  -- Three fields that are there and are strings.
  items_lem :
      (key : List ℕ) (iv cipher tag : Option N) (i c t : List ℕ)
      → field_text json iv ≡ some i
      → field_text json cipher ≡ some c
      → field_text json tag ≡ some t
      → decrypt_items tls json true key iv cipher tag ≡ decrypt_texts tls key i c t
  items_lem key (some iv) (some cipher) (some tag) i c t hi hc ht = rw (hi, hc, ht) refl
  items_lem key none cipher tag i c t hi hc ht = ground arith
  items_lem key (some iv) none tag i c t hi hc ht = ground arith
  items_lem key (some iv) (some cipher) none i c t hi hc ht = ground arith

  pub decrypt_lem :
      (s : Session E) (d : N) (i c t : List ℕ)
      → Carries json d i c t
      → ble_decrypt_json_data tls json true s (some d) ≡ decrypt_texts tls s.session_key i c t
  unfolding ble_decrypt_json_data
  decrypt_lem s d i c t h =
      items_lem s.session_key (json.get_object_item d "iv") (json.get_object_item d "ciphertext")
        (json.get_object_item d "tag") i c t h.has_iv h.has_ciphertext h.has_tag

  -- The message of an event, and what the other side makes of an item with its fields.
  pub record Carried (s t : Session E) (iv : List ℕ) (event : String) (plain : List ℕ)
      : Type 0 where
    pub sealed_iv : List ℕ
    pub sealed_text : List ℕ
    pub sealed_tag : List ℕ
    pub sent :
        ble_send_encrypted_event tls true iv s event plain
        ≡ some (encrypted_event event sealed_iv sealed_text sealed_tag)
    pub read :
        (d : N)
        → Carries json d sealed_iv sealed_text sealed_tag
        → ble_decrypt_json_data tls json true t (some d) ≡ plaintext (c_string plain)

  module _ (base64 : Base64 tls) (gcm : Gcm tls) where
    -- The texts have room, and so have the bytes that they stand for.
    texts_lem :
        (key iv plain : List ℕ)
        → length iv ≡ 12
        → decrypt_texts tls key
            (tls.base64_encode 32 iv).bytes
            (tls.base64_encode (length plain * 2 + 16) (tls.gcm_crypt_and_tag key iv plain).0).bytes
            (tls.base64_encode 32 (tls.gcm_crypt_and_tag key iv plain).1).bytes
          ≡ plaintext (c_string plain)
    texts_lem key iv plain h =
        let sealed = tls.gcm_crypt_and_tag key iv plain in
        let size = gcm.cipher_length key iv plain in
        let tag_size = gcm.tag_length key iv plain in
        let room : 4 * ((length sealed.0 + 2) / 3) + 1 ≤ length plain * 2 + 16 =
          rw size (omega arith) in
        let tag_room : 4 * ((length sealed.1 + 2) / 3) + 1 ≤ 32 = rw tag_size (omega arith) in
        let fits : length sealed.0
            ≤ length (tls.base64_encode (length plain * 2 + 16) sealed.0).bytes =
          rw (base64.encoded_length (length plain * 2 + 16) sealed.0 room) (omega arith) in
        rw
          (
            base64.decoded 32 16 iv (rw h (omega arith)) (rw h (omega arith)),
            base64.decoded 32 16 sealed.1 tag_room (rw tag_size (omega arith)),
            base64.decoded (length plain * 2 + 16)
                (length (tls.base64_encode (length plain * 2 + 16) sealed.0).bytes) sealed.0 room
                fits,
            gcm.decrypted key iv plain,
          )
          refl

    pub event-Carried :
        (s t : Session E) (iv : List ℕ) (event : String) (plain : List ℕ)
        → s.session_key ≡ t.session_key
        → length iv ≡ 12
        → Carried s t iv event plain
    unfolding ble_send_encrypted_event
    event-Carried s t iv event plain same h = record {
      sealed_iv = (tls.base64_encode 32 iv).bytes;
      sealed_text =
          (tls.base64_encode (length plain * 2 + 16)
            (tls.gcm_crypt_and_tag s.session_key iv plain).0).bytes;
      sealed_tag = (tls.base64_encode 32 (tls.gcm_crypt_and_tag s.session_key iv plain).1).bytes;
      sent = refl;
      read = λ d carries.
          decrypt_lem t d (tls.base64_encode 32 iv).bytes
            (tls.base64_encode (length plain * 2 + 16)
              (tls.gcm_crypt_and_tag s.session_key iv plain).0).bytes
            (tls.base64_encode 32 (tls.gcm_crypt_and_tag s.session_key iv plain).1).bytes carries
          ∙ rw (sym same) (texts_lem s.session_key iv plain h);
    }

    -- After two sides have exchanged their keys, whatever their sessions were, an event that one sends
    -- encrypted is read by the other: an item with the three fields of the message is decrypted to the
    -- text that was sent, up to its first 0 byte. There is memory, the random bytes are 12, and mbedTLS
    -- is as documented.
    pub key_exchange-Carried :
        (c : Curve tls) (w w' : Surroundings) (a b : App E) (iv : List ℕ) (event : String)
        (plain : List ℕ)
        → length iv ≡ 12
        → Carried
            (key_exchange tls json w (some (public_text tls base64 c w'.seed)) a).session
            (key_exchange tls json w' (some (public_text tls base64 c w.seed)) b).session
            iv
            event
            plain
    key_exchange-Carried c w w' a b iv event plain h =
        event-Carried (key_exchange tls json w (some (public_text tls base64 c w'.seed)) a).session
          (key_exchange tls json w' (some (public_text tls base64 c w.seed)) b).session iv event
          plain (key_exchange-Agreed tls base64 c json w w' a b).0.same_key h
