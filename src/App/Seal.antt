-- ===== src/App/Seal.antt =====
-- ble_decrypt_json_data and ble_send_encrypted_event of main/ble/ble_parse.c: the data of a command
-- that the app encrypted, and an event for the app. The parser of cJSON is a parameter.
use water_dispenser.Base.{
  ℕ, ◌+◌, ◌*◌, Bool, not, Option, none, some, List, length, String, if◌then◌else◌, c_string,
}
use water_dispenser.App.{Mbedtls, Session}

-- An access point in the list for the app.
pub record ApItem : Type 0 where
  pub ssid : List ℕ
  pub rssi : ℕ
  pub auth : String

-- The operations of cJSON on its items; `none` is NULL. A string item has a `valuestring`, a number
-- item a `valueint`.
pub record CJson (N : Type 0) : Type 0 where
  pub parse : List ℕ → Option N
  pub get_object_item : N → String → Option N
  pub valuestring : N → Option (List ℕ)
  pub valueint : N → Option ℕ
  pub print_aps : List ApItem → Option (List ℕ)  -- cJSON_PrintUnformatted of {"aps":[...]}

-- What ble_decrypt_json_data does: it reads the string of an item that has none (NULL), it returns
-- NULL, or it returns a text.
pub data Decrypted : Type 0 where
  crash : Decrypted
  refused : Decrypted
  plaintext : List ℕ → Decrypted

-- What is sent to the app, the JSON texts as their fields.
pub data Message : Type 0 where
  key_exchange_ack : (pub_key : List ℕ) → Message
  encrypted_event : (event_type : String) → (iv ciphertext tag : List ℕ) → Message
  plain_text : List ℕ → Message

abbrev pub opened : Option (List ℕ) → Decrypted
opened none = refused
opened (some plain) = plaintext (c_string plain)

-- The text of a field that may be missing.
abbrev pub field_text : {N : Type 0} → CJson N → Option N → Option (List ℕ)
field_text json none = none
field_text json (some item) = json.valuestring item

module _ {E : Type 0} (tls : Mbedtls E) where
  -- The buffers for the iv and for the tag have 16 bytes, the one for the ciphertext as many as its
  -- text. The results of the three decodings are not tested.
  abbrev pub decrypt_texts : (key iv ciphertext tag : List ℕ) → Decrypted
  decrypt_texts key iv ciphertext tag = opened (
      tls.gcm_auth_decrypt key (tls.base64_decode 16 iv).bytes (tls.base64_decode 16 tag).bytes
        (tls.base64_decode (length ciphertext) ciphertext).bytes)

  -- The text of the ciphertext is read first, then the memory is asked for.
  abbrev pub decrypt_strings :
      (has_memory : Bool) → (key : List ℕ) → (iv ciphertext tag : Option (List ℕ)) → Decrypted
  decrypt_strings has_memory key iv none tag = crash
  decrypt_strings has_memory key (some iv) (some ciphertext) (some tag) =
      if not has_memory then refused else decrypt_texts key iv ciphertext tag
  decrypt_strings has_memory key iv (some ciphertext) tag =
      if not has_memory then refused else crash

  module _ {N : Type 0} (json : CJson N) where
    abbrev pub decrypt_items :
        (has_memory : Bool) → (key : List ℕ) → (iv ciphertext tag : Option N) → Decrypted
    decrypt_items has_memory key (some iv) (some ciphertext) (some tag) =
        decrypt_strings has_memory key (json.valuestring iv) (json.valuestring ciphertext)
          (json.valuestring tag)
    decrypt_items has_memory key iv ciphertext tag = refused

    unfoldable pub ble_decrypt_json_data : Bool → Session E → Option N → Decrypted
    ble_decrypt_json_data has_memory s none = refused
    ble_decrypt_json_data has_memory s (some data_obj) =
        decrypt_items has_memory s.session_key (json.get_object_item data_obj "iv")
          (json.get_object_item data_obj "ciphertext") (json.get_object_item data_obj "tag")

  abbrev pub seal_parts : String → List ℕ → ℕ → List ℕ × List ℕ → Message
  seal_parts event_type iv plain_len (cipher, tag) =
      encrypted_event event_type (tls.base64_encode 32 iv).bytes
        (tls.base64_encode (plain_len * 2 + 16) cipher).bytes (tls.base64_encode 32 tag).bytes

  -- `none` where there is no memory for the texts. `iv` is what esp_fill_random gives.
  unfoldable pub ble_send_encrypted_event :
      Bool → (iv : List ℕ) → Session E → String → List ℕ → Option Message
  ble_send_encrypted_event has_memory iv s event_type plain =
      if not has_memory
      then none
      else some
          (seal_parts event_type iv (length plain) (tls.gcm_crypt_and_tag s.session_key iv plain))
