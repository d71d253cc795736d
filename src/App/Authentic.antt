-- ===== src/App/Authentic.antt =====
-- What ble_decrypt_json_data (main/ble/ble_parse.c) tells of the texts that it is given.
use water_dispenser.Base.{
  ℕ, ◌≡◌, refl, inl, inr, Bool, true, false, Option, none, some, List, Option-cases, length,
}
use water_dispenser.App.{Mbedtls}
use water_dispenser.App.Seal.{
  CJson, Decrypted, crash, refused, plaintext, field_text, decrypt_texts, decrypt_strings,
  decrypt_items,
}

-- Three texts that are there, and whose bytes AES-GCM accepts under the key.
pub record Authentic {E : Type 0} (tls : Mbedtls E) (key : List ℕ)
    (iv ciphertext tag : Option (List ℕ)) : Type 0 where
  pub iv_text : List ℕ
  pub cipher_text : List ℕ
  pub tag_text : List ℕ
  pub plain : List ℕ
  pub has_iv : iv ≡ some iv_text
  pub has_ciphertext : ciphertext ≡ some cipher_text
  pub has_tag : tag ≡ some tag_text
  pub accepted :
      tls.gcm_auth_decrypt key
        (tls.base64_decode 16 iv_text).bytes
        (tls.base64_decode 16 tag_text).bytes
        (tls.base64_decode (length cipher_text) cipher_text).bytes
      ≡ some plain

-- What a decryption tells: a text that comes out was authentic.
abbrev pub Reading :
    {E : Type 0}
    → Mbedtls E
    → (key : List ℕ) → (iv ciphertext tag : Option (List ℕ)) → Decrypted
    → Type 0
Reading tls key iv ciphertext tag crash = Unit
Reading tls key iv ciphertext tag refused = Unit
Reading tls key iv ciphertext tag (plaintext plain) = Authentic tls key iv ciphertext tag

module _ {E : Type 0} (tls : Mbedtls E) (key : List ℕ) where
  texts-Reading :
      (iv cipher tag : List ℕ)
      → Reading tls key (some iv) (some cipher) (some tag) (decrypt_texts tls key iv cipher tag)
  texts-Reading iv cipher tag =
      let i = (tls.base64_decode 16 iv).bytes in
      let t = (tls.base64_decode 16 tag).bytes in
      let c = (tls.base64_decode (length cipher) cipher).bytes in
      elim (Option-cases (tls.gcm_auth_decrypt key i t c)) [
        | inl e ↦ rw e tt
        | inr (p, e) ↦ rw e (record {
          iv_text = iv;
          cipher_text = cipher;
          tag_text = tag;
          plain = p;
          has_iv = refl;
          has_ciphertext = refl;
          has_tag = refl;
          accepted = e;
        })
      ]

  strings-Reading :
      (mem : Bool) (iv cipher tag : Option (List ℕ))
      → Reading tls key iv cipher tag (decrypt_strings tls mem key iv cipher tag)
  strings-Reading true (some iv) (some cipher) (some tag) = texts-Reading iv cipher tag
  strings-Reading false (some iv) (some cipher) (some tag) = tt
  strings-Reading mem iv none tag = tt
  strings-Reading true none (some cipher) tag = tt
  strings-Reading false none (some cipher) tag = tt
  strings-Reading true (some iv) (some cipher) none = tt
  strings-Reading false (some iv) (some cipher) none = tt

  module _ {N : Type 0} (json : CJson N) where
    pub items-Reading :
        (mem : Bool) (iv cipher tag : Option N)
        → Reading tls key
            (field_text json iv)
            (field_text json cipher)
            (field_text json tag)
            (decrypt_items tls json mem key iv cipher tag)
    items-Reading mem (some iv) (some cipher) (some tag) =
        strings-Reading mem (json.valuestring iv) (json.valuestring cipher) (json.valuestring tag)
    items-Reading mem none cipher tag = tt
    items-Reading mem (some iv) none tag = tt
    items-Reading mem (some iv) (some cipher) none = tt
