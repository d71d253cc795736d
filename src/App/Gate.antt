-- ===== src/App/Gate.antt =====
-- What a command of the app (BLE_APP_Command of main/ble/ble_parse.c) may change without a text that
-- was encrypted under the session key.
use water_dispenser.Base.{ℕ, ◌≡◌, ◌⊎◌, Option, none, some, List, String}
use water_dispenser.App.{Mbedtls}
use water_dispenser.App.Seal.{CJson, Decrypted, crash, field_text, ble_decrypt_json_data}
use water_dispenser.App.Command.{Surroundings, App}
use water_dispenser.App.Authentic.{Authentic, Reading}

-- The environment, the network's settings and the Wi-Fi connection.
pub record SameSettings {E : Type 0} (a a' : App E) : Type 0 where
  pub same_env : a'.env_mode ≡ a.env_mode
  pub same_provision : a'.provision ≡ a.provision

-- The text of a field of `data`, and `data` of a packet.
abbrev pub text_in : {N : Type 0} → CJson N → Option N → String → Option (List ℕ)
text_in json none name = none
text_in json (some data_obj) name = field_text json (json.get_object_item data_obj name)

abbrev pub data_in : {N : Type 0} → CJson N → Option N → Option N
data_in json none = none
data_in json (some root) = json.get_object_item root "data"

module _ {E N : Type 0} (tls : Mbedtls E) (json : CJson N) (w : Surroundings) (a : App E) where
  -- What may come of a command with this `data`: the device goes on, with the settings as they were or
  -- where the fields of `data` were authentic; or a string in `data` that is read is not there.
  abbrev pub Result : Option N → Option (App E) → Type 0
  Result d none = ble_decrypt_json_data tls json w.can_decrypt a.session d ≡ crash
  Result d (some a') =
      SameSettings a a'
      ⊎ Authentic tls a.session.session_key (text_in json d "iv") (text_in json d "ciphertext")
          (text_in json d "tag")

  module _ (data_obj : Option N) where
    abbrev opened_data : Decrypted
    opened_data = ble_decrypt_json_data tls json w.can_decrypt a.session data_obj

    abbrev Read : Decrypted → Type 0
    Read =
        Reading tls a.session.session_key (text_in json data_obj "iv")
          (text_in json data_obj "ciphertext") (text_in json data_obj "tag")
