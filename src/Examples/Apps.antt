-- ===== src/Examples/Apps.antt =====
-- Examples of the session with the app, with a library that has the laws of mbedTLS and a parser.
use water_dispenser.Base.{
  ℕ, zero, suc, ◌+◌, ◌-◌, ◌*◌, ◌/◌, ◌≡◌, refl, ap, ◌∙◌, inr, true, false, Option, none, some, List,
  [], ◌∷◌, ◌++◌, arith, length, replicate, codes, strcmp_eq, ◌==◌, if◌then◌else◌,
}
use water_dispenser.Examples.Networks.{new_provision}
use water_dispenser.App.{Mbedtls, zero_key}
use water_dispenser.App.Seal.{CJson, ble_decrypt_json_data, ble_send_encrypted_event}
use water_dispenser.App.Command.{Surroundings, App, key_exchange, json_command, ble_app_command}
use water_dispenser.App.Transmit.{send_chunks, transmit}
use water_dispenser.App.Laws.{Base64, Gcm, Curve}
use water_dispenser.App.Handshake.{public_text}
use water_dispenser.App.Sealed.{Carried, key_exchange-Carried}
use water_dispenser.App.Secret.{Keyed, not_agreed, Holds, app_commands, app_commands-Keyed}
use water_dispenser.App.Forgets.{key_exchange-forged}
use water_dispenser.App.Chunks.{Cut, transmit-Cut, send_chunks-is_none}

-- The number of letters that Base64 needs.
abbrev letters : ℕ → ℕ
letters n = 4 * ((n + 2) / 3)

-- Bytes as letters above 0, filled up by 0.
abbrev shifted : List ℕ → List ℕ
shifted [] = []
shifted (x ∷ xs) = suc x ∷ shifted xs

abbrev shifted_back : List ℕ → List ℕ
shifted_back [] = []
shifted_back (zero ∷ xs) = []
shifted_back (suc x ∷ xs) = x ∷ shifted_back xs

abbrev first : List ℕ → ℕ
first [] = 0
first (x ∷ xs) = x

abbrev second : List ℕ → ℕ
second [] = 0
second (x ∷ xs) = first xs

-- Keys are products, and a tag repeats the first byte of the key.
abbrev tls : Mbedtls (ℕ × ℕ)
tls = record {
  ecdh_init = (0, 0);
  ecdh_setup = λ e. some e;
  ecdh_make_public = λ seed e. some ((seed, 0), 32 ∷ replicate 32 seed);
  ecdh_read_public = λ key e. some (e.0, second key);
  ecdh_calc_secret = λ e. some (replicate 32 (e.0 * e.1));
  ecdh_free = λ e. (0, 0);
  hkdf = λ secret. some secret;
  base64_encode = λ room bytes. record {
    done = true;
    bytes = shifted bytes ++ replicate (letters (length bytes) - length bytes) 0;
  };
  base64_decode = λ room text. record { done = true; bytes = shifted_back text };
  gcm_crypt_and_tag = λ key iv plain. (plain, replicate 16 (first key));
  gcm_auth_decrypt = λ key iv tag cipher. if first tag == first key then some cipher else none;
}

shifted_back_lem : (k : ℕ) (bytes : List ℕ) → shifted_back (shifted bytes ++ replicate k 0) ≡ bytes
shifted_back_lem zero [] = refl
shifted_back_lem (suc k) [] = refl
shifted_back_lem k (x ∷ bytes) = ap (λ xs. x ∷ xs) (shifted_back_lem k bytes)

length-shifted :
    (k : ℕ) (bytes : List ℕ) → length (shifted bytes ++ replicate k 0) ≡ length bytes + k
length-shifted zero [] = omega arith
length-shifted (suc k) [] = omega (arith, length-shifted k [])
length-shifted k (x ∷ bytes) = omega (arith, length-shifted k bytes)

base64 : Base64 tls
base64 = record {
  encoded = λ room bytes h. refl;
  encoded_length =
      λ room bytes h. length-shifted (letters (length bytes) - length bytes) bytes ∙ omega arith;
  decoded = λ room room' bytes h h'.
      ap (λ xs. record { done = true; bytes = xs })
        (shifted_back_lem (letters (length bytes) - length bytes) bytes);
}

gcm : Gcm tls
gcm = record {
  cipher_length = λ key iv plain. refl;
  tag_length = λ key iv plain. refl;
  decrypted =
      λ key iv plain. let same : (first key == first key) ≡ true = ground arith in rw same refl;
}

curve : Curve tls
curve = record {
  curve = (0, 0);
  own = λ seed. (seed, 0);
  public = λ seed. replicate 32 seed;
  met = λ mine other. (mine, other);
  shared = λ mine other. replicate 32 (mine * other);
  derive = λ secret. secret;
  set_up = refl;
  made = λ seed. refl;
  public_length = λ seed. refl;
  read = λ mine other. refl;
  calculated = λ mine other. refl;
  shared_length = λ mine other. refl;
  shared_comm = λ mine other. let e : mine * other ≡ other * mine = omega arith in rw e refl;
  derived = λ secret h. refl;
}

-- An item of the parser: a text, or a command whose data it is itself.
data Item : Type 0 where
  text : List ℕ → Item
  command : (event_type body : List ℕ) → Item

abbrev item : Item → List ℕ → Option Item
item (text t) name = none
item (command event_type body) name =
    if strcmp_eq name (codes "event_type")
    then some (text event_type)
    else if strcmp_eq name (codes "data")
    then some (command event_type body)
    else if strcmp_eq name (codes "iv")
    then some (text [])
    else if strcmp_eq name (codes "tag")
    then some (text [])
    else some (text body)

-- What stands behind a brace is the body of a `set_env`.
abbrev json : CJson Item
json = record {
  parse = λ bytes. elim bytes [
    | [] ↦ none
    | c ∷ body ↦ if c == 123 then some (command (codes "set_env") body) else none
  ];
  get_object_item = λ i name. item i (codes name);
  valuestring = λ i. elim i [ text t ↦ some t | command e b ↦ none ];
  valueint = λ i. none;
  print_aps = λ aps. some [];
}

abbrev surroundings : ℕ → Surroundings
surroundings seed = record {
  seed = seed;
  iv = replicate 12 7;
  can_decrypt = true;
  can_send = true;
  can_scan = false;
  scans = [];
  known = false;
  accepted = true;
  pause = [];
  waiting = [];
  weight = codes "12.00g";
}

abbrev app : App (ℕ × ℕ)
app = record {
  session = record { ecdh = (0, 0); session_key = zero_key; is_encrypted = false };
  max_payload = 20;
  env_mode = codes "dev";
  provision = new_provision;
  calls = [];
}

-- `set_env` with an environment, encrypted under 32 zero bytes.
abbrev packet : List ℕ
packet = 123 ∷ shifted (123 ∷ codes "prod")

abbrev env_of : Option (App (ℕ × ℕ)) → List ℕ
env_of none = []
env_of (some a) = a.env_mode

packet_changes : env_of (ble_app_command tls json (surroundings 3) packet app) ≡ codes "prod"
unfolding ble_app_command json_command ble_decrypt_json_data ble_send_encrypted_event
packet_changes = refl

key_exchange-Carried_example :
    Carried tls json
      (key_exchange tls json (surroundings 3) (some (public_text tls base64 curve 5)) app).session
      (key_exchange tls json (surroundings 5) (some (public_text tls base64 curve 3)) app).session
      (replicate 12 7)
      "env_ack"
      (codes "{}")
key_exchange-Carried_example =
    key_exchange-Carried tls json base64 gcm curve (surroundings 3) (surroundings 5) app app
      (replicate 12 7) "env_ack" (codes "{}") refl

app_commands-Keyed_example :
    Holds
      (λ a. Keyed tls a.session)
      (app_commands tls json ((surroundings 3, packet) ∷ (surroundings 4, codes "HX711") ∷ []) app)
app_commands-Keyed_example =
    app_commands-Keyed tls json ((surroundings 3, packet) ∷ (surroundings 4, codes "HX711") ∷ [])
      app (not_agreed refl refl)

key_exchange-forged_example :
    Carried tls json app.session
      (key_exchange tls json (surroundings 3) (some []) app).session
      (replicate 12 7)
      "set_env"
      (codes "{}")
key_exchange-forged_example =
    key_exchange-forged tls json base64 curve gcm (surroundings 3) [] app app.session
      (replicate 12 7) "set_env" (codes "{}") (inr (omega arith)) refl refl

transmit-Cut_example : Cut 4 (codes "{\"aps\":[]}") (transmit 4 (codes "{\"aps\":[]}"))
transmit-Cut_example = transmit-Cut 4 (codes "{\"aps\":[]}") (omega arith) (omega arith)

send_chunks-is_none_example : send_chunks 1000 0 (codes "ok") 0 ≡ none
send_chunks-is_none_example = send_chunks-is_none 1000 (codes "ok") (omega arith)
