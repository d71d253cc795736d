-- ===== src/App/Transmit.antt =====
-- The task that sends to the app (ble_tx_processing_task of main/ble/ble_task.c): a message is cut
-- in notifications of at most g_ble_max_payload bytes.
use water_dispenser.Base.{
  ℕ, zero, suc, ◌-◌, ◌+◌, Option, none, some, List, [], ◌∷◌, u16, take, drop, length, ltb,
  if◌then◌else◌,
}

-- The length of the next notification; `offset` is below `len`, and both are 16 bits wide.
abbrev pub send_len : (max_payload len offset : ℕ) → ℕ
send_len max_payload len offset =
    if ltb max_payload (len - offset) then max_payload else u16 (len - offset)

abbrev pub with_first : List ℕ → Option (List (List ℕ)) → Option (List (List ℕ))
with_first chunk none = none
with_first chunk (some chunks) = some (chunk ∷ chunks)

-- The notifications of `data` from `offset` on, at most `fuel` of them; `none` where that many are
-- not enough.
unfoldable pub send_chunks :
    (fuel max_payload : ℕ) → (data_bytes : List ℕ) → (offset : ℕ) → Option (List (List ℕ))
send_chunks zero max_payload data_bytes offset =
    if ltb offset (length data_bytes) then none else some []
send_chunks (suc fuel) max_payload data_bytes offset =
    let size = send_len max_payload (length data_bytes) offset in
    let rest = send_chunks fuel max_payload data_bytes (u16 (offset + size)) in
    if ltb offset (length data_bytes)
    then with_first (take size (drop offset data_bytes)) rest
    else some []

-- One message, with a fuel that is enough where a notification has at least one byte.
unfoldable pub transmit : ℕ → List ℕ → Option (List (List ℕ))
unfolding send_chunks
transmit max_payload data_bytes = send_chunks (length data_bytes) max_payload data_bytes 0
