-- ===== src/App/Chunks.antt =====
-- A message for the app is sent whole, in notifications that the app can take, and with a size of 0
-- never to its end (ble_tx_processing_task of main/ble/ble_task.c).
use water_dispenser.Base.{
  ℕ, zero, suc, ◌+◌, ◌-◌, ◌≤◌, ◌<◌, ◌≡◌, refl, sym, ap, ◌∙◌, true, false, Option, none, some, List,
  [], ◌∷◌, ◌++◌, arith, length, take, drop, drop-drop, length-drop, length-take, drop_all,
  take-drop, ltb, u16, Bool-cases, inl, inr,
}
use water_dispenser.App.Transmit.{send_len, with_first, send_chunks, transmit}

module _ {A : Type 0} where
  abbrev concat : List (List A) → List A
  concat [] = []
  concat (x ∷ xs) = x ++ concat xs

-- Every notification has at least one byte and no more than the app can take.
abbrev Fit : ℕ → List (List ℕ) → Type 0
Fit size [] = Unit
Fit size (x ∷ xs) = (0 < length x) × (length x ≤ size) × Fit size xs

-- The notifications are `bytes` cut in pieces.
pub record Cut (size : ℕ) (bytes : List ℕ) (sent : Option (List (List ℕ))) : Type 0 where
  pub chunks : List (List ℕ)
  pub all_sent : sent ≡ some chunks
  pub whole : concat chunks ≡ bytes
  pub fit : Fit size chunks

-- The length of a notification where something is left to send.
record Size (size len offset n : ℕ) : Type 0 where
  some_bytes : 0 < n
  fits : n ≤ size
  there : offset + n ≤ len
  moved : u16 (offset + n) ≡ offset + n

send_len-Size :
    (size len offset : ℕ)
    → 0 < size
    → len < 65536
    → offset < len
    → Size size len offset (send_len size len offset)
send_len-Size size len offset hs hl ho = elim (Bool-cases (ltb size (len - offset))) [
  | inl e ↦
      rw e
        (record { some_bytes = hs; fits = omega arith; there = ground arith; moved = ground arith })
  | inr e ↦
      let left : u16 (len - offset) ≡ len - offset = omega arith in
      rw (e, left)
        (record {
          some_bytes = omega arith;
          fits = ground arith;
          there = omega arith;
          moved = omega arith;
        })
]

module _ (size : ℕ) (bytes : List ℕ) (hs : 0 < size) (hl : length bytes < 65536) where
  first-Cut :
      (offset n : ℕ) (rest : Option (List (List ℕ)))
      → Size size (length bytes) offset n
      → Cut size (drop (offset + n) bytes) rest
      → Cut size (drop offset bytes) (with_first (take n (drop offset bytes)) rest)
  first-Cut offset n rest s c = record {
    chunks = take n (drop offset bytes) ∷ c.chunks;
    all_sent = rw c.all_sent refl;
    whole =
        ap (λ t. take n (drop offset bytes) ++ t) (c.whole ∙ sym (drop-drop offset n bytes))
        ∙ take-drop n (drop offset bytes);
    fit =
        let size_lem : length (take n (drop offset bytes)) ≡ n =
          length-take n (drop offset bytes)
          ∙ rw (length-drop offset bytes) (let h = s.there in omega arith) in
        (rw size_lem s.some_bytes, rw size_lem s.fits, c.fit);
  }

  chunks-Cut :
      (fuel offset : ℕ)
      → offset ≤ length bytes
      → length bytes ≤ offset + fuel
      → Cut size (drop offset bytes) (send_chunks fuel size bytes offset)
  unfolding send_chunks
  chunks-Cut zero offset ho hf =
      let over : ltb offset (length bytes) ≡ false = ground arith in
      rw (over, drop_all offset bytes (omega arith))
        (record { chunks = []; all_sent = refl; whole = refl; fit = tt })
  chunks-Cut (suc fuel) offset ho hf = elim (Bool-cases (ltb offset (length bytes))) [
    | inr over ↦
        rw (over, drop_all offset bytes (ground arith))
          (record { chunks = []; all_sent = refl; whole = refl; fit = tt })
    | inl more ↦
        let n = send_len size (length bytes) offset in
        let s = send_len-Size size (length bytes) offset hs hl (ground arith) in
        let there = s.there in
        let some_bytes = s.some_bytes in
        rw (more, s.moved)
          (first-Cut offset n (send_chunks fuel size bytes (offset + n)) s
            (chunks-Cut fuel (offset + n) there (omega arith)))
  ]

-- A message of fewer than 2 ^ 16 bytes is sent to its end where a notification may have a byte: the
-- notifications in their order are the message, and each has at least one byte and at most as many
-- as the app can take.
pub transmit-Cut :
    (max_payload : ℕ) (bytes : List ℕ)
    → 0 < max_payload
    → length bytes < 65536
    → Cut max_payload bytes (transmit max_payload bytes)
unfolding transmit
transmit-Cut max_payload bytes hs hl =
    chunks-Cut max_payload bytes hs hl (length bytes) 0 (omega arith) (omega arith)

-- Where the app can take 0 bytes, no number of notifications ends a message that has a byte.
pub send_chunks-is_none :
    (fuel : ℕ) (bytes : List ℕ) → 0 < length bytes → send_chunks fuel 0 bytes 0 ≡ none
unfolding send_chunks
send_chunks-is_none zero bytes h =
    let more : ltb 0 (length bytes) ≡ true = ground arith in rw more refl
send_chunks-is_none (suc fuel) bytes h =
    let more : ltb 0 (length bytes) ≡ true = ground arith in
    let size : ltb 0 (length bytes - 0) ≡ true = ground arith in
    rw (more, size, send_chunks-is_none fuel bytes h) refl
