-- ===== src/Ble/Store.antt =====
-- The buffer of a transfer (MOTION_DATA in BLE_Receive_data, main/ble/ble_parse.c lines 485 to 494).
use water_dispenser.Base.{
  ℕ, zero, suc, ◌+◌, ◌-◌, ◌≤◌, ◌<◌, ◌≡◌, refl, ap, ◌∙◌, List, [], ◌∷◌, ◌++◌, arith, ltb, set,
  replicate, length, take, append-nil, append_assoc, set-append, length-append, inl, inr,
  Bool-cases,
}
use water_dispenser.Ble.Receive.{store}

-- A buffer of `send` bytes that holds the points so far, then zeros.
abbrev pub filled_buffer : ℕ → List ℕ → List ℕ
filled_buffer send pts = pts ++ replicate (send - length pts) 0

abbrev pub stored_points : ℕ → List ℕ → List ℕ → List ℕ
stored_points send pts bs = pts ++ take (send - length pts) bs

store_step :
    (send : ℕ) (pts : List ℕ) (b : ℕ)
    → length pts < send
    → set (filled_buffer send pts) (length pts) b ≡ filled_buffer send (pts ++ b ∷ [])
store_step send pts b h =
    let n = send - suc (length pts) in
    let e : send - length pts ≡ suc n = omega arith in
    let f : send - length (pts ++ b ∷ []) ≡ n = omega (arith, length-append pts (b ∷ [])) in
    rw (e, f) (set-append pts 0 (replicate n 0) b)

stored_step :
    (send : ℕ) (pts : List ℕ) (b : ℕ) (bs : List ℕ)
    → length pts < send
    → stored_points send (pts ++ b ∷ []) bs ≡ stored_points send pts (b ∷ bs)
stored_step send pts b bs h =
    let n = send - suc (length pts) in
    let e : send - length pts ≡ suc n = omega arith in
    let f : send - length (pts ++ b ∷ []) ≡ n = omega (arith, length-append pts (b ∷ [])) in
    rw (e, f) (append_assoc pts (b ∷ []) (take n bs))

-- A packet's bytes are stored in order behind the points so far, as many as there is room for.
pub store_lem :
    (bs pts : List ℕ) (send : ℕ)
    → length pts ≤ send
    → ((store bs (filled_buffer send pts) (length pts) send).0
        ≡ filled_buffer send (stored_points send pts bs))
      × ((store bs (filled_buffer send pts) (length pts) send).1
          ≡ length (stored_points send pts bs))
unfolding store
store_lem [] pts send h =
    let e : stored_points send pts [] ≡ pts =
      ap (λ t. pts ++ t) (take_nil (send - length pts)) ∙ append-nil pts in
    rw e (refl, refl)
  where
    take_nil : (n : ℕ) → take {A = ℕ} n [] ≡ []
    take_nil zero = refl
    take_nil (suc n) = refl
store_lem (b ∷ bs) pts send h = elim (Bool-cases (ltb (length pts) send)) [
  | inl room ↦
      let lt : length pts < send = ground arith in
      let longer : length pts + 1 ≡ length (pts ++ b ∷ []) =
        omega (arith, length-append pts (b ∷ [])) in
      rw (room, store_step send pts b lt, longer, ← stored_step send pts b bs lt)
        (store_lem bs (pts ++ b ∷ []) send (omega (arith, longer)))
  | inr full ↦
      let none_left : send - length pts ≡ 0 = ground arith in
      let e : stored_points send pts (b ∷ bs) ≡ pts = rw none_left (append-nil pts) in
      rw (full, e) (refl, refl)
]
