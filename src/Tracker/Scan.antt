-- ===== src/Tracker/Scan.antt =====
-- The scans over the table of trackers (main/ble/ble_tracker_id.c), and tables whose addresses
-- are all different.
use water_dispenser.Base.{
  ℕ, zero, suc, ◌+◌, ◌≡◌, refl, Bool, true, false, Option, none, some, List, [], ◌∷◌, arith, ◌==◌,
  set, get_elem?, get_elem?-set, inl, inr, Bool-cases,
}
use water_dispenser.Tracker.{Device, Slots, find_slot, same_bytes}

pub same_bytes_refl : (xs : List ℕ) → same_bytes xs xs ≡ true
unfolding same_bytes
same_bytes_refl [] = refl
same_bytes_refl (x ∷ xs) = ground (arith, same_bytes_refl xs)

pub eq_of_same_bytes : (xs ys : List ℕ) → same_bytes xs ys ≡ true → xs ≡ ys
unfolding same_bytes
eq_of_same_bytes [] [] h = refl
eq_of_same_bytes [] (y ∷ ys) h = cc
eq_of_same_bytes (x ∷ xs) [] h = cc
eq_of_same_bytes (x ∷ xs) (y ∷ ys) h = ground (arith, eq_of_same_bytes xs ys)

-- A scan that finds nothing has refused every slot.
pub find_slot-none :
    (p : Option Device → Bool) (ss : Slots) (i : ℕ)
    → find_slot p ss i ≡ none
    → (j : ℕ) {s : Option Device} → get_elem? ss j ≡ some s
    → p s ≡ false
unfolding find_slot
find_slot-none p [] i h j e = cc
find_slot-none p (s ∷ ss) i h zero e = ground arith
find_slot-none p (s ∷ ss) i h (suc j) e = find_slot-none p ss (i + 1) (ground arith) j e

-- A scan from index `i` that finds a slot has accepted it.
record Found (p : Option Device → Bool) (ss : Slots) (i k : ℕ) : Type 0 where
  offset : ℕ
  index : k ≡ i + offset
  slot : Option Device
  at : get_elem? ss offset ≡ some slot
  passes : p slot ≡ true

find_slot-Found :
    (p : Option Device → Bool) (ss : Slots) (i k : ℕ) → find_slot p ss i ≡ some k → Found p ss i k
unfolding find_slot
find_slot-Found p [] i k h = cc
find_slot-Found p (s ∷ ss) i k h = elim (Bool-cases (p s)) [
  | inl hit ↦ record { offset = 0; index = ground arith; slot = s; at = refl; passes = hit }
  | inr miss ↦
      let f = find_slot-Found p ss (i + 1) k (ground arith) in
      record {
        offset = suc f.offset;
        index = omega (arith, f.index);
        slot = f.slot;
        at = f.at;
        passes = f.passes;
      }
]

-- The same for the scans of the program, which begin at index 0.
pub record FoundAt (p : Option Device → Bool) (ss : Slots) (k : ℕ) : Type 0 where
  pub slot : Option Device
  pub at : get_elem? ss k ≡ some slot
  pub passes : p slot ≡ true

pub find_slot-FoundAt :
    (p : Option Device → Bool) (ss : Slots) (k : ℕ) → find_slot p ss 0 ≡ some k → FoundAt p ss k
find_slot-FoundAt p ss k h =
    let f = find_slot-Found p ss 0 k h in
    let e : k ≡ f.offset = omega (arith, f.index) in
    record { slot = f.slot; at = rw e f.at; passes = f.passes }

-- No two slots hold devices of one address.
abbrev pub IsUnique : Slots → Type 0
IsUnique ss =
    (i j : ℕ) (d e : Device)
    → get_elem? ss i ≡ some (some d)
    → get_elem? ss j ≡ some (some e)
    → d.dev_info.addr ≡ e.dev_info.addr
    → i ≡ j

-- Writing to slot `k` a device whose address no other slot holds keeps the addresses apart.
pub set-IsUnique :
    (ss : Slots) (k : ℕ) (n : Device)
    → IsUnique ss
    → ((j : ℕ) (e : Device)
        → get_elem? ss j ≡ some (some e)
        → e.dev_info.addr ≡ n.dev_info.addr
        → j ≡ k)
    → IsUnique (set ss k (some n))
set-IsUnique ss k n u only i j d e hi hj same = elim (Bool-cases (k == i)) [
  | inl ei ↦ elim (Bool-cases (k == j)) [
    | inl ej ↦ ground arith
    | inr nj ↦
        ground (arith, get_elem?-set ss k i (some n), get_elem?-set ss k j (some n), only j e)
  ]
  | inr ni ↦ elim (Bool-cases (k == j)) [
    | inl ej ↦
        ground (arith, get_elem?-set ss k i (some n), get_elem?-set ss k j (some n), only i d)
    | inr nj ↦
        ground (arith, get_elem?-set ss k i (some n), get_elem?-set ss k j (some n), u i j d e)
  ]
]
