-- ===== src/Ble/Table.antt =====
-- The table of clients (main/ble/ble_task.c): who is counted and who is found after a connection,
-- a disconnection, and the end of all connections.
use water_dispenser.Base.{
  ℕ, zero, suc, ◌+◌, ◌<◌, ◌≡◌, refl, sym, Bool, true, false, none, some, List, [], ◌∷◌, get_elem?,
  set, arith, length, inl, inr, Bool-cases, subst,
}
use water_dispenser.Ble.{Client, find_client}

-- What a scan from index `i` finds, by its distance from there.
pub record Found (p : Client → Bool) (cs : List Client) (i : ℕ) (r : ℕ × Client) : Type 0 where
  pub offset : ℕ
  pub index : r.0 ≡ i + offset
  pub at : get_elem? cs offset ≡ some (r.1)
  pub passes : p (r.1) ≡ true

pub find_client-Found :
    (p : Client → Bool) (cs : List Client) (i : ℕ) (r : ℕ × Client)
    → find_client p cs i ≡ some r
    → Found p cs i r
unfolding find_client
find_client-Found p [] i r h = cc
find_client-Found p (c ∷ cs) i r h = elim (Bool-cases (p c)) [
  | inl hit ↦ record { offset = 0; index = ground arith; at = ground arith; passes = ground arith }
  | inr miss ↦
      let f = find_client-Found p cs (i + 1) r (ground arith) in
      record { offset = suc f.offset; index = omega (arith, f.index); at = f.at; passes = f.passes }
]

-- Writing to the place that a scan found a client that passes too.
pub find_client-set :
    (p : Client → Bool) (cs : List Client) (i k : ℕ) (c d : Client)
    → find_client p cs i ≡ some (i + k, c)
    → p d ≡ true
    → find_client p (set cs k d) i ≡ some (i + k, d)
unfolding find_client
find_client-set p [] i k c d h q = cc
find_client-set p (e ∷ cs) i zero c d h q = ground arith
find_client-set p (e ∷ cs) i (suc k) c d h q = elim (Bool-cases (p e)) [
  | inl hit ↦ ground arith
  | inr miss ↦
      let same : i + suc k ≡ i + 1 + k = omega arith in
      rw (miss, same) (find_client-set p cs (i + 1) k c d (ground arith) q)
]

pub find_client-put :
    (p : Client → Bool) (cs : List Client) (k : ℕ) (c d : Client)
    → find_client p cs 0 ≡ some (k, c)
    → p d ≡ true
    → find_client p (set cs k d) 0 ≡ some (k, d)
find_client-put p cs k c d h q =
    let e : 0 + k ≡ k = omega arith in
    subst (λ n. find_client p (set cs k d) 0 ≡ some (n, d)) e
      (find_client-set p cs 0 k c d (subst (λ n. find_client p cs 0 ≡ some (n, c)) (sym e) h) q)

-- A scan that finds nobody, after a write of a client that passes, finds that one.
pub find_client-new :
    (p : Client → Bool) (cs : List Client) (i k : ℕ) (d : Client)
    → find_client p cs i ≡ none
    → k < length cs
    → p d ≡ true
    → find_client p (set cs k d) i ≡ some (i + k, d)
unfolding find_client
find_client-new p [] i k d h b q = absurd (omega arith)
find_client-new p (e ∷ cs) i zero d h b q = let same : i + 0 ≡ i = omega arith in rw (q, same) refl
find_client-new p (e ∷ cs) i (suc k) d h b q =
    let same : i + suc k ≡ i + 1 + k = omega arith in
    let miss : p e ≡ false = ground arith in
    rw (miss, same) (find_client-new p cs (i + 1) k d (ground arith) (omega arith) q)
