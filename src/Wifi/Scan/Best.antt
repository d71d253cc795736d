-- ===== src/Wifi/Scan/Best.antt =====
-- What the search for access points is for: a list with the strongest record of each network, by
-- recursion over the records (remove_duplicate_best_rssi of main/wifi/wifi_task.c works in place).
use water_dispenser.Base.{
  ℕ, zero, suc, ◌+◌, ◌%◌, ◌≤◌, ◌≡◌, refl, sym, ap, ◌∙◌, ◌⊎◌, inl, inr, ◌↔◌, true, false, List, [],
  ◌∷◌, ◌++◌, arith, lt_i8, ◌==◌, if◌then◌else◌, Bool-cases, take, length, ◌<◌,
}
use water_dispenser.Wifi.Scan.{ApRecord, strncmp_eq, same_ssid}

-- The string that a char[n] holds: its bytes before a 0.
pub c_string : ℕ → List ℕ → List ℕ
c_string zero a = []
c_string (suc n) [] = []
c_string (suc n) (x ∷ a) = let rest = c_string n a in if x == 0 then [] else x ∷ rest

-- strncmp compares these strings.
strncmp_eq_iff : (n : ℕ) (a b : List ℕ) → (strncmp_eq n a b ≡ true) ↔ (c_string n a ≡ c_string n b)
unfolding strncmp_eq c_string
strncmp_eq_iff zero a b = ground arith
strncmp_eq_iff (suc n) [] [] = ground arith
strncmp_eq_iff (suc n) [] (y ∷ b) = ground arith
strncmp_eq_iff (suc n) (x ∷ a) [] = ground arith
strncmp_eq_iff (suc n) (x ∷ a) (y ∷ b) = ground (arith, strncmp_eq_iff n a b)

-- The name of a network.
abbrev pub network : ApRecord → List ℕ
network a = c_string 33 a.ssid

pub same_ssid_iff : (a b : ApRecord) → (same_ssid a b ≡ true) ↔ (network a ≡ network b)
unfolding same_ssid
same_ssid_iff a b = strncmp_eq_iff 33 a.ssid b.ssid

same_ssid-differ : (a b : ApRecord) → same_ssid a b ≡ false → ¬ (network a ≡ network b)
same_ssid-differ a b e same = let t = (same_ssid_iff a b).1 same in cc

-- The record `new` takes the place of a weaker one of its network, or comes last.
unfoldable pub add_best : ApRecord → List ApRecord → List ApRecord
add_best new [] = new ∷ []
add_best new (x ∷ xs) =
    let rest = x ∷ add_best new xs in
    if same_ssid new x then (if lt_i8 x.rssi new.rssi then new else x) ∷ xs else rest

unfoldable pub bests : List ApRecord → List ApRecord → List ApRecord
bests acc [] = acc
bests acc (x ∷ xs) = bests (add_best x acc) xs

-- Membership, as data.
pub data At (a : ApRecord) : List ApRecord → Type 0 where
  first : {xs : List ApRecord} → At a (a ∷ xs)
  later : {x : ApRecord} {xs : List ApRecord} → At a xs → At a (x ∷ xs)

abbrev pub Fresh : ApRecord → List ApRecord → Type 0
Fresh a [] = Unit {0}
Fresh a (x ∷ xs) = (¬ (network a ≡ network x)) × Fresh a xs

pub At-cons : {a x : ApRecord} {xs : List ApRecord} → At a (x ∷ xs) → (a ≡ x) ⊎ At a xs
At-cons first = inl refl
At-cons (later m) = inr m

pub At-left : {a : ApRecord} {xs : List ApRecord} (ys : List ApRecord) → At a xs → At a (xs ++ ys)
At-left ys first = first
At-left ys (later m) = later (At-left ys m)

pub At-right : {a : ApRecord} (xs : List ApRecord) {ys : List ApRecord} → At a ys → At a (xs ++ ys)
At-right [] m = m
At-right (x ∷ xs) m = later (At-right xs m)

pub At-append : {a : ApRecord} (xs ys : List ApRecord) → At a (xs ++ ys) → At a xs ⊎ At a ys
At-append [] ys m = inr m
At-append (x ∷ xs) ys first = inl first
At-append (x ∷ xs) ys (later m) = elim (At-append xs ys m) [ inl l ↦ inl (later l) | inr r ↦ inr r ]

pub At-take : {a : ApRecord} (n : ℕ) (xs : List ApRecord) → At a (take n xs) → At a xs
At-take zero xs m = elim m [ ]
At-take (suc n) [] m = elim m [ ]
At-take (suc n) (x ∷ xs) first = first
At-take (suc n) (x ∷ xs) (later m) = later (At-take n xs m)

pub At-length : {a : ApRecord} {xs : List ApRecord} → At a xs → 0 < length xs
At-length first = omega arith
At-length (later m) = omega arith

-- No network stands twice.
abbrev pub Distinct : List ApRecord → Type 0
Distinct [] = Unit {0}
Distinct (x ∷ xs) = Fresh x xs × Distinct xs

-- The strength as it is compared.
abbrev pub signal : ApRecord → ℕ
signal a = (a.rssi + 128) % 256

-- The list has a record of the network of `a` that is at least as strong.
pub record Covered (a : ApRecord) (r : List ApRecord) : Type 0 where
  pub by : ApRecord
  pub at : At by r
  pub same : network a ≡ network by
  pub le : signal a ≤ signal by

here : (b : ApRecord) (xs : List ApRecord) → Covered b (b ∷ xs)
here b xs = record { by = b; at = first; same = refl; le = omega arith }

covered_later : {a : ApRecord} {r : List ApRecord} (x : ApRecord) → Covered a r → Covered a (x ∷ r)
covered_later x c = record { by = c.by; at = later c.at; same = c.same; le = c.le }

add_best-Fresh :
    (a new : ApRecord) (xs : List ApRecord)
    → Fresh a xs
    → ¬ (network a ≡ network new)
    → Fresh a (add_best new xs)
unfolding add_best
add_best-Fresh a new [] f other = (other, tt)
add_best-Fresh a new (x ∷ xs) f other = elim (Bool-cases (same_ssid new x)) [
  | inl e ↦ rw e (elim (Bool-cases (lt_i8 x.rssi new.rssi)) [
    | inl weaker ↦ rw weaker (other, f.1)
    | inr strong ↦ rw strong f
  ])
  | inr e ↦ rw e (f.0, add_best-Fresh a new xs f.1 other)
]

-- A network that is not the new one's stays apart from it.
Fresh-same : (a b : ApRecord) (xs : List ApRecord) → network a ≡ network b → Fresh a xs → Fresh b xs
Fresh-same a b [] e f = tt
Fresh-same a b (x ∷ xs) e f = (λ same. f.0 (e ∙ same), Fresh-same a b xs e f.1)

add_best-Distinct : (new : ApRecord) (xs : List ApRecord) → Distinct xs → Distinct (add_best new xs)
unfolding add_best
add_best-Distinct new [] d = (tt, tt)
add_best-Distinct new (x ∷ xs) d = elim (Bool-cases (same_ssid new x)) [
  | inl e ↦ rw e (elim (Bool-cases (lt_i8 x.rssi new.rssi)) [
    | inl weaker ↦ rw weaker (Fresh-same x new xs (sym ((same_ssid_iff new x).0 e)) d.0, d.1)
    | inr strong ↦ rw strong d
  ])
  | inr e ↦ rw e (
    add_best-Fresh x new xs d.0 (λ same. same_ssid-differ new x e (sym same)),
    add_best-Distinct new xs d.1,
  )
]

add_best-At : (a new : ApRecord) (xs : List ApRecord) → At a (add_best new xs) → (a ≡ new) ⊎ At a xs
unfolding add_best
add_best-At a new [] m = At-cons m
add_best-At a new (x ∷ xs) m = elim (Bool-cases (same_ssid new x)) [
  | inl e ↦ elim (Bool-cases (lt_i8 x.rssi new.rssi)) [
    | inl weaker ↦ elim (At-cons (rw (e, weaker) at m)) [
      | inl same ↦ inl same
      | inr n ↦ inr (later n)
    ]
    | inr strong ↦ inr (rw (e, strong) at m)
  ]
  | inr e ↦ elim (At-cons (rw e at m)) [
    | inl same ↦ inr (rw same first)
    | inr n ↦ elim (add_best-At a new xs n) [ inl same ↦ inl same | inr o ↦ inr (later o) ]
  ]
]

pub add_best-new : (new : ApRecord) (xs : List ApRecord) → Covered new (add_best new xs)
unfolding add_best
add_best-new new [] = record { by = new; at = first; same = refl; le = omega arith }
add_best-new new (x ∷ xs) = elim (Bool-cases (same_ssid new x)) [
  | inl e ↦ rw e (elim (Bool-cases (lt_i8 x.rssi new.rssi)) [
    | inl weaker ↦ rw weaker (record { by = new; at = first; same = refl; le = omega arith })
    | inr strong ↦
        rw strong
          (record { by = x; at = first; same = (same_ssid_iff new x).0 e; le = ground arith })
  ])
  | inr e ↦ rw e (covered_later x (add_best-new new xs))
]

-- A record that stands in the list stays covered.
add_best-keeps : (b new : ApRecord) (xs : List ApRecord) → At b xs → Covered b (add_best new xs)
unfolding add_best
add_best-keeps b new [] m = elim m [ ]
add_best-keeps b new (x ∷ xs) first = elim (Bool-cases (same_ssid new b)) [
  | inl e ↦ rw e (elim (Bool-cases (lt_i8 b.rssi new.rssi)) [
    | inl weaker ↦
        rw weaker (record {
          by = new;
          at = first;
          same = sym ((same_ssid_iff new b).0 e);
          le = ground arith;
        })
    | inr strong ↦ rw strong (here b xs)
  ])
  | inr e ↦ rw e (here b (add_best new xs))
]
add_best-keeps b new (x ∷ xs) (later m) = elim (Bool-cases (same_ssid new x)) [
  | inl e ↦ rw e (record { by = b; at = later m; same = refl; le = omega arith })
  | inr e ↦ rw e (covered_later x (add_best-keeps b new xs m))
]

-- What covers a record is covered in its place.
pub covered_again :
    (a : ApRecord) (r r' : List ApRecord)
    → ((b : ApRecord) → At b r → Covered b r')
    → Covered a r
    → Covered a r'
covered_again a r r' h c =
    let d = h c.by c.at in
    record { by = d.by; at = d.at; same = c.same ∙ d.same; le = omega (arith, c.le, d.le) }

-- A shortlist of the records `xs`.
pub record Shortlist (xs r : List ApRecord) : Type 0 where
  pub distinct : Distinct r
  pub genuine : (a : ApRecord) → At a r → At a xs
  pub strongest : (a : ApRecord) → At a xs → Covered a r

bests-Distinct : (acc xs : List ApRecord) → Distinct acc → Distinct (bests acc xs)
unfolding bests
bests-Distinct acc [] d = d
bests-Distinct acc (x ∷ xs) d = bests-Distinct (add_best x acc) xs (add_best-Distinct x acc d)

bests-genuine : (acc xs : List ApRecord) (a : ApRecord) → At a (bests acc xs) → At a acc ⊎ At a xs
unfolding bests
bests-genuine acc [] a m = inl m
bests-genuine acc (x ∷ xs) a m = elim (bests-genuine (add_best x acc) xs a m) [
  | inl old ↦ elim (add_best-At a x acc old) [ inl e ↦ inr (rw e first) | inr older ↦ inl older ]
  | inr n ↦ inr (later n)
]

bests-keeps : (acc xs : List ApRecord) (a : ApRecord) → Covered a acc → Covered a (bests acc xs)
unfolding bests
bests-keeps acc [] a c = c
bests-keeps acc (x ∷ xs) a c =
    bests-keeps (add_best x acc) xs a
      (covered_again a acc (add_best x acc) (λ b m. add_best-keeps b x acc m) c)

bests-strongest : (acc xs : List ApRecord) (a : ApRecord) → At a xs → Covered a (bests acc xs)
unfolding bests
bests-strongest acc [] a m = elim m [ ]
bests-strongest acc (x ∷ xs) a first = bests-keeps (add_best a acc) xs a (add_best-new a acc)
bests-strongest acc (x ∷ xs) a (later m) = bests-strongest (add_best x acc) xs a m

pub bests-Shortlist : (xs : List ApRecord) → Shortlist xs (bests [] xs)
bests-Shortlist xs = record {
  distinct = bests-Distinct [] xs tt;
  genuine = λ a m. elim (bests-genuine [] xs a m) [ inl old ↦ elim old [ ] | inr n ↦ n ];
  strongest = λ a m. bests-strongest [] xs a m;
}

-- A record of another network comes last.
pub add_best-append :
    (a : ApRecord) (acc : List ApRecord) → Fresh a acc → add_best a acc ≡ acc ++ a ∷ []
unfolding add_best
add_best-append a [] f = refl
add_best-append a (x ∷ acc) f = elim (Bool-cases (same_ssid a x)) [
  | inl e ↦ absurd (f.0 ((same_ssid_iff a x).0 e))
  | inr e ↦ rw e (ap (λ ys. x ∷ ys) (add_best-append a acc f.1))
]
