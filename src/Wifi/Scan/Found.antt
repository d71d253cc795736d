-- ===== src/Wifi/Scan/Found.antt =====
-- What a scan adds to the list of networks: the loop that copies the records, and what is on the list
-- then (wifi_scan_start of main/wifi/wifi_task.c).
use water_dispenser.Base.{
  suc, ◌+◌, ◌-◌, ◌≤◌, ◌≡◌, refl, sym, ap, ap₂, ◌∙◌, inl, inr, Bool, true, false, ◌&&◌, List, [],
  ◌∷◌, ◌++◌, arith, ltb, if◌then◌else◌, length, set, take, length-append, append_assoc, append-nil,
  set-append, length-take, take-all, take-nil, u16,
}
use water_dispenser.Wifi.Scan.{ApRecord, Kept, Scan, copy_records}
use water_dispenser.Wifi.Scan.Best.{
  bests, At, At-left, At-right, At-append, At-take, At-length, Distinct, Covered, bests-Shortlist,
  covered_again,
}

-- The buffer: the networks that were found, and the room behind them.
abbrev pub buffer : (r pad : List ApRecord) → Kept
buffer r pad = record { list = r ++ pad; new_count = length r }

-- The records that were fetched, in their order, and whether there was memory for each scan.
abbrev pub fetched : List Scan → List ApRecord
fetched [] = []
fetched (s ∷ ss) = if s.ran && ltb 0 s.ap_num then s.records ++ fetched ss else fetched ss

abbrev pub ready : List Scan → Bool
ready [] = true
ready (s ∷ ss) = s.has_memory && ready ss

-- The loop appends what there is room for.
pub record Copied (rs r : List ApRecord) (k : Kept) : Type 0 where
  pub pad : List ApRecord
  pub kept : k ≡ buffer (r ++ take (30 - length r) rs) pad
  pub room : length (r ++ take (30 - length r) rs) + length pad ≡ 30

pub copy_records-Copied :
    (rs r pad : List ApRecord)
    → length r + length pad ≡ 30
    → Copied rs r (copy_records rs (buffer r pad))
unfolding copy_records
copy_records-Copied [] r pad h =
    let e = take-nil {A = ApRecord} (30 - length r) in
    record { pad = pad; kept = rw (e, append-nil r) refl; room = rw (e, append-nil r) h }
copy_records-Copied (x ∷ rs) r [] h =
    let full : 30 - length r ≡ 0 = omega arith in
    let e : ltb (length r) 30 ≡ false = ground arith in
    record {
      pad = [];
      kept = rw (e, full) (ap (λ l. buffer l []) (sym (append-nil r)));
      room = rw (full, append-nil r) h;
    }
copy_records-Copied (x ∷ rs) r (p ∷ pad) h =
    let e : ltb (length r) 30 ≡ true = ground arith in
    let left : 30 - length r ≡ suc (30 - length (r ++ x ∷ [])) =
      omega (arith, length-append r (x ∷ [])) in
    let c = copy_records-Copied rs (r ++ x ∷ []) pad (omega (arith, length-append r (x ∷ []))) in
    let put : ◌≡◌ {A = Kept}
        (record { list = set (r ++ p ∷ pad) (length r) x; new_count = u16 (length r + 1) })
        (buffer (r ++ x ∷ []) pad) =
      ap₂ (λ l n. record { list = l; new_count = n }) (set-append r p pad x)
        (omega (arith, length-append r (x ∷ []))) in
    let front : (r ++ x ∷ []) ++ take (30 - length (r ++ x ∷ [])) rs
        ≡ r ++ take (30 - length r) (x ∷ rs) =
      append_assoc r (x ∷ []) (take (30 - length (r ++ x ∷ [])) rs)
      ∙ ap (λ m. r ++ take m (x ∷ rs)) (sym left) in
    record {
      pad = c.pad;
      kept = rw e (ap (copy_records rs) put ∙ c.kept ∙ ap (λ l. buffer l c.pad) front);
      room = ap (λ l. length l + length c.pad) (sym front) ∙ c.room;
    }

-- What is on the list after the records `seen`; `whole` tells whether each scan had memory.
pub record Found (whole : Bool) (seen r : List ApRecord) : Type 0 where
  pub distinct : Distinct r
  pub genuine : (a : ApRecord) → At a r → At a seen
  pub strongest : whole ≡ true → length seen ≤ 30 → (a : ApRecord) → At a seen → Covered a r
  pub small : length r ≤ 30
  pub fewer : length r ≤ length seen

module _ (seen r rs : List ApRecord) where
  abbrev pub joined : List ApRecord
  joined = r ++ take (30 - length r) rs

  joined-genuine :
      ((a : ApRecord) → At a r → At a seen) → (a : ApRecord) → At a joined → At a (seen ++ rs)
  joined-genuine h a m = elim (At-append r (take (30 - length r) rs) m) [
    | inl old ↦ At-left rs (h a old)
    | inr n ↦ At-right seen (At-take (30 - length r) rs n)
  ]

  joined-whole : length r ≤ length seen → length (seen ++ rs) ≤ 30 → joined ≡ r ++ rs
  joined-whole few h =
      ap (λ xs. r ++ xs) (take-all (30 - length r) rs (omega (arith, length-append seen rs)))

  -- A scan adds to what is found.
  pub more-Found :
      (whole : Bool)
      → Found whole seen r
      → length (bests [] joined) ≤ length joined
      → Found whole (seen ++ rs) (bests [] joined)
  more-Found whole f fits =
      let s = bests-Shortlist joined in
      record {
        distinct = s.distinct;
        genuine = λ a m. joined-genuine f.genuine a (s.genuine a m);
        strongest = λ ok few a m.
            let same = joined-whole f.fewer few in
            let covered = λ (b : ApRecord) (n : At b (r ++ rs)). s.strongest b (rw same n) in
            elim (At-append seen rs m) [
              | inl old ↦
                  covered_again a r (bests [] joined) (λ b n. covered b (At-left rs n))
                    (f.strongest ok (omega (arith, length-append seen rs)) a old)
              | inr n ↦ covered a (At-right r n)
            ];
        small = omega (
          arith,
          fits,
          length-append r (take (30 - length r) rs),
          length-take (30 - length r) rs,
          f.small,
        );
        fewer = omega (
          arith,
          fits,
          length-append r (take (30 - length r) rs),
          f.fewer,
          length-take (30 - length r) rs,
          length-append seen rs,
        );
      }

-- The list stays as it is where the search ends: it is full, or not all is claimed any more.
pub widen-Found :
    (whole whole' : Bool) (seen more r : List ApRecord)
    → (whole' ≡ true → (whole ≡ true) × (30 ≤ length r))
    → Found whole seen r
    → Found whole' (seen ++ more) r
widen-Found whole whole' seen more r ends f = record {
  distinct = f.distinct;
  genuine = λ a m. At-left more (f.genuine a m);
  strongest = λ ok few a m.
      let (before, full) = ends ok in
      elim (At-append seen more m) [
        | inl old ↦ f.strongest before (omega (arith, length-append seen more)) a old
        | inr n ↦ absurd (omega (arith, length-append seen more, At-length n, f.fewer))
      ];
  small = f.small;
  fewer = omega (arith, f.fewer, length-append seen more);
}
