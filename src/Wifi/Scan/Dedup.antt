-- ===== src/Wifi/Scan/Dedup.antt =====
-- remove_duplicate_best_rssi (main/wifi/wifi_task.c) leaves the shortlist of the records at the front
-- of the array.
use water_dispenser.Base.{
  ℕ, not, suc, ◌+◌, ◌≤◌, ◌<◌, ◌≡◌, refl, sym, ap, ap₂, ◌∙◌, ◌⊎◌, inl, inr, true, false, none, some,
  List, [], ◌∷◌, ◌++◌, arith, lt_i8, ◌==◌, if◌then◌else◌, Bool-cases, length, set, get_elem?, take,
  length-append, append_assoc, drop, take-drop, take-front, length-take, get_elem?-append_left,
  set-append_left, get_elem?-append, set-append, set_self, get_elem?-lt, length-set,
}
use water_dispenser.Wifi.Scan.{
  ApRecord, same_ssid, find_ssid, Kept, dedup_round, dedup_rounds, remove_duplicate_best_rssi,
}
use water_dispenser.Wifi.Scan.Best.{add_best, bests, Shortlist, bests-Shortlist}

abbrev better : ApRecord → ApRecord → ApRecord
better old new = if lt_i8 old.rssi new.rssi then new else old

-- What the loop over j finds.
record Known (new : ApRecord) (acc : List ApRecord) (k : ℕ) : Type 0 where
  old : ApRecord
  at : get_elem? acc k ≡ some old
  best : add_best new acc ≡ set acc k (better old new)

find_ssid-Known :
    (j : ℕ) (new : ApRecord) (acc t : List ApRecord)
    → ((find_ssid (length acc) j new (acc ++ t) ≡ none) × (add_best new acc ≡ acc ++ new ∷ []))
      ⊎ ((k : ℕ) × (find_ssid (length acc) j new (acc ++ t) ≡ some (j + k)) × Known new acc k)
unfolding find_ssid add_best
find_ssid-Known j new [] t = inl (refl, refl)
find_ssid-Known j new (x ∷ acc) t = elim (Bool-cases (same_ssid new x)) [
  | inl e ↦ inr (0, rw e (ground arith), record { old = x; at = refl; best = rw e refl })
  | inr e ↦ elim (find_ssid-Known (j + 1) new acc t) [
    | inl (n, b) ↦ inl (rw e n, rw e (ap (λ ys. x ∷ ys) b))
    | inr (k, f, known) ↦ inr (
      suc k,
      rw e (f ∙ ap some (omega arith)),
      record { old = known.old; at = known.at; best = rw e (ap (λ ys. x ∷ ys) known.best) },
    )
  ]
]

-- The array after the round of `new`: the shortlist, records that were copied from or dropped, and
-- what comes behind.
record Round (new : ApRecord) (acc mid behind : List ApRecord) (k : Kept) : Type 0 where
  spare : List ApRecord
  kept : k ≡ record {
    list = add_best new acc ++ (spare ++ behind);
    new_count = length (add_best new acc);
  }
  counts : length (add_best new acc) + length spare ≡ length acc + length mid + 1

same_Kept :
    {l l' : List ApRecord} {n n' : ℕ}
    → l ≡ l'
    → n ≡ n'
    → ◌≡◌ {A = Kept} (record { list = l; new_count = n }) (record { list = l'; new_count = n' })
same_Kept p q = ap₂ (λ l n. record { list = l; new_count = n }) p q

module _ (new : ApRecord) (acc mid behind : List ApRecord) where
  abbrev buffer : List ApRecord
  buffer = acc ++ (mid ++ new ∷ behind)

  abbrev before : Kept
  before = record { list = buffer; new_count = length acc }

  get_elem?-new : get_elem? buffer (length acc + length mid) ≡ some new
  get_elem?-new =
      rw (← append_assoc acc mid (new ∷ behind), ← length-append acc mid)
        (get_elem?-append (acc ++ mid) new behind)

  regroup : mid ++ new ∷ behind ≡ (mid ++ new ∷ []) ++ behind
  regroup = sym (append_assoc mid (new ∷ []) behind)

  size : {k : ℕ} → Known new acc k → length acc ≡ length (add_best new acc)
  size {k} known = sym (ap length known.best ∙ length-set acc k (better known.old new))

  -- A record of a network that is on the shortlist.
  kept-Round :
      (k : ℕ)
      → find_ssid (length acc) 0 new buffer ≡ some k
      → Known new acc k
      → Round new acc mid behind (dedup_round (length acc + length mid) before)
  unfolding dedup_round
  kept-Round k found known =
      let low = get_elem?-lt acc k known.at in
      let here : get_elem? buffer k ≡ some known.old =
        get_elem?-append_left acc (mid ++ new ∷ behind) k low ∙ known.at in
      record {
        spare = mid ++ new ∷ [];
        kept =
            rw (get_elem?-new, found, here)
              (elim (Bool-cases (lt_i8 known.old.rssi new.rssi)) [
                | inl weaker ↦ rw weaker (
                    same_Kept
                      (set-append_left acc (mid ++ new ∷ behind) k new low
                        ∙ ap₂ (λ xs ys. xs ++ ys) (sym (rw weaker at known.best)) regroup)
                      (size known))
                | inr strong ↦ rw strong (
                    same_Kept
                      (ap₂ (λ xs ys. xs ++ ys)
                        (sym (rw strong at known.best ∙ set_self acc k known.old known.at)) regroup)
                      (size known))
              ]);
        counts = omega (
          arith,
          ap length known.best,
          length-set acc k (better known.old new),
          length-append mid (new ∷ []),
        );
      }

-- A record of a network that is not on the list yet: it comes behind the shortlist, which is its own
-- place if no record was dropped before.
fresh_list :
    (new : ApRecord) (acc mid behind : List ApRecord)
    → (spare : List ApRecord) × ((if not (length acc + length mid == length acc)
          then set (buffer new acc mid behind) (length acc) new
          else buffer new acc mid behind)
        ≡ (acc ++ new ∷ []) ++ (spare ++ behind))
      × (length spare ≡ length mid)
fresh_list new acc [] behind =
    let here : (length acc + 0 == length acc) ≡ true = ground arith in
    ([], rw here (sym (append_assoc acc (new ∷ []) behind)), refl)
fresh_list new acc (m ∷ ms) behind =
    let moved : (length acc + suc (length ms) == length acc) ≡ false = ground arith in
    (
      ms ++ new ∷ [],
      rw moved (
          set-append acc m (ms ++ new ∷ behind) new
          ∙ ap (λ xs. (acc ++ new ∷ []) ++ xs) (regroup new acc ms behind)),
      omega (arith, length-append ms (new ∷ [])),
    )

fresh-Round :
    (new : ApRecord) (acc mid behind : List ApRecord)
    → length acc < 65535
    → find_ssid (length acc) 0 new (buffer new acc mid behind) ≡ none
    → add_best new acc ≡ acc ++ new ∷ []
    → Round new acc mid behind (dedup_round (length acc + length mid) (before new acc mid behind))
unfolding dedup_round
fresh-Round new acc mid behind small none_found best =
    let (spare, list_is, size_is) = fresh_list new acc mid behind in
    let long = ap length best ∙ length-append acc (new ∷ []) in
    record {
      spare = spare;
      kept =
          rw (get_elem?-new new acc mid behind, none_found)
            (same_Kept (list_is ∙ ap (λ xs. xs ++ (spare ++ behind)) (sym best)) (omega arith));
      counts = omega (arith, length-append acc (new ∷ []));
    }

dedup_round-Round :
    (new : ApRecord) (acc mid behind : List ApRecord)
    → length acc < 65535
    → Round new acc mid behind (dedup_round (length acc + length mid) (before new acc mid behind))
dedup_round-Round new acc mid behind small =
    elim (find_ssid-Known 0 new acc (mid ++ new ∷ behind)) [
      | inl (missing, best) ↦ fresh-Round new acc mid behind small missing best
      | inr (k, found, known) ↦
          kept-Round new acc mid behind k (found ∙ ap some (omega arith)) known
    ]

-- The rounds over the records `xs`.
record Rounds (acc mid xs behind : List ApRecord) (k : Kept) : Type 0 where
  rest : List ApRecord
  kept : k ≡ record { list = bests acc xs ++ (rest ++ behind); new_count = length (bests acc xs) }
  counts : length (bests acc xs) + length rest ≡ length acc + length mid + length xs

dedup_rounds-Rounds :
    (acc mid xs behind : List ApRecord)
    → length acc + length mid + length xs ≤ 65535
    → Rounds acc mid xs behind (
        dedup_rounds
          (length xs)
          (length acc + length mid)
          (record { list = acc ++ (mid ++ (xs ++ behind)); new_count = length acc }))
unfolding dedup_rounds bests
dedup_rounds-Rounds acc mid [] behind small = record {
  rest = mid;
  kept = refl;
  counts = omega arith;
}
dedup_rounds-Rounds acc mid (x ∷ xs) behind small =
    let r = dedup_round-Round x acc mid (xs ++ behind) (omega arith) in
    let further =
      dedup_rounds-Rounds (add_best x acc) r.spare xs behind (omega (arith, r.counts)) in
    let next : length acc + length mid + 1 ≡ length (add_best x acc) + length r.spare =
      sym r.counts in
    record {
      rest = further.rest;
      kept = ap₂ (λ i k. dedup_rounds (length xs) i k) next r.kept ∙ further.kept;
      counts = omega (arith, further.counts, r.counts);
    }

-- The whole array.
pub record Deduped (xs behind : List ApRecord) (k : Kept) : Type 0 where
  pub rest : List ApRecord
  pub kept : k ≡ record { list = bests [] xs ++ (rest ++ behind); new_count = length (bests [] xs) }
  pub counts : length (bests [] xs) + length rest ≡ length xs

pub remove_duplicate_best_rssi-Deduped :
    (xs behind : List ApRecord)
    → length xs ≤ 65535
    → Deduped xs behind (remove_duplicate_best_rssi (xs ++ behind) (length xs))
unfolding remove_duplicate_best_rssi
remove_duplicate_best_rssi-Deduped xs behind small =
    let r = dedup_rounds-Rounds [] [] xs behind (omega arith) in
    record { rest = r.rest; kept = r.kept; counts = omega (arith, r.counts) }

-- The records that remove_duplicate_best_rssi leaves in front are a shortlist of the first `count`
-- records of the array: no network stands twice, each record is one of those given, and each
-- network given is there with a record at least as strong. The array is as long as it was. `count`
-- is a uint16_t within the array.
pub remove_duplicate_best_rssi-Shortlist :
    (list : List ApRecord) (count : ℕ)
    → count ≤ length list
    → count ≤ 65535
    → Shortlist (take count list) (
        take
          (remove_duplicate_best_rssi list count).new_count
          (remove_duplicate_best_rssi list count).list)
      × (length (remove_duplicate_best_rssi list count).list ≡ length list)
remove_duplicate_best_rssi-Shortlist list count within small =
    let xs = take count list in
    let behind = drop count list in
    let long : length xs ≡ count = omega (arith, length-take count list) in
    let d = remove_duplicate_best_rssi-Deduped xs behind (omega arith) in
    let e : remove_duplicate_best_rssi list count
        ≡ remove_duplicate_best_rssi (xs ++ behind) (length xs) =
      ap₂ remove_duplicate_best_rssi (sym (take-drop count list)) (sym long) in
    rw (e ∙ d.kept) (
      rw (take-front (bests [] xs) (d.rest ++ behind)) (bests-Shortlist xs),
      omega (
        arith,
        d.counts,
        length-append (bests [] xs) (d.rest ++ behind),
        length-append d.rest behind,
        ap length (take-drop count list),
        length-append xs behind,
      ),
    )
