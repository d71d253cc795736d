-- ===== src/Wifi/Scan/Search.antt =====
-- The rounds of wifi_scan_start (main/wifi/wifi_task.c), and what it makes of the scans of the driver.
use water_dispenser.Base.{
  suc, ◌+◌, ◌-◌, ◌≤◌, ◌≡◌, refl, sym, ap, subst, inl, inr, Bool, true, false, not, ◌&&◌, Option,
  none, some, List, [], ◌∷◌, ◌++◌, arith, ltb, leb, ◌==◌, if◌then◌else◌, Bool-cases, length, take,
  replicate, length-append, append_assoc, append-nil, take-front, length-replicate,
}
use water_dispenser.Wifi.Scan.{
  ApRecord, Kept, remove_duplicate_best_rssi, wifi_max_value, Scan, copy_records, collect,
  scan_rounds, empty_record, wifi_scan_start,
}
use water_dispenser.Wifi.Scan.Best.{bests}
use water_dispenser.Wifi.Scan.Dedup.{remove_duplicate_best_rssi-Deduped}
use water_dispenser.Wifi.Scan.Found.{
  buffer, fetched, ready, copy_records-Copied, Found, more-Found, widen-Found,
}

-- The buffer after the records `seen`.
record Searched (whole : Bool) (seen : List ApRecord) (k : Kept) : Type 0 where
  front : List ApRecord
  pad : List ApRecord
  kept : k ≡ buffer front pad
  room : length front + length pad ≡ 30
  found : Found whole seen front

weaken-Searched :
    (whole whole' : Bool) (seen : List ApRecord) (k : Kept)
    → (whole' ≡ true → whole ≡ true)
    → Searched whole seen k
    → Searched whole' seen k
weaken-Searched whole whole' seen k h s = record {
  front = s.front;
  pad = s.pad;
  kept = s.kept;
  room = s.room;
  found = record {
    distinct = s.found.distinct;
    genuine = s.found.genuine;
    strongest = λ ok. s.found.strongest (h ok);
    small = s.found.small;
    fewer = s.found.fewer;
  };
}

widen-Searched :
    (whole whole' : Bool) (seen more : List ApRecord) (k : Kept) (s : Searched whole seen k)
    → (whole' ≡ true → (whole ≡ true) × (30 ≤ length s.front))
    → Searched whole' (seen ++ more) k
widen-Searched whole whole' seen more k s ends = record {
  front = s.front;
  pad = s.pad;
  kept = s.kept;
  room = s.room;
  found = widen-Found whole whole' seen more s.front ends s.found;
}

-- A scan that found access points and has memory for them.
collect-Searched :
    (whole : Bool) (seen : List ApRecord) (s : Scan) (k : Kept)
    → ltb 0 s.ap_num ≡ true
    → Searched whole seen k
    → Searched whole (seen ++ s.records) (collect s k)
unfolding collect
collect-Searched whole seen s k some_aps h =
    let c = copy_records-Copied s.records h.front h.pad h.room in
    let xs = h.front ++ take (30 - length h.front) s.records in
    let d = remove_duplicate_best_rssi-Deduped xs c.pad (omega (arith, c.room)) in
    record {
      front = bests [] xs;
      pad = d.rest ++ c.pad;
      kept = rw (some_aps, h.kept, c.kept) d.kept;
      room = omega (arith, c.room, d.counts, length-append d.rest c.pad);
      found = more-Found seen h.front s.records whole h.found (omega (arith, d.counts));
    }

ready_later : (whole m r : Bool) → whole && (m && r) ≡ true → whole && r ≡ true
ready_later whole m r h = ground arith

-- A full list ends the search.
full_before :
    (whole : Bool) (seen more : List ApRecord) (m r : Bool) (k : Kept)
    → leb wifi_max_value k.new_count ≡ true
    → Searched whole seen k
    → Searched (whole && (m && r)) (seen ++ more) k
full_before whole seen more m r k full h =
    let long : 30 ≤ length h.front = ground (arith, ap (λ (x : Kept). x.new_count) h.kept) in
    widen-Searched whole (whole && (m && r)) seen more k h (λ ok. (ground arith, long))

full_lem :
    (whole : Bool) (seen : List ApRecord) (s : Scan) (ss : List Scan) (k : Kept)
    → leb wifi_max_value k.new_count ≡ true
    → Searched whole (seen ++ s.records) k
    → Searched (whole && (s.has_memory && ready ss)) (seen ++ (s.records ++ fetched ss)) k
full_lem whole seen s ss k full h =
    rw (← append_assoc seen s.records (fetched ss))
      (full_before whole (seen ++ s.records) (fetched ss) s.has_memory (ready ss) k full h)

-- A scan that found access points: there is no memory, the list is full, or the search goes on.
some_found :
    (whole : Bool) (seen : List ApRecord) (s : Scan) (ss : List Scan) (k k' : Kept)
    → Searched whole seen k
    → Searched whole (seen ++ s.records) k'
    → Searched (whole && ready ss) ((seen ++ s.records) ++ fetched ss) (scan_rounds ss k')
    → Searched (whole && (s.has_memory && ready ss)) (seen ++ (s.records ++ fetched ss)) (
        if not s.has_memory
        then k
        else if leb wifi_max_value k'.new_count
        then k'
        else scan_rounds ss k')
some_found whole seen s ss k k' h h' further = elim (Bool-cases s.has_memory) [
  | inr lost ↦
      let claimed : whole && (s.has_memory && ready ss) ≡ true
          → (whole ≡ true) × (30 ≤ length h.front) =
        λ ok. absurd (none_claimed ok lost) in
      let r =
        widen-Searched whole (whole && (s.has_memory && ready ss)) seen (s.records ++ fetched ss) k
          h claimed in
      subst
        (λ (b : Bool).
          Searched (whole && (s.has_memory && ready ss)) (seen ++ (s.records ++ fetched ss)) (
            if not b then k else if leb wifi_max_value k'.new_count then k' else scan_rounds ss k'))
        (sym lost) r
  | inl memory ↦
      subst
        (λ (b : Bool).
          Searched (whole && (s.has_memory && ready ss)) (seen ++ (s.records ++ fetched ss)) (
            if not b then k else if leb wifi_max_value k'.new_count then k' else scan_rounds ss k'))
        (sym memory)
        (elim (Bool-cases (leb wifi_max_value k'.new_count)) [
          | inl full ↦ rw full (full_lem whole seen s ss k' full h')
          | inr room ↦ rw room (
              weaken-Searched (whole && ready ss) (whole && (s.has_memory && ready ss))
                (seen ++ (s.records ++ fetched ss)) (scan_rounds ss k')
                (ready_later whole s.has_memory (ready ss))
                (rw (← append_assoc seen s.records (fetched ss)) further))
        ])
]
  where
    none_claimed : whole && (s.has_memory && ready ss) ≡ true → s.has_memory ≡ false → ⊥
    none_claimed ok lost = ground arith

scan_rounds-Searched :
    (whole : Bool) (seen : List ApRecord) (ss : List Scan) (k : Kept)
    → Searched whole seen k
    → Searched (whole && ready ss) (seen ++ fetched ss) (scan_rounds ss k)
unfolding scan_rounds collect
scan_rounds-Searched whole seen [] k h =
    rw (append-nil seen) (weaken-Searched whole (whole && true) seen k (λ ok. ground arith) h)
scan_rounds-Searched whole seen (s ∷ ss) k h =
    let ok = ready_later whole s.has_memory (ready ss) in
    elim (Bool-cases s.ran) [
      | inr skipped ↦ rw skipped (
          weaken-Searched (whole && ready ss) (whole && (s.has_memory && ready ss))
            (seen ++ fetched ss) (scan_rounds ss k) ok (scan_rounds-Searched whole seen ss k h))
      | inl ran ↦ rw ran (elim (Bool-cases (ltb 0 s.ap_num)) [
        | inr none_found ↦ rw none_found (elim (Bool-cases (leb wifi_max_value k.new_count)) [
          | inl full ↦
              rw full (full_before whole seen (fetched ss) s.has_memory (ready ss) k full h)
          | inr room ↦ rw room (
              weaken-Searched (whole && ready ss) (whole && (s.has_memory && ready ss))
                (seen ++ fetched ss) (scan_rounds ss k) ok (scan_rounds-Searched whole seen ss k h))
        ])
        | inl some_aps ↦ rw some_aps (
            let h' = collect-Searched whole seen s k some_aps h in
            some_found whole seen s ss k
              (remove_duplicate_best_rssi (copy_records s.records k).list
                (copy_records s.records k).new_count)
              h (rw some_aps at h')
              (scan_rounds-Searched whole (seen ++ s.records) ss
                (remove_duplicate_best_rssi (copy_records s.records k).list
                  (copy_records s.records k).new_count)
                (rw some_aps at h')))
      ])
    ]

-- The list that a search leaves; NULL is the empty one.
abbrev pub listed : Option (List ApRecord) → List ApRecord
listed none = []
listed (some r) = r

empty-Searched :
    Searched true [] (record { list = replicate wifi_max_value empty_record; new_count = 0 })
empty-Searched = record {
  front = [];
  pad = replicate wifi_max_value empty_record;
  kept = refl;
  room = length-replicate 30 empty_record;
  found = record {
    distinct = tt;
    genuine = λ a m. elim m [ ];
    strongest = λ ok few a m. elim m [ ];
    small = omega arith;
    fewer = omega arith;
  };
}

front_of :
    (whole : Bool) (seen : List ApRecord) (k : Kept)
    → Searched whole seen k
    → Found whole seen (listed (if k.new_count == 0 then none else some (take k.new_count k.list)))
front_of whole seen k h = rw h.kept (by_size h.front h.found)
  where
    by_size :
        (r : List ApRecord)
        → Found whole seen r
        → Found whole seen
            (listed (if length r == 0 then none else some (take (length r) (r ++ h.pad))))
    by_size [] f = f
    by_size (x ∷ r) f =
        let e : (suc (length r) == 0) ≡ false = ground arith in rw (e, take-front r h.pad) f

-- A search with memory for its buffer leaves at most 30 networks, none twice, and each record was
-- fetched in one of its three scans. If there was memory for every scan and 30 records at most were
-- fetched, each network that was fetched is on the list with a record at least as strong.
pub wifi_scan_start-Found :
    (scans : List Scan)
    → Found (ready (take 3 scans)) (fetched (take 3 scans)) (listed (wifi_scan_start true scans))
unfolding wifi_scan_start
wifi_scan_start-Found scans =
    front_of (ready (take 3 scans)) (fetched (take 3 scans))
      (scan_rounds (take 3 scans)
        (record { list = replicate wifi_max_value empty_record; new_count = 0 }))
      (scan_rounds-Searched true [] (take 3 scans)
        (record { list = replicate wifi_max_value empty_record; new_count = 0 }) empty-Searched)
