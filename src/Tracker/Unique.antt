-- ===== src/Tracker/Unique.antt =====
-- The table of trackers holds an address once, and finds the tracker that was heard last
-- (Tracker_In_ID and Get_Tracker_Device of main/ble/ble_tracker_id.c).
use water_dispenser.Base.{
  ℕ, ◌≡◌, refl, sym, ap, ◌∙◌, ◌⊎◌, Bool, true, false, Option, none, some, List, arith,
  if◌then◌else◌, set, get_elem?, get_elem?-lt, get_elem?-set_self, inl, inr, Option-cases,
}
use water_dispenser.Tracker.{
  DevInfo, Device, Slots, Tracker, has_addr, find_slot, same_bytes, get_tracker_device,
}
use water_dispenser.Tracker.Enter.{refreshed, fresh_device, is_empty, refresh_at, tracker_in_id}
use water_dispenser.Tracker.Scan.{
  same_bytes_refl, eq_of_same_bytes, find_slot-none, find_slot-FoundAt, IsUnique, set-IsUnique,
}

-- A device that the scan for an address finds.
record Known (addr : List ℕ) (t : Tracker) (k : ℕ) : Type 0 where
  device : Device
  at : get_elem? t.devices k ≡ some (some device)
  same : device.dev_info.addr ≡ addr

known_of_slot :
    (a : List ℕ) (ss : Slots) (k : ℕ) (s : Option Device)
    → get_elem? ss k ≡ some s
    → has_addr a s ≡ true
    → (d : Device) × (get_elem? ss k ≡ some (some d)) × (d.dev_info.addr ≡ a)
known_of_slot a ss k none at h = cc
known_of_slot a ss k (some d) at h = (d, at, eq_of_same_bytes d.dev_info.addr a h)

get_tracker_device-Known :
    (a : List ℕ) (t : Tracker) (k : ℕ) → get_tracker_device a t ≡ some k → Known a t k
unfolding get_tracker_device
get_tracker_device-Known a t k h =
    let f = find_slot-FoundAt (has_addr a) t.devices k h in
    let (d, at, same) = known_of_slot a t.devices k f.slot f.at f.passes in
    record { device = d; at = at; same = same }

-- Where the scan finds nothing, no device has the address.
unknown-ne :
    (a : List ℕ) (t : Tracker)
    → get_tracker_device a t ≡ none
    → (j : ℕ) (e : Device) → get_elem? t.devices j ≡ some (some e)
    → ¬ (e.dev_info.addr ≡ a)
unfolding get_tracker_device
unknown-ne a t h j e at same =
    let refused = find_slot-none (has_addr a) t.devices 0 h j at in
    let found : same_bytes e.dev_info.addr a ≡ true = rw same (same_bytes_refl a) in ground arith

-- A free slot of the table.
free_slot :
    (ss : Slots) (k : ℕ) (s : Option Device)
    → get_elem? ss k ≡ some s
    → is_empty s ≡ true
    → get_elem? ss k ≡ some none
free_slot ss k none at h = at
free_slot ss k (some d) at h = cc

-- What Tracker_In_ID makes of the table: it writes the slot of the tracker, or a free one, and
-- leaves the table as it is only if the tracker is new and there is no memory or no free slot.
data Entry (ok : Bool) (info : DevInfo) (id : List ℕ) (t : Tracker) : Tracker → Type 0 where
  kept :
      get_tracker_device info.addr t ≡ none
      → (ok ≡ false) ⊎ (find_slot is_empty t.devices 0 ≡ none)
      → Entry ok info id t t
  refresh :
      (k : ℕ) (d : Device)
      → get_elem? t.devices k ≡ some (some d)
      → d.dev_info.addr ≡ info.addr
      → Entry ok info id t (record t { devices = set t.devices k (some (refreshed info d)) })
  create :
      (k : ℕ)
      → get_elem? t.devices k ≡ some none
      → ((j : ℕ) (e : Device)
          → get_elem? t.devices j ≡ some (some e)
          → ¬ (e.dev_info.addr ≡ info.addr))
      → Entry ok info id t (record t { devices = set t.devices k (some (fresh_device info id)) })

tracker_in_id-Entry :
    (ok : Bool) (info : DevInfo) (id : List ℕ) (t : Tracker)
    → Entry ok info id t (tracker_in_id ok info id t)
unfolding tracker_in_id refresh_at
tracker_in_id-Entry ok info id t = elim (Option-cases (get_tracker_device info.addr t)) [
  | inl absent ↦ elim (Option-cases (find_slot is_empty t.devices 0)) [
    | inl full ↦ rw (absent, full, tracker_in_id) (kept absent (inr full))
    | inr (k, free) ↦
        let f = find_slot-FoundAt is_empty t.devices k free in
        rw (absent, free, tracker_in_id)
          (created ok absent k (free_slot t.devices k f.slot f.at f.passes))
  ]
  | inr (k, here) ↦
      let n = get_tracker_device-Known info.addr t k here in
      rw (here, tracker_in_id) (rw (n.at, refresh_at) (refresh k n.device n.at n.same))
]
  where
    created :
        (b : Bool)
        → get_tracker_device info.addr t ≡ none
        → (k : ℕ) → get_elem? t.devices k ≡ some none
        → Entry b info id t
            (if b then record t { devices = set t.devices k (some (fresh_device info id)) } else t)
    created true absent k at = create k at (unknown-ne info.addr t absent)
    created false absent k at = kept absent (inl refl)

Entry-IsUnique :
    {ok : Bool} {info : DevInfo} {id : List ℕ} {t u : Tracker}
    → Entry ok info id t u
    → IsUnique t.devices
    → IsUnique u.devices
Entry-IsUnique (kept absent why) u = u
Entry-IsUnique {info = info} {t = t} (refresh k d at same) u =
    set-IsUnique t.devices k (refreshed info d) u (λ j e ej es. u j k e d ej at (es ∙ sym same))
Entry-IsUnique {info = info} {id = id} {t = t} (create k at fresh) u =
    set-IsUnique t.devices k (fresh_device info id) u (λ j e ej es. absurd (fresh j e ej es))

-- Tracker_In_ID never makes a second entry for an address, whatever is heard and whether or not
-- there is memory for a new entry.
pub tracker_in_id-IsUnique :
    (ok : Bool) (info : DevInfo) (id : List ℕ) (t : Tracker)
    → IsUnique t.devices
    → IsUnique (tracker_in_id ok info id t).devices
tracker_in_id-IsUnique ok info id t u = Entry-IsUnique (tracker_in_id-Entry ok info id t) u

-- The entry of a tracker that was just heard.
pub record Heard (info : DevInfo) (t : Tracker) : Type 0 where
  pub slot : ℕ
  pub device : Device
  pub at : get_elem? t.devices slot ≡ some (some device)
  pub info_kept : device.dev_info ≡ info
  pub enabled : device.enable ≡ 1
  pub just_heard : device.disable_time ≡ 0
  pub found : get_tracker_device info.addr t ≡ some slot

-- A scan for an address that one slot alone holds finds that slot.
found_of_unique :
    (a : List ℕ) (t : Tracker) (k : ℕ) (d : Device)
    → IsUnique t.devices
    → get_elem? t.devices k ≡ some (some d)
    → d.dev_info.addr ≡ a
    → get_tracker_device a t ≡ some k
found_of_unique a t k d u at same = elim (Option-cases (get_tracker_device a t)) [
  | inl absent ↦ absurd (unknown-ne a t absent k d at same)
  | inr (j, here) ↦
      let n = get_tracker_device-Known a t j here in
      let e : j ≡ k = u j k n.device d n.at at (n.same ∙ sym same) in here ∙ ap some e
]

-- There is a place for the tracker: a free slot, or a slot that holds its address.
abbrev pub HasPlace : DevInfo → Tracker → Type 0
HasPlace info t =
    ((k : ℕ) × (get_elem? t.devices k ≡ some none))
    ⊎ ((k : ℕ) × (d : Device) × (get_elem? t.devices k ≡ some (some d))
        × (d.dev_info.addr ≡ info.addr))

no_place :
    (info : DevInfo) (t : Tracker)
    → HasPlace info t
    → get_tracker_device info.addr t ≡ none
    → (true ≡ false) ⊎ (find_slot is_empty t.devices 0 ≡ none)
    → ⊥
no_place info t p absent (inl e) = cc
no_place info t (inl (k, at)) absent (inr full) =
    let refused = find_slot-none is_empty t.devices 0 full k at in cc
no_place info t (inr (k, d, at, same)) absent (inr full) = unknown-ne info.addr t absent k d at same

Entry-Heard :
    {info : DevInfo} {id : List ℕ} {t u : Tracker}
    → Entry true info id t u
    → IsUnique u.devices
    → HasPlace info t
    → Heard info u
Entry-Heard {info = info} {t = t} (kept absent why) v p = absurd (no_place info t p absent why)
Entry-Heard {info = info} {t = t} (refresh k d at same) v p =
    let here =
      get_elem?-set_self t.devices k (some (refreshed info d)) (get_elem?-lt t.devices k at) in
    record {
      slot = k;
      device = refreshed info d;
      at = here;
      info_kept = refl;
      enabled = refl;
      just_heard = refl;
      found = found_of_unique info.addr _ k (refreshed info d) v here refl;
    }
Entry-Heard {info = info} {id = id} {t = t} (create k at fresh) v p =
    let here =
      get_elem?-set_self t.devices k (some (fresh_device info id)) (get_elem?-lt t.devices k at) in
    record {
      slot = k;
      device = fresh_device info id;
      at = here;
      info_kept = refl;
      enabled = refl;
      just_heard = refl;
      found = found_of_unique info.addr _ k (fresh_device info id) v here refl;
    }

-- Where there is memory, and a free slot or an entry for the tracker, the tracker that Tracker_In_ID
-- is called with is afterwards found by its address, enabled, with what was heard of it.
pub tracker_in_id-Heard :
    (info : DevInfo) (id : List ℕ) (t : Tracker)
    → IsUnique t.devices
    → HasPlace info t
    → Heard info (tracker_in_id true info id t)
tracker_in_id-Heard info id t u p =
    Entry-Heard (tracker_in_id-Entry true info id t) (tracker_in_id-IsUnique true info id t u) p
