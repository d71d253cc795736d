-- ===== src/Ble/Transfer.antt =====
-- The packets of a transfer (BLE_Receive_data, main/ble/ble_parse.c).
use water_dispenser.Base.{
  ℕ, ◌+◌, ◌-◌, ◌≤◌, ◌<◌, ◌≡◌, refl, ap, ap₂, sym, ◌∙◌, Bool, true, false, List, [], ◌++◌, arith,
  leb, ◌==◌, set, replicate, length, take-all, length-append, some,
}
use water_dispenser.Ble.{
  motion_start_response, motion_data, Client, tracker_activity, Ble, ble_call, put_client,
  find_client, has_mac, get_conn_client_by_mac, motion_timer_set,
}
use water_dispenser.Ble.Receive.{
  start_response, store, non_saved, finished, acknowledge, data_packet, buffered_packet,
  ble_receive_data,
}
use water_dispenser.Ble.Table.{find_client-put, find_client-Found}
use water_dispenser.Ble.Store.{filled_buffer, stored_points, store_lem}
use water_dispenser.Ble.Motion.{
  Activity, activities, start_requests, Receiving, motion_timer_set-kept,
}

-- The code of the two packets for a client that is found.
start_found :
    (now : ℕ) (mac : List ℕ) (total send non_save i : ℕ) (c : Client) (b : Ble)
    → get_conn_client_by_mac (some mac) b ≡ some (i, c)
    → (send == 0) ≡ false
    → ble_receive_data true now mac (motion_start_response total send non_save) b
      ≡ some (
          motion_timer_set (some mac) true (
            put_client i
              (start_response true now (motion_start_response total send non_save) total send c)
              b))
unfolding ble_receive_data
start_found now mac total send non_save i c b h some_points =
    rw (h, some_points, ble_receive_data) refl

pub data_found :
    (mem : Bool) (now : ℕ) (mac : List ℕ) (seq : ℕ) (mlc : List ℕ) (i : ℕ) (c : Client)
    (xs : List ℕ) (b : Ble)
    → get_conn_client_by_mac (some mac) b ≡ some (i, c)
    → c.data_buf ≡ some xs
    → ble_receive_data mem now mac (motion_data seq mlc) b ≡ some (data_packet mac seq mlc i c xs b)
unfolding ble_receive_data
data_found mem now mac seq mlc i c xs b h buf =
    rw (h, ble_receive_data) (ap (λ d. some (buffered_packet mac seq mlc i c d b)) buf)

-- A client that was written to its place is found there by the same address.
pub found_again :
    (mac : List ℕ) (i : ℕ) (c d : Client) (b e : Ble)
    → get_conn_client_by_mac (some mac) b ≡ some (i, c)
    → e.clients ≡ set b.clients i d
    → has_mac mac d ≡ has_mac mac c
    → get_conn_client_by_mac (some mac) e ≡ some (i, d)
unfolding get_conn_client_by_mac
found_again mac i c d b e h put same =
    let f = find_client-Found (has_mac mac) b.clients 0 (i, c) h in
    ap (λ cs. find_client (has_mac mac) cs 0) put
    ∙ find_client-put (has_mac mac) b.clients i c d h (same ∙ f.passes)

-- A start response with points to send, for a client that is connected, begins a transfer.
pub start-Receiving :
    (now : ℕ) (mac : List ℕ) (total send non_save i : ℕ) (c : Client) (b : Ble)
    → get_conn_client_by_mac (some mac) b ≡ some (i, c)
    → (send == 0) ≡ false
    → (e : Ble) × (ble_receive_data true now mac (motion_start_response total send non_save) b
        ≡ some e)
      × Receiving mac send total non_save (activities b.calls) (start_requests b.calls) [] e
unfolding start_response
start-Receiving now mac total send non_save i c b h some_points =
    let p = motion_start_response total send non_save in
    let d = start_response true now p total send c in
    let put = put_client i d b in
    let k = motion_timer_set-kept mac true put in
    let e = motion_timer_set (some mac) true put in
    let whole : send - 0 ≡ send = omega arith in
    (
      e,
      start_found now mac total send non_save i c b h some_points,
      record {
        index = i;
        client = d;
        found = found_again mac i c d b e h k.0 refl;
        buffer = ap (λ n. some (replicate n 0)) (sym whole);
        count = refl;
        announced = refl;
        whole = refl;
        unsaved = refl;
        acts_are = k.1;
        reqs_are = k.2;
      },
    )

-- The client after the bytes of a packet were stored.
abbrev pub fed : List ℕ → List ℕ → Client → Client
fed mlc xs c =
    let stored = store mlc xs c.input_count c.send_point in
    record c { data_buf = some (stored.0); input_count = stored.1 }

module _ (mac : List ℕ) (seq : ℕ) (mlc : List ℕ) (i : ℕ) (c : Client) (xs : List ℕ) (b : Ble) where
  data_more :
      leb (fed mlc xs c).send_point (fed mlc xs c).input_count ≡ false
      → data_packet mac seq mlc i c xs b
        ≡ motion_timer_set (some mac) true (put_client i (fed mlc xs c) b)
  unfolding data_packet
  data_more h = rw h refl

  pub data_last :
      leb (fed mlc xs c).send_point (fed mlc xs c).input_count ≡ true
      → data_packet mac seq mlc i c xs b
        ≡ acknowledge mac seq (finished (fed mlc xs c)) (
            put_client i (finished (fed mlc xs c)) (
              ble_call
                (tracker_activity mac
                  (store mlc xs c.input_count c.send_point).0
                  c.total_point
                  c.send_point
                  (non_saved c.start_res))
                (motion_timer_set (some mac) false (put_client i (fed mlc xs c) b))))
  unfolding data_packet
  data_last h = rw h refl

-- In a transfer, what the store of a packet makes of the client.
module _ (mac : List ℕ) (send total non_save : ℕ) (acts : List Activity) (reqs : ℕ) (pts : List ℕ)
    (b : Ble) (r : Receiving mac send total non_save acts reqs pts b) (mlc : List ℕ)
    (fits : length pts ≤ send) where
  pub stored_eq :
      (store mlc (filled_buffer send pts) r.client.input_count r.client.send_point).0
      ≡ filled_buffer send (stored_points send pts mlc)
  stored_eq =
      ap₂ (λ n m. (store mlc (filled_buffer send pts) n m).0) r.count r.announced
      ∙ (store_lem mlc pts send fits).0

  pub count_eq :
      (store mlc (filled_buffer send pts) r.client.input_count r.client.send_point).1
      ≡ length (stored_points send pts mlc)
  count_eq =
      ap₂ (λ n m. (store mlc (filled_buffer send pts) n m).1) r.count r.announced
      ∙ (store_lem mlc pts send fits).1

  -- A packet that leaves room.
  pub more-Receiving :
      (mem : Bool) (now seq : ℕ)
      → length pts + length mlc < send
      → (e : Ble) × (ble_receive_data mem now mac (motion_data seq mlc) b ≡ some e)
        × Receiving mac send total non_save acts reqs (pts ++ mlc) e
  more-Receiving mem now seq room =
      let xs = filled_buffer send pts in
      let c = r.client in
      let i = r.index in
      let d = fed mlc xs c in
      let put = put_client i d b in
      let k = motion_timer_set-kept mac true put in
      let e = motion_timer_set (some mac) true put in
      let all : stored_points send pts mlc ≡ pts ++ mlc =
        ap (λ t. pts ++ t) (take-all (send - length pts) mlc (omega arith)) in
      let n : length (stored_points send pts mlc) ≡ length pts + length mlc =
        ap length all ∙ length-append pts mlc in
      let early : leb d.send_point d.input_count ≡ false =
        ground (arith, count_eq, n, r.announced) in
      (
        e,
        data_found mem now mac seq mlc i c xs b r.found r.buffer
            ∙ ap some (data_more mac seq mlc i c xs b early),
        record {
          index = i;
          client = d;
          found = found_again mac i c d b e r.found k.0 refl;
          buffer = ap some (stored_eq ∙ ap (filled_buffer send) all);
          count = count_eq ∙ ap length all;
          announced = r.announced;
          whole = r.whole;
          unsaved = r.unsaved;
          acts_are = k.1 ∙ r.acts_are;
          reqs_are = k.2 ∙ r.reqs_are;
        },
      )
