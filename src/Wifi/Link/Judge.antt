-- ===== src/Wifi/Link/Judge.antt =====
-- What the app is told of its first connection (wifi_prov of main/ble/ble_parse.c with Wifi_Connect of
-- main/wifi/wifi_task.c).
use water_dispenser.Base.{
  ℕ, zero, suc, ◌+◌, ◌≡◌, refl, ap, Bool, true, false, ◌||◌, ◌&&◌, not, List, [], ◌∷◌, ◌++◌, arith,
  ltb, if◌then◌else◌, replicate, take,
}
use water_dispenser.Wifi.Link.{
  esp_wifi_set_config, Link, Event, sta_disconnected, sta_got_ip, wifi_event_handler,
  wifi_disconnect, wait_bits, begin, finish, judge, call, wifi_connect, Provision, wifi_prov,
  Answer, result_ok, auth_fail, timeout,
}

-- A connection that waits, with `left` tries left.
record Waits (left : ℕ) (l : Link) : Type 0 where
  tries : l.retry_num + left ≡ 5
  allowed : l.allow_reconnect ≡ true
  offline : l.connected ≡ false
  hopeful : l.failed ≡ false

lose-Waits :
    (left : ℕ) (l : Link) → Waits (suc left) l → Waits left (wifi_event_handler sta_disconnected l)
unfolding wifi_event_handler
lose-Waits left l w = ground arith

lose_last : (l : Link) → Waits 0 l → (wifi_event_handler sta_disconnected l).failed ≡ true
unfolding wifi_event_handler
lose_last l w = ground arith

lose_offline : (l : Link) → (wifi_event_handler sta_disconnected l).connected ≡ false
unfolding wifi_event_handler
lose_offline l = ground arith

-- A set bit ends the wait.
wait_bits-over : (es : List Event) (l : Link) → l.connected || l.failed ≡ true → wait_bits es l ≡ l
unfolding wait_bits
wait_bits-over [] l over = refl
wait_bits-over (e ∷ es) l over = rw over refl

wait_bits-goes_on :
    (e : Event) (es : List Event) (l : Link) {left : ℕ}
    → Waits left l
    → wait_bits (e ∷ es) l ≡ wait_bits es (wifi_event_handler e l)
unfolding wait_bits
wait_bits-goes_on e es l w =
    let waiting : l.connected || l.failed ≡ false = rw (w.offline, w.hopeful) refl in
    rw waiting refl

-- The verdict after `lost` failures, with an address behind them or not.
abbrev pub verdict : (left lost : ℕ) → Bool → Answer
verdict left lost up = if ltb left lost then auth_fail else if up then result_ok else timeout

abbrev pub address : Bool → List Event → List Event
address up later = if up then sta_got_ip ∷ later else []

got_ip_judged :
    (l : Link) (later : List Event)
    → judge (finish (wait_bits later (wifi_event_handler sta_got_ip l))) ≡ result_ok
unfolding wifi_event_handler
got_ip_judged l later = rw (wait_bits-over later (wifi_event_handler sta_got_ip l) refl) refl

failed_judged :
    (l : Link) (later : List Event)
    → l.failed ≡ true
    → l.connected ≡ false
    → judge (finish (wait_bits later l)) ≡ auth_fail
failed_judged l later failed offline =
    let over : l.connected || l.failed ≡ true = rw (failed, offline) refl in
    rw (wait_bits-over later l over) (ground arith)

none_judged :
    (l : Link) → l.connected ≡ false → l.failed ≡ false → judge (finish (wait_bits [] l)) ≡ timeout
unfolding wait_bits
none_judged l offline hopeful = ground arith

event_judged :
    (up : Bool) (later : List Event) (left : ℕ) (l : Link)
    → Waits left l
    → judge (finish (wait_bits (address up later) l)) ≡ (if up then result_ok else timeout)
event_judged true later left l w =
    rw (wait_bits-goes_on sta_got_ip later l w) (got_ip_judged l later)
event_judged false later left l w = none_judged l w.offline w.hopeful

wait_judged :
    (left lost : ℕ) (up : Bool) (later : List Event) (l : Link)
    → Waits left l
    → judge (finish (wait_bits (replicate lost sta_disconnected ++ address up later) l))
      ≡ verdict left lost up
wait_judged left zero up later l w =
    let few : ltb left 0 ≡ false = ground arith in rw few (event_judged up later left l w)
wait_judged zero (suc lost) up later l w =
    let over : ltb 0 (suc lost) ≡ true = ground arith in
    rw
      (
        over,
        wait_bits-goes_on sta_disconnected (replicate lost sta_disconnected ++ address up later) l
            w,
      )
      (failed_judged (wifi_event_handler sta_disconnected l)
        (replicate lost sta_disconnected ++ address up later) (lose_last l w) (lose_offline l))
wait_judged (suc left) (suc lost) up later l w =
    let same : ltb (suc left) (suc lost) ≡ ltb left lost = ground arith in
    rw
      (
        same,
        wait_bits-goes_on sta_disconnected (replicate lost sta_disconnected ++ address up later) l
            w,
      )
      (wait_judged left lost up later (wifi_event_handler sta_disconnected l) (lose-Waits left l w))

connected_by :
    (l : Link) (lost : ℕ) (up : Bool)
    → judge l ≡ verdict 5 lost up
    → l.connected ≡ (not (ltb 5 lost) && up)
connected_by l lost up h = ground arith

-- What the app is told, and whether the settings are saved.
pub record Judged (lost : ℕ) (up : Bool) (before after : Provision) : Type 0 where
  pub told : after.answers ≡ verdict 5 lost up ∷ before.answers
  pub saved :
      after.wifi_save_flag ≡ (if not (ltb 5 lost) && up then true else before.wifi_save_flag)

-- The app that sets up a dispenser that is on no network gets the verdict of the driver: after six
-- failures or more `auth_fail`, after fewer and an address `ok`, and `timeout` if there is no
-- address in time; the settings are saved exactly with `ok`. The driver takes the settings, and
-- reconnection is allowed.
pub wifi_prov-Judged :
    (lost : ℕ) (up : Bool) (ssid password : List ℕ) (later : List Event) (p : Provision)
    → p.link.allow_reconnect ≡ true
    → Judged lost up p (
        wifi_prov false true ssid password []
          (replicate lost sta_disconnected ++ (if up then sta_got_ip ∷ later else []))
          p)
unfolding wifi_prov wifi_connect wifi_disconnect
wifi_prov-Judged lost up ssid password later p allowed =
    let l = begin (call (esp_wifi_set_config (take 31 ssid) (take 63 password)) p.link) in
    let h =
      wait_judged 5 lost up later l
        (record { tries = refl; allowed = allowed; offline = refl; hopeful = refl }) in
    let w = finish (wait_bits (replicate lost sta_disconnected ++ address up later) l) in
    record {
      told = ap (λ a. a ∷ p.answers) h;
      saved = ap (λ b. if b then true else p.wifi_save_flag) (connected_by w lost up h);
    }
