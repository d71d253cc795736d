-- ===== src/Wifi/Link/Forsaken.antt =====
-- A connection that Wifi_Disconnect ended is the last that is tried again (main/wifi/wifi_task.c):
-- s_allow_reconnect is set to false there and nowhere to true.
use water_dispenser.Base.{
  ℕ, ◌≡◌, refl, ◌∙◌, ap, Bool, true, false, ◌||◌, List, [], ◌∷◌, arith, Bool-cases, inl, inr, ◌⊎◌,
  take,
}
use water_dispenser.Wifi.Link.{
  esp_wifi_set_config, Link, Event, sta_start, sta_disconnected, sta_got_ip, retry_timer,
  wifi_event_handler, events, wifi_disconnect, wait_bits, begin, finish, call, judge, wifi_connect,
  Provision, wifi_prov, result_ok, timeout,
}

-- What the events leave of a connection that may not be tried again.
pub record Idle (before after : Link) : Type 0 where
  pub forbidden : after.allow_reconnect ≡ false
  pub calls : after.calls ≡ before.calls
  pub failed : after.failed ≡ before.failed

event-Idle : (e : Event) (l : Link) → l.allow_reconnect ≡ false → Idle l (wifi_event_handler e l)
unfolding wifi_event_handler
event-Idle sta_start l h = record { forbidden = h; calls = refl; failed = refl }
event-Idle sta_disconnected l h = ground arith
event-Idle sta_got_ip l h = record { forbidden = h; calls = refl; failed = refl }
event-Idle retry_timer l h = ground arith

join : (l l' l'' : Link) → Idle l l' → Idle l' l'' → Idle l l''
join l l' l'' a b = record {
  forbidden = b.forbidden;
  calls = b.calls ∙ a.calls;
  failed = b.failed ∙ a.failed;
}

events-Idle : (es : List Event) (l : Link) → l.allow_reconnect ≡ false → Idle l (events es l)
unfolding events
events-Idle [] l h = record { forbidden = h; calls = refl; failed = refl }
events-Idle (e ∷ es) l h =
    let first = event-Idle e l h in
    join l (wifi_event_handler e l) (events es (wifi_event_handler e l)) first
      (events-Idle es (wifi_event_handler e l) first.forbidden)

wait_bits-Idle : (es : List Event) (l : Link) → l.allow_reconnect ≡ false → Idle l (wait_bits es l)
unfolding wait_bits
wait_bits-Idle [] l h = record { forbidden = h; calls = refl; failed = refl }
wait_bits-Idle (e ∷ es) l h = elim (Bool-cases (l.connected || l.failed)) [
  | inl over ↦ rw over (record { forbidden = h; calls = refl; failed = refl })
  | inr waiting ↦ rw waiting (
      let first = event-Idle e l h in
      join l (wifi_event_handler e l) (wait_bits es (wifi_event_handler e l)) first
        (wait_bits-Idle es (wifi_event_handler e l) first.forbidden))
]

-- After Wifi_Disconnect has ended a connection.
disconnect-forbidden :
    (pause : List Event) (l : Link) → (wifi_disconnect true pause l).allow_reconnect ≡ false
unfolding wifi_disconnect
disconnect-forbidden pause l = (events-Idle pause _ refl).forbidden

-- The end of the wait changes neither.
record Kept (l l' : Link) : Type 0 where
  forbidden : l'.allow_reconnect ≡ l.allow_reconnect
  failed : l'.failed ≡ l.failed

finish-Kept : (l : Link) → Kept l (finish l)
finish-Kept l = ground arith

module _ (ssid password : List ℕ) (pause waiting : List Event) (l : Link) where
  abbrev ready : Link
  ready =
      call (esp_wifi_set_config (take 31 ssid) (take 63 password)) (wifi_disconnect true pause l)

  waited : Idle (begin ready) (wait_bits waiting (begin ready))
  waited = wait_bits-Idle waiting (begin ready) (disconnect-forbidden pause l)

  wifi_connect-forbidden :
      (accepted : Bool)
      → (wifi_connect true accepted ssid password pause waiting l).allow_reconnect ≡ false
  unfolding wifi_connect
  wifi_connect-forbidden false = disconnect-forbidden pause l
  wifi_connect-forbidden true =
      (finish-Kept (wait_bits waiting (begin ready))).forbidden ∙ waited.forbidden

  wifi_connect-failed : (wifi_connect true true ssid password pause waiting l).failed ≡ false
  unfolding wifi_connect
  wifi_connect-failed = (finish-Kept (wait_bits waiting (begin ready))).failed ∙ waited.failed

-- A change of the network that ends a connection is the last: whatever the driver and the timer do
-- later, no further connection is asked for, no failure is marked and no timer is started.
pub wifi_connect-Idle :
    (accepted : Bool) (ssid password : List ℕ) (pause waiting later : List Event) (l : Link)
    → Idle
        (wifi_connect true accepted ssid password pause waiting l)
        (events later (wifi_connect true accepted ssid password pause waiting l))
wifi_connect-Idle accepted ssid password pause waiting later l =
    events-Idle later (wifi_connect true accepted ssid password pause waiting l)
      (wifi_connect-forbidden ssid password pause waiting l accepted)

judge-ne : (l : Link) → l.failed ≡ false → (judge l ≡ result_ok) ⊎ (judge l ≡ timeout)
judge-ne l h = ground arith

-- The app that changes the network while the dispenser is connected is told of success or of a
-- timeout, never of a wrong password, however often the driver fails. The driver takes the settings.
pub wifi_prov-answer :
    (ssid password : List ℕ) (pause waiting : List Event) (p : Provision)
    → ((wifi_prov true true ssid password pause waiting p).answers ≡ result_ok ∷ p.answers)
      ⊎ ((wifi_prov true true ssid password pause waiting p).answers ≡ timeout ∷ p.answers)
unfolding wifi_prov
wifi_prov-answer ssid password pause waiting p =
    elim (judge-ne (wifi_connect true true ssid password pause waiting p.link)
      (wifi_connect-failed ssid password pause waiting p.link)) [
        | inl ok ↦ inl (ap (λ a. a ∷ p.answers) ok)
        | inr late ↦ inr (ap (λ a. a ∷ p.answers) late)
      ]
