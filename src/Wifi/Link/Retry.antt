-- ===== src/Wifi/Link/Retry.antt =====
-- How often a lost connection is tried again (main/wifi/wifi_task.c).
use water_dispenser.Base.{
  ℕ, zero, suc, ◌+◌, ◌<◌, ◌≡◌, refl, ap, ◌∙◌, ◌⊎◌, inl, inr, min, true, false, List, [], ◌∷◌, ◌++◌,
  arith, ltb, if◌then◌else◌, replicate,
}
use water_dispenser.Wifi.Link.{
  Call, esp_wifi_connect, esp_timer_start_once, wifi_reconnect_delay_us, Link, sta_disconnected,
  Event, wifi_event_handler, events,
}

-- What `lost` failures in a row leave, where `left` tries are left and the timer is not running: a
-- try for each, and after them the mark of a failure and the timer, once.
pub record Lost (left lost : ℕ) (before after : Link) : Type 0 where
  pub tried : after.retry_num ≡ before.retry_num + min lost left
  pub marked : after.failed ≡ (if ltb left lost then true else before.failed)
  pub armed : after.timer_active ≡ ltb left lost
  pub called :
      after.calls
      ≡ (if ltb left lost then esp_timer_start_once wifi_reconnect_delay_us ∷ [] else [])
        ++ (replicate (min lost left) esp_wifi_connect ++ before.calls)
  pub allowed : after.allow_reconnect ≡ true
  pub offline : lost ≡ 0 ⊎ (after.connected ≡ false)

abbrev losses : ℕ → List Event
losses lost = replicate lost sta_disconnected

-- Where the tries are used up and the timer runs, nothing more happens.
record Exhausted (l : Link) : Type 0 where
  spent : l.retry_num ≡ 5
  allowed : l.allow_reconnect ≡ true
  marked : l.failed ≡ true
  armed : l.timer_active ≡ true
  offline : l.connected ≡ false

record SameCalls (l l' : Link) : Type 0 where
  calls : l'.calls ≡ l.calls
  still : Exhausted l'

lose-Exhausted : (l : Link) → Exhausted l → SameCalls l (wifi_event_handler sta_disconnected l)
unfolding wifi_event_handler
lose-Exhausted l x = ground arith

losses-Exhausted : (n : ℕ) (l : Link) → Exhausted l → SameCalls l (events (losses n) l)
unfolding events
losses-Exhausted zero l x = record { calls = refl; still = x }
losses-Exhausted (suc n) l x =
    let s = lose-Exhausted l x in
    let t = losses-Exhausted n (wifi_event_handler sta_disconnected l) s.still in
    record { calls = t.calls ∙ s.calls; still = t.still }

-- A loss with a try left, and one with none.
record Tried (l l' : Link) : Type 0 where
  counted : l'.retry_num ≡ l.retry_num + 1
  allowed : l'.allow_reconnect ≡ true
  failed : l'.failed ≡ l.failed
  idle : l'.timer_active ≡ false
  calls : l'.calls ≡ esp_wifi_connect ∷ l.calls
  offline : l'.connected ≡ false

lose-Tried :
    (l : Link)
    → l.retry_num < 5
    → l.allow_reconnect ≡ true
    → l.timer_active ≡ false
    → Tried l (wifi_event_handler sta_disconnected l)
unfolding wifi_event_handler
lose-Tried l few allowed idle = ground arith

lose-last :
    (l : Link)
    → l.retry_num ≡ 5
    → l.allow_reconnect ≡ true
    → l.timer_active ≡ false
    → Exhausted (wifi_event_handler sta_disconnected l)
      × ((wifi_event_handler sta_disconnected l).calls
          ≡ esp_timer_start_once wifi_reconnect_delay_us ∷ l.calls)
unfolding wifi_event_handler
lose-last l spent allowed idle = ground arith

replicate-behind :
    (n : ℕ) (c : Call) (cs : List Call) → replicate n c ++ c ∷ cs ≡ c ∷ (replicate n c ++ cs)
replicate-behind zero c cs = refl
replicate-behind (suc n) c cs = ap (λ ds. c ∷ ds) (replicate-behind n c cs)

-- A lost connection is tried again at most five times in a row: of `lost` failures in a row, where
-- `left` tries are left, each of the first `left` makes one call of esp_wifi_connect, and the next one
-- marks the failure and starts the timer; the others do nothing. Reconnection is allowed and the timer
-- is not running.
pub losses-Lost :
    (left lost : ℕ) (l : Link)
    → l.retry_num + left ≡ 5
    → l.allow_reconnect ≡ true
    → l.timer_active ≡ false
    → Lost left lost l (events (replicate lost sta_disconnected) l)
unfolding events
losses-Lost left zero l tries allowed idle =
    let none_lost : min 0 left ≡ 0 = omega arith in
    let few : ltb left 0 ≡ false = ground arith in
    record {
      tried = omega arith;
      marked = rw few refl;
      armed = rw few idle;
      called = rw (few, none_lost) refl;
      allowed = allowed;
      offline = inl refl;
    }
losses-Lost zero (suc n) l tries allowed idle =
    let (x, last) = lose-last l (omega arith) allowed idle in
    let s = losses-Exhausted n (wifi_event_handler sta_disconnected l) x in
    let no_try : min (suc n) 0 ≡ 0 = omega arith in
    let over : ltb 0 (suc n) ≡ true = ground arith in
    record {
      tried = omega (arith, s.still.spent);
      marked = rw over s.still.marked;
      armed = rw over s.still.armed;
      called = rw (over, no_try) (s.calls ∙ last);
      allowed = s.still.allowed;
      offline = inr s.still.offline;
    }
losses-Lost (suc left) (suc n) l tries allowed idle =
    let t = lose-Tried l (omega arith) allowed idle in
    let l' = wifi_event_handler sta_disconnected l in
    let ih = losses-Lost left n l' (omega (arith, t.counted)) t.allowed t.idle in
    let more : min (suc n) (suc left) ≡ suc (min n left) = omega arith in
    let same : ltb (suc left) (suc n) ≡ ltb left n = ground arith in
    record {
      tried = omega (arith, ih.tried, t.counted);
      marked = rw same (ih.marked ∙ ap (λ b. if ltb left n then true else b) t.failed);
      armed = rw same ih.armed;
      called =
          rw (same, more)
            (ih.called
              ∙ ap
                  (λ cs.
                    (if ltb left n then esp_timer_start_once wifi_reconnect_delay_us ∷ [] else [])
                    ++ (replicate (min n left) esp_wifi_connect ++ cs))
                  t.calls
              ∙ ap
                  (λ cs.
                    (if ltb left n then esp_timer_start_once wifi_reconnect_delay_us ∷ [] else [])
                    ++ cs)
                  (replicate-behind (min n left) esp_wifi_connect l.calls));
      allowed = ih.allowed;
      offline = inr (still_off n l' t.offline ih.offline);
    }
  where
    still_off :
        (n : ℕ) (l' : Link)
        → l'.connected ≡ false
        → (n ≡ 0) ⊎ ((events (losses n) l').connected ≡ false)
        → (events (losses n) l').connected ≡ false
    still_off zero l' off h = off
    still_off (suc n) l' off (inl e) = absurd (omega arith)
    still_off (suc n) l' off (inr h) = h
