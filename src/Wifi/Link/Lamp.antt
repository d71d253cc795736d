-- ===== src/Wifi/Link/Lamp.antt =====
-- The pairing lamp and the connection (main/wifi/wifi_task.c).
use water_dispenser.Base.{◌<◌, ◌≡◌, refl, Bool, true, false, not, List, [], ◌∷◌, arith}
use water_dispenser.Base.Register.{has_iff, has-eq_false}
use water_dispenser.Board.{Board, led_bit_enable, led_bit_disable, pairing_enable, pairing_bit}
use water_dispenser.Board.Flags.{
  led_bit_enable-bit, led_bit_disable-bit, led_bit_enable-lt, led_bit_disable-lt,
}
use water_dispenser.Wifi.Link.{
  Link, Event, sta_start, sta_disconnected, sta_got_ip, retry_timer, wifi_event_handler, events,
}

-- Whether the last word of the driver was an address.
abbrev pub online : Bool → List Event → Bool
online up [] = up
online up (sta_start ∷ es) = online false es
online up (sta_disconnected ∷ es) = online false es
online up (sta_got_ip ∷ es) = online true es
online up (retry_timer ∷ es) = online up es

pub record Lit (up : Bool) (l : Link) : Type 0 where
  pub register : l.board.led_status < 65536
  pub lamp : pairing_enable l.board ≡ not up

lamp_on : (b : Board) → pairing_enable (led_bit_enable pairing_bit b) ≡ true
unfolding pairing_enable
lamp_on b =
    (has_iff (led_bit_enable pairing_bit b).led_status 15).1
      (ground (arith, led_bit_enable-bit b 15 15))

lamp_off :
    (b : Board) → b.led_status < 65536 → pairing_enable (led_bit_disable pairing_bit b) ≡ false
unfolding pairing_enable
lamp_off b h =
    (has-eq_false (led_bit_disable pairing_bit b).led_status 15).1
      (ground (arith, led_bit_disable-bit b 15 15 h (omega arith) (omega arith)))

-- The retries leave the lamp alone.
lost-board :
    (l : Link) → (wifi_event_handler sta_disconnected l).board ≡ led_bit_enable pairing_bit l.board
unfolding wifi_event_handler
lost-board l = ground arith

start-board :
    (l : Link) → (wifi_event_handler sta_start l).board ≡ led_bit_enable pairing_bit l.board
unfolding wifi_event_handler
start-board l = refl

found-board :
    (l : Link) → (wifi_event_handler sta_got_ip l).board ≡ led_bit_disable pairing_bit l.board
unfolding wifi_event_handler
found-board l = refl

timer-board : (l : Link) → (wifi_event_handler retry_timer l).board ≡ l.board
unfolding wifi_event_handler
timer-board l = ground arith

board-Lit :
    (up : Bool) (b : Board) (l : Link)
    → l.board ≡ b
    → b.led_status < 65536
    → pairing_enable b ≡ not up
    → Lit up l
board-Lit up b l e r p = record { register = rw e r; lamp = rw e p }

-- The pairing lamp shows the connection: it is lit exactly while the driver's last word was a start or
-- a lost connection and not an address, whatever the retries and the timer do.
pub events-Lit :
    (es : List Event) (up : Bool) (l : Link) → Lit up l → Lit (online up es) (events es l)
unfolding events
events-Lit [] up l h = h
events-Lit (sta_start ∷ es) up l h = events-Lit es false (wifi_event_handler sta_start l) (
    board-Lit false (led_bit_enable pairing_bit l.board) (wifi_event_handler sta_start l)
      (start-board l) (led_bit_enable-lt l.board 15 h.register (omega arith)) (lamp_on l.board))
events-Lit (sta_disconnected ∷ es) up l h =
    events-Lit es false (wifi_event_handler sta_disconnected l) (
      board-Lit false (led_bit_enable pairing_bit l.board) (wifi_event_handler sta_disconnected l)
        (lost-board l) (led_bit_enable-lt l.board 15 h.register (omega arith)) (lamp_on l.board))
events-Lit (sta_got_ip ∷ es) up l h = events-Lit es true (wifi_event_handler sta_got_ip l) (
    board-Lit true (led_bit_disable pairing_bit l.board) (wifi_event_handler sta_got_ip l)
      (found-board l) (led_bit_disable-lt l.board 15 h.register) (lamp_off l.board h.register))
events-Lit (retry_timer ∷ es) up l h =
    events-Lit es up (wifi_event_handler retry_timer l)
      (board-Lit up l.board (wifi_event_handler retry_timer l) (timer-board l) h.register h.lamp)
