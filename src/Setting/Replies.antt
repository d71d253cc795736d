-- ===== src/Setting/Replies.antt =====
-- The answer of each setting command (Setting_callback of main/setting_cmd.c).
use water_dispenser.Base.{
  ℕ, zero, suc, ◌+◌, ◌/◌, ◌%◌, ◌^◌, ◌≤◌, ◌≡◌, refl, ◌∙◌, true, false, List, [], ◌∷◌, length, take,
  take-all, arith, ◌==◌, if◌then◌else◌, either, either_known,
}
use water_dispenser.Float.{FloatOps}
use water_dispenser.Setting.{
  Setting, Sensors, Call, ble_send_data_to_queue, set_rgb_led_for_number, tpl0401_set_value,
  byte_at, setting_case, setting_callback, light_bits, headed, log, send,
}
use water_dispenser.Setting.Packet.{
  Headed, headed-Headed, set-Headed, set_u16-Headed, ir_bytes-Headed,
}

-- How many packets were sent.
abbrev pub packets : List Call → ℕ
packets [] = 0
packets (ble_send_data_to_queue p ∷ cs) = suc (packets cs)
packets (set_rgb_led_for_number i r g b w ∷ cs) = packets cs
packets (tpl0401_set_value v ∷ cs) = packets cs

-- The last call sends the buffer, which has the head of an answer, and no other packet was sent.
pub record Answered (cmd : ℕ) (before after : Setting) : Type 0 where
  pub earlier : List Call
  pub sent : after.calls ≡ ble_send_data_to_queue after.packet_buf ∷ earlier
  pub only : packets earlier ≡ packets before.calls
  pub head : Headed cmd after.packet_buf

-- What the loop over the bits leaves.
record Lit (s s' : Setting) : Type 0 where
  buffer : s'.packet_buf ≡ s.packet_buf
  only : packets s'.calls ≡ packets s.calls

light_bits-Lit : (n i : ℕ) (p : List ℕ) (s : Setting) → Lit s (light_bits n i p s)
unfolding light_bits
light_bits-Lit zero i p s = record { buffer = refl; only = refl }
light_bits-Lit (suc n) i p s =
    let next : Setting =
      if (byte_at p 2 / 2 ^ i) % 2 == 1
      then log (set_rgb_led_for_number i (byte_at p 3) (byte_at p 4) (byte_at p 5) (byte_at p 6)) s
      else s in
    let here : Lit s next =
      either (Lit s) ((byte_at p 2 / 2 ^ i) % 2 == 1) _ _ (record { buffer = refl; only = refl })
        (record { buffer = refl; only = refl }) in
    let rest = light_bits-Lit n (i + 1) p next in
    record { buffer = rest.buffer ∙ here.buffer; only = rest.only ∙ here.only }

led_answer :
    (cmd : ℕ) (p : List ℕ) (s : Setting) (packet : List ℕ)
    → Headed cmd (headed packet cmd)
    → Answered cmd s
        (send (light_bits 8 0 p (record s { packet_buf = headed packet cmd; led_debug = true })))
led_answer cmd p s packet head =
    let lit =
      light_bits-Lit 8 0 p (record s { packet_buf = headed packet cmd; led_debug = true }) in
    record { earlier = _; sent = refl; only = lit.only; head = rw lit.buffer head }

eight :
    (n : ℕ)
    → 2 ≤ n
    → n ≤ 8
    → (n == 2) ≡ false
    → (n == 3) ≡ false
    → (n == 4) ≡ false
    → (n == 5) ≡ false
    → (n == 6) ≡ false
    → (n == 7) ≡ false
    → (n == 8) ≡ true
eight n low high a b c d e f = ground arith

-- Each command of 2 to 8 sends one packet, of 20 bytes, with the code of an answer and the number of
-- the command; the LED and the pump may be driven before it. The packet that comes has 20 bytes.
pub setting_callback-Answered :
    (ops : FloatOps) (x : Sensors) (p : List ℕ) (s : Setting)
    → length p ≡ 20
    → 2 ≤ byte_at p 1
    → byte_at p 1 ≤ 8
    → Answered (byte_at p 1) s (setting_callback ops x p s)
unfolding setting_callback setting_case
setting_callback-Answered ops x p s size low high =
    let cmd = byte_at p 1 in
    let whole : length (take 20 p) ≡ 20 = rw (take-all 20 p (rw size (omega arith))) size in
    let head = headed-Headed (take 20 p) cmd whole in
    let zero_not : (cmd == 0) ≡ false = ground arith in
    let one_not : (cmd == 1) ≡ false = ground arith in
    rw (zero_not, one_not)
      (either_known (Answered cmd s) (cmd == 2) _ _
        (λ e. record {
          earlier = s.calls;
          sent = refl;
          only = refl;
          head =
              set_u16-Headed cmd _ 4 _ (omega arith) (set_u16-Headed cmd _ 2 _ (omega arith) head);
        })
        (λ not_2.
          either_known (Answered cmd s) (cmd == 3) _ _
            (λ e. record {
              earlier = s.calls;
              sent = refl;
              only = refl;
              head = ir_bytes-Headed cmd x s.app _ head;
            })
            (λ not_3.
              either_known (Answered cmd s) (cmd == 4) _ _
                (λ e. led_answer cmd p s (take 20 p) head)
                (λ not_4.
                  either_known (Answered cmd s) (cmd == 5) _ _
                    (λ e. record { earlier = _; sent = refl; only = refl; head = head })
                    (λ not_5.
                      either_known (Answered cmd s) (cmd == 6) _ _
                        (λ e. record { earlier = s.calls; sent = refl; only = refl; head = head })
                        (λ not_6.
                          either_known (Answered cmd s) (cmd == 7) _ _
                            (λ e. record {
                              earlier = s.calls;
                              sent = refl;
                              only = refl;
                              head = set-Headed cmd _ 2 _ (omega arith) head;
                            })
                            (λ not_7.
                              rw (eight (byte_at p 1) low high not_2 not_3 not_4 not_5 not_6 not_7)
                                (record {
                                  earlier = s.calls;
                                  sent = refl;
                                  only = refl;
                                  head = head;
                                }))))))))
