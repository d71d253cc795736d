-- ===== src/Setting/Values.antt =====
-- The thresholds that the app sets and reads back (IR_SetValue, IR_GetValue, Beacon_SetValue and
-- Beacon_GetValue of main/setting_cmd.c), whatever other commands come between.
use water_dispenser.Base.{
  ℕ, zero, suc, ◌+◌, ◌/◌, ◌%◌, ◌^◌, ◌<◌, ◌≡◌, refl, ◌∙◌, ap, false, List, [], ◌∷◌, length, take,
  take-all, arith, ◌==◌, if◌then◌else◌, either,
}
use water_dispenser.Float.{FloatOps}
use water_dispenser.Setting.{
  Setting, Sensors, set_rgb_led_for_number, ble_send_data_to_queue, byte_at, setting_case,
  setting_callback, setting_callbacks, light_bits, headed, log,
}
use water_dispenser.Setting.Packet.{headed-Headed, Thresholds, ir_bytes-Thresholds}

pub light_bits-app : (n i : ℕ) (p : List ℕ) (s : Setting) → (light_bits n i p s).app ≡ s.app
unfolding light_bits
light_bits-app zero i p s = refl
light_bits-app (suc n) i p s =
    light_bits-app n (i + 1) p (
      if (byte_at p 2 / 2 ^ i) % 2 == 1
      then log (set_rgb_led_for_number i (byte_at p 3) (byte_at p 4) (byte_at p 5) (byte_at p 6)) s
      else s)
    ∙ either (λ (x : Setting). x.app ≡ s.app) ((byte_at p 2 / 2 ^ i) % 2 == 1) _ _ refl refl

-- No packet has this `cmd_type`.
abbrev pub Others : ℕ → List (Sensors × List ℕ) → Type 0
Others cmd [] = Unit
Others cmd ((x, p) ∷ ps) = ((byte_at p 1 == cmd) ≡ false) × Others cmd ps

-- What a command other than IR_SetValue and Beacon_SetValue leaves.
record SameThresholds (s s' : Setting) : Type 0 where
  left : s'.app.tof_sense_threshold_l ≡ s.app.tof_sense_threshold_l
  right : s'.app.tof_sense_threshold_r ≡ s.app.tof_sense_threshold_r

case-SameThresholds :
    (ops : FloatOps) (x : Sensors) (cmd : ℕ) (p : List ℕ) (s : Setting)
    → (cmd == 6) ≡ false
    → SameThresholds s (setting_case ops x cmd p s)
unfolding setting_case
case-SameThresholds ops x cmd p s h =
    let P : Setting → Type 0 = SameThresholds s in
    either P (cmd == 0) _ _ (record { left = refl; right = refl })
      (either P (cmd == 1) _ _ (record { left = refl; right = refl })
        (either P (cmd == 2) _ _ (record { left = refl; right = refl })
          (either P (cmd == 3) _ _ (record { left = refl; right = refl })
            (either P (cmd == 4) _ _
              (record {
                left = ap (λ a. a.tof_sense_threshold_l) (light_bits-app 8 0 p _);
                right = ap (λ a. a.tof_sense_threshold_r) (light_bits-app 8 0 p _);
              })
              (either P (cmd == 5) _ _ (record { left = refl; right = refl })
                (rw h (
                  either P (cmd == 7) _ _ (record { left = refl; right = refl })
                    (either P (cmd == 8) _ _ (record { left = refl; right = refl })
                      (record { left = refl; right = refl })))))))))

callbacks-SameThresholds :
    (ops : FloatOps) (ps : List (Sensors × List ℕ)) (s : Setting)
    → Others 6 ps
    → SameThresholds s (setting_callbacks ops ps s)
unfolding setting_callbacks setting_callback
callbacks-SameThresholds ops [] s o = record { left = refl; right = refl }
callbacks-SameThresholds ops ((x, p) ∷ ps) s o =
    let loaded = record s { packet_buf = take 20 p } in
    let first = case-SameThresholds ops x (byte_at p 1) p loaded o.0 in
    let rest = callbacks-SameThresholds ops ps (setting_case ops x (byte_at p 1) p loaded) o.1 in
    record { left = rest.left ∙ first.left; right = rest.right ∙ first.right }

-- The answer with the thresholds.
pub record Told (l r : ℕ) (before after : Setting) : Type 0 where
  pub sent : after.calls ≡ ble_send_data_to_queue after.packet_buf ∷ before.calls
  pub values : Thresholds l r after.packet_buf

set-thresholds :
    (ops : FloatOps) (x : Sensors) (p : List ℕ) (s : Setting)
    → byte_at p 1 ≡ 6
    → ((setting_callback ops x p s).app.tof_sense_threshold_l ≡ byte_at p 2)
      × ((setting_callback ops x p s).app.tof_sense_threshold_r ≡ byte_at p 3)
unfolding setting_callback setting_case
set-thresholds ops x p s h = rw h (refl, refl)

get-Told :
    (ops : FloatOps) (x : Sensors) (q : List ℕ) (s : Setting)
    → byte_at q 1 ≡ 3
    → length q ≡ 20
    → s.app.tof_sense_threshold_l < 65536
    → s.app.tof_sense_threshold_r < 65536
    → Told s.app.tof_sense_threshold_l s.app.tof_sense_threshold_r s (setting_callback ops x q s)
unfolding setting_callback setting_case
get-Told ops x q s h size hl hr =
    let whole : length (take 20 q) ≡ 20 = rw (take-all 20 q (rw size (omega arith))) size in
    rw h (record {
      sent = refl;
      values =
          ir_bytes-Thresholds x s.app (headed (take 20 q) 3) (headed-Headed (take 20 q) 3 whole) hl
            hr;
    })

-- The thresholds of an IR_SetValue are those that the next IR_GetValue answers, in its bytes 8 to 11,
-- whatever other commands come between. The last packet has 20 bytes.
pub setting_callbacks-Told :
    (ops : FloatOps) (x y : Sensors) (p q : List ℕ) (ps : List (Sensors × List ℕ)) (s : Setting)
    → byte_at p 1 ≡ 6
    → byte_at p 2 < 256
    → byte_at p 3 < 256
    → Others 6 ps
    → byte_at q 1 ≡ 3
    → length q ≡ 20
    → Told
        (byte_at p 2)
        (byte_at p 3)
        (setting_callbacks ops ps (setting_callback ops x p s))
        (setting_callback ops y q (setting_callbacks ops ps (setting_callback ops x p s)))
setting_callbacks-Told ops x y p q ps s hp hl hr o hq size =
    let first = setting_callback ops x p s in
    let mid = setting_callbacks ops ps first in
    let given = set-thresholds ops x p s hp in
    let same = callbacks-SameThresholds ops ps first o in
    let left : mid.app.tof_sense_threshold_l ≡ byte_at p 2 = same.left ∙ given.0 in
    let right : mid.app.tof_sense_threshold_r ≡ byte_at p 3 = same.right ∙ given.1 in
    let told = get-Told ops y q mid hq size (rw left (omega arith)) (rw right (omega arith)) in
    record {
      sent = told.sent;
      values = record {
        head = told.values.head;
        left = told.values.left ∙ left;
        right = told.values.right ∙ right;
      };
    }
