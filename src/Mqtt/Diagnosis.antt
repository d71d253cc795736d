-- ===== src/Mqtt/Diagnosis.antt =====
-- What a diagnostics message tells of the fault code (main/mqtt/tx_mqtt.c), and the message of a flag
-- that was just turned.
use water_dispenser.Base.{
  ℕ, ◌^◌, ◌<◌, ◌≡◌, ◌≢◌, ◌↔◌, ◌⊎◌, inl, inr, refl, ap, ◌∙◌, Bool, false, some, ◌∷◌, arith, ◌==◌,
  if◌then◌else◌, Bool-cases,
}
use water_dispenser.Base.Bits.{bit}
use water_dispenser.Base.Register.{has, set_bits, has-eq_false, has-set_bits}
use water_dispenser.Board.{Board, message_diagnostics, water_fault_enable, water_fault_disable}
use water_dispenser.Board.Report.{IsReported, water_fault_enable-Turned, water_fault_disable-Turned}
use water_dispenser.Mqtt.{
  Status, status_ok, Subsystems, subsystems, critical, normal, Part, part_water_supply,
  part_loadcell, part_motor_pump, part_filter_water, part_filter_debris, Alert, alert_of, alert,
  water_empty, bowl_detached, water_low, pump_err, filter_water_expired, filter_debris_expired,
  Vitals, diagnostics_data,
}

-- The state that is told of a part.
abbrev pub status_of : Part → Subsystems → Status
status_of part_water_supply s = s.water_supply
status_of part_loadcell s = s.loadcell
status_of part_motor_pump s = s.motor_pump
status_of part_filter_water s = s.filter_water
status_of part_filter_debris s = s.filter_debris

-- The flags of a part: of two, the second is the same where it has one only.
abbrev pub flags_of : Part → ℕ × ℕ
flags_of part_water_supply = (0, 1)
flags_of part_loadcell = (2, 3)
flags_of part_motor_pump = (5, 5)
flags_of part_filter_water = (9, 9)
flags_of part_filter_debris = (10, 10)

abbrev pub Sound : Part → ℕ → Type 0
Sound p code = (bit (flags_of p).0 code ≡ 0) × (bit (flags_of p).1 code ≡ 0)

two_flags :
    (code j k : ℕ)
    → (has code (set_bits (2 ^ j) (2 ^ k)) ≡ false) ↔ ((bit j code ≡ 0) × (bit k code ≡ 0))
two_flags code j k = (
  λ h.
      let both = (has-set_bits code (2 ^ j) (2 ^ k)).0 h in
      ((has-eq_false code j).0 both.0, (has-eq_false code k).0 both.1),
  λ off.
      (has-set_bits code (2 ^ j) (2 ^ k)).1
        ((has-eq_false code j).1 off.0, (has-eq_false code k).1 off.1),
)

-- Both messages tell of each part that it is in order exactly if no flag of it is on.
pub subsystems_lem :
    (p : Part) (code : ℕ) → (status_of p (subsystems code) ≡ status_ok) ↔ Sound p code
unfolding subsystems
subsystems_lem part_water_supply code = ground (arith, two_flags code 0 1)
subsystems_lem part_loadcell code = ground (arith, two_flags code 2 3)
subsystems_lem part_motor_pump code = ground (arith, has-eq_false code 5)
subsystems_lem part_filter_water code = ground (arith, has-eq_false code 9)
subsystems_lem part_filter_debris code = ground (arith, has-eq_false code 10)

-- The flags that have an alert, with it.
pub data Alarm : ℕ → Alert → Type 0 where
  empty : Alarm 1 (alert_of critical water_empty part_water_supply)
  detached : Alarm 2 (alert_of critical bowl_detached part_loadcell)
  low : Alarm 0 (alert_of normal water_low part_water_supply)
  pump : Alarm 5 (alert_of critical pump_err part_motor_pump)
  filter_water : Alarm 9 (alert_of normal filter_water_expired part_filter_water)
  filter_debris : Alarm 10 (alert_of normal filter_debris_expired part_filter_debris)

Alarm-lt : {k : ℕ} {a : Alert} → Alarm k a → k < 16
Alarm-lt empty = omega arith
Alarm-lt detached = omega arith
Alarm-lt low = omega arith
Alarm-lt pump = omega arith
Alarm-lt filter_water = omega arith
Alarm-lt filter_debris = omega arith

Alarm-alert : {k : ℕ} {a : Alert} → Alarm k a → alert (2 ^ k) ≡ some a
unfolding alert has
Alarm-alert empty = refl
Alarm-alert detached = refl
Alarm-alert low = refl
Alarm-alert pump = refl
Alarm-alert filter_water = refl
Alarm-alert filter_debris = refl

-- The flag is one of its part.
Alarm-flag :
    {k : ℕ} {a : Alert} (code : ℕ) → Alarm k a → Sound a.affected_subsystem code → bit k code ≡ 0
Alarm-flag code empty s = s.1
Alarm-flag code detached s = s.0
Alarm-flag code low s = s.0
Alarm-flag code pump s = s.0
Alarm-flag code filter_water s = s.0
Alarm-flag code filter_debris s = s.0

-- The message of a flag that was just turned, as it is built before the code changes again.
pub record Told (v : Vitals) (k : ℕ) (a : Alert) (b c : Board) : Type 0 where
  pub sent : c.outbox ≡ message_diagnostics (2 ^ k) ∷ b.outbox
  pub alerted : (diagnostics_data v (2 ^ k) c).alert ≡ some a

diagnostics-alert :
    (v : Vitals) (k : ℕ) {a : Alert} (c : Board)
    → Alarm k a
    → (diagnostics_data v (2 ^ k) c).alert ≡ some a
unfolding diagnostics_data
diagnostics-alert v k c alarm = Alarm-alert alarm

diagnostics-Sound :
    (v : Vitals) (sent : ℕ) (p : Part) (c : Board)
    → c.fault_code_buf ≡ c.fault_code
    → (status_of p (diagnostics_data v sent c).subsystems ≡ status_ok) ↔ Sound p c.fault_code
unfolding diagnostics_data
diagnostics-Sound v sent p c synced = rw synced (subsystems_lem p c.fault_code)

-- A fault with an alert that appears is sent, and the message has its alert and shows that its part is
-- not in order. The fault was off, and what was before has been reported.
pub water_fault_enable-Told :
    (v : Vitals) (k : ℕ) {a : Alert} (b : Board)
    → Alarm k a
    → IsReported b
    → bit k b.fault_code ≡ 0
    → Told v k a b (water_fault_enable (2 ^ k) b)
      × (status_of a.affected_subsystem
            (diagnostics_data v (2 ^ k) (water_fault_enable (2 ^ k) b)).subsystems
          ≢ status_ok)
water_fault_enable-Told v k {a} b alarm reported off =
    let c = water_fault_enable (2 ^ k) b in
    let t = water_fault_enable-Turned k b (Alarm-lt alarm) reported in
    (
      record { sent = ground (arith, t.sent); alerted = diagnostics-alert v k c alarm },
      λ ok.
          let s = (diagnostics-Sound v (2 ^ k) a.affected_subsystem c t.reported.synced).0 ok in
          absurd (omega (arith, t.turned, Alarm-flag c.fault_code alarm s)),
    )

-- A fault that goes away is sent with the same alert as one that appears; if no other flag of its
-- part is on, the message shows beside it that the part is in order. The fault was on, and what was
-- before has been reported.
pub water_fault_disable-Told :
    (v : Vitals) (k : ℕ) {a : Alert} (b : Board)
    → Alarm k a
    → IsReported b
    → bit k b.fault_code ≡ 1
    → ((j : ℕ)
        → j ≢ k
        → (j ≡ (flags_of a.affected_subsystem).0) ⊎ (j ≡ (flags_of a.affected_subsystem).1)
        → bit j b.fault_code ≡ 0)
    → Told v k a b (water_fault_disable (2 ^ k) b)
      × (status_of a.affected_subsystem
            (diagnostics_data v (2 ^ k) (water_fault_disable (2 ^ k) b)).subsystems
          ≡ status_ok)
water_fault_disable-Told v k {a} b alarm reported on others =
    let c = water_fault_disable (2 ^ k) b in
    let t = water_fault_disable-Turned k b (Alarm-lt alarm) reported in
    let p = a.affected_subsystem in
    (
      record { sent = ground (arith, t.sent); alerted = diagnostics-alert v k c alarm },
      (diagnostics-Sound v (2 ^ k) p c t.reported.synced).1 (
        cleared (flags_of p).0 (t.flags (flags_of p).0) (λ ne. others (flags_of p).0 ne (inl refl)),
        cleared (flags_of p).1 (t.flags (flags_of p).1) (λ ne. others (flags_of p).1 ne (inr refl)),
      ),
    )
  where
    cleared :
        {x : ℕ} (j : ℕ)
        → x ≡ (if j == k then 0 else bit j b.fault_code)
        → (j ≢ k → bit j b.fault_code ≡ 0)
        → x ≡ 0
    cleared {x} j e h = elim (Bool-cases (j == k)) [
      | inl same ↦ e ∙ ap (λ (t : Bool). if t then 0 else bit j b.fault_code) same
      | inr other ↦
          e ∙ ap (λ (t : Bool). if t then 0 else bit j b.fault_code) other ∙ h (ground arith)
    ]
