-- ===== src/Smart/Watch.antt =====
-- The five seconds of a sensor change (parts 1 and 2 of `Smart_Water`, main/opmode_task.c).
use water_dispenser.Base.{
  ℕ, ◌+◌, ◌^◌, ◌≤◌, ◌<◌, ◌≡◌, refl, ap, sym, ◌∙◌, Bool, true, false, not, List, [], ◌∷◌, arith, u32,
  expired, ◌==◌, All, subst,
}
use water_dispenser.Float.{FloatOps}
use water_dispenser.Board.{Board, AccessPacket, mqtt_queue_send}
use water_dispenser.Smart.{
  AccessState, access_mqtt_idle, access_mqtt_verify_5s, Smart, Inputs, Water, access_change,
  access_check, idle, accessed, smart_water, smart_waters,
}
use water_dispenser.Smart.Access.{
  accesses, sent_accesses, smart_water-SameAccess, change_packet, Watching, Reads, watched,
  changed-Watching,
}

-- A round that reads a value other than the last one sends nothing, and starts the five seconds,
-- whatever was being watched before.
pub smart_water-Watching :
    (ops : FloatOps) (i : Inputs) (w : Water) (start : ℕ)
    → i.current_tick ≡ u32 start
    → (i.sensor_detected == w.smart.sensor_detected_buf) ≡ false
    → Watching i.sensor_detected start
        (change_packet ops i w.smart.sensor_detected_buf)
        (sent_accesses w)
        (smart_water ops i w)
smart_water-Watching ops i w start tick ne =
    watched i.sensor_detected start (change_packet ops i w.smart.sensor_detected_buf)
      (sent_accesses w) (accessed ops i w) (smart_water ops i w) (smart_water-SameAccess ops i w)
      (changed-Watching ops i w start tick ne)

-- A watched change after its report: it is over, and its packet was sent once more than before.
pub record Reported (sensor : ℕ) (p : AccessPacket) (log : List AccessPacket) (w : Water)
    : Type 0 where
  pub state : w.smart.access_mqtt_state ≡ access_mqtt_idle
  pub buf : w.smart.sensor_detected_buf ≡ sensor
  pub sent : sent_accesses w ≡ p ∷ log

module _ (ops : FloatOps) (sensor start : ℕ) (p : AccessPacket) (log : List AccessPacket)
    (i : Inputs) (w : Water) (h : Watching sensor start p log w) (elapsed : ℕ)
    (r : Reads sensor start elapsed i) where
  unchanged : access_change ops i w.smart ≡ w.smart
  unfolding access_change
  unchanged = ground (arith, h.buf, r.sensor_read)

  held_accessed : elapsed < 500 → accessed ops i w ≡ w
  unfolding accessed access_check
  held_accessed early =
      let e : expired (u32 (start + 500)) (u32 (start + elapsed)) ≡ false = ground arith in
      rw unchanged (ground (arith, h.state, h.val, h.target, r.sensor_read, r.tick_read, e))

  held-Watching : elapsed < 500 → Watching sensor start p log (smart_water ops i w)
  held-Watching early =
      watched sensor start p log (accessed ops i w) (smart_water ops i w)
        (smart_water-SameAccess ops i w)
        (subst (λ v. Watching sensor start p log v) (sym (held_accessed early)) h)

  late_accessed : 500 ≤ elapsed → elapsed < 2 ^ 31 → Reported sensor p log (accessed ops i w)
  unfolding accessed access_check mqtt_queue_send accesses
  late_accessed late fits =
      let e : expired (u32 (start + 500)) (u32 (start + elapsed)) ≡ true = ground arith in
      rw unchanged (record {
        state = ground (arith, h.state, h.val, h.target, r.sensor_read, r.tick_read, e);
        buf = ground (arith, h.buf, h.state);
        sent =
            ground
              (arith, h.state, h.val, h.target, r.sensor_read, r.tick_read, e, h.packet, h.sent);
      })

  late-Reported : 500 ≤ elapsed → elapsed < 2 ^ 31 → Reported sensor p log (smart_water ops i w)
  late-Reported late fits =
      let s = smart_water-SameAccess ops i w in
      let l = late_accessed late fits in
      record { state = s.state ∙ l.state; buf = s.buf ∙ l.buf; sent = s.sent ∙ l.sent }

-- Rounds that read `sensor` less than five seconds after `start`.
abbrev pub Early : ℕ → ℕ → Inputs → Type 0
Early sensor start i = (e : ℕ) × (e < 500) × Reads sensor start e i

smart_waters-Watching :
    (ops : FloatOps) (sensor start : ℕ) (p : AccessPacket) (log : List AccessPacket)
    (is : List Inputs) (w : Water)
    → All (Early sensor start) is
    → Watching sensor start p log w
    → Watching sensor start p log (smart_waters ops is w)
unfolding smart_waters
smart_waters-Watching ops sensor start p log [] w a h = h
smart_waters-Watching ops sensor start p log (i ∷ is) w ((e, early, r), a) h =
    smart_waters-Watching ops sensor start p log is (smart_water ops i w) a
      (held-Watching ops sensor start p log i w h e r early)

-- A sensor change is reported exactly once, with the values of the round that saw it, if the
-- sensor keeps its new value: not in the rounds before five seconds have passed, and in the first
-- round after them (within 2 ^ 31 ticks).
pub smart_waters-Reported :
    (ops : FloatOps) (start : ℕ) (i : Inputs) (held : List Inputs) (last : Inputs) (elapsed : ℕ)
    (w : Water)
    → i.current_tick ≡ u32 start
    → (i.sensor_detected == w.smart.sensor_detected_buf) ≡ false
    → All (Early i.sensor_detected start) held
    → Reads i.sensor_detected start elapsed last
    → 500 ≤ elapsed
    → elapsed < 2 ^ 31
    → (sent_accesses (smart_waters ops held (smart_water ops i w)) ≡ sent_accesses w)
      × Reported i.sensor_detected
          (change_packet ops i w.smart.sensor_detected_buf)
          (sent_accesses w)
          (smart_water ops last (smart_waters ops held (smart_water ops i w)))
smart_waters-Reported ops start i held last elapsed w tick ne early r late fits =
    let p = change_packet ops i w.smart.sensor_detected_buf in
    let h =
      smart_waters-Watching ops i.sensor_detected start p (sent_accesses w) held
        (smart_water ops i w) early (smart_water-Watching ops i w start tick ne) in
    (
      h.sent,
      late-Reported ops i.sensor_detected start p (sent_accesses w) last
          (smart_waters ops held (smart_water ops i w)) h elapsed r late fits,
    )

-- Nothing more is sent while the sensor keeps the reported value.
quiet_accessed :
    (ops : FloatOps) (i : Inputs) (w : Water)
    → w.smart.access_mqtt_state ≡ access_mqtt_idle
    → i.sensor_detected ≡ w.smart.sensor_detected_buf
    → accessed ops i w ≡ w
unfolding accessed access_change access_check
quiet_accessed ops i w idle same = ground arith

-- While no change is watched and the sensor keeps its value, no access message is sent.
pub smart_waters-quiet :
    (ops : FloatOps) (is : List Inputs) (w : Water)
    → w.smart.access_mqtt_state ≡ access_mqtt_idle
    → All (λ i. i.sensor_detected ≡ w.smart.sensor_detected_buf) is
    → sent_accesses (smart_waters ops is w) ≡ sent_accesses w
unfolding smart_waters
smart_waters-quiet ops [] w idle a = refl
smart_waters-quiet ops (i ∷ is) w idle (same, a) =
    let s = smart_water-SameAccess ops i w in
    let q = quiet_accessed ops i w idle same in
    let x = smart_water ops i w in
    let state = s.state ∙ ap (λ v. v.smart.access_mqtt_state) q ∙ idle in
    let buf = s.buf ∙ ap (λ v. v.smart.sensor_detected_buf) q in
    smart_waters-quiet ops is x state (subst (λ b. All (λ j. j.sensor_detected ≡ b) is) (sym buf) a)
    ∙ s.sent
    ∙ ap sent_accesses q

abbrev are_aligned : AccessState → ℕ → ℕ → Bool
are_aligned access_mqtt_idle val buf = true
are_aligned access_mqtt_verify_5s val buf = val == buf

-- While a change is watched, its value is the last one read.
abbrev pub is_aligned : Smart → Bool
is_aligned s = are_aligned s.access_mqtt_state s.target_sensor_val s.sensor_detected_buf

-- The condition of the branch that cancels the five seconds.
abbrev pub is_cancelled : Inputs → Smart → Bool
is_cancelled i s = elim s.access_mqtt_state [
  | access_mqtt_idle ↦ false
  | access_mqtt_verify_5s ↦ not (i.sensor_detected == s.target_sensor_val)
]

access_change-aligned :
    (ops : FloatOps) (i : Inputs) (s : Smart)
    → is_aligned s ≡ true
    → (is_aligned (access_change ops i s) ≡ true) × (is_cancelled i (access_change ops i s) ≡ false)
unfolding access_change
access_change-aligned ops i s h = ground arith

access_check-aligned :
    (i : Inputs) (s : Smart) (b : Board)
    → is_aligned s ≡ true
    → is_aligned (access_check i s b).0 ≡ true
unfolding access_check
access_check-aligned i s b h = ground arith

-- The branch that cancels the five seconds is never taken: in every round, a watched value is the
-- value that the round has read, and the next round finds the same.
pub smart_water-aligned :
    (ops : FloatOps) (i : Inputs) (w : Water)
    → is_aligned w.smart ≡ true
    → (is_cancelled i (access_change ops i w.smart) ≡ false)
      × (is_aligned (smart_water ops i w).smart ≡ true)
unfolding accessed
smart_water-aligned ops i w h =
    let c = access_change-aligned ops i w.smart h in
    let k = access_check-aligned i (access_change ops i w.smart) w.board c.0 in
    let s = smart_water-SameAccess ops i w in (c.1, rw (s.state, s.val, s.buf) k)
