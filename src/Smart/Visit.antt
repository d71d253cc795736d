-- ===== src/Smart/Visit.antt =====
-- A whole drinking session (`Smart_Water` of main/opmode_task.c): the animal comes, stays for the
-- dwell time, drinks, leaves, and is away for three seconds.
use water_dispenser.Base.{
  ℕ, ◌+◌, ◌^◌, ◌≤◌, ◌<◌, ◌≡◌, refl, ap, sym, ◌∙◌, true, false, List, [], ◌∷◌, ◌++◌, arith, u32,
  sub_u32, expired, ◌==◌, if◌then◌else◌, All, subst,
}
use water_dispenser.Float.{Float, FloatOps}
use water_dispenser.Board.{DrinkPacket}
use water_dispenser.Tracker.{tracker_waterintake_end}
use water_dispenser.Smart.{
  smart_idle, smart_run_verify, smart_run_stable, smart_stop_check, Inputs, Water, accessed,
  smart_water, smart_waters, diff_weight, drink_packet,
}
use water_dispenser.Smart.Edges.{is_here}
use water_dispenser.Smart.Drink.{sent_drinks, stop_check-Books}
use water_dispenser.Smart.Phase.{
  At, spiked, spikeds, IsAfter, dwell_ticks, accessed-At, switch, idle-At, verify-At_due,
  stable-At_left, stop_check-idle,
}
use water_dispenser.Smart.Session.{Verifies, Away, by_now, verifies, stables, aways}

smart_waters-append :
    (ops : FloatOps) (is js : List Inputs) (w : Water)
    → smart_waters ops (is ++ js) w ≡ smart_waters ops js (smart_waters ops is w)
unfolding smart_waters
smart_waters-append ops [] js w = refl
smart_waters-append ops (i ∷ is) js w = smart_waters-append ops is js (smart_water ops i w)

-- The rounds of a visit.
pub record Visit : Type 0 where
  pub come : Inputs
  pub wait : List Inputs
  pub confirm : Inputs
  pub drink : List Inputs
  pub leave : Inputs
  pub away : List Inputs
  pub over : Inputs

abbrev pub visit_rounds : Visit → List Inputs
visit_rounds v = v.come ∷ (v.wait ++ v.confirm ∷ (v.drink ++ v.leave ∷ (v.away ++ v.over ∷ [])))

-- The sensor is on from tick `start`, is not 0 for the dwell time, is on up to tick `left`, and
-- is off for three seconds from there; `stayed` and `gone` are the ticks of the rounds that end
-- the two times.
pub record IsVisit (start stayed left gone : ℕ) (v : Visit) : Type 0 where
  pub comes : (is_here v.come ≡ true) × (v.come.current_tick ≡ u32 start)
  pub waits : All (Verifies start (dwell_ticks v.come)) v.wait
  pub confirms :
      ((v.confirm.sensor_detected == 0) ≡ false)
      × (dwell_ticks v.come ≤ stayed)
      × (stayed < 2 ^ 31)
      × IsAfter start stayed v.confirm
  pub drinking : All (λ i. is_here i ≡ true) v.drink
  pub leaves : (is_here v.leave ≡ false) × (v.leave.current_tick ≡ u32 left)
  pub is_away : All (Away left) v.away
  pub is_over : (is_here v.over ≡ false) × (300 ≤ gone) × (gone < 2 ^ 31) × IsAfter left gone v.over

-- The start weight of a visit, the amount that is gone, and the packet.
abbrev pub visit_weight : FloatOps → Visit → Float
visit_weight ops v = spiked ops (spikeds ops v.come.weight v.wait) v.confirm

abbrev pub visit_amount : FloatOps → Visit → Float
visit_amount ops v = ops.sub (visit_weight ops v) v.over.weight

abbrev pub visit_packet : FloatOps → Visit → DrinkPacket
visit_packet ops v = record {
  start_weight = visit_weight ops v;
  end_weight = v.over.sent_weight;
  total_intake_ml = if ops.lt ops.zero (visit_amount ops v) then visit_amount ops v else ops.zero;
  duration_sec = sub_u32 v.over.current_tick v.confirm.current_tick;
}

-- What a visit leaves behind.
pub record Booked (ops : FloatOps) (v : Visit) (w x : Water) : Type 0 where
  pub idle_again : x.smart.smart_state ≡ smart_idle
  pub shared : x.tracker ≡ (
      if ops.lt (ops.of_i32 1) (visit_amount ops v)
      then tracker_waterintake_end (ops.to_u32 (visit_amount ops v)) w.tracker
      else w.tracker)
  pub sent : sent_drinks x ≡ (
      if ops.lt (ops.of_i32 1) (visit_amount ops v)
      then visit_packet ops v ∷ sent_drinks w
      else sent_drinks w)

module _ (ops : FloatOps) (start stayed left gone : ℕ) (v : Visit) (w : Water)
    (p : IsVisit start stayed left gone v) (rest : w.smart.smart_state ≡ smart_idle) where
  came-At :
      At smart_run_verify
        (u32 (u32 start + dwell_ticks v.come))
        v.come.weight
        w.smart.drink_start_tick
        w.tracker
        (sent_drinks w)
        (smart_water ops v.come w)
  came-At =
      let x = accessed ops v.come w in
      let h : At smart_idle w.smart.smart_timer_target w.smart.start_weight w.smart.drink_start_tick
          w.tracker (sent_drinks w) w =
        record {
          state_is = rest;
          target_is = refl;
          weight_is = refl;
          tick_is = refl;
          tracker_is = refl;
          log_is = refl;
        } in
      let tick = w.smart.drink_start_tick in
      let g =
        accessed-At ops v.come w smart_idle w.smart.smart_timer_target w.smart.start_weight tick
          w.tracker (sent_drinks w) h in
      let q =
        switch ops v.come w smart_idle w.smart.smart_timer_target w.smart.start_weight tick
          w.tracker (sent_drinks w) h in
      let k =
        idle-At ops v.come x w.smart.smart_timer_target w.smart.start_weight tick w.tracker
          (sent_drinks w) g p.comes.0 in
      subst
        (λ c.
          At smart_run_verify (u32 (c + dwell_ticks v.come)) v.come.weight tick w.tracker
            (sent_drinks w) (smart_water ops v.come w))
        p.comes.1
        (subst
          (λ y.
            At smart_run_verify (u32 (v.come.current_tick + dwell_ticks v.come)) v.come.weight tick
              w.tracker (sent_drinks w) y)
          (sym q) k)

  -- After the rounds of the dwell time, and the one that ends it.
  abbrev confirmed : Water
  confirmed = smart_water ops v.confirm (smart_waters ops v.wait (smart_water ops v.come w))

  confirmed-At :
      At smart_run_stable
        (u32 (u32 start + dwell_ticks v.come))
        (visit_weight ops v)
        v.confirm.current_tick
        w.tracker
        (sent_drinks w)
        (smart_water ops v.confirm (smart_waters ops v.wait (smart_water ops v.come w)))
  confirmed-At =
      let d = u32 (u32 start + dwell_ticks v.come) in
      let tick = w.smart.drink_start_tick in
      let log = sent_drinks w in
      let y = smart_waters ops v.wait (smart_water ops v.come w) in
      let fits : dwell_ticks v.come < 2 ^ 31 = omega arith in
      let weight = spikeds ops v.come.weight v.wait in
      let h =
        verifies ops tick w.tracker log start (dwell_ticks v.come) v.wait v.come.weight
          (smart_water ops v.come w) fits p.waits came-At in
      let g = accessed-At ops v.confirm y smart_run_verify d weight tick w.tracker log h in
      let q = switch ops v.confirm y smart_run_verify d weight tick w.tracker log h in
      let e =
        ap (expired d) p.confirms.3
        ∙ by_now start (dwell_ticks v.come) stayed fits p.confirms.1 p.confirms.2 in
      subst (λ x. At smart_run_stable d (visit_weight ops v) v.confirm.current_tick w.tracker log x)
        (sym q)
        (verify-At_due ops v.confirm (accessed ops v.confirm y) d weight tick w.tracker log g
          p.confirms.0 e)

  -- After the rounds of the drink, and the one that finds the animal gone.
  left-At :
      At smart_stop_check
        (u32 (u32 left + 300))
        (visit_weight ops v)
        v.confirm.current_tick
        w.tracker
        (sent_drinks w)
        (smart_water ops v.leave (smart_waters ops v.drink confirmed))
  left-At =
      let d = u32 (u32 start + dwell_ticks v.come) in
      let tick = v.confirm.current_tick in
      let log = sent_drinks w in
      let weight = visit_weight ops v in
      let y = smart_waters ops v.drink confirmed in
      let h = stables ops tick w.tracker log v.drink d weight confirmed p.drinking confirmed-At in
      let g = accessed-At ops v.leave y smart_run_stable d weight tick w.tracker log h in
      let q = switch ops v.leave y smart_run_stable d weight tick w.tracker log h in
      let k =
        stable-At_left ops v.leave (accessed ops v.leave y) d weight tick w.tracker log g
          p.leaves.0 in
      subst
        (λ c.
          At smart_stop_check (u32 (c + 300)) weight tick w.tracker log (smart_water ops v.leave y))
        p.leaves.1
        (subst
          (λ x. At smart_stop_check (u32 (v.leave.current_tick + 300)) weight tick w.tracker log x)
          (sym q) k)

  over-Booked : Booked ops v w (
      smart_water ops v.over
        (smart_waters ops v.away (smart_water ops v.leave (smart_waters ops v.drink confirmed))))
  unfolding diff_weight drink_packet
  over-Booked =
      let d = u32 (u32 left + 300) in
      let tick = v.confirm.current_tick in
      let log = sent_drinks w in
      let weight = visit_weight ops v in
      let y =
        smart_waters ops v.away (smart_water ops v.leave (smart_waters ops v.drink confirmed)) in
      let h =
        aways ops tick w.tracker log left v.away weight
          (smart_water ops v.leave (smart_waters ops v.drink confirmed)) p.is_away left-At in
      let g = accessed-At ops v.over y smart_stop_check d weight tick w.tracker log h in
      let q = switch ops v.over y smart_stop_check d weight tick w.tracker log h in
      let e =
        ap (expired d) p.is_over.3 ∙ by_now left 300 gone (omega arith) p.is_over.1 p.is_over.2 in
      let x = accessed ops v.over y in
      let b = stop_check-Books ops v.over x in
      let ends = stop_check-idle ops v.over x d weight tick w.tracker log g p.is_over.0 e in
      subst (λ z. Booked ops v w z) (sym q)
        (record {
          idle_again = ends;
          shared =
              ground (arith, b.tracker, p.is_over.0, e, g.target_is, g.weight_is, g.tracker_is);
          sent =
              ground (arith, b.sent, p.is_over.0, e, g.target_is, g.weight_is, g.log_is, g.tick_is);
        })

-- A visit of any number of rounds ends in the idle state and is booked once, at its end: if more
-- than a gram is gone since the start weight (the last spike of the dwell time, or the weight at
-- the start), the amount is shared among the trackers and one drink message tells it, with the
-- ticks since the dwell time was over; if not, trackers and drink messages stay as they were.
pub visit-Booked :
    (ops : FloatOps) (start stayed left gone : ℕ) (v : Visit) (w : Water)
    → IsVisit start stayed left gone v
    → w.smart.smart_state ≡ smart_idle
    → Booked ops v w (smart_waters ops (visit_rounds v) w)
unfolding smart_waters
visit-Booked ops start stayed left gone v w p rest =
    let a = smart_water ops v.come w in
    let c = smart_water ops v.confirm (smart_waters ops v.wait a) in
    let l = smart_water ops v.leave (smart_waters ops v.drink c) in
    let one =
      smart_waters-append ops v.wait (v.confirm ∷ (v.drink ++ v.leave ∷ (v.away ++ v.over ∷ [])))
        a in
    let two = smart_waters-append ops v.drink (v.leave ∷ (v.away ++ v.over ∷ [])) c in
    let three = smart_waters-append ops v.away (v.over ∷ []) l in
    subst (λ z. Booked ops v w z) (sym (one ∙ two ∙ three))
      (over-Booked ops start stayed left gone v w p rest)
