-- ===== src/Smart/Session.antt =====
-- The rounds of a drinking session's phase (`Smart_Water` of main/opmode_task.c), however many
-- they are.
use water_dispenser.Base.{
  ℕ, ◌+◌, ◌^◌, ◌≤◌, ◌<◌, ◌≡◌, ap, sym, ◌∙◌, true, false, List, [], ◌∷◌, arith, u32, expired, ◌==◌,
  All, subst,
}
use water_dispenser.Float.{Float, FloatOps}
use water_dispenser.Board.{DrinkPacket}
use water_dispenser.Tracker.{Tracker}
use water_dispenser.Smart.{
  smart_run_verify, smart_run_stable, smart_stop_check, Inputs, Water, accessed, smart_water,
  smart_waters,
}
use water_dispenser.Smart.Edges.{is_here}
use water_dispenser.Smart.Phase.{
  At, spiked, spikeds, IsAfter, accessed-At, switch, verify-At, stable-At, stop_check-At,
}

-- Rounds of the phases: `start` is the tick that set the deadline, `delay` the ticks to it.
abbrev pub Verifies : ℕ → ℕ → Inputs → Type 0
Verifies start delay i =
    ((i.sensor_detected == 0) ≡ false) × ((e : ℕ) × (e < delay) × IsAfter start e i)

abbrev pub Away : ℕ → Inputs → Type 0
Away start i = (is_here i ≡ false) × ((e : ℕ) × (e < 300) × IsAfter start e i)

pub not_yet :
    (start delay e : ℕ)
    → delay < 2 ^ 31
    → e < delay
    → expired (u32 (u32 start + delay)) (u32 (start + e)) ≡ false
not_yet start delay e fits h = ground arith

pub by_now :
    (start delay e : ℕ)
    → delay < 2 ^ 31
    → delay ≤ e
    → e < 2 ^ 31
    → expired (u32 (u32 start + delay)) (u32 (start + e)) ≡ true
by_now start delay e fits h k = ground arith

module _ (ops : FloatOps) (tick : ℕ) (t : Tracker) (log : List DrinkPacket) where
  pub verifies :
      (start delay : ℕ) (is : List Inputs) (weight : Float) (w : Water)
      → delay < 2 ^ 31
      → All (Verifies start delay) is
      → At smart_run_verify (u32 (u32 start + delay)) weight tick t log w
      → At smart_run_verify
          (u32 (u32 start + delay))
          (spikeds ops weight is)
          tick
          t
          log
          (smart_waters ops is w)
  unfolding smart_waters spikeds
  verifies start delay [] weight w fits a h = h
  verifies start delay (i ∷ is) weight w fits ((here, (e, early, r)), a) h =
      let d = u32 (u32 start + delay) in
      let x = accessed ops i w in
      let g = accessed-At ops i w smart_run_verify d weight tick t log h in
      let q = switch ops i w smart_run_verify d weight tick t log h in
      let n = ap (expired d) r ∙ not_yet start delay e fits early in
      let k = verify-At ops i x d weight tick t log g here n in
      verifies start delay is (spiked ops weight i) (smart_water ops i w) fits a
        (subst (λ v. At smart_run_verify d (spiked ops weight i) tick t log v) (sym q) k)

  pub stables :
      (is : List Inputs) (target : ℕ) (weight : Float) (w : Water)
      → All (λ i. is_here i ≡ true) is
      → At smart_run_stable target weight tick t log w
      → At smart_run_stable target weight tick t log (smart_waters ops is w)
  unfolding smart_waters
  stables [] target weight w a h = h
  stables (i ∷ is) target weight w (here, a) h =
      let x = accessed ops i w in
      let g = accessed-At ops i w smart_run_stable target weight tick t log h in
      let q = switch ops i w smart_run_stable target weight tick t log h in
      stables is target weight (smart_water ops i w) a (
        subst (λ v. At smart_run_stable target weight tick t log v) (sym q)
          (stable-At ops i x target weight tick t log g here))

  pub aways :
      (start : ℕ) (is : List Inputs) (weight : Float) (w : Water)
      → All (Away start) is
      → At smart_stop_check (u32 (u32 start + 300)) weight tick t log w
      → At smart_stop_check (u32 (u32 start + 300)) weight tick t log (smart_waters ops is w)
  unfolding smart_waters
  aways start [] weight w a h = h
  aways start (i ∷ is) weight w ((here, (e, early, r)), a) h =
      let d = u32 (u32 start + 300) in
      let x = accessed ops i w in
      let g = accessed-At ops i w smart_stop_check d weight tick t log h in
      let q = switch ops i w smart_stop_check d weight tick t log h in
      let n = ap (expired d) r ∙ not_yet start 300 e (omega arith) early in
      aways start is weight (smart_water ops i w) a (
        subst (λ v. At smart_stop_check d weight tick t log v)
          (sym (q ∙ stop_check-At ops i x d weight tick t log g here n)) g)
