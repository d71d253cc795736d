-- ===== src/Examples/Sessions.antt =====
-- Examples of the drinking sessions.
use water_dispenser.Base.{◌≡◌, refl, true, false, [], ◌∷◌, arith}
use water_dispenser.Examples.{whole_numbers, calm_board, round, idle_water}
use water_dispenser.Base.Register.{has}
use water_dispenser.Board.Sound.{IsSound}
use water_dispenser.Smart.{smart_water, smart_waters, smart_idle}
use water_dispenser.Smart.Edges.{Edge, smart_water-Edge}
use water_dispenser.Smart.Access.{sent_accesses}
use water_dispenser.Smart.Watch.{Reported, smart_waters-Reported}
use water_dispenser.Smart.Splash.{Calm, smart_waters-Calm}
use water_dispenser.Smart.Visit.{Visit, Booked, visit_rounds, visit-Booked}

calm : IsSound calm_board
calm = record { reported = record { synced = refl; word = omega arith }; register = omega arith }

-- A visit that drinks 40 g: it comes at tick 100 with 500 g, and leaves at tick 900 with 460 g.
abbrev visit : Visit
visit = record {
  come = round 1 100 500;
  wait = round 1 110 500 ∷ round 1 120 495 ∷ [];
  confirm = round 1 600 480;
  drink = round 1 700 470 ∷ [];
  leave = round 0 900 460;
  away = round 0 1000 460 ∷ [];
  over = round 0 1200 460;
}

visit-Booked_example :
    Booked whole_numbers visit idle_water
      (smart_waters whole_numbers (visit_rounds visit) idle_water)
unfolding has
visit-Booked_example =
    visit-Booked whole_numbers 100 500 900 300 visit idle_water
      (record {
        comes = (refl, refl);
        waits = ((refl, (10, omega arith, refl)), ((refl, (20, omega arith, refl)), tt));
        confirms = (refl, omega arith, omega arith, refl);
        drinking = (refl, tt);
        leaves = (refl, refl);
        is_away = ((refl, (100, omega arith, refl)), tt);
        is_over = (refl, omega arith, omega arith, refl);
      })
      refl

smart_water-Edge_example :
    Edge true false false smart_idle
      (smart_water whole_numbers (round 1 100 500) (record idle_water {
        smart = record idle_water.smart { smart_timer_target = 200 };
      })).smart.smart_state
unfolding has
smart_water-Edge_example =
    smart_water-Edge whole_numbers (round 1 100 500)
      (record idle_water { smart = record idle_water.smart { smart_timer_target = 200 } })

smart_waters-Calm_example :
    Calm calm_board (smart_waters whole_numbers (visit_rounds visit) idle_water).board
smart_waters-Calm_example = smart_waters-Calm whole_numbers (visit_rounds visit) idle_water calm

-- The animal comes at tick 100 and is still there at tick 600.
smart_waters-Reported_example :
    (sent_accesses (
        smart_waters whole_numbers
          (round 1 300 500 ∷ [])
          (smart_water whole_numbers (round 1 100 500) idle_water))
      ≡ sent_accesses idle_water)
    × Reported 1
        (record { detect_flag = 1; start_weight = 500 })
        (sent_accesses idle_water)
        (smart_water whole_numbers (round 1 600 480) (
          smart_waters whole_numbers
            (round 1 300 500 ∷ [])
            (smart_water whole_numbers (round 1 100 500) idle_water)))
unfolding has
smart_waters-Reported_example =
    smart_waters-Reported whole_numbers 100 (round 1 100 500) (round 1 300 500 ∷ [])
      (round 1 600 480) 500 idle_water refl refl
      ((200, omega arith, record { sensor_read = refl; tick_read = refl }), tt)
      (record { sensor_read = refl; tick_read = refl }) (omega arith) (omega arith)
