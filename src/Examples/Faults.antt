-- ===== src/Examples/Faults.antt =====
-- Examples of the messages about faults and health.
use water_dispenser.Base.{ℕ, ◌^◌, ◌*◌, ◌≡◌, ◌≢◌, ◌⊎◌, inl, inr, refl, arith}
use water_dispenser.Base.Bits.{bit}
use water_dispenser.Board.{Board, water_fault_enable, water_fault_disable}
use water_dispenser.Examples.{calm_board}
use water_dispenser.Mqtt.{
  Vitals, status_ok, critical, water_empty, part_water_supply, alert_of, diagnostics_data,
  health_data, seconds_in_days,
}
use water_dispenser.Mqtt.Diagnosis.{
  status_of, Told, empty, water_fault_enable-Told, water_fault_disable-Told,
}
use water_dispenser.Mqtt.Lifetime.{Lifetimes, health_data-Lifetimes}

abbrev vitals : Vitals
vitals = record { uptime_sec = 60; reset_reason = 1; rssi_dbm = 206 }

water_fault_enable-Told_example :
    Told vitals 1
      (alert_of critical water_empty part_water_supply)
      calm_board
      (water_fault_enable (2 ^ 1) calm_board)
    × (status_of part_water_supply
          (diagnostics_data vitals (2 ^ 1) (water_fault_enable (2 ^ 1) calm_board)).subsystems
        ≢ status_ok)
water_fault_enable-Told_example =
    water_fault_enable-Told vitals 1 calm_board empty (record { synced = refl; word = omega arith })
      refl

-- The tank is empty, and that has been reported.
abbrev empty_board : Board
empty_board = record calm_board { fault_code = 2; fault_code_buf = 2 }

only_flag : (j : ℕ) → j ≢ 1 → (j ≡ 0) ⊎ (j ≡ 1) → bit j empty_board.fault_code ≡ 0
only_flag j ne (inl e) = rw e refl
only_flag j ne (inr e) = absurd (ne e)

water_fault_disable-Told_example :
    Told vitals 1
      (alert_of critical water_empty part_water_supply)
      empty_board
      (water_fault_disable (2 ^ 1) empty_board)
    × (status_of part_water_supply
          (diagnostics_data vitals (2 ^ 1) (water_fault_disable (2 ^ 1) empty_board)).subsystems
        ≡ status_ok)
water_fault_disable-Told_example =
    water_fault_disable-Told vitals 1 empty_board empty
      (record { synced = refl; word = omega arith }) refl only_flag

health_data-Lifetimes_example :
    Lifetimes
      (60 * seconds_in_days)
      100000
      6000000
      (health_data vitals 60 0 100000 6000000 empty_board).water_filter_life_pct
      (health_data vitals 60 0 100000 6000000 empty_board).debris_filter_life_pct
      (health_data vitals 60 0 100000 6000000 empty_board).water_level
health_data-Lifetimes_example =
    health_data-Lifetimes vitals 60 0 100000 6000000 empty_board (omega arith) (omega arith)
