-- ===== src/Motor/Usage/Life.antt =====
-- The life of one part, second by second (main/gpio/app_moter.c).
use water_dispenser.Base.{ℕ, zero, suc, ◌+◌, ◌^◌, ◌<◌, ◌≡◌, ◌||◌, ◌&&◌, not, arith, leb}
use water_dispenser.Motor.Usage.{Part, wear}

-- The end of the life is noted exactly if it has come.
abbrev pub IsNoted : ℕ → Part → Type 0
IsNoted life p = p.send_flag ≡ leb life p.used_time

-- One second of use is added; the end of the life is noted exactly if it has come; and a save is
-- asked for in exactly the second in which it comes.
pub wear_lem :
    (life : ℕ) (p : Part)
    → IsNoted life p
    → p.used_time + 1 < 2 ^ 32
    → IsNoted life (wear life p)
      × ((wear life p).used_time ≡ p.used_time + 1)
      × ((wear life p).save_flag
          ≡ (p.save_flag || (leb life (p.used_time + 1) && not (leb life p.used_time))))
unfolding wear
wear_lem life p noted fits = ground arith

abbrev pub wears : ℕ → ℕ → Part → Part
wears life zero p = p
wears life (suc n) p = wears life n (wear life p)

-- A part whose end was not noted, after n seconds of use: its time has grown by n, the end of its
-- life is noted exactly if it has come, and a save is asked for exactly if it has come meanwhile.
pub wears_lem :
    (life n : ℕ) (p : Part)
    → IsNoted life p
    → p.used_time + n < 2 ^ 32
    → ((wears life n p).used_time ≡ p.used_time + n)
      × IsNoted life (wears life n p)
      × ((wears life n p).save_flag
          ≡ (p.save_flag || (leb life (p.used_time + n) && not (leb life p.used_time))))
wears_lem life zero p noted fits = ground arith
wears_lem life (suc n) p noted fits =
    let (noted', used, saved) = wear_lem life p noted (omega arith) in
    let (used', end, asked) = wears_lem life n (wear life p) noted' (omega arith) in
    (omega arith, end, ground arith)
