-- ===== src/Loadcell.antt =====
-- The load cell under the bowl (`HX711_Sensing` of main/sensor/app_HX711.c, every 10 ms): the
-- weight, and the detection of a bowl that was taken away and of low water.
pub mod Flag
pub mod Weighed
pub mod Streak
use water_dispenser.Base.{
  ℕ, ◌+◌, ◌^◌, Bool, true, false, ◌&&◌, not, Option, none, some, u32, sub_u32, ltb, leb, ◌==◌,
  if◌then◌else◌,
}
use water_dispenser.Float.{Float, FloatOps}
use water_dispenser.Board.{
  Board, led_bit_status, led_bit_enable, led_bit_disable, water_fault_enable, water_fault_disable,
  hardware_err_bit, water_low_bit, water_low_fault, water_bowl_detached_fault, loadcell_err_bit,
  water_loadcell_err,
}

pub record ScaleConfig : Type 0 where
  pub case_raw_data : ℕ
  pub hx1_scale : Float
  pub min_weight_threshold : ℕ

pub record Loadcell : Type 0 where
  pub hx711_data_buf : Float
  pub before_weight : Float
  pub bowl_count : ℕ
  pub water_low_count : ℕ
  pub water_increase_data : Float
  pub water_increase_count : ℕ
  pub board : Board

unfoldable pub loadcell_data_get : Loadcell → Float
loadcell_data_get l = l.hx711_data_buf

-- The weight of a raw reading, an `int32_t`.
abbrev pub weight_of : FloatOps → ScaleConfig → ℕ → Float
weight_of ops c raw = ops.div (ops.of_i32 (sub_u32 raw c.case_raw_data)) c.hx1_scale

-- Lines 106 to 130: the new weight, and the count of readings that rise.
unfoldable pub weigh : FloatOps → Float → Loadcell → Loadcell
weigh ops w l =
    let increase = if ops.eq l.water_increase_data ops.zero then w else l.water_increase_data in
    record l {
      hx711_data_buf = w;
      water_increase_count =
          if ops.lt (ops.add increase (ops.of_i32 2)) w
          then u32 (l.water_increase_count + 1)
          else 0;
      water_increase_data = w;
    }

-- `currunt_weight < 0 && currunt_weight < (before_weight - 50.0f)`.
abbrev pub is_dropped : FloatOps → Float → Float → Bool
is_dropped ops w before = ops.lt w ops.zero && ops.lt w (ops.sub before (ops.of_i32 50))

unfoldable pub count_bowl : FloatOps → Float → Loadcell → Loadcell
count_bowl ops w l =
    if is_dropped ops w l.before_weight
    then record l {
      bowl_count = if ltb l.bowl_count 10 then u32 (l.bowl_count + 1) else l.bowl_count;
    }
    else record l { before_weight = w; bowl_count = 0 }

unfoldable pub count_low : FloatOps → Float → ScaleConfig → Loadcell → Loadcell
count_low ops w c l =
    if ops.lt w (ops.of_u32 c.min_weight_threshold)
    then record l {
      water_low_count =
          if ltb l.water_low_count 10 then u32 (l.water_low_count + 1) else l.water_low_count;
    }
    else record l { water_low_count = 0 }

-- The two calls that show an error or take it back, unless that is done already.
unfoldable pub show_error : Bool → ℕ → ℕ → Board → Board
show_error on led fault b =
    if on
    then (if not (led_bit_status led b) then water_fault_enable fault (led_bit_enable led b) else b)
    else (if led_bit_status led b then water_fault_disable fault (led_bit_disable led b) else b)

unfoldable pub check_bowl : Loadcell → Loadcell
check_bowl l = record l {
  board = show_error (leb 10 l.bowl_count) hardware_err_bit water_bowl_detached_fault l.board;
}

unfoldable pub check_low : Loadcell → Loadcell
check_low l = record l {
  board = show_error (leb 10 l.water_low_count) water_low_bit water_low_fault l.board;
}

-- A round; `none` is a reading that failed.
unfoldable pub hx711_sensing : FloatOps → ScaleConfig → Option ℕ → Loadcell → Loadcell
hx711_sensing ops c none l = l
hx711_sensing ops c (some raw) l =
    let w = weight_of ops c raw in
    let bowl = check_bowl (count_bowl ops w (weigh ops w l)) in
    if leb 10 bowl.bowl_count then bowl else check_low (count_low ops w c bowl)

-- The start of `HX711_task`, where `ok` is whether hx711_init succeeds.
unfoldable pub hx711_task_start : Bool → Board → Board
hx711_task_start ok b =
    if ok then b else water_fault_disable water_loadcell_err (led_bit_enable loadcell_err_bit b)
