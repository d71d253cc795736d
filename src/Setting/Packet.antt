-- ===== src/Setting/Packet.antt =====
-- The bytes of a packet after its fields were written (main/setting_cmd.c).
use water_dispenser.Base.{
  ℕ, ◌+◌, ◌/◌, ◌%◌, ◌<◌, ◌≡◌, refl, ◌∙◌, true, false, List, length, set, get_elem?-set, length-set,
  arith, ltb, ◌==◌,
}
use water_dispenser.Setting.{byte_at, u16_at, set_u16, headed, ir_bytes, Sensors}
use water_dispenser.Nvs.{AppConfig}

pub byte-set_self : (p : List ℕ) (i v : ℕ) → i < length p → byte_at (set p i v) i ≡ v
byte-set_self p i v h =
    let same : (i == i) ≡ true = ground arith in
    let there : ltb i (length p) ≡ true = ground arith in
    rw (get_elem?-set p i i v, same, there) refl

pub byte-set_other :
    (p : List ℕ) (i v j : ℕ) → (i == j) ≡ false → byte_at (set p i v) j ≡ byte_at p j
byte-set_other p i v j h = rw (get_elem?-set p i j v, h) refl

pub length-set_u16 : (p : List ℕ) (i v : ℕ) → length (set_u16 p i v) ≡ length p
length-set_u16 p i v =
    length-set (set p i (v % 256)) (i + 1) (v / 256 % 256) ∙ length-set p i (v % 256)

pub u16-set_u16_self :
    (p : List ℕ) (i v : ℕ) → i + 1 < length p → v < 65536 → u16_at (set_u16 p i v) i ≡ v
u16-set_u16_self p i v h hv =
    let apart : (i + 1 == i) ≡ false = ground arith in
    let longer = length-set p i (v % 256) in
    rw
      (
        byte-set_other (set p i (v % 256)) (i + 1) (v / 256 % 256) i apart,
        byte-set_self p i (v % 256) (omega arith),
        byte-set_self (set p i (v % 256)) (i + 1) (v / 256 % 256) (rw longer h),
      )
      (omega arith)

pub byte-set_u16_other :
    (p : List ℕ) (i v j : ℕ)
    → (i == j) ≡ false
    → (i + 1 == j) ≡ false
    → byte_at (set_u16 p i v) j ≡ byte_at p j
byte-set_u16_other p i v j h h' =
    byte-set_other (set p i (v % 256)) (i + 1) (v / 256 % 256) j h'
    ∙ byte-set_other p i (v % 256) j h

pub u16-set_u16_other :
    (p : List ℕ) (i v j : ℕ)
    → (i == j) ≡ false
    → (i + 1 == j) ≡ false
    → (i == j + 1) ≡ false
    → (i + 1 == j + 1) ≡ false
    → u16_at (set_u16 p i v) j ≡ u16_at p j
u16-set_u16_other p i v j a b c d =
    rw (byte-set_u16_other p i v j a b, byte-set_u16_other p i v (j + 1) c d) refl

-- The head of an answer.
pub record Headed (cmd : ℕ) (p : List ℕ) : Type 0 where
  pub event_code : byte_at p 0 ≡ 243
  pub cmd_type : byte_at p 1 ≡ cmd
  pub size : length p ≡ 20

pub headed-Headed : (p : List ℕ) (cmd : ℕ) → length p ≡ 20 → Headed cmd (headed p cmd)
headed-Headed p cmd h = record {
  event_code =
      byte-set_other (set p 0 243) 1 cmd 0 refl ∙ byte-set_self p 0 243 (rw h (omega arith));
  cmd_type = byte-set_self (set p 0 243) 1 cmd (rw (length-set p 0 243, h) (omega arith));
  size = length-set (set p 0 243) 1 cmd ∙ length-set p 0 243 ∙ h;
}

-- A byte that is written behind the head.
pub set-Headed : (cmd : ℕ) (p : List ℕ) (i v : ℕ) → 1 < i → Headed cmd p → Headed cmd (set p i v)
set-Headed cmd p i v h c =
    let a : (i == 0) ≡ false = ground arith in
    let b : (i == 1) ≡ false = ground arith in
    record {
      event_code = byte-set_other p i v 0 a ∙ c.event_code;
      cmd_type = byte-set_other p i v 1 b ∙ c.cmd_type;
      size = length-set p i v ∙ c.size;
    }

pub set_u16-Headed :
    (cmd : ℕ) (p : List ℕ) (i v : ℕ) → 1 < i → Headed cmd p → Headed cmd (set_u16 p i v)
set_u16-Headed cmd p i v h c =
    set-Headed cmd (set p i (v % 256)) (i + 1) (v / 256 % 256) (omega arith)
      (set-Headed cmd p i (v % 256) h c)

pub ir_bytes-Headed :
    (cmd : ℕ) (x : Sensors) (c : AppConfig) (p : List ℕ)
    → Headed cmd p
    → Headed cmd (ir_bytes x c p)
ir_bytes-Headed cmd x c p h = set_u16-Headed cmd _ 10 c.tof_sense_threshold_r (omega arith) (
    set_u16-Headed cmd _ 8 c.tof_sense_threshold_l (omega arith) (
      set_u16-Headed cmd _ 6 x.ir_right (omega arith) (
        set_u16-Headed cmd _ 4 x.ir_left (omega arith)
          (set_u16-Headed cmd p 2 x.motor_adc (omega arith) h))))

-- The thresholds in the answer to IR_GetValue.
pub record Thresholds (l r : ℕ) (p : List ℕ) : Type 0 where
  pub head : Headed 3 p
  pub left : u16_at p 8 ≡ l
  pub right : u16_at p 10 ≡ r

pub ir_bytes-Thresholds :
    (x : Sensors) (c : AppConfig) (p : List ℕ)
    → Headed 3 p
    → c.tof_sense_threshold_l < 65536
    → c.tof_sense_threshold_r < 65536
    → Thresholds c.tof_sense_threshold_l c.tof_sense_threshold_r (ir_bytes x c p)
ir_bytes-Thresholds x c p h hl hr =
    let front = set_u16 (set_u16 (set_u16 p 2 x.motor_adc) 4 x.ir_left) 6 x.ir_right in
    let front_head =
      set_u16-Headed 3 (set_u16 (set_u16 p 2 x.motor_adc) 4 x.ir_left) 6 x.ir_right (omega arith) (
        set_u16-Headed 3 (set_u16 p 2 x.motor_adc) 4 x.ir_left (omega arith)
          (set_u16-Headed 3 p 2 x.motor_adc (omega arith) h)) in
    let left = set_u16 front 8 c.tof_sense_threshold_l in
    let left_head = set_u16-Headed 3 front 8 c.tof_sense_threshold_l (omega arith) front_head in
    record {
      head = set_u16-Headed 3 left 10 c.tof_sense_threshold_r (omega arith) left_head;
      left =
          u16-set_u16_other left 10 c.tof_sense_threshold_r 8 refl refl refl refl
          ∙ u16-set_u16_self front 8 c.tof_sense_threshold_l (rw front_head.size (omega arith)) hl;
      right = u16-set_u16_self left 10 c.tof_sense_threshold_r (rw left_head.size (omega arith)) hr;
    }
