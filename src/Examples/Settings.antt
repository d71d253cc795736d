-- ===== src/Examples/Settings.antt =====
-- A flash in memory, and the settings in it.
use water_dispenser.Base.{
  ℕ, ◌≡◌, ◌≢◌, refl, sym, ap, ◌∙◌, Bool, true, false, Option, none, some, [], ◌∷◌, arith, ◌==◌,
  if◌then◌else◌, Bool-cases, inl, inr,
}
use water_dispenser.Examples.{whole_numbers}
use water_dispenser.Nvs.{
  Key, factory_key, app_key_configuration, app_key_wifi_config, app_key_motor_time,
  app_key_filter_time, app_reg_key, Namespace, facto, waveon, namespace_of, Value, facto_value,
  number, FactoConfig, Nvs, Works, read_nvs, facto_reset, read_nvs_registration_flag,
}
use water_dispenser.Config.{Flash, started, nvs_flash_init, flash_task}
use water_dispenser.Config.Start.{running}
use water_dispenser.Config.Reboot.{Requested, nvs_flash_init-flash_task}
use water_dispenser.Config.Loss.{second, callback, round, steps, Behind, steps-Behind}
use water_dispenser.Config.Reset.{Fresh, facto_reset-Fresh}

abbrev key_no : Key → ℕ
key_no factory_key = 0
key_no app_key_configuration = 1
key_no app_key_wifi_config = 2
key_no app_key_motor_time = 3
key_no app_key_filter_time = 4
key_no app_reg_key = 5

abbrev key_at : ℕ → Key
key_at n =
    if n == 0
    then factory_key
    else if n == 1
    then app_key_configuration
    else if n == 2
    then app_key_wifi_config
    else if n == 3
    then app_key_motor_time
    else if n == 4
    then app_key_filter_time
    else app_reg_key

key_at-key_no : (k : Key) → key_at (key_no k) ≡ k
key_at-key_no factory_key = refl
key_at-key_no app_key_configuration = refl
key_at-key_no app_key_wifi_config = refl
key_at-key_no app_key_motor_time = refl
key_at-key_no app_key_filter_time = refl
key_at-key_no app_reg_key = refl

abbrev Memory : Type 0
Memory = Key → Option Value

abbrev in_namespace : Namespace → Key → Bool
in_namespace facto k = key_no k == 0
in_namespace waveon k = if key_no k == 0 then false else true

abbrev written_at : Key → Value → Memory → Memory
written_at k v s = λ j. if key_no j == key_no k then some v else s j

abbrev erased_in : Namespace → Memory → Memory
erased_in n s = λ k. if in_namespace n k then none else s k

abbrev memory : Nvs Memory
memory = record {
  opens_to_read = λ n s. true;
  opens_to_write = λ n s. true;
  set_key = λ k v s. some (written_at k v s);
  get_key = λ k s. s k;
  erase_all = λ n s. some (erased_in n s);
  commit = λ s. s;
}

same_key : (k : Key) → (key_no k == key_no k) ≡ true
same_key k = ground arith

other_key : (j k : Key) → j ≢ k → (key_no j == key_no k) ≡ false
other_key j k ne = elim (Bool-cases (key_no j == key_no k)) [
  | inl e ↦
      let n : key_no j ≡ key_no k = ground arith in
      absurd (ne (sym (key_at-key_no j) ∙ ap key_at n ∙ key_at-key_no k))
  | inr e ↦ e
]

in_own : (k : Key) → in_namespace (namespace_of k) k ≡ true
in_own factory_key = refl
in_own app_key_configuration = refl
in_own app_key_wifi_config = refl
in_own app_key_motor_time = refl
in_own app_key_filter_time = refl
in_own app_reg_key = refl

not_in : (k : Key) (n : Namespace) → namespace_of k ≢ n → in_namespace n k ≡ false
not_in factory_key facto ne = absurd (ne refl)
not_in factory_key waveon ne = refl
not_in app_key_configuration facto ne = refl
not_in app_key_configuration waveon ne = absurd (ne refl)
not_in app_key_wifi_config facto ne = refl
not_in app_key_wifi_config waveon ne = absurd (ne refl)
not_in app_key_motor_time facto ne = refl
not_in app_key_motor_time waveon ne = absurd (ne refl)
not_in app_key_filter_time facto ne = refl
not_in app_key_filter_time waveon ne = absurd (ne refl)
not_in app_reg_key facto ne = refl
not_in app_reg_key waveon ne = absurd (ne refl)

-- What a store that is `some s` holds.
read_at : {s s' : Memory} (k : Key) → some s ≡ some s' → s' k ≡ s k
read_at {s} {s'} k h = ap (λ (o : Option Memory). at o) (sym h)
  where
    at : Option Memory → Option Value
    at none = none
    at (some m) = m k

abbrev memory-Works : Works memory
memory-Works = record {
  writable = λ n s. refl;
  readable = λ k s h. refl;
  sets = λ k v s. (written_at k v s, refl);
  get-set_self = λ k v s h. read_at k h ∙ ap (λ (b : Bool). if b then some v else s k) (same_key k);
  get-set_other =
      λ k j v s ne h. read_at j h ∙ ap (λ (b : Bool). if b then some v else s j) (other_key j k ne);
  get-commit = λ k s. refl;
  erases = λ n s. (erased_in n s, refl);
  get-erase_self = λ k s h. read_at k h ∙ ap (λ (b : Bool). if b then none else s k) (in_own k);
  get-erase_other =
      λ k n s ne h. read_at k h ∙ ap (λ (b : Bool). if b then none else s k) (not_in k n ne);
}

abbrev bare : Memory
bare = λ k. none

abbrev tuned : FactoConfig
tuned = record { hx1_scale = 126; case_raw_data = 386878; device_serial = 87 ∷ 49 ∷ [] }

-- A device whose settings were all changed.
abbrev changed : Flash Memory
changed = record (started whole_numbers bare) {
  facto = tuned;
  app_save_flag = true;
  wifi_save_flag = true;
  facto_save_flag = true;
  motor = record { save_time = 700; save_time_buf = 600; save_flag = true };
  filter = record { save_time = 50; save_time_buf = 0; save_flag = true };
}

changed-Requested : Requested memory changed
changed-Requested = record {
  app = λ off. cc;
  wifi = λ off. cc;
  facto = λ off. cc;
  motor = λ off. cc;
  filter = λ off. cc;
}

nvs_flash_init-flash_task_example :
    nvs_flash_init whole_numbers memory
      (started whole_numbers (flash_task whole_numbers memory changed).store)
    ≡ running changed.app changed.wifi changed.facto changed.motor.save_time
        changed.filter.save_time
        (flash_task whole_numbers memory changed).store
nvs_flash_init-flash_task_example =
    nvs_flash_init-flash_task whole_numbers memory changed memory-Works changed-Requested refl

-- 90 seconds are in flash, of 100.
abbrev worn : Flash Memory
worn = record (started whole_numbers (written_at app_key_motor_time (number 90) bare)) {
  motor = record { save_time = 100; save_time_buf = 90; save_flag = false };
}

worn-Behind : Behind memory worn
unfolding read_nvs
worn-Behind = record {
  stored = 90;
  there = refl;
  no_more = omega arith;
  noted = omega arith;
  saved = λ off. omega arith;
}

steps-Behind_example :
    Behind memory
      (steps whole_numbers memory (second ∷ callback ∷ second ∷ round ∷ second ∷ []) worn)
steps-Behind_example =
    steps-Behind whole_numbers memory (second ∷ callback ∷ second ∷ round ∷ second ∷ []) worn
      memory-Works (omega arith) worn-Behind

abbrev factory_made : Memory
factory_made = written_at factory_key (facto_value tuned) bare

factory_made-facto : read_nvs memory factory_key factory_made ≡ some (facto_value tuned)
unfolding read_nvs
factory_made-facto = refl

facto_reset-Fresh_example :
    Fresh whole_numbers memory tuned (
      nvs_flash_init whole_numbers memory (started whole_numbers (facto_reset memory factory_made)))
    × (read_nvs_registration_flag memory (facto_reset memory factory_made) ≡ false)
facto_reset-Fresh_example =
    facto_reset-Fresh whole_numbers memory factory_made tuned memory-Works factory_made-facto
