-- ===== src/Nvs/Access.antt =====
-- Reads after writes in a sound flash (main/flash/app_nvs.c).
use water_dispenser.Base.{
  ◌≡◌, ◌≢◌, refl, sym, ◌∙◌, Bool, true, false, none, some, if◌then◌else◌, Bool-cases, Option-cases,
  inl, inr,
}
use water_dispenser.Nvs.{
  Key, app_reg_key, factory_key, waveon, namespace_of, Value, number, Nvs, write_nvs, read_nvs,
  Works, write_nvs_registration_flag, reset_all_nvs_data, facto_reset, read_nvs_registration_flag,
}

module _ {S : Type 0} (nvs : Nvs S) (w : Works nvs) where
  -- Where a namespace cannot be opened, none of its values is there.
  pub read_nvs_lem : (k : Key) (s : S) → read_nvs nvs k s ≡ nvs.get_key k s
  unfolding read_nvs
  read_nvs_lem k s = elim (Bool-cases (nvs.opens_to_read (namespace_of k) s)) [
    | inl open_now ↦ rw open_now refl
    | inr shut ↦ elim (Option-cases (nvs.get_key k s)) [
      | inl missing ↦ rw (shut, missing) refl
      | inr (v, there) ↦ absurd (closed (sym shut ∙ w.readable k s there))
    ]
  ]
    where
      closed : false ≡ true → ⊥
      closed e = cc

  pub read-write_self :
      (k : Key) (v : Value) (s : S) → read_nvs nvs k (write_nvs nvs k v s) ≡ some v
  unfolding write_nvs
  read-write_self k v s =
      let (s', e) = w.sets k v s in
      rw (read_nvs_lem, w.writable (namespace_of k) s, e)
        (w.get-commit k s' ∙ w.get-set_self k v s e)

  pub read-write_other :
      (k j : Key) (v : Value) (s : S)
      → j ≢ k
      → read_nvs nvs j (write_nvs nvs k v s) ≡ read_nvs nvs j s
  unfolding write_nvs
  read-write_other k j v s ne =
      let (s', e) = w.sets k v s in
      read_nvs_lem j _
      ∙ rw (w.writable (namespace_of k) s, e)
          (w.get-commit j s' ∙ w.get-set_other k j v s ne e ∙ sym (read_nvs_lem j s))

  -- After a factory reset the values of the program's namespace are gone.
  erased :
      (k : Key) (s : S) → namespace_of k ≡ waveon → nvs.get_key k (reset_all_nvs_data nvs s) ≡ none
  unfolding reset_all_nvs_data
  erased k s here =
      let (s', e) = w.erases waveon s in
      rw (w.writable waveon s, e) (w.get-commit k s' ∙ w.get-erase_self k s (rw here e))

  spared : (s : S) → nvs.get_key factory_key (reset_all_nvs_data nvs s) ≡ nvs.get_key factory_key s
  unfolding reset_all_nvs_data
  spared s =
      let (s', e) = w.erases waveon s in
      rw (w.writable waveon s, e)
        (w.get-commit factory_key s' ∙ w.get-erase_other factory_key waveon s (cc) e)

  flag_apart :
      (done : Bool) (s : S)
      → nvs.get_key factory_key (write_nvs_registration_flag nvs done s) ≡ nvs.get_key factory_key s
  unfolding write_nvs_registration_flag
  flag_apart done s =
      let v = number (if done then 1 else 0) in
      let (s', e) = w.sets app_reg_key v s in
      rw (w.writable waveon s, e)
        (w.get-commit factory_key s' ∙ w.get-set_other app_reg_key factory_key v s (cc) e)

  pub read-facto_reset :
      (k : Key) (s : S) → namespace_of k ≡ waveon → read_nvs nvs k (facto_reset nvs s) ≡ none
  unfolding facto_reset
  read-facto_reset k s here =
      read_nvs_lem k (facto_reset nvs s) ∙ erased k (write_nvs_registration_flag nvs false s) here

  pub read-facto_reset_kept :
      (s : S) → read_nvs nvs factory_key (facto_reset nvs s) ≡ read_nvs nvs factory_key s
  unfolding facto_reset
  read-facto_reset_kept s =
      read_nvs_lem factory_key (facto_reset nvs s)
      ∙ spared (write_nvs_registration_flag nvs false s)
      ∙ flag_apart false s
      ∙ sym (read_nvs_lem factory_key s)

  pub read_nvs_registration_flag-facto_reset :
      (s : S) → read_nvs_registration_flag nvs (facto_reset nvs s) ≡ false
  unfolding read_nvs_registration_flag
  read_nvs_registration_flag-facto_reset s = rw (read-facto_reset app_reg_key s refl) refl
