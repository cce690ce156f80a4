-- ===== src/Amw0/DryRun/Refines.antt =====
-- The amw0 backend without a device (src/backends/amw0/backend.c) implements the abstract settings.
use kuangshi16pro_series_gm.Prelude.{
  ℕ, ◌+◌, ◌%◌, ◌≡◌, refl, Bool, true, false, not, if◌then◌else◌, Bool-cases, inl, inr, ap,
}
use kuangshi16pro_series_gm.Text.{Text, literal, is_same}
use kuangshi16pro_series_gm.Status.{Status}
use kuangshi16pro_series_gm.State.{Mode, OptionalByte, PowerLimits, Snapshot}
use kuangshi16pro_series_gm.Backend.{BackendResult}
use kuangshi16pro_series_gm.Request.{any_present, merge_limits}
use kuangshi16pro_series_gm.Amw0.Host.{Host}
use kuangshi16pro_series_gm.Amw0.Control.{
  profile_name_for_mode, mode_index_for_mode, has_boost, add_boost, drop_boost, mode_from_control,
}
use kuangshi16pro_series_gm.Amw0.Device.{Amw0, shadow_mode_for_state, fallback_mode_control}
use kuangshi16pro_series_gm.Amw0.Access.{size_mod, addr_mode_control, addr_mode_index}
use kuangshi16pro_series_gm.Amw0.ReadState.{own_result}
use kuangshi16pro_series_gm.Amw0.Apply.{
  mode_target, shadow_mode, shadow_limits, write_mode, amw0_apply_mode, write_limit, write_limits,
  amw0_apply_power_limits, write_boost, amw0_apply_fan_boost,
}
use kuangshi16pro_series_gm.Amw0.Encoding.{
  Encodes, add_boost-Encodes, drop_boost-Encodes, mode_target-Encodes,
}
use kuangshi16pro_series_gm.Amw0.DryRun.{
  Settings, set_mode, set_boost, set_limits, change, IsDry, shadow_control, Represents, run_command,
}
use kuangshi16pro_series_gm.Amw0.DryRun.Steps.{
  write_ec_byte-dry, current_mode_control-dry, shadow_mode-Shows, shadow_limits-Shows,
}

-- What the operations change keeps the context without a device.
IsDry-write :
    {W : Type 0} {a : Amw0 W} {n c : ℕ} {b : Bool} {s : Snapshot}
    → IsDry a
    → IsDry (record a {
      write_count = n;
      has_shadow_mode_control = b;
      shadow_mode_control = c;
      shadow_state = s;
    })
IsDry-write h = record { dry_run = h.dry_run; untraced = h.untraced; reliable = h.reliable }

-- The power limits do not enter the control byte.
fallback-shadow_limits :
    (s : Snapshot) (l : PowerLimits)
    → fallback_mode_control (shadow_limits s l) ≡ fallback_mode_control s
unfolding fallback_mode_control shadow_mode_for_state shadow_limits
fallback-shadow_limits s l = refl

module _ {W : Type 0} (host : Host W) (a : Amw0 W) (h : IsDry a) where
  -- The context after so many writes.
  abbrev counted : ℕ → Amw0 W
  counted n = record a { write_count = (a.write_count + n) % size_mod }

  counted-IsDry : (n : ℕ) → IsDry (counted n)
  counted-IsDry n = record { dry_run = h.dry_run; untraced = h.untraced; reliable = h.reliable }

  abbrev after_mode : Mode → ℕ → ℕ → Amw0 W
  after_mode m control n = record a {
    write_count = n;
    has_shadow_mode_control = true;
    shadow_mode_control = control;
    shadow_state = shadow_mode a.shadow_state m (has_boost control);
  }

  write_mode-dry :
      (m : Mode) (changed : Bool) (c : ℕ) (r : BackendResult)
      → (n : ℕ) × (r' : BackendResult) × (write_mode host m changed c r a
          ≡ (Status.ok, r', after_mode m (mode_target m c) n))
        × (r'.hardware_write ≡ false)
  unfolding write_mode
  write_mode-dry m changed c r =
      let e1 = write_ec_byte-dry host a addr_mode_index (mode_index_for_mode m) h in
      let e2 =
        write_ec_byte-dry host (counted 1) addr_mode_control (mode_target m c) (counted-IsDry 1) in
      rw (write_mode, e1, e2) (_, _, refl, rw (h.dry_run) refl)

  write_boost-dry :
      (b : Bool) (c : ℕ) (r : BackendResult)
      → let target = if b then add_boost c else drop_boost c in
        (n : ℕ) × (r' : BackendResult) × (write_boost host b c r a ≡ (
          Status.ok,
          r',
          record a {
            write_count = n;
            has_shadow_mode_control = true;
            shadow_mode_control = target;
            shadow_state = shadow_mode a.shadow_state (mode_from_control target) b;
          },
        ))
        × (r'.hardware_write ≡ false)
  unfolding write_boost
  write_boost-dry b c r =
      let e =
        write_ec_byte-dry host a addr_mode_control (if b then add_boost c else drop_boost c) h in
      rw (write_boost, e) (_, _, refl, rw (h.dry_run) refl)

  write_limit-dry :
      (l : OptionalByte) (stage detail : Text) (offset : ℕ) (r : BackendResult)
      → (n : ℕ) × (r' : BackendResult) × (write_limit host l stage detail offset r a
          ≡ (Status.ok, r', record a { write_count = n }))
  unfolding write_limit
  write_limit-dry l stage detail offset r = elim (Bool-cases l.present) [
    | inl e ↦ rw (write_limit, e, write_ec_byte-dry host a offset l.value h) (_, _, refl)
    | inr e ↦ rw (write_limit, e) (a.write_count, r, refl)
  ]

module _ {W : Type 0} (host : Host W) (w : W) (a : Amw0 W) (t : Settings)
    (h : Represents w a t) where
  write_limits-dry :
      (l : PowerLimits) (r : BackendResult)
      → (n : ℕ) × (r' : BackendResult) × (write_limits host l r a
          ≡ (Status.ok, r', record a { write_count = n }))
  unfolding write_limits
  write_limits-dry l r =
      let (n1, r1, e1) =
        write_limit-dry host a h.dry l.pl1 (literal "write-pl1") (literal "amw0 PL1 write failed")
          0x0783 r in
      let (n2, r2, e2) =
        write_limit-dry host (record a { write_count = n1 }) (IsDry-write h.dry) l.pl2
          (literal "write-pl2") (literal "amw0 PL2 write failed") 0x0784 r1 in
      let (n3, r3, e3) =
        write_limit-dry host (record a { write_count = n2 }) (IsDry-write h.dry) l.pl4
          (literal "write-pl4") (literal "amw0 PL4 write failed") 0x0785 r2 in
      let (n4, r4, e4) =
        write_limit-dry host (record a { write_count = n3 }) (IsDry-write h.dry) l.tcc_offset
          (literal "write-tcc-offset") (literal "amw0 TCC offset write failed") 0x0786 r3 in
      (n4, r4, rw (write_limits, e1, e2, e3) e4)

  pub apply_mode-Represents :
      (m : Mode) (r : BackendResult)
      → Represents w (run_command host (set_mode m) r a).2 (change (set_mode m) t)
  unfolding run_command amw0_apply_mode change
  apply_mode-Represents m r =
      let E = mode_target-Encodes m h.control in
      let changed = not (is_same a.shadow_state.effective.profile (profile_name_for_mode m)) in
      let (n, _, e, _) = write_mode-dry host a h.dry m changed (shadow_control a) own_result in
      rw (amw0_apply_mode, current_mode_control-dry host a 0 h.dry, e)
        (record {
          untouched = h.untouched;
          dry = IsDry-write h.dry;
          control = E;
          shadow = shadow_mode-Shows a.shadow_state t refl E.boost_is h.shadow;
        })

  pub apply_boost-Represents :
      (b : Bool) (r : BackendResult)
      → Represents w (run_command host (set_boost b) r a).2 (change (set_boost b) t)
  unfolding run_command amw0_apply_fan_boost change
  apply_boost-Represents b r =
      let E = toggled b in
      let (n, _, e, _) = write_boost-dry host a h.dry b (shadow_control a) own_result in
      rw (amw0_apply_fan_boost, current_mode_control-dry host a 0 h.dry, e)
        (record {
          untouched = h.untouched;
          dry = IsDry-write h.dry;
          control = E;
          shadow = shadow_mode-Shows a.shadow_state t E.mode_is refl h.shadow;
        })
    where
      toggled :
          (b : Bool)
          → Encodes
              (if b then add_boost (shadow_control a) else drop_boost (shadow_control a))
              t.mode
              b
      toggled true = add_boost-Encodes h.control
      toggled false = drop_boost-Encodes h.control

  pub apply_limits-Represents :
      (l : PowerLimits) (r : BackendResult)
      → Represents w (run_command host (set_limits l) r a).2 (change (set_limits l) t)
  unfolding run_command amw0_apply_power_limits change
  apply_limits-Represents l r = elim (Bool-cases (any_present l)) [
    | inl e ↦
        let (n, _, w1) = write_limits-dry l own_result in
        let L = merge_limits a.shadow_state.effective.power_limits l in
        let C : Encodes
            (shadow_control (record a { shadow_state = shadow_limits a.shadow_state L })) t.mode
            t.boost =
          rw (fallback-shadow_limits a.shadow_state L) h.control in
        rw (amw0_apply_power_limits, e, w1)
          (record {
            untouched = h.untouched;
            dry = IsDry-write h.dry;
            control = C;
            shadow =
                shadow_limits-Shows a.shadow_state t L
                  (ap (λ k. merge_limits k l) h.shadow.effective.power_limits) h.shadow;
          })
    | inr e ↦ rw (amw0_apply_power_limits, e) h
  ]
