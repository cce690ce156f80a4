-- ===== src/Amw0/Failure.antt =====
-- What a failed operation of the amw0 backend leaves (src/backends/amw0/backend.c).
use kuangshi16pro_series_gm.Prelude.{
  ℕ, ◌≡◌, refl, Bool, false, not, ◌⊎◌, inl, inr, [], ◌∷◌, arith, Bool-cases, ◌∙◌,
}
use kuangshi16pro_series_gm.Text.{Text, literal}
use kuangshi16pro_series_gm.Status.{Status, is_ok}
use kuangshi16pro_series_gm.State.{Mode, OptionalByte, PowerLimits}
use kuangshi16pro_series_gm.Backend.{BackendResult}
use kuangshi16pro_series_gm.Plan.{ActionKind, Action, Plan}
use kuangshi16pro_series_gm.Fan.{FanTable}
use kuangshi16pro_series_gm.Amw0.Host.{Host}
use kuangshi16pro_series_gm.Amw0.Device.{Amw0}
use kuangshi16pro_series_gm.Amw0.Access.{
  ensure_ecrr_path, read_live_byte, current_mode_control, write_ec_byte,
}
use kuangshi16pro_series_gm.Amw0.Apply.{
  Wrote, write_mode, amw0_apply_mode, amw0_apply_profile, write_limit, write_limits,
  amw0_apply_power_limits, write_boost, amw0_apply_fan_boost,
}
use kuangshi16pro_series_gm.Amw0.FanPlan.{
  noted, apply_custom_enable, apply_plan_ec_write, run_action, run_actions, apply_fan_plan,
  program_table, amw0_apply_fan_table,
}

-- The five operations that write.
pub data Operation : Type 0 where
  apply_mode : Mode → Operation
  apply_profile : Text → Operation
  apply_power_limits : PowerLimits → Operation
  apply_fan_boost : Bool → Operation
  apply_fan_table : Text → Operation

-- How an operation ends: well, or with the shadow state as it was.
abbrev pub Ends : {W : Type 0} → Amw0 W → Wrote W → Type 0
Ends a (s, r, a') =
    ((s ≡ Status.ok) × (r.hardware_write ≡ not a'.transport.dry_run))
    ⊎ ((is_ok s ≡ false) × (a'.shadow_state ≡ a.shadow_state))

module _ {W : Type 0} (host : Host W) where
  ensure_ecrr_path-shadow : (a : Amw0 W) → (ensure_ecrr_path host a).1.shadow_state ≡ a.shadow_state
  unfolding ensure_ecrr_path
  ensure_ecrr_path-shadow a = ground arith

  read_live_byte-shadow :
      (a : Amw0 W) (offset value : ℕ)
      → (read_live_byte host a offset value).2.shadow_state ≡ a.shadow_state
  unfolding read_live_byte
  read_live_byte-shadow a offset value = ground (arith, ensure_ecrr_path-shadow a)

  current_mode_control-shadow :
      (a : Amw0 W) (control : ℕ)
      → (current_mode_control host a control).2.shadow_state ≡ a.shadow_state
  unfolding current_mode_control
  current_mode_control-shadow a control = ground (arith, read_live_byte-shadow a 0x0751 control)

  write_ec_byte-shadow :
      (a : Amw0 W) (offset value : ℕ)
      → (write_ec_byte host a offset value).1.shadow_state ≡ a.shadow_state
  unfolding write_ec_byte
  write_ec_byte-shadow a offset value = ground arith

  write_mode-Ends :
      (m : Mode) (changed : Bool) (c : ℕ) (r : BackendResult) (a : Amw0 W)
      → Ends a (write_mode host m changed c r a)
  unfolding write_mode
  write_mode-Ends m changed c r a = grind (arith, write_ec_byte-shadow)

  write_boost-Ends :
      (b : Bool) (c : ℕ) (r : BackendResult) (a : Amw0 W) → Ends a (write_boost host b c r a)
  unfolding write_boost
  write_boost-Ends b c r a = grind (arith, write_ec_byte-shadow)

  -- The shadow state of a context may be replaced by an equal one.
  Ends-along : (a b : Amw0 W) (o : Wrote W) → b.shadow_state ≡ a.shadow_state → Ends b o → Ends a o
  Ends-along a b o e (inl h) = inl h
  Ends-along a b o e (inr (s, k)) = inr (s, k ∙ e)

  apply_mode-Ends :
      (m : Mode) (r : BackendResult) (a : Amw0 W) → Ends a (amw0_apply_mode host m r a)
  unfolding amw0_apply_mode
  apply_mode-Ends m r a = grind (arith, write_mode-Ends, Ends-along, current_mode_control-shadow)

  apply_boost-Ends :
      (b : Bool) (r : BackendResult) (a : Amw0 W) → Ends a (amw0_apply_fan_boost host b r a)
  unfolding amw0_apply_fan_boost
  apply_boost-Ends b r a = grind (arith, write_boost-Ends, Ends-along, current_mode_control-shadow)

  apply_profile-Ends :
      (name : Text) (r : BackendResult) (a : Amw0 W) → Ends a (amw0_apply_profile host name r a)
  unfolding amw0_apply_profile
  apply_profile-Ends name r a = grind (arith, apply_mode-Ends)

  write_limit-shadow :
      (l : OptionalByte) (stage detail : Text) (offset : ℕ) (r : BackendResult) (a : Amw0 W)
      → (write_limit host l stage detail offset r a).2.shadow_state ≡ a.shadow_state
  unfolding write_limit
  write_limit-shadow l stage detail offset r a =
      ground (arith, write_ec_byte-shadow a offset l.value)

  write_limits-shadow :
      (l : PowerLimits) (r : BackendResult) (a : Amw0 W)
      → (write_limits host l r a).2.shadow_state ≡ a.shadow_state
  unfolding write_limits
  write_limits-shadow l r a = grind (arith, write_limit-shadow)

  apply_limits-Ends :
      (l : PowerLimits) (r : BackendResult) (a : Amw0 W)
      → Ends a (amw0_apply_power_limits host l r a)
  unfolding amw0_apply_power_limits
  apply_limits-Ends l r a = grind (arith, write_limits-shadow)

  noted-shadow : (note : Text) (a : Amw0 W) → (noted host note a).shadow_state ≡ a.shadow_state
  unfolding noted
  noted-shadow note a = refl

  run_action-shadow :
      (k : ActionKind) (action : Action) (stage : Text) (r : BackendResult) (a : Amw0 W)
      → (run_action host k action stage r a).1.2.shadow_state ≡ a.shadow_state
  unfolding run_action apply_custom_enable apply_plan_ec_write
  run_action-shadow ActionKind.stage action stage r a = noted-shadow action.label a
  run_action-shadow ActionKind.custom_mode action stage r a =
      grind (arith, write_ec_byte-shadow, noted-shadow)
  run_action-shadow ActionKind.ec_write action stage r a =
      grind (arith, write_ec_byte-shadow, noted-shadow)

  run_actions-shadow :
      (plan : Plan) (stage : Text) (r : BackendResult) (a : Amw0 W)
      → (run_actions host plan stage r a).2.shadow_state ≡ a.shadow_state
  unfolding run_actions
  run_actions-shadow [] stage r a = refl
  run_actions-shadow (action ∷ plan) stage r a =
      let (stage', (s, r', a')) = run_action host action.kind action stage r a in
      let e = run_action-shadow action.kind action stage r a in
      elim (Bool-cases (is_ok s)) [
        | inl o ↦ rw (o) (run_actions-shadow plan stage' r' a' ∙ e)
        | inr o ↦ rw (o) e
      ]

  program_table-Ends :
      (t : FanTable) (plan : Plan) (r : BackendResult) (a : Amw0 W)
      → Ends a (program_table host t plan r a)
  unfolding program_table apply_fan_plan
  program_table-Ends t plan r a =
      grind (arith, run_actions-shadow plan (literal "fan-apply") r (record a { write_count = 0 }))

  apply_table-Ends :
      (load : Text → W → Status × FanTable × W) (name : Text) (r : BackendResult) (a : Amw0 W)
      → Ends a (amw0_apply_fan_table host load name r a)
  unfolding amw0_apply_fan_table
  apply_table-Ends load name r a = grind (arith, program_table-Ends, Ends-along)

  unfoldable pub run_operation :
      (Text → W → Status × FanTable × W) → Operation → BackendResult → Amw0 W → Wrote W
  run_operation load (apply_mode m) r a = amw0_apply_mode host m r a
  run_operation load (apply_profile name) r a = amw0_apply_profile host name r a
  run_operation load (apply_power_limits l) r a = amw0_apply_power_limits host l r a
  run_operation load (apply_fan_boost b) r a = amw0_apply_fan_boost host b r a
  run_operation load (apply_fan_table name) r a = amw0_apply_fan_table host load name r a

  -- For every host, every loader of fan tables and every context, each of the five operations of the
  -- amw0 backend that write either returns LCC_OK and reports a hardware write exactly if it does not
  -- run without a device, or returns an error and leaves the shadow state as it was, however many
  -- bytes it has written.
  pub run_operation-Ends :
      (load : Text → W → Status × FanTable × W) (o : Operation) (r : BackendResult) (a : Amw0 W)
      → Ends a (run_operation load o r a)
  unfolding run_operation
  run_operation-Ends load (apply_mode m) r a = apply_mode-Ends m r a
  run_operation-Ends load (apply_profile name) r a = apply_profile-Ends name r a
  run_operation-Ends load (apply_power_limits l) r a = apply_limits-Ends l r a
  run_operation-Ends load (apply_fan_boost b) r a = apply_boost-Ends b r a
  run_operation-Ends load (apply_fan_table name) r a = apply_table-Ends load name r a
