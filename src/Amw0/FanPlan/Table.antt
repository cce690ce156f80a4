-- ===== src/Amw0/FanPlan/Table.antt =====
-- How src/backends/amw0/backend.c programs a fan table.
use kuangshi16pro_series_gm.Prelude.{◌≡◌, refl, false, [], if◌then◌else◌, Bool-cases, inl, inr, sym}
use kuangshi16pro_series_gm.Text.{Text, literal, is_empty}
use kuangshi16pro_series_gm.Status.{Status, is_ok, is_ok→eq}
use kuangshi16pro_series_gm.Backend.{BackendResult}
use kuangshi16pro_series_gm.Plan.{Plan}
use kuangshi16pro_series_gm.Fan.{FanTable, IsTable, validate_fan_table}
use kuangshi16pro_series_gm.Fan.Program.{fan_program, build_fan_plan-eq-program}
use kuangshi16pro_series_gm.Amw0.Host.{Host}
use kuangshi16pro_series_gm.Amw0.Device.{Amw0}
use kuangshi16pro_series_gm.Amw0.ReadState.{own_result}
use kuangshi16pro_series_gm.Amw0.FanPlan.{
  shadow_fan_table, apply_fan_plan, program_table, amw0_apply_fan_table,
}
use kuangshi16pro_series_gm.Amw0.FanPlan.Writes.{plan_writes, write_all, run_actions-writes}

-- The context after the writes of a table: the shadow state names the table if all of them succeed.
abbrev pub programmed : {W : Type 0} → FanTable → Status × Amw0 W → Amw0 W
programmed t (s, a) =
    if is_ok s then record a { shadow_state = shadow_fan_table a.shadow_state t.name } else a

module _ {W : Type 0} (host : Host W) where
  program_table-writes :
      (t : FanTable) (plan : Plan) (r : BackendResult) (a : Amw0 W)
      → a.transport.trace_enabled ≡ false
      → let (s, _, a') = program_table host t plan r a in
        let done = write_all host (plan_writes plan) (record a { write_count = 0 }) in
        (s ≡ done.0) × (a' ≡ programmed t done)
  unfolding program_table apply_fan_plan
  program_table-writes t plan r a h =
      let e =
        run_actions-writes host plan (literal "fan-apply") r (record a { write_count = 0 }) h in
      let (s, r', a') = apply_fan_plan host plan r a in
      rw (← e) (elim (Bool-cases (is_ok s)) [
        | inl o ↦ rw (program_table, o) (sym (is_ok→eq s o), refl)
        | inr o ↦ rw (program_table, o) (refl, refl)
      ])

  -- Where a fan table with a name is loaded, has 16 points in each curve and is valid, and there is no
  -- trace file, `amw0_apply_fan_table` writes the pairs of address and value of the fan program, in
  -- order and from a count of 0 on, up to the first write that fails: its status is that of these
  -- writes, and the shadow state takes the name of the table exactly if all of them succeed.
  pub amw0_apply_fan_table-writes :
      (load : Text → W → Status × FanTable × W) (name : Text) (r : BackendResult) (a : Amw0 W)
      → is_empty name ≡ false
      → a.transport.trace_enabled ≡ false
      → let (loaded, t, w) = load name a.transport.world in
        loaded ≡ Status.ok
        → IsTable t
        → validate_fan_table t ≡ Status.ok
        → let (s, _, a') = amw0_apply_fan_table host load name r a in
          let start = record a { transport = record a.transport { world = w }; write_count = 0 } in
          let done = write_all host (plan_writes (fan_program t)) start in
          (s ≡ done.0) × (a' ≡ programmed t done)
  unfolding amw0_apply_fan_table
  amw0_apply_fan_table-writes load name r a n h l wf v =
      let (_, t, w) = load name a.transport.world in
      let (b, _) = build_fan_plan-eq-program t wf [] v in
      rw (amw0_apply_fan_table, n, l, b)
        (program_table-writes t (fan_program t) own_result
          (record a { transport = record a.transport { world = w } }) h)
