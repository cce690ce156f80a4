-- ===== src/Amw0/FanPlan.antt =====
-- src/backends/amw0/backend.c: a plan of writes is run on the embedded controller, action by action, up
-- to the first write that fails; and a fan table is programmed this way.
pub mod Writes
pub mod Table
pub mod Loaded
pub mod Limited
use kuangshi16pro_series_gm.Prelude.{ℕ, Bool, true, false, not, [], ◌∷◌, ◌++◌, if◌then◌else◌}
use kuangshi16pro_series_gm.Text.{Text, literal, is_empty, fit, is_same}
use kuangshi16pro_series_gm.Status.{Status, is_ok}
use kuangshi16pro_series_gm.State.{Mode, Snapshot}
use kuangshi16pro_series_gm.Attribution.{state_finalize}
use kuangshi16pro_series_gm.Backend.{BackendResult, Call, set_stage, set_detail}
use kuangshi16pro_series_gm.Plan.{ActionKind, Action, Plan}
use kuangshi16pro_series_gm.Fan.{FanTable, build_fan_plan}
use kuangshi16pro_series_gm.Amw0.Host.{Host}
use kuangshi16pro_series_gm.Amw0.Packet.{hex_padded}
use kuangshi16pro_series_gm.Amw0.Transport.{trace_note}
use kuangshi16pro_series_gm.Amw0.Control.{mode_index_for_mode, mode_control_for_mode}
use kuangshi16pro_series_gm.Amw0.Device.{Amw0, name_fan_table, cached_component}
use kuangshi16pro_series_gm.Amw0.Access.{addr_mode_control, addr_mode_index, write_ec_byte}
use kuangshi16pro_series_gm.Amw0.ReadState.{own_result}
use kuangshi16pro_series_gm.Amw0.Apply.{Wrote, report}

-- The note of `apply_plan_ec_write`, in a buffer of 160 bytes.
unfoldable pub write_note : Text → Action → Text
write_note stage action = fit 160 (
    literal "stage="
    ++ (stage
        ++ (literal " write="
            ++ (action.label
                ++ (literal " addr=0x"
                    ++ (hex_padded 4 action.addr
                        ++ (literal " value=0x" ++ hex_padded 2 action.value)))))))

-- The shadow state after a fan table is programmed.
unfoldable pub shadow_fan_table : Snapshot → Text → Snapshot
shadow_fan_table s name =
    let s' = name_fan_table s name in
    state_finalize
      (record s' { effective_meta = record s'.effective_meta { fan_table = cached_component } })

module _ {W : Type 0} (host : Host W) where
  -- A note in the trace file; its status is dropped.
  unfoldable pub noted : Text → Amw0 W → Amw0 W
  noted note a = record a { transport = (trace_note host a.transport note).1 }

  -- `apply_custom_enable`
  unfoldable pub apply_custom_enable : BackendResult → Amw0 W → Wrote W
  apply_custom_enable r a =
      let staged = set_stage r (literal "custom-enable") in
      let a0 =
        noted
          (literal
            "stage=custom-enable label=keep custom fan-control path enabled while programming table")
          a in
      let (s1, a1) = write_ec_byte host a0 addr_mode_index (mode_index_for_mode Mode.custom) in
      let (s2, a2) = write_ec_byte host a1 addr_mode_control (mode_control_for_mode Mode.custom) in
      if is_ok s1 then (s2, staged, a2) else (s1, staged, a1)

  -- `apply_plan_ec_write`
  unfoldable pub apply_plan_ec_write : Action → Text → BackendResult → Amw0 W → Wrote W
  apply_plan_ec_write action stage r a =
      let (s, a') =
        write_ec_byte host (noted (write_note stage action) a) action.addr action.value in
      (s, set_stage r stage, a')

  -- The body of the loop of `apply_fan_plan`, on `current_stage`.
  unfoldable pub run_action : ActionKind → Action → Text → BackendResult → Amw0 W → Text × Wrote W
  run_action ActionKind.stage action stage r a =
      (action.label, (Status.ok, set_stage r action.label, noted action.label a))
  run_action ActionKind.custom_mode action stage r a =
      let done = apply_custom_enable r a in
      (stage, if action.enabled then done else (Status.ok, r, a))
  run_action ActionKind.ec_write action stage r a = (stage, apply_plan_ec_write action stage r a)

  -- The loop.
  unfoldable pub run_actions : Plan → Text → BackendResult → Amw0 W → Wrote W
  run_actions [] stage r a = (Status.ok, r, a)
  run_actions (action ∷ actions) stage r a =
      let (stage', (s, r', a')) = run_action action.kind action stage r a in
      let rest = run_actions actions stage' r' a' in if is_ok s then rest else (s, r', a')

  -- `apply_fan_plan`
  unfoldable pub apply_fan_plan : Plan → BackendResult → Amw0 W → Wrote W
  apply_fan_plan plan r a = run_actions plan (literal "fan-apply") r (record a { write_count = 0 })

  -- `amw0_apply_fan_table` from the plan on.
  unfoldable pub program_table : FanTable → Plan → BackendResult → Amw0 W → Wrote W
  program_table table plan r0 a0 =
      let changed = not (is_same a0.shadow_state.effective.fan_table table.name) in
      let (s, r, a) = apply_fan_plan plan r0 a0 in
      let done = record a { shadow_state = shadow_fan_table a.shadow_state table.name } in
      if is_ok s then (Status.ok, report changed done r, done) else (
        s,
        if is_empty r.detail then set_detail r (literal "amw0 fan table programming failed") else r,
        a,
      )

  -- `amw0_apply_fan_table`; `load` is `lcc_fan_table_load_named`, which reads files.
  unfoldable pub amw0_apply_fan_table : (Text → W → Status × FanTable × W) → Text → Call (Amw0 W)
  amw0_apply_fan_table load name uninit a =
      let (s, table, w) = load name a.transport.world in
      let a1 = record a { transport = record a.transport { world = w } } in
      let (p, plan) = build_fan_plan table [] in
      if is_empty name
      then (Status.invalid_argument, uninit, a)
      else if is_ok s
      then if is_ok p then program_table table plan own_result a1 else (
        p,
        set_detail own_result (literal "fan table could not be translated into an apply plan"),
        a1,
      )
      else (s, set_detail own_result (literal "fan table fixture could not be loaded"), a1)
