-- ===== src/Metadata.antt =====
-- src/backends/backend.c: which backend runs each operation (`lcc_execution_snapshot_t`), and the
-- identity that a backend writes into a snapshot. A route that is NULL or empty is the empty text.
pub mod Routes
use kuangshi16pro_series_gm.Prelude.{Bool, [], if◌then◌else◌}
use kuangshi16pro_series_gm.Text.{Text, is_empty}
use kuangshi16pro_series_gm.Status.{Status, is_ok}
use kuangshi16pro_series_gm.State.{
  backend_name_max, reason_max, Execution, Snapshot, zero_execution,
}
use kuangshi16pro_series_gm.Attribution.{copy_text, set_text}

-- `lcc_backend_execution_set`: the first name that does not fit ends it, and the routes before it
-- stay written.
unfoldable pub execution_set : Text → Text → Text → Text → Text → Text → Status × Execution
execution_set read_state profile mode limits fan_table fan_boost =
    let (s1, t1) = set_text read_state in
    let e1 = record zero_execution { read_state = t1 } in
    let (s2, t2) = set_text profile in
    let e2 = record e1 { apply_profile = t2 } in
    let (s3, t3) = set_text mode in
    let e3 = record e2 { apply_mode = t3 } in
    let (s4, t4) = set_text limits in
    let e4 = record e3 { apply_power_limits = t4 } in
    let (s5, t5) = set_text fan_table in
    let e5 = record e4 { apply_fan_table = t5 } in
    let (s6, t6) = set_text fan_boost in
    let e6 = record e5 { apply_fan_boost = t6 } in
    if is_ok s1
    then if is_ok s2
      then if is_ok s3
        then if is_ok s4
          then if is_ok s5
            then (if is_ok s6 then Status.ok else Status.buffer_too_small, e6)
            else (Status.buffer_too_small, e5)
          else (Status.buffer_too_small, e4)
        else (Status.buffer_too_small, e3)
      else (Status.buffer_too_small, e2)
    else (Status.buffer_too_small, e1)

-- `lcc_backend_execution_set_all`
unfoldable pub execution_set_all : Text → Status × Execution
unfolding execution_set
execution_set_all name = execution_set name name name name name name

-- The last part of `lcc_backend_state_set_metadata`, once both names are written.
set_routes : Snapshot → Text → Execution → Status × Snapshot
set_routes s reason execution =
    let s' = record s { execution = execution } in
    if is_empty reason
    then (Status.ok, record s' { backend_fallback_reason = [] })
    else let (c, t) = copy_text reason_max s.backend_fallback_reason reason in
      (
        if is_ok c then Status.ok else Status.buffer_too_small,
        record s' { backend_fallback_reason = t },
      )

set_selected : Snapshot → Text → Text → Execution → Status × Snapshot
unfolding set_routes
set_selected s selected reason execution =
    let (c, t) = copy_text backend_name_max s.backend_selected selected in
    let s' = record s { backend_selected = t } in
    if is_ok c then set_routes s' reason execution else (Status.buffer_too_small, s')

-- `lcc_backend_state_set_metadata`
unfoldable pub state_set_metadata : Snapshot → Text → Text → Text → Execution → Status × Snapshot
unfolding set_selected
state_set_metadata s name selected reason execution =
    let (c, t) = copy_text backend_name_max s.backend_name name in
    let s' = record s { backend_name = t } in
    if is_empty selected
    then (Status.invalid_argument, s)
    else if is_empty name
    then set_selected s selected reason execution
    else if is_ok c
    then set_selected s' selected reason execution
    else (Status.buffer_too_small, s')
