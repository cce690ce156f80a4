-- ===== src/Tests/Daemon.antt =====
-- The theorems on the daemon at concrete requests.
use kuangshi16pro_series_gm.Prelude.{◌≡◌, ◌≢◌, ◌⊎◌, refl, ℕ, true, false, some, none, [], arith}
use kuangshi16pro_series_gm.Text.{literal, fit}
use kuangshi16pro_series_gm.Status.{Status, is_ok}
use kuangshi16pro_series_gm.State.{
  Mode, Snapshot, EffectiveMeta, zero_target, zero_snapshot, zero_meta,
}
use kuangshi16pro_series_gm.Attribution.{meta_finalize, mark_effective_cached}
use kuangshi16pro_series_gm.Attribution.Consensus.{consensus}
use kuangshi16pro_series_gm.Attribution.Finalize.{
  IsBounded, summarised, meta_finalize_idem, meta_finalize-eq-summary,
}
use kuangshi16pro_series_gm.Attribution.{components, sources, freshnesses}
use kuangshi16pro_series_gm.Attribution.Cached.{cached_meta, mark_effective_cached_lem}
use kuangshi16pro_series_gm.Backend.{
  Backend, result_reset, backend_read_state, backend_apply_profile,
}
use kuangshi16pro_series_gm.Reader.{copy_name, reader_refresh}
use kuangshi16pro_series_gm.Reader.Preserves.{reader_refresh_keeps, reader_refresh_failed}
use kuangshi16pro_series_gm.Manager.{Manager}
use kuangshi16pro_series_gm.Request.{
  Request, is_name_char, name_is_safe, mode_to_profile_name, operation_name, capability_supported,
  stage_target,
}
use kuangshi16pro_series_gm.Request.Target.{
  Composes, IsComplete, stage_target-Composes, stage_target_complete,
}
use kuangshi16pro_series_gm.Request.Names.{mode_text}
use kuangshi16pro_series_gm.Bookkeeping.{stage_preflight, stage_capability_gate}
use kuangshi16pro_series_gm.Transaction.{apply_profile_or_mode, transaction_apply, execute}
use kuangshi16pro_series_gm.Transaction.Records.{failed_transaction}
use kuangshi16pro_series_gm.Transaction.Settled.{Settled, execute-Settled}
use kuangshi16pro_series_gm.Transaction.Gate.{IsUntouched, execute_preflight, execute_gate}
use kuangshi16pro_series_gm.Transaction.Outcome.{Reports, execute-Reports}
use kuangshi16pro_series_gm.Transaction.Logged.{Adds, execute_logs}
use kuangshi16pro_series_gm.Daemon.{Detect, manager_init, manager_set_profile}
use kuangshi16pro_series_gm.Daemon.Reachable.{Step, Reachable, IsAtRest, Reachable-IsAtRest}
use kuangshi16pro_series_gm.Transaction.Success.{Answers, Holds, execute-Holds}
use kuangshi16pro_series_gm.Tests.{all_capable, no_boost, manager, two_limits}

abbrev quiet : Request
quiet = Request.set_profile (some (literal "quiet"))

abbrev unsafe : Request
unsafe = Request.set_profile (some (literal "../x"))

abbrev boost : Request
boost = Request.set_fan_boost true

abbrev able : Manager ℕ
able = manager all_capable

abbrev limited : Manager ℕ
limited = manager no_boost

quiet_staged : is_ok (stage_target zero_target quiet).0 ≡ true
unfolding stage_target name_is_safe is_name_char copy_name literal fit
quiet_staged = refl

unsafe_refused : is_ok (stage_target zero_target unsafe).0 ≡ false
unfolding stage_target name_is_safe is_name_char copy_name literal fit
unsafe_refused = refl

boost_staged : is_ok (stage_target zero_target boost).0 ≡ true
unfolding stage_target
boost_staged = refl

boost_unsupported : capability_supported no_boost boost ≡ false
unfolding capability_supported
boost_unsupported = refl

quiet_supported : capability_supported all_capable quiet ≡ true
unfolding capability_supported
quiet_supported = refl

execute-Settled_example : Settled quiet (execute result_reset able quiet)
execute-Settled_example = execute-Settled result_reset able quiet

execute-Reports_example :
    let (_, target, mode) = stage_target zero_target quiet in
    let (s, r, _) = transaction_apply able.backend quiet mode in
    let (s', m') = execute result_reset able quiet in
    Reports target r m'.state_cache.last_apply × ((is_ok s ≡ true) ⊎ (s' ≡ s))
execute-Reports_example = execute-Reports result_reset able quiet quiet_staged quiet_supported

execute_gate_example :
    let target = (stage_target zero_target boost).1 in
    let (s, m') = execute result_reset limited boost in
    (s ≡ Status.not_supported)
    × IsUntouched limited m'
    × (m'.state_cache.last_apply.target ≡ target)
    × (m'.state_cache.last_apply.stage ≡ stage_capability_gate)
    × (m'.state_cache.transaction
        ≡ failed_transaction (operation_name boost) stage_capability_gate (some target) s)
execute_gate_example = execute_gate result_reset limited boost boost_staged boost_unsupported

execute_preflight_example :
    let (s, m') = execute result_reset able unsafe in
    (s ≡ (stage_target zero_target unsafe).0)
    × IsUntouched able m'
    × (m'.state_cache.last_apply.has_target ≡ false)
    × (m'.state_cache.last_apply.stage ≡ stage_preflight)
    × (m'.state_cache.transaction
        ≡ failed_transaction (operation_name unsafe) stage_preflight none s)
execute_preflight_example = execute_preflight result_reset able unsafe unsafe_refused

execute_logs_example : let (s, m') = execute result_reset able quiet in Adds quiet s [] m'.log
execute_logs_example = execute_logs result_reset able quiet

stage_target-Composes_example : Composes zero_target quiet (stage_target zero_target quiet).1
stage_target-Composes_example = stage_target-Composes zero_target quiet quiet_staged

-- A request for limits, and the name of a mode.
abbrev limits_request : Request
limits_request = Request.set_power_limits (some two_limits)

abbrev office_request : Request
office_request = Request.set_mode (some (mode_text Mode.office))

quiet-IsComplete : IsComplete quiet
unfolding literal is_name_char
quiet-IsComplete = ((λ e. cc), refl, ground arith)

stage_target_complete_example :
    (is_ok (stage_target zero_target quiet).0 ≡ true)
    × (is_ok (stage_target zero_target office_request).0 ≡ true)
    × (is_ok (stage_target zero_target limits_request).0 ≡ true)
stage_target_complete_example = (
  stage_target_complete zero_target quiet quiet-IsComplete,
  stage_target_complete zero_target office_request (Mode.office, refl),
  stage_target_complete zero_target limits_request refl,
)

reader_refresh_keeps_example :
    let s' = (reader_refresh result_reset able.backend zero_snapshot).1 in
    (s'.transaction ≡ zero_snapshot.transaction) × (s'.last_apply ≡ zero_snapshot.last_apply)
reader_refresh_keeps_example = reader_refresh_keeps result_reset able.backend zero_snapshot

-- A backend without operations.
abbrev bare : Backend ℕ
bare = record { ops = none; ctx = 0 }

bare_refused : (reader_refresh result_reset bare zero_snapshot).0 ≡ Status.not_supported
unfolding reader_refresh backend_read_state
bare_refused = refl

bare_fails : (reader_refresh result_reset bare zero_snapshot).0 ≢ Status.ok
bare_fails h = cc bare_refused

reader_refresh_failed_example :
    let s' = (reader_refresh result_reset bare zero_snapshot).1 in
    s' ≡ record zero_snapshot { effective_meta = s'.effective_meta }
reader_refresh_failed_example = reader_refresh_failed result_reset bare zero_snapshot bare_fails

-- Two parts that name different sources.
abbrev disagreeing : EffectiveMeta
disagreeing = record zero_meta {
  profile = record { source = literal "amw0"; freshness = literal "live" };
  thermal = record { source = literal "standard"; freshness = literal "live" };
}

disagreeing-IsBounded : IsBounded disagreeing
unfolding literal
disagreeing-IsBounded = record { parts = ground arith; fields = ground arith }

meta_finalize_idem_example : meta_finalize (meta_finalize disagreeing) ≡ meta_finalize disagreeing
meta_finalize_idem_example = meta_finalize_idem disagreeing

meta_finalize-eq-summary_example : meta_finalize disagreeing ≡ record (summarised disagreeing) {
  source = consensus (sources (components (summarised disagreeing)));
  freshness = consensus (freshnesses (components (summarised disagreeing)));
}
meta_finalize-eq-summary_example = meta_finalize-eq-summary disagreeing disagreeing-IsBounded

-- A snapshot that knows a profile.
abbrev profiled : Snapshot
profiled = record zero_snapshot { effective = record zero_target { profile = literal "quiet" } }

mark_effective_cached_lem_example :
    mark_effective_cached profiled ≡ record profiled { effective_meta = cached_meta profiled }
mark_effective_cached_lem_example = mark_effective_cached_lem profiled

-- No capability file is found, and then a profile is set.
abbrev no_file : Detect
no_file selected caps path json = (Status.not_found, json)

abbrev started_manager : Manager ℕ
started_manager = (manager_init no_file result_reset able.backend none).1

abbrev served_manager : Manager ℕ
served_manager = (manager_set_profile result_reset started_manager (some (literal "quiet"))).1

served_manager-Reachable : Reachable served_manager
served_manager-Reachable =
    Reachable.next started_manager served_manager
      (Reachable.started no_file result_reset able.backend none)
      (Step.set_profile result_reset started_manager (some (literal "quiet")))

Reachable-IsAtRest_example : IsAtRest served_manager.state_cache
Reachable-IsAtRest_example = Reachable-IsAtRest served_manager served_manager-Reachable

quiet_applied :
    is_ok (transaction_apply able.backend quiet (stage_target zero_target quiet).2).0 ≡ true
unfolding transaction_apply apply_profile_or_mode backend_apply_profile mode_to_profile_name literal
quiet_applied = refl

quiet_answered :
    Answers result_reset (transaction_apply able.backend quiet (stage_target zero_target quiet).2).2
unfolding transaction_apply apply_profile_or_mode backend_apply_profile mode_to_profile_name
    backend_read_state literal
quiet_answered = record { status = refl; named = refl }

execute-Holds_example :
    let (_, r, b) = transaction_apply able.backend quiet (stage_target zero_target quiet).2 in
    let (_, read, r2, b2) = backend_read_state b zero_snapshot result_reset in
    let (s, m') = execute result_reset able quiet in
    (s ≡ Status.ok) × (m'.backend ≡ b2) × Holds r r2 read m'.state_cache
execute-Holds_example =
    execute-Holds result_reset able quiet quiet_staged quiet_supported quiet_applied quiet_answered
