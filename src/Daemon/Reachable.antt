-- ===== src/Daemon/Reachable.antt =====
-- The states that the daemon can reach (src/daemon/manager.c).
use kuangshi16pro_series_gm.Prelude.{
  ◌≡◌, ◌≢◌, ◌⊎◌, refl, ap, ◌∙◌, inl, inr, Bool, Bool-cases, Option, none, some, List, [], ◌∷◌,
  arith,
}
use kuangshi16pro_series_gm.Text.{Text}
use kuangshi16pro_series_gm.Status.{Status}
use kuangshi16pro_series_gm.State.{
  PowerLimits, TransactionState, zero_transaction, zero_last_apply, Snapshot,
}
use kuangshi16pro_series_gm.Backend.{BackendResult, Backend}
use kuangshi16pro_series_gm.Manager.{Manager}
use kuangshi16pro_series_gm.Request.{Request}
use kuangshi16pro_series_gm.Transaction.Records.{refresh_state_keeps}
use kuangshi16pro_series_gm.Transaction.Settled.{Settled, execute-Settled}
use kuangshi16pro_series_gm.Daemon.{
  Detect, set_default_capabilities, detect_at, detect_first, init_capabilities, manager_init,
  manager_set_mode, manager_set_profile, manager_apply_fan_table, manager_set_fan_boost,
  manager_set_power_limits,
}

-- The transaction is idle and cleared and the last apply has no error, or it has failed, with an
-- error that the last apply has too.
unfoldable pub IsAtRest : Snapshot → Type 0
IsAtRest s =
    ((s.transaction ≡ zero_transaction) × (s.last_apply.error ≡ Status.ok))
    ⊎ ((s.transaction.state ≡ TransactionState.failed)
        × (s.last_apply.error ≡ s.transaction.last_error)
        × (s.last_apply.error ≢ Status.ok))

-- The snapshot of a manager that has served no request.
abbrev IsFresh : Snapshot → Type 0
IsFresh s = (s.transaction ≡ zero_transaction) × (s.last_apply ≡ zero_last_apply)

module _ {C : Type 0} where
  -- One operation of the daemon on its manager, with any content of the uninitialised results.
  pub data Step : Manager C → Manager C → Type 0 where
    set_mode :
        (u : BackendResult) (m : Manager C) (t : Option Text) → Step m (manager_set_mode u m t).1
    set_profile :
        (u : BackendResult) (m : Manager C) (t : Option Text) → Step m (manager_set_profile u m t).1
    apply_fan_table :
        (u : BackendResult) (m : Manager C) (t : Option Text)
        → Step m (manager_apply_fan_table u m t).1
    set_fan_boost :
        (u : BackendResult) (m : Manager C) (b : Bool) → Step m (manager_set_fan_boost u m b).1
    set_power_limits :
        (u : BackendResult) (m : Manager C) (l : Option PowerLimits)
        → Step m (manager_set_power_limits u m l).1

  -- The managers that `lcc_manager_init` starts and operations lead to.
  pub data Reachable : Manager C → Type 0 where
    started :
        (detect : Detect) (u : BackendResult) (b : Backend C) (path : Option Text)
        → Reachable (manager_init detect u b path).1
    next : (m m' : Manager C) → Reachable m → Step m m' → Reachable m'

  Settled-IsAtRest :
      (req : Request) (s : Status) (m : Manager C) → Settled req (s, m) → IsAtRest m.state_cache
  unfolding Settled IsAtRest
  Settled-IsAtRest req s m (inl (_, idle, clean)) = inl (idle, clean)
  Settled-IsAtRest req s m (inr (bad, (failed, _, error, same))) =
      inr (failed, cc (error, same), (λ ok. bad (cc (same, ok))))

  detect_at-cache :
      (detect : Detect) (path : Text) (m : Manager C)
      → (detect_at detect path m).1.state_cache ≡ m.state_cache
  unfolding detect_at
  detect_at-cache detect path m = ground arith

  detect_first-cache :
      (detect : Detect) (paths : List Text) (m : Manager C)
      → (detect_first detect paths m).state_cache ≡ m.state_cache
  unfolding detect_first set_default_capabilities detect_at
  detect_first-cache detect [] m = refl
  detect_first-cache detect (path ∷ paths) m =
      let (found, m') = detect_at detect path m in
      elim (Bool-cases found) [
        | inl e ↦ rw e (detect_at-cache detect path m)
        | inr e ↦ rw e (detect_first-cache detect paths m' ∙ detect_at-cache detect path m)
      ]

  init_capabilities-cache :
      (detect : Detect) (path : Option Text) (m : Manager C)
      → (init_capabilities detect path m).state_cache ≡ m.state_cache
  unfolding init_capabilities set_default_capabilities
  init_capabilities-cache detect none m = detect_first-cache detect _ m
  init_capabilities-cache detect (some path) m = ground (arith, detect_at-cache detect path m)

  manager_init-IsFresh :
      (detect : Detect) (u : BackendResult) (b : Backend C) (path : Option Text)
      → IsFresh (manager_init detect u b path).1.state_cache
  unfolding manager_init
  manager_init-IsFresh detect u b path = grind (arith, refresh_state_keeps, init_capabilities-cache)

  Step-IsAtRest : (m m' : Manager C) → Step m m' → IsAtRest m'.state_cache
  unfolding manager_set_mode manager_set_profile manager_apply_fan_table manager_set_fan_boost
      manager_set_power_limits
  Step-IsAtRest _ _ (set_mode u m t) = Settled-IsAtRest _ _ _ (execute-Settled u m _)
  Step-IsAtRest _ _ (set_profile u m t) = Settled-IsAtRest _ _ _ (execute-Settled u m _)
  Step-IsAtRest _ _ (apply_fan_table u m t) = Settled-IsAtRest _ _ _ (execute-Settled u m _)
  Step-IsAtRest _ _ (set_fan_boost u m b) = Settled-IsAtRest _ _ _ (execute-Settled u m _)
  Step-IsAtRest _ _ (set_power_limits u m l) = Settled-IsAtRest _ _ _ (execute-Settled u m _)

  -- Between two operations the daemon is at rest, whatever the backend does: in every manager that the
  -- start and any sequence of the five operations lead to, the transaction is idle and cleared and
  -- the last apply has no error, or the transaction has failed with an error that the last apply has too.
  pub Reachable-IsAtRest : (m : Manager C) → Reachable m → IsAtRest m.state_cache
  unfolding IsAtRest
  Reachable-IsAtRest _ (started detect u b path) =
      let (idle, clean) = manager_init-IsFresh detect u b path in
      inl (idle, ap (λ a. a.error) clean)
  Reachable-IsAtRest _ (next m m' r s) = Step-IsAtRest m m' s
