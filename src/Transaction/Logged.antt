-- ===== src/Transaction/Logged.antt =====
-- The log lines of `lcc_transaction_execute` (src/daemon/transaction.c).
use kuangshi16pro_series_gm.Prelude.{
  ◌≡◌, refl, false, Option, some, List, [], ◌∷◌, arith, if◌then◌else◌,
}
use kuangshi16pro_series_gm.Text.{Text, literal}
use kuangshi16pro_series_gm.Status.{Status, is_ok}
use kuangshi16pro_series_gm.State.{Mode, StateTarget}
use kuangshi16pro_series_gm.Backend.{BackendResult}
use kuangshi16pro_series_gm.Manager.{Level, LogEntry, Manager}
use kuangshi16pro_series_gm.Request.{Request, operation_name}
use kuangshi16pro_series_gm.Bookkeeping.{transaction_fail}
use kuangshi16pro_series_gm.Transaction.{
  capability_gate, record_result, apply_failed, complete, refresh_failed, finish, route, gate,
  begin, execute,
}
use kuangshi16pro_series_gm.Transaction.Records.{transaction_fail_lem, refresh_state_keeps}

-- The log has grown by one line, which closes the operation with the status `s`: at level info if it
-- is LCC_OK, at level error if not.
abbrev pub Closes : Request → Status → List LogEntry → List LogEntry → Type 0
Closes req s old [] = ⊥
Closes req s old (e ∷ rest) =
    (rest ≡ old)
    × (e.operation ≡ operation_name req)
    × (e.status ≡ s)
    × (e.level ≡ (if is_ok s then Level.info else Level.error))

-- The line that opens an operation, on top of the log.
abbrev pub Opens : Request → List LogEntry → List LogEntry → Type 0
Opens req old [] = ⊥
Opens req old (e ∷ rest) =
    (rest ≡ old)
    × (e.operation ≡ operation_name req)
    × (e.stage ≡ literal "begin")
    × (e.level ≡ Level.info)

-- The log is `old` with two lines more: one that opens the operation, and on top of it one that closes
-- it with the status `s`.
abbrev pub Adds : Request → Status → List LogEntry → List LogEntry → Type 0
Adds req s old [] = ⊥
Adds req s old (e ∷ rest) =
    (e.operation ≡ operation_name req)
    × (e.status ≡ s)
    × (e.level ≡ (if is_ok s then Level.info else Level.error))
    × Opens req old rest

Closes-opened :
    (req : Request) (s : Status) (old opened log : List LogEntry)
    → Closes req s opened log
    → Opens req old opened
    → Adds req s old log
Closes-opened req s old opened [] h o = h
Closes-opened req s old opened (e ∷ rest) h o = (h.1, h.2, h.3, rw (h.0) o)

module _ {C : Type 0} where
  abbrev ClosesOver : Request → List LogEntry → Status × Manager C → Type 0
  ClosesOver req old r = Closes req r.0 old r.1.log

  complete-Closes :
      (req : Request) (t : StateTarget) (r : BackendResult) (m : Manager C)
      → ClosesOver req m.log (complete req t r m)
  unfolding complete
  complete-Closes req t r m = ground arith

  refresh_failed-Closes :
      (req : Request) (t : StateTarget) (r : BackendResult) (s : Status) (m : Manager C)
      → is_ok s ≡ false
      → ClosesOver req m.log (refresh_failed req t r s m)
  unfolding refresh_failed
  refresh_failed-Closes req t r s m h =
      rw (transaction_fail_lem req _ r.executor_backend (some t) s m, h) (refl, refl, refl, refl)

  apply_failed-Closes :
      (uninit : BackendResult) (req : Request) (t : StateTarget) (s : Status) (r : BackendResult)
      (m : Manager C)
      → is_ok s ≡ false
      → ClosesOver req m.log (apply_failed uninit req t s r m)
  unfolding apply_failed
  apply_failed-Closes uninit req t s r m h =
      rw (transaction_fail_lem req _ r.executor_backend (some t) s m, h)
        ((refresh_state_keeps uninit _).2, refl, refl, refl)

  record_result-log : (r : BackendResult) (m : Manager C) → (record_result r m).log ≡ m.log
  unfolding record_result
  record_result-log r m = ground arith

  finish-Closes :
      (uninit : BackendResult) (req : Request) (t : StateTarget) (r : BackendResult) (m : Manager C)
      → ClosesOver req m.log (finish uninit req t r m)
  unfolding finish
  finish-Closes uninit req t r m =
      grind (arith, complete-Closes, refresh_failed-Closes, refresh_state_keeps)

  route-Closes :
      (uninit : BackendResult) (req : Request) (t : StateTarget) (mode : Mode) (m : Manager C)
      → ClosesOver req m.log (route uninit req t mode m)
  unfolding route
  route-Closes uninit req t mode m =
      grind (arith, finish-Closes, apply_failed-Closes, record_result-log)

  gate_refused-Closes :
      (req : Request) (stage : Text) (p : Option StateTarget) (s : Status) (m : Manager C)
      → (transaction_fail (operation_name req) stage [] p s m).log ≡ m.log
  gate_refused-Closes req stage p s m = rw (transaction_fail_lem req stage [] p s m)

  gate-Closes :
      (uninit : BackendResult) (req : Request) (t : StateTarget) (mode : Mode) (m : Manager C)
      → ClosesOver req m.log (gate uninit req t mode m)
  unfolding gate capability_gate
  gate-Closes uninit req t mode m = grind (arith, route-Closes, gate_refused-Closes)

  begin-Opens : (req : Request) (m : Manager C) → Opens req m.log (begin req m).log
  unfolding begin literal
  begin-Opens req m = (refl, refl, refl, refl)

  execute-Closes :
      (uninit : BackendResult) (m : Manager C) (req : Request)
      → ClosesOver req (begin req m).log (execute uninit m req)
  unfolding execute
  execute-Closes uninit m req = grind (arith, gate-Closes, gate_refused-Closes)

  -- For every backend and every request, `lcc_transaction_execute` adds two lines to the log: one at
  -- level info that opens the operation at stage "begin", and then one that closes it with the status
  -- that is returned, at level info if that is LCC_OK and at level error if not.
  pub execute_logs :
      (uninit : BackendResult) (m : Manager C) (req : Request)
      → let (s, m') = execute uninit m req in Adds req s m.log m'.log
  execute_logs uninit m req =
      Closes-opened req _ m.log (begin req m).log _ (execute-Closes uninit m req)
        (begin-Opens req m)
