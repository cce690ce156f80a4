-- ===== src/Mock/Mirror.antt =====
-- What was requested and what is in effect stay the same in the mock backend
-- (src/backends/mock/mock-backend.c).
use kuangshi16pro_series_gm.Prelude.{
  ◌≡◌, refl, Bool, true, ◌&&◌, List, [], ◌∷◌, arith, ltb, length, ◌∙◌, sym, ap,
}
use kuangshi16pro_series_gm.Text.{Text, literal, fit}
use kuangshi16pro_series_gm.Status.{Status}
use kuangshi16pro_series_gm.State.{name_max, Mode, StateTarget, Snapshot}
use kuangshi16pro_series_gm.Backend.{BackendResult}
use kuangshi16pro_series_gm.Metadata.{state_set_metadata}
use kuangshi16pro_series_gm.Mock.{
  Mock, copy_whole, mode_name_for_backend, put_profile, mock_apply_profile, mock_apply_mode,
  put_limits, mock_apply_power_limits, put_table, mock_apply_fan_table, put_boost,
  mock_apply_fan_boost, mock_read_state, seeded_mock,
}
use kuangshi16pro_series_gm.Mock.Faults.{
  Change, profile, fan_table, mode, power_limits, fan_boost, apply_change, fail_next,
}

abbrev Mirrors : Mock → Type 0
Mirrors m = m.state.requested ≡ m.state.effective

-- A name that is not cut by the copy into its buffer.
abbrev pub fits : Change → Bool
fits (profile name) = ltb (length name) name_max
fits (fan_table name) = ltb (length name) name_max
fits _ = true

-- What a client and a test do with a mock.
pub data Step : Type 0 where
  change : Change → Step
  fault : Change → Status → Step

abbrev pub step_fits : Step → Bool
step_fits (change c) = fits c
step_fits (fault _ _) = true

abbrev pub all_fit : List Step → Bool
all_fit [] = true
all_fit (x ∷ xs) = step_fits x && all_fit xs

unfoldable pub run_step : Step → BackendResult → Mock → Mock
run_step (change c) r m = (apply_change c r m).2
run_step (fault c s) r m = fail_next c m s

unfoldable pub run_steps : List Step → BackendResult → Mock → Mock
run_steps [] r m = m
run_steps (x ∷ xs) r m = run_steps xs r (run_step x r m)

put_profile-Mirrors :
    (name : Text) (r : BackendResult) (m : Mock)
    → ltb (length name) name_max ≡ true
    → Mirrors m
    → Mirrors (put_profile name r m).2
unfolding put_profile copy_whole
put_profile-Mirrors name r m f h =
    rw (f) (ap (λ (t : StateTarget). record t { profile = fit 64 name }) h)

put_table-Mirrors :
    (name : Text) (r : BackendResult) (m : Mock)
    → ltb (length name) name_max ≡ true
    → Mirrors m
    → Mirrors (put_table name r m).2
unfolding put_table copy_whole
put_table-Mirrors name r m f h =
    rw (f) (ap (λ (t : StateTarget). record t { fan_table = fit 64 name }) h)

mock_apply_profile-Mirrors :
    (name : Text) (r : BackendResult) (m : Mock)
    → ltb (length name) name_max ≡ true
    → Mirrors m
    → Mirrors (mock_apply_profile name r m).2
unfolding mock_apply_profile
mock_apply_profile-Mirrors name r m f h = grind (arith, put_profile-Mirrors)

mode_name_fits : (k : Mode) → ltb (length (mode_name_for_backend k)) name_max ≡ true
unfolding mode_name_for_backend literal
mode_name_fits Mode.gaming = refl
mode_name_fits Mode.office = refl
mode_name_fits Mode.turbo = refl
mode_name_fits Mode.custom = refl

apply_change-Mirrors :
    (c : Change) (r : BackendResult) (m : Mock)
    → fits c ≡ true
    → Mirrors m
    → Mirrors (apply_change c r m).2
unfolding apply_change mock_apply_mode mock_apply_power_limits put_limits mock_apply_fan_table
    mock_apply_fan_boost put_boost
apply_change-Mirrors (profile name) r m f h = mock_apply_profile-Mirrors name r m f h
apply_change-Mirrors (fan_table name) r m f h = grind (arith, put_table-Mirrors)
apply_change-Mirrors (mode k) r m f h = grind (arith, mock_apply_profile-Mirrors, mode_name_fits)
apply_change-Mirrors (power_limits l) r m f h = ground (arith, h)
apply_change-Mirrors (fan_boost b) r m f h = ground (arith, h)

run_steps-Mirrors :
    (xs : List Step) (r : BackendResult) (m : Mock)
    → all_fit xs ≡ true
    → Mirrors m
    → Mirrors (run_steps xs r m)
unfolding run_steps run_step fail_next
run_steps-Mirrors [] r m f h = h
run_steps-Mirrors (change c ∷ xs) r m f h =
    run_steps-Mirrors xs r (apply_change c r m).2 (ground (arith, f))
      (apply_change-Mirrors c r m (ground (arith, f)) h)
run_steps-Mirrors (fault c s ∷ xs) r m f h = run_steps-Mirrors xs r (fail_next c m s) f (faulty c)
  where
    faulty : (c : Change) → Mirrors (fail_next c m s)
    faulty (profile _) = h
    faulty (fan_table _) = h
    faulty (mode _) = h
    faulty (power_limits _) = h
    faulty (fan_boost _) = h

renamed_targets :
    (s : Snapshot)
    → let t = (state_set_metadata s (literal "mock") (literal "mock") [] s.execution).1 in
      (t.requested ≡ s.requested) × (t.effective ≡ s.effective)
unfolding state_set_metadata
renamed_targets s = ground arith

-- From the state that `lcc_mock_backend_seed_defaults` leaves, after any sequence of operations and of
-- failures asked for by a test, in which every name of a profile or a fan table has fewer than 64 bytes:
-- the state that `mock_read_state` returns, with LCC_OK, has the same target requested and in effect,
-- whichever of the operations failed.
pub mock_read_state-mirrors :
    (xs : List Step) (r : BackendResult) (old : Snapshot)
    → all_fit xs ≡ true
    → let (s, state, _, _) = mock_read_state old r (run_steps xs r seeded_mock) in
      (s ≡ Status.ok) × (state.requested ≡ state.effective)
unfolding mock_read_state seeded_mock
mock_read_state-mirrors xs r old f =
    let m = run_steps xs r seeded_mock in
    let h = run_steps-Mirrors xs r seeded_mock f refl in
    let (k, e) = renamed_targets m.state in (refl, k ∙ (h ∙ sym e))
