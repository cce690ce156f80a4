-- ===== src/Tests/Mock.antt =====
-- The theorems on the mock backend at concrete values.
use kuangshi16pro_series_gm.Prelude.{◌≡◌, refl, true, [], ◌∷◌}
use kuangshi16pro_series_gm.Text.{literal}
use kuangshi16pro_series_gm.Status.{Status}
use kuangshi16pro_series_gm.State.{zero_snapshot}
use kuangshi16pro_series_gm.Backend.{result_reset, set_detail}
use kuangshi16pro_series_gm.Mock.{mock_result, mock_read_state, seeded_mock}
use kuangshi16pro_series_gm.Mock.Faults.{
  profile, power_limits, fan_boost, apply_change, fail_next, failure_detail,
  apply_change_fails_once,
}
use kuangshi16pro_series_gm.Mock.Mirror.{change, fault, all_fit, run_steps, mock_read_state-mirrors}
use kuangshi16pro_series_gm.Tests.{two_limits}

apply_change_fails_once_example :
    let (s', r', m') =
      apply_change
        (power_limits two_limits)
        result_reset
        (fail_next (power_limits two_limits) seeded_mock Status.io) in
    (s' ≡ Status.io)
    × (r' ≡ set_detail mock_result (failure_detail (power_limits two_limits)))
    × (m' ≡ fail_next (power_limits two_limits) seeded_mock Status.ok)
    × (m'.state ≡ seeded_mock.state)
apply_change_fails_once_example =
    apply_change_fails_once (power_limits two_limits) seeded_mock Status.io result_reset refl refl

named_fit :
    all_fit (
      change (profile (literal "quiet"))
      ∷ fault (fan_boost true) Status.io
      ∷ change (fan_boost true)
      ∷ [])
    ≡ true
unfolding literal
named_fit = refl

mock_read_state-mirrors_example :
    let (s, state, _, _) = mock_read_state zero_snapshot result_reset (
      run_steps
        (change (profile (literal "quiet"))
          ∷ fault (fan_boost true) Status.io
          ∷ change (fan_boost true)
          ∷ [])
        result_reset
        seeded_mock) in
    (s ≡ Status.ok) × (state.requested ≡ state.effective)
mock_read_state-mirrors_example =
    mock_read_state-mirrors
      (change (profile (literal "quiet"))
        ∷ fault (fan_boost true) Status.io
        ∷ change (fan_boost true)
        ∷ [])
      result_reset zero_snapshot named_fit
