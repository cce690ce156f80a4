-- ===== src/Mock/Faults.antt =====
-- The failures that a test asks for (src/backends/mock/mock-backend.c): each happens once.
use kuangshi16pro_series_gm.Prelude.{◌≡◌, refl, Bool, true, false, not, arith}
use kuangshi16pro_series_gm.Text.{Text, literal, is_empty}
use kuangshi16pro_series_gm.Status.{Status, is_ok}
use kuangshi16pro_series_gm.State.{Mode, PowerLimits}
use kuangshi16pro_series_gm.Backend.{BackendResult, set_detail}
use kuangshi16pro_series_gm.Mock.{
  Mock, mock_result, mock_apply_profile, mock_apply_mode, mock_apply_power_limits,
  mock_apply_fan_table, mock_apply_fan_boost,
}

-- The five operations that write.
pub data Change : Type 0 where
  profile fan_table : Text → Change
  mode : Mode → Change
  power_limits : PowerLimits → Change
  fan_boost : Bool → Change

-- The operation with its arguments, which a name may not be missing from.
unfoldable pub apply_change : Change → BackendResult → Mock → Status × BackendResult × Mock
apply_change (profile name) = mock_apply_profile name
apply_change (fan_table name) = mock_apply_fan_table name
apply_change (mode m) = mock_apply_mode m
apply_change (power_limits l) = mock_apply_power_limits l
apply_change (fan_boost b) = mock_apply_fan_boost b

-- `lcc_mock_backend_fail_next_profile` and its four kin, by the operation that is to fail.
unfoldable pub fail_next : Change → Mock → Status → Mock
fail_next (profile _) m s = record m { fail_profile = s }
fail_next (fan_table _) m s = record m { fail_fan = s }
fail_next (mode _) m s = record m { fail_mode = s }
fail_next (power_limits _) m s = record m { fail_power = s }
fail_next (fan_boost _) m s = record m { fail_fan_boost = s }

-- Whether a change passes the tests of its arguments that come before the failure.
abbrev pub is_named : Change → Bool
is_named (profile name) = not (is_empty name)
is_named (fan_table name) = not (is_empty name)
is_named _ = true

abbrev pub failure_detail : Change → Text
failure_detail (profile _) = literal "mock apply_profile failed"
failure_detail (fan_table _) = literal "mock apply_fan_table failed"
failure_detail (mode _) = literal "mock apply_mode failed"
failure_detail (power_limits _) = literal "mock apply_power_limits failed"
failure_detail (fan_boost _) = literal "mock apply_fan_boost failed"

-- An operation of the mock backend that a test made fail with an error, and whose name is not empty if
-- it has one, returns that error with the detail of the operation, leaves the mock's snapshot as it
-- was, and only clears the slot: the mock is then as if no failure of the operation had been asked for.
pub apply_change_fails_once :
    (c : Change) (m : Mock) (s : Status) (r : BackendResult)
    → is_named c ≡ true
    → is_ok s ≡ false
    → let (s', r', m') = apply_change c r (fail_next c m s) in
      (s' ≡ s)
      × (r' ≡ set_detail mock_result (failure_detail c))
      × (m' ≡ fail_next c m Status.ok)
      × (m'.state ≡ m.state)
unfolding apply_change fail_next mock_apply_profile mock_apply_mode mock_apply_power_limits
    mock_apply_fan_table mock_apply_fan_boost
apply_change_fails_once (profile name) m s r n h = ground (arith, n, h)
apply_change_fails_once (fan_table name) m s r n h = ground (arith, n, h)
apply_change_fails_once (mode k) m s r n h = rw (h) (refl, refl, refl, refl)
apply_change_fails_once (power_limits l) m s r n h = rw (h) (refl, refl, refl, refl)
apply_change_fails_once (fan_boost b) m s r n h = rw (h) (refl, refl, refl, refl)
