-- ===== src/Fan/Demo.antt =====
-- The demo table of src/core/fan/table.c.
use kuangshi16pro_series_gm.Prelude.{◌≡◌, refl, false, [], ◌∷◌}
use kuangshi16pro_series_gm.Text.{Text, is_empty, fit}
use kuangshi16pro_series_gm.Status.{Status}
use kuangshi16pro_series_gm.Fan.{
  FanTable, IsTable, point_is_monotonic, validate_fan_table, fan_table_build_demo,
}

-- For every name that is not empty, `lcc_fan_table_build_demo` succeeds, whatever the table held, and
-- the table that it builds has 16 points in each curve and passes `lcc_validate_fan_table`.
pub fan_table_build_demo-valid :
    (t : FanTable) (name : Text)
    → is_empty name ≡ false
    → let (s, d) = fan_table_build_demo t name in
      (s ≡ Status.ok) × IsTable d × (validate_fan_table d ≡ Status.ok)
unfolding fan_table_build_demo validate_fan_table point_is_monotonic fit
fan_table_build_demo-valid t [] h = absurd (cc)
fan_table_build_demo-valid t (c ∷ name) h =
    (refl, record { cpu_points = refl; gpu_points = refl }, refl)
