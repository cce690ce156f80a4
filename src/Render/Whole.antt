-- ===== src/Render/Whole.antt =====
-- The parts of src/core/state/model.c without their buffers, and the texts of the snapshot that keep to
-- theirs.
use kuangshi16pro_series_gm.Prelude.{◌<◌, if◌then◌else◌, length}
use kuangshi16pro_series_gm.Text.{Text}
use kuangshi16pro_series_gm.State.{StateTarget, Execution, Attribution, EffectiveMeta}
use kuangshi16pro_series_gm.Render.{
  null, number_text, bool_text, power_text, target_text, string_text, execution_text,
  component_text, power_meta_text, meta_text,
}

-- The parts without their buffers.
unfoldable pub whole_power : StateTarget → Text
whole_power t =
    let l = t.power_limits in
    if t.has_power_limits
    then power_text (number_text l.pl1.present l.pl1.value) (number_text l.pl2.present l.pl2.value)
        (number_text l.pl4.present l.pl4.value)
        (number_text l.tcc_offset.present l.tcc_offset.value)
    else null

unfoldable pub whole_target : StateTarget → Text
whole_target t =
    target_text t.profile t.fan_table (bool_text t.has_fan_boost t.fan_boost_enabled)
      (whole_power t)

unfoldable pub whole_execution : Execution → Text
whole_execution e =
    execution_text (string_text e.read_state) (string_text e.apply_profile)
      (string_text e.apply_mode) (string_text e.apply_power_limits) (string_text e.apply_fan_table)
      (string_text e.apply_fan_boost)

unfoldable pub whole_component : Attribution → Text
whole_component c = component_text (string_text c.source) (string_text c.freshness)

unfoldable pub whole_power_meta : EffectiveMeta → Text
whole_power_meta m =
    power_meta_text (string_text m.power.source) (string_text m.power.freshness)
      (whole_component m.power_fields.pl1) (whole_component m.power_fields.pl2)
      (whole_component m.power_fields.pl4) (whole_component m.power_fields.tcc_offset)

unfoldable pub whole_meta : EffectiveMeta → Text
whole_meta m =
    meta_text (string_text m.source) (string_text m.freshness) (whole_component m.profile)
      (whole_component m.fan_table) (whole_component m.fan_boost) (whole_power_meta m)
      (whole_component m.thermal)

-- The texts of a part are shorter than their buffers.
pub record TargetFits (t : StateTarget) : Type 0 where
  pub profile : length t.profile < 64
  pub fan_table : length t.fan_table < 64

pub record ExecutionFits (e : Execution) : Type 0 where
  pub read_state : length e.read_state < 32
  pub apply_profile : length e.apply_profile < 32
  pub apply_mode : length e.apply_mode < 32
  pub apply_power_limits : length e.apply_power_limits < 32
  pub apply_fan_table : length e.apply_fan_table < 32
  pub apply_fan_boost : length e.apply_fan_boost < 32

pub record AttributionFits (c : Attribution) : Type 0 where
  pub source : length c.source < 32
  pub freshness : length c.freshness < 32

pub record MetaFits (m : EffectiveMeta) : Type 0 where
  pub source : length m.source < 32
  pub freshness : length m.freshness < 32
  pub profile : AttributionFits m.profile
  pub fan_table : AttributionFits m.fan_table
  pub fan_boost : AttributionFits m.fan_boost
  pub power : AttributionFits m.power
  pub pl1 : AttributionFits m.power_fields.pl1
  pub pl2 : AttributionFits m.power_fields.pl2
  pub pl4 : AttributionFits m.power_fields.pl4
  pub tcc_offset : AttributionFits m.power_fields.tcc_offset
  pub thermal : AttributionFits m.thermal
