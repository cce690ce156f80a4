-- ===== src/Converged/Overlay.antt =====
-- src/backends/converged/backend.c: what the state that amw0 read adds to the state that the standard
-- backend read. An attribution that is not NULL is copied whole.
use kuangshi16pro_series_gm.Prelude.{Bool, not, ◌&&◌, ◌||◌, if◌then◌else◌}
use kuangshi16pro_series_gm.State.{
  name_max, OptionalByte, PowerLimits, Thermal, Execution, Snapshot, Attribution,
}
use kuangshi16pro_series_gm.Attribution.{
  copy_text, component_has_attribution, component_merge, state_finalize,
}
use kuangshi16pro_series_gm.Request.{any_present}
use kuangshi16pro_series_gm.Converged.Selection.{is_amw0_name}

-- One power field: what was asked for, what is in effect, and who says so.
pub record PowerCell : Type 0 where
  pub requested : OptionalByte
  pub effective : OptionalByte
  pub attribution : Attribution

-- `overlay_power_field`
unfoldable pub overlay_power_field : Bool → PowerCell → PowerCell → PowerCell
overlay_power_field replace target source =
    let t = record target {
      requested =
          if source.requested.present && (replace || not target.requested.present)
          then source.requested
          else target.requested;
    } in
    if not source.effective.present
    then t
    else if not replace && target.effective.present
    then t
    else record t {
      effective = source.effective;
      attribution =
          if component_has_attribution source.attribution
          then source.attribution
          else target.attribution;
    }

-- The cell of a snapshot for each of the four fields.
abbrev pub pl1_cell : Snapshot → PowerCell
pl1_cell s = record {
  requested = s.requested.power_limits.pl1;
  effective = s.effective.power_limits.pl1;
  attribution = s.effective_meta.power_fields.pl1;
}

abbrev pub pl2_cell : Snapshot → PowerCell
pl2_cell s = record {
  requested = s.requested.power_limits.pl2;
  effective = s.effective.power_limits.pl2;
  attribution = s.effective_meta.power_fields.pl2;
}

abbrev pub pl4_cell : Snapshot → PowerCell
pl4_cell s = record {
  requested = s.requested.power_limits.pl4;
  effective = s.effective.power_limits.pl4;
  attribution = s.effective_meta.power_fields.pl4;
}

abbrev pub tcc_cell : Snapshot → PowerCell
tcc_cell s = record {
  requested = s.requested.power_limits.tcc_offset;
  effective = s.effective.power_limits.tcc_offset;
  attribution = s.effective_meta.power_fields.tcc_offset;
}

-- The block under `amw0_state->effective.has_power_limits`, of which no two fields share a cell.
unfoldable pub overlay_power : Bool → Snapshot → Snapshot → Snapshot
overlay_power replace state amw0 =
    let pl1 = overlay_power_field replace (pl1_cell state) (pl1_cell amw0) in
    let pl2 = overlay_power_field replace (pl2_cell state) (pl2_cell amw0) in
    let pl4 = overlay_power_field replace (pl4_cell state) (pl4_cell amw0) in
    let tcc = overlay_power_field replace (tcc_cell state) (tcc_cell amw0) in
    let requested : PowerLimits = record {
      pl1 = pl1.requested;
      pl2 = pl2.requested;
      pl4 = pl4.requested;
      tcc_offset = tcc.requested;
    } in
    let effective : PowerLimits = record {
      pl1 = pl1.effective;
      pl2 = pl2.effective;
      pl4 = pl4.effective;
      tcc_offset = tcc.effective;
    } in
    if amw0.effective.has_power_limits
    then record state {
      requested = record state.requested {
        power_limits = requested;
        has_power_limits = any_present requested;
      };
      effective = record state.effective {
        power_limits = effective;
        has_power_limits = any_present effective;
      };
      effective_meta = record state.effective_meta {
        power_fields = record {
          pl1 = pl1.attribution;
          pl2 = pl2.attribution;
          pl4 = pl4.attribution;
          tcc_offset = tcc.attribution;
        };
      };
    }
    else state

-- The first block: the profile, if a profile, mode or fan table goes to amw0.
unfoldable pub overlay_profile : Execution → Snapshot → Snapshot → Snapshot
overlay_profile e state amw0 =
    if is_amw0_name e.apply_profile || is_amw0_name e.apply_mode || is_amw0_name e.apply_fan_table
    then record state {
      requested = record state.requested {
        profile = (copy_text name_max state.requested.profile amw0.requested.profile).1;
      };
      effective = record state.effective {
        profile = (copy_text name_max state.effective.profile amw0.effective.profile).1;
      };
      effective_meta = record state.effective_meta { profile = amw0.effective_meta.profile };
    }
    else state

unfoldable pub overlay_fan_table : Execution → Snapshot → Snapshot → Snapshot
overlay_fan_table e state amw0 =
    if is_amw0_name e.apply_fan_table
    then record state {
      requested = record state.requested {
        fan_table = (copy_text name_max state.requested.fan_table amw0.requested.fan_table).1;
      };
      effective = record state.effective {
        fan_table = (copy_text name_max state.effective.fan_table amw0.effective.fan_table).1;
      };
      effective_meta = record state.effective_meta { fan_table = amw0.effective_meta.fan_table };
    }
    else state

unfoldable pub overlay_fan_boost : Snapshot → Snapshot → Snapshot
overlay_fan_boost state amw0 =
    if amw0.effective.has_fan_boost
    then record state {
      requested = record state.requested {
        has_fan_boost = amw0.requested.has_fan_boost;
        fan_boost_enabled = amw0.requested.fan_boost_enabled;
      };
      effective = record state.effective {
        has_fan_boost = amw0.effective.has_fan_boost;
        fan_boost_enabled = amw0.effective.fan_boost_enabled;
      };
      effective_meta = record state.effective_meta { fan_boost = amw0.effective_meta.fan_boost };
    }
    else state

-- The five readings that the state may lack.
unfoldable pub fill_thermal : Thermal → Thermal → Thermal
fill_thermal t a = record {
  has_cpu_fan_rpm = t.has_cpu_fan_rpm || a.has_cpu_fan_rpm;
  has_gpu_fan_rpm = t.has_gpu_fan_rpm || a.has_gpu_fan_rpm;
  has_vendor_fan_level = t.has_vendor_fan_level || a.has_vendor_fan_level;
  has_cpu_temp_c = t.has_cpu_temp_c || a.has_cpu_temp_c;
  has_gpu_temp_c = t.has_gpu_temp_c || a.has_gpu_temp_c;
  cpu_fan_rpm = if not t.has_cpu_fan_rpm && a.has_cpu_fan_rpm then a.cpu_fan_rpm else t.cpu_fan_rpm;
  gpu_fan_rpm = if not t.has_gpu_fan_rpm && a.has_gpu_fan_rpm then a.gpu_fan_rpm else t.gpu_fan_rpm;
  vendor_fan_level =
      if not t.has_vendor_fan_level && a.has_vendor_fan_level
      then a.vendor_fan_level
      else t.vendor_fan_level;
  cpu_temp_c = if not t.has_cpu_temp_c && a.has_cpu_temp_c then a.cpu_temp_c else t.cpu_temp_c;
  gpu_temp_c = if not t.has_gpu_temp_c && a.has_gpu_temp_c then a.gpu_temp_c else t.gpu_temp_c;
}

-- The thermal part, with `merge_component_attribution` where amw0 attributes it.
unfoldable pub overlay_thermal : Snapshot → Snapshot → Snapshot
overlay_thermal state amw0 =
    let source = amw0.effective_meta.thermal in
    let filled = record state { thermal = fill_thermal state.thermal amw0.thermal } in
    if component_has_attribution source
    then record filled {
      effective_meta = record state.effective_meta {
        thermal = component_merge state.effective_meta.thermal source.source source.freshness;
      };
    }
    else filled

-- `overlay_amw0_state`; `e` is the routes of the pair.
unfoldable pub overlay_amw0_state : Execution → Snapshot → Snapshot → Snapshot
overlay_amw0_state e state amw0 =
    let s1 = overlay_profile e state amw0 in
    let s2 = overlay_fan_table e s1 amw0 in
    let s3 = overlay_fan_boost s2 amw0 in
    let s4 = overlay_power (is_amw0_name e.apply_power_limits) s3 amw0 in
    state_finalize (overlay_thermal s4 amw0)
