-- ===== src/Amw0/ReadState.antt =====
-- src/backends/amw0/backend.c: `amw0_read_state`. Without a device (`dry_run`) the state is the shadow
-- state; with one, each byte that can be read replaces what the shadow state held.
use kuangshi16pro_series_gm.Prelude.{Bool, false, ◌||◌, [], if◌then◌else◌}
use kuangshi16pro_series_gm.Text.{literal}
use kuangshi16pro_series_gm.Status.{Status}
use kuangshi16pro_series_gm.State.{backend_name_max, EffectiveMeta, Snapshot}
use kuangshi16pro_series_gm.Attribution.{
  PowerField, has_text, power_clear, power_set_from_limits, state_finalize,
}
use kuangshi16pro_series_gm.Metadata.{state_set_metadata}
use kuangshi16pro_series_gm.Backend.{BackendResult, result_reset, set_executor, set_detail}
use kuangshi16pro_series_gm.Request.{any_present}
use kuangshi16pro_series_gm.Amw0.Host.{Host}
use kuangshi16pro_series_gm.Amw0.Device.{
  Amw0, copy_field, component_from_readback, power_field_from_readback,
}
use kuangshi16pro_series_gm.Amw0.Live.{
  Flags, LimitFlags, ThermalFlags, Reads, from_cache, read_mode, read_limit, read_cpu_temp,
  read_gpu_temp, read_fan_level,
}

-- The result after its reset.
abbrev pub own_result : BackendResult
own_result = set_executor result_reset (literal "amw0")

abbrev name_amw0 : Snapshot → Snapshot
name_amw0 s = record s {
  backend_name = (copy_field backend_name_max s.backend_name (literal "amw0")).1;
}

-- The snapshot that the readings start from: the shadow state under the name of this backend.
unfoldable pub shadow_snapshot : Snapshot → Snapshot
shadow_snapshot shadow =
    let named =
      (state_set_metadata (name_amw0 shadow) (literal "amw0") (literal "amw0") []
        shadow.execution).1 in
    record named {
      effective_meta = record named.effective_meta {
        fan_table =
            component_from_readback false (has_text named.effective.fan_table) (literal "amw0");
      };
    }

abbrev any_live : ThermalFlags → Bool
any_live f =
    f.cpu_temp.live || f.gpu_temp.live || f.cpu_fan.live || f.gpu_fan.live || f.fan_level.live

abbrev any_cached : ThermalFlags → Bool
any_cached f =
    f.cpu_temp.cached || f.gpu_temp.cached || f.cpu_fan.cached || f.gpu_fan.cached
    || f.fan_level.cached

-- The attribution without a device.
unfoldable pub attribute_dry : {W : Type 0} → Reads W → Snapshot
attribute_dry r =
    let m1 = record r.state.effective_meta {
      profile = component_from_readback false r.profile.cached (literal "amw0");
      fan_boost = component_from_readback false r.fan_boost.cached (literal "amw0");
    } in
    let m2 =
      power_set_from_limits m1
        (r.power.pl1.cached || r.power.pl2.cached || r.power.pl4.cached
          || r.power.tcc_offset.cached)
        r.state.effective.power_limits (literal "cache") (literal "cache") in
    state_finalize (record r.state {
      effective_meta = record m2 {
        thermal = component_from_readback false (any_cached r.thermal) (literal "amw0");
      };
    })

abbrev attribute_limit : PowerField → Flags → EffectiveMeta → EffectiveMeta
attribute_limit field f m = power_field_from_readback m field f.live f.cached

abbrev attribute_limits : LimitFlags → EffectiveMeta → EffectiveMeta
attribute_limits f m = attribute_limit PowerField.tcc_offset f.tcc_offset (
    attribute_limit PowerField.pl4 f.pl4
      (attribute_limit PowerField.pl2 f.pl2 (attribute_limit PowerField.pl1 f.pl1 (power_clear m))))

-- The attribution after the readings.
unfoldable pub attribute_live : {W : Type 0} → Reads W → Snapshot
attribute_live r =
    let m1 = record r.state.effective_meta {
      profile = component_from_readback r.profile.live r.profile.cached (literal "amw0");
      fan_boost = component_from_readback r.fan_boost.live r.fan_boost.cached (literal "amw0");
    } in
    state_finalize (record r.state {
      effective_meta = record (attribute_limits r.power m1) {
        thermal =
            component_from_readback (any_live r.thermal) (any_cached r.thermal) (literal "amw0");
      };
    })

-- The flags `has_power_limits` follow the limits that were requested.
unfoldable pub settle_limits : {W : Type 0} → Reads W → Reads W
settle_limits r =
    let present = any_present r.state.requested.power_limits in
    record r {
      state = record r.state {
        requested = record r.state.requested { has_power_limits = present };
        effective = record r.state.effective { has_power_limits = present };
      };
    }

module _ {W : Type 0} (host : Host W) where
  abbrev read_limits : Reads W → Reads W
  read_limits r = read_limit host PowerField.tcc_offset 0x0786 (
      read_limit host PowerField.pl4 0x0785
        (read_limit host PowerField.pl2 0x0784 (read_limit host PowerField.pl1 0x0783 r)))

  -- All readings, in the order of the source.
  unfoldable pub read_all : Reads W → Reads W
  read_all r =
      read_fan_level host
        (read_gpu_temp host (read_cpu_temp host (settle_limits (read_limits (read_mode host r)))))

  -- The end of `amw0_read_state` with a device. The state becomes the shadow state also where no byte
  -- was read.
  unfoldable pub finish_live : BackendResult → Reads W → Status × Snapshot × BackendResult × Amw0 W
  finish_live result r =
      let state = attribute_live r in
      let a = record r.amw0 { shadow_state = state } in
      if r.any_live_value then (Status.ok, state, result, a) else (
        Status.not_found,
        state,
        set_detail result (literal "amw0 state read returned no live values"),
        a,
      )

  -- `amw0_read_state`; what the snapshot held is replaced.
  unfoldable pub amw0_read_state :
      Snapshot → BackendResult → Amw0 W → Status × Snapshot × BackendResult × Amw0 W
  amw0_read_state old uninit a =
      let start = from_cache a (shadow_snapshot a.shadow_state) in
      if a.transport.dry_run
      then (Status.ok, attribute_dry start, own_result, a)
      else finish_live own_result (read_all start)
