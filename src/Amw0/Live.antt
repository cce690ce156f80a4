-- ===== src/Amw0/Live.antt =====
-- src/backends/amw0/backend.c, the readings of `amw0_read_state`: what its local variables hold while it
-- reads the bytes of the embedded controller one by one.
use kuangshi16pro_series_gm.Prelude.{ℕ, ◌%◌, Bool, true, false, ◌&&◌, ltb, if◌then◌else◌}
use kuangshi16pro_series_gm.Status.{Status, is_ok}
use kuangshi16pro_series_gm.State.{OptionalByte, PowerLimits, Snapshot}
use kuangshi16pro_series_gm.Attribution.{PowerField, has_text}
use kuangshi16pro_series_gm.Amw0.Host.{Host}
use kuangshi16pro_series_gm.Amw0.Control.{has_boost, mode_from_control}
use kuangshi16pro_series_gm.Amw0.Device.{
  Amw0, set_mode_profile_state, set_fan_boost_state, power_value_is_plausible, cache_mode_control,
}
use kuangshi16pro_series_gm.Amw0.Access.{addr_mode_control, read_live_byte}

-- A pair of the arrays `..._live` and `..._cache`.
pub record Flags : Type 0 where
  pub live : Bool
  pub cached : Bool

-- The flags of the four power limits.
pub record LimitFlags : Type 0 where
  pub pl1 : Flags
  pub pl2 : Flags
  pub pl4 : Flags
  pub tcc_offset : Flags

-- The flags of the five thermal values.
pub record ThermalFlags : Type 0 where
  pub cpu_temp : Flags
  pub gpu_temp : Flags
  pub cpu_fan : Flags
  pub gpu_fan : Flags
  pub fan_level : Flags

pub record Reads (W : Type 0) : Type 0 where
  pub amw0 : Amw0 W
  pub state : Snapshot
  pub raw : ℕ  -- uint8_t
  pub any_live_value : Bool
  pub profile : Flags
  pub fan_boost : Flags
  pub power : LimitFlags
  pub thermal : ThermalFlags

abbrev pub cached_flag : Bool → Flags
cached_flag b = record { live = false; cached = b }

abbrev pub live_flag : Flags
live_flag = record { live = true; cached = false }

abbrev pub set_limit : PowerLimits → PowerField → OptionalByte → PowerLimits
set_limit l PowerField.pl1 b = record l { pl1 = b }
set_limit l PowerField.pl2 b = record l { pl2 = b }
set_limit l PowerField.pl4 b = record l { pl4 = b }
set_limit l PowerField.tcc_offset b = record l { tcc_offset = b }

abbrev pub set_live : LimitFlags → PowerField → LimitFlags
set_live f PowerField.pl1 = record f { pl1 = live_flag }
set_live f PowerField.pl2 = record f { pl2 = live_flag }
set_live f PowerField.pl4 = record f { pl4 = live_flag }
set_live f PowerField.tcc_offset = record f { tcc_offset = live_flag }

-- A limit that was read goes to both targets.
unfoldable pub put_limit : Snapshot → PowerField → ℕ → Snapshot
put_limit s field raw =
    let b : OptionalByte = record { present = true; value = raw } in
    record s {
      requested = record s.requested { power_limits = set_limit s.requested.power_limits field b };
      effective = record s.effective { power_limits = set_limit s.effective.power_limits field b };
    }

-- The initial values: what the shadow state holds counts as cached.
abbrev pub from_cache : {W : Type 0} → Amw0 W → Snapshot → Reads W
from_cache a s = record {
  amw0 = a;
  state = s;
  raw = 0;
  any_live_value = false;
  profile = cached_flag (has_text s.effective.profile);
  fan_boost = cached_flag s.effective.has_fan_boost;
  power = record {
    pl1 = cached_flag s.effective.power_limits.pl1.present;
    pl2 = cached_flag s.effective.power_limits.pl2.present;
    pl4 = cached_flag s.effective.power_limits.pl4.present;
    tcc_offset = cached_flag s.effective.power_limits.tcc_offset.present;
  };
  thermal = record {
    cpu_temp = cached_flag s.thermal.has_cpu_temp_c;
    gpu_temp = cached_flag s.thermal.has_gpu_temp_c;
    cpu_fan = cached_flag s.thermal.has_cpu_fan_rpm;
    gpu_fan = cached_flag s.thermal.has_gpu_fan_rpm;
    fan_level = cached_flag s.thermal.has_vendor_fan_level;
  };
}

module _ {W : Type 0} (host : Host W) where
  -- One call of `read_live_byte` on `raw`.
  unfoldable pub read_raw : Reads W → ℕ → Status × Reads W
  read_raw r offset =
      let (s, raw, a) = read_live_byte host r.amw0 offset r.raw in
      (s, record r { amw0 = a; raw = raw })

  -- The control byte.
  unfoldable pub read_mode : Reads W → Reads W
  read_mode r0 =
      let (s, r) = read_raw r0 addr_mode_control in
      if is_ok s
      then record r {
        amw0 = cache_mode_control r.amw0 r.raw;
        state =
            set_fan_boost_state (set_mode_profile_state r.state (mode_from_control r.raw))
              (has_boost r.raw);
        profile = live_flag;
        fan_boost = live_flag;
        any_live_value = true;
      }
      else r

  -- A power limit.
  unfoldable pub read_limit : PowerField → ℕ → Reads W → Reads W
  read_limit field offset r0 =
      let (s, r) = read_raw r0 offset in
      if is_ok s && power_value_is_plausible field r.raw
      then record r {
        state = put_limit r.state field r.raw;
        power = set_live r.power field;
        any_live_value = true;
      }
      else r

  -- The temperatures, which are not taken where they are 0, and the fan level.
  unfoldable pub read_cpu_temp : Reads W → Reads W
  read_cpu_temp r0 =
      let (s, r) = read_raw r0 0x0E0D in
      if is_ok s && ltb 0 r.raw
      then record r {
        state = record r.state {
          thermal = record r.state.thermal { has_cpu_temp_c = true; cpu_temp_c = r.raw };
        };
        thermal = record r.thermal { cpu_temp = live_flag };
        any_live_value = true;
      }
      else r

  unfoldable pub read_gpu_temp : Reads W → Reads W
  read_gpu_temp r0 =
      let (s, r) = read_raw r0 0x0E0E in
      if is_ok s && ltb 0 r.raw
      then record r {
        state = record r.state {
          thermal = record r.state.thermal { has_gpu_temp_c = true; gpu_temp_c = r.raw };
        };
        thermal = record r.thermal { gpu_temp = live_flag };
        any_live_value = true;
      }
      else r

  unfoldable pub read_fan_level : Reads W → Reads W
  read_fan_level r0 =
      let (s, r) = read_raw r0 0x0460 in
      if is_ok s
      then record r {
        state = record r.state {
          thermal = record r.state.thermal {
            has_vendor_fan_level = true;
            vendor_fan_level = r.raw % 16;
          };
        };
        thermal = record r.thermal { fan_level = live_flag };
        any_live_value = true;
      }
      else r
