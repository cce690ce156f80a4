-- ===== src/Amw0/DryRun.antt =====
-- The amw0 backend of src/backends/amw0/backend.c without a device (`dry_run`), with no trace file and
-- no test that makes writes fail. It then behaves as a record of settings: `Settings` is this abstract
-- view, and `Represents` relates a context to it.
pub mod Steps
pub mod Refines
pub mod Session
use kuangshi16pro_series_gm.Prelude.{ℕ, ◌≡◌, Bool, true, false, List, [], ◌∷◌, if◌then◌else◌}
use kuangshi16pro_series_gm.State.{Mode, PowerLimits, StateTarget, Snapshot, zero_limits}
use kuangshi16pro_series_gm.Status.{Status}
use kuangshi16pro_series_gm.Backend.{BackendResult}
use kuangshi16pro_series_gm.Request.{any_present, merge_limits}
use kuangshi16pro_series_gm.Amw0.Host.{Host}
use kuangshi16pro_series_gm.Amw0.Control.{profile_name_for_mode}
use kuangshi16pro_series_gm.Amw0.Device.{Amw0, fallback_mode_control}
use kuangshi16pro_series_gm.Amw0.Apply.{
  Wrote, amw0_apply_mode, amw0_apply_power_limits, amw0_apply_fan_boost,
}
use kuangshi16pro_series_gm.Amw0.Encoding.{Encodes}

-- What a client can set and read back. The two flags tell whether it was ever set.
pub record Settings : Type 0 where
  pub mode : Mode
  pub boost : Bool
  pub knows_boost : Bool
  pub limits : PowerLimits
  pub knows_limits : Bool

-- What the start of the backend gives.
abbrev pub defaults : Settings
defaults = record {
  mode = Mode.office;
  boost = false;
  knows_boost = false;
  limits = zero_limits;
  knows_limits = false;
}

pub data Command : Type 0 where
  set_mode : Mode → Command
  set_boost : Bool → Command
  set_limits : PowerLimits → Command

-- What a command does to the settings. A write of the mode also makes the fan boost known.
unfoldable pub change : Command → Settings → Settings
change (set_mode m) t = record t { mode = m; knows_boost = true }
change (set_boost b) t = record t { boost = b; knows_boost = true }
change (set_limits l) t =
    if any_present l then record t { limits = merge_limits t.limits l; knows_limits = true } else t

unfoldable pub change_all : List Command → Settings → Settings
change_all [] t = t
change_all (c ∷ cs) t = change_all cs (change c t)

pub record TargetShows (s : StateTarget) (t : Settings) : Type 0 where
  pub profile : s.profile ≡ profile_name_for_mode t.mode
  pub has_fan_boost : s.has_fan_boost ≡ t.knows_boost
  pub fan_boost_enabled : s.fan_boost_enabled ≡ t.boost
  pub has_power_limits : s.has_power_limits ≡ t.knows_limits
  pub power_limits : s.power_limits ≡ t.limits

-- A snapshot that shows the settings as requested and as in effect.
pub record Shows (s : Snapshot) (t : Settings) : Type 0 where
  pub requested : TargetShows s.requested t
  pub effective : TargetShows s.effective t

module _ {W : Type 0} where
  pub record IsDry (a : Amw0 W) : Type 0 where
    pub dry_run : a.transport.dry_run ≡ true
    pub untraced : a.transport.trace_enabled ≡ false
    pub reliable : a.fail_after_writes ≡ 0

  -- The control byte that a write of the mode starts from.
  abbrev pub shadow_control : Amw0 W → ℕ
  shadow_control a =
      if a.has_shadow_mode_control
      then a.shadow_mode_control
      else fallback_mode_control a.shadow_state

  -- A context that stands for settings, over a world that is still the given one.
  pub record Represents (w : W) (a : Amw0 W) (t : Settings) : Type 0 where
    pub untouched : a.transport.world ≡ w
    pub dry : IsDry a
    pub control : Encodes (shadow_control a) t.mode t.boost
    pub shadow : Shows a.shadow_state t

module _ {W : Type 0} (host : Host W) where
  -- A command as the call of an operation.
  unfoldable pub run_command : Command → BackendResult → Amw0 W → Wrote W
  run_command (set_mode m) r a = amw0_apply_mode host m r a
  run_command (set_boost b) r a = amw0_apply_fan_boost host b r a
  run_command (set_limits l) r a = amw0_apply_power_limits host l r a

  -- One command after the other, whatever they answer.
  unfoldable pub run_commands : List Command → BackendResult → Amw0 W → Amw0 W
  run_commands [] r a = a
  run_commands (c ∷ cs) r a = let (_, r', a') = run_command c r a in run_commands cs r' a'
