-- ===== src/Amw0/DryRun/Steps.antt =====
-- One operation of the amw0 backend without a device (src/backends/amw0/backend.c).
use kuangshi16pro_series_gm.Prelude.{
  ℕ, ◌+◌, ◌%◌, ◌≡◌, refl, Bool, true, false, [], Bool-cases, inl, inr, ◌∙◌, ap,
}
use kuangshi16pro_series_gm.Text.{Text, literal, fit}
use kuangshi16pro_series_gm.Status.{Status}
use kuangshi16pro_series_gm.State.{Mode, PowerLimits, Snapshot}
use kuangshi16pro_series_gm.Attribution.{copy_text}
use kuangshi16pro_series_gm.Amw0.Host.{Host}
use kuangshi16pro_series_gm.Amw0.Packet.{Packet, packet_text}
use kuangshi16pro_series_gm.Amw0.Transport.{
  Transport, trace_io, eval, send_packet, send_wkbc, send_ec_write,
}
use kuangshi16pro_series_gm.Amw0.Control.{profile_name_for_mode}
use kuangshi16pro_series_gm.Amw0.Device.{
  Amw0, copy_field, name_profile, set_mode_profile_state, set_fan_boost_state,
}
use kuangshi16pro_series_gm.Amw0.Access.{
  size_mod, read_live_byte, current_mode_control, write_ec_byte,
}
use kuangshi16pro_series_gm.Amw0.Apply.{shadow_mode, shadow_limits}
use kuangshi16pro_series_gm.Amw0.Printed.{packet_format_expr-fits}
use kuangshi16pro_series_gm.Amw0.DryRun.{Settings, Shows, IsDry, shadow_control}

module _ {W : Type 0} (host : Host W) where
  eval-dry :
      (t : Transport W) (expr reply : Text)
      → t.dry_run ≡ true
      → t.trace_enabled ≡ false
      → eval host t expr reply ≡ (Status.ok, literal "dry-run", t)
  unfolding eval trace_io
  eval-dry t expr reply d q = rw (d, q) refl

  pub send_packet-dry :
      (t : Transport W) (p : Packet) (reply : Text)
      → t.dry_run ≡ true
      → t.trace_enabled ≡ false
      → send_packet host t p reply ≡ (Status.ok, literal "dry-run", t)
  unfolding send_packet
  send_packet-dry t p reply d q =
      rw (send_packet, packet_format_expr-fits p) (eval-dry t (packet_text p) reply d q)

  -- A write changes nothing but the count.
  pub write_ec_byte-dry :
      (a : Amw0 W) (offset value : ℕ)
      → IsDry a
      → write_ec_byte host a offset value
        ≡ (Status.ok, record a { write_count = (a.write_count + 1) % size_mod })
  unfolding write_ec_byte send_ec_write send_wkbc
  write_ec_byte-dry a offset value h =
      rw (h.reliable, send_packet-dry a.transport _ [] h.dry_run h.untraced) refl

  pub current_mode_control-dry :
      (a : Amw0 W) (control : ℕ)
      → IsDry a
      → current_mode_control host a control ≡ (Status.ok, shadow_control a, a)
  unfolding current_mode_control read_live_byte
  current_mode_control-dry a control h = elim (Bool-cases a.has_shadow_mode_control) [
    | inl e ↦ rw (h.dry_run, e) refl
    | inr e ↦ rw (h.dry_run, e) refl
  ]

copy_field-profile :
    (m : Mode) (t : Text) → (copy_field 64 t (profile_name_for_mode m)).1 ≡ profile_name_for_mode m
unfolding copy_field copy_text profile_name_for_mode literal fit
copy_field-profile Mode.gaming t = refl
copy_field-profile Mode.office t = refl
copy_field-profile Mode.turbo t = refl
copy_field-profile Mode.custom t = refl

pub shadow_mode-Shows :
    (s : Snapshot) (t : Settings) {m m' : Mode} {b b' : Bool}
    → m ≡ m'
    → b ≡ b'
    → Shows s t
    → Shows (shadow_mode s m b) (record t { mode = m'; boost = b'; knows_boost = true })
unfolding shadow_mode set_fan_boost_state set_mode_profile_state name_profile
shadow_mode-Shows s t {m} em eb h = record {
  requested = record {
    profile = copy_field-profile m s.requested.profile ∙ ap profile_name_for_mode em;
    has_fan_boost = refl;
    fan_boost_enabled = eb;
    has_power_limits = h.requested.has_power_limits;
    power_limits = h.requested.power_limits;
  };
  effective = record {
    profile = copy_field-profile m s.effective.profile ∙ ap profile_name_for_mode em;
    has_fan_boost = refl;
    fan_boost_enabled = eb;
    has_power_limits = h.effective.has_power_limits;
    power_limits = h.effective.power_limits;
  };
}

pub shadow_limits-Shows :
    (s : Snapshot) (t : Settings) (l : PowerLimits) {l' : PowerLimits}
    → l ≡ l'
    → Shows s t
    → Shows (shadow_limits s l) (record t { limits = l'; knows_limits = true })
unfolding shadow_limits
shadow_limits-Shows s t l el h = record {
  requested = record {
    profile = h.requested.profile;
    has_fan_boost = h.requested.has_fan_boost;
    fan_boost_enabled = h.requested.fan_boost_enabled;
    has_power_limits = refl;
    power_limits = el;
  };
  effective = record {
    profile = h.effective.profile;
    has_fan_boost = h.effective.has_fan_boost;
    fan_boost_enabled = h.effective.fan_boost_enabled;
    has_power_limits = refl;
    power_limits = el;
  };
}
