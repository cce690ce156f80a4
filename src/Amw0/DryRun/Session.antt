-- ===== src/Amw0/DryRun/Session.antt =====
-- A session with the amw0 backend without a device (src/backends/amw0/backend.c): it is started, it
-- takes commands, and its state is read.
use kuangshi16pro_series_gm.Prelude.{
  ◌≡◌, refl, true, false, List, [], ◌∷◌, arith, Bool-cases, inl, inr,
}
use kuangshi16pro_series_gm.Text.{Text, literal, fit, is_same}
use kuangshi16pro_series_gm.Status.{Status, is_ok, is_ok→eq}
use kuangshi16pro_series_gm.State.{Mode, Snapshot}
use kuangshi16pro_series_gm.Attribution.{copy_text}
use kuangshi16pro_series_gm.Metadata.{state_set_metadata}
use kuangshi16pro_series_gm.Backend.{BackendResult, set_executor}
use kuangshi16pro_series_gm.Amw0.Host.{Host}
use kuangshi16pro_series_gm.Amw0.Packet.{print_to}
use kuangshi16pro_series_gm.Amw0.Transport.{Transport, transport_init}
use kuangshi16pro_series_gm.Amw0.Control.{
  profile_name_for_mode, profile_name_to_mode, mode_control_for_mode,
}
use kuangshi16pro_series_gm.Amw0.Encoding.{mode_control_for_mode-Encodes}
use kuangshi16pro_series_gm.Amw0.Device.{
  Amw0, fallback_mode_control, shadow_mode_for_state, copy_field, name_profile, name_fan_table,
  seeded_shadow, seed_shadow_state,
}
use kuangshi16pro_series_gm.Amw0.ReadState.{shadow_snapshot, attribute_dry, amw0_read_state}
use kuangshi16pro_series_gm.Amw0.Ops.{zero_amw0, given_path, amw0_init}
use kuangshi16pro_series_gm.Amw0.DryRun.{
  Command, set_mode, set_boost, set_limits, Settings, defaults, change, change_all, TargetShows,
  Shows, IsDry, Represents, run_command, run_commands,
}
use kuangshi16pro_series_gm.Amw0.DryRun.Refines.{
  apply_mode-Represents, apply_boost-Represents, apply_limits-Represents,
}

transport_init-dry :
    {W : Type 0} (t : Transport W) (node : Text)
    → (transport_init t node true).0 ≡ Status.ok
    → ((transport_init t node true).1.dry_run ≡ true)
      × ((transport_init t node true).1.trace_enabled ≡ false)
      × ((transport_init t node true).1.world ≡ t.world)
unfolding transport_init print_to
transport_init-dry t node h = ground (arith, h)

seeded_shadow-Shows : Shows seeded_shadow defaults
unfolding seeded_shadow name_profile name_fan_table copy_field copy_text literal
    profile_name_for_mode fit
seeded_shadow-Shows = record { requested = seeded; effective = seeded }
  where
    seeded : TargetShows seeded_shadow.requested defaults
    seeded = record {
      profile = refl;
      has_fan_boost = refl;
      fan_boost_enabled = refl;
      has_power_limits = refl;
      power_limits = refl;
    }

-- The seeded profile is the office mode, without the fan boost.
seeded_control : fallback_mode_control seeded_shadow ≡ mode_control_for_mode Mode.office
unfolding fallback_mode_control shadow_mode_for_state profile_name_to_mode seeded_shadow
    name_profile name_fan_table copy_field copy_text literal fit is_same
seeded_control = refl

shadow_snapshot-keeps :
    (s : Snapshot)
    → ((shadow_snapshot s).requested ≡ s.requested) × ((shadow_snapshot s).effective ≡ s.effective)
unfolding shadow_snapshot state_set_metadata
shadow_snapshot-keeps s = ground arith

module _ {W : Type 0} (host : Host W) where
  run_command-Represents :
      (w : W) (a : Amw0 W) (t : Settings) (c : Command) (r : BackendResult)
      → Represents w a t
      → Represents w (run_command host c r a).2 (change c t)
  run_command-Represents w a t (set_mode m) r h = apply_mode-Represents host w a t h m r
  run_command-Represents w a t (set_boost b) r h = apply_boost-Represents host w a t h b r
  run_command-Represents w a t (set_limits l) r h = apply_limits-Represents host w a t h l r

  run_commands-Represents :
      (w : W) (cs : List Command) (a : Amw0 W) (t : Settings) (r : BackendResult)
      → Represents w a t
      → Represents w (run_commands host cs r a) (change_all cs t)
  unfolding run_commands change_all
  run_commands-Represents w [] a t r h = h
  run_commands-Represents w (c ∷ cs) a t r h =
      run_commands-Represents w cs (run_command host c r a).2 (change c t)
        (run_command host c r a).1 (run_command-Represents w a t c r h)

-- The helper path leaves all that an operation without a device looks at.
given_path-keeps :
    {W : Type 0} (path : Text) (a : Amw0 W)
    → ((given_path path a).1.transport ≡ a.transport)
      × ((given_path path a).1.fail_after_writes ≡ a.fail_after_writes)
unfolding given_path
given_path-keeps path a = ground arith

seeded-Represents :
    {W : Type 0} (w : W) (a : Amw0 W)
    → IsDry a
    → a.transport.world ≡ w
    → Represents w (seed_shadow_state a) defaults
unfolding seed_shadow_state
seeded-Represents w a h e = record {
  untouched = e;
  dry = record { dry_run = h.dry_run; untraced = h.untraced; reliable = h.reliable };
  control = rw (seeded_control) (mode_control_for_mode-Encodes Mode.office);
  shadow = seeded_shadow-Shows;
}

amw0_init-Represents :
    {W : Type 0} (w : W) (node path : Text)
    → (amw0_init w node path true).0 ≡ Status.ok
    → Represents w (amw0_init w node path true).1 defaults
unfolding amw0_init
amw0_init-Represents w node path h =
    let t = transport_init (zero_amw0 w).transport node true in
    let g = given_path path (record (zero_amw0 w) { transport = t.1 }) in
    let (kt, kf) = given_path-keeps path (record (zero_amw0 w) { transport = t.1 }) in
    elim (Bool-cases (is_ok t.0)) [
      | inl e ↦
          let (d, q, u) = transport_init-dry (zero_amw0 w).transport node (is_ok→eq t.0 e) in
          elim (Bool-cases (is_ok g.0)) [
            | inl e' ↦
                rw (amw0_init, e, e')
                  (seeded-Represents w (record g.1 { route = 1 })
                    (record { dry_run = cc (kt, d); untraced = cc (kt, q); reliable = kf })
                    (cc (kt, u)))
            | inr e' ↦ absurd (ground (arith, h, e, e'))
          ]
      | inr e ↦ absurd (ground (arith, h, e))
    ]

-- For every host, every session of commands (modes, fan boosts and power limits) on a backend that
-- `lcc_amw0_backend_init` started with `dry_run`: the state that `amw0_read_state` then returns is
-- LCC_OK, shows the settings that the commands add up to, both as requested and as in effect, with no
-- hardware write reported; and no command and no read has touched a file.
pub dry_run-Refines :
    {W : Type 0} (host : Host W) (w : W) (node path : Text) (cs : List Command) (r : BackendResult)
    (old : Snapshot)
    → (amw0_init w node path true).0 ≡ Status.ok
    → let a = run_commands host cs r (amw0_init w node path true).1 in
      let (s, state, result, a') = amw0_read_state host old r a in
      (s ≡ Status.ok)
      × Shows state (change_all cs defaults)
      × (result.hardware_write ≡ false)
      × (a'.transport.world ≡ w)
unfolding amw0_read_state attribute_dry set_executor
dry_run-Refines host w node path cs r old h =
    let a = run_commands host cs r (amw0_init w node path true).1 in
    let R =
      run_commands-Represents host w cs (amw0_init w node path true).1 defaults r
        (amw0_init-Represents w node path h) in
    let (kr, ke) = shadow_snapshot-keeps a.shadow_state in
    rw (amw0_read_state, R.dry.dry_run)
      (
        refl,
        record { requested = rw (kr) R.shadow.requested; effective = rw (ke) R.shadow.effective },
        refl,
        R.untouched,
      )
