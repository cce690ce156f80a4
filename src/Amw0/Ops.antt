-- ===== src/Amw0/Ops.antt =====
-- src/backends/amw0/backend.c: the probe, the table of operations, and the start of the backend.
use kuangshi16pro_series_gm.Prelude.{ℕ, Bool, true, false, some, [], if◌then◌else◌}
use kuangshi16pro_series_gm.Text.{Text, literal, is_empty}
use kuangshi16pro_series_gm.Status.{Status, is_ok}
use kuangshi16pro_series_gm.State.{zero_snapshot}
use kuangshi16pro_series_gm.Backend.{Capabilities, BackendResult, Ops, Backend, set_detail}
use kuangshi16pro_series_gm.Fan.{FanTable}
use kuangshi16pro_series_gm.Amw0.Host.{Host}
use kuangshi16pro_series_gm.Amw0.Packet.{print_to}
use kuangshi16pro_series_gm.Amw0.Transport.{route_wkbc1, transport_init}
use kuangshi16pro_series_gm.Amw0.Device.{Amw0, seed_shadow_state}
use kuangshi16pro_series_gm.Amw0.Access.{ensure_ecrr_path}
use kuangshi16pro_series_gm.Amw0.ReadState.{own_result, amw0_read_state}
use kuangshi16pro_series_gm.Amw0.Apply.{
  amw0_apply_mode, amw0_apply_profile, amw0_apply_power_limits, amw0_apply_fan_boost,
}
use kuangshi16pro_series_gm.Amw0.FanPlan.{amw0_apply_fan_table}

-- What `amw0_probe` reports, whether or not the helper path is found.
abbrev pub amw0_capabilities : Capabilities
amw0_capabilities = record {
  can_read_state = true;
  can_apply_profile = true;
  can_apply_mode = true;
  can_apply_power_limits = true;
  can_apply_fan_table = true;
  can_apply_fan_boost = true;
  has_platform_profile = false;
  has_powercap = false;
  needs_reboot_for_mux = false;
}

-- The record after `memset`, over a world.
abbrev pub zero_amw0 : {W : Type 0} → W → Amw0 W
zero_amw0 w = record {
  transport = record {
    call_node = [];
    trace_file = [];
    dry_run = false;
    trace_enabled = false;
    world = w;
  };
  ecrr_path = [];
  has_ecrr_path = false;
  route = 0;
  fail_after_writes = 0;
  write_count = 0;
  has_shadow_mode_control = false;
  shadow_mode_control = 0;
  shadow_state = zero_snapshot;
}

-- `lcc_amw0_backend_fail_after_writes`
unfoldable pub fail_after : {W : Type 0} → Amw0 W → ℕ → Amw0 W
fail_after a n = record a { fail_after_writes = n }

-- The path of the read helper that `lcc_amw0_backend_init` is given; NULL is the empty text.
unfoldable pub given_path : {W : Type 0} → Text → Amw0 W → Status × Amw0 W
given_path path a =
    let (s, copied) = print_to 64 path in
    if is_empty path
    then (Status.ok, a)
    else if is_ok s
    then (Status.ok, record a { ecrr_path = copied; has_ecrr_path = true })
    else (Status.buffer_too_small, record a { ecrr_path = copied })

-- `lcc_amw0_backend_init` up to the binding. A NULL call node is the empty text.
unfoldable pub amw0_init : {W : Type 0} → W → Text → Text → Bool → Status × Amw0 W
amw0_init w call_node path dry_run =
    let (s, t) = transport_init (zero_amw0 w).transport call_node dry_run in
    let opened = record (zero_amw0 w) { transport = t } in
    let (g, a) = given_path path opened in
    if is_ok s
    then if is_ok g
      then (Status.ok, seed_shadow_state (record a { route = route_wkbc1 }))
      else (g, a)
    else (s, opened)

module _ {W : Type 0} (host : Host W) (load : Text → W → Status × FanTable × W) where
  -- `amw0_probe`
  unfoldable pub amw0_probe :
      Capabilities → BackendResult → Amw0 W → Status × Capabilities × BackendResult × Amw0 W
  amw0_probe caps uninit a =
      let (s, a') = ensure_ecrr_path host a in
      if a.transport.dry_run
      then (Status.ok, amw0_capabilities, own_result, a)
      else if is_ok s
      then (Status.ok, amw0_capabilities, own_result, a')
      else (
        s,
        amw0_capabilities,
        set_detail own_result (literal "amw0 read helper path unavailable"),
        a',
      )

  -- lcc_amw0_backend_ops
  unfoldable pub amw0_ops : Ops (Amw0 W)
  amw0_ops = record {
    name = some (literal "amw0");
    probe = some amw0_probe;
    read_state = some (amw0_read_state host);
    apply_profile = some (amw0_apply_profile host);
    apply_mode = some (amw0_apply_mode host);
    apply_power_limits = some (amw0_apply_power_limits host);
    apply_fan_table = some (amw0_apply_fan_table host load);
    apply_fan_boost = some (amw0_apply_fan_boost host);
  }

  -- The binding of `lcc_amw0_backend_init`.
  unfoldable pub bind_amw0 : Amw0 W → Backend (Amw0 W)
  bind_amw0 a = record { ops = some amw0_ops; ctx = a }
