-- ===== src/Tests/Render.antt =====
-- The theorem on the document of the snapshot at concrete values.
use kuangshi16pro_series_gm.Prelude.{arith, ◌≡◌, []}
use kuangshi16pro_series_gm.State.{zero_snapshot, zero_target, zero_attribution}
use kuangshi16pro_series_gm.Amw0.Packet.{print_to}
use kuangshi16pro_series_gm.Render.Document.{document_text, render_json}
use kuangshi16pro_series_gm.Render.Whole.{TargetFits, AttributionFits}
use kuangshi16pro_series_gm.Render.Rendered.{SnapshotFits, whole_parts, render_json-whole}
use kuangshi16pro_series_gm.Tests.{all_capable}

no_target : TargetFits zero_target
no_target = record { profile = omega arith; fan_table = omega arith }

no_attribution : AttributionFits zero_attribution
no_attribution = record { source = omega arith; freshness = omega arith }

nothing_known : SnapshotFits zero_snapshot
nothing_known = record {
  backend_selected = omega arith;
  fallback_reason = omega arith;
  execution = record {
    read_state = omega arith;
    apply_profile = omega arith;
    apply_mode = omega arith;
    apply_power_limits = omega arith;
    apply_fan_table = omega arith;
    apply_fan_boost = omega arith;
  };
  requested = no_target;
  effective = no_target;
  effective_meta = record {
    source = omega arith;
    freshness = omega arith;
    profile = no_attribution;
    fan_table = no_attribution;
    fan_boost = no_attribution;
    power = no_attribution;
    pl1 = no_attribution;
    pl2 = no_attribution;
    pl4 = no_attribution;
    tcc_offset = no_attribution;
    thermal = no_attribution;
  };
  last_stage = omega arith;
  last_backend = omega arith;
  last_target = no_target;
  operation = omega arith;
  stage = omega arith;
  pending = no_target;
}

render_json-whole_example :
    render_json zero_snapshot all_capable 4096 []
    ≡ print_to 4096 (document_text zero_snapshot all_capable (whole_parts zero_snapshot))
render_json-whole_example = render_json-whole zero_snapshot all_capable 4096 [] nothing_known
