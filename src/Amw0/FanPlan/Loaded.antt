-- ===== src/Amw0/FanPlan/Loaded.antt =====
-- A fan table by its name: src/core/profile/loader.c loads it, src/core/fan/table-apply.c turns it into a
-- plan, and src/backends/amw0/backend.c runs the plan.
use kuangshi16pro_series_gm.Prelude.{◌≡◌, refl, false, ◌⊎◌, inl, inr}
use kuangshi16pro_series_gm.Text.{Text, is_empty}
use kuangshi16pro_series_gm.Status.{Status, is_ok}
use kuangshi16pro_series_gm.Backend.{BackendResult}
use kuangshi16pro_series_gm.Fan.{FanTable}
use kuangshi16pro_series_gm.Fan.Program.{fan_program}
use kuangshi16pro_series_gm.Loader.Values.{Files}
use kuangshi16pro_series_gm.Loader.Named.{fan_table_load_named}
use kuangshi16pro_series_gm.Loader.Valid.{fan_table_load_named-Loads}
use kuangshi16pro_series_gm.Amw0.Host.{Host}
use kuangshi16pro_series_gm.Amw0.Device.{Amw0}
use kuangshi16pro_series_gm.Amw0.FanPlan.{amw0_apply_fan_table}
use kuangshi16pro_series_gm.Amw0.FanPlan.Writes.{plan_writes, write_all}
use kuangshi16pro_series_gm.Amw0.FanPlan.Table.{programmed, amw0_apply_fan_table-writes}

module _ {W : Type 0} (host : Host W) (files : W → Files) (uninit : FanTable) where
  -- The loader as the backend calls it: it reads the files that the world has, and its local `table` is
  -- not initialised.
  abbrev pub load : Text → W → Status × FanTable × W
  load name w = let (s, t) = fan_table_load_named (files w) name uninit in (s, t, w)

  -- For every host and all files, a name that is not empty, and no trace file: where
  -- `lcc_fan_table_load_named` fails, `amw0_apply_fan_table` returns its status and leaves the context;
  -- where it succeeds, whatever the table, the pairs of address and value of its fan program are
  -- written in order, from a count of 0 on and up to the first write that fails, the status is that of
  -- these writes, and the shadow state takes the name of the table exactly if all of them succeed.
  pub amw0_apply_fan_table-loads :
      (name : Text) (r : BackendResult) (a : Amw0 W)
      → is_empty name ≡ false
      → a.transport.trace_enabled ≡ false
      → let (loaded, t) = fan_table_load_named (files a.transport.world) name uninit in
        let (s, _, a') = amw0_apply_fan_table host load name r a in
        let done = write_all host (plan_writes (fan_program t)) (record a { write_count = 0 }) in
        ((is_ok loaded ≡ false) × (s ≡ loaded) × (a' ≡ a))
        ⊎ ((loaded ≡ Status.ok) × (s ≡ done.0) × (a' ≡ programmed t done))
  unfolding amw0_apply_fan_table
  amw0_apply_fan_table-loads name r a n q =
      elim (fan_table_load_named-Loads (files a.transport.world) name uninit) [
        | inl e ↦ inl (e, rw (n, e) refl, rw (n, e) refl)
        | inr (e, w, v) ↦
            let (st, c) = amw0_apply_fan_table-writes host load name r a n q e w v in inr (e, st, c)
      ]
