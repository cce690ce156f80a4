-- ===== src/Reader/Preserves.antt =====
-- What a refresh keeps (src/core/state/reader.c).
use kuangshi16pro_series_gm.Prelude.{◌≡◌, ◌≢◌, arith}
use kuangshi16pro_series_gm.Status.{Status}
use kuangshi16pro_series_gm.State.{Snapshot}
use kuangshi16pro_series_gm.Attribution.Cached.{mark_effective_cached_lem}
use kuangshi16pro_series_gm.Backend.{BackendResult, Backend}
use kuangshi16pro_series_gm.Reader.{carry_over, reader_refresh}

module _ {C : Type 0} (uninit : BackendResult) (b : Backend C) (s : Snapshot) where
  -- On every branch, a refresh keeps the transaction and the last apply.
  pub reader_refresh_keeps :
      let s' = (reader_refresh uninit b s).1 in
      (s'.transaction ≡ s.transaction) × (s'.last_apply ≡ s.last_apply)
  unfolding reader_refresh carry_over
  reader_refresh_keeps = ground (arith, mark_effective_cached_lem s)

  -- A refresh that fails changes nothing of the snapshot but the attribution.
  pub reader_refresh_failed :
      (reader_refresh uninit b s).0 ≢ Status.ok
      → let s' = (reader_refresh uninit b s).1 in
        s' ≡ record s { effective_meta = s'.effective_meta }
  unfolding reader_refresh carry_over
  reader_refresh_failed h = ground (arith, mark_effective_cached_lem s)
