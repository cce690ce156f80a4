-- ===== src/Amw0/FanPlan/Limited.antt =====
-- The writes that `lcc_amw0_backend_fail_after_writes` makes fail (src/backends/amw0/backend.c).
use kuangshi16pro_series_gm.Prelude.{
  ℕ, ◌+◌, ◌%◌, ◌<◌, ◌≡◌, refl, true, false, List, [], ◌∷◌, arith, ltb, lt→ltb, leb, length,
  if◌then◌else◌, Bool-cases, inl, inr, ◌∙◌, ap,
}
use kuangshi16pro_series_gm.Text.{literal}
use kuangshi16pro_series_gm.Status.{Status}
use kuangshi16pro_series_gm.Backend.{BackendResult}
use kuangshi16pro_series_gm.Plan.{Plan}
use kuangshi16pro_series_gm.Amw0.Host.{Host}
use kuangshi16pro_series_gm.Amw0.Transport.{send_ec_write, send_wkbc}
use kuangshi16pro_series_gm.Amw0.Device.{Amw0}
use kuangshi16pro_series_gm.Amw0.Access.{size_mod, write_ec_byte}
use kuangshi16pro_series_gm.Amw0.FanPlan.{apply_fan_plan}
use kuangshi16pro_series_gm.Amw0.FanPlan.Writes.{plan_writes, write_all, run_actions-writes}
use kuangshi16pro_series_gm.Amw0.DryRun.Steps.{send_packet-dry}

module _ {W : Type 0} (host : Host W) where
  -- One write on a context without a device.
  counted_write :
      (a : Amw0 W) (addr value : ℕ)
      → a.transport.dry_run ≡ true
      → a.transport.trace_enabled ≡ false
      → 0 < a.fail_after_writes
      → a.write_count + 1 < size_mod
      → write_ec_byte host a addr value ≡ (
        if ltb (a.write_count + 1) a.fail_after_writes then Status.ok else Status.io,
        record a { write_count = a.write_count + 1 },
      )
  unfolding write_ec_byte send_ec_write send_wkbc
  counted_write a addr value d q p m =
      let e : (a.write_count + 1) % size_mod ≡ a.write_count + 1 = omega arith in
      rw (lt→ltb 0 a.fail_after_writes p, e, send_packet-dry host a.transport _ [] d q)
        (elim (Bool-cases (ltb (a.write_count + 1) a.fail_after_writes)) [
          | inl l ↦
              let k : leb a.fail_after_writes (a.write_count + 1) ≡ false = ground (arith, l) in
              rw (k, l) refl
          | inr l ↦
              let k : leb a.fail_after_writes (a.write_count + 1) ≡ true = ground (arith, l) in
              rw (k, l) refl
        ])

  write_all-limited :
      (ws : List (ℕ × ℕ)) (a : Amw0 W)
      → a.transport.dry_run ≡ true
      → a.transport.trace_enabled ≡ false
      → a.write_count < a.fail_after_writes
      → a.write_count + length ws < size_mod
      → let total = a.write_count + length ws in
        let whole = ltb total a.fail_after_writes in
        write_all host ws a ≡ (
          if whole then Status.ok else Status.io,
          record a { write_count = if whole then total else a.fail_after_writes },
        )
  unfolding write_all
  write_all-limited [] a d q p m =
      let e : a.write_count + 0 ≡ a.write_count = omega arith in
      rw (e, lt→ltb a.write_count a.fail_after_writes p) refl
  write_all-limited ((addr, value) ∷ ws) a d q p m =
      let a1 = record a { write_count = a.write_count + 1 } in
      let w = counted_write a addr value d q (omega (arith, p)) (omega (arith, m)) in
      let e : a.write_count + 1 + length ws ≡ a.write_count + length ((addr, value) ∷ ws) =
        omega arith in
      elim (Bool-cases (ltb (a.write_count + 1) a.fail_after_writes)) [
        | inl l ↦
            rw (w, l, ← e) (write_all-limited ws a1 d q (ground (arith, l)) (omega (arith, m)))
        | inr l ↦
            let k : ltb (a.write_count + length ((addr, value) ∷ ws)) a.fail_after_writes ≡ false =
              ground (arith, l) in
            let f : a.write_count + 1 ≡ a.fail_after_writes = ground (arith, l, p) in
            rw (w, l, k, f) refl
      ]

  -- Without a device and a trace file, and where the writes are made to fail from the n-th on, n > 0:
  -- the run of a plan ends with LCC_OK if the plan has fewer than n writes (custom mode counts as two),
  -- and else with LCC_ERR_IO at the n-th write. The count of writes is that of the plan or n, and
  -- nothing else of the context changes.
  pub apply_fan_plan-limited :
      (plan : Plan) (r : BackendResult) (a : Amw0 W)
      → a.transport.dry_run ≡ true
      → a.transport.trace_enabled ≡ false
      → 0 < a.fail_after_writes
      → length (plan_writes plan) < size_mod
      → let whole = ltb (length (plan_writes plan)) a.fail_after_writes in
        let (s, _, a') = apply_fan_plan host plan r a in
        (s ≡ (if whole then Status.ok else Status.io))
        × (a' ≡ record a {
          write_count = if whole then length (plan_writes plan) else a.fail_after_writes;
        })
  unfolding apply_fan_plan
  apply_fan_plan-limited plan r a d q p m =
      let start = record a { write_count = 0 } in
      let e = run_actions-writes host plan (literal "fan-apply") r start q in
      let z : 0 + length (plan_writes plan) ≡ length (plan_writes plan) = omega arith in
      let l = write_all-limited (plan_writes plan) start d q p (omega arith) in
      let both = rw z at (e ∙ l) in
      (ap (λ (x : Status × Amw0 W). x.0) both, ap (λ (x : Status × Amw0 W). x.1) both)
