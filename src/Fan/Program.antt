-- ===== src/Fan/Program.antt =====
-- What the plan of src/core/fan/table-apply.c writes to the embedded controller.
use kuangshi16pro_series_gm.Prelude.{
  ℕ, zero, suc, ◌+◌, ◌≤◌, ◌≡◌, refl, ◌%◌, List, [], ◌∷◌, ◌++◌, arith, length, length-append, ap,
}
use mathlib.Core.List.{append-nil}
use kuangshi16pro_series_gm.Text.{Text, literal}
use kuangshi16pro_series_gm.Status.{Status}
use kuangshi16pro_series_gm.Plan.{Action, Plan, stage_action, write_action, append_write}
use kuangshi16pro_series_gm.Plan.Appends.{
  Appends, append_stage-Appends, append_write-Appends, >>-Appends,
}
use kuangshi16pro_series_gm.Fan.{
  FanPoint, FanTable, IsTable, validate_fan_table, fan_tail_status1, fan_tail_status2,
  fan_tail_control, append_points, tail_writes, fan_writes, build_fan_plan,
}

-- The writes of one field of the first so many points, at consecutive addresses.
unfoldable pub field_writes : ℕ → ℕ → Text → (FanPoint → ℕ) → List FanPoint → List Action
field_writes zero addr label field ps = []
field_writes (suc n) addr label field [] = []
field_writes (suc n) addr label field (p ∷ ps) =
    write_action addr (field p) label ∷ field_writes n (addr + 1) label field ps

length-field_writes :
    (n addr : ℕ) (label : Text) (field : FanPoint → ℕ) (ps : List FanPoint)
    → n ≤ length ps
    → length (field_writes n addr label field ps) ≡ n
unfolding field_writes
length-field_writes zero addr label field ps h = refl
length-field_writes (suc n) addr label field [] h = absurd (omega arith)
length-field_writes (suc n) addr label field (p ∷ ps) h =
    ap suc (length-field_writes n (addr + 1) label field ps (omega arith))

append_points-Appends :
    (n base : ℕ) (label : Text) (field : FanPoint → ℕ) (index : ℕ) (ps : List FanPoint)
    → n ≤ length ps
    → base + index + n ≤ 65536
    → Appends
        (field_writes n (base + index) label field ps)
        (append_points n base label field index ps)
unfolding append_points field_writes
append_points-Appends zero base label field index ps h w plan r = rw append-nil
append_points-Appends (suc n) base label field index [] h w plan r = absurd (omega arith)
append_points-Appends (suc n) base label field index (p ∷ ps) h w plan r =
    let in_range : (base + index) % 65536 ≡ base + index = omega arith in
    let next : base + index + 1 ≡ base + (index + 1) = omega arith in
    rw (in_range, next)
      (>>-Appends (write_action (base + index) (field p) label ∷ [])
        (field_writes n (base + (index + 1)) label field ps)
        (append_write (base + index) (field p) label)
        (append_points n base label field (index + 1) ps)
        (append_write-Appends (base + index) (field p) label)
        (append_points-Appends n base label field (index + 1) ps (omega arith) (omega arith)) plan
        (rw (← next) r))

abbrev tail_program : FanTable → List Action
tail_program t =
    stage_action (literal "FanTable_Manager1p5::FinalizeTailBytes")
    ∷ write_action 0x0F5D (fan_tail_status1 t) (literal "fan table status1")
    ∷ write_action 0x0F5E (fan_tail_status2 t) (literal "fan table status2")
    ∷ write_action 0x0F5F (fan_tail_control t) (literal "fan table control")
    ∷ []

-- The actions of the plan, in order: the stages, the three fields of both curves, the three tail bytes.
unfoldable pub fan_program : FanTable → List Action
fan_program t =
    (stage_action (literal "SetFanTableThread -> MyFanTableCtrl::SetFanTable (confirmed call edge)")
      ∷ [])
    ++ ((stage_action (literal "FanTable_Manager1p5::SetEcFanTable_Cpu") ∷ [])
        ++ (field_writes 16 0x0F00 (literal "cpu up temp") (λ p. p.up_temp) t.cpu
            ++ (field_writes 16 0x0F10 (literal "cpu down temp") (λ p. p.down_temp) t.cpu
                ++ (field_writes 16 0x0F20 (literal "cpu duty") (λ p. p.duty) t.cpu
                    ++ ((stage_action (literal "FanTable_Manager1p5::SetEcFanTable_Gpu") ∷ [])
                        ++ (field_writes 16 0x0F30 (literal "gpu up temp") (λ p. p.up_temp) t.gpu
                            ++ (field_writes 16 0x0F40 (literal "gpu down temp") (λ p. p.down_temp)
                                  t.gpu
                                ++ (field_writes 13 0x0F50 (literal "gpu duty") (λ p. p.duty) t.gpu
                                    ++ tail_program t))))))))

-- One loop over a curve of 16 points, from a base address.
loop_Appends :
    (n base : ℕ) (label : Text) (field : FanPoint → ℕ) (ps : List FanPoint)
    → n ≤ length ps
    → base + n ≤ 65536
    → Appends (field_writes n base label field ps) (append_points n base label field 0 ps)
loop_Appends n base label field ps h w =
    let start : base + 0 ≡ base = omega arith in
    rw start at (append_points-Appends n base label field 0 ps h (omega arith))

module _ (t : FanTable) (w : IsTable t) where
  cpu_loop :
      (base : ℕ) (label : Text) (field : FanPoint → ℕ)
      → base + 16 ≤ 65536
      → Appends (field_writes 16 base label field t.cpu) (append_points 16 base label field 0 t.cpu)
  cpu_loop base label field h =
      loop_Appends 16 base label field t.cpu (omega (arith, w.cpu_points)) h

  gpu_loop :
      (n base : ℕ) (label : Text) (field : FanPoint → ℕ)
      → n ≤ 16
      → base + n ≤ 65536
      → Appends (field_writes n base label field t.gpu) (append_points n base label field 0 t.gpu)
  gpu_loop n base label field k h =
      loop_Appends n base label field t.gpu (omega (arith, w.gpu_points)) h

  tail_Appends : Appends (tail_program t) (tail_writes t)
  unfolding tail_writes
  tail_Appends = >>-Appends _ _ _ _ (append_stage-Appends _) (
      >>-Appends _ _ _ _ (append_write-Appends 0x0F5D (fan_tail_status1 t) _) (
        >>-Appends _ _ _ _ (append_write-Appends 0x0F5E (fan_tail_status2 t) _)
          (append_write-Appends 0x0F5F (fan_tail_control t) _)))

  fan_writes-Appends : Appends (fan_program t) (fan_writes t)
  unfolding fan_program fan_writes
  fan_writes-Appends = >>-Appends _ _ _ _ (append_stage-Appends _) (
      >>-Appends _ _ _ _ (append_stage-Appends _) (
        >>-Appends _ _ _ _ (cpu_loop 0x0F00 _ _ (omega arith)) (
          >>-Appends _ _ _ _ (cpu_loop 0x0F10 _ _ (omega arith)) (
            >>-Appends _ _ _ _ (cpu_loop 0x0F20 _ _ (omega arith)) (
              >>-Appends _ _ _ _ (append_stage-Appends _) (
                >>-Appends _ _ _ _ (gpu_loop 16 0x0F30 _ _ (omega arith) (omega arith)) (
                  >>-Appends _ _ _ _ (gpu_loop 16 0x0F40 _ _ (omega arith) (omega arith)) (
                    >>-Appends _ _ _ _ (gpu_loop 13 0x0F50 _ _ (omega arith) (omega arith))
                      tail_Appends))))))))

  pub length-fan_program : length (fan_program t) ≡ 100
  unfolding fan_program
  length-fan_program =
      omega (arith, length-append {0}, length-field_writes, w.cpu_points, w.gpu_points)

  -- For a table with 16 points in each curve that is valid, `lcc_build_fan_plan` succeeds, whatever the
  -- plan held, and the plan is the stages, the three fields of the CPU curve, the three of the GPU
  -- curve and the three tail bytes: 100 actions, which the array of 128 holds.
  pub build_fan_plan-eq-program :
      (plan : Plan)
      → validate_fan_table t ≡ Status.ok
      → (build_fan_plan t plan ≡ (Status.ok, fan_program t)) × (length (fan_program t) ≡ 100)
  unfolding build_fan_plan
  build_fan_plan-eq-program plan h =
      (rw h (fan_writes-Appends [] (omega (arith, length-fan_program))), length-fan_program)
