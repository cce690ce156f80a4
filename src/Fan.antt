-- ===== src/Fan.antt =====
-- include/lcc/fan.h, src/core/fan/table.c and the plan of src/core/fan/table-apply.c: the fan table, its
-- validation, and the writes to the embedded controller that program it. The arrays `cpu` and `gpu` of
-- LCC_FAN_POINTS points are lists; `IsTable` says that they have this length.
pub mod Valid
pub mod Demo
pub mod Program
pub mod Window
use kuangshi16pro_series_gm.Prelude.{
  ℕ, zero, suc, ◌+◌, ◌-◌, ◌*◌, ◌%◌, ◌≡◌, Bool, true, false, not, ◌&&◌, ◌||◌, Option, none, some,
  List, [], ◌∷◌, ltb, leb, if◌then◌else◌, length,
}
use kuangshi16pro_series_gm.Text.{Text, literal, is_empty, fit}
use kuangshi16pro_series_gm.Status.{Status, is_ok}
use kuangshi16pro_series_gm.Plan.{Plan, Build, ◌>>◌, append_stage, append_write}

-- LCC_FAN_POINTS
abbrev pub fan_points : ℕ
fan_points = 16

-- lcc_fan_point_t
pub record FanPoint : Type 0 where
  pub up_temp : ℕ  -- uint8_t
  pub down_temp : ℕ  -- uint8_t
  pub duty : ℕ  -- uint8_t

-- lcc_fan_table_t
pub record FanTable : Type 0 where
  pub name : Text  -- char[32]
  pub activated : Bool
  pub fan_control_respective : Bool
  pub cpu : List FanPoint
  pub gpu : List FanPoint

pub record IsTable (t : FanTable) : Type 0 where
  pub cpu_points : length t.cpu ≡ fan_points
  pub gpu_points : length t.gpu ≡ fan_points

unfoldable pub point_is_monotonic : FanPoint → FanPoint → Bool
point_is_monotonic p c = leb p.up_temp c.up_temp && leb p.down_temp c.down_temp && leb p.duty c.duty

abbrev bad_point : FanPoint → FanPoint → Bool
bad_point c g =
    (ltb c.up_temp c.down_temp || ltb g.up_temp g.down_temp) || (ltb 100 c.duty || ltb 100 g.duty)

-- The test of a point of each curve against the point before it, if there is one.
abbrev falls : Option (FanPoint × FanPoint) → FanPoint → FanPoint → Bool
falls none c g = false
falls (some (pc, pg)) c g = not (point_is_monotonic pc c) || not (point_is_monotonic pg g)

-- The loop of `lcc_validate_fan_table`, from some index on, with the points before it.
unfoldable pub validate_from : Option (FanPoint × FanPoint) → List FanPoint → List FanPoint → Status
validate_from previous [] gs = Status.ok
validate_from previous (c ∷ cs) [] = Status.ok
validate_from previous (c ∷ cs) (g ∷ gs) =
    let rest = validate_from (some (c, g)) cs gs in
    if bad_point c g || falls previous c g then Status.range else rest

-- `lcc_validate_fan_table`
unfoldable pub validate_fan_table : FanTable → Status
unfolding validate_from
validate_fan_table t =
    if is_empty t.name then Status.invalid_argument else validate_from none t.cpu t.gpu

abbrev capped : ℕ → ℕ
capped d = if ltb 100 d then 100 else d

-- The point of `lcc_fan_table_build_demo` at an index, on a curve that starts at a temperature and a
-- duty. The arithmetic is that of uint8_t.
unfoldable pub demo_point : ℕ → ℕ → ℕ → FanPoint
demo_point up duty index =
    let u = (up + (index * 3) % 256) % 256 in
    record {
      up_temp = u;
      down_temp = (u + 256 - 3) % 256;
      duty = capped ((duty + (index * 5) % 256) % 256);
    }

-- The loop over the points, with so many left.
unfoldable pub demo_points : ℕ → ℕ → ℕ → ℕ → List FanPoint
unfolding demo_point
demo_points up duty index zero = []
demo_points up duty index (suc n) = demo_point up duty index ∷ demo_points up duty (index + 1) n

-- `lcc_fan_table_build_demo`; the table is left alone if there is no name.
unfoldable pub fan_table_build_demo : FanTable → Text → Status × FanTable
unfolding demo_points
fan_table_build_demo t name = if is_empty name then (Status.invalid_argument, t) else (
  Status.ok,
  record {
    name = fit 32 name;
    activated = true;
    fan_control_respective = true;
    cpu = demo_points 40 18 0 fan_points;
    gpu = demo_points 45 20 0 fan_points;
  },
)

abbrev bit : Bool → ℕ
bit b = if b then 1 else 0

-- `fan_tail_status1`, `fan_tail_status2`, `fan_tail_control`
unfoldable pub fan_tail_status1 : FanTable → ℕ
fan_tail_status1 t = bit t.activated

unfoldable pub fan_tail_status2 : FanTable → ℕ
fan_tail_status2 t = bit t.fan_control_respective

unfoldable pub fan_tail_control : FanTable → ℕ
fan_tail_control t = if t.activated then if t.fan_control_respective then 3 else 1 else 0

-- One of the loops of `lcc_build_fan_plan`: so many rounds, from a base address plus the index.
unfoldable pub append_points : ℕ → ℕ → Text → (FanPoint → ℕ) → ℕ → List FanPoint → Build
append_points zero base label field index ps plan = (Status.ok, plan)
append_points (suc n) base label field index [] plan = (Status.ok, plan)
append_points (suc n) base label field index (p ∷ ps) plan =
    (append_write ((base + index) % 65536) (field p) label
        >> append_points n base label field (index + 1) ps)
      plan

-- The end of `lcc_build_fan_plan`: the three tail bytes.
unfoldable pub tail_writes : FanTable → Build
tail_writes t =
    append_stage (literal "FanTable_Manager1p5::FinalizeTailBytes")
    >> (append_write 0x0F5D (fan_tail_status1 t) (literal "fan table status1")
        >> (append_write 0x0F5E (fan_tail_status2 t) (literal "fan table status2")
            >> append_write 0x0F5F (fan_tail_control t) (literal "fan table control")))

-- The part of `lcc_build_fan_plan` after the reset.
unfoldable pub fan_writes : FanTable → Build
fan_writes t =
    append_stage (literal "SetFanTableThread -> MyFanTableCtrl::SetFanTable (confirmed call edge)")
    >> (append_stage (literal "FanTable_Manager1p5::SetEcFanTable_Cpu")
        >> (append_points fan_points 0x0F00 (literal "cpu up temp") (λ p. p.up_temp) 0 t.cpu
            >> (append_points fan_points 0x0F10 (literal "cpu down temp") (λ p. p.down_temp) 0 t.cpu
                >> (append_points fan_points 0x0F20 (literal "cpu duty") (λ p. p.duty) 0 t.cpu
                    >> (append_stage (literal "FanTable_Manager1p5::SetEcFanTable_Gpu")
                        >> (append_points fan_points 0x0F30 (literal "gpu up temp") (λ p. p.up_temp)
                              0 t.gpu
                            >> (append_points fan_points 0x0F40 (literal "gpu down temp")
                                  (λ p. p.down_temp) 0 t.gpu
                                >> (append_points (fan_points - 3) 0x0F50 (literal "gpu duty")
                                      (λ p. p.duty) 0 t.gpu
                                    >> tail_writes t))))))))

-- `lcc_build_fan_plan`; a table that is not valid leaves the plan.
unfoldable pub build_fan_plan : FanTable → Build
build_fan_plan t plan =
    if is_ok (validate_fan_table t) then fan_writes t [] else (validate_fan_table t, plan)
