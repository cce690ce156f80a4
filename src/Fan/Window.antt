-- ===== src/Fan/Window.antt =====
-- Where the plan of src/core/fan/table-apply.c writes: the window 0x0F00..0x0F5F of the embedded
-- controller (src/backends/amw0/ec-addr-map.h).
use kuangshi16pro_series_gm.Prelude.{
  ℕ, zero, suc, ◌+◌, ◌≤◌, ◌≡◌, refl, List, [], ◌∷◌, ◌++◌, arith, length, ap,
}
use kuangshi16pro_series_gm.Text.{Text}
use kuangshi16pro_series_gm.Status.{Status}
use kuangshi16pro_series_gm.Plan.{ActionKind, Action, Plan}
use kuangshi16pro_series_gm.Fan.{FanPoint, FanTable, IsTable, validate_fan_table, build_fan_plan}
use kuangshi16pro_series_gm.Fan.Program.{field_writes, fan_program, build_fan_plan-eq-program}

-- The address that an action writes to, put before those of the actions after it.
abbrev add_address : ActionKind → ℕ → List ℕ → List ℕ
add_address ActionKind.ec_write addr rest = addr ∷ rest
add_address ActionKind.stage addr rest = rest
add_address ActionKind.custom_mode addr rest = rest

-- The addresses that a plan writes to, in order.
abbrev pub addresses : List Action → List ℕ
addresses [] = []
addresses (a ∷ as') = add_address a.kind a.addr (addresses as')

-- So many consecutive addresses.
abbrev pub ascending : ℕ → ℕ → List ℕ
ascending addr zero = []
ascending addr (suc n) = addr ∷ ascending (addr + 1) n

add_address-append :
    (k : ActionKind) (a : ℕ) (xs ys : List ℕ)
    → add_address k a (xs ++ ys) ≡ add_address k a xs ++ ys
add_address-append ActionKind.ec_write a xs ys = refl
add_address-append ActionKind.stage a xs ys = refl
add_address-append ActionKind.custom_mode a xs ys = refl

addresses-append : (xs ys : List Action) → addresses (xs ++ ys) ≡ addresses xs ++ addresses ys
addresses-append [] ys = refl
addresses-append (a ∷ xs) ys =
    rw (addresses-append xs ys) (add_address-append a.kind a.addr (addresses xs) (addresses ys))

addresses-field_writes :
    (n addr : ℕ) (label : Text) (field : FanPoint → ℕ) (ps : List FanPoint)
    → n ≤ length ps
    → addresses (field_writes n addr label field ps) ≡ ascending addr n
unfolding field_writes
addresses-field_writes zero addr label field ps h = refl
addresses-field_writes (suc n) addr label field [] h = absurd (omega arith)
addresses-field_writes (suc n) addr label field (p ∷ ps) h =
    ap (λ t. addr ∷ t) (addresses-field_writes n (addr + 1) label field ps (omega arith))

module _ (t : FanTable) (w : IsTable t) where
  cpu_addresses :
      (addr : ℕ) (label : Text) (field : FanPoint → ℕ)
      → addresses (field_writes 16 addr label field t.cpu) ≡ ascending addr 16
  cpu_addresses addr label field =
      addresses-field_writes 16 addr label field t.cpu (omega (arith, w.cpu_points))

  gpu_addresses :
      (n addr : ℕ) (label : Text) (field : FanPoint → ℕ)
      → n ≤ 16
      → addresses (field_writes n addr label field t.gpu) ≡ ascending addr n
  gpu_addresses n addr label field h =
      addresses-field_writes n addr label field t.gpu (omega (arith, w.gpu_points))

  program_addresses : addresses (fan_program t) ≡ ascending 0x0F00 96
  unfolding fan_program
  program_addresses = simp (
    addresses-append,
    cpu_addresses,
    gpu_addresses 16 0x0F30 _ _ (omega arith),
    gpu_addresses 16 0x0F40 _ _ (omega arith),
    gpu_addresses 13 0x0F50 _ _ (omega arith),
  )

  -- For a table with 16 points in each curve that is valid, the plan of `lcc_build_fan_plan` writes
  -- every byte of the window 0x0F00..0x0F5F once, in ascending order, and no other: the curve of GPU
  -- duties stops before the three tail bytes.
  pub build_fan_plan_window :
      (plan : Plan)
      → validate_fan_table t ≡ Status.ok
      → addresses (build_fan_plan t plan).1 ≡ ascending 0x0F00 96
  build_fan_plan_window plan h = rw ((build_fan_plan-eq-program t w plan h).0) program_addresses
