-- ===== src/Fan/Valid.antt =====
-- `lcc_validate_fan_table` of src/core/fan/table.c decides that both curves are sound.
use kuangshi16pro_series_gm.Prelude.{
  ◌≤◌, ◌≡◌, refl, ◌↔◌, false, Option, none, some, List, [], ◌∷◌, arith, length, Bool-cases, inl,
  inr,
}
use kuangshi16pro_series_gm.Text.{is_empty}
use kuangshi16pro_series_gm.Status.{Status}
use kuangshi16pro_series_gm.Fan.{
  FanPoint, FanTable, IsTable, point_is_monotonic, validate_from, validate_fan_table,
}

-- The point turns off no hotter than it turns on, and its duty is a percentage.
abbrev pub IsPoint : FanPoint → Type 0
IsPoint p = (p.down_temp ≤ p.up_temp) × (p.duty ≤ 100)

-- One point lies below another in every respect.
abbrev pub Below : FanPoint → FanPoint → Type 0
Below p q = (p.up_temp ≤ q.up_temp) × (p.down_temp ≤ q.down_temp) × (p.duty ≤ q.duty)

abbrev pub BelowAll : FanPoint → List FanPoint → Type 0
BelowAll p [] = Unit {0}
BelowAll p (q ∷ qs) = Below p q × BelowAll p qs

-- Every point is sound, and lies below every later one.
abbrev pub IsCurve : List FanPoint → Type 0
IsCurve [] = Unit {0}
IsCurve (p ∷ ps) = IsPoint p × BelowAll p ps × IsCurve ps

BelowAll-trans : (p q : FanPoint) (qs : List FanPoint) → Below p q → BelowAll q qs → BelowAll p qs
BelowAll-trans p q [] h a = tt
BelowAll-trans p q (r ∷ rs) h a =
    ((omega arith, omega arith, omega arith), BelowAll-trans p q rs h a.1)

-- What the loop has checked of one curve, with the point before it.
abbrev Rises : Option FanPoint → List FanPoint → Type 0
Rises none ps = IsCurve ps
Rises (some p) ps = BelowAll p ps × IsCurve ps

step_sound :
    (pc pg c g : FanPoint) (cs gs : List FanPoint)
    → validate_from (some (pc, pg)) (c ∷ cs) (g ∷ gs) ≡ Status.ok
    → IsPoint c
      × IsPoint g
      × Below pc c
      × Below pg g
      × (validate_from (some (c, g)) cs gs ≡ Status.ok)
unfolding validate_from point_is_monotonic
step_sound pc pg c g cs gs h = ground arith

validate_from_sound :
    (pc pg : FanPoint) (cs gs : List FanPoint)
    → length cs ≡ length gs
    → validate_from (some (pc, pg)) cs gs ≡ Status.ok
    → Rises (some pc) cs × Rises (some pg) gs
validate_from_sound pc pg [] [] l h = ((tt, tt), (tt, tt))
validate_from_sound pc pg [] (g ∷ gs) l h = absurd (omega arith)
validate_from_sound pc pg (c ∷ cs) [] l h = absurd (omega arith)
validate_from_sound pc pg (c ∷ cs) (g ∷ gs) l h =
    let s = step_sound pc pg c g cs gs h in
    let (rc, rg) = validate_from_sound c g cs gs (omega arith) s.4 in
    (
      ((s.2, BelowAll-trans pc c cs s.2 rc.0), (s.0, rc.0, rc.1)),
      ((s.3, BelowAll-trans pg g gs s.3 rg.0), (s.1, rg.0, rg.1)),
    )

validate_from_complete :
    (pc pg : FanPoint) (cs gs : List FanPoint)
    → Rises (some pc) cs
    → Rises (some pg) gs
    → validate_from (some (pc, pg)) cs gs ≡ Status.ok
unfolding validate_from point_is_monotonic
validate_from_complete pc pg [] gs hc hg = refl
validate_from_complete pc pg (c ∷ cs) [] hc hg = refl
validate_from_complete pc pg (c ∷ cs) (g ∷ gs) hc hg =
    ground (arith, validate_from_complete c g cs gs (hc.1.1, hc.1.2) (hg.1.1, hg.1.2))

start_sound :
    (c g : FanPoint) (cs gs : List FanPoint)
    → validate_from none (c ∷ cs) (g ∷ gs) ≡ Status.ok
    → IsPoint c × IsPoint g × (validate_from (some (c, g)) cs gs ≡ Status.ok)
unfolding validate_from
start_sound c g cs gs h = ground arith

curves_sound :
    (cs gs : List FanPoint)
    → length cs ≡ length gs
    → validate_from none cs gs ≡ Status.ok
    → IsCurve cs × IsCurve gs
curves_sound [] [] l h = (tt, tt)
curves_sound [] (g ∷ gs) l h = absurd (omega arith)
curves_sound (c ∷ cs) [] l h = absurd (omega arith)
curves_sound (c ∷ cs) (g ∷ gs) l h =
    let s = start_sound c g cs gs h in
    let (rc, rg) = validate_from_sound c g cs gs (omega arith) s.2 in
    ((s.0, rc.0, rc.1), (s.1, rg.0, rg.1))

curves_complete :
    (cs gs : List FanPoint) → IsCurve cs → IsCurve gs → validate_from none cs gs ≡ Status.ok
unfolding validate_from
curves_complete [] gs hc hg = refl
curves_complete (c ∷ cs) [] hc hg = refl
curves_complete (c ∷ cs) (g ∷ gs) hc hg =
    ground (arith, validate_from_complete c g cs gs (hc.1, hc.2) (hg.1, hg.2))

-- A table with 16 points in each curve passes `lcc_validate_fan_table` exactly if it has a name and on
-- both curves every point turns off no hotter than it turns on, has a duty of at most 100, and lies in
-- temperatures and duty no higher than every later point, not only the next.
pub validate_fan_table_iff :
    (t : FanTable)
    → IsTable t
    → (validate_fan_table t ≡ Status.ok)
      ↔ ((is_empty t.name ≡ false) × IsCurve t.cpu × IsCurve t.gpu)
unfolding validate_fan_table
validate_fan_table_iff t w =
    let same : length t.cpu ≡ length t.gpu = omega (arith, w.cpu_points, w.gpu_points) in
    elim (Bool-cases (is_empty t.name)) [
      | inl e ↦ rw e ((λ h. cc), (λ h. cc (h.0)))
      | inr e ↦ rw e (
        (λ h. let c = curves_sound t.cpu t.gpu same h in (refl, c.0, c.1)),
        (λ h. curves_complete t.cpu t.gpu h.1 h.2),
      )
    ]
