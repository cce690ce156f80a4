-- ===== src/Render/Fits.antt =====
-- The buffers of src/core/state/model.c are large enough for the parts that are printed into them.
use kuangshi16pro_series_gm.Prelude.{
  ℕ, zero, suc, ◌+◌, ◌/◌, ◌%◌, ◌≤◌, ◌<◌, ◌≡◌, refl, Bool, true, false, some, [], ◌∷◌, arith, lt→ltb,
  length, length-append, Bool-cases, inl, inr, ap,
}
use kuangshi16pro_series_gm.Text.{Text, literal, is_empty, fit_short}
use kuangshi16pro_series_gm.State.{StateTarget, Attribution, EffectiveMeta}
use kuangshi16pro_series_gm.Summary.{decimal_fuel, decimal}
use kuangshi16pro_series_gm.Render.Whole.{
  whole_power, whole_target, whole_component, whole_power_meta, TargetFits, AttributionFits,
  MetaFits,
}
use kuangshi16pro_series_gm.Render.{
  join, number_text, append_number, bool_text, append_bool, power_text, append_power_json,
  target_text, append_target_json, quoted, string_text, append_string, component_text,
  append_component_json, power_meta_text, append_power_meta_json,
}

length-decimal_fuel : (f n : ℕ) (acc : Text) → length (decimal_fuel f n acc) ≤ f + length acc
unfolding decimal_fuel
length-decimal_fuel zero n acc = omega arith
length-decimal_fuel (suc f) n acc =
    ground (arith, length-decimal_fuel f (n / 10) ((b'0' + n % 10) ∷ acc))

length-number_text : (b : Bool) (n : ℕ) → length (number_text b n) ≤ 5
unfolding number_text decimal literal
length-number_text true n = omega (arith, length-decimal_fuel 5 n [])
length-number_text false n = omega arith

length-bool_text : (b v : Bool) → length (bool_text b v) ≤ 5
unfolding bool_text literal
length-bool_text true true = omega arith
length-bool_text true false = omega arith
length-bool_text false v = omega arith

pub append_number-whole : (k : ℕ) (b : Bool) (n : ℕ) → 6 ≤ k → append_number k b n ≡ number_text b n
unfolding append_number
append_number-whole k b n h =
    fit_short k (number_text b n) (omega (arith, h, length-number_text b n))

pub append_bool-whole : (k : ℕ) (b v : Bool) → 6 ≤ k → append_bool k b v ≡ bool_text b v
unfolding append_bool
append_bool-whole k b v h = fit_short k (bool_text b v) (omega (arith, h, length-bool_text b v))

-- The quotes of a text that is not empty; `null` is shorter than what they make of 31 bytes.
pub string_text_short : (t : Text) (n : ℕ) → length t ≤ n → 2 ≤ n → length (string_text t) ≤ n + 2
unfolding string_text quoted join literal
string_text_short t n h k = elim (Bool-cases (is_empty t)) [
  | inl e ↦ rw (e) (omega (arith, k))
  | inr e ↦ rw (e) (simp (length-append) (omega (arith, h)))
]

pub append_string-whole :
    (k n : ℕ) (t : Text)
    → length t ≤ n
    → 2 ≤ n
    → n + 2 < k
    → append_string k t ≡ some (string_text t)
unfolding append_string
append_string-whole k n t h m f =
    rw (lt→ltb (length (string_text t)) k (omega (arith, string_text_short t n h m, f))) refl

-- A text of a buffer of 32 bytes, in one of 64.
pub append_name : (t : Text) → length t < 32 → append_string 64 t ≡ some (string_text t)
append_name t h = append_string-whole 64 31 t (omega (arith, h)) (omega arith) (omega arith)

pub name_text : (t : Text) → length t < 32 → length (string_text t) ≤ 33
name_text t h = string_text_short t 31 (omega (arith, h)) (omega arith)

length-power_text :
    (a b c d : Text) → length (power_text a b c d) ≡ length a + length b + length c + length d + 36
unfolding power_text join literal
length-power_text a b c d = simp (length-append) (omega arith)

length-whole_power : (t : StateTarget) → length (whole_power t) ≤ 56
unfolding whole_power literal
length-whole_power t = elim (Bool-cases t.has_power_limits) [
  | inl e ↦
      let l = t.power_limits in
      rw (e) (
        omega (
          arith,
          length-power_text (number_text l.pl1.present l.pl1.value)
              (number_text l.pl2.present l.pl2.value) (number_text l.pl4.present l.pl4.value)
              (number_text l.tcc_offset.present l.tcc_offset.value),
          length-number_text l.pl1.present l.pl1.value,
          length-number_text l.pl2.present l.pl2.value,
          length-number_text l.pl4.present l.pl4.value,
          length-number_text l.tcc_offset.present l.tcc_offset.value,
        ))
  | inr e ↦ rw (e) (omega arith)
]

append_power_json-whole : (t : StateTarget) → append_power_json 128 t ≡ whole_power t
unfolding append_power_json whole_power
append_power_json-whole t =
    let l = t.power_limits in
    rw
      (
        append_number-whole 16 l.pl1.present l.pl1.value (omega arith),
        append_number-whole 16 l.pl2.present l.pl2.value (omega arith),
        append_number-whole 16 l.pl4.present l.pl4.value (omega arith),
        append_number-whole 16 l.tcc_offset.present l.tcc_offset.value (omega arith),
      )
      (fit_short 128 (whole_power t) (omega (arith, length-whole_power t)))

length-target_text :
    (a b c d : Text) → length (target_text a b c d) ≡ length a + length b + length c + length d + 51
unfolding target_text join literal
length-target_text a b c d = simp (length-append) (omega arith)

pub append_target_json-whole :
    (t : StateTarget) → TargetFits t → append_target_json 256 t ≡ whole_target t
unfolding append_target_json whole_target
append_target_json-whole t h =
    let b = bool_text t.has_fan_boost t.fan_boost_enabled in
    rw
      (
        append_bool-whole 16 t.has_fan_boost t.fan_boost_enabled (omega arith),
        append_power_json-whole t,
      )
      (fit_short 256 (whole_target t) (
        omega (
          arith,
          length-target_text t.profile t.fan_table b (whole_power t),
          h.profile,
          h.fan_table,
          length-bool_text t.has_fan_boost t.fan_boost_enabled,
          length-whole_power t,
        )))

length-component_text : (a b : Text) → length (component_text a b) ≡ length a + length b + 24
unfolding component_text join literal
length-component_text a b = simp (length-append) (omega arith)

pub length-whole_component : (c : Attribution) → AttributionFits c → length (whole_component c) ≤ 90
unfolding whole_component
length-whole_component c h = omega (
  arith,
  length-component_text (string_text c.source) (string_text c.freshness),
  name_text c.source h.source,
  name_text c.freshness h.freshness,
)

pub append_component_json-whole :
    (c : Attribution) → AttributionFits c → append_component_json 96 c ≡ some (whole_component c)
unfolding append_component_json whole_component
append_component_json-whole c h =
    rw (append_name c.source h.source, append_name c.freshness h.freshness)
      (ap some (fit_short 96 (whole_component c) (omega (arith, length-whole_component c h))))

length-power_meta_text :
    (a b c d e f : Text)
    → length (power_meta_text a b c d e f)
      ≡ length a + length b + length c + length d + length e + length f + 70
unfolding power_meta_text join literal
length-power_meta_text a b c d e f = simp (length-append) (omega arith)

pub length-whole_power_meta : (m : EffectiveMeta) → MetaFits m → length (whole_power_meta m) ≤ 496
unfolding whole_power_meta
length-whole_power_meta m h =
    let f = m.power_fields in
    omega (
      arith,
      length-power_meta_text (string_text m.power.source) (string_text m.power.freshness)
          (whole_component f.pl1) (whole_component f.pl2) (whole_component f.pl4)
          (whole_component f.tcc_offset),
      name_text m.power.source h.power.source,
      name_text m.power.freshness h.power.freshness,
      length-whole_component f.pl1 h.pl1,
      length-whole_component f.pl2 h.pl2,
      length-whole_component f.pl4 h.pl4,
      length-whole_component f.tcc_offset h.tcc_offset,
    )

pub append_power_meta_json-whole :
    (m : EffectiveMeta) → MetaFits m → append_power_meta_json 512 m ≡ some (whole_power_meta m)
unfolding append_power_meta_json whole_power_meta
append_power_meta_json-whole m h =
    rw
      (
        append_name m.power.source h.power.source,
        append_name m.power.freshness h.power.freshness,
        append_component_json-whole m.power_fields.pl1 h.pl1,
        append_component_json-whole m.power_fields.pl2 h.pl2,
        append_component_json-whole m.power_fields.pl4 h.pl4,
        append_component_json-whole m.power_fields.tcc_offset h.tcc_offset,
      )
      (ap some (fit_short 512 (whole_power_meta m) (omega (arith, length-whole_power_meta m h))))
