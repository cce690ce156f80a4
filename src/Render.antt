-- ===== src/Render.antt =====
-- src/core/state/model.c: the snapshot as a JSON text. Each part is printed into a buffer of its own
-- first. A part whose length is not tested is cut by its buffer; where it is tested, `none` stands for
-- the result -1. `lcc_state_render_json` is `render_json`.
pub mod Document
pub mod Fits
pub mod Whole
pub mod Rendered
use kuangshi16pro_series_gm.Prelude.{
  ℕ, Bool, true, false, Option, none, some, List, [], ◌∷◌, ◌++◌, ltb, if◌then◌else◌, length,
}
use kuangshi16pro_series_gm.Text.{Text, literal, is_empty, fit}
use kuangshi16pro_series_gm.Status.{Status, is_ok, status_string}
use kuangshi16pro_series_gm.State.{
  PowerLimits, OptionalByte, StateTarget, Thermal, TransactionState, idle, pending, failed,
  Execution, Attribution, EffectiveMeta, Snapshot,
}
use kuangshi16pro_series_gm.Backend.{Capabilities}
use kuangshi16pro_series_gm.Summary.{decimal}
use kuangshi16pro_series_gm.Amw0.Packet.{print_to}

module _ {A B : Type 0} where
  infixl 1 ◌>>=◌
  abbrev pub ◌>>=◌ : Option A → (A → Option B) → Option B
  none >>= f = none
  some a >>= f = f a

-- Texts one after the other.
unfoldable pub join : List Text → Text
join [] = []
join (t ∷ ts) = t ++ join ts

abbrev pub null : Text
null = literal "null"

abbrev pub flag : Bool → Text
flag b = if b then literal "true" else literal "false"

-- `append_u8_or_null` and `append_u16_or_null`, without the buffer.
unfoldable pub number_text : Bool → ℕ → Text
number_text present value = if present then decimal value else null

-- The two, into a buffer of n bytes.
unfoldable pub append_number : ℕ → Bool → ℕ → Text
append_number n present value = fit n (number_text present value)

-- `append_bool_or_null`
unfoldable pub bool_text : Bool → Bool → Text
bool_text present value = if present then flag value else null

unfoldable pub append_bool : ℕ → Bool → Bool → Text
append_bool n present value = fit n (bool_text present value)

unfoldable pub power_text : Text → Text → Text → Text → Text
power_text pl1 pl2 pl4 tcc = join (
    literal "{\"pl1\":"
    ∷ pl1
    ∷ literal ",\"pl2\":"
    ∷ pl2
    ∷ literal ",\"pl4\":"
    ∷ pl4
    ∷ literal ",\"tcc_offset\":"
    ∷ tcc
    ∷ literal "}"
    ∷ [])

-- `append_power_json`
unfoldable pub append_power_json : ℕ → StateTarget → Text
append_power_json n t =
    let l = t.power_limits in
    fit n (
      if t.has_power_limits
      then power_text (append_number 16 l.pl1.present l.pl1.value)
          (append_number 16 l.pl2.present l.pl2.value) (append_number 16 l.pl4.present l.pl4.value)
          (append_number 16 l.tcc_offset.present l.tcc_offset.value)
      else null)

unfoldable pub target_text : Text → Text → Text → Text → Text
target_text profile fan_table boost power = join (
    literal "{\"profile\":\""
    ∷ profile
    ∷ literal "\",\"fan_table\":\""
    ∷ fan_table
    ∷ literal "\",\"fan_boost\":"
    ∷ boost
    ∷ literal ",\"power\":"
    ∷ power
    ∷ literal "}"
    ∷ [])

-- `append_target_json`
unfoldable pub append_target_json : ℕ → StateTarget → Text
append_target_json n t = fit n (
    target_text t.profile t.fan_table (append_bool 16 t.has_fan_boost t.fan_boost_enabled)
      (append_power_json 128 t))

unfoldable pub quoted : Text → Text
quoted t = join (literal "\"" ∷ t ∷ literal "\"" ∷ [])

unfoldable pub string_text : Text → Text
string_text t = if is_empty t then null else quoted t

-- `append_string_or_null`
unfoldable pub append_string : ℕ → Text → Option Text
append_string n t = if ltb (length (string_text t)) n then some (string_text t) else none

unfoldable pub execution_text : Text → Text → Text → Text → Text → Text → Text
execution_text read profile mode limits table boost = join (
    literal "{\"read_state\":"
    ∷ read
    ∷ literal ",\"apply_profile\":"
    ∷ profile
    ∷ literal ",\"apply_mode\":"
    ∷ mode
    ∷ literal ",\"apply_power_limits\":"
    ∷ limits
    ∷ literal ",\"apply_fan_table\":"
    ∷ table
    ∷ literal ",\"apply_fan_boost\":"
    ∷ boost
    ∷ literal "}"
    ∷ [])

-- `append_execution_json`
unfoldable pub append_execution_json : ℕ → Execution → Option Text
append_execution_json n e = do
  read ← append_string 64 e.read_state
  profile ← append_string 64 e.apply_profile
  mode ← append_string 64 e.apply_mode
  limits ← append_string 64 e.apply_power_limits
  table ← append_string 64 e.apply_fan_table
  boost ← append_string 64 e.apply_fan_boost
  some (fit n (execution_text read profile mode limits table boost))

unfoldable pub component_text : Text → Text → Text
component_text source freshness =
    join
      (literal "{\"source\":" ∷ source ∷ literal ",\"freshness\":" ∷ freshness ∷ literal "}" ∷ [])

-- `append_component_attribution_json`
unfoldable pub append_component_json : ℕ → Attribution → Option Text
append_component_json n c = do
  source ← append_string 64 c.source
  freshness ← append_string 64 c.freshness
  some (fit n (component_text source freshness))

unfoldable pub power_meta_text : Text → Text → Text → Text → Text → Text → Text
power_meta_text source freshness pl1 pl2 pl4 tcc = join (
    literal "{\"source\":"
    ∷ source
    ∷ literal ",\"freshness\":"
    ∷ freshness
    ∷ literal ",\"fields\":{\"pl1\":"
    ∷ pl1
    ∷ literal ",\"pl2\":"
    ∷ pl2
    ∷ literal ",\"pl4\":"
    ∷ pl4
    ∷ literal ",\"tcc_offset\":"
    ∷ tcc
    ∷ literal "}}"
    ∷ [])

-- `append_power_attribution_json`
unfoldable pub append_power_meta_json : ℕ → EffectiveMeta → Option Text
append_power_meta_json n m = do
  source ← append_string 64 m.power.source
  freshness ← append_string 64 m.power.freshness
  pl1 ← append_component_json 96 m.power_fields.pl1
  pl2 ← append_component_json 96 m.power_fields.pl2
  pl4 ← append_component_json 96 m.power_fields.pl4
  tcc ← append_component_json 96 m.power_fields.tcc_offset
  some (fit n (power_meta_text source freshness pl1 pl2 pl4 tcc))

unfoldable pub meta_text : Text → Text → Text → Text → Text → Text → Text → Text
meta_text source freshness profile table boost power thermal = join (
    literal "{\"source\":"
    ∷ source
    ∷ literal ",\"freshness\":"
    ∷ freshness
    ∷ literal ",\"components\":{\"profile\":"
    ∷ profile
    ∷ literal ",\"fan_table\":"
    ∷ table
    ∷ literal ",\"fan_boost\":"
    ∷ boost
    ∷ literal ",\"power\":"
    ∷ power
    ∷ literal ",\"thermal\":"
    ∷ thermal
    ∷ literal "}}"
    ∷ [])

-- `append_effective_meta_json`
unfoldable pub append_effective_meta_json : ℕ → EffectiveMeta → Option Text
append_effective_meta_json n m = do
  source ← append_string 64 m.source
  freshness ← append_string 64 m.freshness
  profile ← append_component_json 96 m.profile
  table ← append_component_json 96 m.fan_table
  boost ← append_component_json 96 m.fan_boost
  power ← append_power_meta_json 512 m
  thermal ← append_component_json 96 m.thermal
  some (fit n (meta_text source freshness profile table boost power thermal))
