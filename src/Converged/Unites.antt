-- ===== src/Converged/Unites.antt =====
-- What is known after the overlay (src/backends/converged/backend.c).
use kuangshi16pro_series_gm.Prelude.{
  ℕ, ◌≡◌, ◌⊎◌, inl, inr, refl, Bool, Bool-cases, true, false, not, ◌&&◌, ◌||◌, [], ◌∷◌, arith,
  if◌then◌else◌,
}
use kuangshi16pro_series_gm.Text.{Text, fit}
use kuangshi16pro_series_gm.State.{
  name_max, OptionalByte, PowerLimits, Execution, Thermal, Snapshot,
}
use kuangshi16pro_series_gm.Attribution.{copy_text, has_text}
use kuangshi16pro_series_gm.Converged.Selection.{is_amw0_name}
use kuangshi16pro_series_gm.Converged.Overlay.{
  PowerCell, pl1_cell, pl2_cell, pl4_cell, tcc_cell, overlay_power_field, overlay_power,
  overlay_profile, overlay_fan_table, overlay_fan_boost, fill_thermal, overlay_thermal,
  overlay_amw0_state,
}

-- The field of amw0 takes the place of that of the state, if it is present and either the power limits
-- go to amw0 or the state lacks it.
abbrev pub preferred : Bool → Bool → OptionalByte → OptionalByte → OptionalByte
preferred replace given a s = if given && (a.present && (replace || not s.present)) then a else s

abbrev pub HasPreferred : Bool → Bool → PowerLimits → PowerLimits → PowerLimits → Type 0
HasPreferred replace given a s l =
    (l.pl1 ≡ preferred replace given a.pl1 s.pl1)
    × (l.pl2 ≡ preferred replace given a.pl2 s.pl2)
    × (l.pl4 ≡ preferred replace given a.pl4 s.pl4)
    × (l.tcc_offset ≡ preferred replace given a.tcc_offset s.tcc_offset)

-- The readings of both, those of the state where both have one.
abbrev pub HasReadings : Thermal → Thermal → Thermal → Type 0
HasReadings a s t =
    (t.has_cpu_temp_c ≡ (s.has_cpu_temp_c || a.has_cpu_temp_c))
    × (t.has_gpu_temp_c ≡ (s.has_gpu_temp_c || a.has_gpu_temp_c))
    × (t.has_cpu_fan_rpm ≡ (s.has_cpu_fan_rpm || a.has_cpu_fan_rpm))
    × (t.has_gpu_fan_rpm ≡ (s.has_gpu_fan_rpm || a.has_gpu_fan_rpm))
    × (t.has_vendor_fan_level ≡ (s.has_vendor_fan_level || a.has_vendor_fan_level))
    × ((s.has_cpu_temp_c ≡ false) ⊎ (t.cpu_temp_c ≡ s.cpu_temp_c))
    × ((s.has_gpu_temp_c ≡ false) ⊎ (t.gpu_temp_c ≡ s.gpu_temp_c))
    × ((s.has_cpu_fan_rpm ≡ false) ⊎ (t.cpu_fan_rpm ≡ s.cpu_fan_rpm))
    × ((s.has_gpu_fan_rpm ≡ false) ⊎ (t.gpu_fan_rpm ≡ s.gpu_fan_rpm))
    × ((s.has_vendor_fan_level ≡ false) ⊎ (t.vendor_fan_level ≡ s.vendor_fan_level))

-- The effective state after the overlay of `a` on `s`, by the routes `e`.
pub record Unites (e : Execution) (s a s' : Snapshot) : Type 0 where
  pub limits :
      HasPreferred
        (is_amw0_name e.apply_power_limits)
        a.effective.has_power_limits
        a.effective.power_limits
        s.effective.power_limits
        s'.effective.power_limits
  pub boost_known :
      s'.effective.has_fan_boost ≡ (s.effective.has_fan_boost || a.effective.has_fan_boost)
  pub profile_known : has_text s'.effective.profile ≡ (
      has_text s.effective.profile
      || ((is_amw0_name e.apply_profile
            || is_amw0_name e.apply_mode
            || is_amw0_name e.apply_fan_table)
          && has_text a.effective.profile))
  pub fan_table_known : has_text s'.effective.fan_table ≡ (
      has_text s.effective.fan_table
      || (is_amw0_name e.apply_fan_table && has_text a.effective.fan_table))
  pub readings : HasReadings a.thermal s.thermal s'.thermal
  pub transaction : s'.transaction ≡ s.transaction
  pub last_apply : s'.last_apply ≡ s.last_apply
  pub hardware_write : s'.hardware_write ≡ s.hardware_write

overlay_power_field-effective :
    (replace : Bool) (t s : PowerCell)
    → (overlay_power_field replace t s).effective ≡ preferred replace true s.effective t.effective
unfolding overlay_power_field
overlay_power_field-effective replace t s = ground arith

overlay_power-limits :
    (replace : Bool) (s a : Snapshot)
    → HasPreferred replace a.effective.has_power_limits a.effective.power_limits
        s.effective.power_limits
        (overlay_power replace s a).effective.power_limits
unfolding overlay_power
overlay_power-limits replace s a = elim (Bool-cases a.effective.has_power_limits) [
  | inl e ↦ rw e (
    overlay_power_field-effective replace (pl1_cell s) (pl1_cell a),
    overlay_power_field-effective replace (pl2_cell s) (pl2_cell a),
    overlay_power_field-effective replace (pl4_cell s) (pl4_cell a),
    overlay_power_field-effective replace (tcc_cell s) (tcc_cell a),
  )
  | inr e ↦ rw e (refl, refl, refl, refl)
]

copied_known : (old t : Text) → has_text (copy_text name_max old t).1 ≡ (has_text old || has_text t)
unfolding copy_text fit
copied_known [] [] = refl
copied_known (c ∷ old) [] = refl
copied_known [] (d ∷ t) = refl
copied_known (c ∷ old) (d ∷ t) = refl

reading_kept : (had has : Bool) (a t : ℕ) → (had ≡ false) ⊎ ((if not had && has then a else t) ≡ t)
reading_kept false has a t = inl refl
reading_kept true has a t = inr refl

fill_thermal-HasReadings : (t a : Thermal) → HasReadings a t (fill_thermal t a)
unfolding fill_thermal
fill_thermal-HasReadings t a = (
  refl,
  refl,
  refl,
  refl,
  refl,
  reading_kept _ _ _ _,
  reading_kept _ _ _ _,
  reading_kept _ _ _ _,
  reading_kept _ _ _ _,
  reading_kept _ _ _ _,
)

overlay_profile_known :
    (e : Execution) (s a : Snapshot)
    → has_text (overlay_profile e s a).effective.profile ≡ (
        has_text s.effective.profile
        || ((is_amw0_name e.apply_profile
              || is_amw0_name e.apply_mode
              || is_amw0_name e.apply_fan_table)
            && has_text a.effective.profile))
unfolding overlay_profile
overlay_profile_known e s a = ground (arith, copied_known s.effective.profile a.effective.profile)

overlay_fan_table_known :
    (e : Execution) (s a : Snapshot)
    → has_text (overlay_fan_table e s a).effective.fan_table ≡ (
        has_text s.effective.fan_table
        || (is_amw0_name e.apply_fan_table && has_text a.effective.fan_table))
unfolding overlay_fan_table
overlay_fan_table_known e s a =
    ground (arith, copied_known s.effective.fan_table a.effective.fan_table)

-- The parts that each block leaves.
overlay_profile_keeps :
    (e : Execution) (s a : Snapshot)
    → let s' = overlay_profile e s a in
      s' ≡ record s {
        requested = record s.requested { profile = s'.requested.profile };
        effective = record s.effective { profile = s'.effective.profile };
        effective_meta = s'.effective_meta;
      }
unfolding overlay_profile
overlay_profile_keeps e s a = ground arith

overlay_fan_table_keeps :
    (e : Execution) (s a : Snapshot)
    → let s' = overlay_fan_table e s a in
      s' ≡ record s {
        requested = record s.requested { fan_table = s'.requested.fan_table };
        effective = record s.effective { fan_table = s'.effective.fan_table };
        effective_meta = s'.effective_meta;
      }
unfolding overlay_fan_table
overlay_fan_table_keeps e s a = ground arith

overlay_fan_boost_keeps :
    (s a : Snapshot)
    → let s' = overlay_fan_boost s a in
      (s' ≡ record s {
        requested = s'.requested;
        effective = record s.effective {
          has_fan_boost = s.effective.has_fan_boost || a.effective.has_fan_boost;
          fan_boost_enabled = s'.effective.fan_boost_enabled;
        };
        effective_meta = s'.effective_meta;
      })
unfolding overlay_fan_boost
overlay_fan_boost_keeps s a = ground arith

overlay_power_keeps :
    (replace : Bool) (s a : Snapshot)
    → let s' = overlay_power replace s a in
      s' ≡ record s {
        requested = s'.requested;
        effective = record s.effective {
          power_limits = s'.effective.power_limits;
          has_power_limits = s'.effective.has_power_limits;
        };
        effective_meta = s'.effective_meta;
      }
unfolding overlay_power
overlay_power_keeps replace s a = ground arith

overlay_thermal_keeps :
    (s a : Snapshot)
    → let s' = overlay_thermal s a in
      s'
      ≡ record s { thermal = fill_thermal s.thermal a.thermal; effective_meta = s'.effective_meta }
unfolding overlay_thermal
overlay_thermal_keeps s a = ground arith

HasPreferred-along :
    (replace given : Bool) (a s s' l l' : PowerLimits)
    → s' ≡ s
    → l' ≡ l
    → HasPreferred replace given a s l
    → HasPreferred replace given a s' l'
HasPreferred-along replace given a s s' l l' e f h = rw (e, f) h

HasReadings-along :
    (a s s' t t' : Thermal) → s' ≡ s → t' ≡ t → HasReadings a s t → HasReadings a s' t'
HasReadings-along a s s' t t' e f h = rw (e, f) h

-- The overlay of the state that amw0 read: a power field of amw0 takes the place of the state's if it
-- is present and either the power limits go to amw0 or the state lacks it, and the state's stays
-- otherwise; the fan boost is known if either knows it; the profile and the fan table are known if the
-- state knows them, or if amw0 knows them and they are routed to it; a thermal reading is there if
-- either has it, and is the state's where both do. The transaction, the last apply and the
-- hardware write are kept.
pub overlay_amw0_state-Unites :
    (e : Execution) (s a : Snapshot) → Unites e s a (overlay_amw0_state e s a)
unfolding overlay_amw0_state
overlay_amw0_state-Unites e s a =
    let s1 = overlay_profile e s a in
    let s2 = overlay_fan_table e s1 a in
    let s3 = overlay_fan_boost s2 a in
    let s4 = overlay_power (is_amw0_name e.apply_power_limits) s3 a in
    let k1 = overlay_profile_keeps e s a in
    let k2 = overlay_fan_table_keeps e s1 a in
    let k3 = overlay_fan_boost_keeps s2 a in
    let k4 = overlay_power_keeps (is_amw0_name e.apply_power_limits) s3 a in
    let k5 = overlay_thermal_keeps s4 a in
    record {
      limits =
          HasPreferred-along (is_amw0_name e.apply_power_limits) a.effective.has_power_limits
            a.effective.power_limits s3.effective.power_limits s.effective.power_limits
            s4.effective.power_limits _ (cc (k1, k2, k3)) (cc k5)
            (overlay_power-limits (is_amw0_name e.apply_power_limits) s3 a);
      boost_known = cc (k1, k2, k3, k4, k5);
      profile_known = cc (k2, k3, k4, k5, overlay_profile_known e s a);
      fan_table_known = cc (k1, k3, k4, k5, overlay_fan_table_known e s1 a);
      readings =
          HasReadings-along a.thermal s4.thermal _ (fill_thermal s4.thermal a.thermal) _
            (cc (k1, k2, k3, k4)) (cc k5) (fill_thermal-HasReadings s4.thermal a.thermal);
      transaction = cc (k1, k2, k3, k4, k5);
      last_apply = cc (k1, k2, k3, k4, k5);
      hardware_write = cc (k1, k2, k3, k4, k5);
    }
