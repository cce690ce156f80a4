-- ===== src/Amw0/Encoding.antt =====
-- The control byte of src/backends/amw0/backend.c: what is read from it is what was written.
use kuangshi16pro_series_gm.Prelude.{ℕ, ◌<◌, ◌≡◌, refl, Bool, true, false, arith}
use kuangshi16pro_series_gm.State.{Mode}
use kuangshi16pro_series_gm.Amw0.Control.{
  mode_control_for_mode, has_boost, add_boost, drop_boost, mode_from_control,
}
use kuangshi16pro_series_gm.Amw0.Apply.{mode_target}

-- The mode and the fan boost that a control byte stands for.
pub record Encodes (c : ℕ) (mode : Mode) (boost : Bool) : Type 0 where
  pub byte : c < 256
  pub mode_is : mode_from_control c ≡ mode
  pub boost_is : has_boost c ≡ boost

pub mode_control_for_mode-Encodes : (m : Mode) → Encodes (mode_control_for_mode m) m false
unfolding mode_control_for_mode mode_from_control has_boost
mode_control_for_mode-Encodes Mode.gaming = record {
  byte = omega arith;
  mode_is = refl;
  boost_is = refl;
}
mode_control_for_mode-Encodes Mode.office = record {
  byte = omega arith;
  mode_is = refl;
  boost_is = refl;
}
mode_control_for_mode-Encodes Mode.turbo = record {
  byte = omega arith;
  mode_is = refl;
  boost_is = refl;
}
mode_control_for_mode-Encodes Mode.custom = record {
  byte = omega arith;
  mode_is = refl;
  boost_is = refl;
}

-- The fan boost is a bit of its own: to set or clear it keeps the mode.
pub add_boost-Encodes : {c : ℕ} {m : Mode} {b : Bool} → Encodes c m b → Encodes (add_boost c) m true
unfolding mode_from_control has_boost add_boost
add_boost-Encodes {c} h = record {
  byte = ground (arith, h.byte);
  mode_is = ground (arith, h.byte, h.mode_is);
  boost_is = ground (arith, h.byte);
}

pub drop_boost-Encodes :
    {c : ℕ} {m : Mode} {b : Bool} → Encodes c m b → Encodes (drop_boost c) m false
unfolding mode_from_control has_boost drop_boost
drop_boost-Encodes {c} h = record {
  byte = ground (arith, h.byte);
  mode_is = ground (arith, h.byte, h.mode_is);
  boost_is = ground (arith, h.byte);
}

-- Where the control byte stands for some mode and boost, the byte that `amw0_apply_mode` writes for a
-- mode fits in a byte, is read back by `mode_from_control` as the mode asked for, and keeps the fan
-- boost.
pub mode_target-Encodes :
    (m : Mode) {c : ℕ} {m0 : Mode} {b : Bool} → Encodes c m0 b → Encodes (mode_target m c) m b
unfolding mode_target
mode_target-Encodes m {c} {m0} {b} h = keep b h.boost_is
  where
    keep : (b : Bool) → has_boost c ≡ b → Encodes (mode_target m c) m b
    keep true e = rw (e) (add_boost-Encodes (mode_control_for_mode-Encodes m))
    keep false e = rw (e) (mode_control_for_mode-Encodes m)
