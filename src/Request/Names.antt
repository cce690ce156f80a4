-- ===== src/Request/Names.antt =====
-- The names of modes and the test of names (src/daemon/transaction.c).
use kuangshi16pro_series_gm.Prelude.{◌≡◌, refl, true, some, arith}
use kuangshi16pro_series_gm.Text.{Text, literal, is_same, is_same→eq}
use kuangshi16pro_series_gm.Status.{Status, is_ok}
use kuangshi16pro_series_gm.State.{Mode}
use kuangshi16pro_series_gm.Request.{mode_to_profile_name}

-- The profile that a mode stands for.
unfoldable pub mode_text : Mode → Text
mode_text Mode.gaming = literal "gaming"
mode_text Mode.office = literal "office"
mode_text Mode.turbo = literal "turbo"
mode_text Mode.custom = literal "custom"

-- The name of a mode is read back as that mode, whatever the out-parameters held.
pub mode_to_profile_name-mode_text :
    (mode old : Mode) (p : Text)
    → mode_to_profile_name (some (mode_text mode)) p old ≡ (Status.ok, mode_text mode, mode)
unfolding mode_to_profile_name mode_text literal is_same
mode_to_profile_name-mode_text Mode.gaming old p = refl
mode_to_profile_name-mode_text Mode.office old p = refl
mode_to_profile_name-mode_text Mode.turbo old p = refl
mode_to_profile_name-mode_text Mode.custom old p = refl

-- A name that is read as a mode is the name of that mode, and the profile is that name.
pub mode_to_profile_name_sound :
    (t p : Text) (old : Mode)
    → let (s, profile, mode) = mode_to_profile_name (some t) p old in
      is_ok s ≡ true → (t ≡ mode_text mode) × (profile ≡ t)
unfolding mode_to_profile_name mode_text
mode_to_profile_name_sound t p old h = ground (
  arith,
  is_same→eq t (literal "gaming"),
  is_same→eq t (literal "office"),
  is_same→eq t (literal "turbo"),
  is_same→eq t (literal "custom"),
)
