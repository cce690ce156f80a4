-- ===== src/Metadata/Routes.antt =====
-- What a write of names that fit leaves (src/backends/backend.c).
use kuangshi16pro_series_gm.Prelude.{ℕ, ◌<◌, ◌≡◌, refl, false, ◌∷◌, [], length, lt→ltb}
use kuangshi16pro_series_gm.Text.{Text, is_empty, fit_short}
use kuangshi16pro_series_gm.Status.{Status}
use kuangshi16pro_series_gm.State.{backend_name_max, reason_max, Execution, Snapshot}
use kuangshi16pro_series_gm.Attribution.{copy_text, set_text}
use kuangshi16pro_series_gm.Metadata.{execution_set, state_set_metadata}

-- A name that fits is written whole.
pub set_text_short : (t : Text) → length t < backend_name_max → set_text t ≡ (Status.ok, t)
unfolding copy_text
set_text_short [] h = refl
set_text_short (c ∷ t) h = rw (lt→ltb _ _ h, fit_short backend_name_max (c ∷ t) h)

-- Routes that fit are all written.
pub execution_set_short :
    (e : Execution)
    → length e.read_state < backend_name_max
    → length e.apply_profile < backend_name_max
    → length e.apply_mode < backend_name_max
    → length e.apply_power_limits < backend_name_max
    → length e.apply_fan_table < backend_name_max
    → length e.apply_fan_boost < backend_name_max
    → execution_set e.read_state e.apply_profile e.apply_mode e.apply_power_limits e.apply_fan_table
        e.apply_fan_boost
      ≡ (Status.ok, e)
unfolding execution_set
execution_set_short e h1 h2 h3 h4 h5 h6 = rw (
  set_text_short e.read_state h1,
  set_text_short e.apply_profile h2,
  set_text_short e.apply_mode h3,
  set_text_short e.apply_power_limits h4,
  set_text_short e.apply_fan_table h5,
  set_text_short e.apply_fan_boost h6,
)

copy_text_short :
    (n : ℕ) (b t : Text) → is_empty t ≡ false → length t < n → copy_text n b t ≡ (Status.ok, t)
unfolding copy_text
copy_text_short n b t e h = rw (e, lt→ltb _ _ h, fit_short n t h)

-- A snapshot given names that fit takes them all, and keeps the rest.
pub state_set_metadata_short :
    (s : Snapshot) (name selected reason : Text) (execution : Execution)
    → is_empty name ≡ false
    → is_empty selected ≡ false
    → length name < backend_name_max
    → length selected < backend_name_max
    → length reason < reason_max
    → state_set_metadata s name selected reason execution ≡ (
      Status.ok,
      record s {
        backend_name = name;
        backend_selected = selected;
        backend_fallback_reason = reason;
        execution = execution;
      },
    )
unfolding state_set_metadata
state_set_metadata_short s name selected [] execution en es hn hs hr = rw (
  es,
  en,
  copy_text_short backend_name_max s.backend_name name en hn,
  copy_text_short backend_name_max s.backend_selected selected es hs,
)
state_set_metadata_short s name selected (c ∷ r) execution en es hn hs hr = rw (
  es,
  en,
  copy_text_short backend_name_max s.backend_name name en hn,
  copy_text_short backend_name_max s.backend_selected selected es hs,
  copy_text_short reason_max s.backend_fallback_reason (c ∷ r) refl hr,
)
