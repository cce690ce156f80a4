-- ===== src/Text.antt =====
-- C strings. A `char *` is the list of its bytes before the terminating NUL, and a `char[n]` that
-- holds a string is the list of at most n - 1 bytes before its NUL. `literal` is a string literal of
-- the source, kept shut so that proofs do not carry its bytes about; `fit n` is what
-- `snprintf(buffer, n, "%s", value)` leaves in a buffer of n bytes, n > 0; `is_same` is
-- `strcmp(a, b) == 0`.
use kuangshi16pro_series_gm.Prelude.{
  ℕ, ◌-◌, ◌<◌, ◌≡◌, refl, Bool, true, false, ◌&&◌, List, [], ◌∷◌, arith, ◌==◌, length, take,
  length-take, take_all,
}
use Prim.Native.Char.{code}
use Prim.Native.String.{String}

abbrev pub Text : Type 0
Text = List ℕ

-- The code points of a text: its bytes, since every literal of the source is ASCII.
abbrev codes : String → Text
codes String.[] = []
codes (String.◌∷◌ c s) = code c ∷ codes s

unfoldable pub literal : String → Text
literal s = codes s

-- `text[0] == '\0'`
abbrev pub is_empty : Text → Bool
is_empty [] = true
is_empty (_ ∷ _) = false

unfoldable pub fit : ℕ → Text → Text
fit n t = take (n - 1) t

unfoldable pub is_same : Text → Text → Bool
is_same [] [] = true
is_same [] (_ ∷ _) = false
is_same (_ ∷ _) [] = false
is_same (a ∷ s) (b ∷ t) = (a == b) && is_same s t

-- A text that is shorter than the buffer is copied whole.
pub fit_short : (n : ℕ) (t : Text) → length t < n → fit n t ≡ t
unfolding fit
fit_short n t h = take_all (n - 1) t (omega arith)

-- A buffer of n bytes holds at most n - 1 of them before its NUL.
pub length-fit : (n : ℕ) (t : Text) → 0 < n → length (fit n t) < n
unfolding fit
length-fit n t h = omega (arith, length-take (n - 1) t)

pub is_same→eq : (s t : Text) → is_same s t ≡ true → s ≡ t
unfolding is_same
is_same→eq [] [] h = refl
is_same→eq [] (b ∷ t) h = ground arith
is_same→eq (a ∷ s) [] h = ground arith
is_same→eq (a ∷ s) (b ∷ t) h = ground (arith, is_same→eq s t)
