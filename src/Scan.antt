-- ===== src/Scan.antt =====
-- Functions of the C library on strings, in the C locale: `isspace`, `strchr`, `strrchr`, `strstr`, and
-- the two ways of trimming that the sources write out. A pointer into a string is the text from there
-- on, and NULL is `none`.
use kuangshi16pro_series_gm.Prelude.{
  ℕ, Bool, true, false, ◌&&◌, ◌||◌, Option, none, some, List, [], ◌∷◌, leb, ◌==◌, if◌then◌else◌,
}
use kuangshi16pro_series_gm.Text.{Text, is_empty}

-- The bytes before the first NUL.
unfoldable pub c_string : List ℕ → Text
c_string [] = []
c_string (c ∷ cs) = let rest = c_string cs in if c == 0 then [] else c ∷ rest

-- `isspace`
abbrev pub is_space : ℕ → Bool
is_space c = c == b' ' || (leb 9 c && leb c 13)

unfoldable pub skip_space : Text → Text
skip_space [] = []
skip_space (c ∷ cs) = let rest = skip_space cs in if is_space c then rest else c ∷ cs

-- A text without the blanks at its end.
unfoldable pub trim_end : Text → Text
trim_end [] = []
trim_end (c ∷ cs) = let rest = trim_end cs in if is_empty rest && is_space c then [] else c ∷ rest

-- `strchr`
unfoldable pub find_char : ℕ → Text → Option Text
find_char k [] = none
find_char k (c ∷ cs) = let rest = find_char k cs in if c == k then some (c ∷ cs) else rest

-- What stands before that place, or the whole text.
unfoldable pub until_char : ℕ → Text → Text
until_char k [] = []
until_char k (c ∷ cs) = let rest = until_char k cs in if c == k then [] else c ∷ rest

-- `strrchr`, as the texts before and after the last such byte.
unfoldable pub split_last : ℕ → Text → Option (Text × Text)
split_last k [] = none
split_last k (c ∷ cs) = elim (split_last k cs) [
  | some (before, after) ↦ some (c ∷ before, after)
  | none ↦ if c == k then some ([], cs) else none
]

-- `strncmp(text, prefix, strlen(prefix)) == 0`
unfoldable pub has_prefix : Text → Text → Bool
has_prefix [] text = true
has_prefix (_ ∷ _) [] = false
has_prefix (p ∷ ps) (c ∷ cs) = p == c && has_prefix ps cs

-- `strstr`, for a key that is not empty.
unfoldable pub find_text : Text → Text → Option Text
find_text key [] = none
find_text key (c ∷ cs) =
    let rest = find_text key cs in if has_prefix key (c ∷ cs) then some (c ∷ cs) else rest

-- What follows a place in a text.
abbrev pub after_first : Text → Text
after_first [] = []
after_first (_ ∷ cs) = cs
