-- ===== src/Loader/Rounds.antt =====
-- The loop of `parse_fan_json_array` (src/core/profile/loader.c) ends, and the array keeps its length.
use kuangshi16pro_series_gm.Prelude.{
  ℕ, zero, suc, ◌+◌, ◌≤◌, ◌≡◌, refl, Bool, true, false, Option, none, some, List, [], ◌∷◌, arith,
  leb, length, length-append, ap,
}
use kuangshi16pro_series_gm.Text.{Text}
use kuangshi16pro_series_gm.Status.{Status}
use kuangshi16pro_series_gm.Scan.{find_char, find_text, after_first}
use kuangshi16pro_series_gm.Fan.{FanPoint}
use kuangshi16pro_series_gm.Loader.Json.{
  Scanned, complete, refused, out_of_fuel, take_object, scan_objects, put_points, fill_points,
  parse_fan_json_array,
}

-- Whether the loop came to its end.
abbrev pub ends : Scanned → Bool
ends (complete _) = true
ends (refused _ _) = true
ends out_of_fuel = false

-- An object is taken only while the array has room.
take_object_full :
    (cursor : Text) (points : List FanPoint)
    → leb 16 (length points) ≡ true
    → (take_object cursor points).1 ≡ none
unfolding take_object
take_object_full cursor points h = ground (arith, h)

-- Two numbers of rounds that are both enough.
scan_objects-enough :
    (f g : ℕ) (cursor : Text) (points : List FanPoint)
    → 17 ≤ f + length points
    → 17 ≤ g + length points
    → length points ≤ 16
    → (ends (scan_objects f cursor points) ≡ true)
      × (scan_objects f cursor points ≡ scan_objects g cursor points)
unfolding scan_objects
scan_objects-enough zero g cursor points h k l = absurd (omega (arith, h, l))
scan_objects-enough (suc f) zero cursor points h k l = absurd (omega (arith, k, l))
scan_objects-enough (suc f) (suc g) cursor points h k l =
    grind (arith, scan_objects-enough f g, take_object_full, length-append {A = FanPoint})

-- For every text behind the bracket of an array, the loop of `parse_fan_json_array` ends within 17
-- rounds: it is never out of fuel with 17 or more, and more give the same outcome as the 17 that
-- `parse_fan_json_array` runs it with.
pub scan_objects-ends :
    (f : ℕ) (cursor : Text)
    → 17 ≤ f
    → (ends (scan_objects f cursor []) ≡ true)
      × (scan_objects f cursor [] ≡ scan_objects 17 cursor [])
scan_objects-ends f cursor h =
    scan_objects-enough f 17 cursor [] (omega (arith, h)) (omega arith) (omega arith)

length-put_points : (ps old : List FanPoint) → length (put_points ps old) ≡ length old
unfolding put_points
length-put_points [] old = refl
length-put_points (p ∷ ps) [] = refl
length-put_points (p ∷ ps) (q ∷ old) = ap suc (length-put_points ps old)

length-fill_points : (s : Scanned) (old : List FanPoint) → length (fill_points s old).1 ≡ length old
unfolding fill_points
length-fill_points out_of_fuel old = refl
length-fill_points (refused s ps) old = length-put_points ps old
length-fill_points (complete []) old = refl
length-fill_points (complete (p ∷ ps)) old = length-put_points _ old

pub length-parse_fan_json_array :
    (key json : Text) (old : List FanPoint)
    → length (parse_fan_json_array key json old).1 ≡ length old
unfolding parse_fan_json_array
length-parse_fan_json_array key json old = array (find_text key json) refl
  where
    filled :
        (b : Option Text)
        → length
            (elim b as (λ _. Status × List FanPoint) [
              | none ↦ (Status.parse, old)
              | some bracket ↦ fill_points (scan_objects 17 (after_first bracket) []) old
            ]).1
          ≡ length old
    filled none = refl
    filled (some bracket) = length-fill_points (scan_objects 17 (after_first bracket) []) old

    array :
        (o : Option Text)
        → find_text key json ≡ o
        → length (parse_fan_json_array key json old).1 ≡ length old
    array none e = rw (parse_fan_json_array, e) refl
    array (some found) e = rw (parse_fan_json_array, e) (filled (find_char b'[' found))
