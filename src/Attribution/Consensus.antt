-- ===== src/Attribution/Consensus.antt =====
-- What merging a row of texts into one buffer comes to (`merge_text` of src/backends/backend.c).
use kuangshi16pro_series_gm.Prelude.{
  ℕ, ◌<◌, ◌≡◌, refl, inl, inr, false, List, [], ◌∷◌, arith, if◌then◌else◌, length, all, Bool-cases,
}
use kuangshi16pro_series_gm.Text.{Text, literal, is_empty, fit, is_same, fit_short, is_same→eq}
use kuangshi16pro_series_gm.State.{backend_name_max}
use kuangshi16pro_series_gm.Attribution.{mixed, copy_text, merge_text, merge_all}

-- The texts of a row that are not empty.
abbrev pub named : List Text → List Text
named [] = []
named ([] ∷ vs) = named vs
named ((c ∷ v) ∷ vs) = (c ∷ v) ∷ named vs

-- What the row agrees on: nothing if it names nothing, the one text that it names, or "mixed".
abbrev pub agreed : List Text → Text
agreed [] = []
agreed (v ∷ vs) = if all (is_same v) vs then v else mixed

unfoldable pub consensus : List Text → Text
consensus vs = agreed (named vs)

abbrev pub AllFit : List Text → Type 0
AllFit [] = Unit {0}
AllFit (v ∷ vs) = (length v < backend_name_max) × AllFit vs

fit-mixed : fit backend_name_max mixed ≡ mixed
unfolding literal
fit-mixed = fit_short backend_name_max mixed (omega arith)

mixed_not_empty : is_empty mixed ≡ false
unfolding literal
mixed_not_empty = refl

-- Once the buffer holds "mixed" it stays so.
merge_all-mixed : (vs : List Text) → merge_all mixed vs ≡ mixed
unfolding merge_all merge_text copy_text
merge_all-mixed [] = refl
merge_all-mixed (v ∷ vs) =
    ground (arith, fit-mixed, mixed_not_empty, merge_all-mixed vs, is_same→eq mixed v)

-- A buffer that holds the text `c ∷ b` keeps it while the texts of the row are the same.
merge_all-named :
    (c : ℕ) (b : Text) (vs : List Text)
    → merge_all (c ∷ b) vs ≡ (if all (is_same (c ∷ b)) (named vs) then c ∷ b else mixed)
unfolding merge_all merge_text copy_text
merge_all-named c b [] = refl
merge_all-named c b ([] ∷ vs) = merge_all-named c b vs
merge_all-named c b ((d ∷ v) ∷ vs) = elim (Bool-cases (is_same (c ∷ b) (d ∷ v))) [
  | inl e ↦ rw e (merge_all-named c b vs)
  | inr e ↦ rw e (ground (arith, fit-mixed, mixed_not_empty, merge_all-mixed vs))
]

-- Merging a row of texts, each short enough for its buffer, into an empty buffer leaves what the
-- row agrees on.
pub merge_all-eq-consensus : (vs : List Text) → AllFit vs → merge_all [] vs ≡ consensus vs
unfolding merge_all merge_text copy_text consensus
merge_all-eq-consensus [] h = refl
merge_all-eq-consensus ([] ∷ vs) h = merge_all-eq-consensus vs h.1
merge_all-eq-consensus ((c ∷ v) ∷ vs) h =
    rw (fit_short backend_name_max (c ∷ v) h.0) (merge_all-named c v vs)
