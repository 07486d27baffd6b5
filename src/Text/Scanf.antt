-- ===== src/Text/Scanf.antt =====
-- sscanf with a format of "%d" conversions.
use ec200_at_abstraction.Prelude.{
  ℕ, ℤ, ◌≡◌, refl, List, [], ◌∷◌, Option, none, some, ◌==◌, if◌then◌else◌,
}
use ec200_at_abstraction.Text.{Text, strtol}

-- The character of the format in front of a "%d", if there is one, against the string.
unfoldable pub scan_mark : Option ℕ → Text → Option Text
scan_mark none s = some s
scan_mark (some c) [] = none
scan_mark (some c) (b ∷ s) = if b == c then some s else none

-- sscanf with a format of as many "%d" as `marks` has entries, each behind its character: the numbers that
-- are converted, up to the first mismatch. "%d" reads as strtol does: white space, a sign, digits. C leaves a
-- value outside `int` undefined; the integer itself stands here.
unfoldable pub scan_numbers : List (Option ℕ) → Text → List ℤ
unfolding scan_mark
scan_numbers [] s = []
scan_numbers (m ∷ marks) s = elim (scan_mark m s) [
  | none ↦ []
  | some t ↦ elim (strtol t) [ none ↦ [] | some (n, rest) ↦ n ∷ scan_numbers marks rest ]
]

-- A conversion.
pub scan_numbers-strtol :
    (m : Option ℕ) (marks : List (Option ℕ)) (s t rest : Text) (n : ℤ)
    → scan_mark m s ≡ some t
    → strtol t ≡ some (n, rest)
    → scan_numbers (m ∷ marks) s ≡ n ∷ scan_numbers marks rest
unfolding scan_numbers
scan_numbers-strtol m marks s t rest n e k = rw (scan_numbers, e, k) refl
