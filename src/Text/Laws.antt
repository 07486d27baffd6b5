-- ===== src/Text/Laws.antt =====
-- What the proofs use of C strings and arrays.
use ec200_at_abstraction.Prelude.{
  ℕ, zero, suc, ◌+◌, ◌≤◌, ◌≡◌, refl, ◌≢◌, ap, Bool, true, false, ◌==◌, ==_iff, if-elim, Option,
  none, some, List, [], ◌∷◌, ◌++◌, arith, length, take, drop, length-append, length-take,
  length-drop,
}
use ec200_at_abstraction.Text.{Text, c_str, text_eq, starts_with, memcpy_at, cut, cut_last}
use mathlib.Core.Path.{subst}

-- No byte of the text is NUL.
abbrev pub NoNul : Text → Type 0
NoNul [] = Unit
NoNul (b ∷ s) = (b ≢ 0) × NoNul s

-- The string of an array ends before its first NUL.
pub c_str-NoNul : (bs : List ℕ) → NoNul (c_str bs)
unfolding c_str
c_str-NoNul [] = tt
c_str-NoNul (b ∷ bs) = grind (arith, c_str-NoNul bs)

pub c_str-append_nul : (s rest : List ℕ) → NoNul s → c_str (s ++ (0 ∷ rest)) ≡ s
unfolding c_str
c_str-append_nul [] rest h = refl
c_str-append_nul (b ∷ s) rest h = ground (arith, c_str-append_nul s rest h.1)

pub length-c_str : (bs : List ℕ) → length (c_str bs) ≤ length bs
unfolding c_str
length-c_str [] = omega arith
length-c_str (b ∷ bs) = ground (arith, length-c_str bs)

pub NoNul-take : (n : ℕ) (s : Text) → NoNul s → NoNul (take n s)
NoNul-take zero s h = tt
NoNul-take (suc n) [] h = tt
NoNul-take (suc n) (b ∷ s) h = (h.0, NoNul-take n s h.1)

-- A copy that fits keeps the size of the array.
pub length-memcpy_at :
    (at : ℕ) (src dst : List ℕ)
    → at + length src ≤ length dst
    → length (memcpy_at at src dst) ≡ length dst
unfolding memcpy_at
length-memcpy_at at src dst h = omega (
  arith,
  length-append (take at dst) (src ++ drop (at + length src) dst),
  length-append src (drop (at + length src) dst),
  length-take at dst,
  length-drop (at + length src) dst,
)

pub text_eq→≡ : (s t : Text) → text_eq s t ≡ true → s ≡ t
unfolding text_eq
text_eq→≡ [] [] h = refl
text_eq→≡ [] (b ∷ t) h = ground arith
text_eq→≡ (a ∷ s) [] h = ground arith
text_eq→≡ (a ∷ s) (b ∷ t) h = ground (arith, text_eq→≡ s t)

pub text_eq_refl : (s : Text) → text_eq s s ≡ true
unfolding text_eq
text_eq_refl [] = refl
text_eq_refl (a ∷ s) = ground (arith, text_eq_refl s)

pub starts_with-append : (prefix rest : Text) → starts_with prefix (prefix ++ rest) ≡ true
unfolding starts_with
starts_with-append [] rest = refl
starts_with-append (p ∷ prefix) rest = ground (arith, starts_with-append prefix rest)

-- No byte of the text is `c`.
abbrev pub Free : ℕ → Text → Type 0
Free c [] = Unit
Free c (b ∷ s) = (b ≢ c) × Free c s

-- What cut finds.
abbrev pub CutOf : ℕ → Text → Option (Text × Text) → Type 0
CutOf c s none = Free c s
CutOf c s (some (before, rest)) = (s ≡ before ++ (c ∷ rest)) × Free c before

pub cut-CutOf : (c : ℕ) (s : Text) → CutOf c s (cut c s)
unfolding cut
cut-CutOf c [] = tt
cut-CutOf c (b ∷ s) =
    if-elim (CutOf c (b ∷ s)) (b == c) _ _ (λ e. (ap (λ x. x ∷ s) ((==_iff b c).0 e), tt))
      λ e. behind (cut c s) (λ x. differs ((==_iff b c).1 x) e) (cut-CutOf c s)
  where
    differs : {t : Bool} → t ≡ true → t ≡ false → ⊥
    differs h k = absurd (ground (arith, h, k))

    behind :
        (o : Option (Text × Text))
        → b ≢ c
        → CutOf c s o
        → CutOf c (b ∷ s) (elim o [ none ↦ none | some (before, rest) ↦ some (b ∷ before, rest) ])
    behind none n h = (n, h)
    behind (some (before, rest)) n (e, f) = (ap (λ t. b ∷ t) e, (n, f))

-- The first `c` is found behind a text without it.
pub cut-append : (c : ℕ) (s rest : Text) → Free c s → cut c (s ++ (c ∷ rest)) ≡ some (s, rest)
unfolding cut
cut-append c [] rest h = ground arith
cut-append c (b ∷ s) rest (n, h) = ground (arith, cut-append c s rest h)

pub cut-none : (c : ℕ) (s : Text) → Free c s → cut c s ≡ none
unfolding cut
cut-none c [] h = refl
cut-none c (b ∷ s) (n, h) = ground (arith, cut-none c s h)

-- What stands behind the character found is shorter.
pub length-cut :
    (c : ℕ) (s before rest : Text)
    → cut c s ≡ some (before, rest)
    → length s ≡ length before + 1 + length rest
length-cut c s before rest e =
    let (split, _) = subst (CutOf c s) e (cut-CutOf c s) in
    omega (arith, ap length split, length-append before (c ∷ rest))

pub cut_last-none : (c : ℕ) (s : Text) → Free c s → cut_last c s ≡ none
unfolding cut_last
cut_last-none c [] h = refl
cut_last-none c (b ∷ s) (n, h) = ground (arith, cut_last-none c s h)

pub cut_last-append : (c : ℕ) (s rest : Text) → Free c rest → cut_last c (s ++ (c ∷ rest)) ≡ some s
unfolding cut_last
cut_last-append c [] rest h = ground (arith, cut_last-none c rest h)
cut_last-append c (b ∷ s) rest h = ground (arith, cut_last-append c s rest h)
