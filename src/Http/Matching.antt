-- ===== src/Http/Matching.antt =====
-- src/ec200_http.c: the trailer search of read_body_until_ok against the first occurrence of the trailer.
use ec200_at_abstraction.Prelude.{
  ℕ, zero, suc, ◌<◌, ◌≡◌, refl, sym, ap, false, [], ◌∷◌, ◌++◌, Option, none, some, ◌==◌,
  if◌then◌else◌, get_or, take, arith, append_assoc,
}
use ec200_at_abstraction.Text.{Text, starts_with}
use ec200_at_abstraction.Http.Body.{trailer}

abbrev pub prepend : Text → Option Text → Option Text
prepend xs none = none
prepend xs (some ys) = some (xs ++ ys)

-- What stands before the first occurrence of the trailer.
unfoldable pub body_before : Text → Option Text
body_before [] = none
body_before (c ∷ s) =
    if starts_with trailer (c ∷ s) then some [] else prepend (c ∷ []) (body_before s)

pub prepend-nil : (o : Option Text) → prepend [] o ≡ o
prepend-nil none = refl
prepend-nil (some ys) = refl

pub prepend-prepend :
    (xs ys : Text) (o : Option Text) → prepend xs (prepend ys o) ≡ prepend (xs ++ ys) o
prepend-prepend xs ys none = refl
prepend-prepend xs ys (some zs) = ap some (sym (append_assoc xs ys zs))

differs : (a b : ℕ) → (b == a) ≡ false → (a == b) ≡ false
differs a b e = ground (arith, e)

-- No occurrence starts in a part of the trailer that a wrong byte follows.
pub body_before-missed :
    (m ch : ℕ) (rest : Text)
    → m < 6
    → (ch == get_or trailer m 0) ≡ false
    → body_before (take m trailer ++ (ch ∷ rest))
      ≡ prepend (take m trailer) (body_before (ch ∷ rest))
unfolding body_before starts_with
body_before-missed zero ch rest small e = sym (prepend-nil _)
body_before-missed (suc zero) ch rest small e = rw (differs 10 ch e) refl
body_before-missed (suc (suc zero)) ch rest small e = rw (differs 79 ch e) (simp (prepend-prepend))
body_before-missed (suc (suc (suc zero))) ch rest small e =
    rw (differs 75 ch e) (simp (prepend-prepend))
body_before-missed (suc (suc (suc (suc zero)))) ch rest small e =
    rw (differs 13 ch e) (simp (prepend-prepend))
body_before-missed (suc (suc (suc (suc (suc zero))))) ch rest small e =
    rw (differs 10 ch e) (simp (prepend-prepend))
body_before-missed (suc (suc (suc (suc (suc (suc m)))))) ch rest small e = absurd (omega arith)

-- Nor in front of a byte that does not begin the trailer.
pub body_before-other :
    (ch : ℕ) (rest : Text)
    → (ch == 13) ≡ false
    → body_before (ch ∷ rest) ≡ prepend (ch ∷ []) (body_before rest)
unfolding body_before starts_with
body_before-other ch rest e = rw (differs 13 ch e) refl
