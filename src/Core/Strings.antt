-- ===== src/Core/Strings.antt =====
-- What the getters of identifiers store.
use ec200_at_abstraction.Prelude.{
  ℕ, ◌≤◌, ◌<◌, ◌≡◌, refl, ◌∙◌, ap, false, List, [], ◌∷◌, ◌++◌, leb, ◌==◌, length, if-elim, arith,
  append_assoc, length-append,
}
use ec200_at_abstraction.Text.{Text, c_str, memcpy_at}
use ec200_at_abstraction.Text.Laws.{NoNul, c_str-append_nul, length-memcpy_at}
use ec200_at_abstraction.Handle.{Status, ok, err_parse, err_overflow}
use ec200_at_abstraction.Core.{first_line, store_line}

NoNul-first_line : (s : Text) → NoNul s → NoNul (first_line s)
unfolding first_line
NoNul-first_line [] h = tt
NoNul-first_line (c ∷ s) (n, h) =
    if-elim NoNul (c == b'\n') _ _ (λ _. tt) (λ _. (n, NoNul-first_line s h))

-- The outcome of get_string_response on a reply: the whole first line, in an array that has room for it
-- and its NUL and keeps its size, or nothing.
abbrev pub Stored : Text → List ℕ → Status × List ℕ → Type 0
Stored resp out (ok, out') =
    (c_str out' ≡ first_line resp)
    × (0 < length (first_line resp))
    × (length (first_line resp) < length out)
    × (length out' ≡ length out)
Stored resp out (err_parse, out') = (out' ≡ out) × (length (first_line resp) ≡ 0)
Stored resp out (err_overflow, out') = (out' ≡ out) × (length out ≤ length (first_line resp))
Stored resp out (st, out') = ⊥

-- An identifier is never cut, and never written past the array: on a reply without NUL the caller's
-- array holds the whole first line of the reply, which is not empty and fits with its NUL, and has its
-- size (EC200_OK), or it is unchanged and the line is empty (EC200_ERR_PARSE) or does not fit with its
-- NUL (EC200_ERR_OVERFLOW).
pub store_line-Stored :
    (resp : Text) (out : List ℕ) → NoNul resp → Stored resp out (store_line resp out)
unfolding store_line memcpy_at
store_line-Stored resp out h =
    let line = first_line resp in
    if-elim (Stored resp out) (length line == 0) _ _ (λ e. (refl, ground (arith, e)))
      λ e.
        if-elim (Stored resp out) (leb (length out) (length line)) _ _
          (λ l. (refl, ground (arith, l)))
          λ l. (
            ap c_str (append_assoc line (0 ∷ []) _)
                ∙ c_str-append_nul line _ (NoNul-first_line resp h),
            ground (arith, e),
            fits l,
            length-memcpy_at 0 (line ++ (0 ∷ [])) out
                (omega (arith, length-append line (0 ∷ []), fits l)),
          )
  where
    fits :
        leb (length out) (length (first_line resp)) ≡ false → length (first_line resp) < length out
    fits l = ground (arith, l)
