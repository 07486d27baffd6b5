-- ===== src/Data/Address.antt =====
-- The address in the module's reply reaches the caller.
use ec200_at_abstraction.Prelude.{
  ℕ, ◌<◌, ◌≡◌, refl, ◌∙◌, ap, List, [], ◌∷◌, ◌++◌, leb, ◌==◌, length, take, take_all, if-elim,
  arith, append_assoc,
}
use ec200_at_abstraction.Text.{Text, codes, c_str, memcpy_at, find_char}
use ec200_at_abstraction.Text.Laws.{c_str-append_nul}
use ec200_at_abstraction.Handle.{Status, ok}
use ec200_at_abstraction.Power.Echo.{Plain, NoNul-of_Plain, find_char-Plain}
use ec200_at_abstraction.Data.{close_quote, open_quote, store_address, address_parse}

close_quote-append : (s : Text) → close_quote (s ++ (b'"' ∷ [])) ≡ s
unfolding close_quote
close_quote-append [] = refl
close_quote-append (c ∷ []) = refl
close_quote-append (c ∷ d ∷ s) = ap (λ t. c ∷ t) (close_quote-append (d ∷ s))

-- The address is stored whole.
abbrev pub Holds : Text → Status × List ℕ → Type 0
Holds address (st, out) = (st ≡ ok) × (c_str out ≡ address)

store_address-Holds :
    (address : Text) (out : List ℕ)
    → Plain address
    → 0 < length address
    → length address < length out
    → Holds address (store_address address out)
unfolding store_address memcpy_at
store_address-Holds address out h some_text fits =
    if-elim (Holds address) (length address == 0) _ _ (λ e. absurd (ground (arith, e)))
      λ _. (
        refl,
        if-elim (λ alen. c_str (memcpy_at 0 (take alen address ++ (0 ∷ [])) out) ≡ address)
            (leb (length out) (length address)) _ _ (λ e. absurd (ground (arith, e)))
            λ _.
              ap (λ t. c_str (memcpy_at 0 (t ++ (0 ∷ [])) out))
                (take_all (length address) address (omega arith))
              ∙ ap c_str (append_assoc address (0 ∷ []) _)
              ∙ c_str-append_nul address _ (NoNul-of_Plain address h),
      )

-- A context id and a quoted address in the module's form, the address not empty and free of NUL, quotes
-- and commas, give EC200_OK and the address in the caller's array, if it fits with its NUL.
pub address_parse_lem :
    (cid address : Text) (out : List ℕ)
    → Plain cid
    → Plain address
    → 0 < length address
    → length address < length out
    → Holds address (
        address_parse (codes "+CGPADDR: " ++ (cid ++ (codes ",\"" ++ (address ++ codes "\"")))) out)
unfolding address_parse find_char open_quote
address_parse_lem cid address out k h some_text fits =
    rw
      (
        address_parse,
        find_char-Plain cid (b',' ∷ b'"' ∷ (address ++ codes "\"")) k,
        close_quote-append address,
      )
      (store_address-Holds address out h some_text fits)
