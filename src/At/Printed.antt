-- ===== src/At/Printed.antt =====
-- ec200_at_parse_int_field on a reply line of printed numbers and quoted strings.
use ec200_at_abstraction.Prelude.{
  ℕ, zero, suc, ◌^◌, ◌<◌, ◌≡◌, refl, ap, ◌∙◌, ℤ, pos, true, false, List, [], ◌∷◌, ◌++◌, Option,
  none, some, ◌==◌, sym, append-nil, if_true, if_false, length, arith, append_assoc,
}
use ec200_at_abstraction.Text.{Text, find_char, skip_spaces, is_digit, decimal}
use ec200_at_abstraction.Text.Laws.{Free}
use ec200_at_abstraction.Text.Decimal.{AllDigits, Stops, decimal-AllDigits, atoi-decimal}
use ec200_at_abstraction.At.Field.{
  after_colon, skip_fields, starts_number, number_at, parse_int_field,
}

-- A field of a reply.
pub data Item : Type 0 where
  number : ℕ → Item
  quoted : Text → Item

abbrev pub item : Item → Text
item (number n) = decimal n
item (quoted s) = b'"' ∷ (s ++ (b'"' ∷ []))

-- <field>,<field>,…
abbrev pub items : List Item → Text
items [] = []
items (i ∷ []) = item i
items (i ∷ j ∷ is) = item i ++ (b',' ∷ items (j ∷ is))

-- +<name>: <field>,<field>,…
abbrev pub reply_line : Text → List Item → Text
reply_line prefix is = prefix ++ (b':' ∷ (b' ' ∷ items is))

-- A number that an `int` holds, or a string without quotes.
abbrev pub IsItem : Item → Type 0
IsItem (number n) = n < 2 ^ 31
IsItem (quoted s) = Free b'"' s

abbrev pub AllItems : List Item → Type 0
AllItems [] = Unit
AllItems (i ∷ is) = IsItem i × AllItems is

abbrev pub number_of : Item → Option ℤ
number_of (number n) = some (pos n)
number_of (quoted s) = none

-- The number in field `k`, if there is one.
abbrev pub nth_number : List Item → ℕ → Option ℤ
nth_number [] k = none
nth_number (i ∷ is) zero = number_of i
nth_number (i ∷ is) (suc k) = nth_number is k

find_char-append :
    (c : ℕ) (s rest : Text) → Free c s → find_char c (s ++ (c ∷ rest)) ≡ some (c ∷ rest)
unfolding find_char
find_char-append c [] rest h = ground arith
find_char-append c (b ∷ s) rest (n, h) = ground (arith, find_char-append c s rest h)

pub after_colon-append :
    (prefix rest : Text) → Free b':' prefix → after_colon (prefix ++ (b':' ∷ rest)) ≡ rest
unfolding after_colon
after_colon-append prefix rest h = rw (after_colon, find_char-append b':' prefix rest h) refl

skip_fields-AllDigits :
    (left : ℕ) (d rest : Text)
    → AllDigits d
    → skip_fields (suc left) false (d ++ rest) ≡ skip_fields (suc left) false rest
unfolding skip_fields is_digit
skip_fields-AllDigits left [] rest h = refl
skip_fields-AllDigits left (c ∷ d) rest (k, h) =
    ground (arith, k, skip_fields-AllDigits left d rest h)

skip_spaces-AllDigits :
    (d rest : Text) → AllDigits d → 0 < length d → skip_spaces (d ++ rest) ≡ d ++ rest
unfolding skip_spaces is_digit
skip_spaces-AllDigits [] rest h l = absurd (omega arith)
skip_spaces-AllDigits (c ∷ d) rest (k, h) l = if_false (c == b' ') _ _ (ground (arith, k))

starts_number-AllDigits :
    (d rest : Text) → AllDigits d → 0 < length d → starts_number (d ++ rest) ≡ true
unfolding starts_number is_digit
starts_number-AllDigits [] rest h l = absurd (omega arith)
starts_number-AllDigits (c ∷ d) rest (k, h) l = ground (arith, k)

-- A printed number at the cursor.
number_at-decimal :
    (n : ℕ) (rest : Text)
    → n < 2 ^ 31
    → Stops rest
    → number_at (skip_spaces (decimal n ++ rest)) ≡ some (pos n)
unfolding number_at
number_at-decimal n rest h k =
    let (all, some_digits) = decimal-AllDigits n (omega (arith, h)) in
    ap number_at (skip_spaces-AllDigits (decimal n) rest all some_digits)
    ∙ if_true (starts_number (decimal n ++ rest)) _ _
        (starts_number-AllDigits (decimal n) rest all some_digits)
    ∙ ap some (atoi-decimal n rest (omega (arith, h)) k)

-- In quotes, everything but a quote is skipped.
skip_fields-quoted :
    (left : ℕ) (s rest : Text)
    → Free b'"' s
    → skip_fields (suc left) true (s ++ rest) ≡ skip_fields (suc left) true rest
unfolding skip_fields
skip_fields-quoted left [] rest h = refl
skip_fields-quoted left (c ∷ s) rest (n, h) = ground (arith, n, skip_fields-quoted left s rest h)

skip_fields-item :
    (left : ℕ) (i : Item) (rest : Text)
    → IsItem i
    → skip_fields (suc left) false (item i ++ rest) ≡ skip_fields (suc left) false rest
unfolding skip_fields
skip_fields-item left (number n) rest h =
    skip_fields-AllDigits left (decimal n) rest (decimal-AllDigits n (omega (arith, h))).0
skip_fields-item left (quoted s) rest h =
    ap (skip_fields (suc left) true) (append_assoc s (b'"' ∷ []) rest)
    ∙ skip_fields-quoted left s (b'"' ∷ rest) h

-- The field at the cursor, at the end and before the next one.
number_at-item :
    (i : Item) (rest : Text)
    → IsItem i
    → Stops rest
    → number_at (skip_spaces (item i ++ rest)) ≡ number_of i
unfolding number_at starts_number skip_spaces
number_at-item (number n) rest h k = number_at-decimal n rest h k
number_at-item (quoted s) rest h k = refl

number_at-items :
    (i : Item) (is : List Item) → IsItem i → number_at (skip_spaces (items (i ∷ is))) ≡ number_of i
unfolding is_digit
number_at-items i [] h =
    ap (λ s. number_at (skip_spaces s)) (sym (append-nil (item i))) ∙ number_at-item i [] h tt
number_at-items i (j ∷ is) h = number_at-item i (b',' ∷ items (j ∷ is)) h refl

abbrev at_field : Option Text → Option ℤ
at_field none = none
at_field (some s) = number_at (skip_spaces s)

number_at_end : number_at [] ≡ none
unfolding number_at starts_number
number_at_end = refl

at_field-items :
    (is : List Item) (k : ℕ)
    → AllItems is
    → at_field (skip_fields k false (items is)) ≡ nth_number is k
unfolding skip_fields skip_spaces
at_field-items [] zero h = number_at_end
at_field-items [] (suc k) h = refl
at_field-items (i ∷ is) zero (h, _) = number_at-items i is h
at_field-items (i ∷ []) (suc k) (h, _) =
    ap (λ s. at_field (skip_fields (suc k) false s)) (sym (append-nil (item i)))
    ∙ ap at_field (skip_fields-item k i [] h)
at_field-items (i ∷ j ∷ is) (suc k) (h, hs) =
    ap at_field (skip_fields-item k i (b',' ∷ items (j ∷ is)) h) ∙ at_field-items (j ∷ is) k hs

skip_spaces-item :
    (i : Item) (rest : Text) → IsItem i → skip_spaces (item i ++ rest) ≡ item i ++ rest
unfolding skip_spaces
skip_spaces-item (number n) rest h =
    let (all, some_digits) = decimal-AllDigits n (omega (arith, h)) in
    skip_spaces-AllDigits (decimal n) rest all some_digits
skip_spaces-item (quoted s) rest h = refl

skip_spaces-items : (is : List Item) → AllItems is → skip_spaces (b' ' ∷ items is) ≡ items is
unfolding skip_spaces
skip_spaces-items [] h = refl
skip_spaces-items (i ∷ []) (h, _) =
    ap skip_spaces (sym (append-nil (item i))) ∙ skip_spaces-item i [] h ∙ append-nil (item i)
skip_spaces-items (i ∷ j ∷ is) (h, _) = skip_spaces-item i (b',' ∷ items (j ∷ is)) h

-- On a line of a prefix without a colon, a colon, a space and fields with commas between them, each a
-- printed number below 2^31 or a quoted string without quotes, ec200_at_parse_int_field gives the number
-- in the field of the index, and fails on a quoted field and behind the last one.
pub parse_int_field-nth_number :
    (prefix : Text) (is : List Item) (k : ℕ)
    → Free b':' prefix
    → AllItems is
    → parse_int_field (reply_line prefix is) k ≡ nth_number is k
unfolding parse_int_field
parse_int_field-nth_number prefix is k free h =
    ap (λ s. at_field (skip_fields k false (skip_spaces s)))
      (after_colon-append prefix (b' ' ∷ items is) free)
    ∙ ap (λ s. at_field (skip_fields k false s)) (skip_spaces-items is h)
    ∙ at_field-items is k h
