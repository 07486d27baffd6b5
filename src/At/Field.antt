-- ===== src/At/Field.antt =====
-- src/ec200_at.c: ec200_at_parse_int_field.
use ec200_at_abstraction.Prelude.{
  ℕ, zero, suc, ℤ, Bool, true, false, not, ◌&&◌, ◌||◌, [], ◌∷◌, Option, none, some, ◌==◌,
  if◌then◌else◌,
}
use ec200_at_abstraction.Text.{Text, find_char, skip_spaces, is_digit, atoi}

-- p = strchr(line, ':'); p = (p != NULL) ? (p + 1) : line
unfoldable pub after_colon : Text → Text
after_colon line = elim (find_char b':' line) [
  | none ↦ line
  | some [] ↦ line
  | some (_ ∷ rest) ↦ rest
]

-- `while (field < index)` on the fields left to skip: the rest behind as many commas outside quotes, or
-- `none` at the end of the line.
unfoldable pub skip_fields : ℕ → Bool → Text → Option Text
skip_fields zero quoted s = some s
skip_fields (suc left) quoted [] = none
skip_fields (suc left) quoted (c ∷ s) = elim (c == b'"') [
  | true ↦ skip_fields (suc left) (not quoted) s
  | false ↦ elim (c == b',' && not quoted) [
    | true ↦ skip_fields left quoted s
    | false ↦ skip_fields (suc left) quoted s
  ]
]

-- *p == '-' || (*p >= '0' && *p <= '9')
unfoldable pub starts_number : Text → Bool
unfolding is_digit
starts_number [] = false
starts_number (c ∷ s) = c == b'-' || is_digit c

unfoldable pub number_at : Text → Option ℤ
number_at s = if starts_number s then some (atoi s) else none

-- ec200_at_parse_int_field: `none` is EC200_ERR_PARSE, which leaves `*value` alone.
unfoldable pub parse_int_field : Text → ℕ → Option ℤ
unfolding number_at
parse_int_field line index = elim (skip_fields index false (skip_spaces (after_colon line))) [
  | none ↦ none
  | some s ↦ number_at (skip_spaces s)
]
