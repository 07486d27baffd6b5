-- ===== src/At/Terminal.antt =====
-- src/ec200_at.c: record_error, is_terminal and map_error_terminal, the reading of result codes.
use ec200_at_abstraction.Prelude.{
  ℕ, ◌-◌, ℤ, minus_one, Bool, true, false, ◌&&◌, List, [], ◌∷◌, ◌++◌, leb, ◌==◌, if◌then◌else◌,
  length, take, drop,
}
use ec200_at_abstraction.Text.{
  Text, codes, text_eq, starts_with, skip_spaces, is_digit, atoi, memcpy_at, c_str,
}
use ec200_at_abstraction.Handle.{Handle, Status, err_cme, err_cms, err_module, max_err_text_len}

-- The result of is_terminal: 0, 1 and 2.
pub data Terminal : Type 0 where
  neither success failure : Terminal

abbrev pub ok_line : Text
ok_line = codes "OK"

abbrev pub error_line : Text
error_line = codes "ERROR"

abbrev pub no_carrier_line : Text
no_carrier_line = codes "NO CARRIER"

abbrev pub cme_prefix : Text
cme_prefix = codes "+CME ERROR:"

abbrev pub cms_prefix : Text
cms_prefix = codes "+CMS ERROR:"

-- The loop over `p`, with `numeric` still true.
unfoldable pub all_digits : Text → Bool
unfolding is_digit
all_digits [] = true
all_digits (c ∷ s) = is_digit c && all_digits s

unfoldable pub is_numeric : Text → Bool
unfolding all_digits is_digit
is_numeric [] = false
is_numeric (c ∷ s) = is_digit c && all_digits (c ∷ s)

-- The part of record_error that sets `*code`.
unfoldable pub error_code : Text → ℤ
error_code payload =
    let text = skip_spaces payload in if is_numeric text then atoi text else minus_one

-- The part of record_error that fills `_last_err_text`.
unfoldable pub store_error_text : Text → List ℕ → List ℕ
store_error_text payload dst =
    let text = skip_spaces payload in
    let len = if leb max_err_text_len (length text) then max_err_text_len - 1 else length text in
    memcpy_at 0 (take len text ++ (0 ∷ [])) dst

-- is_terminal; record_error writes through a pointer to one of the two code fields.
unfoldable pub is_terminal : Handle → Text → Terminal × Handle
is_terminal h line =
    if text_eq line ok_line
    then (success, h)
    else if text_eq line error_line
    then (failure, h)
    else if text_eq line no_carrier_line
    then (failure, h)
    else if starts_with cme_prefix line
    then (
      failure,
      record h {
        last_cme_error = error_code (drop 11 line);
        last_err_text = store_error_text (drop 11 line) h.last_err_text;
        last_err_kind = 1;
      },
    )
    else if starts_with cms_prefix line
    then (
      failure,
      record h {
        last_cms_error = error_code (drop 11 line);
        last_err_text = store_error_text (drop 11 line) h.last_err_text;
        last_err_kind = 2;
      },
    )
    else (neither, h)

unfoldable pub map_error_terminal : Handle → Status
map_error_terminal h =
    if h.last_err_kind == 1 then err_cme else if h.last_err_kind == 2 then err_cms else err_module

-- ec200_at_last_error_text, ec200_at_last_cme_error, ec200_at_last_cms_error
abbrev pub last_error_text : Handle → Text
last_error_text h = c_str h.last_err_text

abbrev pub last_cme_error : Handle → ℤ
last_cme_error h = h.last_cme_error

abbrev pub last_cms_error : Handle → ℤ
last_cms_error h = h.last_cms_error
