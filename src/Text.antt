-- ===== src/Text.antt =====
-- NUL-terminated C strings and byte arrays, and the functions of string.h, stdlib.h and stdio.h that
-- the sources call. A string is the list of its bytes before the NUL; an array that holds a string is
-- the list of all its cells.
pub mod Laws
pub mod Decimal
pub mod Scanf
use Prim.Native.Char.{code}
use Prim.Native.String.{String}
use ec200_at_abstraction.Prelude.{
  ℕ, zero, suc, ◌+◌, ◌-◌, ◌*◌, ◌/◌, ◌%◌, ℤ, pos, negsuc, neg, Bool, true, false, ◌&&◌, ◌||◌, List,
  [], ◌∷◌, ◌++◌, Option, none, some, leb, ◌==◌, if◌then◌else◌, length, take, drop,
}

abbrev pub Text : Type 0
Text = List ℕ

-- The bytes of an ASCII literal.
abbrev pub codes : String → Text
codes String.[] = []
codes (String.◌∷◌ c s) = code c ∷ codes s

-- The string that an array holds: its cells up to the first NUL.
unfoldable pub c_str : List ℕ → Text
c_str [] = []
c_str (b ∷ bs) = if b == 0 then [] else b ∷ c_str bs

-- strcmp(s, t) == 0
unfoldable pub text_eq : Text → Text → Bool
text_eq [] [] = true
text_eq [] (_ ∷ _) = false
text_eq (_ ∷ _) [] = false
text_eq (a ∷ s) (b ∷ t) = a == b && text_eq s t

-- strncmp(line, prefix, strlen(prefix)) == 0
unfoldable pub starts_with : Text → Text → Bool
starts_with [] line = true
starts_with (_ ∷ _) [] = false
starts_with (p ∷ prefix) (c ∷ line) = p == c && starts_with prefix line

-- strchr(s, c): the rest of the string from the first `c` on.
unfoldable pub find_char : ℕ → Text → Option Text
find_char c [] = none
find_char c (b ∷ s) = if b == c then some (b ∷ s) else find_char c s

-- q = strchr(s, c), as the string before `q` and the string behind it.
unfoldable pub cut : ℕ → Text → Option (Text × Text)
cut c [] = none
cut c (b ∷ s) =
    if b == c
    then some ([], s)
    else elim (cut c s) [ none ↦ none | some (before, rest) ↦ some (b ∷ before, rest) ]

-- q = strrchr(s, c), as the string before `q`.
unfoldable pub cut_last : ℕ → Text → Option Text
cut_last c [] = none
cut_last c (b ∷ s) = elim (cut_last c s) [
  | some before ↦ some (b ∷ before)
  | none ↦ if b == c then some [] else none
]

-- strstr(s, t): the rest of the string from the first place where `t` stands.
unfoldable pub find_text : Text → Text → Option Text
find_text t [] = if starts_with t [] then some [] else none
find_text t (b ∷ s) = if starts_with t (b ∷ s) then some (b ∷ s) else find_text t s

-- `while (*p == ' ') p++;`
unfoldable pub skip_spaces : Text → Text
skip_spaces [] = []
skip_spaces (b ∷ s) = if b == b' ' then skip_spaces s else b ∷ s

unfoldable pub is_digit : ℕ → Bool
is_digit c = leb b'0' c && leb c b'9'

-- The value of the leading digits of a string, behind `n`.
unfoldable pub digits_value : ℕ → Text → ℕ
unfolding is_digit
digits_value n [] = n
digits_value n (c ∷ s) =
    let rest = digits_value (n * 10 + (c - b'0')) s in if is_digit c then rest else n

-- isspace
unfoldable pub is_space : ℕ → Bool
is_space c = c == b' ' || leb 9 c && leb c 13

unfoldable pub skip_white : Text → Text
unfolding is_space
skip_white [] = []
skip_white (b ∷ s) = if is_space b then skip_white s else b ∷ s

unfoldable pub atoi_signed : Text → ℤ
atoi_signed [] = pos 0
atoi_signed (c ∷ s) =
    if c == b'-'
    then neg (digits_value 0 s)
    else if c == b'+'
    then pos (digits_value 0 s)
    else pos (digits_value 0 (c ∷ s))

-- atoi: white space, a sign, digits. C leaves a value outside `int` undefined; the integer itself
-- stands here.
unfoldable pub atoi : Text → ℤ
unfolding atoi_signed digits_value skip_white
atoi s = atoi_signed (skip_white s)

unfoldable pub skip_digits : Text → Text
unfolding is_digit
skip_digits [] = []
skip_digits (c ∷ s) = if is_digit c then skip_digits s else c ∷ s

-- The digits of strtol behind the sign; `none`: there is no number.
unfoldable pub strtol_digits : (ℕ → ℤ) → Text → Option (ℤ × Text)
unfolding digits_value skip_digits is_digit
strtol_digits sign [] = none
strtol_digits sign (c ∷ s) =
    if is_digit c then some (sign (digits_value 0 (c ∷ s)), skip_digits (c ∷ s)) else none

unfoldable pub strtol_signed : Text → Option (ℤ × Text)
unfolding strtol_digits
strtol_signed [] = none
strtol_signed (c ∷ s) =
    if c == b'-'
    then strtol_digits neg s
    else if c == b'+'
    then strtol_digits pos s
    else strtol_digits pos (c ∷ s)

-- strtol(s, &end, 10), as the number and the rest of the string; `none` is `end == s`. C cuts a value
-- outside `long`; the integer itself stands here.
unfoldable pub strtol : Text → Option (ℤ × Text)
unfolding strtol_signed skip_white
strtol s = strtol_signed (skip_white s)

-- memcpy(dst + at, src, n): a write past the end of `dst` would make the array longer.
unfoldable pub memcpy_at : ℕ → List ℕ → List ℕ → List ℕ
memcpy_at at src dst = take at dst ++ (src ++ drop (at + length src) dst)

-- The decimal digits of a number below 10 ^ fuel.
unfoldable pub decimal_digits : ℕ → ℕ → Text → Text
decimal_digits zero n out = out
decimal_digits (suc fuel) n out =
    let more = decimal_digits fuel (n / 10) ((b'0' + n % 10) ∷ out) in
    if leb 10 n then more else (b'0' + n % 10) ∷ out

-- "%u" of a 32-bit number.
unfoldable pub decimal : ℕ → Text
unfolding decimal_digits
decimal n = decimal_digits 10 n []

-- "%d" of a 32-bit number.
unfoldable pub decimal_ℤ : ℤ → Text
unfolding decimal
decimal_ℤ (pos n) = decimal n
decimal_ℤ (negsuc n) = b'-' ∷ decimal (suc n)
