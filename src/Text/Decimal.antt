-- ===== src/Text/Decimal.antt =====
-- A number that snprintf printed is read back by atoi and strtol.
use ec200_at_abstraction.Prelude.{
  ℕ, ℤ, zero, suc, ◌+◌, ◌-◌, ◌*◌, ◌/◌, ◌%◌, ◌^◌, ◌≤◌, ◌<◌, ◌≡◌, refl, ◌∙◌, ap, pos, true, false, [],
  ◌∷◌, ◌++◌, some, leb, ◌==◌, if-elim, if_true, if_false, length, arith, Bool-cases, inl, inr,
}
use ec200_at_abstraction.Text.{
  Text, is_digit, digits_value, is_space, skip_white, skip_digits, atoi, atoi_signed, strtol,
  strtol_signed, strtol_digits, decimal, decimal_digits,
}

-- `n` has at most `digits` digits.
abbrev Fits : ℕ → ℕ → Type 0
Fits zero n = ⊥
Fits (suc digits) n = 10 ≤ n → Fits digits (n / 10)

ten_digits : (n : ℕ) → n < 2 ^ 32 → Fits 10 n
ten_digits n h = λ _ _ _ _ _ _ _ _ _ k. omega arith

abbrev pub AllDigits : Text → Type 0
AllDigits [] = Unit
AllDigits (c ∷ s) = (is_digit c ≡ true) × AllDigits s

-- The text does not go on with a digit.
abbrev pub Stops : Text → Type 0
Stops [] = Unit
Stops (c ∷ s) = is_digit c ≡ false

digit_is_digit : (n : ℕ) → n < 10 → is_digit (b'0' + n) ≡ true
unfolding is_digit
digit_is_digit n h = ground arith

digits_value-decimal_digits :
    (digits n : ℕ) (out : Text)
    → Fits digits n
    → digits_value 0 (decimal_digits digits n out) ≡ digits_value n out
unfolding decimal_digits digits_value
digits_value-decimal_digits zero n out h = absurd h
digits_value-decimal_digits (suc digits) n out h =
    if-elim (λ t. digits_value 0 t ≡ digits_value n out) (leb 10 n) _ _
      (λ l.
        digits_value-decimal_digits digits (n / 10) _ (h (ground (arith, l)))
        ∙ step (n / 10) (n % 10) (omega arith)
        ∙ ap (λ k. digits_value k out) (omega arith))
      λ l. step 0 (n % 10) (omega arith) ∙ ap (λ k. digits_value k out) (ground (arith, l))
  where
    step :
        (m k : ℕ)
        → k < 10
        → digits_value m ((b'0' + k) ∷ out) ≡ digits_value (m * 10 + (b'0' + k - b'0')) out
    step m k l = if_true (is_digit (b'0' + k)) _ _ (digit_is_digit k l)

decimal_digits-append :
    (digits n : ℕ) (out rest : Text)
    → Fits digits n
    → decimal_digits digits n out ++ rest ≡ decimal_digits digits n (out ++ rest)
unfolding decimal_digits
decimal_digits-append zero n out rest h = absurd h
decimal_digits-append (suc digits) n out rest h = elim (Bool-cases (leb 10 n)) [
  | inl l ↦
      rw l
        (decimal_digits-append digits (n / 10) ((b'0' + n % 10) ∷ out) rest (h (ground (arith, l))))
  | inr l ↦ rw l refl
]

decimal_digits-AllDigits :
    (digits n : ℕ) (out : Text)
    → AllDigits out
    → Fits digits n
    → AllDigits (decimal_digits digits n out) × (length out < length (decimal_digits digits n out))
unfolding decimal_digits
decimal_digits-AllDigits zero n out d h = absurd h
decimal_digits-AllDigits (suc digits) n out d h =
    let one : AllDigits ((b'0' + n % 10) ∷ out) = (digit_is_digit (n % 10) (omega arith), d) in
    if-elim (λ t. AllDigits t × (length out < length t)) (leb 10 n) _ _
      (λ l.
        let (all, more) =
          decimal_digits-AllDigits digits (n / 10) ((b'0' + n % 10) ∷ out) one
            (h (ground (arith, l))) in
        (all, omega arith))
      λ _. (one, omega arith)

-- The value of digits that stop.
digits_value-Stops : (n : ℕ) (rest : Text) → Stops rest → digits_value n rest ≡ n
unfolding digits_value
digits_value-Stops n [] h = refl
digits_value-Stops n (c ∷ rest) h = if_false (is_digit c) _ _ h

pub digits_value-decimal :
    (n : ℕ) (rest : Text) → n < 2 ^ 32 → Stops rest → digits_value 0 (decimal n ++ rest) ≡ n
unfolding decimal
digits_value-decimal n rest h k =
    ap (digits_value 0) (decimal_digits-append 10 n [] rest (ten_digits n h))
    ∙ digits_value-decimal_digits 10 n rest (ten_digits n h)
    ∙ digits_value-Stops n rest k

pub decimal-AllDigits : (n : ℕ) → n < 2 ^ 32 → AllDigits (decimal n) × (0 < length (decimal n))
unfolding decimal
decimal-AllDigits n h = decimal_digits-AllDigits 10 n [] tt (ten_digits n h)

skip_digits-append : (d rest : Text) → AllDigits d → Stops rest → skip_digits (d ++ rest) ≡ rest
unfolding skip_digits
skip_digits-append [] [] a h = refl
skip_digits-append [] (c ∷ rest) a h = if_false (is_digit c) _ _ h
skip_digits-append (c ∷ d) rest (a, as_digits) h =
    if_true (is_digit c) _ _ a ∙ skip_digits-append d rest as_digits h

-- A digit is no white space and no sign.
digit_first :
    (c : ℕ)
    → is_digit c ≡ true
    → (is_space c ≡ false) × ((c == b'-') ≡ false) × ((c == b'+') ≡ false)
unfolding is_digit is_space
digit_first c h = ground (arith, h)

atoi-AllDigits :
    (d rest : Text)
    → AllDigits d
    → 0 < length d
    → atoi (d ++ rest) ≡ pos (digits_value 0 (d ++ rest))
unfolding atoi skip_white atoi_signed
atoi-AllDigits [] rest a l = absurd (omega arith)
atoi-AllDigits (c ∷ d) rest (a, _) l =
    let (no_space, no_minus, no_plus) = digit_first c a in
    ap atoi_signed (if_false (is_space c) _ _ no_space)
    ∙ if_false (c == b'-') _ _ no_minus
    ∙ if_false (c == b'+') _ _ no_plus

-- The digits of a printed number, behind a sign.
pub strtol_digits-AllDigits :
    (sign : ℕ → ℤ) (d rest : Text)
    → AllDigits d
    → 0 < length d
    → Stops rest
    → strtol_digits sign (d ++ rest) ≡ some (sign (digits_value 0 (d ++ rest)), rest)
unfolding strtol_digits
strtol_digits-AllDigits sign [] rest a l h = absurd (omega arith)
strtol_digits-AllDigits sign (c ∷ d) rest (a, as_digits) l h =
    if_true (is_digit c) _ _ a
    ∙ ap (λ r. some (sign (digits_value 0 (c ∷ d ++ rest)), r))
        (skip_digits-append (c ∷ d) rest (a, as_digits) h)

pub strtol-AllDigits :
    (d rest : Text)
    → AllDigits d
    → 0 < length d
    → Stops rest
    → strtol (d ++ rest) ≡ some (pos (digits_value 0 (d ++ rest)), rest)
unfolding strtol skip_white strtol_signed
strtol-AllDigits [] rest a l h = absurd (omega arith)
strtol-AllDigits (c ∷ d) rest (a, as_digits) l h =
    let (no_space, no_minus, no_plus) = digit_first c a in
    ap strtol_signed (if_false (is_space c) _ _ no_space)
    ∙ if_false (c == b'-') _ _ no_minus
    ∙ if_false (c == b'+') _ _ no_plus
    ∙ strtol_digits-AllDigits pos (c ∷ d) rest (a, as_digits) l h

-- atoi reads a printed number back.
pub atoi-decimal :
    (n : ℕ) (rest : Text) → n < 2 ^ 32 → Stops rest → atoi (decimal n ++ rest) ≡ pos n
atoi-decimal n rest h k =
    let (all, some_digits) = decimal-AllDigits n h in
    atoi-AllDigits (decimal n) rest all some_digits ∙ ap pos (digits_value-decimal n rest h k)

-- strtol reads a printed number back, and stops behind it.
pub strtol-decimal :
    (n : ℕ) (rest : Text)
    → n < 2 ^ 32
    → Stops rest
    → strtol (decimal n ++ rest) ≡ some (pos n, rest)
strtol-decimal n rest h k =
    let (all, some_digits) = decimal-AllDigits n h in
    strtol-AllDigits (decimal n) rest all some_digits k
    ∙ ap (λ v. some (pos v, rest)) (digits_value-decimal n rest h k)
