-- ===== src/Time/Printed.antt =====
-- The numbers that ec200_time_set prints, as sscanf reads them.
use ec200_at_abstraction.Prelude.{
  ℕ, suc, ◌^◌, ◌<◌, ◌≡◌, ap, ◌∙◌, ℤ, pos, negsuc, neg, Option, some, arith, ltb, List, [], ◌∷◌,
  ◌++◌, ◌+◌, length, if-elim, refl,
}
use ec200_at_abstraction.Text.{
  Text, strtol, strtol_signed, skip_white, is_space, is_digit, digits_value,
}
use ec200_at_abstraction.Text.Decimal.{
  AllDigits, Stops, decimal-AllDigits, digits_value-decimal, strtol-AllDigits,
  strtol_digits-AllDigits,
}
use ec200_at_abstraction.Text.Scanf.{scan_mark, scan_numbers, scan_numbers-strtol}
use ec200_at_abstraction.Time.{two_digits, zone}

-- A number that int8_t holds.
abbrev pub IsInt8 : ℤ → Type 0
IsInt8 (pos n) = n < 128
IsInt8 (negsuc n) = n < 128

-- Two printed digits, or more.
two_digits-Digits :
    (n : ℕ) (rest : Text)
    → n < 2 ^ 32
    → Stops rest
    → AllDigits (two_digits n)
      × (0 < length (two_digits n))
      × (digits_value 0 (two_digits n ++ rest) ≡ n)
unfolding digits_value
two_digits-Digits n rest h k =
    let (digits, some_digits) = decimal-AllDigits n h in
    if-elim (λ t. AllDigits t × (0 < length t) × (digits_value 0 (t ++ rest) ≡ n)) (ltb n 10) _ _
      (λ _. ((refl, digits), omega arith, digits_value-decimal n rest h k))
      (λ _. (digits, some_digits, digits_value-decimal n rest h k))

strtol-two_digits :
    (n : ℕ) (rest : Text)
    → n < 2 ^ 32
    → Stops rest
    → strtol (two_digits n ++ rest) ≡ some (pos n, rest)
strtol-two_digits n rest h k =
    let (digits, more, value) = two_digits-Digits n rest h k in
    strtol-AllDigits (two_digits n) rest digits more k ∙ ap (λ v. some (pos v, rest)) value

pub strtol-zone :
    (z : ℤ) (rest : Text) → IsInt8 z → Stops rest → strtol (zone z ++ rest) ≡ some (z, rest)
unfolding strtol strtol_signed skip_white is_space
strtol-zone (pos n) rest h k =
    let (digits, more, value) = two_digits-Digits n rest (omega arith) k in
    strtol_digits-AllDigits pos (two_digits n) rest digits more k
    ∙ ap (λ v. some (pos v, rest)) value
strtol-zone (negsuc n) rest h k =
    let (digits, more, value) = two_digits-Digits (n + 1) rest (omega arith) k in
    strtol_digits-AllDigits neg (two_digits (n + 1)) rest digits more k
    ∙ ap (λ v. some (neg v, rest)) (value ∙ suc_at n)
  where
    suc_at : (n : ℕ) → n + 1 ≡ suc n
    suc_at n = omega arith

pub zone-Stops : (z : ℤ) (rest : Text) → Stops (zone z ++ rest)
unfolding is_digit
zone-Stops (pos n) rest = refl
zone-Stops (negsuc n) rest = refl

pub scan_numbers-done : (rest : Text) → scan_numbers [] rest ≡ []
unfolding scan_numbers
scan_numbers-done rest = refl

-- A conversion of a printed number, behind its character or at the start.
pub scan_numbers-two_digits :
    (m : Option ℕ) (marks : List (Option ℕ)) (s : Text) (n : ℕ) (rest : Text)
    → scan_mark m s ≡ some (two_digits n ++ rest)
    → n < 2 ^ 32
    → Stops rest
    → scan_numbers (m ∷ marks) s ≡ pos n ∷ scan_numbers marks rest
scan_numbers-two_digits m marks s n rest e h k =
    scan_numbers-strtol m marks s (two_digits n ++ rest) rest (pos n) e
      (strtol-two_digits n rest h k)
