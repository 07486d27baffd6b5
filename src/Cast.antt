-- ===== src/Cast.antt =====
-- The casts of C between integer types.
use ec200_at_abstraction.Prelude.{ℕ, ◌-◌, ◌%◌, ◌^◌, ℤ, pos, negsuc, ltb, if◌then◌else◌}

-- The cast of an int to an unsigned type of `bits` bits.
unfoldable pub to_unsigned : ℕ → ℤ → ℕ
to_unsigned bits (pos n) = n % 2 ^ bits
to_unsigned bits (negsuc n) = 2 ^ bits - 1 - n % 2 ^ bits

-- The cast of an int to a signed type of `bits` bits.
unfoldable pub to_signed : ℕ → ℤ → ℤ
unfolding to_unsigned
to_signed bits z =
    let u = to_unsigned bits z in
    if ltb u (2 ^ (bits - 1)) then pos u else negsuc (2 ^ bits - 1 - u)
