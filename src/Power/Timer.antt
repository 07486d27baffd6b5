-- ===== src/Power/Timer.antt =====
-- src/ec200_power.c: the 3GPP timer octets of the power saving mode, as strings of eight bits.
use ec200_at_abstraction.Prelude.{
  ℕ, zero, suc, ◌+◌, ◌-◌, ◌*◌, ◌/◌, ◌%◌, ◌^◌, Bool, true, false, not, ◌||◌, List, [], ◌∷◌, ◌++◌,
  Option, none, some, ltb, leb, ◌==◌, if◌then◌else◌, length,
}
use ec200_at_abstraction.Text.{Text, memcpy_at}
use ec200_at_abstraction.Handle.{Status, ok, err_param}

-- psm_unit_t
pub record PsmUnit : Type 0 where
  pub code : ℕ
  pub seconds : ℕ

abbrev unit : ℕ → ℕ → PsmUnit
unit code seconds = record { code = code; seconds = seconds }

-- tau_units
abbrev pub tau_units : List PsmUnit
tau_units =
    unit 6 1152000 ∷ unit 2 36000 ∷ unit 1 3600 ∷ unit 0 600 ∷ unit 5 60 ∷ unit 4 30 ∷ unit 3 2 ∷ []

-- active_units
abbrev pub active_units : List PsmUnit
active_units = unit 2 360 ∷ unit 1 60 ∷ unit 0 2 ∷ []

abbrev pub psm_unit_deactivated : ℕ
psm_unit_deactivated = 7

abbrev pub psm_max_multiplier : ℕ
psm_max_multiplier = 31

-- EC200_PSM_TIMER_STR_LEN
abbrev pub psm_timer_str_len : ℕ
psm_timer_str_len = 9

-- The loop of psm_write_bits on the bits from bit `left - 1` down; `octet & (1 << k)` is read off as the
-- remainder of `octet / 2 ^ k`.
unfoldable pub bits_from : ℕ → ℕ → Text
bits_from zero octet = []
bits_from (suc k) octet = (if (octet / 2 ^ k) % 2 == 0 then b'0' else b'1') ∷ bits_from k octet

-- psm_write_bits
unfoldable pub psm_write_bits : ℕ → ℕ → List ℕ → List ℕ
unfolding bits_from
psm_write_bits code mult out =
    let octet = (code % 8 * 32 + mult % 32) % 2 ^ 8 in
    memcpy_at 0 (bits_from 8 octet ++ (0 ∷ [])) out

-- The loop of psm_encode, with the error behind it.
unfoldable pub encode_in : ℕ → List PsmUnit → List ℕ → Status × List ℕ
encode_in seconds [] out = (err_param, out)
encode_in seconds (u ∷ units) out =
    let next = encode_in seconds units out in
    let mult = seconds / u.seconds in
    if not (seconds % u.seconds == 0)
    then next
    else if leb mult psm_max_multiplier
    then (ok, psm_write_bits u.code (mult % 2 ^ 8) out)
    else next

-- psm_encode into an array; a NULL array is `none`.
unfoldable pub psm_encode : ℕ → List PsmUnit → Option (List ℕ) → Status × Option (List ℕ)
psm_encode seconds units none = (err_param, none)
psm_encode seconds units (some out) =
    let (st, out') = encode_in seconds units out in
    if ltb (length out) psm_timer_str_len
    then (err_param, some out)
    else if seconds == 0
    then (ok, some (psm_write_bits psm_unit_deactivated 0 out))
    else (st, some out')

-- ec200_psm_encode_tau
abbrev pub psm_encode_tau : ℕ → Option (List ℕ) → Status × Option (List ℕ)
psm_encode_tau seconds out = psm_encode seconds tau_units out

-- ec200_psm_encode_active_time
abbrev pub psm_encode_active_time : ℕ → Option (List ℕ) → Status × Option (List ℕ)
psm_encode_active_time seconds out = psm_encode seconds active_units out

-- The first loop of ec200_psm_decode_timer, on the characters left, and its check of the NUL.
unfoldable pub decode_bits : ℕ → ℕ → Text → Option ℕ
decode_bits zero octet [] = some octet
decode_bits zero octet (c ∷ s) = none
decode_bits (suc left) octet [] = none
decode_bits (suc left) octet (c ∷ s) =
    let rest = decode_bits left ((octet * 2 + (c - b'0')) % 2 ^ 8) s in
    if c == b'0' || c == b'1' then rest else none

-- The second loop of ec200_psm_decode_timer.
unfoldable pub decode_unit : ℕ → ℕ → List PsmUnit → Option ℕ
decode_unit code mult [] = none
decode_unit code mult (u ∷ units) =
    let next = decode_unit code mult units in
    if u.code == code then some ((u.seconds * mult) % 2 ^ 32) else next

abbrev pub units_of : Bool → List PsmUnit
units_of true = tau_units
units_of false = active_units

-- ec200_psm_decode_timer behind its first loop.
unfoldable pub decode_octet : Bool → Option ℕ → Option ℕ
unfolding decode_unit
decode_octet is_tau none = none
decode_octet is_tau (some octet) =
    let code = octet / 32 % 8 in
    if code == psm_unit_deactivated then some 0 else decode_unit code (octet % 32) (units_of is_tau)

-- ec200_psm_decode_timer: `none` is EC200_ERR_PARSE, which leaves `*seconds_out` alone.
unfoldable pub psm_decode_timer : Text → Bool → Option ℕ
unfolding decode_bits decode_octet
psm_decode_timer str is_tau = decode_octet is_tau (decode_bits 8 0 str)
