-- ===== src/Power/Echo.antt =====
-- ec200_psm_get on a reply in the form of the command that ec200_psm_set sends.
use ec200_at_abstraction.Prelude.{
  ℕ, zero, suc, ◌+◌, ◌-◌, ◌≤◌, ◌≡◌, ◌≢◌, refl, ap, ◌∙◌, true, [], ◌∷◌, ◌++◌, length, arith,
  append_assoc,
}
use ec200_at_abstraction.Text.{
  Text, codes, c_str, memcpy_at, find_char, atoi, atoi_signed, skip_white, is_space, digits_value,
  is_digit, skip_spaces,
}
use ec200_at_abstraction.At.Field.{
  parse_int_field, number_at, after_colon, skip_fields, starts_number,
}
use ec200_at_abstraction.Text.Laws.{NoNul, c_str-append_nul}
use ec200_at_abstraction.Handle.{ok}
use ec200_at_abstraction.Power.Commands.{copy_value, copy_field, psm_parse}

-- A value without NUL, quote or comma.
abbrev pub Plain : Text → Type 0
Plain [] = Unit
Plain (c ∷ s) = (c ≢ 0) × (c ≢ b'"') × (c ≢ b',') × Plain s

pub NoNul-of_Plain : (s : Text) → Plain s → NoNul s
NoNul-of_Plain [] h = tt
NoNul-of_Plain (c ∷ s) (n, _, _, h) = (n, NoNul-of_Plain s h)

copy_value-Plain :
    (room : ℕ) (s rest : Text)
    → Plain s
    → length s ≤ room
    → copy_value room (s ++ (b'"' ∷ rest)) ≡ s
unfolding copy_value
copy_value-Plain zero [] rest h l = refl
copy_value-Plain (suc room) [] rest h l = refl
copy_value-Plain zero (c ∷ s) rest h l = absurd (omega arith)
copy_value-Plain (suc room) (c ∷ s) rest (n, q, k, h) l =
    ground (arith, copy_value-Plain room s rest h (omega arith))

pub find_char-Plain : (s rest : Text) → Plain s → find_char b',' (s ++ rest) ≡ find_char b',' rest
unfolding find_char
find_char-Plain [] rest h = refl
find_char-Plain (c ∷ s) rest (n, q, k, h) = ground (arith, find_char-Plain s rest h)

-- A value between quotes is copied whole.
quoted_value :
    (room : ℕ) (s rest out : Text)
    → Plain s
    → length s ≤ room
    → c_str (memcpy_at 0 (copy_value room (s ++ (b'"' ∷ rest)) ++ (0 ∷ [])) out) ≡ s
unfolding memcpy_at
quoted_value room s rest out h l =
    ap (λ t. c_str (memcpy_at 0 (t ++ (0 ∷ [])) out)) (copy_value-Plain room s rest h l)
    ∙ ap c_str (append_assoc s (0 ∷ []) _)
    ∙ c_str-append_nul s _ (NoNul-of_Plain s h)

-- The reply that repeats a setting.
abbrev pub psm_reply : Text → Text → Text
psm_reply tau active = codes "+CPSMS: 1,,,\"" ++ (tau ++ (codes "\",\"" ++ (active ++ codes "\"")))

tau_field :
    (tau active out : Text)
    → Plain tau
    → length tau + 1 ≤ length out
    → c_str (copy_field (psm_reply tau active) 3 out) ≡ tau
unfolding copy_field after_colon find_char skip_spaces
tau_field tau active out h l = quoted_value (length out - 1) tau _ out h (omega arith)

active_field :
    (tau active out : Text)
    → Plain tau
    → Plain active
    → length active + 1 ≤ length out
    → c_str (copy_field (psm_reply tau active) 4 out) ≡ active
unfolding copy_field after_colon find_char skip_spaces
active_field tau active out h k l =
    rw (copy_field, find_char-Plain tau (b'"' ∷ b',' ∷ b'"' ∷ (active ++ codes "\"")) h)
      (quoted_value (length out - 1) active [] out k (omega arith))

-- Two timers of at most eight characters, none of them NUL, a quote or a comma, that the module reports in
-- the form of ec200_psm_set's command are stored in the configuration as they are, and PSM is enabled.
pub psm_parse_lem :
    (tau active : Text)
    → Plain tau
    → Plain active
    → length tau ≤ 8
    → length active ≤ 8
    → let (st, cfg) = psm_parse (psm_reply tau active) in
      (st ≡ ok)
      × (cfg.enabled ≡ true)
      × (c_str cfg.periodic_tau ≡ tau)
      × (c_str cfg.active_time ≡ active)
unfolding psm_parse parse_int_field number_at after_colon skip_fields skip_spaces find_char
    starts_number atoi atoi_signed skip_white is_space digits_value is_digit
psm_parse_lem tau active h k l m = (
  refl,
  refl,
  tau_field tau active _ h (omega arith),
  active_field tau active _ h k (omega arith),
)
