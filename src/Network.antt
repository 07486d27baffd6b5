-- ===== src/Network.antt =====
-- src/ec200_network.c: registration, the service provider name and the attach state.
pub mod Registration
pub mod Signal
pub mod Operator
use ec200_at_abstraction.Prelude.{
  ℕ, zero, suc, ◌+◌, ◌-◌, ◌%◌, ◌^◌, ℤ, pos, negsuc, Bool, true, false, not, List, [], ◌∷◌, ◌++◌,
  Option, none, some, ltb, leb, ◌==◌, ◌||◌, if◌then◌else◌, length, take,
}
use ec200_at_abstraction.Text.{
  Text, codes, memcpy_at, find_char, skip_spaces, is_digit, atoi, decimal,
}
use ec200_at_abstraction.Handle.{
  Platform, Sys, Status, ok, err_param, err_parse, err_timeout, timeout_default, timeout_long,
}
use ec200_at_abstraction.Exec.{Exec, pure, ◌>>=◌}
use ec200_at_abstraction.At.Field.{parse_int_field, after_colon}
use ec200_at_abstraction.Query.{send_command, query}

-- The field that parse_reg_status reads: behind the first comma, or all of the value.
unfoldable pub reg_field : Text → Text
reg_field p = elim (find_char b',' p) [ none ↦ p | some [] ↦ p | some (_ ∷ rest) ↦ rest ]

unfoldable pub reg_number : ℤ → Option ℕ
reg_number (negsuc _) = none
reg_number (pos stat) = if ltb 5 stat then none else some stat

-- parse_reg_status: `none` is EC200_ERR_PARSE, which leaves `*status` alone; the status is the value of
-- its enumerator, 0 to 5.
unfoldable pub parse_reg_status : Text → Option ℕ
unfolding reg_field reg_number is_digit
parse_reg_status line = elim (reg_field (skip_spaces (after_colon line))) [
  | [] ↦ none
  | c ∷ field ↦ if is_digit c then reg_number (atoi (c ∷ field)) else none
]

-- EC200_REG_REGISTERED_HOME, EC200_REG_REGISTERED_ROAMING
abbrev pub is_registered : ℕ → Bool
is_registered stat = stat == 1 || stat == 5

-- ec200_net_get_cereg(h, &st) == EC200_OK && (st == HOME || st == ROAMING)
unfoldable pub reports_registered : Status × Option ℕ → Bool
reports_registered (ok, some stat) = is_registered stat
reports_registered (_, _) = false

-- The part of ec200_net_get_spn behind the query, on a caller's array that is not empty.
unfoldable pub spn_parse : Text → List ℕ → Status × List ℕ
spn_parse resp name = elim (find_char b'"' resp) [
  | none ↦ (err_parse, name)
  | some [] ↦ (err_parse, name)
  | some (_ ∷ q) ↦ elim (find_char b'"' q) [
    | none ↦ (err_parse, name)
    | some e ↦
        let len = length q - length e in
        let kept = if leb (length name) len then length name - 1 else len in
        (ok, memcpy_at 0 (take kept q ++ (0 ∷ [])) name)
  ]
]

-- The end of a registration query: `if (st != EC200_OK) return st;` and the parser.
unfoldable pub reg_received : Status × Text → Status × Option ℕ
unfolding parse_reg_status
reg_received (ok, resp) = elim (parse_reg_status resp) [
  | none ↦ (err_parse, none)
  | some stat ↦ (ok, some stat)
]
reg_received (st, resp) = (st, none)

unfoldable pub attached_received : Status × Text → Status × Option Bool
attached_received (ok, resp) = elim (parse_int_field resp 0) [
  | none ↦ (err_parse, none)
  | some (negsuc _) ↦ (ok, some false)
  | some (pos v) ↦ (ok, some (v == 1))
]
attached_received (st, resp) = (st, none)

unfoldable pub spn_received : List ℕ → Status × Text → Status × List ℕ
unfolding spn_parse
spn_received name (ok, resp) = spn_parse resp name
spn_received name (st, resp) = (st, name)

module _ {W : Type 0} (p : Platform W) (fuel : ℕ) where
  -- get_reg; `none` beside the status: `*status` is left alone.
  unfoldable pub get_reg : Text → Text → Exec W (Status × Option ℕ)
  unfolding reg_received
  get_reg cmd prefix = do
    answer ← query p fuel cmd prefix 64 timeout_default
    pure (reg_received answer)

  -- ec200_net_get_creg
  unfoldable pub net_get_creg : Exec W (Status × Option ℕ)
  net_get_creg = get_reg (codes "AT+CREG?") (codes "+CREG:")

  -- ec200_net_get_cgreg
  unfoldable pub net_get_cgreg : Exec W (Status × Option ℕ)
  net_get_cgreg = get_reg (codes "AT+CGREG?") (codes "+CGREG:")

  -- ec200_net_get_cereg
  unfoldable pub net_get_cereg : Exec W (Status × Option ℕ)
  net_get_cereg = get_reg (codes "AT+CEREG?") (codes "+CEREG:")

  -- ec200_net_get_spn; a NULL pointer is `none`.
  unfoldable pub net_get_spn : Option (List ℕ) → Exec W (Status × Option (List ℕ))
  unfolding spn_received
  net_get_spn none = pure (err_param, none)
  net_get_spn (some []) = pure (err_param, some [])
  net_get_spn (some (c ∷ name)) = do
    answer ← query p fuel (codes "AT+QSPN") (codes "+QSPN:") 128 timeout_default
    let (st, name') = spn_received (c ∷ name) answer
    pure (st, some name')

  -- ec200_net_set_attached
  unfoldable pub net_set_attached : Bool → Exec W Status
  net_set_attached attach =
      send_command p fuel (codes "AT+CGATT=" ++ (if attach then codes "1" else codes "0"))
        timeout_long

  -- ec200_net_is_attached
  unfoldable pub net_is_attached : Exec W (Status × Option Bool)
  unfolding attached_received
  net_is_attached = do
    answer ← query p fuel (codes "AT+CGATT?") (codes "+CGATT:") 48 timeout_default
    pure (attached_received answer)

  -- h->delay_ms(poll_interval, h->user_ctx)
  unfoldable pub poll_delay : Sys W → Sys W
  poll_delay s = record s { world = p.delay s.handle.delay_ms 2000 s.handle.user_ctx s.world }

  -- A round of ec200_net_wait_registered behind its query; `next` is the next round.
  unfoldable pub polled : (ℕ → Exec W Status) → ℕ → ℕ → Status × Option ℕ → Exec W Status
  unfolding poll_delay
  polled next elapsed timeout_ms answer s =
      let again = next ((elapsed + 2000) % 2 ^ 32) (poll_delay s) in
      let wait = if leb timeout_ms elapsed then some (err_timeout, s) else again in
      if reports_registered answer then some (ok, s) else wait

  -- The loop of ec200_net_wait_registered on `elapsed`, at most `rounds` times; `none`: it went on.
  unfoldable pub wait_loop : ℕ → ℕ → ℕ → Exec W Status
  unfolding polled
  wait_loop zero elapsed timeout_ms s = none
  wait_loop (suc rounds) elapsed timeout_ms s =
      let next = λ (e : ℕ). wait_loop rounds e timeout_ms in
      (net_get_cereg >>= polled next elapsed timeout_ms) s

  -- ec200_net_wait_registered
  unfoldable pub net_wait_registered : ℕ → ℕ → Exec W Status
  unfolding wait_loop
  net_wait_registered rounds timeout_ms = wait_loop rounds 0 timeout_ms
