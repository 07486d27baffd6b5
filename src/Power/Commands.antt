-- ===== src/Power/Commands.antt =====
-- src/ec200_power.c: the functional level, the power saving mode and extended DRX.
use ec200_at_abstraction.Prelude.{
  ℕ, zero, suc, ◌-◌, ℤ, pos, negsuc, Bool, true, false, not, ◌||◌, List, [], ◌∷◌, ◌++◌, Option,
  none, some, ◌==◌, if◌then◌else◌, length, replicate,
}
use ec200_at_abstraction.Text.{Text, codes, c_str, memcpy_at, find_char, skip_spaces, decimal_ℤ}
use ec200_at_abstraction.Handle.{
  Platform, Status, ok, err_param, err_parse, timeout_default, timeout_long,
}
use ec200_at_abstraction.Exec.{Exec, pure, ◌>>=◌}
use ec200_at_abstraction.At.Field.{parse_int_field, after_colon}
use ec200_at_abstraction.Query.{send_command, query}

-- The two ways in which a Boolean is printed.
abbrev bit : Bool → Text
bit true = codes "1"
bit false = codes "0"

-- The `index` jumps over commas in copy_field; `none`: a field is missing.
unfoldable pub skip_commas : ℕ → Text → Option Text
skip_commas zero p = some p
skip_commas (suc index) p = elim (find_char b',' p) [
  | none ↦ none
  | some [] ↦ none
  | some (_ ∷ rest) ↦ skip_commas index rest
]

unfoldable pub skip_quote : Text → Text
skip_quote [] = []
skip_quote (c ∷ p) = if c == b'"' then p else c ∷ p

-- The copying loop of copy_field, with `room` cells left for characters.
unfoldable pub copy_value : ℕ → Text → Text
copy_value zero p = []
copy_value (suc room) [] = []
copy_value (suc room) (c ∷ p) =
    let rest = copy_value room p in if c == b'"' || c == b',' then [] else c ∷ rest

-- copy_field; the result is the array.
unfoldable pub copy_field : Text → ℕ → List ℕ → List ℕ
unfolding skip_commas skip_quote copy_value
copy_field line index out = elim (skip_commas index (after_colon line)) [
  | none ↦ memcpy_at 0 (0 ∷ []) out
  | some p ↦ memcpy_at 0 (copy_value (length out - 1) (skip_quote (skip_spaces p)) ++ (0 ∷ [])) out
]

-- ec200_psm_config_t
pub record PsmConfig : Type 0 where
  pub enabled : Bool
  pub periodic_tau : List ℕ
  pub active_time : List ℕ

-- memset(cfg, 0, sizeof(*cfg))
abbrev pub psm_cleared : PsmConfig
psm_cleared = record { enabled = false; periodic_tau = replicate 9 0; active_time = replicate 9 0 }

-- ec200_edrx_config_t
pub record EdrxConfig : Type 0 where
  pub enabled : Bool
  pub act_type : ℤ
  pub requested : List ℕ

abbrev pub edrx_cleared : EdrxConfig
edrx_cleared = record { enabled = false; act_type = pos 0; requested = replicate 5 0 }

-- ec200_edrx_dynamic_t
pub record EdrxDynamic : Type 0 where
  pub act_type : ℤ
  pub requested : List ℕ
  pub granted : List ℕ
  pub paging_time_window : List ℕ

abbrev pub edrx_dynamic_cleared : EdrxDynamic
edrx_dynamic_cleared = record {
  act_type = pos 0;
  requested = replicate 5 0;
  granted = replicate 5 0;
  paging_time_window = replicate 5 0;
}

-- mode != 0
abbrev pub nonzero : ℤ → Bool
nonzero (pos n) = not (n == 0)
nonzero (negsuc _) = true

-- edrx_act_valid
unfoldable pub edrx_act_valid : ℤ → Bool
edrx_act_valid (negsuc _) = false
edrx_act_valid (pos act) = act == 2 || (act == 3 || (act == 4 || act == 5))

-- The part of ec200_psm_get behind the query.
unfoldable pub psm_parse : Text → Status × PsmConfig
unfolding copy_field
psm_parse resp = elim (parse_int_field resp 0) [
  | none ↦ (err_parse, psm_cleared)
  | some mode ↦ (
    ok,
    record {
      enabled = nonzero mode;
      periodic_tau = copy_field resp 3 psm_cleared.periodic_tau;
      active_time = copy_field resp 4 psm_cleared.active_time;
    },
  )
]

-- The part of ec200_edrx_get behind the query.
unfoldable pub edrx_parse : Text → Status × EdrxConfig
unfolding copy_field
edrx_parse resp = elim (parse_int_field resp 0) [
  | none ↦ (err_parse, edrx_cleared)
  | some mode ↦ elim (parse_int_field resp 1) [
    | none ↦ (ok, record edrx_cleared { enabled = nonzero mode })
    | some act ↦ (
      ok,
      record {
        enabled = nonzero mode;
        act_type = act;
        requested = copy_field resp 2 edrx_cleared.requested;
      },
    )
  ]
]

-- The part of ec200_edrx_get_dynamic behind the query.
unfoldable pub edrx_dynamic_parse : Text → Status × EdrxDynamic
unfolding copy_field
edrx_dynamic_parse resp = elim (parse_int_field resp 0) [
  | none ↦ (err_parse, edrx_dynamic_cleared)
  | some act ↦ (
    ok,
    record {
      act_type = act;
      requested = copy_field resp 1 edrx_dynamic_cleared.requested;
      granted = copy_field resp 2 edrx_dynamic_cleared.granted;
      paging_time_window = copy_field resp 3 edrx_dynamic_cleared.paging_time_window;
    },
  )
]

-- `if (st != EC200_OK) return st;` before a reply is parsed into what `cleared` holds.
abbrev pub parsed : {A : Type 0} → A → (Text → Status × A) → Status × Text → Status × A
parsed cleared parse (ok, resp) = parse resp
parsed cleared parse (st, resp) = (st, cleared)

module _ {W : Type 0} (p : Platform W) (fuel : ℕ) where
  -- ec200_power_set_cfun
  unfoldable pub power_set_cfun : ℤ → Bool → Exec W Status
  power_set_cfun level reset =
      send_command p fuel
        (codes "AT+CFUN=" ++ (decimal_ℤ level ++ (if reset then codes ",1" else []))) timeout_long

  -- The part of ec200_power_get_cfun behind the query.
  unfoldable pub power_get_cfun : Exec W (Status × Option ℤ)
  power_get_cfun = do
    answer ← query p fuel (codes "AT+CFUN?") (codes "+CFUN:") 32 timeout_default
    pure (
        parsed none
          (λ resp. elim (parse_int_field resp 0) [
            | none ↦ (err_parse, none)
            | some level ↦ (ok, some level)
          ])
          answer)

  -- ec200_power_down
  unfoldable pub power_down : Bool → Exec W Status
  power_down normal = send_command p fuel (codes "AT+QPOWD=" ++ bit normal) timeout_long

  -- ec200_power_set_sleep
  unfoldable pub power_set_sleep : Bool → Exec W Status
  power_set_sleep enable = send_command p fuel (codes "AT+QSCLK=" ++ bit enable) timeout_default

  -- ec200_power_reset
  unfoldable pub power_reset : Exec W Status
  unfolding power_set_cfun
  power_reset = power_set_cfun (pos 1) true

  -- ec200_psm_disable
  unfoldable pub psm_disable : Exec W Status
  psm_disable = send_command p fuel (codes "AT+CPSMS=0") timeout_default

  -- ec200_psm_set; a NULL configuration is `none`.
  unfoldable pub psm_set : Option PsmConfig → Exec W Status
  unfolding psm_disable
  psm_set none = pure err_param
  psm_set (some cfg) =
      let tau = c_str cfg.periodic_tau in
      let active = c_str cfg.active_time in
      if not cfg.enabled
      then psm_disable
      else if not (length tau == 8) || not (length active == 8)
      then pure err_param
      else send_command p fuel
          (codes "AT+CPSMS=1,,,\"" ++ (tau ++ (codes "\",\"" ++ (active ++ codes "\""))))
          timeout_default

  -- ec200_psm_get
  unfoldable pub psm_get : Exec W (Status × PsmConfig)
  unfolding psm_parse
  psm_get = do
    answer ← query p fuel (codes "AT+CPSMS?") (codes "+CPSMS:") 96 timeout_default
    pure (parsed psm_cleared psm_parse answer)

  -- ec200_edrx_disable
  unfoldable pub edrx_disable : ℤ → Exec W Status
  unfolding edrx_act_valid
  edrx_disable act =
      if edrx_act_valid act
      then send_command p fuel (codes "AT+CEDRXS=0," ++ decimal_ℤ act) timeout_default
      else pure err_param

  -- ec200_edrx_set; a NULL configuration is `none`.
  unfoldable pub edrx_set : Option EdrxConfig → Exec W Status
  unfolding edrx_disable
  edrx_set none = pure err_param
  edrx_set (some cfg) =
      let value = c_str cfg.requested in
      if not (edrx_act_valid cfg.act_type)
      then pure err_param
      else if not cfg.enabled
      then edrx_disable cfg.act_type
      else if not (length value == 4)
      then pure err_param
      else send_command p fuel
          (codes "AT+CEDRXS=1,"
            ++ (decimal_ℤ cfg.act_type ++ (codes ",\"" ++ (value ++ codes "\""))))
          timeout_default

  -- ec200_edrx_get
  unfoldable pub edrx_get : Exec W (Status × EdrxConfig)
  unfolding edrx_parse
  edrx_get = do
    answer ← query p fuel (codes "AT+CEDRXS?") (codes "+CEDRXS:") 96 timeout_default
    pure (parsed edrx_cleared edrx_parse answer)

  -- ec200_edrx_get_dynamic
  unfoldable pub edrx_get_dynamic : Exec W (Status × EdrxDynamic)
  unfolding edrx_dynamic_parse
  edrx_get_dynamic = do
    answer ← query p fuel (codes "AT+CEDRXRDP") (codes "+CEDRXRDP:") 96 timeout_default
    pure (parsed edrx_dynamic_cleared edrx_dynamic_parse answer)
