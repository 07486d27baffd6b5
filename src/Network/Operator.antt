-- ===== src/Network/Operator.antt =====
-- src/ec200_network.c: the operator and the radio access technology.
use ec200_at_abstraction.Prelude.{
  ℕ, ℤ, List, [], ◌∷◌, ◌++◌, Option, none, some, leb, ◌==◌, if◌then◌else◌, length, replicate,
}
use ec200_at_abstraction.Text.{Text, codes, decimal, memcpy_at, skip_spaces}
use ec200_at_abstraction.Handle.{
  Platform, Status, ok, err_param, err_parse, timeout_default, timeout_cops,
}
use ec200_at_abstraction.Exec.{Exec, pure, ◌>>=◌, if_ok_else}
use ec200_at_abstraction.At.Field.{after_colon}
use ec200_at_abstraction.Query.{send_command, query}

-- EC200_MAX_OPERATOR_LEN
abbrev pub max_operator_len : ℕ
max_operator_len = 32

-- ec200_operator_info_t; an enumeration holds the int that was cast to it.
pub record OperatorInfo : Type 0 where
  pub mode : ℤ
  pub format : ℤ
  pub oper : List ℕ
  pub act : ℤ

-- What sscanf leaves in the variables of ec200_net_get_operator.
pub record OperatorFields : Type 0 where
  pub mode : ℤ
  pub format : ℤ
  pub oper : Text
  pub act : ℤ

-- The part of ec200_net_get_operator behind its query. `scan` is its sscanf call: the variables, when at
-- least one of them is converted.
unfoldable pub operator_parse :
    (Text → Option OperatorFields) → Text → OperatorInfo → Status × OperatorInfo
operator_parse scan resp info = elim (scan (skip_spaces (after_colon resp))) [
  | none ↦ (err_parse, info)
  | some f ↦ (
    ok,
    record {
      mode = f.mode;
      format = f.format;
      oper = memcpy_at 0 (f.oper ++ (0 ∷ [])) info.oper;
      act = f.act;
    },
  )
]

-- ec200_network_info_t
pub record NetworkInfo : Type 0 where
  pub act : List ℕ
  pub oper : List ℕ
  pub band : List ℕ
  pub channel : ℕ

-- memset(info, 0, sizeof(*info))
abbrev pub network_info_cleared : NetworkInfo
network_info_cleared = record {
  act = replicate 24 0;
  oper = replicate 16 0;
  band = replicate 24 0;
  channel = 0;
}

-- What sscanf stores in ec200_net_get_info; a string that it does not convert is empty, as in the cleared
-- struct, and the channel is 0.
pub record NetworkFields : Type 0 where
  pub act : Text
  pub oper : Text
  pub band : Text
  pub channel : ℕ

-- sscanf's write of a string.
abbrev scanned_into : Text → List ℕ → List ℕ
scanned_into s out = memcpy_at 0 (s ++ (0 ∷ [])) out

-- The part of ec200_net_get_info behind its query. `scan` is its sscanf call: the fields, when at least one
-- of them is converted.
unfoldable pub network_info_parse :
    (Text → Option NetworkFields) → Text → NetworkInfo → Status × NetworkInfo
network_info_parse scan resp info = elim (scan (after_colon resp)) [
  | none ↦ (err_parse, info)
  | some f ↦ (
    ok,
    record {
      act = scanned_into f.act info.act;
      oper = scanned_into f.oper info.oper;
      band = scanned_into f.band info.band;
      channel = f.channel;
    },
  )
]

-- The command of ec200_net_set_operator; a NULL name is as an empty one. The mode is the value of its
-- enumerator, 0 for automatic.
unfoldable pub operator_command : ℕ → ℕ → Text → ℕ → Text
operator_command mode format [] act =
    if mode == 0
    then codes "AT+COPS=" ++ decimal mode
    else codes "AT+COPS=" ++ (decimal mode ++ (codes "," ++ decimal format))
operator_command mode format (c ∷ oper) act =
    if mode == 0
    then codes "AT+COPS=" ++ decimal mode
    else codes "AT+COPS="
      ++ (decimal mode
          ++ (codes ","
              ++ (decimal format ++ (codes ",\"" ++ ((c ∷ oper) ++ (codes "\"," ++ decimal act))))))

module _ {W : Type 0} (p : Platform W) (fuel : ℕ) where
  -- ec200_net_get_operator; a NULL result is `none`.
  unfoldable pub net_get_operator :
      (Text → Option OperatorFields) → Option OperatorInfo → Exec W (Status × Option OperatorInfo)
  unfolding operator_parse
  net_get_operator scan none = pure (err_param, none)
  net_get_operator scan (some info) = do
    (st, resp) ← query p fuel (codes "AT+COPS?") (codes "+COPS:") 128 timeout_default
    let (st', info') = operator_parse scan resp info
    if_ok_else st (some info) (pure (st', some info'))

  -- ec200_net_set_operator
  unfoldable pub net_set_operator : ℕ → ℕ → Text → ℕ → Exec W Status
  unfolding operator_command
  net_set_operator mode format oper act =
      if leb max_operator_len (length oper)
      then pure err_param
      else send_command p fuel (operator_command mode format oper act) timeout_cops

  -- ec200_net_get_info
  unfoldable pub net_get_info :
      (Text → Option NetworkFields) → Option NetworkInfo → Exec W (Status × Option NetworkInfo)
  unfolding network_info_parse
  net_get_info scan none = pure (err_param, none)
  net_get_info scan (some info) = do
    (st, resp) ← query p fuel (codes "AT+QNWINFO") (codes "+QNWINFO:") 128 timeout_default
    let (st', info') = network_info_parse scan resp network_info_cleared
    if_ok_else st (some network_info_cleared) (pure (st', some info'))
