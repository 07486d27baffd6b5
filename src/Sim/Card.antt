-- ===== src/Sim/Card.antt =====
-- src/ec200_sim.c: status, PIN and identifiers.
use ec200_at_abstraction.Prelude.{
  ℕ, List, [], ◌∷◌, ◌++◌, Option, none, some, leb, ltb, ◌==◌, if◌then◌else◌, length,
}
use ec200_at_abstraction.Text.{Text, codes, starts_with, skip_spaces, memcpy_at}
use ec200_at_abstraction.Handle.{
  Platform, Status, ok, err_param, err_parse, err_overflow, timeout_default,
}
use ec200_at_abstraction.Exec.{Exec, pure, ◌>>=◌, if_ok_else}
use ec200_at_abstraction.Query.{send_command, query, local_array, text_of}
use ec200_at_abstraction.At.Command.{at_send}
use ec200_at_abstraction.At.Field.{after_colon}
use ec200_at_abstraction.Core.{first_line, store_line}

-- ec200_sim_status_t
pub data SimStatus : Type 0 where
  sim_ready : SimStatus
  sim_pin_required : SimStatus
  sim_puk_required : SimStatus
  sim_pin2_required : SimStatus
  sim_puk2_required : SimStatus
  sim_not_inserted : SimStatus
  sim_unknown : SimStatus

-- resp_value
unfoldable pub resp_value : Text → Text
resp_value resp = skip_spaces (after_colon resp)

-- The chain of prefixes in ec200_sim_get_status.
unfoldable pub sim_status : Text → SimStatus
sim_status val =
    if starts_with (codes "READY") val
    then sim_ready
    else if starts_with (codes "SIM PIN2") val
    then sim_pin2_required
    else if starts_with (codes "SIM PUK2") val
    then sim_puk2_required
    else if starts_with (codes "SIM PIN") val
    then sim_pin_required
    else if starts_with (codes "SIM PUK") val
    then sim_puk_required
    else if starts_with (codes "NOT INSERT") val
    then sim_not_inserted
    else sim_unknown

-- The end of ec200_sim_get_iccid: the value goes to the caller's array.
unfoldable pub store_value : Text → List ℕ → Status × List ℕ
store_value val out =
    if length val == 0
    then (err_parse, out)
    else if leb (length out) (length val)
    then (err_overflow, out)
    else (ok, memcpy_at 0 (val ++ (0 ∷ [])) out)

module _ {W : Type 0} (p : Platform W) (fuel : ℕ) where
  -- ec200_sim_get_status; a NULL result is `none`.
  unfoldable pub sim_get_status : Option SimStatus → Exec W (Status × Option SimStatus)
  unfolding sim_status resp_value
  sim_get_status none = pure (err_param, none)
  sim_get_status (some before) = do
    (st, resp) ← query p fuel (codes "AT+CPIN?") (codes "+CPIN:") 64 timeout_default
    if_ok_else st (some before) (pure (ok, some (sim_status (resp_value resp))))

  -- ec200_sim_enter_pin; a NULL PIN is `none`.
  unfoldable pub sim_enter_pin : Option Text → Exec W Status
  sim_enter_pin (some (c ∷ pin)) =
      if ltb 8 (length (c ∷ pin))
      then pure err_param
      else send_command p fuel (codes "AT+CPIN=\"" ++ ((c ∷ pin) ++ codes "\"")) timeout_default
  sim_enter_pin pin = pure err_param

  -- ec200_at_send with a local array of 64 bytes for its reply.
  abbrev reply_text : Text → Exec W (Status × Text)
  reply_text cmd = do
    (st, resp) ← at_send p fuel (some cmd) (local_array 64) timeout_default
    pure (st, text_of resp)

  -- ec200_sim_get_imsi into an array; a NULL array is as an empty one.
  unfoldable pub sim_get_imsi : List ℕ → Exec W (Status × List ℕ)
  unfolding store_line
  sim_get_imsi [] = pure (err_param, [])
  sim_get_imsi (c ∷ imsi) = do
    (st, resp) ← reply_text (codes "AT+CIMI")
    if_ok_else st (c ∷ imsi) (pure (store_line resp (c ∷ imsi)))

  -- The second query of ec200_sim_get_iccid, for firmware that gives no prefix.
  unfoldable pub iccid_unprefixed : List ℕ → Exec W (Status × List ℕ)
  unfolding first_line store_value
  iccid_unprefixed iccid = do
    (st, resp) ← reply_text (codes "AT+CCID")
    if_ok_else st iccid (pure (store_value (first_line resp) iccid))

  -- The part of ec200_sim_get_iccid behind its first query.
  unfoldable pub iccid_received : List ℕ → Status × Text → Exec W (Status × List ℕ)
  unfolding iccid_unprefixed store_value resp_value
  iccid_received iccid (ok, resp) = pure (store_value (resp_value resp) iccid)
  iccid_received iccid (st, resp) = iccid_unprefixed iccid

  -- ec200_sim_get_iccid
  unfoldable pub sim_get_iccid : List ℕ → Exec W (Status × List ℕ)
  unfolding iccid_received
  sim_get_iccid [] = pure (err_param, [])
  sim_get_iccid (c ∷ iccid) =
      query p fuel (codes "AT+CCID") (codes "+ICCID:") 64 timeout_default
      >>= iccid_received (c ∷ iccid)
