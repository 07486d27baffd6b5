-- ===== src/Core.antt =====
-- src/ec200.c: initialisation and the general commands.
pub mod Init
pub mod Strings
use ec200_at_abstraction.Prelude.{
  ℕ, zero, suc, ◌==◌, ◌++◌, ◌∷◌, [], Bool, true, false, ◌||◌, Option, some, none, List, ltb, leb,
  length, replicate, minus_one, if◌then◌else◌,
}
use ec200_at_abstraction.Text.{Text, codes, c_str, memcpy_at, decimal}
use ec200_at_abstraction.Handle.{
  Handle, UrcEntry, Ptr, is_null, Platform, Sys, Status, ok, err_timeout, err_io, err_parse,
  err_cme, err_cms, err_busy, err_param, err_not_ready, err_overflow, err_unsupported, err_unknown,
  err_module, timeout_default, rx_buffer_size, tx_buffer_size, max_urc_handlers, max_err_text_len,
}
use ec200_at_abstraction.Exec.{Exec, pure, ◌>>=◌}
use ec200_at_abstraction.At.Transaction.{Buffer}
use ec200_at_abstraction.At.Command.{at_send}
use ec200_at_abstraction.Query.{send_command, text_of, local_array}

-- The first line of a reply: `char *nl = strchr(resp, '\n'); if (nl != NULL) *nl = '\0';`
unfoldable pub first_line : Text → Text
first_line [] = []
first_line (c ∷ s) = let rest = first_line s in if c == b'\n' then [] else c ∷ rest

-- The end of get_string_response: the first line of the reply goes to the caller's array.
unfoldable pub store_line : Text → List ℕ → Status × List ℕ
unfolding first_line
store_line resp out =
    let line = first_line resp in
    if length line == 0
    then (err_parse, out)
    else if leb (length out) (length line)
    then (err_overflow, out)
    else (ok, memcpy_at 0 (line ++ (0 ∷ [])) out)

-- The handle behind the memset and the assignments of ec200_init.
unfoldable pub init_handle : Ptr → Ptr → Ptr → Ptr → Handle
init_handle write_fn read_fn delay_fn user_ctx = record {
  write = write_fn;
  read = read_fn;
  delay_ms = delay_fn;
  user_ctx = user_ctx;
  urc_handler = 0;
  mqtt_msg_cb = 0;
  rx_buf = replicate rx_buffer_size 0;
  rx_len = 0;
  rx_overlong = false;
  tx_buf = replicate tx_buffer_size 0;
  urc_table = replicate max_urc_handlers (record { prefix = none; handler = 0; ctx = 0 });
  initialised = true;
  last_err_kind = 0;
  last_err_text = replicate max_err_text_len 0;
  ppp_data_mode = false;
  last_cme_error = minus_one;
  last_cms_error = minus_one;
}

-- ec200_status_str
abbrev pub status_str : Status → Text
status_str ok = codes "OK"
status_str err_timeout = codes "Timeout"
status_str err_io = codes "I/O error"
status_str err_parse = codes "Parse error"
status_str err_cme = codes "+CME ERROR"
status_str err_cms = codes "+CMS ERROR"
status_str err_busy = codes "Busy"
status_str err_param = codes "Invalid parameter"
status_str err_not_ready = codes "Not ready"
status_str err_overflow = codes "Buffer overflow"
status_str err_unsupported = codes "Unsupported"
status_str err_module = codes "Module error"
status_str err_unknown = codes "Unknown error"

-- ec200_set_urc_handler
abbrev pub set_urc_handler : Ptr → Handle → Handle
set_urc_handler handler h = record h { urc_handler = handler }

module _ {W : Type 0} (p : Platform W) (fuel : ℕ) where
  -- `if (st != EC200_OK) return st;` behind the query of get_string_response.
  unfoldable pub string_received : List ℕ → Status × Buffer → Exec W (Status × List ℕ)
  unfolding store_line
  string_received out (ok, resp) = pure (store_line (text_of resp) out)
  string_received out (st, resp) = pure (st, out)

  -- get_string_response
  unfoldable pub get_string_response : Text → List ℕ → Exec W (Status × List ℕ)
  unfolding string_received
  get_string_response cmd out =
      at_send p fuel (some cmd) (local_array 64) timeout_default >>= string_received out

  -- The getters that refuse an empty array and a NULL pointer.
  unfoldable pub string_query : Text → Option (List ℕ) → Exec W (Status × Option (List ℕ))
  unfolding get_string_response
  string_query cmd none = pure (err_param, none)
  string_query cmd (some []) = pure (err_param, some [])
  string_query cmd (some (c ∷ out)) = do
    (st, out') ← get_string_response cmd (c ∷ out)
    pure (st, some out')

  -- ec200_get_imei
  unfoldable pub get_imei : Option (List ℕ) → Exec W (Status × Option (List ℕ))
  unfolding string_query
  get_imei out = string_query (codes "AT+GSN") out

  -- ec200_get_fw_version
  unfoldable pub get_fw_version : Option (List ℕ) → Exec W (Status × Option (List ℕ))
  unfolding string_query
  get_fw_version out = string_query (codes "AT+GMR") out

  -- ec200_get_module_info
  unfoldable pub get_module_info : Buffer → Exec W (Status × Buffer)
  get_module_info none = pure (err_param, none)
  get_module_info (some []) = pure (err_param, some [])
  get_module_info (some (c ∷ info)) =
      at_send p fuel (some (codes "ATI")) (some (c ∷ info)) timeout_default

  -- ec200_check_at
  unfoldable pub check_at : Exec W Status
  check_at = send_command p fuel (codes "AT") timeout_default

  -- ec200_set_echo
  unfoldable pub set_echo : Bool → Exec W Status
  set_echo enable =
      send_command p fuel (if enable then codes "ATE1" else codes "ATE0") timeout_default

  -- ec200_set_cmee
  unfoldable pub set_cmee : ℕ → Exec W Status
  set_cmee mode =
      if ltb 2 mode
      then pure err_param
      else send_command p fuel (codes "AT+CMEE=" ++ decimal mode) timeout_default

  -- h->delay_ms(500U, h->user_ctx), behind a probe that failed.
  unfoldable pub wait_reset : Sys W → Sys W
  wait_reset s = record s { world = p.delay s.handle.delay_ms 500 s.handle.user_ctx s.world }

  -- What the loop of ec200_init does with the result of a probe; `next` is the rest of the loop.
  unfoldable pub probed : (Status → Exec W Status) → Status → Exec W Status
  unfolding wait_reset
  probed next ok s = some (ok, s)
  probed next st s = next st (wait_reset s)

  -- The loop of ec200_init, with `left` probes to go.
  unfoldable pub probe : ℕ → Status → Exec W Status
  unfolding probed check_at
  probe zero st s = some (st, s)
  probe (suc left) st s =
      let next = λ (st' : Status). probe left st' in (check_at >>= probed next) s

  -- h->_initialised = false; return st
  unfoldable pub give_up : Status → Exec W Status
  give_up st s = some (st, record s { handle = record (s.handle) { initialised = false } })

  -- The end of ec200_init, behind ec200_set_echo.
  unfoldable pub echo_set : Status → Exec W Status
  unfolding give_up
  echo_set ok = pure ok
  echo_set st = give_up st

  -- The part of ec200_init behind the loop.
  unfoldable pub after_probe : Status → Exec W Status
  unfolding echo_set
  after_probe ok = set_echo false >>= echo_set
  after_probe st = give_up err_timeout

  -- ec200_init
  unfoldable pub init : Ptr → Ptr → Ptr → Ptr → Exec W Status
  unfolding probe after_probe init_handle
  init write_fn read_fn delay_fn user_ctx s =
      let cleared : Sys W = record s { handle = init_handle write_fn read_fn delay_fn user_ctx } in
      let run = (probe 3 err_timeout >>= after_probe) cleared in
      if is_null write_fn || (is_null read_fn || is_null delay_fn) then some (err_param, s) else run
