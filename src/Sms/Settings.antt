-- ===== src/Sms/Settings.antt =====
-- src/ec200_sms.c: the commands on formats, storage, the service centre, stored messages and the
-- indication of new ones.
use ec200_at_abstraction.Prelude.{
  ℕ, ℤ, pos, negsuc, Bool, ◌||◌, List, [], ◌∷◌, ◌++◌, Option, none, some, leb, ltb, ◌==◌,
  if◌then◌else◌, length,
}
use ec200_at_abstraction.Text.{Text, codes, decimal}
use ec200_at_abstraction.Handle.{
  Platform, Status, ok, err_param, err_parse, timeout_default, timeout_long,
}
use ec200_at_abstraction.Exec.{Exec, pure, ◌>>=◌, if_ok_else}
use ec200_at_abstraction.Query.{send_command, query}
use ec200_at_abstraction.Sms.Header.{max_phone_num_len}
use ec200_at_abstraction.Sms.Submit.{report}
use ec200_at_abstraction.Sms.Parse.{
  mem_string, sms_mem_count, Storage, parse_cpms_usage, storage_received, Cnmi, parse_cnmi,
  store_smsc,
}

-- The guards of ec200_sms_set_storage: an unknown storage, or MT for writing.
unfoldable pub bad_storage : ℕ → ℕ → ℕ → Bool
bad_storage read_delete write_send receive =
    leb sms_mem_count read_delete
    || leb sms_mem_count write_send
    || leb sms_mem_count receive
    || (write_send == 2)

-- The guards of ec200_sms_set_indication.
unfoldable pub bad_cnmi : Cnmi → Bool
bad_cnmi cfg = ltb 2 cfg.mode || ltb 3 cfg.mt || ltb 3 cfg.bm || ltb 2 cfg.ds || ltb 1 cfg.bfr

-- AT+CNMI=<mode>,<mt>,<bm>,<ds>,<bfr>
abbrev pub cnmi_command : Cnmi → Text
cnmi_command cfg =
    codes "AT+CNMI="
    ++ (decimal cfg.mode
        ++ (codes ","
            ++ (decimal cfg.mt
                ++ (codes ","
                    ++ (decimal cfg.bm
                        ++ (codes "," ++ (decimal cfg.ds ++ (codes "," ++ decimal cfg.bfr))))))))

abbrev cnmi_received : Text → Cnmi → Status × Cnmi
cnmi_received resp cfg = elim (parse_cnmi resp) [ none ↦ (err_parse, cfg) | some v ↦ (ok, v) ]

abbrev storage_queried : Text → Storage → Status × Storage
storage_queried resp out = parse_cpms_usage resp 1 3 out

module _ {W : Type 0} (p : Platform W) (fuel : ℕ) where
  -- ec200_sms_set_format; the format is the value of its enumerator.
  unfoldable pub sms_set_format : ℕ → Exec W Status
  sms_set_format format =
      if ltb 1 format
      then pure err_param
      else send_command p fuel (codes "AT+CMGF=" ++ decimal format) timeout_default

  -- ec200_sms_delete
  unfoldable pub sms_delete : ℤ → Exec W Status
  sms_delete (negsuc n) = pure err_param
  sms_delete (pos index) = send_command p fuel (codes "AT+CMGD=" ++ decimal index) timeout_default

  -- ec200_sms_delete_all
  unfoldable pub sms_delete_all : ℕ → Exec W Status
  sms_delete_all flag =
      if ltb flag 1 || ltb 4 flag
      then pure err_param
      else send_command p fuel (codes "AT+CMGD=1," ++ decimal flag) timeout_long

  -- ec200_sms_set_storage; a NULL result is `none`.
  unfoldable pub sms_set_storage : ℕ → ℕ → ℕ → Option Storage → Exec W (Status × Option Storage)
  unfolding bad_storage
  sms_set_storage read_delete write_send receive usage =
      if bad_storage read_delete write_send receive then pure (err_param, usage) else do
        (st, resp) ←
            query p fuel
              (codes "AT+CPMS=\""
                ++ (mem_string read_delete
                    ++ (codes "\",\""
                        ++ (mem_string write_send
                            ++ (codes "\",\"" ++ (mem_string receive ++ codes "\""))))))
              (codes "+CPMS:") 96 timeout_default
        if_ok_else st usage (pure (storage_received resp usage))

  -- ec200_sms_get_storage
  unfoldable pub sms_get_storage : Option Storage → Exec W (Status × Option Storage)
  unfolding parse_cpms_usage
  sms_get_storage none = pure (err_param, none)
  sms_get_storage (some out) = do
    (st, resp) ← query p fuel (codes "AT+CPMS?") (codes "+CPMS:") 96 timeout_default
    let (st', out') = storage_queried resp out
    if_ok_else st (some out) (pure (st', some out'))

  -- ec200_sms_set_smsc
  unfoldable pub sms_set_smsc : Option Text → Exec W Status
  sms_set_smsc (some (c ∷ number)) =
      if leb max_phone_num_len (length (c ∷ number))
      then pure err_param
      else send_command p fuel (codes "AT+CSCA=\"" ++ ((c ∷ number) ++ codes "\"")) timeout_default
  sms_set_smsc number = pure err_param

  -- ec200_sms_get_smsc into an array; a NULL array is as an empty one.
  unfoldable pub sms_get_smsc : List ℕ → Exec W (Status × List ℕ)
  unfolding store_smsc
  sms_get_smsc [] = pure (err_param, [])
  sms_get_smsc (c ∷ out) = do
    (st, resp) ← query p fuel (codes "AT+CSCA?") (codes "+CSCA:") 96 timeout_default
    if_ok_else st (0 ∷ out) (pure (store_smsc resp (0 ∷ out)))

  -- ec200_sms_send_stored
  unfoldable pub sms_send_stored : ℤ → Option ℤ → Exec W (Status × Option ℤ)
  sms_send_stored (negsuc n) mr = pure (err_param, mr)
  sms_send_stored (pos index) mr = do
    (st, resp) ← query p fuel (codes "AT+CMSS=" ++ decimal index) (codes "+CMSS:") 64 timeout_long
    if_ok_else st mr (pure (ok, report resp mr))

  -- ec200_sms_set_indication; a NULL configuration is `none`.
  unfoldable pub sms_set_indication : Option Cnmi → Exec W Status
  unfolding bad_cnmi
  sms_set_indication none = pure err_param
  sms_set_indication (some cfg) =
      if bad_cnmi cfg
      then pure err_param
      else send_command p fuel (cnmi_command cfg) timeout_default

  -- ec200_sms_get_indication
  unfoldable pub sms_get_indication : Option Cnmi → Exec W (Status × Option Cnmi)
  unfolding parse_cnmi
  sms_get_indication none = pure (err_param, none)
  sms_get_indication (some cfg) = do
    (st, resp) ← query p fuel (codes "AT+CNMI?") (codes "+CNMI:") 64 timeout_default
    let (st', cfg') = cnmi_received resp cfg
    if_ok_else st (some cfg) (pure (st', some cfg'))
