-- ===== src/Clients/Data.antt =====
-- src/ec200_data.c: what its functions keep of the handle.
use ec200_at_abstraction.Prelude.{ℕ, List, ◌==◌, length}
use ec200_at_abstraction.Data.{
  PdpContext, set_credentials, data_set_pdp, data_activate, data_deactivate, data_get_ip,
  connect_checked, connect_defined, connect_queried, data_connect, bad_cid, usable,
}
use ec200_at_abstraction.Handle.{Status, Platform, ok, err_param, timeout_default}
use ec200_at_abstraction.At.Guarded.{guarded_rules}
use ec200_at_abstraction.At.Guarded.Rules.{
  Guarded, Guarded-bind, Guarded-test, Guarded-send_command,
}

module _ {W : Type 0} (p : Platform W) (fuel : ℕ) where
  set_credentials-Guarded :
      (ctx : PdpContext) (st : Status) → Guarded (set_credentials p fuel ctx st)
  unfolding set_credentials
  set_credentials-Guarded ctx ok = record {
    at =
        (Guarded-test (length ctx.username == 0) ok _
          (Guarded-send_command p fuel _ timeout_default)).at;
  }
  set_credentials-Guarded ctx st = record { at = λ before s v. v }

  data_set_pdp-Guarded : (ctx : PdpContext) → Guarded (data_set_pdp p fuel ctx)
  unfolding data_set_pdp
  data_set_pdp-Guarded ctx = record {
    at =
        (Guarded-test (bad_cid ctx.cid) err_param _ (
          Guarded-bind _ _ (Guarded-send_command p fuel _ timeout_default)
            (set_credentials-Guarded ctx))).at;
  }

  data_activate-Guarded : (cid : ℕ) → Guarded (data_activate p fuel cid)
  unfolding data_activate
  data_activate-Guarded cid = search guarded_rules depth 24

  data_deactivate-Guarded : (cid : ℕ) → Guarded (data_deactivate p fuel cid)
  unfolding data_deactivate
  data_deactivate-Guarded cid = search guarded_rules depth 24

  data_get_ip-Guarded : (cid : ℕ) (ip_buf : List ℕ) → Guarded (data_get_ip p fuel cid ip_buf)
  unfolding data_get_ip
  data_get_ip-Guarded cid ip_buf = search guarded_rules depth 24

  connect_checked-Guarded :
      (act : Status) (arg1 : Status × List ℕ) → Guarded (connect_checked p fuel act arg1)
  unfolding connect_checked
  connect_checked-Guarded act (st, ip_addr) = search guarded_rules depth 24

  connect_defined-Guarded :
      (ctx : PdpContext) (ip_addr : List ℕ) (ok : Status)
      → Guarded (connect_defined p fuel ctx ip_addr ok)
  unfolding connect_defined
  connect_defined-Guarded ctx ip_addr ok =
      search (guarded_rules, data_activate-Guarded, data_get_ip-Guarded) depth 24
  connect_defined-Guarded ctx ip_addr st = search guarded_rules depth 24

  connect_queried-Guarded :
      (ctx : PdpContext) (answer : Status × List ℕ) → Guarded (connect_queried p fuel ctx answer)
  unfolding connect_queried
  connect_queried-Guarded ctx (st, ip_addr) = record {
    at =
        (Guarded-test (usable st ip_addr) (ok, ip_addr) _
          (Guarded-bind _ _ (data_set_pdp-Guarded ctx) (connect_defined-Guarded ctx ip_addr))).at;
  }

  data_connect-Guarded : (ctx : PdpContext) → Guarded (data_connect p fuel ctx)
  unfolding data_connect
  data_connect-Guarded ctx =
      search (guarded_rules, data_get_ip-Guarded, connect_queried-Guarded) depth 24

  -- Every function of the file that sends a command.
  abbrev pub DataGuarded : Type 0
  DataGuarded =
      ((ctx : PdpContext) → Guarded (data_set_pdp p fuel ctx))
      × ((cid : ℕ) → Guarded (data_activate p fuel cid))
      × ((cid : ℕ) → Guarded (data_deactivate p fuel cid))
      × ((cid : ℕ) (ip_buf : List ℕ) → Guarded (data_get_ip p fuel cid ip_buf))
      × ((ctx : PdpContext) → Guarded (data_connect p fuel ctx))

  pub data_calls-DataGuarded : DataGuarded
  data_calls-DataGuarded = (
    data_set_pdp-Guarded, data_activate-Guarded, data_deactivate-Guarded, data_get_ip-Guarded,
    data_connect-Guarded,
  )
