-- ===== src/Clients/Core.antt =====
-- src/ec200.c: what its commands keep of the handle.
use ec200_at_abstraction.Prelude.{ℕ, Bool, List, [], ◌∷◌, Option, none, some}
use ec200_at_abstraction.At.Transaction.{Buffer}
use ec200_at_abstraction.Handle.{Status, Platform, ok}
use ec200_at_abstraction.Text.{Text}
use ec200_at_abstraction.Core.{
  string_received, get_string_response, string_query, get_imei, get_fw_version, get_module_info,
  check_at, set_echo, set_cmee,
}
use ec200_at_abstraction.At.Guarded.{guarded_rules}
use ec200_at_abstraction.At.Guarded.Rules.{Guarded}

module _ {W : Type 0} (p : Platform W) (fuel : ℕ) where
  string_received-Guarded :
      (out : List ℕ) (arg1 : Status × Buffer) → Guarded (string_received p fuel out arg1)
  unfolding string_received
  string_received-Guarded out (ok, resp) = search guarded_rules depth 24
  string_received-Guarded out (st, resp) = search guarded_rules depth 24

  get_string_response-Guarded :
      (cmd : Text) (out : List ℕ) → Guarded (get_string_response p fuel cmd out)
  unfolding get_string_response
  get_string_response-Guarded cmd out = search (guarded_rules, string_received-Guarded) depth 24

  string_query-Guarded :
      (cmd : Text) (arg1 : Option (List ℕ)) → Guarded (string_query p fuel cmd arg1)
  unfolding string_query
  string_query-Guarded cmd none = search guarded_rules depth 24
  string_query-Guarded cmd (some []) = search guarded_rules depth 24
  string_query-Guarded cmd (some (c ∷ out)) =
      search (guarded_rules, get_string_response-Guarded) depth 24

  get_imei-Guarded : (out : Option (List ℕ)) → Guarded (get_imei p fuel out)
  unfolding get_imei
  get_imei-Guarded out = search (guarded_rules, string_query-Guarded) depth 24

  get_fw_version-Guarded : (out : Option (List ℕ)) → Guarded (get_fw_version p fuel out)
  unfolding get_fw_version
  get_fw_version-Guarded out = search (guarded_rules, string_query-Guarded) depth 24

  get_module_info-Guarded : (arg : Buffer) → Guarded (get_module_info p fuel arg)
  unfolding get_module_info
  get_module_info-Guarded none = search guarded_rules depth 24
  get_module_info-Guarded (some []) = search guarded_rules depth 24
  get_module_info-Guarded (some (c ∷ info)) = search guarded_rules depth 24

  check_at-Guarded : Guarded (check_at p fuel)
  unfolding check_at
  check_at-Guarded = search guarded_rules depth 24

  set_echo-Guarded : (enable : Bool) → Guarded (set_echo p fuel enable)
  unfolding set_echo
  set_echo-Guarded enable = search guarded_rules depth 24

  set_cmee-Guarded : (mode : ℕ) → Guarded (set_cmee p fuel mode)
  unfolding set_cmee
  set_cmee-Guarded mode = search guarded_rules depth 24

  -- Every function of the file that sends a command.
  abbrev pub CoreGuarded : Type 0
  CoreGuarded =
      ((out : Option (List ℕ)) → Guarded (get_imei p fuel out))
      × ((out : Option (List ℕ)) → Guarded (get_fw_version p fuel out))
      × ((arg : Buffer) → Guarded (get_module_info p fuel arg))
      × Guarded (check_at p fuel)
      × ((enable : Bool) → Guarded (set_echo p fuel enable))
      × ((mode : ℕ) → Guarded (set_cmee p fuel mode))

  pub core_calls-CoreGuarded : CoreGuarded
  core_calls-CoreGuarded = (
    get_imei-Guarded, get_fw_version-Guarded, get_module_info-Guarded, check_at-Guarded,
    set_echo-Guarded, set_cmee-Guarded,
  )
