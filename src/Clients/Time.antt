-- ===== src/Clients/Time.antt =====
-- src/ec200_time.c: what its functions keep of the handle.
use ec200_at_abstraction.Prelude.{ℕ, Bool, ◌∷◌, Option, none, some}
use ec200_at_abstraction.Time.{
  Datetime, time_query, time_get, time_get_network, time_set, time_set_auto_update, time_sync_ntp,
}
use ec200_at_abstraction.Handle.{Platform}
use ec200_at_abstraction.Text.{Text}
use ec200_at_abstraction.At.Guarded.{guarded_rules}
use ec200_at_abstraction.At.Guarded.Rules.{Guarded}

module _ {W : Type 0} (p : Platform W) (fuel : ℕ) where
  time_query-Guarded :
      (cmd : Text) (prefix : Text) (size : ℕ) → Guarded (time_query p fuel cmd prefix size)
  unfolding time_query
  time_query-Guarded cmd prefix size = search guarded_rules depth 24

  time_get-Guarded : Guarded (time_get p fuel)
  unfolding time_get
  time_get-Guarded = search (guarded_rules, time_query-Guarded) depth 24

  time_get_network-Guarded : Guarded (time_get_network p fuel)
  unfolding time_get_network
  time_get_network-Guarded = search (guarded_rules, time_query-Guarded) depth 24

  time_set-Guarded : (dt : Option Datetime) → Guarded (time_set p fuel dt)
  unfolding time_set
  time_set-Guarded none = search guarded_rules depth 24
  time_set-Guarded (some dt) = search guarded_rules depth 24

  time_set_auto_update-Guarded : (enable : Bool) → Guarded (time_set_auto_update p fuel enable)
  unfolding time_set_auto_update
  time_set_auto_update-Guarded enable = search guarded_rules depth 24

  time_sync_ntp-Guarded :
      (pdp_ctx : ℕ) (server : Option Text) (port : ℕ) (timeout_ms : ℕ)
      → Guarded (time_sync_ntp p fuel pdp_ctx server port timeout_ms)
  unfolding time_sync_ntp
  time_sync_ntp-Guarded pdp_ctx (some (c ∷ server)) port timeout_ms = search guarded_rules depth 24
  time_sync_ntp-Guarded pdp_ctx server port timeout_ms = search guarded_rules depth 24

  -- Every function of the file that sends a command.
  abbrev pub TimeGuarded : Type 0
  TimeGuarded =
      Guarded (time_get p fuel)
      × Guarded (time_get_network p fuel)
      × ((dt : Option Datetime) → Guarded (time_set p fuel dt))
      × ((enable : Bool) → Guarded (time_set_auto_update p fuel enable))
      × ((pdp_ctx : ℕ) (server : Option Text) (port : ℕ) (timeout_ms : ℕ)
          → Guarded (time_sync_ntp p fuel pdp_ctx server port timeout_ms))

  pub time_calls-TimeGuarded : TimeGuarded
  time_calls-TimeGuarded = (
    time_get-Guarded, time_get_network-Guarded, time_set-Guarded, time_set_auto_update-Guarded,
    time_sync_ntp-Guarded,
  )
