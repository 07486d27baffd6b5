-- ===== src/Clients/Power.antt =====
-- src/ec200_power.c: what its functions keep of the handle.
use ec200_at_abstraction.Prelude.{ℕ, ℤ, Bool, Option, none, some}
use ec200_at_abstraction.Power.Commands.{
  EdrxConfig, PsmConfig, power_set_cfun, power_get_cfun, power_down, power_set_sleep, power_reset,
  psm_disable, psm_set, psm_get, edrx_disable, edrx_set, edrx_get, edrx_get_dynamic,
}
use ec200_at_abstraction.Handle.{Platform}
use ec200_at_abstraction.At.Guarded.{guarded_rules}
use ec200_at_abstraction.At.Guarded.Rules.{Guarded}

module _ {W : Type 0} (p : Platform W) (fuel : ℕ) where
  power_set_cfun-Guarded : (level : ℤ) (reset : Bool) → Guarded (power_set_cfun p fuel level reset)
  unfolding power_set_cfun
  power_set_cfun-Guarded level reset = search guarded_rules depth 24

  power_get_cfun-Guarded : Guarded (power_get_cfun p fuel)
  unfolding power_get_cfun
  power_get_cfun-Guarded = search guarded_rules depth 24

  power_down-Guarded : (normal : Bool) → Guarded (power_down p fuel normal)
  unfolding power_down
  power_down-Guarded normal = search guarded_rules depth 24

  power_set_sleep-Guarded : (enable : Bool) → Guarded (power_set_sleep p fuel enable)
  unfolding power_set_sleep
  power_set_sleep-Guarded enable = search guarded_rules depth 24

  power_reset-Guarded : Guarded (power_reset p fuel)
  unfolding power_reset
  power_reset-Guarded = search guarded_rules depth 24

  psm_disable-Guarded : Guarded (psm_disable p fuel)
  unfolding psm_disable
  psm_disable-Guarded = search guarded_rules depth 24

  psm_set-Guarded : (cfg : Option PsmConfig) → Guarded (psm_set p fuel cfg)
  unfolding psm_set
  psm_set-Guarded none = search guarded_rules depth 24
  psm_set-Guarded (some cfg) = search guarded_rules depth 24

  psm_get-Guarded : Guarded (psm_get p fuel)
  unfolding psm_get
  psm_get-Guarded = search guarded_rules depth 24

  edrx_disable-Guarded : (act : ℤ) → Guarded (edrx_disable p fuel act)
  unfolding edrx_disable
  edrx_disable-Guarded act = search guarded_rules depth 24

  edrx_set-Guarded : (cfg : Option EdrxConfig) → Guarded (edrx_set p fuel cfg)
  unfolding edrx_set
  edrx_set-Guarded none = search guarded_rules depth 24
  edrx_set-Guarded (some cfg) = search (guarded_rules, edrx_disable-Guarded) depth 24

  edrx_get-Guarded : Guarded (edrx_get p fuel)
  unfolding edrx_get
  edrx_get-Guarded = search guarded_rules depth 24

  edrx_get_dynamic-Guarded : Guarded (edrx_get_dynamic p fuel)
  unfolding edrx_get_dynamic
  edrx_get_dynamic-Guarded = search guarded_rules depth 24

  -- Every function of the file that sends a command.
  abbrev pub PowerGuarded : Type 0
  PowerGuarded =
      ((level : ℤ) (reset : Bool) → Guarded (power_set_cfun p fuel level reset))
      × Guarded (power_get_cfun p fuel)
      × ((normal : Bool) → Guarded (power_down p fuel normal))
      × ((enable : Bool) → Guarded (power_set_sleep p fuel enable))
      × Guarded (power_reset p fuel)
      × Guarded (psm_disable p fuel)
      × ((cfg : Option PsmConfig) → Guarded (psm_set p fuel cfg))
      × Guarded (psm_get p fuel)
      × ((act : ℤ) → Guarded (edrx_disable p fuel act))
      × ((cfg : Option EdrxConfig) → Guarded (edrx_set p fuel cfg))
      × Guarded (edrx_get p fuel)
      × Guarded (edrx_get_dynamic p fuel)

  pub power_calls-PowerGuarded : PowerGuarded
  power_calls-PowerGuarded = (
    power_set_cfun-Guarded, power_get_cfun-Guarded, power_down-Guarded, power_set_sleep-Guarded,
    power_reset-Guarded, psm_disable-Guarded, psm_set-Guarded, psm_get-Guarded,
    edrx_disable-Guarded, edrx_set-Guarded, edrx_get-Guarded, edrx_get_dynamic-Guarded,
  )
