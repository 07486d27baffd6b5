-- ===== src/Clients/Gnss.antt =====
-- src/ec200_gnss.c: what its functions keep of the handle.
use ec200_at_abstraction.Prelude.{ℕ, Bool, Option, none, some, option-elim}
use ec200_at_abstraction.Gnss.{
  Location, LocationFields, gnss_start, gnss_stop, gnss_get_status, gnss_set_nmea_output,
  gnss_get_location, gnss_state,
}
use ec200_at_abstraction.Handle.{Platform, timeout_default}
use ec200_at_abstraction.Text.{Text, codes}
use ec200_at_abstraction.Query.{query}
use ec200_at_abstraction.At.Guarded.{guarded_rules}
use ec200_at_abstraction.At.Guarded.Rules.{Guarded, Guarded-pure, Guarded-bind, Guarded-if_ok_else}

module _ {W : Type 0} (p : Platform W) (fuel : ℕ) (F : Type 0) (zero_f : F) (tenths : F → ℕ) where
  gnss_start-Guarded : Guarded (gnss_start p fuel)
  unfolding gnss_start
  gnss_start-Guarded = search guarded_rules depth 24

  gnss_stop-Guarded : Guarded (gnss_stop p fuel)
  unfolding gnss_stop
  gnss_stop-Guarded = search guarded_rules depth 24

  gnss_get_status-Guarded : (result : Option Bool) → Guarded (gnss_get_status p fuel result)
  unfolding gnss_get_status
  gnss_get_status-Guarded none = search guarded_rules
  gnss_get_status-Guarded (some before) =
      Guarded-bind (query p fuel (codes "AT+QGPS?") (codes "+QGPS:") 32 timeout_default) _
        (search guarded_rules)
        λ (st, resp). Guarded-if_ok_else st (some before) _ (
          option-elim Guarded (gnss_state resp) _ _ (λ _. Guarded-pure _)
            λ enabled _. Guarded-pure _)

  gnss_set_nmea_output-Guarded : (nmea_types : ℕ) → Guarded (gnss_set_nmea_output p fuel nmea_types)
  unfolding gnss_set_nmea_output
  gnss_set_nmea_output-Guarded nmea_types = search guarded_rules depth 24

  gnss_get_location-Guarded :
      (scan : Text → Option (LocationFields F zero_f tenths))
      (loc : Option (Location F zero_f tenths))
      → Guarded (gnss_get_location F zero_f tenths p fuel scan loc)
  unfolding gnss_get_location
  gnss_get_location-Guarded scan none = search guarded_rules
  gnss_get_location-Guarded scan (some loc) = search guarded_rules depth 24

  -- Every function of the file that sends a command.
  abbrev pub GnssGuarded : Type 0
  GnssGuarded =
      Guarded (gnss_start p fuel)
      × Guarded (gnss_stop p fuel)
      × ((result : Option Bool) → Guarded (gnss_get_status p fuel result))
      × ((nmea_types : ℕ) → Guarded (gnss_set_nmea_output p fuel nmea_types))
      × ((scan : Text → Option (LocationFields F zero_f tenths))
            (loc : Option (Location F zero_f tenths))
          → Guarded (gnss_get_location F zero_f tenths p fuel scan loc))

  pub gnss_calls-GnssGuarded : GnssGuarded
  gnss_calls-GnssGuarded = (
    gnss_start-Guarded, gnss_stop-Guarded, gnss_get_status-Guarded, gnss_set_nmea_output-Guarded,
    gnss_get_location-Guarded,
  )
