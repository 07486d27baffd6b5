-- ===== src/Clients/Sim.antt =====
-- src/ec200_sim.c: what its functions keep of the handle.
use ec200_at_abstraction.Prelude.{ℕ, List, [], ◌∷◌, Option, none, some}
use ec200_at_abstraction.Sim.Card.{
  SimStatus, sim_get_status, sim_enter_pin, sim_get_imsi, iccid_unprefixed, iccid_received,
  sim_get_iccid,
}
use ec200_at_abstraction.Handle.{Status, Platform, ok}
use ec200_at_abstraction.Text.{Text}
use ec200_at_abstraction.At.Guarded.{guarded_rules}
use ec200_at_abstraction.At.Guarded.Rules.{Guarded}

module _ {W : Type 0} (p : Platform W) (fuel : ℕ) where
  sim_get_status-Guarded : (before : Option SimStatus) → Guarded (sim_get_status p fuel before)
  unfolding sim_get_status
  sim_get_status-Guarded none = search guarded_rules depth 24
  sim_get_status-Guarded (some before) = search guarded_rules depth 24

  sim_enter_pin-Guarded : (pin : Option Text) → Guarded (sim_enter_pin p fuel pin)
  unfolding sim_enter_pin
  sim_enter_pin-Guarded (some (c ∷ pin)) = search guarded_rules depth 24
  sim_enter_pin-Guarded pin = search guarded_rules depth 24

  sim_get_imsi-Guarded : (arg : List ℕ) → Guarded (sim_get_imsi p fuel arg)
  unfolding sim_get_imsi
  sim_get_imsi-Guarded [] = search guarded_rules depth 24
  sim_get_imsi-Guarded (c ∷ imsi) = search guarded_rules depth 24

  iccid_unprefixed-Guarded : (iccid : List ℕ) → Guarded (iccid_unprefixed p fuel iccid)
  unfolding iccid_unprefixed
  iccid_unprefixed-Guarded iccid = search guarded_rules depth 24

  iccid_received-Guarded :
      (iccid : List ℕ) (arg1 : Status × Text) → Guarded (iccid_received p fuel iccid arg1)
  unfolding iccid_received
  iccid_received-Guarded iccid (ok, resp) = search guarded_rules depth 24
  iccid_received-Guarded iccid (st, resp) =
      search (guarded_rules, iccid_unprefixed-Guarded) depth 24

  sim_get_iccid-Guarded : (arg : List ℕ) → Guarded (sim_get_iccid p fuel arg)
  unfolding sim_get_iccid
  sim_get_iccid-Guarded [] = search guarded_rules depth 24
  sim_get_iccid-Guarded (c ∷ iccid) = search (guarded_rules, iccid_received-Guarded) depth 24

  -- Every function of the file that sends a command.
  abbrev pub SimGuarded : Type 0
  SimGuarded =
      ((before : Option SimStatus) → Guarded (sim_get_status p fuel before))
      × ((pin : Option Text) → Guarded (sim_enter_pin p fuel pin))
      × ((arg : List ℕ) → Guarded (sim_get_imsi p fuel arg))
      × ((arg : List ℕ) → Guarded (sim_get_iccid p fuel arg))

  pub sim_calls-SimGuarded : SimGuarded
  sim_calls-SimGuarded =
      (sim_get_status-Guarded, sim_enter_pin-Guarded, sim_get_imsi-Guarded, sim_get_iccid-Guarded)
