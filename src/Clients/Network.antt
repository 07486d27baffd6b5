-- ===== src/Clients/Network.antt =====
-- src/ec200_network.c: what its functions keep of the handle.
use ec200_at_abstraction.Prelude.{
  ℕ, ℤ, Bool, List, [], ◌∷◌, Option, none, some, zero, suc, ◌+◌, ◌%◌, ◌^◌, if-elim, leb,
}
use ec200_at_abstraction.Network.Operator.{
  NetworkFields, NetworkInfo, OperatorFields, OperatorInfo, net_get_operator, net_set_operator,
  net_get_info,
}
use ec200_at_abstraction.Network.Signal.{
  SignalQuality, net_get_signal, signal_ext_received, net_get_signal_ext,
}
use ec200_at_abstraction.Handle.{Status, Platform, ok}
use ec200_at_abstraction.Text.{Text}
use ec200_at_abstraction.Network.{
  get_reg, net_get_creg, net_get_cgreg, net_get_cereg, net_get_spn, net_set_attached,
  net_is_attached, polled, wait_loop, net_wait_registered, reports_registered, poll_delay,
}
use ec200_at_abstraction.Exec.{Exec}
use ec200_at_abstraction.At.Valid.{After}
use ec200_at_abstraction.At.Guarded.{guarded_rules}
use ec200_at_abstraction.At.Guarded.Rules.{Unharmed, Guarded, Guarded-bind}

module _ {W : Type 0} (p : Platform W) (fuel : ℕ) (scan_signal : Text → Option (ℤ × ℤ)) where
  get_reg-Guarded : (cmd : Text) (prefix : Text) → Guarded (get_reg p fuel cmd prefix)
  unfolding get_reg
  get_reg-Guarded cmd prefix = search guarded_rules depth 24

  net_get_creg-Guarded : Guarded (net_get_creg p fuel)
  unfolding net_get_creg
  net_get_creg-Guarded = search (guarded_rules, get_reg-Guarded) depth 24

  net_get_cgreg-Guarded : Guarded (net_get_cgreg p fuel)
  unfolding net_get_cgreg
  net_get_cgreg-Guarded = search (guarded_rules, get_reg-Guarded) depth 24

  net_get_cereg-Guarded : Guarded (net_get_cereg p fuel)
  unfolding net_get_cereg
  net_get_cereg-Guarded = search (guarded_rules, get_reg-Guarded) depth 24

  net_get_spn-Guarded : (arg : Option (List ℕ)) → Guarded (net_get_spn p fuel arg)
  unfolding net_get_spn
  net_get_spn-Guarded none = search guarded_rules depth 24
  net_get_spn-Guarded (some []) = search guarded_rules depth 24
  net_get_spn-Guarded (some (c ∷ name)) = search guarded_rules depth 24

  net_set_attached-Guarded : (attach : Bool) → Guarded (net_set_attached p fuel attach)
  unfolding net_set_attached
  net_set_attached-Guarded attach = search guarded_rules depth 24

  net_is_attached-Guarded : Guarded (net_is_attached p fuel)
  unfolding net_is_attached
  net_is_attached-Guarded = search guarded_rules depth 24

  polled-Guarded :
      (next : ℕ → Exec W Status) (elapsed timeout_ms : ℕ) (answer : Status × Option ℕ)
      → ((e : ℕ) → Guarded (next e))
      → Guarded (polled p fuel next elapsed timeout_ms answer)
  unfolding polled poll_delay
  polled-Guarded next elapsed timeout_ms answer rec = record {
    at = λ before s v.
        if-elim (After (λ _ s'. Unharmed before s'.handle)) (reports_registered answer) _ _ (λ _. v)
          λ _.
            if-elim (After (λ _ s'. Unharmed before s'.handle)) (leb timeout_ms elapsed) _ _
              (λ _. v) λ _. (rec ((elapsed + 2000) % 2 ^ 32)).at before (poll_delay p fuel s) v;
  }

  wait_loop-Guarded :
      (rounds elapsed timeout_ms : ℕ) → Guarded (wait_loop p fuel rounds elapsed timeout_ms)
  unfolding wait_loop
  wait_loop-Guarded zero elapsed timeout_ms = record { at = λ before s v. tt }
  wait_loop-Guarded (suc rounds) elapsed timeout_ms = record {
    at =
        (Guarded-bind _ _ net_get_cereg-Guarded λ answer.
          polled-Guarded (λ e. wait_loop p fuel rounds e timeout_ms) elapsed timeout_ms answer
            λ e. wait_loop-Guarded rounds e timeout_ms).at;
  }

  net_wait_registered-Guarded :
      (rounds : ℕ) (timeout_ms : ℕ) → Guarded (net_wait_registered p fuel rounds timeout_ms)
  unfolding net_wait_registered
  net_wait_registered-Guarded rounds timeout_ms = search (guarded_rules, wait_loop-Guarded) depth 24

  net_get_signal-Guarded :
      (sq : Option SignalQuality) → Guarded (net_get_signal p fuel scan_signal sq)
  unfolding net_get_signal
  net_get_signal-Guarded none = search guarded_rules depth 24
  net_get_signal-Guarded (some sq) = search guarded_rules depth 24

  signal_ext_received-Guarded :
      (scan_ext : (Text → List ℤ)) (sq : SignalQuality) (arg2 : Status × Text)
      → Guarded (signal_ext_received p fuel scan_signal scan_ext sq arg2)
  unfolding signal_ext_received
  signal_ext_received-Guarded scan_ext sq (ok, resp) = search guarded_rules depth 24
  signal_ext_received-Guarded scan_ext sq (st, resp) =
      search (guarded_rules, net_get_signal-Guarded) depth 24

  net_get_signal_ext-Guarded :
      (scan_ext : (Text → List ℤ)) (sq : Option SignalQuality)
      → Guarded (net_get_signal_ext p fuel scan_signal scan_ext sq)
  unfolding net_get_signal_ext
  net_get_signal_ext-Guarded scan_ext none = search guarded_rules depth 24
  net_get_signal_ext-Guarded scan_ext (some sq) =
      search (guarded_rules, signal_ext_received-Guarded) depth 24

  net_get_operator-Guarded :
      (scan : (Text → Option OperatorFields)) (info : Option OperatorInfo)
      → Guarded (net_get_operator p fuel scan info)
  unfolding net_get_operator
  net_get_operator-Guarded scan none = search guarded_rules depth 24
  net_get_operator-Guarded scan (some info) = search guarded_rules depth 24

  net_set_operator-Guarded :
      (mode : ℕ) (format : ℕ) (oper : Text) (act : ℕ)
      → Guarded (net_set_operator p fuel mode format oper act)
  unfolding net_set_operator
  net_set_operator-Guarded mode format oper act = search guarded_rules depth 24

  net_get_info-Guarded :
      (scan : (Text → Option NetworkFields)) (info : Option NetworkInfo)
      → Guarded (net_get_info p fuel scan info)
  unfolding net_get_info
  net_get_info-Guarded scan none = search guarded_rules depth 24
  net_get_info-Guarded scan (some info) = search guarded_rules depth 24

  -- Every function of the file that sends a command.
  abbrev pub NetworkGuarded : Type 0
  NetworkGuarded =
      Guarded (net_get_creg p fuel)
      × Guarded (net_get_cgreg p fuel)
      × Guarded (net_get_cereg p fuel)
      × ((arg : Option (List ℕ)) → Guarded (net_get_spn p fuel arg))
      × ((attach : Bool) → Guarded (net_set_attached p fuel attach))
      × Guarded (net_is_attached p fuel)
      × ((rounds : ℕ) (timeout_ms : ℕ) → Guarded (net_wait_registered p fuel rounds timeout_ms))
      × ((sq : Option SignalQuality) → Guarded (net_get_signal p fuel scan_signal sq))
      × ((scan_ext : (Text → List ℤ)) (sq : Option SignalQuality)
          → Guarded (net_get_signal_ext p fuel scan_signal scan_ext sq))
      × ((scan : (Text → Option OperatorFields)) (info : Option OperatorInfo)
          → Guarded (net_get_operator p fuel scan info))
      × ((mode : ℕ) (format : ℕ) (oper : Text) (act : ℕ)
          → Guarded (net_set_operator p fuel mode format oper act))
      × ((scan : (Text → Option NetworkFields)) (info : Option NetworkInfo)
          → Guarded (net_get_info p fuel scan info))

  pub network_calls-NetworkGuarded : NetworkGuarded
  network_calls-NetworkGuarded = (
    net_get_creg-Guarded, net_get_cgreg-Guarded, net_get_cereg-Guarded, net_get_spn-Guarded,
    net_set_attached-Guarded, net_is_attached-Guarded, net_wait_registered-Guarded,
    net_get_signal-Guarded, net_get_signal_ext-Guarded, net_get_operator-Guarded,
    net_set_operator-Guarded, net_get_info-Guarded,
  )
