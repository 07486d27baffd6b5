-- ===== src/Ppp/Modes.antt =====
-- The PPP control plane as a machine with two modes.
use ec200_at_abstraction.Prelude.{
  ℕ, ◌≤◌, ◌≡◌, refl, if_true, if_false, sym, ◌∙◌, Bool, true, false, not, ◌||◌, ltb, if-elim, none,
  some, arith,
}
use mathlib.Core.Path.{subst}
use ec200_at_abstraction.Text.{Text, codes}
use ec200_at_abstraction.Handle.{
  Handle, Platform, Sys, Status, is_ok, ok, err_param, err_busy, err_module, err_cme, err_cms,
  timeout_long, timeout_default,
}
use ec200_at_abstraction.Exec.{◌>>=◌}
use ec200_at_abstraction.At.Tx.{write_raw}
use ec200_at_abstraction.At.Wait.{wait_final}
use ec200_at_abstraction.At.Command.{at_send, at_send_expect}
use ec200_at_abstraction.At.Valid.{IsValid, After, After-bind, After-weaken, After-both}
use ec200_at_abstraction.At.Valid.Calls.{
  at_send-Safe, at_send_expect-Safe, wait_final-Safe, handle-write_raw,
}
use ec200_at_abstraction.At.Sent.{status-write_raw}
use ec200_at_abstraction.Query.{send_command, expect, local_array}
use ec200_at_abstraction.Ppp.{
  dial_command, set_data_mode, enter_data_mode, leave_data_mode, guard_delay, escape_sent, escaped,
  ppp_dial, ppp_escape, ppp_resume, ppp_hangup, ppp_disconnect,
}

-- The handle is valid and in the given mode.
abbrev pub InMode : Bool → Handle → Type 0
InMode mode h = IsValid h × (h.ppp_data_mode ≡ mode)

-- The status after which the module has left data mode: it answered, with whatever result.
abbrev pub has_left : Status → Bool
has_left ok = true
has_left err_module = true
has_left err_cme = true
has_left err_cms = true
has_left _ = false

-- What ec200_ppp_disconnect leaves: EC200_OK means command mode.
abbrev pub Hung : {W : Type 0} → Status → Sys W → Type 0
Hung st s = IsValid s.handle × (st ≡ ok → s.handle.ppp_data_mode ≡ false)

module _ {W : Type 0} (p : Platform W) (fuel : ℕ) where
  expect-mode :
      (cmd prefix : Text) (size t : ℕ) (m : Bool) (s : Sys W)
      → InMode m s.handle
      → After (λ _ s'. InMode m s'.handle) (expect p fuel cmd prefix size t s)
  expect-mode cmd prefix size t m s (v, e) =
      After-bind (λ _ s'. InMode m s'.handle) (λ _ s'. InMode m s'.handle)
        (at_send_expect p fuel (some cmd) (some prefix) (local_array size) t) _ s
        (After-weaken _ (λ _ s'. InMode m s'.handle) _ (λ a s' k. (k.valid, k.mode_kept ∙ e))
          (at_send_expect-Safe p fuel s (local_array size) v (some cmd) (some prefix) t))
        λ _ s' k. k

  send-mode :
      (cmd : Text) (t : ℕ) (m : Bool) (s : Sys W)
      → InMode m s.handle
      → After (λ _ s'. InMode m s'.handle) (send_command p fuel cmd t s)
  send-mode cmd t m s (v, e) =
      After-bind (λ _ s'. InMode m s'.handle) (λ _ s'. InMode m s'.handle)
        (at_send p fuel (some cmd) none t) _ s
        (After-weaken _ (λ _ s'. InMode m s'.handle) _ (λ a s' k. (k.valid, k.mode_kept ∙ e))
          (at_send-Safe p fuel s none v (some cmd) t))
        λ _ s' k. k

  set-InMode :
      (on : Bool) (s : Sys W) → IsValid s.handle → InMode on (set_data_mode p fuel on s).handle
  unfolding set_data_mode
  set-InMode on s v = (
    record {
      rx_size = v.rx_size;
      rx_room = v.rx_room;
      tx_size = v.tx_size;
      err_size = v.err_size;
      table_size = v.table_size;
      kind_known = v.kind_known;
    },
    refl,
  )

  enter-InMode :
      (st : Status) (s : Sys W)
      → InMode false s.handle
      → After (λ st s'. InMode (is_ok st) s'.handle) (enter_data_mode p fuel st s)
  unfolding enter_data_mode
  enter-InMode ok s (v, e) = set-InMode true s v
  enter-InMode _ s k = k

  leave-InMode :
      (st : Status) (s : Sys W)
      → InMode true s.handle
      → After (λ st s'. InMode (not (has_left st)) s'.handle) (leave_data_mode p fuel st s)
  unfolding leave_data_mode
  leave-InMode ok s (v, e) = set-InMode false s v
  leave-InMode err_module s (v, e) = set-InMode false s v
  leave-InMode err_cme s (v, e) = set-InMode false s v
  leave-InMode err_cms s (v, e) = set-InMode false s v
  leave-InMode _ s k = k

  -- Behind the "+++": ec200_at_write_raw reported `st`.
  sent-InMode :
      (st : Status) (s : Sys W)
      → InMode true s.handle
      → (is_ok st ≡ has_left st)
      → After (λ st s'. InMode (not (has_left st)) s'.handle) (escape_sent p fuel st s)
  unfolding escape_sent guard_delay
  sent-InMode ok s (v, e) f =
      After-bind (λ _ s'. InMode true s'.handle) (λ st s'. InMode (not (has_left st)) s'.handle)
        (wait_final p fuel timeout_default) _ (guard_delay p fuel s)
        (After-weaken _ (λ _ s'. InMode true s'.handle) _ (λ _ s' k. (k.valid, k.mode_kept ∙ e))
          (wait_final-Safe p s.handle none none fuel timeout_default (guard_delay p fuel s)
            (record {
              valid = v;
              sized = refl;
              table_kept = refl;
              mode_kept = refl;
              ready_kept = refl;
            })))
        leave-InMode
  sent-InMode err_module s k f = cc
  sent-InMode err_cme s k f = cc
  sent-InMode err_cms s k f = cc
  sent-InMode _ s k f = k

  escape-InMode :
      (s : Sys W)
      → InMode true s.handle
      → After (λ st s'. InMode (not (has_left st)) s'.handle) (ppp_escape p fuel s)
  unfolding ppp_escape guard_delay
  escape-InMode s (v, e) =
      if-elim (After (λ st s'. InMode (not (has_left st)) s'.handle)) s.handle.ppp_data_mode _ _
        (λ _.
          After-bind (λ st s'. (s'.handle ≡ s.handle) × (is_ok st ≡ has_left st))
            (λ st s'. InMode (not (has_left st)) s'.handle) (write_raw p fuel (some (codes "+++")))
            _ (guard_delay p fuel s)
            (After-both _ _ _ (handle-write_raw p fuel (some (codes "+++")) (guard_delay p fuel s))
              (status-write_raw p (λ st. is_ok st ≡ has_left st) refl refl refl refl fuel
                (some (codes "+++")) (guard_delay p fuel s)))
            λ st s' (same, f). sent-InMode st s' (subst (InMode true) (sym same) (v, e)) f)
        (λ f. (v, e))

  hangup-InMode :
      (m : Bool) (s : Sys W)
      → InMode m s.handle
      → After (λ _ s'. InMode m s'.handle) (ppp_hangup p fuel s)
  unfolding ppp_hangup
  hangup-InMode m s k =
      if-elim (After (λ _ s'. InMode m s'.handle)) s.handle.ppp_data_mode _ _ (λ _. k)
        (λ _. send-mode (codes "ATH") timeout_long m s k)

  connect-InMode :
      (cmd prefix : Text) (size t : ℕ) (s : Sys W)
      → InMode false s.handle
      → After
          (λ st s'. InMode (is_ok st) s'.handle)
          ((expect p fuel cmd prefix size t >>= enter_data_mode p fuel) s)
  connect-InMode cmd prefix size t s k =
      After-bind (λ _ s'. InMode false s'.handle) (λ st s'. InMode (is_ok st) s'.handle)
        (expect p fuel cmd prefix size t) _ s (expect-mode cmd prefix size t false s k) enter-InMode

  dial-InMode :
      (cid : ℕ) (s : Sys W)
      → InMode false s.handle
      → After (λ st s'. InMode (is_ok st) s'.handle) (ppp_dial p fuel cid s)
  unfolding ppp_dial
  dial-InMode cid s k =
      if-elim (After (λ st s'. InMode (is_ok st) s'.handle)) (ltb cid 1 || ltb 16 cid) _ _ (λ _. k)
        λ _.
          if-elim (After (λ st s'. InMode (is_ok st) s'.handle)) s.handle.ppp_data_mode _ _ (λ _. k)
            λ _. connect-InMode (dial_command cid) (codes "CONNECT") 32 timeout_long s k

  resume-InMode :
      (s : Sys W)
      → InMode false s.handle
      → After (λ st s'. InMode (is_ok st) s'.handle) (ppp_resume p fuel s)
  unfolding ppp_resume
  resume-InMode s k =
      if-elim (After (λ st s'. InMode (is_ok st) s'.handle)) s.handle.ppp_data_mode _ _ (λ _. k)
        λ _. connect-InMode (codes "ATO") (codes "CONNECT") 32 timeout_default s k

  -- From command mode, ec200_ppp_dial and ec200_ppp_resume enter data mode exactly when they return
  -- EC200_OK, and ec200_ppp_hangup and ec200_ppp_disconnect stay in command mode; the handle stays valid.
  pub from_command_mode :
      (cid : ℕ) (s : Sys W)
      → IsValid s.handle
      → s.handle.ppp_data_mode ≡ false
      → After (λ st s'. InMode (is_ok st) s'.handle) (ppp_dial p fuel cid s)
        × After (λ st s'. InMode (is_ok st) s'.handle) (ppp_resume p fuel s)
        × After (λ _ s'. InMode false s'.handle) (ppp_hangup p fuel s)
        × After (λ _ s'. InMode false s'.handle) (ppp_disconnect p fuel s)
  unfolding ppp_disconnect
  from_command_mode cid s v e = (
    dial-InMode cid s (v, e),
    resume-InMode s (v, e),
    hangup-InMode false s (v, e),
    subst (After (λ _ s'. InMode false s'.handle)) (sym (if_false s.handle.ppp_data_mode _ _ e))
        (hangup-InMode false s (v, e)),
  )

  escaped-Hung :
      (st : Status) (s : Sys W)
      → InMode (not (has_left st)) s.handle
      → After Hung (escaped p fuel st s)
  unfolding escaped
  escaped-Hung ok s k =
      After-weaken _ Hung _ (λ st s' (v, e). (v, λ _. e)) (hangup-InMode false s k)
  escaped-Hung st s k =
      if-elim (After Hung) s.handle.ppp_data_mode _ _ (λ _. (k.0, λ i. cc))
        λ e. After-weaken _ Hung _ (λ st s' (v, e). (v, λ _. e)) (hangup-InMode false s (k.0, e))

  -- From data mode, ec200_ppp_escape returns to command mode exactly when the module answered, with OK or
  -- with an error, and after ec200_ppp_disconnect a status EC200_OK says that the handle is in command
  -- mode; dialling, resuming and hanging up are refused with the state unchanged. The handle stays valid.
  pub from_data_mode :
      (cid : ℕ) (s : Sys W)
      → IsValid s.handle
      → s.handle.ppp_data_mode ≡ true
      → After (λ st s'. InMode (not (has_left st)) s'.handle) (ppp_escape p fuel s)
        × After Hung (ppp_disconnect p fuel s)
        × (1 ≤ cid → cid ≤ 16 → ppp_dial p fuel cid s ≡ some (err_busy, s))
        × (ppp_resume p fuel s ≡ some (err_busy, s))
        × (ppp_hangup p fuel s ≡ some (err_param, s))
  unfolding ppp_disconnect ppp_dial ppp_resume ppp_hangup
  from_data_mode cid s v e = (
    escape-InMode s (v, e),
    subst (After Hung) (sym (if_true s.handle.ppp_data_mode _ _ e)) (
        After-bind (λ st s'. InMode (not (has_left st)) s'.handle) Hung (ppp_escape p fuel)
          (escaped p fuel) s (escape-InMode s (v, e)) escaped-Hung),
    (λ l r. ground arith),
    if_true s.handle.ppp_data_mode _ _ e,
    if_true s.handle.ppp_data_mode _ _ e,
  )
