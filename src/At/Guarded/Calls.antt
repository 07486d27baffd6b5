-- ===== src/At/Guarded/Calls.antt =====
-- The prompt command and the raw reads leave the handle valid.
use ec200_at_abstraction.Prelude.{
  ℕ, zero, suc, ◌≡◌, sym, ◌&&◌, [], ◌∷◌, Option, none, some, ◌==◌, if◌then◌else◌, if-elim,
}
use mathlib.Core.Path.{subst}
use ec200_at_abstraction.Text.{Text}
use ec200_at_abstraction.Handle.{Handle, Platform, Sys, Status, ok, err_parse}
use ec200_at_abstraction.Exec.{Exec}
use ec200_at_abstraction.At.Rx.{
  Got, RxCode, rx_ok, rx_timeout, rx_io_error, rx_getc, rx_feed, current_line,
}
use ec200_at_abstraction.At.Terminal.{
  Terminal, map_error_terminal, neither, success, failure, is_terminal,
}
use ec200_at_abstraction.At.Urc.{dispatch_registered_urc}
use ec200_at_abstraction.At.Tx.{at_transmit}
use ec200_at_abstraction.At.Prompt.{
  keep_byte, swallow_space, on_prompt_line, prompt_received, prompt_loop, at_send_prompt,
}
use ec200_at_abstraction.At.Valid.{After, After-weaken}
use ec200_at_abstraction.At.Valid.Receive.{handle-rx_getc, handle-dispatch}
use ec200_at_abstraction.At.Valid.Transact.{rx_feed-Safe, is_terminal-Safe}
use ec200_at_abstraction.At.Valid.Calls.{at_transmit-Safe}
use ec200_at_abstraction.At.Guarded.Rules.{Unharmed, Guarded, Guarded-bind, Guarded-if_ok}

module _ {W : Type 0} where
  -- What leaves the handle alone.
  pub Guarded-of_same :
      {A : Type 0} (m : Exec W A)
      → ((s : Sys W) → After (λ _ s'. s'.handle ≡ s.handle) (m s))
      → Guarded m
  Guarded-of_same m same = record {
    at = λ before s v.
        After-weaken (λ _ s'. s'.handle ≡ s.handle) _ (m s)
          (λ _ s' e. subst (Unharmed before) (sym e) v) (same s);
  }

module _ {W : Type 0} (p : Platform W) where
  keep_byte-Guarded : (g : Got) → Guarded (keep_byte p g)
  unfolding keep_byte
  keep_byte-Guarded g = record { at = λ before s v. by_code g.code before s v }
    where
      by_code :
          (code : RxCode) (before : Handle) (s : Sys W)
          → Unharmed before s.handle
          → After
              (λ _ s'. Unharmed before s'.handle)
              (elim code as (λ _. Option (Status × Sys W)) [
                | rx_ok ↦
                    if g.byte == b' '
                    then some (ok, s)
                    else some (ok, record s { handle = (rx_feed s.handle g.byte).0 })
                | _ ↦ some (ok, s)
              ])
      by_code rx_ok before s v =
          if-elim (After (λ _ s'. Unharmed before s'.handle)) (g.byte == b' ') _ _ (λ _. v)
            λ _. rx_feed-Safe before none none s.handle g.byte v
      by_code rx_timeout before s v = v
      by_code rx_io_error before s v = v

  on_prompt_line-Unharmed :
      (before : Handle) (line : Text) (s : Sys W)
      → Unharmed before s.handle
      → Unharmed before (on_prompt_line p line s).1.handle
  unfolding on_prompt_line
  on_prompt_line-Unharmed before [] s v = v
  on_prompt_line-Unharmed before (c ∷ line) s v = by_terminal (is_terminal s.handle (c ∷ line)).0
    where
      h : Handle
      h = (is_terminal s.handle (c ∷ line)).1

      v' : Unharmed before h
      v' = is_terminal-Safe before none none s.handle (c ∷ line) v

      by_terminal :
          (t : Terminal)
          → Unharmed before
              (elim t as (λ _. Option Status × Sys W) [
                | failure ↦ (some (map_error_terminal h), record s { handle = h })
                | success ↦ (some err_parse, record s { handle = h })
                | neither ↦
                    (none, (dispatch_registered_urc p (c ∷ line) (record s { handle = h })).1)
              ]).1.handle
      by_terminal failure = v'
      by_terminal success = v'
      by_terminal neither =
          subst (Unharmed before) (sym (handle-dispatch p (c ∷ line) (record s { handle = h }))) v'

  swallow_space-Guarded : (fuel : ℕ) → Guarded (swallow_space p fuel)
  unfolding swallow_space
  swallow_space-Guarded fuel =
      Guarded-bind (rx_getc p fuel 0) (keep_byte p) (Guarded-of_same _ (handle-rx_getc p fuel 0))
        keep_byte-Guarded

  answered-Unharmed :
      (before : Handle) (next : ℕ → Exec W Status) (b : ℕ) (answer : Option Status) (s : Sys W)
      → ((b : ℕ) → Guarded (next b))
      → Unharmed before s.handle
      → After {A = Status}
          (λ _ s'. Unharmed before s'.handle)
          (elim answer [ some st ↦ some (st, s) | none ↦ next b s ])
  answered-Unharmed before next b none s rec v = (rec b).at before s v
  answered-Unharmed before next b (some st) s rec v = v

  prompt_got-Unharmed :
      (fuel : ℕ) (next : ℕ → Exec W Status) (code : RxCode) (budget byte : ℕ) (before : Handle)
      (s : Sys W)
      → ((b : ℕ) → Guarded (next b))
      → Unharmed before s.handle
      → After
          (λ _ s'. Unharmed before s'.handle)
          (prompt_received p fuel next (record { code = code; budget = budget; byte = byte }) s)
  unfolding prompt_received
  prompt_got-Unharmed fuel next rx_io_error budget byte before s rec v = v
  prompt_got-Unharmed fuel next rx_timeout budget byte before s rec v = v
  prompt_got-Unharmed fuel next rx_ok budget byte before s rec v =
      let Q : Status → Sys W → Type 0 = λ _ s'. Unharmed before s'.handle in
      let fed : Sys W = record s { handle = (rx_feed s.handle byte).0 } in
      let v' : Unharmed before fed.handle = rx_feed-Safe before none none s.handle byte v in
      if-elim (After Q) (byte == b'>' && s.handle.rx_len == 0) _ _
        (λ _. (swallow_space-Guarded fuel).at before s v)
        λ _.
          if-elim (After Q) (rx_feed s.handle byte).1 _ _
            (λ _.
              answered-Unharmed before next budget
                (on_prompt_line p (current_line fed.handle) fed).0
                (on_prompt_line p (current_line fed.handle) fed).1 rec
                (on_prompt_line-Unharmed before (current_line fed.handle) fed v'))
            λ _. (rec budget).at before fed v'

  prompt_received-Guarded :
      (fuel : ℕ) (next : ℕ → Exec W Status) (g : Got)
      → ((b : ℕ) → Guarded (next b))
      → Guarded (prompt_received p fuel next g)
  prompt_received-Guarded fuel next g rec = record {
    at = λ before s v. prompt_got-Unharmed fuel next g.code g.budget g.byte before s rec v;
  }

  prompt_loop-Guarded : (fuel budget : ℕ) → Guarded (prompt_loop p fuel budget)
  unfolding prompt_loop
  prompt_loop-Guarded zero budget = record { at = λ before s v. tt }
  prompt_loop-Guarded (suc fuel) budget = record {
    at =
        (Guarded-bind (rx_getc p (suc fuel) budget)
          (prompt_received p (suc fuel) (prompt_loop p fuel))
          (Guarded-of_same _ (handle-rx_getc p (suc fuel) budget))
          λ g.
            prompt_received-Guarded (suc fuel) (prompt_loop p fuel) g
              (prompt_loop-Guarded fuel)).at;
  }

  pub Guarded-at_send_prompt :
      (fuel : ℕ) (cmd : Option Text) (t : ℕ) → Guarded (at_send_prompt p fuel cmd t)
  unfolding at_send_prompt
  Guarded-at_send_prompt fuel none t = record { at = λ before s v. v }
  Guarded-at_send_prompt fuel (some cmd) t = record {
    at = λ before s v.
        if-elim (After (λ _ s'. Unharmed before s'.handle)) s.handle.initialised _ _
          (λ _.
            (Guarded-bind (at_transmit p fuel cmd) _
                (record { at = λ before s v. at_transmit-Safe p before none none fuel cmd s v })
                λ st. Guarded-if_ok st (prompt_loop p fuel t) (prompt_loop-Guarded fuel t)).at
              before s v)
          λ _. v;
  }
