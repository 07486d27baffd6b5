-- ===== src/At/Outcome/Prefixed.antt =====
-- The line that a transaction with a prefix hands to its caller.
use ec200_at_abstraction.Prelude.{
  ℕ, ◌≡◌, ◌≢◌, refl, ap, Bool, true, false, not, ◌&&◌, ◌||◌, some, arith, if◌then◌else◌, if-elim,
}
use ec200_at_abstraction.Text.{Text, starts_with}
use ec200_at_abstraction.Handle.{
  Handle, Platform, Sys, Status, ok, err_parse, err_timeout, err_overflow, max_lines,
}
use ec200_at_abstraction.Exec.{Exec}
use ec200_at_abstraction.At.Rx.{rx_feed}
use ec200_at_abstraction.At.Terminal.{
  Terminal, neither, success, failure, is_terminal, map_error_terminal,
}
use ec200_at_abstraction.At.Urc.{dispatch_registered_urc}
use ec200_at_abstraction.At.Tx.{at_transmit}
use ec200_at_abstraction.At.Transaction.{
  Buffer, LineStep, finish, more, accumulate, Receipt, copy_line, clear_buffer, on_terminal,
  on_other_line, on_line, receive_transaction, line_loop,
}
use ec200_at_abstraction.At.Command.{after_transmit, transmit_then, at_send_wait, at_send_expect}
use ec200_at_abstraction.At.Valid.{After, After-bind, After-weaken, After-trivial}
use ec200_at_abstraction.At.Valid.Receive.{StepHolds, line_loop-holds}

-- `out` is `b` with a line copied into it that starts with the prefix.
abbrev pub HoldsLine : Text → Buffer → Buffer → Type 0
HoldsLine prefix b out = (line : Text) × (starts_with prefix line ≡ true) × (out ≡ copy_line line b)

map_error-ne-ok : (h : Handle) → (map_error_terminal h ≢ ok) × (map_error_terminal h ≢ err_parse)
unfolding map_error_terminal
map_error-ne-ok h = (ground arith, ground arith)

or_true : (b : Bool) → (b || true) ≢ false
or_true b = ground arith

module _ {W : Type 0} (p : Platform W) (prefix : Text) (b : Buffer) where
  -- Before and after the match.
  abbrev Matched : Receipt → Handle → Type 0
  Matched r h = (r.matched ≡ false → r.resp ≡ b) × (r.matched ≡ true → HoldsLine prefix b r.resp)

  abbrev Answer : Status → Buffer → Type 0
  Answer st out = (st ≡ ok → HoldsLine prefix b out) × (st ≡ err_parse → out ≡ b)

  on_terminal-Answer :
      (line : Text) (r : Receipt) (t : Terminal) (s : Sys W)
      → Matched r s.handle
      → StepHolds Matched (λ st r _. Answer st r.resp) (on_terminal p (some prefix) line r t s)
  unfolding on_terminal
  on_terminal-Answer line r success s m =
      if-elim (StepHolds Matched (λ st r _. Answer st r.resp)) (not r.matched)
        (finish err_parse r, s) (finish ok r, s)
        (λ none_yet. ((λ e. cc), (λ _. m.0 (ground arith))))
        (λ seen. ((λ _. m.1 (ground arith)), (λ e. cc)))
  on_terminal-Answer line r failure s m = (
    (λ e. absurd ((map_error-ne-ok s.handle).0 e)),
    (λ e. absurd ((map_error-ne-ok s.handle).1 e)),
  )
  on_terminal-Answer line r neither s m =
      let (dispatched, s') = dispatch_registered_urc p line s in
      if-elim (λ (r' : Receipt). Matched r' s'.handle) (dispatched || true) r (accumulate line r)
        (λ _. m) (λ e. absurd (or_true dispatched e))

  on_line-Answer :
      (stop : Bool) (line : Text) (r : Receipt) (s : Sys W)
      → Matched r s.handle
      → StepHolds Matched (λ st r _. Answer st r.resp) (on_line p (some prefix) stop line r s)
  unfolding on_line on_other_line
  on_line-Answer stop line r s m =
      let (t, h) = is_terminal s.handle line in
      let r' : Receipt = record r { matched = true; resp = copy_line line r.resp } in
      let other = on_terminal p (some prefix) line r t (record s { handle = h }) in
      let hit : LineStep Receipt × Sys W = if stop then (finish ok r', s) else (more r', s) in
      if-elim (StepHolds Matched (λ st r _. Answer st r.resp))
        (starts_with prefix line && not r.matched) hit other
        (λ first.
          let holds : HoldsLine prefix b r'.resp =
            (line, ground arith, ap (copy_line line) (m.0 (ground arith))) in
          if-elim (StepHolds Matched (λ st r _. Answer st r.resp)) stop (finish ok r', s)
            (more r', s) (λ _. ((λ _. holds), (λ e. cc))) (λ _. ((λ e. cc), (λ _. holds))))
        λ _. on_terminal-Answer line r t (record s { handle = h }) m

  feed-Matched : (r : Receipt) (h : Handle) (ch : ℕ) → Matched r h → Matched r (rx_feed h ch).0
  feed-Matched r h ch m = m

module _ {W : Type 0} (p : Platform W) (prefix : Text) where
  receive-Answer :
      (fuel : ℕ) (stop : Bool) (b : Buffer) (t : ℕ) (s : Sys W)
      → After
          (λ a _. Answer p prefix (clear_buffer b) a.0 a.1)
          (receive_transaction p fuel (some prefix) stop b t s)
  unfolding receive_transaction
  receive-Answer fuel stop b t s =
      After-bind (λ a _. Answer p prefix (clear_buffer b) a.0 a.1.resp)
        (λ a _. Answer p prefix (clear_buffer b) a.0 a.1) (line_loop p _ _ _ fuel max_lines t _) _ s
        (line_loop-holds p err_timeout err_overflow (on_line p (some prefix) stop)
          (Matched p prefix (clear_buffer b)) (λ st r _. Answer p prefix (clear_buffer b) st r.resp)
          (feed-Matched p prefix (clear_buffer b)) (on_line-Answer p prefix (clear_buffer b) stop)
          (λ r h m. (((λ e. cc), (λ e. cc)), ((λ e. cc), (λ e. cc)), ((λ e. cc), (λ e. cc)))) fuel
          max_lines t _ s ((λ _. refl), (λ e. cc)))
        λ a s' k. k

  after_transmit-Prefixed :
      (b : Buffer) (next : Exec W (Status × Buffer))
      → ((s : Sys W) → After (λ a _. Answer p prefix (clear_buffer b) a.0 a.1) (next s))
      → (st : Status) (s : Sys W)
      → After
          (λ a _. a.0 ≡ ok → HoldsLine prefix (clear_buffer b) a.1)
          (after_transmit p b next st s)
  unfolding after_transmit
  after_transmit-Prefixed b next rec ok s =
      After-weaken (λ a _. Answer p prefix (clear_buffer b) a.0 a.1)
        (λ a _. a.0 ≡ ok → HoldsLine prefix (clear_buffer b) a.1) (next s) (λ a s' k. k.0) (rec s)
  after_transmit-Prefixed b next rec _ s = λ e. cc

  transmit_then-Prefixed :
      (fuel : ℕ) (cmd : Text) (b : Buffer) (next : Exec W (Status × Buffer)) (s : Sys W)
      → ((s' : Sys W) → After (λ a _. Answer p prefix (clear_buffer b) a.0 a.1) (next s'))
      → After
          (λ a _. a.0 ≡ ok → HoldsLine prefix (clear_buffer b) a.1)
          (transmit_then p fuel cmd b next s)
  unfolding transmit_then
  transmit_then-Prefixed fuel cmd b next s rec =
      if-elim
        (After {A = Status × Buffer} (λ a _. a.0 ≡ ok → HoldsLine prefix (clear_buffer b) a.1))
        s.handle.initialised _ _
        (λ _.
          After-bind (λ _ _. Unit {0}) (λ a _. a.0 ≡ ok → HoldsLine prefix (clear_buffer b) a.1)
            (at_transmit p fuel cmd) (after_transmit p b next) s
            (After-trivial (at_transmit p fuel cmd s))
            (λ st s' _. after_transmit-Prefixed b next rec st s'))
        λ _ e. cc

  -- When ec200_at_send_wait or ec200_at_send_expect returns EC200_OK, the caller's buffer holds the copy
  -- of a line that starts with the prefix, and nothing else was written to it since it was cleared.
  pub prefixed_line :
      (fuel : ℕ) (cmd : Text) (b : Buffer) (t : ℕ) (s : Sys W)
      → After
          (λ a _. a.0 ≡ ok → HoldsLine prefix (clear_buffer b) a.1)
          (at_send_wait p fuel (some cmd) (some prefix) b t s)
        × After
            (λ a _. a.0 ≡ ok → HoldsLine prefix (clear_buffer b) a.1)
            (at_send_expect p fuel (some cmd) (some prefix) b t s)
  unfolding at_send_wait at_send_expect
  prefixed_line fuel cmd b t s = (
    transmit_then-Prefixed fuel cmd b _ s (receive-Answer fuel false b t),
    transmit_then-Prefixed fuel cmd b _ s (receive-Answer fuel true b t),
  )
