-- ===== src/At/Lines/Returns.antt =====
-- When the receive loops return: on a stream of finitely many bytes always, and on an endless line never.
use ec200_at_abstraction.Prelude.{
  ℕ, zero, suc, ◌+◌, ◌-◌, ◌≤◌, ◌<◌, ◌≡◌, ◌≢◌, refl, sym, ap, ◌∙◌, List, [], ◌∷◌, none, some, arith,
  ◌==◌, if-elim, length, length-drop, get_or, ℤ, pos, negsuc, ==_iff,
}
use ec200_at_abstraction.Text.{Text}
use ec200_at_abstraction.Handle.{Platform, Sys, Status}
use ec200_at_abstraction.Exec.{Exec, bind_result}
use ec200_at_abstraction.At.Rx.{
  RxCode, Got, rx_ok, rx_timeout, rx_io_error, rx_feed, getc_answer, rx_getc, rx_received, rx_line,
  call_read, slice_of, current_line,
}
use ec200_at_abstraction.At.Transaction.{
  Body, LineStep, finish, more, run_body, line_round, line_loop,
}
use ec200_at_abstraction.At.Valid.{Total, Total-bind, Total-weaken}
use ec200_at_abstraction.At.Lines.Spec.{lf, Stream}
use ec200_at_abstraction.At.Lines.Feed.{complete-rx_feed}

-- A received byte is paid for by the stream.
abbrev pub cost : RxCode → ℕ
cost rx_ok = 1
cost _ = 0

module _ {W : Type 0} (p : Platform W) (st : Stream p) where
  open st use {incoming}

  -- The bytes to come and the milliseconds left.
  abbrev pub remaining : ℕ → Sys W → ℕ
  remaining budget s = length (incoming s.world) + budget

  abbrev pub Paid : ℕ → RxCode → ℕ → Sys W → Type 0
  Paid before code budget s' = remaining budget s' + cost code ≤ before

  getc_answer-Paid :
      (next : ℕ → Exec W Got) (budget : ℕ) (r : ℤ) (s : Sys W)
      → (result : (call_read p 1 (slice_of budget) s).result ≡ r)
      → ((b : ℕ) (s' : Sys W)
          → b < budget
          → Total (λ g. Paid (remaining b s') g.code g.budget) (next b s'))
      → let reading = call_read p 1 (slice_of budget) s in
        Total
          (λ g. Paid (remaining budget s) g.code g.budget)
          (getc_answer p next budget reading.bytes r (record s { world = reading.after }))
  unfolding getc_answer
  getc_answer-Paid next budget (negsuc n) s e rec =
      omega (
        arith,
        ap length (st.fails s.handle.read 1 (slice_of budget) s.handle.user_ctx s.world n e),
      )
  getc_answer-Paid next budget (pos (suc n)) s e rec =
      let (one, fits, bytes, rest) =
        st.delivers s.handle.read 1 (slice_of budget) s.handle.user_ctx s.world n e in
      omega (arith, ap length rest, length-drop (suc n) (incoming s.world))
  getc_answer-Paid next budget (pos zero) s e rec =
      let w = (call_read p 1 (slice_of budget) s).after in
      let s' : Sys W = record s { world = w } in
      let same =
        ap length (st.waits s.handle.read 1 (slice_of budget) s.handle.user_ctx s.world e) in
      if-elim (Total {A = Got} (λ g. Paid (remaining budget s) g.code g.budget)) (budget == 0) _ _
        (λ _. omega arith)
        λ more.
          Total-weaken (λ (g : Got). Paid (remaining (budget - slice_of budget) s') g.code g.budget)
            (λ (g : Got). Paid (remaining budget s) g.code g.budget)
            (next (budget - slice_of budget) s') (λ g s'' h. omega arith)
            (rec (budget - slice_of budget) s' (ground arith))

  rx_getc-returns :
      (fuel budget : ℕ) (s : Sys W)
      → budget < fuel
      → Total (λ g. Paid (remaining budget s) g.code g.budget) (rx_getc p fuel budget s)
  unfolding rx_getc
  rx_getc-returns zero budget s h = absurd (omega arith)
  rx_getc-returns (suc fuel) budget s h =
      getc_answer-Paid (λ b. rx_getc p fuel b) budget _ s refl
        λ b s' lt. rx_getc-returns fuel b s' (omega arith)

  rx_received-Paid :
      (next : ℕ → Exec W (RxCode × ℕ)) (before budget c : ℕ) (code : RxCode) (s : Sys W)
      → ((b : ℕ) (s' : Sys W)
          → remaining b s' < before
          → Total (λ a. Paid (remaining b s') a.0 a.1) (next b s'))
      → Paid before code budget s
      → Total
          (λ a. Paid before a.0 a.1)
          (rx_received p next (record { code = code; budget = budget; byte = c }) s)
  unfolding rx_received
  rx_received-Paid next before budget c rx_ok s rec h =
      let fed : Sys W = record s { handle = (rx_feed s.handle c).0 } in
      if-elim (Total {A = RxCode × ℕ} (λ a. Paid before a.0 a.1)) (rx_feed s.handle c).1 _ _
        (λ _. h)
        λ _.
          Total-weaken (λ (a : RxCode × ℕ). Paid (remaining budget fed) a.0 a.1)
            (λ (a : RxCode × ℕ). Paid before a.0 a.1) (next budget fed) (λ a s' k. omega arith)
            (rec budget fed (omega arith))
  rx_received-Paid next before budget c rx_timeout s rec h = h
  rx_received-Paid next before budget c rx_io_error s rec h = h

  -- On a stream that is finite, rx_line returns once the fuel passes the bytes to come and the budget;
  -- and what it consumed is no longer to come.
  pub rx_line-returns :
      (fuel budget : ℕ) (s : Sys W)
      → remaining budget s < fuel
      → Total (λ a. Paid (remaining budget s) a.0 a.1) (rx_line p fuel budget s)
  unfolding rx_line
  rx_line-returns zero budget s h = absurd (omega arith)
  rx_line-returns (suc fuel) budget s h =
      Total-bind (λ g. Paid (remaining budget s) g.code g.budget)
        (λ a. Paid (remaining budget s) a.0 a.1) (rx_getc p (suc fuel) budget) _ s
        (rx_getc-returns (suc fuel) budget s (omega arith))
        λ g s' paid.
          rx_received-Paid (λ b. rx_line p fuel b) (remaining budget s) g.budget g.byte g.code s'
            (λ b s'' lt. rx_line-returns fuel b s'' (omega arith)) paid

-- A loop over lines returns too, if its body leaves the stream alone.
module _ {W R : Type 0} (p : Platform W) (st : Stream p) (on_timeout exhausted : Status)
    (body : Body W R)
    (quiet : (line : Text) (r : R) (s : Sys W)
      → st.incoming (body line r s).1.world ≡ st.incoming s.world) where
  open st use {incoming}

  abbrev Shrinks : ℕ → Sys W → Type 0
  Shrinks before s' = length (incoming s'.world) ≤ before

  quiet-run_body :
      (line : Text) (r : R) (s : Sys W)
      → incoming (run_body body line r s).1.world ≡ incoming s.world
  unfolding run_body
  quiet-run_body [] r s = refl
  quiet-run_body (c ∷ line) r s = quiet (c ∷ line) r s

  step-returns :
      (next : ℕ → R → Exec W (Status × R)) (b before : ℕ) (step : LineStep R × Sys W)
      → length (incoming step.1.world) ≤ before
      → ((r : R) → Total {A = Status × R} (λ _. Shrinks before) (next b r step.1))
      → Total {A = Status × R}
          (λ _. Shrinks before)
          (elim step.0 [ finish t r ↦ some ((t, r), step.1) | more r ↦ next b r step.1 ])
  step-returns next b before (finish t r, s) h rec = h
  step-returns next b before (more r, s) h rec = rec r

  line_round-returns :
      (next : ℕ → R → Exec W (Status × R)) (r : R) (fuel before : ℕ) (code : RxCode) (b : ℕ)
      (s : Sys W)
      → ((b' : ℕ) (r : R) (s' : Sys W)
          → remaining p st b' s' < fuel
          → Total {A = Status × R} (λ _. Shrinks (remaining p st b' s')) (next b' r s'))
      → remaining p st b s ≤ before
      → remaining p st b s < fuel
      → Total {A = Status × R}
          (λ _. Shrinks before)
          (line_round p on_timeout exhausted body next r (code, b) s)
  unfolding line_round
  line_round-returns next r fuel before rx_io_error b s rec h left = omega arith
  line_round-returns next r fuel before rx_timeout b s rec h left = omega arith
  line_round-returns next r fuel before rx_ok b s rec h left =
      let step = run_body body (current_line s.handle) r s in
      let same = ap length (quiet-run_body (current_line s.handle) r s) in
      step-returns next b before step (omega arith) λ r'.
        Total-weaken {A = Status × R} (λ _. Shrinks (remaining p st b step.1)) (λ _. Shrinks before)
          (next b r' step.1) (λ _ s' k. omega arith) (rec b r' step.1 (omega arith))

  pub line_loop-returns :
      (fuel lines budget : ℕ) (r : R) (s : Sys W)
      → remaining p st budget s < fuel
      → Total {A = Status × R}
          (λ _. Shrinks (remaining p st budget s))
          (line_loop p on_timeout exhausted body fuel lines budget r s)
  unfolding line_loop
  line_loop-returns fuel zero budget r s h = omega arith
  line_loop-returns fuel (suc lines) budget r s h =
      Total-bind (λ a. Paid p st (remaining p st budget s) a.0 a.1)
        (λ _. Shrinks (remaining p st budget s)) (rx_line p fuel budget) _ s
        (rx_line-returns p st fuel budget s h)
        λ got s' paid.
          line_round-returns (λ b r'. line_loop p on_timeout exhausted body fuel lines b r') r fuel
            (remaining p st budget s) got.0 got.1 s'
            (λ b r' s'' left. line_loop-returns fuel lines b r' s'' left) (omega arith)
            (omega arith)

-- A UART that delivers a byte other than LF at every read, however late, keeps rx_line from returning:
-- no read is ever charged to the budget, and the line never ends.
module _ {W : Type 0} (p : Platform W)
    (trickles : (f len t ctx : ℕ) (w : W)
      → ((p.read f len t ctx w).result ≡ pos 1)
        × (get_or (p.read f len t ctx w).bytes 0 0 ≢ lf)) where
  getc_trickle :
      (next : ℕ → Exec W Got) (budget : ℕ) (bytes : List ℕ) (r : ℤ) (s : Sys W)
      → r ≡ pos 1
      → getc_answer p next budget bytes r s
        ≡ some (record { code = rx_ok; budget = budget; byte = get_or bytes 0 0 }, s)
  unfolding getc_answer
  getc_trickle next budget bytes r s e = rw e refl

  received_stuck :
      (next : ℕ → Exec W (RxCode × ℕ)) (budget c : ℕ) (s : Sys W)
      → c ≢ lf
      → ((b : ℕ) (s' : Sys W) → next b s' ≡ none)
      → rx_received p next (record { code = rx_ok; budget = budget; byte = c }) s ≡ none
  unfolding rx_received
  received_stuck next budget c s n rec =
      if-elim (λ o. o ≡ none) (rx_feed s.handle c).1 _ _
        (λ done. absurd (n ((==_iff c lf).0 (sym (complete-rx_feed s.handle c) ∙ done))))
        λ _. rec budget (record s { handle = (rx_feed s.handle c).0 })

  pub rx_line_stuck : (fuel budget : ℕ) (s : Sys W) → rx_line p fuel budget s ≡ none
  unfolding rx_line rx_getc
  rx_line_stuck zero budget s = refl
  rx_line_stuck (suc fuel) budget s =
      let r = call_read p 1 (slice_of budget) s in
      let (one, no_lf) = trickles s.handle.read 1 (slice_of budget) s.handle.user_ctx s.world in
      let s' : Sys W = record s { world = r.after } in
      let next = λ (b : ℕ). rx_line p fuel b in
      ap (λ o. bind_result o (rx_received p next))
        (getc_trickle (λ b. rx_getc p fuel b) budget r.bytes r.result s' one)
      ∙ received_stuck next budget (get_or r.bytes 0 0) s' no_lf (rx_line_stuck fuel)
