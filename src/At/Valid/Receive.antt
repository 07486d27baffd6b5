-- ===== src/At/Valid/Receive.antt =====
-- The invariant rule of the receive loops, and that they keep the invariant of the handle.
use ec200_at_abstraction.Prelude.{
  ℕ, zero, suc, ◌-◌, ◌≡◌, refl, ℤ, pos, negsuc, List, [], ◌∷◌, Option, none, some, arith, sym,
}
use mathlib.Core.Path.{subst}
use ec200_at_abstraction.Text.{Text}
use ec200_at_abstraction.Handle.{Handle, Platform, Sys, Status, UrcEntry, err_io}
use ec200_at_abstraction.Exec.{Exec}
use ec200_at_abstraction.At.Rx.{
  RxCode, Got, call_read, slice_of, rx_ok, rx_timeout, rx_io_error, getc_answer, rx_getc, rx_feed,
  rx_received, rx_line, current_line,
}
use ec200_at_abstraction.At.Urc.{find_handler, call_entry, dispatch_registered_urc}
use ec200_at_abstraction.At.Transaction.{
  Body, LineStep, finish, more, run_body, line_round, line_loop,
}
use ec200_at_abstraction.At.Valid.Defs.{After, After-bind}

module _ {W : Type 0} (p : Platform W) where
  -- A read changes the world only.
  handle-getc_answer :
      (next : ℕ → Exec W Got) (budget : ℕ) (bytes : List ℕ) (r : ℤ) (s : Sys W)
      → ((b : ℕ) (s' : Sys W) → After (λ _ s''. s''.handle ≡ s'.handle) (next b s'))
      → After (λ _ s'. s'.handle ≡ s.handle) (getc_answer p next budget bytes r s)
  unfolding getc_answer
  handle-getc_answer next budget bytes (negsuc _) s rec = refl
  handle-getc_answer next budget bytes (pos (suc n)) s rec = refl
  handle-getc_answer next budget bytes (pos zero) s rec =
      ground (arith, rec (budget - slice_of budget) s)

  pub handle-rx_getc :
      (fuel budget : ℕ) (s : Sys W) → After (λ _ s'. s'.handle ≡ s.handle) (rx_getc p fuel budget s)
  unfolding rx_getc
  handle-rx_getc zero budget s = tt
  handle-rx_getc (suc fuel) budget s =
      let r = call_read p 1 (slice_of budget) s in
      handle-getc_answer (λ b. rx_getc p fuel b) budget r.bytes r.result
        (record s { world = r.after }) (handle-rx_getc fuel)

  handle-call_entry :
      (found : Option UrcEntry) (line : Text) (s : Sys W)
      → (call_entry p found line s).1.handle ≡ s.handle
  unfolding call_entry
  handle-call_entry none line s = refl
  handle-call_entry (some e) line s = ground arith

  -- What a dispatched handler does is outside the library's state.
  pub handle-dispatch :
      (line : Text) (s : Sys W) → (dispatch_registered_urc p line s).1.handle ≡ s.handle
  unfolding dispatch_registered_urc
  handle-dispatch line s = handle-call_entry (find_handler line s.handle.urc_table) line s

-- What every fed byte keeps, rx_line keeps.
module _ {W : Type 0} (p : Platform W) (P : Handle → Type 0)
    (feeds : (h : Handle) (ch : ℕ) → P h → P (rx_feed h ch).0) where
  rx_received-keeps :
      (next : ℕ → Exec W (RxCode × ℕ)) (g : Got) (s : Sys W)
      → ((b : ℕ) (s' : Sys W) → P s'.handle → After (λ _ s''. P s''.handle) (next b s'))
      → P s.handle
      → After (λ _ s'. P s'.handle) (rx_received p next g s)
  unfolding rx_received
  rx_received-keeps next g s rec h =
      let fed = feeds s.handle g.byte h in
      let after = rec g.budget (record s { handle = (rx_feed s.handle g.byte).0 }) fed in
      ground arith

  pub rx_line-keeps :
      (fuel budget : ℕ) (s : Sys W)
      → P s.handle
      → After (λ _ s'. P s'.handle) (rx_line p fuel budget s)
  unfolding rx_line
  rx_line-keeps zero budget s h = tt
  rx_line-keeps (suc fuel) budget s h =
      After-bind (λ _ s'. s'.handle ≡ s.handle) (λ _ s'. P s'.handle) (rx_getc p (suc fuel) budget)
        _ s (handle-rx_getc p (suc fuel) budget s)
        λ g s' same.
          rx_received-keeps _ g s' (λ b s'' k. rx_line-keeps fuel b s'' k) (subst P (sym same) h)

-- What a body leaves behind a line: `Q` if it returns, `P` if it goes on.
abbrev pub StepHolds :
    {W R : Type 0}
    → (R → Handle → Type 0)
    → (Status → R → Handle → Type 0)
    → LineStep R × Sys W
    → Type 0
StepHolds P Q (finish st r, s) = Q st r s.handle
StepHolds P Q (more r, s) = P r s.handle

-- The invariant rule of the loops over lines: `P` holds at the head of each round, `Q` of what the
-- function returns.
module _ {W R : Type 0} (p : Platform W) (on_timeout exhausted : Status) (body : Body W R)
    (P : R → Handle → Type 0) (Q : Status → R → Handle → Type 0)
    (feeds : (r : R) (h : Handle) (ch : ℕ) → P r h → P r (rx_feed h ch).0)
    (on_body : (line : Text) (r : R) (s : Sys W) → P r s.handle → StepHolds P Q (body line r s))
    (on_error : (r : R) (h : Handle)
      → P r h
      → Q err_io r h × Q on_timeout r h × Q exhausted r h) where
  run_body-holds :
      (line : Text) (r : R) (s : Sys W) → P r s.handle → StepHolds P Q (run_body body line r s)
  unfolding run_body
  run_body-holds [] r s h = h
  run_body-holds (c ∷ line) r s h = on_body (c ∷ line) r s h

  go_on :
      (next : ℕ → R → Exec W (Status × R)) (b : ℕ) (step : LineStep R × Sys W)
      → ((b : ℕ) (r : R) (s : Sys W)
          → P r s.handle
          → After (λ a s'. Q a.0 a.1 s'.handle) (next b r s))
      → StepHolds P Q step
      → After {A = Status × R}
          (λ a s'. Q a.0 a.1 s'.handle)
          (elim step.0 [ finish st r ↦ some ((st, r), step.1) | more r ↦ next b r step.1 ])
  go_on next b (finish st r, s) rec h = h
  go_on next b (more r, s) rec h = rec b r s h

  line_round-holds :
      (next : ℕ → R → Exec W (Status × R)) (r : R) (got : RxCode × ℕ) (s : Sys W)
      → ((b : ℕ) (r : R) (s : Sys W)
          → P r s.handle
          → After (λ a s'. Q a.0 a.1 s'.handle) (next b r s))
      → P r s.handle
      → After (λ a s'. Q a.0 a.1 s'.handle) (line_round p on_timeout exhausted body next r got s)
  unfolding line_round
  line_round-holds next r (rx_io_error, b) s rec h = (on_error r s.handle h).0
  line_round-holds next r (rx_timeout, b) s rec h = (on_error r s.handle h).1
  line_round-holds next r (rx_ok, b) s rec h =
      go_on next b (run_body body (current_line s.handle) r s) rec
        (run_body-holds (current_line s.handle) r s h)

  pub line_loop-holds :
      (fuel lines budget : ℕ) (r : R) (s : Sys W)
      → P r s.handle
      → After
          (λ a s'. Q a.0 a.1 s'.handle)
          (line_loop p on_timeout exhausted body fuel lines budget r s)
  unfolding line_loop
  line_loop-holds fuel zero budget r s h = (on_error r s.handle h).2
  line_loop-holds fuel (suc lines) budget r s h =
      After-bind (λ _ s'. P r s'.handle) (λ a s'. Q a.0 a.1 s'.handle) (rx_line p fuel budget) _ s
        (rx_line-keeps p (P r) (feeds r) fuel budget s h)
        λ got s' k.
          line_round-holds _ r got s' (λ b r' s'' k'. line_loop-holds fuel lines b r' s'' k') k
