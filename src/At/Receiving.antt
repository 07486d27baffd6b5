-- ===== src/At/Receiving.antt =====
-- What every read callback and every URC handler keeps of the world, the receiving functions keep.
pub mod Calls
use ec200_at_abstraction.Prelude.{
  ℕ, zero, suc, ◌-◌, Bool, true, false, ℤ, pos, negsuc, List, [], ◌∷◌, Option, none, some, arith,
  if-elim, ◌==◌, ◌&&◌, Bool-cases, inl, inr,
}
use ec200_at_abstraction.Text.{Text}
use ec200_at_abstraction.Handle.{Platform, Ptr, Sys, Status, UrcEntry, is_null}
use ec200_at_abstraction.Exec.{Exec, pure, ◌>>=◌}
use ec200_at_abstraction.At.Rx.{
  RxCode, Got, rx_ok, rx_timeout, rx_io_error, call_read, slice_of, getc_answer, rx_getc, rx_feed,
  rx_received, rx_line, current_line,
}
use ec200_at_abstraction.At.Terminal.{Terminal, neither, success, failure, is_terminal}
use ec200_at_abstraction.At.Urc.{find_handler, call_entry, dispatch_registered_urc}
use ec200_at_abstraction.At.Transaction.{
  Body, LineStep, finish, more, run_body, line_round, line_loop, Receipt, on_line, on_other_line,
  on_terminal, Buffer, receive_transaction,
}
use ec200_at_abstraction.At.Wait.{
  on_wait_prefix, on_wait_terminal, wait_prefix, on_wait_final, on_final_terminal, wait_final,
}
use ec200_at_abstraction.At.Prompt.{
  keep_byte, swallow_space, on_prompt_line, prompt_received, prompt_loop,
}
use ec200_at_abstraction.At.Valid.{After, After-bind}

module _ {W : Type 0} (p : Platform W) (I : W → Type 0)
    (reads : (f : Ptr) (len t : ℕ) (ctx : Ptr) (w : W) → I w → I (p.read f len t ctx w).after)
    (handlers : (f : Ptr) (line : Text) (ctx : Ptr) (w : W) → I w → I (p.urc f line ctx w)) where
  -- The world invariant holds of what an action leaves.
  abbrev pub Keeps : {A : Type 0} → Exec W A → Type 0
  Keeps m = (s : Sys W) → I s.world → After (λ _ s'. I s'.world) (m s)

  pub Keeps-bind :
      {A B : Type 0} (m : Exec W A) (f : A → Exec W B)
      → Keeps m
      → ((a : A) → Keeps (f a))
      → Keeps (m >>= f)
  Keeps-bind m f hm hf s i =
      After-bind (λ _ s'. I s'.world) (λ _ s'. I s'.world) m f s (hm s i) λ a s' k. hf a s' k

  getc_answer-Keeps :
      (next : ℕ → Exec W Got) (budget : ℕ) (bytes : List ℕ) (r : ℤ)
      → ((b : ℕ) → Keeps (next b))
      → Keeps (getc_answer p next budget bytes r)
  unfolding getc_answer
  getc_answer-Keeps next budget bytes (negsuc _) rec s i = i
  getc_answer-Keeps next budget bytes (pos (suc n)) rec s i = i
  getc_answer-Keeps next budget bytes (pos zero) rec s i =
      if-elim (After (λ _ s'. I s'.world)) (budget == 0) _ _ (λ _. i)
        λ _. rec (budget - slice_of budget) s i

  pub rx_getc-Keeps : (fuel budget : ℕ) → Keeps (rx_getc p fuel budget)
  unfolding rx_getc
  rx_getc-Keeps zero budget s i = tt
  rx_getc-Keeps (suc fuel) budget s i =
      let r = call_read p 1 (slice_of budget) s in
      getc_answer-Keeps (λ b. rx_getc p fuel b) budget r.bytes r.result (rx_getc-Keeps fuel)
        (record s { world = r.after })
        (reads s.handle.read 1 (slice_of budget) s.handle.user_ctx s.world i)

  rx_received-Keeps :
      (next : ℕ → Exec W (RxCode × ℕ)) (g : Got)
      → ((b : ℕ) → Keeps (next b))
      → Keeps (rx_received p next g)
  unfolding rx_received
  rx_received-Keeps next g rec s i =
      let later = rec g.budget (record s { handle = (rx_feed s.handle g.byte).0 }) i in ground arith

  pub rx_line-Keeps : (fuel budget : ℕ) → Keeps (rx_line p fuel budget)
  unfolding rx_line
  rx_line-Keeps zero budget s i = tt
  rx_line-Keeps (suc fuel) budget s i =
      Keeps-bind (rx_getc p (suc fuel) budget) _ (rx_getc-Keeps (suc fuel) budget)
        (λ g. rx_received-Keeps (λ b. rx_line p fuel b) g (rx_line-Keeps fuel)) s i

  call_entry-keeps :
      (found : Option UrcEntry) (line : Text) (s : Sys W)
      → I s.world
      → I (call_entry p found line s).1.world
  unfolding call_entry
  call_entry-keeps none line s i = i
  call_entry-keeps (some e) line s i =
      if-elim (λ (s' : Sys W). I s'.world) _ _ _ (λ _. handlers e.handler line e.ctx s.world i)
        (λ _. i)

  pub dispatch-keeps :
      (line : Text) (s : Sys W) → I s.world → I (dispatch_registered_urc p line s).1.world
  unfolding dispatch_registered_urc
  dispatch-keeps line s i = call_entry-keeps (find_handler line s.handle.urc_table) line s i

  -- A loop body keeps the invariant.
  abbrev pub BodyKeeps : {R : Type 0} → Body W R → Type 0
  BodyKeeps {R} body = (line : Text) (r : R) (s : Sys W) → I s.world → I (body line r s).1.world

  module _ {R : Type 0} (on_timeout exhausted : Status) (body : Body W R)
      (kept : BodyKeeps body) where
    run_body-keeps : BodyKeeps (run_body body)
    unfolding run_body
    run_body-keeps [] r s i = i
    run_body-keeps (c ∷ line) r s i = kept (c ∷ line) r s i

    go_on :
        (next : ℕ → R → Exec W (Status × R)) (b : ℕ) (step : LineStep R × Sys W)
        → ((b : ℕ) (r : R) → Keeps (next b r))
        → I step.1.world
        → After {A = Status × R}
            (λ _ s'. I s'.world)
            (elim step.0 [ finish st r ↦ some ((st, r), step.1) | more r ↦ next b r step.1 ])
    go_on next b (finish st r, s) rec i = i
    go_on next b (more r, s) rec i = rec b r s i

    line_round-Keeps :
        (next : ℕ → R → Exec W (Status × R)) (r : R) (got : RxCode × ℕ)
        → ((b : ℕ) (r : R) → Keeps (next b r))
        → Keeps (line_round p on_timeout exhausted body next r got)
    unfolding line_round
    line_round-Keeps next r (rx_io_error, b) rec s i = i
    line_round-Keeps next r (rx_timeout, b) rec s i = i
    line_round-Keeps next r (rx_ok, b) rec s i =
        go_on next b (run_body body (current_line s.handle) r s) rec
          (run_body-keeps (current_line s.handle) r s i)

    pub line_loop-Keeps :
        (fuel lines budget : ℕ) (r : R)
        → Keeps (line_loop p on_timeout exhausted body fuel lines budget r)
    unfolding line_loop
    line_loop-Keeps fuel zero budget r s i = i
    line_loop-Keeps fuel (suc lines) budget r s i =
        Keeps-bind (rx_line p fuel budget) _ (rx_line-Keeps fuel budget)
          (λ got.
            line_round-Keeps (λ b r'. line_loop p on_timeout exhausted body fuel lines b r') r got
              (line_loop-Keeps fuel lines))
          s i
