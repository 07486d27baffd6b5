-- ===== src/At/Valid/Calls.antt =====
-- Memory safety of the calls that a client makes.
use ec200_at_abstraction.Prelude.{
  ℕ, zero, suc, ◌+◌, ◌-◌, ◌%◌, ◌^◌, ◌≡◌, refl, sym, true, false, List, Option, none, some, arith,
  length, take, leb, ltb, ℤ, Bool-cases, inl, inr, if◌then◌else◌, if-elim, pos, negsuc, drop,
}
use mathlib.Core.Path.{subst}
use ec200_at_abstraction.Text.{Text}
use ec200_at_abstraction.Handle.{
  Handle, Platform, Sys, Status, ok, err_parse, err_timeout, err_overflow, max_lines,
}
use ec200_at_abstraction.Exec.{Exec}
use ec200_at_abstraction.At.Terminal.{Terminal, neither, success, failure, is_terminal}
use ec200_at_abstraction.At.Urc.{dispatch_registered_urc}
use ec200_at_abstraction.At.Tx.{
  call_write, write_answer, write_loop, write_raw, at_transmit, reset_errors, frame_command,
}
use ec200_at_abstraction.At.Transaction.{Buffer, receive_transaction, copy_line, line_loop}
use ec200_at_abstraction.At.Wait.{
  wait_prefix, wait_final, on_wait_prefix, on_wait_terminal, on_wait_final, on_final_terminal,
}
use ec200_at_abstraction.At.Command.{
  transmit_then, after_transmit, after_phase_one, await_phases, at_send, at_send_wait,
  at_send_expect, at_send_await_urc,
}
use ec200_at_abstraction.At.Valid.Defs.{IsValid, After, After-bind, After-weaken}
use ec200_at_abstraction.At.Valid.Step.{reset_errors-IsValid, frame_command-IsValid}
use ec200_at_abstraction.At.Valid.Receive.{StepHolds, line_loop-holds, handle-dispatch}
use ec200_at_abstraction.At.Valid.Transact.{
  buffer_size, Safe, Safe-resized, receive_transaction-Safe, rx_feed-Safe, is_terminal-Safe,
  size-copy_line,
}

module _ {W : Type 0} (p : Platform W) where
  -- Writing changes the world only.
  handle-write_answer :
      (next : ℕ → ℕ → Exec W Status) (left sent budget : ℕ) (result : ℤ) (s : Sys W)
      → ((n b : ℕ) (s' : Sys W) → After (λ _ s''. s''.handle ≡ s'.handle) (next n b s'))
      → After (λ _ s'. s'.handle ≡ s.handle) (write_answer p next left sent budget result s)
  unfolding write_answer
  handle-write_answer next left sent budget (negsuc _) s rec = refl
  handle-write_answer next left sent budget (pos n) s rec =
      let waited = p.delay s.handle.delay_ms 5 s.handle.user_ctx s.world in
      ground (
        arith,
        rec ((sent + n % 2 ^ 16) % 2 ^ 16) budget s,
        rec sent (if leb 5 budget then budget - 5 else 0) (record s { world = waited }),
      )

  handle-write_loop :
      (fuel : ℕ) (bytes : List ℕ) (sent budget : ℕ) (s : Sys W)
      → After (λ _ s'. s'.handle ≡ s.handle) (write_loop p fuel bytes sent budget s)
  unfolding write_loop
  handle-write_loop zero bytes sent budget s = tt
  handle-write_loop (suc fuel) bytes sent budget s =
      let r = call_write p (drop sent bytes) s in
      let round =
        handle-write_answer (λ n b. write_loop p fuel bytes n b) (length bytes - sent) sent budget
          r.result (record s { world = r.after }) (handle-write_loop fuel bytes) in
      elim (Bool-cases (ltb sent (length bytes))) [ inl e ↦ rw e round | inr e ↦ rw e refl ]

  pub handle-write_raw :
      (fuel : ℕ) (bytes : Option (List ℕ)) (s : Sys W)
      → After (λ _ s'. s'.handle ≡ s.handle) (write_raw p fuel bytes s)
  unfolding write_raw
  handle-write_raw fuel none s = refl
  handle-write_raw fuel (some bytes) s = ground (arith, handle-write_loop fuel bytes 0 1000 s)

  module _ (before : Handle) (size : Option ℕ) (b : Buffer) where
    pub at_transmit-Safe :
        (fuel : ℕ) (cmd : Text) (s : Sys W)
        → Safe before size b s.handle
        → After (λ _ s'. Safe before size b s'.handle) (at_transmit p fuel cmd s)
    unfolding at_transmit
    at_transmit-Safe fuel cmd s v =
        let h = frame_command cmd (reset_errors s.handle) in
        let framed : Safe before size b h = record {
          valid = frame_command-IsValid cmd _ (reset_errors-IsValid s.handle v.valid);
          sized = v.sized;
          table_kept = v.table_kept;
          mode_kept = v.mode_kept;
          ready_kept = v.ready_kept;
        } in
        let bytes : Option (List ℕ) = some (take (length cmd + 1) h.tx_buf) in
        let written =
          After-weaken (λ _ s'. s'.handle ≡ h) (λ _ s'. Safe before size b s'.handle)
            (write_raw p fuel bytes (record s { handle = h }))
            (λ _ s' same. subst (Safe before size b) (sym same) framed)
            (handle-write_raw fuel bytes (record s { handle = h })) in
        ground arith

    -- The terminal check and the dispatch that the waits share.
    dispatch-Safe :
        (line : Text) (s : Sys W)
        → Safe before size b s.handle
        → Safe before size b (dispatch_registered_urc p line s).1.handle
    dispatch-Safe line s v = subst (Safe before size b) (sym (handle-dispatch p line s)) v

  module _ (before : Handle) (size : Option ℕ) where
    abbrev Held : Buffer → Handle → Type 0
    Held = Safe before size

    on_wait_terminal-Safe :
        (line : Text) (b : Buffer) (t : Terminal) (s : Sys W)
        → Held b s.handle
        → StepHolds Held (λ _. Held) (on_wait_terminal p line b t s)
    unfolding on_wait_terminal
    on_wait_terminal-Safe line b failure s v = v
    on_wait_terminal-Safe line b success s v = v
    on_wait_terminal-Safe line b neither s v = dispatch-Safe before size b line s v

    on_wait_prefix-Safe :
        (prefix line : Text) (b : Buffer) (s : Sys W)
        → Held b s.handle
        → StepHolds Held (λ _. Held) (on_wait_prefix p prefix line b s)
    unfolding on_wait_prefix
    on_wait_prefix-Safe prefix line b s v =
        let h = (is_terminal s.handle line).1 in
        let copied =
          Safe-resized before size b (copy_line line b) s.handle (size-copy_line line b) v in
        let classified = is_terminal-Safe before size b s.handle line v in
        let other =
          on_wait_terminal-Safe line b (is_terminal s.handle line).0 (record s { handle = h })
            classified in
        ground arith

    pub wait_prefix-Safe :
        (fuel : ℕ) (prefix : Option Text) (b : Buffer) (timeout_ms : ℕ) (s : Sys W)
        → Held b s.handle
        → After (λ a s'. Held a.1 s'.handle) (wait_prefix p fuel prefix b timeout_ms s)
    unfolding wait_prefix
    wait_prefix-Safe fuel none b timeout_ms s v = v
    wait_prefix-Safe fuel (some prefix) b timeout_ms s v =
        if-elim (After (λ a s'. Held a.1 s'.handle)) s.handle.initialised _ _
          (λ _.
            line_loop-holds p err_timeout err_overflow (on_wait_prefix p prefix) Held (λ _. Held)
              (rx_feed-Safe before size) (on_wait_prefix-Safe prefix) (λ r h k. (k, k, k)) fuel
              max_lines timeout_ms b s v)
          λ _. v

    on_final_terminal-Safe :
        (b : Buffer) (line : Text) (t : Terminal) (s : Sys W)
        → Held b s.handle
        → StepHolds (λ _. Held b) (λ _ _. Held b) (on_final_terminal p line t s)
    unfolding on_final_terminal
    on_final_terminal-Safe b line failure s v = v
    on_final_terminal-Safe b line success s v = v
    on_final_terminal-Safe b line neither s v = dispatch-Safe before size b line s v

    on_wait_final-Safe :
        (b : Buffer) (line : Text) (r : Unit {0}) (s : Sys W)
        → Held b s.handle
        → StepHolds (λ _. Held b) (λ _ _. Held b) (on_wait_final p line r s)
    unfolding on_wait_final
    on_wait_final-Safe b line r s v =
        on_final_terminal-Safe b line _ _ (is_terminal-Safe before size b s.handle line v)

    pub wait_final-Safe :
        (b : Buffer) (fuel timeout_ms : ℕ) (s : Sys W)
        → Held b s.handle
        → After (λ _ s'. Held b s'.handle) (wait_final p fuel timeout_ms s)
    unfolding wait_final
    wait_final-Safe b fuel timeout_ms s v =
        if-elim (After (λ _ s'. Held b s'.handle)) s.handle.initialised _ _
          (λ _.
            After-bind (λ _ s'. Held b s'.handle) (λ _ s'. Held b s'.handle)
              (line_loop p _ _ _ fuel max_lines timeout_ms tt) _ s
              (line_loop-holds p err_timeout err_overflow (on_wait_final p) (λ _. Held b)
                (λ _ _. Held b) (λ _. rx_feed-Safe before size b) (on_wait_final-Safe b)
                (λ r h k. (k, k, k)) fuel max_lines timeout_ms tt s v)
              λ a s' k. k)
          λ _. v

    after_transmit-Safe :
        (b : Buffer) (next : Exec W (Status × Buffer))
        → ((s' : Sys W) → Held b s'.handle → After (λ a s''. Held a.1 s''.handle) (next s'))
        → (st : Status) (s : Sys W) → Held b s.handle
        → After (λ a s'. Held a.1 s'.handle) (after_transmit p b next st s)
    unfolding after_transmit
    after_transmit-Safe b next rec ok s v = rec s v
    after_transmit-Safe b next rec _ s v = v

    pub transmit_then-Safe :
        (fuel : ℕ) (cmd : Text) (b : Buffer) (next : Exec W (Status × Buffer)) (s : Sys W)
        → ((s' : Sys W) → Held b s'.handle → After (λ a s''. Held a.1 s''.handle) (next s'))
        → Held b s.handle
        → After (λ a s'. Held a.1 s'.handle) (transmit_then p fuel cmd b next s)
    unfolding transmit_then
    transmit_then-Safe fuel cmd b next s rec v =
        if-elim (After (λ a s'. Held a.1 s'.handle)) s.handle.initialised _ _
          (λ _.
            After-bind (λ _ s'. Held b s'.handle) (λ a s'. Held a.1 s'.handle)
              (at_transmit p fuel cmd) (after_transmit p b next) s
              (at_transmit-Safe before size b fuel cmd s v) (after_transmit-Safe b next rec))
          λ _. v

    after_phase_one-Safe :
        (fuel : ℕ) (prefix : Text) (timeout_ms : ℕ) (a : Status × Buffer) (s : Sys W)
        → Held a.1 s.handle
        → After (λ a' s'. Held a'.1 s'.handle) (after_phase_one p fuel prefix timeout_ms a s)
    unfolding after_phase_one
    after_phase_one-Safe fuel prefix timeout_ms (ok, b) s v =
        After-bind (λ _ s'. Held b s'.handle) (λ a' s'. Held a'.1 s'.handle) (wait_final p fuel 300)
          _ s (wait_final-Safe b fuel 300 s v) (λ _ s' k. k)
    after_phase_one-Safe fuel prefix timeout_ms (err_parse, b) s v =
        wait_prefix-Safe fuel (some prefix) b timeout_ms s v
    after_phase_one-Safe fuel prefix timeout_ms (st, b) s v = v

    await_phases-Safe :
        (fuel : ℕ) (prefix : Text) (b : Buffer) (t u : ℕ) (s : Sys W)
        → Held b s.handle
        → After (λ a s'. Held a.1 s'.handle) (await_phases p fuel prefix b t u s)
    unfolding await_phases
    await_phases-Safe fuel prefix b t u s v =
        After-bind (λ a s'. Held a.1 s'.handle) (λ a s'. Held a.1 s'.handle)
          (receive_transaction p fuel (some prefix) true b t) _ s
          (receive_transaction-Safe before size p fuel (some prefix) true b t s v)
          (after_phase_one-Safe fuel prefix u)

-- The outcome of a call that started in `s` with the caller's buffer `b`.
abbrev pub Safely : {W : Type 0} → Sys W → Buffer → Option ((Status × Buffer) × Sys W) → Type 0
Safely s b = After (λ a s'. Safe s.handle (buffer_size b) a.1 s'.handle)

module _ {W : Type 0} (p : Platform W) (fuel : ℕ) (s : Sys W) (b : Buffer)
    (valid : IsValid s.handle) where
  Safe-start : Safe s.handle (buffer_size b) b s.handle
  Safe-start = record {
    valid = valid;
    sized = refl;
    table_kept = refl;
    mode_kept = refl;
    ready_kept = refl;
  }

  pub at_send-Safe : (cmd : Option Text) (t : ℕ) → Safely s b (at_send p fuel cmd b t s)
  unfolding at_send
  at_send-Safe none t = Safe-start
  at_send-Safe (some cmd) t =
      transmit_then-Safe p s.handle (buffer_size b) fuel cmd b _ s
        (receive_transaction-Safe s.handle (buffer_size b) p fuel none false b t) Safe-start

  pub at_send_wait-Safe :
      (cmd prefix : Option Text) (t : ℕ) → Safely s b (at_send_wait p fuel cmd prefix b t s)
  unfolding at_send_wait
  at_send_wait-Safe none prefix t = Safe-start
  at_send_wait-Safe (some cmd) none t = Safe-start
  at_send_wait-Safe (some cmd) (some prefix) t =
      transmit_then-Safe p s.handle (buffer_size b) fuel cmd b _ s
        (receive_transaction-Safe s.handle (buffer_size b) p fuel (some prefix) false b t)
        Safe-start

  pub at_send_expect-Safe :
      (cmd prefix : Option Text) (t : ℕ) → Safely s b (at_send_expect p fuel cmd prefix b t s)
  unfolding at_send_expect
  at_send_expect-Safe none prefix t = Safe-start
  at_send_expect-Safe (some cmd) none t = Safe-start
  at_send_expect-Safe (some cmd) (some prefix) t =
      transmit_then-Safe p s.handle (buffer_size b) fuel cmd b _ s
        (receive_transaction-Safe s.handle (buffer_size b) p fuel (some prefix) true b t) Safe-start

  pub at_send_await_urc-Safe :
      (cmd prefix : Option Text) (t u : ℕ)
      → Safely s b (at_send_await_urc p fuel cmd prefix b t u s)
  unfolding at_send_await_urc
  at_send_await_urc-Safe none prefix t u = Safe-start
  at_send_await_urc-Safe (some cmd) none t u = Safe-start
  at_send_await_urc-Safe (some cmd) (some prefix) t u =
      transmit_then-Safe p s.handle (buffer_size b) fuel cmd b _ s
        (await_phases-Safe p s.handle (buffer_size b) fuel prefix b t u) Safe-start

  -- Whatever the transport delivers and whatever a client asks for, a call that returns has written
  -- inside its arrays: the handle is valid, the caller's buffer has its size, and the URC table, the PPP
  -- flag and the initialisation flag are as before.
  pub transactions_memory_safe :
      (cmd prefix : Option Text) (t u : ℕ)
      → Safely s b (at_send p fuel cmd b t s)
        × Safely s b (at_send_wait p fuel cmd prefix b t s)
        × Safely s b (at_send_expect p fuel cmd prefix b t s)
        × Safely s b (at_send_await_urc p fuel cmd prefix b t u s)
  transactions_memory_safe cmd prefix t u = (
    at_send-Safe cmd t,
    at_send_wait-Safe cmd prefix t,
    at_send_expect-Safe cmd prefix t,
    at_send_await_urc-Safe cmd prefix t u,
  )
