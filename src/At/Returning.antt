-- ===== src/At/Returning.antt =====
-- Which calls of src/ec200_at.c return: all of them on a stream that ends, and none of the waits for a
-- line on a stream that never ends its line.
use ec200_at_abstraction.Prelude.{
  ℕ, suc, ◌+◌, ◌≤◌, ◌<◌, ◌≡◌, ◌≢◌, refl, ap, Bool, true, false, Option, none, some, arith, if-elim,
  length, take, leb, pos, get_or, length-take,
}
use ec200_at_abstraction.Text.{Text}
use ec200_at_abstraction.Handle.{
  Platform, Sys, Status, UrcEntry, ok, err_parse, err_timeout, err_overflow, max_lines,
  write_timeout_ms, tx_buffer_size,
}
use ec200_at_abstraction.Exec.{Exec, bind_result, bind_none}
use ec200_at_abstraction.At.Terminal.{Terminal, neither, success, failure, is_terminal}
use ec200_at_abstraction.At.Urc.{find_handler, call_entry, dispatch_registered_urc}
use ec200_at_abstraction.At.Tx.{write_raw, at_transmit, reset_errors, frame_command}
use ec200_at_abstraction.At.Transaction.{
  Body, Buffer, Receipt, on_terminal, on_other_line, on_line, receive_transaction, line_loop,
  line_round,
}
use ec200_at_abstraction.At.Wait.{
  on_final_terminal, on_wait_final, on_wait_terminal, on_wait_prefix, wait_final, wait_prefix,
}
use ec200_at_abstraction.At.Command.{
  after_transmit, transmit_then, at_send, at_send_wait, at_send_expect, after_phase_one,
  await_phases, at_send_await_urc,
}
use ec200_at_abstraction.At.Valid.{Total, Total-bind, Total-weaken}
use ec200_at_abstraction.At.Lines.{Stream, lf}
use ec200_at_abstraction.At.Lines.Returns.{line_loop-returns, rx_line_stuck}
use ec200_at_abstraction.At.Delivery.{Sink, write_raw-Delivered}

abbrev pub Returns : {A W : Type 0} → Option (A × Sys W) → Type 0
Returns = Total (λ _ _. Unit {0})

module _ {W : Type 0} (p : Platform W) (st : Stream p) where
  open st use {incoming}

  quiet-call_entry :
      (found : Option UrcEntry) (line : Text) (s : Sys W)
      → incoming (call_entry p found line s).1.world ≡ incoming s.world
  unfolding call_entry
  quiet-call_entry none line s = refl
  quiet-call_entry (some e) line s = ground (arith, st.undisturbed e.handler line e.ctx s.world)

  quiet-dispatch :
      (line : Text) (s : Sys W)
      → incoming (dispatch_registered_urc p line s).1.world ≡ incoming s.world
  unfolding dispatch_registered_urc
  quiet-dispatch line s = quiet-call_entry (find_handler line s.handle.urc_table) line s

  quiet-on_terminal :
      (prefix : Option Text) (line : Text) (r : Receipt) (t : Terminal) (s : Sys W)
      → incoming (on_terminal p prefix line r t s).1.world ≡ incoming s.world
  unfolding on_terminal
  quiet-on_terminal prefix line r success s = ground arith
  quiet-on_terminal prefix line r failure s = refl
  quiet-on_terminal prefix line r neither s = quiet-dispatch line s

  quiet-on_line :
      (prefix : Option Text) (stop : Bool) (line : Text) (r : Receipt) (s : Sys W)
      → incoming (on_line p prefix stop line r s).1.world ≡ incoming s.world
  unfolding on_line on_other_line
  quiet-on_line prefix stop line r s =
      let (t, h) = is_terminal s.handle line in
      let other = quiet-on_terminal prefix line r t (record s { handle = h }) in ground arith

  quiet-on_final_terminal :
      (line : Text) (t : Terminal) (s : Sys W)
      → incoming (on_final_terminal p line t s).1.world ≡ incoming s.world
  unfolding on_final_terminal
  quiet-on_final_terminal line success s = refl
  quiet-on_final_terminal line failure s = refl
  quiet-on_final_terminal line neither s = quiet-dispatch line s

  quiet-on_wait_final :
      (line : Text) (r : Unit {0}) (s : Sys W)
      → incoming (on_wait_final p line r s).1.world ≡ incoming s.world
  unfolding on_wait_final
  quiet-on_wait_final line r s =
      let (t, h) = is_terminal s.handle line in
      quiet-on_final_terminal line t (record s { handle = h })

  quiet-on_wait_terminal :
      (line : Text) (b : Buffer) (t : Terminal) (s : Sys W)
      → incoming (on_wait_terminal p line b t s).1.world ≡ incoming s.world
  unfolding on_wait_terminal
  quiet-on_wait_terminal line b success s = refl
  quiet-on_wait_terminal line b failure s = refl
  quiet-on_wait_terminal line b neither s = quiet-dispatch line s

  quiet-on_wait_prefix :
      (prefix line : Text) (b : Buffer) (s : Sys W)
      → incoming (on_wait_prefix p prefix line b s).1.world ≡ incoming s.world
  unfolding on_wait_prefix
  quiet-on_wait_prefix prefix line b s =
      let (t, h) = is_terminal s.handle line in
      let other = quiet-on_wait_terminal line b t (record s { handle = h }) in ground arith

  module _ (fuel bound : ℕ) (bounded : (w : W) → length (incoming w) ≤ bound) where
    receive_transaction-Returns :
        (prefix : Option Text) (stop : Bool) (b : Buffer) (t : ℕ) (s : Sys W)
        → bound + t < fuel
        → Returns (receive_transaction p fuel prefix stop b t s)
    unfolding receive_transaction
    receive_transaction-Returns prefix stop b t s enough =
        Total-bind (λ _ _. Unit {0}) (λ _ _. Unit {0}) (line_loop p _ _ _ fuel max_lines t _) _ s
          (Total-weaken _ (λ _ _. Unit {0}) (line_loop p _ _ _ fuel max_lines t _ s) (λ _ _ _. tt)
            (line_loop-returns p st err_timeout err_overflow (on_line p prefix stop)
              (quiet-on_line prefix stop) fuel max_lines t _ s (omega (arith, bounded s.world))))
          λ a s' _. tt

    wait_final-Returns : (t : ℕ) (s : Sys W) → bound + t < fuel → Returns (wait_final p fuel t s)
    unfolding wait_final
    wait_final-Returns t s enough =
        if-elim (Total (λ _ _. Unit {0})) s.handle.initialised _ _
          (λ _.
            Total-bind (λ _ _. Unit {0}) (λ _ _. Unit {0}) (line_loop p _ _ _ fuel max_lines t _) _
              s
              (Total-weaken _ (λ _ _. Unit {0}) (line_loop p _ _ _ fuel max_lines t _ s)
                (λ _ _ _. tt)
                (line_loop-returns p st err_timeout err_overflow (on_wait_final p)
                  quiet-on_wait_final fuel max_lines t tt s (omega (arith, bounded s.world))))
              λ a s' _. tt)
          λ _. tt

    wait_prefix-Returns :
        (prefix : Text) (b : Buffer) (t : ℕ) (s : Sys W)
        → bound + t < fuel
        → Returns (wait_prefix p fuel (some prefix) b t s)
    unfolding wait_prefix
    wait_prefix-Returns prefix b t s enough =
        if-elim (Total (λ _ _. Unit {0})) s.handle.initialised _ _
          (λ _.
            Total-weaken _ (λ _ _. Unit {0}) (line_loop p _ _ _ fuel max_lines t _ s) (λ _ _ _. tt)
              (line_loop-returns p st err_timeout err_overflow (on_wait_prefix p prefix)
                (quiet-on_wait_prefix prefix) fuel max_lines t b s
                (omega (arith, bounded s.world))))
          λ _. tt

    module _ (sk : Sink p) (room : bound + tx_buffer_size + write_timeout_ms < fuel) where
      at_transmit-Returns :
          (cmd : Text) (s : Sys W)
          → s.handle.initialised ≡ true
          → Returns (at_transmit p fuel cmd s)
      unfolding at_transmit
      at_transmit-Returns cmd s ready =
          let h = frame_command cmd (reset_errors s.handle) in
          let bytes = take (length cmd + 1) h.tx_buf in
          let short = length-take (length cmd + 1) h.tx_buf in
          if-elim (Total (λ _ _. Unit {0})) s.handle.ppp_data_mode _ _ (λ _. tt)
            λ _.
              if-elim (Total (λ _ _. Unit {0})) (leb tx_buffer_size (length cmd + 1)) _ _ (λ _. tt)
                λ fits.
                  let small : length cmd + 1 < tx_buffer_size = ground arith in
                  Total-weaken _ (λ _ _. Unit {0}) (write_raw p fuel (some bytes) _) (λ _ _ _. tt)
                    (write_raw-Delivered p sk fuel bytes (record s { handle = h }) ready
                      (omega arith) (omega arith))

      after_transmit-Returns :
          (b : Buffer) (next : Exec W (Status × Buffer)) (t : Status) (s : Sys W)
          → ((s' : Sys W) → Returns (next s'))
          → Returns (after_transmit p b next t s)
      unfolding after_transmit
      after_transmit-Returns b next ok s rec = rec s
      after_transmit-Returns b next _ s rec = tt

      transmit_then-Returns :
          (cmd : Text) (b : Buffer) (next : Exec W (Status × Buffer)) (s : Sys W)
          → ((s' : Sys W) → Returns (next s'))
          → Returns (transmit_then p fuel cmd b next s)
      unfolding transmit_then
      transmit_then-Returns cmd b next s rec =
          if-elim (Total (λ _ _. Unit {0})) s.handle.initialised _ _
            (λ ready.
              Total-bind (λ _ _. Unit {0}) (λ _ _. Unit {0}) (at_transmit p fuel cmd)
                (after_transmit p b next) s (at_transmit-Returns cmd s ready)
                λ t s' _. after_transmit-Returns b next t s' rec)
            λ _. tt

      after_phase_one-Returns :
          (prefix : Text) (u : ℕ) (t : Status) (b : Buffer) (s : Sys W)
          → bound + u < fuel
          → Returns (after_phase_one p fuel prefix u (t, b) s)
      unfolding after_phase_one
      after_phase_one-Returns prefix u ok b s enough =
          Total-bind (λ _ _. Unit {0}) (λ _ _. Unit {0}) (wait_final p fuel 300) _ s
            (wait_final-Returns 300 s (omega arith)) (λ _ _ _. tt)
      after_phase_one-Returns prefix u err_parse b s enough =
          wait_prefix-Returns prefix b u s enough
      after_phase_one-Returns prefix u _ b s enough = tt

      -- If the module delivers finitely many bytes, every transaction returns, whatever the bytes are:
      -- the fuel that suffices is the number of bytes and the timeouts together.
      pub transactions_return :
          (cmd prefix : Text) (b : Buffer) (t u : ℕ) (s : Sys W)
          → bound + t < fuel
          → bound + u < fuel
          → Returns (at_send p fuel (some cmd) b t s)
            × Returns (at_send_wait p fuel (some cmd) (some prefix) b t s)
            × Returns (at_send_expect p fuel (some cmd) (some prefix) b t s)
            × Returns (at_send_await_urc p fuel (some cmd) (some prefix) b t u s)
      unfolding at_send at_send_wait at_send_expect at_send_await_urc await_phases
      transactions_return cmd prefix b t u s enough enough' = (
        transmit_then-Returns cmd b _ s
            (λ s'. receive_transaction-Returns none false b t s' enough),
        transmit_then-Returns cmd b _ s
            (λ s'. receive_transaction-Returns (some prefix) false b t s' enough),
        transmit_then-Returns cmd b _ s
            (λ s'. receive_transaction-Returns (some prefix) true b t s' enough),
        transmit_then-Returns cmd b _ s λ s'.
            Total-bind (λ _ _. Unit {0}) (λ _ _. Unit {0})
              (receive_transaction p fuel (some prefix) true b t) (after_phase_one p fuel prefix u)
              s' (receive_transaction-Returns (some prefix) true b t s' enough)
              λ a s'' _. after_phase_one-Returns prefix u a.0 a.1 s'' enough',
      )

module _ {W : Type 0} (p : Platform W)
    (trickles : (f len t ctx : ℕ) (w : W)
      → ((p.read f len t ctx w).result ≡ pos 1)
        × (get_or (p.read f len t ctx w).bytes 0 0 ≢ lf)) where
  line_loop_stuck :
      {R : Type 0} (a b : Status) (body : Body W R) (fuel lines budget : ℕ) (r : R) (s : Sys W)
      → line_loop p a b body fuel (suc lines) budget r s ≡ none
  unfolding line_loop
  line_loop_stuck a b body fuel lines budget r s =
      ap
        (λ o.
          bind_result o (line_round p a b body (λ k r'. line_loop p a b body fuel lines k r') r))
        (rx_line_stuck p trickles fuel budget s)

  -- A UART that delivers a byte other than LF at every read, each within its slice, keeps a wait from
  -- returning, whatever its timeout and however long it runs: neither the budget nor the cap on lines
  -- bounds it.
  pub endless_line_blocks :
      (fuel t : ℕ) (prefix : Option Text) (stop : Bool) (b : Buffer) (s : Sys W)
      → s.handle.initialised ≡ true
      → (wait_final p fuel t s ≡ none) × (receive_transaction p fuel prefix stop b t s ≡ none)
  unfolding wait_final receive_transaction
  endless_line_blocks fuel t prefix stop b s ready = (
    if-elim (λ o. o ≡ none) s.handle.initialised _ _
        (λ _.
          bind_none (line_loop p err_timeout err_overflow (on_wait_final p) fuel max_lines t tt) _ s
            (line_loop_stuck err_timeout err_overflow (on_wait_final p) fuel 63 t tt s))
        (λ no_init. cc),
    bind_none (line_loop p err_timeout err_overflow (on_line p prefix stop) fuel max_lines t _) _ s
        (line_loop_stuck err_timeout err_overflow (on_line p prefix stop) fuel 63 t _ s),
  )
