-- ===== src/At/Tx.antt =====
-- src/ec200_at.c: ec200_at_write_raw and at_transmit.
use ec200_at_abstraction.Prelude.{
  ℕ, zero, suc, ◌+◌, ◌-◌, ◌%◌, ◌^◌, ℤ, pos, negsuc, minus_one, List, [], ◌∷◌, ◌++◌, Option, none,
  some, ltb, leb, ◌==◌, if◌then◌else◌, length, take, drop, set,
}
use ec200_at_abstraction.Text.{Text, memcpy_at}
use ec200_at_abstraction.Handle.{
  Handle, Platform, Writing, Sys, Status, ok, err_io, err_timeout, err_busy, err_not_ready,
  err_overflow, tx_buffer_size, write_timeout_ms,
}
use ec200_at_abstraction.Exec.{Exec}

-- The reset of the error state in at_transmit.
abbrev pub reset_errors : Handle → Handle
reset_errors h = record h {
  last_cme_error = minus_one;
  last_cms_error = minus_one;
  last_err_kind = 0;
  last_err_text = set h.last_err_text 0 0;
}

-- snprintf(h->_tx_buf, sizeof(h->_tx_buf), "%s\r", cmd): the text is cut to the buffer.
abbrev pub frame_command : Text → Handle → Handle
frame_command cmd h = record h {
  tx_buf = memcpy_at 0 (take (tx_buffer_size - 1) (cmd ++ (b'\r' ∷ [])) ++ (0 ∷ [])) h.tx_buf;
}

module _ {W : Type 0} (p : Platform W) where
  -- h->write(&data[sent], (uint16_t)(len - sent), h->user_ctx)
  abbrev pub call_write : List ℕ → Sys W → Writing W
  call_write bytes s = p.write s.handle.write bytes s.handle.user_ctx s.world

  -- Transport backpressure: a delay of 5 ms against the budget, or the timeout.
  unfoldable pub write_wait : (ℕ → ℕ → Exec W Status) → ℕ → ℕ → Exec W Status
  write_wait next sent budget s =
      let waited = p.delay s.handle.delay_ms 5 s.handle.user_ctx s.world in
      let go_on =
        next sent (if leb 5 budget then budget - 5 else 0) (record s { world = waited }) in
      if budget == 0 then some (err_timeout, s) else go_on

  -- What a round of ec200_at_write_raw does with the result of the callback, `left` bytes before the
  -- end; `next` is the next round.
  unfoldable pub write_answer : (ℕ → ℕ → Exec W Status) → ℕ → ℕ → ℕ → ℤ → Exec W Status
  unfolding write_wait
  write_answer next left sent budget (negsuc _) s = some (err_io, s)
  write_answer next left sent budget (pos n) s =
      let go_on = next ((sent + n % 2 ^ 16) % 2 ^ 16) budget s in
      if n == 0
      then write_wait next sent budget s
      else if ltb left (n % 2 ^ 16)
      then some (err_io, s)
      else go_on

  -- The loop of ec200_at_write_raw on its variables `sent` and `budget`.
  unfoldable pub write_loop : ℕ → List ℕ → ℕ → ℕ → Exec W Status
  unfolding write_answer
  write_loop zero bytes sent budget s = none
  write_loop (suc fuel) bytes sent budget s =
      let next = λ (n b : ℕ). write_loop fuel bytes n b in
      let r = call_write (drop sent bytes) s in
      let round =
        write_answer next (length bytes - sent) sent budget r.result
          (record s { world = r.after }) in
      if ltb sent (length bytes) then round else some (ok, s)

  -- ec200_at_write_raw on all bytes of an array, at most 65535; a NULL pointer is `none`.
  unfoldable pub write_raw : ℕ → Option (List ℕ) → Exec W Status
  write_raw fuel none s = some (err_not_ready, s)
  write_raw fuel (some data_bytes) s =
      if s.handle.initialised
      then write_loop fuel data_bytes 0 write_timeout_ms s
      else some (err_not_ready, s)

  -- at_transmit
  unfoldable pub at_transmit : ℕ → Text → Exec W Status
  at_transmit fuel cmd s =
      let h = frame_command cmd (reset_errors s.handle) in
      if s.handle.ppp_data_mode
      then some (err_busy, s)
      else if leb tx_buffer_size (length cmd + 1)
      then some (err_overflow, record s { handle = h })
      else write_raw fuel (some (take (length cmd + 1) h.tx_buf)) (record s { handle = h })
