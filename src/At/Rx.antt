-- ===== src/At/Rx.antt =====
-- src/ec200_at.c: rx_getc, rx_feed and rx_line, the assembly of received bytes into lines.
use ec200_at_abstraction.Prelude.{
  ℕ, zero, suc, ◌+◌, ◌-◌, ◌%◌, ◌^◌, ℤ, pos, negsuc, Bool, true, false, List, none, some, ltb, ◌==◌,
  if◌then◌else◌, set, get_or,
}
use ec200_at_abstraction.Text.{Text, c_str}
use ec200_at_abstraction.Handle.{Handle, Platform, Reading, Sys, poll_slice_ms, rx_buffer_size}
use ec200_at_abstraction.Exec.{Exec, ◌>>=◌}

-- RX_OK, RX_TIMEOUT, RX_IO_ERROR
pub data RxCode : Type 0 where
  rx_ok rx_timeout rx_io_error : RxCode

-- What rx_getc leaves: its code, the budget and `*out`, which callers set to 0 beforehand.
pub record Got : Type 0 where
  pub code : RxCode
  pub budget : ℕ
  pub byte : ℕ

-- rx_feed; the Boolean is its result. `_rx_len` is a uint16_t.
unfoldable pub rx_feed : Handle → ℕ → Handle × Bool
rx_feed h ch =
    if ch == b'\r'
    then (h, false)
    else if ch == b'\n'
    then (record h { rx_buf = set h.rx_buf h.rx_len 0; rx_len = 0; rx_overlong = false }, true)
    else if ltb h.rx_len (rx_buffer_size - 1)
    then (record h { rx_buf = set h.rx_buf h.rx_len ch; rx_len = (h.rx_len + 1) % 2 ^ 16 }, false)
    else (record h { rx_overlong = true }, false)

-- The line that is read through `h->_rx_buf` after rx_feed has returned true.
abbrev pub current_line : Handle → Text
current_line h = c_str h.rx_buf

-- uint32_t slice = (*budget < EC200_AT_POLL_SLICE_MS) ? *budget : EC200_AT_POLL_SLICE_MS
abbrev pub slice_of : ℕ → ℕ
slice_of budget = if ltb budget poll_slice_ms then budget else poll_slice_ms

module _ {W : Type 0} (p : Platform W) where
  -- h->read(out, len, slice, h->user_ctx)
  abbrev pub call_read : ℕ → ℕ → Sys W → Reading W
  call_read len slice s = p.read s.handle.read len slice s.handle.user_ctx s.world

  -- What rx_getc does with the result of the callback and the bytes that it stored; `next` is the next
  -- round.
  unfoldable pub getc_answer : (ℕ → Exec W Got) → ℕ → List ℕ → ℤ → Exec W Got
  getc_answer next budget bytes (negsuc _) s =
      some (record { code = rx_io_error; budget = budget; byte = 0 }, s)
  getc_answer next budget bytes (pos (suc n)) s =
      some (record { code = rx_ok; budget = budget; byte = get_or bytes 0 0 }, s)
  getc_answer next budget bytes (pos zero) s =
      let go_on = next (budget - slice_of budget) s in
      if budget == 0 then some (record { code = rx_timeout; budget = 0; byte = 0 }, s) else go_on

  -- rx_getc
  unfoldable pub rx_getc : ℕ → ℕ → Exec W Got
  unfolding getc_answer
  rx_getc zero budget s = none
  rx_getc (suc fuel) budget s =
      let next = λ (b : ℕ). rx_getc fuel b in
      let r = call_read 1 (slice_of budget) s in
      getc_answer next budget r.bytes r.result (record s { world = r.after })

  -- The body of rx_line's loop behind rx_getc; `next` is the next round.
  unfoldable pub rx_received : (ℕ → Exec W (RxCode × ℕ)) → Got → Exec W (RxCode × ℕ)
  rx_received next g s =
      let (h, complete) = rx_feed s.handle g.byte in
      let fed : Sys W = record s { handle = h } in
      let go_on = next g.budget fed in
      elim g.code [
        | rx_ok ↦ if complete then some ((rx_ok, g.budget), fed) else go_on
        | code ↦ some ((code, g.budget), s)
      ]

  -- rx_line; the result is the code and the budget left, and the line stands in the receive buffer.
  unfoldable pub rx_line : ℕ → ℕ → Exec W (RxCode × ℕ)
  unfolding rx_received
  rx_line zero budget s = none
  rx_line (suc fuel) budget s =
      let next = λ (b : ℕ). rx_line fuel b in (rx_getc (suc fuel) budget >>= rx_received next) s
