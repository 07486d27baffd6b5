-- ===== src/At/Prompt.antt =====
-- src/ec200_at.c: ec200_at_send_prompt.
use ec200_at_abstraction.Prelude.{
  ℕ, zero, suc, ◌&&◌, [], ◌∷◌, Option, none, some, ◌==◌, if◌then◌else◌,
}
use ec200_at_abstraction.Text.{Text}
use ec200_at_abstraction.Handle.{
  Platform, Sys, Status, ok, err_io, err_timeout, err_parse, err_not_ready,
}
use ec200_at_abstraction.Exec.{Exec, ◌>>=◌, if_ok}
use ec200_at_abstraction.At.Rx.{Got, rx_ok, rx_timeout, rx_io_error, rx_getc, rx_feed, current_line}
use ec200_at_abstraction.At.Terminal.{neither, success, failure, is_terminal, map_error_terminal}
use ec200_at_abstraction.At.Urc.{dispatch_registered_urc}
use ec200_at_abstraction.At.Tx.{at_transmit}

module _ {W : Type 0} (p : Platform W) where
  -- A byte behind the prompt that is not the space of "> " goes to the line assembler.
  unfoldable pub keep_byte : Got → Exec W Status
  keep_byte g s =
      let fed : Sys W = record s { handle = (rx_feed s.handle g.byte).0 } in
      elim g.code [
        | rx_ok ↦ if g.byte == b' ' then some (ok, s) else some (ok, fed)
        | _ ↦ some (ok, s)
      ]

  -- After the prompt: one read with no budget.
  unfoldable pub swallow_space : ℕ → Exec W Status
  unfolding keep_byte
  swallow_space fuel = rx_getc p fuel 0 >>= keep_byte

  -- A complete line while the prompt is awaited: `none` goes on.
  unfoldable pub on_prompt_line : Text → Sys W → Option Status × Sys W
  on_prompt_line [] s = (none, s)
  on_prompt_line (c ∷ line) s =
      let (term, h) = is_terminal s.handle (c ∷ line) in
      let s' : Sys W = record s { handle = h } in
      elim term [
        | failure ↦ (some (map_error_terminal h), s')
        | success ↦ (some err_parse, s')
        | neither ↦ (none, (dispatch_registered_urc p (c ∷ line) s').1)
      ]

  -- The body of ec200_at_send_prompt's loop behind rx_getc; `next` is the next round.
  unfoldable pub prompt_received : ℕ → (ℕ → Exec W Status) → Got → Exec W Status
  unfolding on_prompt_line
  prompt_received fuel next g s =
      let (h, complete) = rx_feed s.handle g.byte in
      let fed : Sys W = record s { handle = h } in
      let (answer, s') = on_prompt_line (current_line h) fed in
      let go_on = next g.budget fed in
      let answered : Option (Status × Sys W) = elim answer [
        | some st ↦ some (st, s')
        | none ↦ next g.budget s'
      ] in
      elim g.code [
        | rx_io_error ↦ some (err_io, s)
        | rx_timeout ↦ some (err_timeout, s)
        | rx_ok ↦
            if g.byte == b'>' && s.handle.rx_len == 0
            then swallow_space fuel s
            else if complete
            then answered
            else go_on
      ]

  -- The loop of ec200_at_send_prompt.
  unfoldable pub prompt_loop : ℕ → ℕ → Exec W Status
  unfolding prompt_received
  prompt_loop zero budget s = none
  prompt_loop (suc fuel) budget s =
      let next = λ (b : ℕ). prompt_loop fuel b in
      (rx_getc p (suc fuel) budget >>= prompt_received (suc fuel) next) s

  -- ec200_at_send_prompt; a NULL command is `none`.
  unfoldable pub at_send_prompt : ℕ → Option Text → ℕ → Exec W Status
  at_send_prompt fuel none timeout_ms s = some (err_not_ready, s)
  at_send_prompt fuel (some cmd) timeout_ms s =
      if s.handle.initialised
      then (do st ← at_transmit p fuel cmd; if_ok st (prompt_loop fuel timeout_ms)) s
      else some (err_not_ready, s)
