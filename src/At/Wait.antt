-- ===== src/At/Wait.antt =====
-- src/ec200_at.c: the waits that send nothing, ec200_at_wait_prefix, ec200_at_wait_final and
-- ec200_at_poll_urc.
use ec200_at_abstraction.Prelude.{ℕ, Option, none, some, if◌then◌else◌}
use ec200_at_abstraction.Text.{Text, starts_with}
use ec200_at_abstraction.Handle.{
  Platform, Sys, Status, ok, err_busy, err_timeout, err_not_ready, err_overflow, is_null, max_lines,
}
use ec200_at_abstraction.Exec.{Exec, pure, ◌>>=◌}
use ec200_at_abstraction.At.Terminal.{
  Terminal, neither, success, failure, is_terminal, map_error_terminal,
}
use ec200_at_abstraction.At.Urc.{dispatch_registered_urc}
use ec200_at_abstraction.At.Transaction.{Buffer, Body, LineStep, finish, more, copy_line, line_loop}

module _ {W : Type 0} (p : Platform W) where
  -- The loop body of ec200_at_wait_prefix behind is_terminal.
  unfoldable pub on_wait_terminal : Text → Buffer → Terminal → Sys W → LineStep Buffer × Sys W
  on_wait_terminal line resp failure s = (finish (map_error_terminal s.handle) resp, s)
  on_wait_terminal line resp success s = (more resp, s)
  on_wait_terminal line resp neither s = (more resp, (dispatch_registered_urc p line s).1)

  -- The loop body of ec200_at_wait_prefix.
  unfoldable pub on_wait_prefix : Text → Body W Buffer
  unfolding on_wait_terminal
  on_wait_prefix prefix line resp s =
      let (term, h) = is_terminal s.handle line in
      if starts_with prefix line
      then (finish ok (copy_line line resp), s)
      else on_wait_terminal line resp term (record s { handle = h })

  -- ec200_at_wait_prefix; a NULL prefix is `none`.
  unfoldable pub wait_prefix : ℕ → Option Text → Buffer → ℕ → Exec W (Status × Buffer)
  wait_prefix fuel none resp timeout_ms s = some ((err_not_ready, resp), s)
  wait_prefix fuel (some prefix) resp timeout_ms s =
      if s.handle.initialised
      then line_loop p err_timeout err_overflow (on_wait_prefix prefix) fuel max_lines timeout_ms
          resp s
      else some ((err_not_ready, resp), s)

  -- The loop body of ec200_at_wait_final behind is_terminal.
  unfoldable pub on_final_terminal : Text → Terminal → Sys W → LineStep (Unit {0}) × Sys W
  on_final_terminal line success s = (finish ok tt, s)
  on_final_terminal line failure s = (finish (map_error_terminal s.handle) tt, s)
  on_final_terminal line neither s = (more tt, (dispatch_registered_urc p line s).1)

  -- The loop body of ec200_at_wait_final.
  unfoldable pub on_wait_final : Body W (Unit {0})
  unfolding on_final_terminal
  on_wait_final line r s =
      let (term, h) = is_terminal s.handle line in
      on_final_terminal line term (record s { handle = h })

  -- ec200_at_wait_final
  unfoldable pub wait_final : ℕ → ℕ → Exec W Status
  wait_final fuel timeout_ms s =
      if s.handle.initialised
      then (do
        (st, _) ← line_loop p err_timeout err_overflow on_wait_final fuel max_lines timeout_ms tt
        pure st)
          s
      else some (err_not_ready, s)

  -- The loop body of ec200_at_poll_urc.
  unfoldable pub on_poll : Body W (Unit {0})
  on_poll line r s =
      let (dispatched, s') = dispatch_registered_urc p line s in
      if dispatched
      then (more tt, s')
      else if is_null s'.handle.urc_handler
      then (more tt, s')
      else (
        more tt,
        record s' { world = p.urc s'.handle.urc_handler line s'.handle.user_ctx s'.world },
      )

  -- ec200_at_poll_urc
  unfoldable pub poll_urc : ℕ → ℕ → Exec W Status
  poll_urc fuel timeout_ms s =
      if s.handle.initialised
      then (if s.handle.ppp_data_mode
          then some (err_busy, s)
          else (do (st, _) ← line_loop p ok ok on_poll fuel max_lines timeout_ms tt; pure st) s)
      else some (err_not_ready, s)
