-- ===== src/At/Command.antt =====
-- src/ec200_at.c: the command transactions ec200_at_send, ec200_at_send_wait, ec200_at_send_expect and
-- ec200_at_send_await_urc.
use ec200_at_abstraction.Prelude.{ℕ, true, false, Option, none, some, if◌then◌else◌}
use ec200_at_abstraction.Text.{Text}
use ec200_at_abstraction.Handle.{Platform, Status, ok, err_parse, err_not_ready, timeout_short}
use ec200_at_abstraction.Exec.{Exec, pure, ◌>>=◌, ◌>>◌}
use ec200_at_abstraction.At.Tx.{at_transmit}
use ec200_at_abstraction.At.Transaction.{Buffer, receive_transaction}
use ec200_at_abstraction.At.Wait.{wait_prefix, wait_final}

module _ {W : Type 0} (p : Platform W) where
  -- `if (st != EC200_OK) return st;` behind the transmission.
  unfoldable pub after_transmit :
      Buffer → Exec W (Status × Buffer) → Status → Exec W (Status × Buffer)
  after_transmit resp next ok = next
  after_transmit resp next st = pure (st, resp)

  -- The beginning that the transactions share: transmit, and go on if that succeeded.
  unfoldable pub transmit_then :
      ℕ → Text → Buffer → Exec W (Status × Buffer) → Exec W (Status × Buffer)
  unfolding after_transmit
  transmit_then fuel cmd resp next s =
      if s.handle.initialised
      then (at_transmit p fuel cmd >>= after_transmit resp next) s
      else some ((err_not_ready, resp), s)

  -- ec200_at_send; NULL pointers are `none`.
  unfoldable pub at_send : ℕ → Option Text → Buffer → ℕ → Exec W (Status × Buffer)
  at_send fuel none resp timeout_ms s = some ((err_not_ready, resp), s)
  at_send fuel (some cmd) resp timeout_ms s =
      transmit_then fuel cmd resp (receive_transaction p fuel none false resp timeout_ms) s

  -- ec200_at_send_wait
  unfoldable pub at_send_wait :
      ℕ → Option Text → Option Text → Buffer → ℕ → Exec W (Status × Buffer)
  at_send_wait fuel none prefix resp timeout_ms s = some ((err_not_ready, resp), s)
  at_send_wait fuel (some cmd) none resp timeout_ms s = some ((err_not_ready, resp), s)
  at_send_wait fuel (some cmd) (some prefix) resp timeout_ms s =
      transmit_then fuel cmd resp (receive_transaction p fuel (some prefix) false resp timeout_ms) s

  -- ec200_at_send_expect
  unfoldable pub at_send_expect :
      ℕ → Option Text → Option Text → Buffer → ℕ → Exec W (Status × Buffer)
  at_send_expect fuel none prefix resp timeout_ms s = some ((err_not_ready, resp), s)
  at_send_expect fuel (some cmd) none resp timeout_ms s = some ((err_not_ready, resp), s)
  at_send_expect fuel (some cmd) (some prefix) resp timeout_ms s =
      transmit_then fuel cmd resp (receive_transaction p fuel (some prefix) true resp timeout_ms) s

  -- Behind phase 1 of ec200_at_send_await_urc.
  unfoldable pub after_phase_one : ℕ → Text → ℕ → Status × Buffer → Exec W (Status × Buffer)
  after_phase_one fuel prefix urc_timeout (ok, resp) = do
    wait_final p fuel timeout_short
    pure (ok, resp)
  after_phase_one fuel prefix urc_timeout (err_parse, resp) =
      wait_prefix p fuel (some prefix) resp urc_timeout
  after_phase_one fuel prefix urc_timeout (st, resp) = pure (st, resp)

  -- The two phases of ec200_at_send_await_urc behind the transmission.
  unfoldable pub await_phases : ℕ → Text → Buffer → ℕ → ℕ → Exec W (Status × Buffer)
  unfolding after_phase_one
  await_phases fuel prefix resp ok_timeout urc_timeout =
      receive_transaction p fuel (some prefix) true resp ok_timeout
      >>= after_phase_one fuel prefix urc_timeout

  -- ec200_at_send_await_urc
  unfoldable pub at_send_await_urc :
      ℕ → Option Text → Option Text → Buffer → ℕ → ℕ → Exec W (Status × Buffer)
  at_send_await_urc fuel none prefix resp ok_timeout urc_timeout s = some ((err_not_ready, resp), s)
  at_send_await_urc fuel (some cmd) none resp ok_timeout urc_timeout s =
      some ((err_not_ready, resp), s)
  at_send_await_urc fuel (some cmd) (some prefix) resp ok_timeout urc_timeout s =
      transmit_then fuel cmd resp (await_phases fuel prefix resp ok_timeout urc_timeout) s
