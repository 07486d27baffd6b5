-- ===== src/Query.antt =====
-- The shapes in which the modules over the engine call it: a command of which only the status counts, and
-- a query that reads its reply into a local array.
use ec200_at_abstraction.Prelude.{ℕ, [], none, some, replicate, pos, ◌==◌, if◌then◌else◌}
use ec200_at_abstraction.Text.{Text, c_str}
use ec200_at_abstraction.Handle.{Platform, Status, ok, err_parse, err_module, timeout_default}
use ec200_at_abstraction.Exec.{Exec, pure, ◌>>=◌}
use ec200_at_abstraction.At.Transaction.{Buffer}
use ec200_at_abstraction.At.Command.{at_send, at_send_wait, at_send_expect, at_send_await_urc}
use ec200_at_abstraction.At.Wait.{wait_prefix}
use ec200_at_abstraction.At.Field.{parse_int_field}

-- The string in a buffer.
abbrev pub text_of : Buffer → Text
text_of none = []
text_of (some buf) = c_str buf

-- `char resp[n];`, whose cells are read only once they are written.
abbrev pub local_array : ℕ → Buffer
local_array n = some (replicate n 0)

-- The status behind the error number in field `field` of a result line.
unfoldable pub result_field : Text → ℕ → Status
result_field line field = elim (parse_int_field line field) [
  | none ↦ err_parse
  | some (pos err) ↦ if err == 0 then ok else err_module
  | some _ ↦ err_module
]

module _ {W : Type 0} (p : Platform W) (fuel : ℕ) where
  -- ec200_at_send(h, cmd, NULL, 0, timeout)
  abbrev pub send_command : Text → ℕ → Exec W Status
  send_command cmd timeout_ms = do (st, _) ← at_send p fuel (some cmd) none timeout_ms; pure st

  -- ec200_at_send_wait(h, cmd, prefix, resp, sizeof(resp), timeout)
  abbrev pub query : Text → Text → ℕ → ℕ → Exec W (Status × Text)
  query cmd prefix size timeout_ms = do
    (st, resp) ← at_send_wait p fuel (some cmd) (some prefix) (local_array size) timeout_ms
    pure (st, text_of resp)

  -- ec200_at_send_expect, with the reply not looked at
  abbrev pub expect : Text → Text → ℕ → ℕ → Exec W Status
  expect cmd prefix size timeout_ms = do
    (st, _) ← at_send_expect p fuel (some cmd) (some prefix) (local_array size) timeout_ms
    pure st

  -- ec200_at_send_await_urc(h, cmd, prefix, resp, sizeof(resp), EC200_AT_TIMEOUT_DEFAULT, timeout)
  abbrev pub await_urc : Text → Text → ℕ → ℕ → Exec W (Status × Text)
  await_urc cmd prefix size timeout_ms = do
    (st, resp) ←
        at_send_await_urc p fuel (some cmd) (some prefix) (local_array size) timeout_default
          timeout_ms
    pure (st, text_of resp)

  -- ec200_at_wait_prefix(h, prefix, resp, sizeof(resp), timeout)
  abbrev pub await_prefix : Text → ℕ → ℕ → Exec W (Status × Text)
  await_prefix prefix size timeout_ms = do
    (st, resp) ← wait_prefix p fuel (some prefix) (local_array size) timeout_ms
    pure (st, text_of resp)

  -- ec200_at_send_expect with a local array for the line
  abbrev pub expect_line : Text → Text → ℕ → ℕ → Exec W (Status × Text)
  expect_line cmd prefix size timeout_ms = do
    (st, resp) ← at_send_expect p fuel (some cmd) (some prefix) (local_array size) timeout_ms
    pure (st, text_of resp)
