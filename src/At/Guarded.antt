-- ===== src/At/Guarded.antt =====
-- What a client that sends commands keeps of the handle: the rules, by name.
pub mod Rules
pub mod Calls
pub mod Reads
use Rules.{
  Guarded-pure, Guarded-if, Guarded-if_ok, Guarded-if_ok_else, Guarded-bind, Guarded-option,
  Guarded-at_send, Guarded-at_send_wait, Guarded-at_send_expect, Guarded-at_send_await_urc,
  Guarded-wait_prefix, Guarded-wait_final, Guarded-write_raw, Guarded-send_command,
}
use Calls.{Guarded-at_send_prompt}
use Reads.{Guarded-read_raw, Guarded-read_exact}

pub ruleset guarded_rules = (
  Guarded-pure, Guarded-if, Guarded-if_ok, Guarded-if_ok_else, Guarded-bind, Guarded-option,
  Guarded-at_send, Guarded-at_send_wait, Guarded-at_send_expect, Guarded-at_send_await_urc,
  Guarded-wait_prefix, Guarded-wait_final, Guarded-write_raw, Guarded-send_command,
  Guarded-at_send_prompt, Guarded-read_raw, Guarded-read_exact,
)
