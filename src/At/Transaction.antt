-- ===== src/At/Transaction.antt =====
-- src/ec200_at.c: copy_line and receive_transaction. The four loops of the file that read lines share
-- their frame: at most EC200_AT_MAX_LINES rounds of rx_line, a return on a read error or a timeout, and
-- no action on a blank line. That frame is `line_loop`, and each function gives its body.
use ec200_at_abstraction.Prelude.{
  ℕ, zero, suc, ◌+◌, ◌-◌, Bool, true, false, not, ◌&&◌, ◌||◌, List, [], ◌∷◌, ◌++◌, Option, none,
  some, ltb, leb, if◌then◌else◌, length, take, set,
}
use ec200_at_abstraction.Text.{Text, starts_with, memcpy_at}
use ec200_at_abstraction.Handle.{
  Platform, Sys, Status, ok, err_io, err_timeout, err_parse, err_overflow, max_lines,
}
use ec200_at_abstraction.Exec.{Exec, pure, ◌>>=◌}
use ec200_at_abstraction.At.Rx.{RxCode, rx_ok, rx_timeout, rx_io_error, rx_line, current_line}
use ec200_at_abstraction.At.Terminal.{
  Terminal, neither, success, failure, is_terminal, map_error_terminal,
}
use ec200_at_abstraction.At.Urc.{dispatch_registered_urc}

-- A caller's buffer with its size, or NULL.
abbrev pub Buffer : Type 0
Buffer = Option (List ℕ)

-- What a loop body does with a line: return, or go on.
pub data LineStep (R : Type 0) : Type 0 where
  finish : Status → R → LineStep R
  more : R → LineStep R

abbrev pub Body : Type 0 → Type 0 → Type 0
Body W R = Text → R → Sys W → LineStep R × Sys W

-- copy_line
unfoldable pub copy_line : Text → Buffer → Buffer
copy_line line none = none
copy_line line (some []) = some []
copy_line line (some (d ∷ dst)) =
    let size = length (d ∷ dst) in
    let len = if leb size (length line) then size - 1 else length line in
    some (memcpy_at 0 (take len line ++ (0 ∷ [])) (d ∷ dst))

-- `line[0] == '\0'` makes the loop go on with no action.
unfoldable pub run_body : {W R : Type 0} → Body W R → Body W R
run_body body [] r s = (more r, s)
run_body body (c ∷ line) r s = body (c ∷ line) r s

module _ {W R : Type 0} (p : Platform W) (on_timeout exhausted : Status) (body : Body W R) where
  -- What a round does with the result of rx_line; `next` is the next round.
  unfoldable pub line_round : (ℕ → R → Exec W (Status × R)) → R → RxCode × ℕ → Exec W (Status × R)
  line_round next r (rx_io_error, b) s = some ((err_io, r), s)
  line_round next r (rx_timeout, b) s = some ((on_timeout, r), s)
  line_round next r (rx_ok, b) s =
      let (step, s') = run_body body (current_line s.handle) r s in
      elim step [ finish st r' ↦ some ((st, r'), s') | more r' ↦ next b r' s' ]

  -- The rounds left, the budget, and the variables of the body.
  unfoldable pub line_loop : ℕ → ℕ → ℕ → R → Exec W (Status × R)
  unfolding line_round
  line_loop fuel zero budget r s = some ((exhausted, r), s)
  line_loop fuel (suc lines) budget r s =
      let next = λ (b : ℕ) (r' : R). line_loop fuel lines b r' in
      (rx_line p fuel budget >>= line_round next r) s

-- The variables of receive_transaction: `matched`, `resp_pos` and the caller's buffer.
pub record Receipt : Type 0 where
  pub matched : Bool
  pub resp_pos : ℕ
  pub resp : Buffer

-- prefix != NULL
abbrev pub is_given : Option Text → Bool
is_given none = false
is_given (some prefix) = true

-- prefix != NULL && strncmp(line, prefix, prefix_len) == 0
abbrev pub has_prefix : Option Text → Text → Bool
has_prefix none line = false
has_prefix (some prefix) line = starts_with prefix line

-- The accumulation of body lines at the end of receive_transaction's loop, on the caller's buffer.
unfoldable pub accumulate_in : Buffer → Text → Receipt → Receipt
accumulate_in none line r = r
accumulate_in (some buf) line r =
    let text = if ltb 0 r.resp_pos then b'\n' ∷ line else line in
    if ltb (r.resp_pos + length line + 2) (length buf)
    then record r {
      resp_pos = r.resp_pos + length text;
      resp = some (memcpy_at r.resp_pos (text ++ (0 ∷ [])) buf);
    }
    else r

abbrev pub accumulate : Text → Receipt → Receipt
accumulate line r = accumulate_in r.resp line r

-- resp_buf[0] = '\0', if there is a buffer
abbrev pub clear_buffer : Buffer → Buffer
clear_buffer none = none
clear_buffer (some buf) = some (set buf 0 0)

module _ {W : Type 0} (p : Platform W) where
  -- The loop body of receive_transaction behind is_terminal.
  unfoldable pub on_terminal :
      Option Text → Text → Receipt → Terminal → Sys W → LineStep Receipt × Sys W
  on_terminal prefix line r success s =
      if is_given prefix && not r.matched then (finish err_parse r, s) else (finish ok r, s)
  on_terminal prefix line r failure s = (finish (map_error_terminal s.handle) r, s)
  on_terminal prefix line r neither s =
      let (dispatched, s') = dispatch_registered_urc p line s in
      (more (if dispatched || is_given prefix then r else accumulate line r), s')

  -- The loop body of receive_transaction behind the prefix match.
  unfoldable pub on_other_line : Option Text → Body W Receipt
  unfolding on_terminal
  on_other_line prefix line r s =
      let (term, h) = is_terminal s.handle line in
      on_terminal prefix line r term (record s { handle = h })

  -- The loop body of receive_transaction.
  unfoldable pub on_line : Option Text → Bool → Body W Receipt
  on_line prefix stop_on_prefix line r s =
      let r' = record r { matched = true; resp = copy_line line r.resp } in
      if has_prefix prefix line && not r.matched
      then (if stop_on_prefix then (finish ok r', s) else (more r', s))
      else on_other_line prefix line r s

  -- receive_transaction
  unfoldable pub receive_transaction :
      ℕ → Option Text → Bool → Buffer → ℕ → Exec W (Status × Buffer)
  receive_transaction fuel prefix stop_on_prefix resp timeout_ms = do
    let body = on_line prefix stop_on_prefix
    let start : Receipt = record { matched = false; resp_pos = 0; resp = clear_buffer resp }
    (st, r) ← line_loop p err_timeout err_overflow body fuel max_lines timeout_ms start
    pure (st, r.resp)
