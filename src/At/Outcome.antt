-- ===== src/At/Outcome.antt =====
-- What the status and the buffer of a transaction say of the lines received: the classification of
-- errors and the prefixed line.
pub mod Prefixed
use ec200_at_abstraction.Prelude.{
  ℕ, suc, ◌+◌, ◌-◌, ◌≤◌, ◌<◌, ◌≡◌, ◌≢◌, ◌↔◌, ◌⊎◌, inl, inr, refl, sym, ap, ◌∙◌, Bool, true, false,
  not, ◌&&◌, ◌||◌, List, [], ◌∷◌, ◌++◌, Option, none, some, arith, if◌then◌else◌, if-elim, length,
  take, leb, ltb, ℤ, pos, negsuc, zero, ◌%◌, ◌^◌, set, drop, take_all, append_assoc, Bool-cases,
}
use mathlib.Core.Path.{subst}
use ec200_at_abstraction.Text.{Text, starts_with, c_str, memcpy_at}
use ec200_at_abstraction.Text.Laws.{NoNul, NoNul-take, c_str-append_nul}
use ec200_at_abstraction.Handle.{
  Handle, Platform, Sys, Status, ok, err_cme, err_cms, err_module, err_io, err_parse, err_timeout,
  err_overflow, max_lines,
}
use ec200_at_abstraction.Exec.{Exec}
use ec200_at_abstraction.At.Rx.{rx_feed}
use ec200_at_abstraction.At.Terminal.{
  Terminal, neither, success, failure, is_terminal, map_error_terminal,
}
use ec200_at_abstraction.At.Urc.{dispatch_registered_urc}
use ec200_at_abstraction.At.Tx.{
  at_transmit, call_write, write_answer, write_loop, write_raw, reset_errors, frame_command,
}
use ec200_at_abstraction.At.Transaction.{
  Body, Buffer, Receipt, copy_line, is_given, has_prefix, clear_buffer, on_terminal, on_other_line,
  on_line, receive_transaction, line_loop, accumulate,
}
use ec200_at_abstraction.At.Command.{
  after_transmit, transmit_then, at_send, at_send_wait, at_send_expect,
}
use ec200_at_abstraction.At.Valid.{After, After-bind, After-weaken, After-both}
use ec200_at_abstraction.At.Valid.Receive.{StepHolds, line_loop-holds, handle-dispatch}
use ec200_at_abstraction.At.Valid.Calls.{handle-write_raw}
use ec200_at_abstraction.At.Sent.{status-write_raw}

-- copy_line stores as much of the line as fits with its NUL.
pub copied :
    (line : Text) (buf : List ℕ)
    → NoNul line
    → 0 < length buf
    → (out : List ℕ) × (copy_line line (some buf) ≡ some out)
      × (c_str out ≡ take (length buf - 1) line)
unfolding copy_line
copied line [] n h = absurd (omega arith)
copied line (d ∷ dst) n h =
    let size = length (d ∷ dst) in
    let kept = if leb size (length line) then size - 1 else length line in
    let text = take kept line in
    let same : text ≡ take (size - 1) line = elim (Bool-cases (leb size (length line))) [
      | inl e ↦ ap (λ (b : Bool). take (if b then size - 1 else length line) line) e
      | inr e ↦
          ap (λ (b : Bool). take (if b then size - 1 else length line) line) e
          ∙ take_all (length line) line (omega arith)
          ∙ sym (take_all (size - 1) line (ground arith))
    ] in
    let rest = drop (0 + length (text ++ (0 ∷ []))) (d ∷ dst) in
    (
      _,
      refl,
      unfold memcpy_at in
          ap c_str (append_assoc text (0 ∷ []) rest)
          ∙ c_str-append_nul text rest (NoNul-take kept line n)
          ∙ same,
    )

-- The error kind that goes with a status: 1 for EC200_ERR_CME, 2 for EC200_ERR_CMS.
abbrev pub kind_of : Status → ℕ
kind_of err_cme = 1
kind_of err_cms = 2
kind_of _ = 0

abbrev TerminalKind : Terminal → Handle → Type 0
TerminalKind failure h = h.last_err_kind ≡ kind_of (map_error_terminal h)
TerminalKind _ h = h.last_err_kind ≡ 0

is_terminal-kind :
    (h : Handle) (line : Text)
    → h.last_err_kind ≡ 0
    → let (t, h') = is_terminal h line in TerminalKind t h'
unfolding is_terminal map_error_terminal
is_terminal-kind h line e = ground arith

module _ {W : Type 0} (p : Platform W) where
  abbrev NoError : Receipt → Handle → Type 0
  NoError r h = h.last_err_kind ≡ 0

  abbrev Classified : Status → Receipt → Handle → Type 0
  Classified st r h = h.last_err_kind ≡ kind_of st

  on_terminal-Classified :
      (prefix : Option Text) (line : Text) (r : Receipt) (t : Terminal) (s : Sys W)
      → TerminalKind t s.handle
      → StepHolds NoError Classified (on_terminal p prefix line r t s)
  unfolding on_terminal
  on_terminal-Classified prefix line r success s e = ground arith
  on_terminal-Classified prefix line r failure s e = e
  on_terminal-Classified prefix line r neither s e =
      ap (λ (h : Handle). h.last_err_kind) (handle-dispatch p line s) ∙ e

  on_line-Classified :
      (prefix : Option Text) (stop : Bool) (line : Text) (r : Receipt) (s : Sys W)
      → NoError r s.handle
      → StepHolds NoError Classified (on_line p prefix stop line r s)
  unfolding on_line on_other_line
  on_line-Classified prefix stop line r s e =
      let (t, h) = is_terminal s.handle line in
      let other =
        on_terminal-Classified prefix line r t (record s { handle = h })
          (is_terminal-kind s.handle line e) in
      ground arith

  feed-NoError : (r : Receipt) (h : Handle) (ch : ℕ) → NoError r h → NoError r (rx_feed h ch).0
  unfolding rx_feed
  feed-NoError r h ch e = ground arith

  receive-Classified :
      (fuel : ℕ) (prefix : Option Text) (stop : Bool) (b : Buffer) (t : ℕ) (s : Sys W)
      → s.handle.last_err_kind ≡ 0
      → After
          (λ a s'. s'.handle.last_err_kind ≡ kind_of a.0)
          (receive_transaction p fuel prefix stop b t s)
  unfolding receive_transaction
  receive-Classified fuel prefix stop b t s e =
      After-bind (λ a s'. s'.handle.last_err_kind ≡ kind_of a.0)
        (λ a s'. s'.handle.last_err_kind ≡ kind_of a.0) (line_loop p _ _ _ fuel max_lines t _) _ s
        (line_loop-holds p err_timeout err_overflow (on_line p prefix stop) NoError Classified
          feed-NoError (on_line-Classified prefix stop) (λ r h k. (k, k, k)) fuel max_lines t _ s e)
        λ a s' k. k

  -- ec200_at_write_raw reports no error of the module.
  plain-write_raw :
      (fuel : ℕ) (bytes : List ℕ) (s : Sys W)
      → s.handle.last_err_kind ≡ 0
      → After
          (λ st s'. (s'.handle.last_err_kind ≡ 0) × (kind_of st ≡ 0))
          (write_raw p fuel (some bytes) s)
  plain-write_raw fuel bytes s e =
      After-both (λ _ s'. s'.handle.last_err_kind ≡ 0) (λ st _. kind_of st ≡ 0)
        (write_raw p fuel (some bytes) s)
        (After-weaken (λ _ s'. s'.handle ≡ s.handle) (λ _ s'. s'.handle.last_err_kind ≡ 0) _
          (λ _ s' same. ap (λ (h : Handle). h.last_err_kind) same ∙ e)
          (handle-write_raw p fuel (some bytes) s))
        (status-write_raw p (λ st. kind_of st ≡ 0) refl refl refl refl fuel (some bytes) s)

  plain-at_transmit :
      (fuel : ℕ) (cmd : Text) (s : Sys W)
      → s.handle.ppp_data_mode ≡ false
      → After (λ st s'. (s'.handle.last_err_kind ≡ 0) × (kind_of st ≡ 0)) (at_transmit p fuel cmd s)
  unfolding at_transmit
  plain-at_transmit fuel cmd s command_mode =
      let h = frame_command cmd (reset_errors s.handle) in
      let written =
        plain-write_raw fuel (take (length cmd + 1) h.tx_buf) (record s { handle = h }) refl in
      ground arith

  after_transmit-Classified :
      (b : Buffer) (next : Exec W (Status × Buffer))
      → ((s' : Sys W)
          → s'.handle.last_err_kind ≡ 0
          → After (λ a s''. s''.handle.last_err_kind ≡ kind_of a.0) (next s'))
      → (st : Status) (s : Sys W) → (s.handle.last_err_kind ≡ 0) × (kind_of st ≡ 0)
      → After (λ a s'. s'.handle.last_err_kind ≡ kind_of a.0) (after_transmit p b next st s)
  unfolding after_transmit
  after_transmit-Classified b next rec ok s k = rec s k.0
  after_transmit-Classified b next rec _ s k = k.0 ∙ sym k.1

  transmit_then-Classified :
      (fuel : ℕ) (cmd : Text) (b : Buffer) (next : Exec W (Status × Buffer)) (s : Sys W)
      → s.handle.initialised ≡ true
      → s.handle.ppp_data_mode ≡ false
      → ((s' : Sys W)
          → s'.handle.last_err_kind ≡ 0
          → After (λ a s''. s''.handle.last_err_kind ≡ kind_of a.0) (next s'))
      → After (λ a s'. s'.handle.last_err_kind ≡ kind_of a.0) (transmit_then p fuel cmd b next s)
  unfolding transmit_then
  transmit_then-Classified fuel cmd b next s ready mode rec =
      if-elim (After {A = Status × Buffer} (λ a s'. s'.handle.last_err_kind ≡ kind_of a.0))
        s.handle.initialised _ _
        (λ _.
          After-bind (λ st s'. (s'.handle.last_err_kind ≡ 0) × (kind_of st ≡ 0))
            (λ a s'. s'.handle.last_err_kind ≡ kind_of a.0) (at_transmit p fuel cmd)
            (after_transmit p b next) s (plain-at_transmit fuel cmd s mode)
            (after_transmit-Classified b next rec))
        λ no_init. absurd (cc)

  -- A transaction in command mode says what went wrong by both its status and the error kind of the
  -- handle, and the two agree, whatever error an earlier transaction had left: EC200_ERR_CME goes with
  -- kind 1, EC200_ERR_CMS with kind 2, and any other status with kind 0.
  pub transactions_classified :
      (fuel : ℕ) (cmd prefix : Text) (b : Buffer) (t : ℕ) (s : Sys W)
      → s.handle.initialised ≡ true
      → s.handle.ppp_data_mode ≡ false
      → After (λ a s'. s'.handle.last_err_kind ≡ kind_of a.0) (at_send p fuel (some cmd) b t s)
        × After
            (λ a s'. s'.handle.last_err_kind ≡ kind_of a.0)
            (at_send_wait p fuel (some cmd) (some prefix) b t s)
        × After
            (λ a s'. s'.handle.last_err_kind ≡ kind_of a.0)
            (at_send_expect p fuel (some cmd) (some prefix) b t s)
  unfolding at_send at_send_wait at_send_expect
  transactions_classified fuel cmd prefix b t s ready mode = (
    transmit_then-Classified fuel cmd b _ s ready mode (receive-Classified fuel none false b t),
    transmit_then-Classified fuel cmd b _ s ready mode
        (receive-Classified fuel (some prefix) false b t),
    transmit_then-Classified fuel cmd b _ s ready mode
        (receive-Classified fuel (some prefix) true b t),
  )
