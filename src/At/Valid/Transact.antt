-- ===== src/At/Valid/Transact.antt =====
-- Memory safety of the transactions: the handle stays valid, the caller's buffer keeps its size, and
-- nothing but the receive state, the scratch buffer and the error fields of the handle changes.
use ec200_at_abstraction.Prelude.{
  ℕ, ◌+◌, ◌-◌, ◌≤◌, ◌≡◌, refl, sym, ap, ◌∙◌, Bool, true, false, not, ◌&&◌, ◌||◌, [], ◌∷◌, ◌++◌,
  Option, none, some, arith, length, take, length-append, length-take, length-set, Bool-cases, inl,
  inr, leb, ltb, if◌then◌else◌,
}
use mathlib.Core.Path.{subst}
use ec200_at_abstraction.Text.{Text}
use ec200_at_abstraction.Text.Laws.{length-memcpy_at}
use ec200_at_abstraction.Handle.{Handle, Platform, Sys, ok, err_timeout, err_overflow, max_lines}
use ec200_at_abstraction.At.Rx.{rx_feed}
use ec200_at_abstraction.At.Terminal.{Terminal, neither, success, failure, is_terminal}
use ec200_at_abstraction.At.Urc.{dispatch_registered_urc}
use ec200_at_abstraction.At.Transaction.{
  Buffer, Receipt, finish, more, copy_line, accumulate, accumulate_in, on_line, on_other_line,
  on_terminal, line_loop, receive_transaction, has_prefix, is_given, clear_buffer,
}
use ec200_at_abstraction.At.Valid.Defs.{IsValid, After, After-bind}
use ec200_at_abstraction.At.Valid.Step.{rx_feed-IsValid, is_terminal-IsValid}
use ec200_at_abstraction.At.Valid.Receive.{StepHolds, line_loop-holds, handle-dispatch}

abbrev pub buffer_size : Buffer → Option ℕ
buffer_size none = none
buffer_size (some buf) = some (length buf)

-- copy_line cuts the line so that it fits with its NUL.
pub size-copy_line : (line : Text) (b : Buffer) → buffer_size (copy_line line b) ≡ buffer_size b
unfolding copy_line
size-copy_line line none = refl
size-copy_line line (some []) = refl
size-copy_line line (some (d ∷ dst)) =
    let size = length (d ∷ dst) in
    let kept = if leb size (length line) then size - 1 else length line in
    let copied = take kept line ++ (0 ∷ []) in
    let fits : length copied ≤ size =
      ground (arith, length-append (take kept line) (0 ∷ []), length-take kept line) in
    ap some (length-memcpy_at 0 copied (d ∷ dst) (omega arith))

-- A body line is only stored where it fits with its separator and its NUL.
size-accumulate_in :
    (b : Buffer) (line : Text) (r : Receipt)
    → r.resp ≡ b
    → buffer_size (accumulate_in b line r).resp ≡ buffer_size b
unfolding accumulate_in
size-accumulate_in none line r e = ap buffer_size e
size-accumulate_in (some buf) line r e =
    let text = if ltb 0 r.resp_pos then b'\n' ∷ line else line in
    let fits : length (text ++ (0 ∷ [])) ≤ length line + 2 =
      ground (arith, length-append text (0 ∷ [])) in
    ground (arith, ap buffer_size e, length-memcpy_at r.resp_pos (text ++ (0 ∷ [])) buf)

pub size-accumulate :
    (line : Text) (r : Receipt) → buffer_size (accumulate line r).resp ≡ buffer_size r.resp
size-accumulate line r = size-accumulate_in r.resp line r refl

size-clear_buffer : (b : Buffer) → buffer_size (clear_buffer b) ≡ buffer_size b
size-clear_buffer none = refl
size-clear_buffer (some buf) = ap some (length-set buf 0 0)

-- `h` as `before`, but for the fields that a receive loop writes.
pub record Safe (before : Handle) (size : Option ℕ) (r : Buffer) (h : Handle) : Type 0 where
  pub valid : IsValid h
  pub sized : buffer_size r ≡ size
  pub table_kept : h.urc_table ≡ before.urc_table
  pub mode_kept : h.ppp_data_mode ≡ before.ppp_data_mode
  pub ready_kept : h.initialised ≡ before.initialised

abbrev Untouched : Handle → Handle → Type 0
Untouched h h' =
    (h'.urc_table ≡ h.urc_table)
    × (h'.ppp_data_mode ≡ h.ppp_data_mode)
    × (h'.initialised ≡ h.initialised)

rx_feed-Untouched : (h : Handle) (ch : ℕ) → Untouched h (rx_feed h ch).0
unfolding rx_feed
rx_feed-Untouched h ch = ground arith

is_terminal-Untouched : (h : Handle) (line : Text) → Untouched h (is_terminal h line).1
unfolding is_terminal
is_terminal-Untouched h line = ground arith

module _ (before : Handle) (size : Option ℕ) where
  Safe-step :
      (b : Buffer) (h h' : Handle)
      → Safe before size b h
      → IsValid h'
      → Untouched h h'
      → Safe before size b h'
  Safe-step b h h' v v' u = record {
    valid = v';
    sized = v.sized;
    table_kept = u.0 ∙ v.table_kept;
    mode_kept = u.1 ∙ v.mode_kept;
    ready_kept = u.2 ∙ v.ready_kept;
  }

  pub rx_feed-Safe :
      (b : Buffer) (h : Handle) (ch : ℕ)
      → Safe before size b h
      → Safe before size b (rx_feed h ch).0
  rx_feed-Safe b h ch v = Safe-step b h _ v (rx_feed-IsValid h ch v.valid) (rx_feed-Untouched h ch)

  pub is_terminal-Safe :
      (b : Buffer) (h : Handle) (line : Text)
      → Safe before size b h
      → Safe before size b (is_terminal h line).1
  is_terminal-Safe b h line v =
      Safe-step b h _ v (is_terminal-IsValid h line v.valid) (is_terminal-Untouched h line)

  pub Safe-resized :
      (b b' : Buffer) (h : Handle)
      → buffer_size b' ≡ buffer_size b
      → Safe before size b h
      → Safe before size b' h
  Safe-resized b b' h e v = record {
    valid = v.valid;
    sized = e ∙ v.sized;
    table_kept = v.table_kept;
    mode_kept = v.mode_kept;
    ready_kept = v.ready_kept;
  }

  module _ {W : Type 0} (p : Platform W) where
    abbrev Kept : Receipt → Handle → Type 0
    Kept r h = Safe before size r.resp h

    on_terminal-Safe :
        (prefix : Option Text) (line : Text) (r : Receipt) (t : Terminal) (s : Sys W)
        → Kept r s.handle
        → StepHolds Kept (λ _. Kept) (on_terminal p prefix line r t s)
    unfolding on_terminal
    on_terminal-Safe prefix line r success s v =
        elim (Bool-cases (is_given prefix && not r.matched)) [ inl e ↦ rw e v | inr e ↦ rw e v ]
    on_terminal-Safe prefix line r failure s v = v
    on_terminal-Safe prefix line r neither s v =
        let (dispatched, s') = dispatch_registered_urc p line s in
        let v' = subst (Kept r) (sym (handle-dispatch p line s)) v in
        elim (Bool-cases (dispatched || is_given prefix)) [
          | inl e ↦ rw e v'
          | inr e ↦
              rw e
                (Safe-resized r.resp (accumulate line r).resp s'.handle (size-accumulate line r) v')
        ]

    on_line-Safe :
        (prefix : Option Text) (stop : Bool) (line : Text) (r : Receipt) (s : Sys W)
        → Kept r s.handle
        → StepHolds Kept (λ _. Kept) (on_line p prefix stop line r s)
    unfolding on_line on_other_line
    on_line-Safe prefix stop line r s v =
        let copied =
          Safe-resized r.resp (copy_line line r.resp) s.handle (size-copy_line line r.resp) v in
        let (term, h) = is_terminal s.handle line in
        elim (Bool-cases (has_prefix prefix line && not r.matched)) [
          | inl e ↦
              rw e
                (elim stop
                  as (λ b.
                    StepHolds Kept (λ _. Kept) (if b then (finish ok _, s) else (more _, s))) [
                      | true ↦ copied
                      | false ↦ copied
                    ])
          | inr e ↦ rw e (
              on_terminal-Safe prefix line r term (record s { handle = h })
                (is_terminal-Safe r.resp s.handle line v))
        ]

    -- A transaction neither reads nor writes outside an array.
    pub receive_transaction-Safe :
        (fuel : ℕ) (prefix : Option Text) (stop : Bool) (b : Buffer) (timeout_ms : ℕ) (s : Sys W)
        → Safe before size b s.handle
        → After
            (λ a s'. Safe before size a.1 s'.handle)
            (receive_transaction p fuel prefix stop b timeout_ms s)
    unfolding receive_transaction
    receive_transaction-Safe fuel prefix stop b timeout_ms s v =
        After-bind (λ a s'. Kept a.1 s'.handle) _ (line_loop p _ _ _ fuel max_lines timeout_ms _) _
          s
          (line_loop-holds p err_timeout err_overflow (on_line p prefix stop) Kept (λ _. Kept)
            (λ r. rx_feed-Safe r.resp) (on_line-Safe prefix stop) (λ r h k. (k, k, k)) fuel
            max_lines timeout_ms _ s
            (Safe-resized b (clear_buffer b) s.handle (size-clear_buffer b) v))
          λ a s' k. k
