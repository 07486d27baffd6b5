-- ===== src/At/Receiving/Calls.antt =====
-- The waits and the transactions behind their transmission keep a world invariant of the receiving side.
use ec200_at_abstraction.Prelude.{
  ℕ, zero, suc, Bool, not, ◌&&◌, [], ◌∷◌, Option, none, some, arith, if-elim,
}
use ec200_at_abstraction.Text.{Text, starts_with}
use ec200_at_abstraction.Handle.{
  Platform, Ptr, Sys, Status, err_parse, err_timeout, err_overflow, max_lines,
}
use ec200_at_abstraction.Exec.{Exec}
use ec200_at_abstraction.At.Rx.{Got, rx_getc, rx_feed, current_line}
use ec200_at_abstraction.At.Terminal.{
  Terminal, neither, success, failure, is_terminal, map_error_terminal,
}
use ec200_at_abstraction.At.Urc.{dispatch_registered_urc}
use ec200_at_abstraction.At.Transaction.{
  Buffer, Receipt, LineStep, has_prefix, on_line, on_other_line, on_terminal, receive_transaction,
}
use ec200_at_abstraction.At.Wait.{
  on_wait_prefix, on_wait_terminal, wait_prefix, on_wait_final, on_final_terminal, wait_final,
}
use ec200_at_abstraction.At.Prompt.{
  keep_byte, swallow_space, on_prompt_line, prompt_received, prompt_loop,
}
use ec200_at_abstraction.At.Receiving.{
  Keeps, Keeps-bind, rx_getc-Keeps, dispatch-keeps, BodyKeeps, line_loop-Keeps,
}
use ec200_at_abstraction.At.Valid.{After}

module _ {W : Type 0} (p : Platform W) (I : W → Type 0)
    (reads : (f : Ptr) (len t : ℕ) (ctx : Ptr) (w : W) → I w → I (p.read f len t ctx w).after)
    (handlers : (f : Ptr) (line : Text) (ctx : Ptr) (w : W) → I w → I (p.urc f line ctx w)) where
  abbrev Kept : {A : Type 0} → Exec W A → Type 0
  Kept m = Keeps p I reads handlers m

  on_terminal-keeps :
      (prefix : Option Text) (line : Text) (r : Receipt) (t : Terminal) (s : Sys W)
      → I s.world
      → I (on_terminal p prefix line r t s).1.world
  unfolding on_terminal
  on_terminal-keeps prefix line r success s i =
      if-elim (λ (x : LineStep Receipt × Sys W). I x.1.world) _ _ _ (λ _. i) (λ _. i)
  on_terminal-keeps prefix line r failure s i = i
  on_terminal-keeps prefix line r neither s i = dispatch-keeps p I reads handlers line s i

  on_line-keeps :
      (prefix : Option Text) (stop : Bool) → BodyKeeps p I reads handlers (on_line p prefix stop)
  unfolding on_line on_other_line
  on_line-keeps prefix stop line r s i =
      let other =
        on_terminal-keeps prefix line r (is_terminal s.handle line).0
          (record s { handle = (is_terminal s.handle line).1 }) i in
      if-elim (λ (x : LineStep Receipt × Sys W). I x.1.world)
        (has_prefix prefix line && not r.matched) _ _
        (λ _. if-elim (λ (x : LineStep Receipt × Sys W). I x.1.world) stop _ _ (λ _. i) (λ _. i))
        λ _. other

  pub receive_transaction-Keeps :
      (fuel : ℕ) (prefix : Option Text) (stop : Bool) (resp : Buffer) (t : ℕ)
      → Kept (receive_transaction p fuel prefix stop resp t)
  unfolding receive_transaction
  receive_transaction-Keeps fuel prefix stop resp t =
      Keeps-bind p I reads handlers _ _
        (line_loop-Keeps p I reads handlers err_timeout err_overflow (on_line p prefix stop)
          (on_line-keeps prefix stop) fuel max_lines t _)
        λ a s i. i

  on_wait_terminal-keeps :
      (line : Text) (resp : Buffer) (t : Terminal) (s : Sys W)
      → I s.world
      → I (on_wait_terminal p line resp t s).1.world
  unfolding on_wait_terminal
  on_wait_terminal-keeps line resp success s i = i
  on_wait_terminal-keeps line resp failure s i = i
  on_wait_terminal-keeps line resp neither s i = dispatch-keeps p I reads handlers line s i

  on_wait_prefix-keeps : (prefix : Text) → BodyKeeps p I reads handlers (on_wait_prefix p prefix)
  unfolding on_wait_prefix
  on_wait_prefix-keeps prefix line resp s i =
      if-elim (λ (x : LineStep Buffer × Sys W). I x.1.world) (starts_with prefix line) _ _ (λ _. i)
        λ _.
          on_wait_terminal-keeps line resp (is_terminal s.handle line).0
            (record s { handle = (is_terminal s.handle line).1 }) i

  pub wait_prefix-Keeps :
      (fuel : ℕ) (prefix : Option Text) (resp : Buffer) (t : ℕ)
      → Kept (wait_prefix p fuel prefix resp t)
  unfolding wait_prefix
  wait_prefix-Keeps fuel none resp t s i = i
  wait_prefix-Keeps fuel (some prefix) resp t s i =
      if-elim (After (λ _ s'. I s'.world)) s.handle.initialised _ _
        (λ _.
          line_loop-Keeps p I reads handlers err_timeout err_overflow (on_wait_prefix p prefix)
            (on_wait_prefix-keeps prefix) fuel max_lines t resp s i)
        λ _. i

  on_final_terminal-keeps :
      (line : Text) (t : Terminal) (s : Sys W)
      → I s.world
      → I (on_final_terminal p line t s).1.world
  unfolding on_final_terminal
  on_final_terminal-keeps line success s i = i
  on_final_terminal-keeps line failure s i = i
  on_final_terminal-keeps line neither s i = dispatch-keeps p I reads handlers line s i

  on_wait_final-keeps : BodyKeeps p I reads handlers (on_wait_final p)
  unfolding on_wait_final
  on_wait_final-keeps line r s i =
      on_final_terminal-keeps line (is_terminal s.handle line).0
        (record s { handle = (is_terminal s.handle line).1 }) i

  pub wait_final-Keeps : (fuel t : ℕ) → Kept (wait_final p fuel t)
  unfolding wait_final
  wait_final-Keeps fuel t s i =
      if-elim (After (λ _ s'. I s'.world)) s.handle.initialised _ _
        (λ _.
          Keeps-bind p I reads handlers _ _
            (line_loop-Keeps p I reads handlers err_timeout err_overflow (on_wait_final p)
              on_wait_final-keeps fuel max_lines t tt)
            (λ a s' j. j) s i)
        λ _. i

  keep_byte-Kept : (g : Got) → Kept (keep_byte p g)
  unfolding keep_byte
  keep_byte-Kept g s i = ground arith

  on_prompt_line-keeps : (line : Text) (s : Sys W) → I s.world → I (on_prompt_line p line s).1.world
  unfolding on_prompt_line
  on_prompt_line-keeps [] s i = i
  on_prompt_line-keeps (c ∷ line) s i =
      let h = (is_terminal s.handle (c ∷ line)).1 in
      by_terminal (is_terminal s.handle (c ∷ line)).0 (record s { handle = h })
        (dispatch-keeps p I reads handlers (c ∷ line) (record s { handle = h }) i) i
    where
      by_terminal :
          (t : Terminal) (s' : Sys W)
          → I (dispatch_registered_urc p (c ∷ line) s').1.world
          → I s'.world
          → I (
              let r : Option Status × Sys W = elim t [
                | failure ↦ (some (map_error_terminal s'.handle), s')
                | success ↦ (some err_parse, s')
                | neither ↦ (none, (dispatch_registered_urc p (c ∷ line) s').1)
              ] in
              r.1.world)
      by_terminal failure s' d j = j
      by_terminal success s' d j = j
      by_terminal neither s' d j = d

  answered-Kept :
      (next : ℕ → Exec W Status) (b : ℕ) (answer : Option Status) (s : Sys W)
      → ((b : ℕ) → Kept (next b))
      → I s.world
      → After
          (λ _ s'. I s'.world)
          (let r : Option (Status × Sys W) = elim answer [
            | some st ↦ some (st, s)
            | none ↦ next b s
          ] in
            r)
  answered-Kept next b none s rec i = rec b s i
  answered-Kept next b (some st) s rec i = i

  prompt_received-Kept :
      (fuel : ℕ) (next : ℕ → Exec W Status) (g : Got)
      → ((b : ℕ) → Kept (next b))
      → Kept (prompt_received p fuel next g)
  unfolding prompt_received swallow_space
  prompt_received-Kept fuel next g rec s i =
      let fed : Sys W = record s { handle = (rx_feed s.handle g.byte).0 } in
      let line = current_line fed.handle in
      let swallowed =
        Keeps-bind p I reads handlers (rx_getc p fuel 0) (keep_byte p)
          (rx_getc-Keeps p I reads handlers fuel 0) keep_byte-Kept s i in
      let answered =
        answered-Kept next g.budget (on_prompt_line p line fed).0 (on_prompt_line p line fed).1 rec
          (on_prompt_line-keeps line fed i) in
      let going_on = rec g.budget fed i in ground arith

  pub prompt_loop-Kept : (fuel budget : ℕ) → Kept (prompt_loop p fuel budget)
  unfolding prompt_loop
  prompt_loop-Kept zero budget s i = tt
  prompt_loop-Kept (suc fuel) budget s i =
      Keeps-bind p I reads handlers (rx_getc p (suc fuel) budget) _
        (rx_getc-Keeps p I reads handlers (suc fuel) budget)
        (λ g. prompt_received-Kept (suc fuel) (λ b. prompt_loop p fuel b) g (prompt_loop-Kept fuel))
        s i
