-- ===== src/Sms/Collected.antt =====
-- What ec200_at_send hands to ec200_sms_list of the lines that a module lists its messages in.
use ec200_at_abstraction.Prelude.{
  ℕ, zero, suc, ◌+◌, ◌≤◌, ◌<◌, ◌≡◌, refl, sym, ap, ◌∙◌, Bool, false, ◌||◌, List, [], ◌∷◌, ◌++◌,
  Option, none, some, length, drop, replicate, ltb, if◌then◌else◌, if_true, append_assoc,
  take-length, length-append, length-drop, length-replicate, arith,
}
use ec200_at_abstraction.Text.{Text, c_str, memcpy_at}
use ec200_at_abstraction.Text.Laws.{c_str-append_nul}
use ec200_at_abstraction.Handle.{Handle, Platform, Sys}
use ec200_at_abstraction.At.Terminal.{Terminal, neither, is_terminal}
use ec200_at_abstraction.At.Urc.{dispatch_registered_urc}
use ec200_at_abstraction.At.Transaction.{
  LineStep, finish, more, Receipt, run_body, on_terminal, on_other_line, on_line, accumulate,
  accumulate_in, clear_buffer,
}
use ec200_at_abstraction.Query.{local_array, text_of}
use ec200_at_abstraction.Sms.RoundTrip.{Entry, header, print}
use ec200_at_abstraction.Sms.Replies.{AllEntries}
use ec200_at_abstraction.Sms.Printed.{
  lines, behind, append_nil, length-behind, join_behind, print_behind, print-NoNul, print_room,
}

-- A receipt whose buffer holds the text `t`.
abbrev holding : Text → List ℕ → Receipt
holding t rest = record { matched = false; resp_pos = length t; resp = some (t ++ (0 ∷ rest)) }

-- The text with a line behind it.
abbrev with_line : Text → Text → Text
with_line t line = t ++ (if ltb 0 (length t) then b'\n' ∷ line else line)

drop-append : (t ys : List ℕ) (n : ℕ) → drop (length t + n) (t ++ ys) ≡ drop n ys
drop-append [] ys n = ap (λ k. drop k ys) (omega arith)
drop-append (x ∷ t) ys n =
    ap (λ k. drop k (x ∷ t ++ ys)) (one_more (length t) n) ∙ drop-append t ys n
  where
    one_more : (a b : ℕ) → suc a + b ≡ suc (a + b)
    one_more a b = omega arith

memcpy_at-append :
    (t text rest : List ℕ)
    → memcpy_at (length t) (text ++ (0 ∷ [])) (t ++ (0 ∷ rest))
      ≡ (t ++ text) ++ (0 ∷ drop (length text) rest)
unfolding memcpy_at
memcpy_at-append t text rest =
    let cells = t ++ (0 ∷ rest) in
    let len = length (text ++ (0 ∷ [])) in
    ap (λ u. u ++ ((text ++ (0 ∷ [])) ++ drop (length t + len) cells)) (take-length t (0 ∷ rest))
    ∙ ap (λ u. t ++ ((text ++ (0 ∷ [])) ++ u))
        (drop-append t (0 ∷ rest) len ∙ ap (λ k. drop k (0 ∷ rest)) (one_more text))
    ∙ ap (λ u. t ++ u) (append_assoc text (0 ∷ []) (drop (length text) rest))
    ∙ sym (append_assoc t text (0 ∷ drop (length text) rest))
  where
    one_more : (text : List ℕ) → length (text ++ (0 ∷ [])) ≡ suc (length text)
    one_more text = omega (arith, length-append text (0 ∷ []))

accumulate-holding :
    (line t rest : Text)
    → length line + 1 < length rest
    → accumulate line (holding t rest)
      ≡ holding
          (with_line t line)
          (drop (length (if ltb 0 (length t) then b'\n' ∷ line else line)) rest)
unfolding accumulate_in
accumulate-holding line t rest room =
    let text = if ltb 0 (length t) then b'\n' ∷ line else line in
    if_true (ltb (length t + length line + 2) (length (t ++ (0 ∷ rest)))) _ _
      (ground (arith, length-append t (0 ∷ rest)))
    ∙ ap (λ (v : ℕ × List ℕ). record { matched = false; resp_pos = v.0; resp = some v.1 })
        (λ i. (count i, memcpy_at-append t text rest i))
  where
    count :
        length t + length (if ltb 0 (length t) then b'\n' ∷ line else line)
        ≡ length (with_line t line)
    count = sym (length-append t (if ltb 0 (length t) then b'\n' ∷ line else line))

module _ {W : Type 0} (p : Platform W) where
  -- The loop body of receive_transaction for ec200_at_send on one line after the other; `none`: a line
  -- ends the transaction.
  unfoldable pub read_lines : List Text → Receipt → Sys W → Option (Receipt × Sys W)
  read_lines [] r s = some (r, s)
  read_lines (line ∷ lines) r s =
      let (step, s') = run_body (on_line p none false) line r s in
      elim step [ finish st r' ↦ none | more r' ↦ read_lines lines r' s' ]

  -- What ec200_at_send has put into a local array of `size` cells behind the lines.
  unfoldable pub collected : ℕ → List Text → Sys W → Option Text
  unfolding read_lines
  collected size lines s =
      elim (read_lines lines
        (record { matched = false; resp_pos = 0; resp = clear_buffer (local_array size) }) s) [
          | none ↦ none
          | some (r, _) ↦ some (text_of r.resp)
        ]

  -- A line that is no final result and is not taken by a registered handler.
  abbrev pub IsData : Sys W → Text → Type 0
  IsData s line =
      (is_terminal s.handle line ≡ (neither, s.handle))
      × (dispatch_registered_urc p line s ≡ (false, s))

  abbrev pub AllData : Sys W → List Text → Type 0
  AllData s [] = Unit
  AllData s (line ∷ lines) = IsData s line × AllData s lines

  on_line-IsData :
      (line : Text) (r : Receipt) (s : Sys W)
      → IsData s line
      → on_line p none false line r s ≡ (more (accumulate line r), s)
  unfolding on_line on_other_line on_terminal
  on_line-IsData line r s (plain, free) =
      ap (λ (v : Terminal × Handle). on_terminal p none line r v.0 (record s { handle = v.1 }))
        plain
      ∙ ap (λ (v : Bool × Sys W). (more (if v.0 || false then r else accumulate line r), v.1)) free

  -- A data line that is not blank goes behind the text.
  read_lines-data :
      (line : Text) (more_lines : List Text) (t rest : Text) (s : Sys W)
      → IsData s line
      → 0 < length line
      → length line + 1 < length rest
      → read_lines (line ∷ more_lines) (holding t rest) s
        ≡ read_lines more_lines
            (holding
              (with_line t line)
              (drop (length (if ltb 0 (length t) then b'\n' ∷ line else line)) rest))
            s
  unfolding read_lines run_body
  read_lines-data [] more_lines t rest s d some_text room = absurd (omega arith)
  read_lines-data (c ∷ line) more_lines t rest s d some_text room =
      ap
        (λ (v : LineStep Receipt × Sys W). elim v.0 as (λ _. Option (Receipt × Sys W)) [
          | finish st r ↦ none
          | more r ↦ read_lines more_lines r v.1
        ])
        (on_line-IsData (c ∷ line) (holding t rest) s d)
      ∙ ap (λ r. read_lines more_lines r s) (accumulate-holding (c ∷ line) t rest room)

  read_lines-next :
      (line : Text) (more_lines : List Text) (t rest : Text) (s : Sys W)
      → IsData s line
      → 0 < length line
      → 0 < length t
      → length line + 1 < length rest
      → read_lines (line ∷ more_lines) (holding t rest) s
        ≡ read_lines more_lines (holding (t ++ (b'\n' ∷ line)) (drop (length line + 1) rest)) s
  read_lines-next line more_lines t rest s d some_line some_text room =
      read_lines-data line more_lines t rest s d some_line room
      ∙ ap (λ u. read_lines more_lines (holding (t ++ u) (drop (length u) rest)) s)
          (if_true (ltb 0 (length t)) (b'\n' ∷ line) line (ground arith))
      ∙ ap (λ k. read_lines more_lines (holding (t ++ (b'\n' ∷ line)) (drop k rest)) s)
          (one_more line)
    where
      one_more : (line : Text) → length (b'\n' ∷ line) ≡ length line + 1
      one_more line = omega arith

  -- Behind a text, each message adds two lines.
  read_lines-behind :
      (es : List Entry) (t rest : Text) (s : Sys W)
      → AllEntries es
      → AllData s (lines es)
      → 0 < length t
      → length (behind es) + 1 ≤ length rest
      → (rest' : List ℕ) × (read_lines (lines es) (holding t rest) s
          ≡ some (holding (t ++ behind es) rest', s))
  unfolding read_lines
  read_lines-behind [] t rest s v d some_text room =
      (rest, ap (λ u. some (holding u rest, s)) (sym (append_nil t)))
  read_lines-behind (e ∷ es) t rest s (v, vs) (dh, (db, ds)) some_text room =
      let t1 = t ++ (b'\n' ∷ header e) in
      let rest1 = drop (length (header e) + 1) rest in
      let both = length-behind e es in
      let (rest', done) =
        read_lines-behind es (t1 ++ (b'\n' ∷ e.body)) (drop (length e.body + 1) rest1) s vs ds
          (omega (arith, length-append t1 (b'\n' ∷ e.body)))
          (omega (
            arith,
            both,
            room,
            length-drop (length e.body + 1) rest1,
            length-drop (length (header e) + 1) rest,
          )) in
      (
        rest',
        read_lines-next (header e) (e.body ∷ lines es) t rest s dh (omega arith) some_text
              (omega (arith, both, room))
            ∙ read_lines-next e.body (lines es) t1 rest1 s db v.body_some
                (omega (arith, length-append t (b'\n' ∷ header e)))
                (omega (arith, both, room, length-drop (length (header e) + 1) rest))
            ∙ done
            ∙ ap (λ u. some (holding u rest', s)) (join_behind t e es),
      )

-- For messages that list_messages-print reads back, if no line of their listing is a final result or taken
-- by a registered handler, and the listing with two more bytes fits the array, receive_transaction's loop
-- body, run on these lines for ec200_at_send, leaves the printed listing in the array.
pub collected-print :
    {W : Type 0} (p : Platform W) (size : ℕ) (es : List Entry) (s : Sys W)
    → AllEntries es
    → AllData p s (lines es)
    → length (print es) + 2 ≤ size
    → collected p size (lines es) s ≡ some (print es)
unfolding collected read_lines c_str
collected-print p zero es s v d fits = absurd (omega arith)
collected-print p (suc n) [] s v d fits = refl
collected-print {W} p (suc n) (e ∷ es) s (v, vs) (dh, (db, ds)) fits =
    let rest : Text = replicate n 0 in
    let rest1 = drop (length (header e)) rest in
    let rest2 = drop (length e.body + 1) rest1 in
    let t1 = header e ++ (b'\n' ∷ e.body) in
    let room = print_room e es n fits in
    let (rest', done) =
      read_lines-behind p es t1 rest2 s vs ds
        (omega (arith, length-append (header e) (b'\n' ∷ e.body)))
        (omega (
          arith,
          room,
          length-drop (length e.body + 1) rest1,
          length-drop (length (header e)) rest,
          length-replicate {A = ℕ} n 0,
        )) in
    ap
      (λ (o : Option (Receipt × Sys W)). elim o as (λ _. Option Text) [
        | none ↦ none
        | some (r, _) ↦ some (text_of r.resp)
      ])
      (read_lines-data p (header e) (e.body ∷ lines es) [] rest s dh (omega arith)
          (omega (arith, room, length-replicate {A = ℕ} n 0))
        ∙ read_lines-next p e.body (lines es) (header e) rest1 s db v.body_some (omega arith) (
            omega (arith, room, length-drop (length (header e)) rest, length-replicate {A = ℕ} n 0))
        ∙ done
        ∙ ap (λ u. some (holding u rest', s))
            (append_assoc (header e) (b'\n' ∷ e.body) (behind es) ∙ sym (print_behind e es)))
    ∙ ap some (c_str-append_nul (print (e ∷ es)) rest' (print-NoNul (e ∷ es) (v, vs)))
