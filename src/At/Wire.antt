-- ===== src/At/Wire.antt =====
-- What the calls put on the wire: a command and its payload, and nothing else.
use ec200_at_abstraction.Prelude.{
  ℕ, ◌+◌, ◌^◌, ◌≤◌, ◌<◌, ◌≡◌, refl, sym, ap, ◌∙◌, List, [], ◌∷◌, ◌++◌, Option, none, some, arith,
  if_false, Bool-cases, inl, inr, if-elim, length, take, drop, take-length, take_all, length-append,
  append_assoc, append-nil, leb,
}
use mathlib.Core.Path.{subst}
use ec200_at_abstraction.Text.{Text, memcpy_at}
use ec200_at_abstraction.Handle.{Platform, Ptr, Sys, Status, ok}
use ec200_at_abstraction.Exec.{Exec, ◌>>=◌, if_ok, if_ok_else}
use ec200_at_abstraction.At.Tx.{write_raw, at_transmit, frame_command, reset_errors}
use ec200_at_abstraction.At.Prompt.{prompt_loop, at_send_prompt}
use ec200_at_abstraction.At.Receiving.{Keeps}
use ec200_at_abstraction.At.Receiving.Calls.{prompt_loop-Kept}
use ec200_at_abstraction.At.Delivery.{Sink, Delivered, write_raw-Delivered}
use ec200_at_abstraction.At.Valid.{After, After-bind, After-weaken, Total}

-- Reading and the application's handlers write nothing.
pub record Quiet {W : Type 0} (p : Platform W) (sk : Sink p) : Type 0 where
  pub reads :
      (f : Ptr) (len t : ℕ) (ctx : Ptr) (w : W)
      → sk.accepted (p.read f len t ctx w).after ≡ sk.accepted w
  pub handlers :
      (f : Ptr) (line : Text) (ctx : Ptr) (w : W) → sk.accepted (p.urc f line ctx w) ≡ sk.accepted w

After-of_Total :
    {A W : Type 0} (Q : A → Sys W → Type 0) (o : Option (A × Sys W)) → Total Q o → After Q o
After-of_Total Q none h = absurd h
After-of_Total Q (some (a, s)) h = h

module _ {W : Type 0} (p : Platform W) (sk : Sink p) (quiet : Quiet p sk) where
  open sk use {accepted}

  -- An action writes nothing.
  abbrev pub Silent : {A : Type 0} → Exec W A → Type 0
  Silent m = (s : Sys W) → After (λ _ s'. accepted s'.world ≡ accepted s.world) (m s)

  -- An action that returns EC200_OK has written `xs`.
  abbrev pub Writes : List ℕ → Exec W Status → Type 0
  Writes xs m =
      (s : Sys W) → After (λ st s'. st ≡ ok → accepted s'.world ≡ accepted s.world ++ xs) (m s)

  -- What keeps every world invariant of the receiving side is silent.
  pub Silent-of_Keeps :
      {A : Type 0} (m : Exec W A)
      → ((x : List ℕ)
          → Keeps p
              (λ w. accepted w ≡ x)
              (λ f len t ctx w e. quiet.reads f len t ctx w ∙ e)
              (λ f line ctx w e. quiet.handlers f line ctx w ∙ e)
              m)
      → Silent m
  Silent-of_Keeps m k s = k (accepted s.world) s refl

  pub Silent-bind :
      {A B : Type 0} (m : Exec W A) (f : A → Exec W B)
      → Silent m
      → ((a : A) → Silent (f a))
      → Silent (m >>= f)
  Silent-bind m f hm hf s =
      After-bind (λ _ s'. accepted s'.world ≡ accepted s.world)
        (λ _ s'. accepted s'.world ≡ accepted s.world) m f s (hm s)
        λ a s' e.
          After-weaken (λ _ s''. accepted s''.world ≡ accepted s'.world)
            (λ _ s''. accepted s''.world ≡ accepted s.world) (f a s') (λ _ s'' e'. e' ∙ e) (hf a s')

  -- `if (st != EC200_OK) return st;` between two writers.
  pub Writes-then :
      (xs ys : List ℕ) (m k : Exec W Status)
      → Writes xs m
      → Writes ys k
      → Writes (xs ++ ys) (m >>= λ st. if_ok st k)
  Writes-then xs ys m k hm hk s =
      After-bind (λ st s'. st ≡ ok → accepted s'.world ≡ accepted s.world ++ xs) _ m
        (λ st. if_ok st k) s (hm s) go_on
    where
      go_on :
          (st : Status) (s' : Sys W)
          → (st ≡ ok → accepted s'.world ≡ accepted s.world ++ xs)
          → After
              (λ st s''. st ≡ ok → accepted s''.world ≡ accepted s.world ++ (xs ++ ys))
              (if_ok st k s')
      go_on ok s' h =
          After-weaken (λ st s''. st ≡ ok → accepted s''.world ≡ accepted s'.world ++ ys) _ (k s')
            (λ st s'' h' e.
              h' e ∙ ap (λ t. t ++ ys) (h refl) ∙ append_assoc (accepted s.world) xs ys)
            (hk s')
      go_on _ s' h = λ e. cc

  pub Writes-of_Silent : (m : Exec W Status) → Silent m → Writes [] m
  Writes-of_Silent m h s =
      After-weaken (λ _ s'. accepted s'.world ≡ accepted s.world) _ (m s)
        (λ st s' e _. e ∙ sym (append-nil (accepted s.world))) (h s)

  -- A writer, and behind its success a silent rest.
  pub Writes-then_Silent :
      (xs : List ℕ) (m k : Exec W Status)
      → Writes xs m
      → Silent k
      → Writes xs (m >>= λ st. if_ok st k)
  Writes-then_Silent xs m k hm hk =
      subst (λ t. Writes t (m >>= λ st. if_ok st k)) (append-nil xs)
        (Writes-then xs [] m k hm (Writes-of_Silent k hk))

  -- The same of an action that also gives a value.
  abbrev pub WritesAlso : {B : Type 0} → List ℕ → Exec W (Status × B) → Type 0
  WritesAlso xs m =
      (s : Sys W) → After (λ r s'. r.0 ≡ ok → accepted s'.world ≡ accepted s.world ++ xs) (m s)

  -- `if (st != EC200_OK) return st;` between a writer and one that also gives a value.
  pub Writes-then_else :
      {B : Type 0} (xs ys : List ℕ) (m : Exec W Status) (b : B) (k : Exec W (Status × B))
      → Writes xs m
      → WritesAlso ys k
      → WritesAlso (xs ++ ys) (m >>= λ st. if_ok_else st b k)
  Writes-then_else {B} xs ys m b k hm hk s =
      After-bind (λ st s'. st ≡ ok → accepted s'.world ≡ accepted s.world ++ xs) _ m
        (λ st. if_ok_else st b k) s (hm s) go_on
    where
      go_on :
          (st : Status) (s' : Sys W)
          → (st ≡ ok → accepted s'.world ≡ accepted s.world ++ xs)
          → After
              (λ r s''. r.0 ≡ ok → accepted s''.world ≡ accepted s.world ++ (xs ++ ys))
              (if_ok_else st b k s')
      go_on ok s' h =
          After-weaken (λ r s''. r.0 ≡ ok → accepted s''.world ≡ accepted s'.world ++ ys) _ (k s')
            (λ r s'' h' e.
              h' e ∙ ap (λ t. t ++ ys) (h refl) ∙ append_assoc (accepted s.world) xs ys)
            (hk s')
      go_on _ s' h = λ e. cc

  -- A writer, and behind its success a silent rest that also gives a value.
  pub Writes-then_Silent_else :
      {B : Type 0} (xs : List ℕ) (m : Exec W Status) (b : B) (k : Exec W (Status × B))
      → Writes xs m
      → Silent k
      → (s : Sys W)
      → After
          (λ r s'. r.0 ≡ ok → accepted s'.world ≡ accepted s.world ++ xs)
          ((m >>= λ st. if_ok_else st b k) s)
  Writes-then_Silent_else {B} xs m b k hm hk s =
      After-bind (λ st s'. st ≡ ok → accepted s'.world ≡ accepted s.world ++ xs) _ m
        (λ st. if_ok_else st b k) s (hm s) go_on
    where
      go_on :
          (st : Status) (s' : Sys W)
          → (st ≡ ok → accepted s'.world ≡ accepted s.world ++ xs)
          → After
              (λ r s''. r.0 ≡ ok → accepted s''.world ≡ accepted s.world ++ xs)
              (if_ok_else st b k s')
      go_on ok s' h =
          After-weaken (λ _ s''. accepted s''.world ≡ accepted s'.world) _ (k s')
            (λ _ s'' e _. e ∙ h refl) (hk s')
      go_on _ s' h = λ e. cc

  accepted_all :
      (before bytes : List ℕ) (st : Status) (s' : Sys W)
      → Delivered p sk before bytes st s'
      → st ≡ ok
      → accepted s'.world ≡ before ++ bytes
  accepted_all before bytes ok s' h e = h
  accepted_all before bytes st s' h e = cc

  -- What is transmitted of a framed command that fits.
  framed :
      (line buf : List ℕ) (n : ℕ)
      → n ≡ length line
      → n < 512
      → take n (memcpy_at 0 (take 511 line ++ (0 ∷ [])) buf) ≡ line
  unfolding memcpy_at
  framed line buf n e fits =
      ap
        (λ k.
          take k ((take 511 line ++ (0 ∷ [])) ++ drop (0 + length (take 511 line ++ (0 ∷ []))) buf))
        e
      ∙ ap (λ t. take (length line) ((t ++ (0 ∷ [])) ++ drop (0 + length (t ++ (0 ∷ []))) buf))
          (take_all 511 line (omega arith))
      ∙ ap (take (length line)) (append_assoc line (0 ∷ []) _)
      ∙ take-length line _

  module _ (fuel : ℕ) (enough : 2 ^ 17 ≤ fuel) where
    pub write_raw-Writes :
        (bytes : List ℕ) → length bytes < 2 ^ 16 → Writes bytes (write_raw p fuel (some bytes))
    write_raw-Writes bytes fits s = elim (Bool-cases s.handle.initialised) [
      | inl ready ↦
          After-weaken (Delivered p sk (accepted s.world) bytes)
            (λ st s'. st ≡ ok → accepted s'.world ≡ accepted s.world ++ bytes)
            (write_raw p fuel (some bytes) s) (accepted_all (accepted s.world) bytes)
            (After-of_Total (Delivered p sk (accepted s.world) bytes)
              (write_raw p fuel (some bytes) s)
              (write_raw-Delivered p sk fuel bytes s ready fits (omega arith)))
      | inr not_ready ↦
          unfold write_raw in
          subst (After (λ st s'. st ≡ ok → accepted s'.world ≡ accepted s.world ++ bytes))
            (sym (if_false s.handle.initialised _ _ not_ready)) (λ e. cc)
    ]

    pub at_transmit-Writes : (cmd : Text) → Writes (cmd ++ (b'\r' ∷ [])) (at_transmit p fuel cmd)
    unfolding at_transmit
    at_transmit-Writes cmd s =
        let P : Status → Sys W → Type 0 =
          λ st s'. st ≡ ok → accepted s'.world ≡ accepted s.world ++ (cmd ++ (b'\r' ∷ [])) in
        let line = cmd ++ (b'\r' ∷ []) in
        let size : length cmd + 1 ≡ length line = omega (arith, length-append cmd (b'\r' ∷ [])) in
        if-elim (After P) s.handle.ppp_data_mode _ _ (λ _ e. cc)
          λ _.
            if-elim (After P) (leb 512 (length cmd + 1)) _ _ (λ _ e. cc)
              λ l.
                let fits : length cmd + 1 < 512 = ground arith in
                let sent = framed line s.handle.tx_buf (length cmd + 1) size fits in
                subst
                  (λ t. After P (
                    write_raw p fuel (some t)
                      (record s { handle = frame_command cmd (reset_errors s.handle) })))
                  (sym sent)
                  (write_raw-Writes line (omega arith)
                    (record s { handle = frame_command cmd (reset_errors s.handle) }))

    -- ec200_at_send_prompt writes the command and a CR.
    pub at_send_prompt-Writes :
        (cmd : Text) (t : ℕ) → Writes (cmd ++ (b'\r' ∷ [])) (at_send_prompt p fuel (some cmd) t)
    unfolding at_send_prompt
    at_send_prompt-Writes cmd t s =
        if-elim
          (After (λ st s'. st ≡ ok → accepted s'.world ≡ accepted s.world ++ (cmd ++ (b'\r' ∷ []))))
          s.handle.initialised _ _
          (λ _.
            Writes-then_Silent (cmd ++ (b'\r' ∷ [])) (at_transmit p fuel cmd) (prompt_loop p fuel t)
              (at_transmit-Writes cmd)
              (Silent-of_Keeps (prompt_loop p fuel t) λ x.
                prompt_loop-Kept p (λ w. accepted w ≡ x)
                  (λ f len t ctx w e. quiet.reads f len t ctx w ∙ e)
                  (λ f line ctx w e. quiet.handlers f line ctx w ∙ e) fuel t)
              s)
          λ _ e. cc
