-- ===== src/At/Silence.antt =====
-- The waits of ec200_at.c that send nothing write nothing; what a prompt
-- command with a payload writes.
use ec200_at_abstraction.Prelude.{
  ℕ, ◌^◌, ◌≤◌, ◌<◌, ◌∙◌, ◌≡◌, refl, true, if-elim, Bool, false, Option, none, some, List, [], ◌∷◌,
  ◌++◌, length,
}
use ec200_at_abstraction.Text.{Text}
use ec200_at_abstraction.Handle.{Platform, Sys, Status, ok, timeout_default}
use ec200_at_abstraction.Exec.{Exec, pure, ◌>>=◌, if_ok}
use ec200_at_abstraction.Query.{expect, send_command, await_prefix, local_array}
use ec200_at_abstraction.At.Tx.{write_raw, at_transmit}
use ec200_at_abstraction.At.Command.{after_transmit, transmit_then, at_send, at_send_expect}
use ec200_at_abstraction.At.Valid.{After, After-bind, After-weaken}
use ec200_at_abstraction.At.Prompt.{at_send_prompt}
use ec200_at_abstraction.At.Transaction.{Buffer, receive_transaction}
use ec200_at_abstraction.At.Delivery.{Sink}
use ec200_at_abstraction.At.Wait.{wait_prefix, wait_final}
use ec200_at_abstraction.At.Receiving.Calls.{
  wait_prefix-Keeps, wait_final-Keeps, receive_transaction-Keeps,
}
use ec200_at_abstraction.At.Wire.{
  Quiet, Silent, Silent-bind, Silent-of_Keeps, Writes, Writes-then, Writes-then_Silent,
  write_raw-Writes, at_send_prompt-Writes, WritesAlso, at_transmit-Writes,
}

module _ {W : Type 0} (p : Platform W) (sk : Sink p) (quiet : Quiet p sk) (fuel : ℕ) where
  open sk use {accepted}

  pub wait_prefix-Silent :
      (prefix : Option Text) (resp : Buffer) (t : ℕ)
      → Silent p sk quiet (wait_prefix p fuel prefix resp t)
  wait_prefix-Silent prefix resp t = Silent-of_Keeps p sk quiet _ λ x.
      wait_prefix-Keeps p (λ w. accepted w ≡ x) (λ f len t ctx w e. quiet.reads f len t ctx w ∙ e)
        (λ f line ctx w e. quiet.handlers f line ctx w ∙ e) fuel prefix resp t

  -- A wait for a line, and a status read off it.
  pub answer-Silent :
      (prefix : Text) (size t : ℕ) (result : Text → Status)
      → Silent p sk quiet
          (do (st, resp) ← await_prefix p fuel prefix size t; if_ok st (pure (result resp)))
  answer-Silent prefix size t result =
      Silent-bind p sk quiet (await_prefix p fuel prefix size t) _
        (Silent-bind p sk quiet (wait_prefix p fuel (some prefix) (local_array size) t) _
          (wait_prefix-Silent (some prefix) (local_array size) t) λ a s. refl)
        λ (st, resp). answered (result resp) st
    where
      answered : (k st : Status) → Silent p sk quiet (if_ok st (pure k))
      answered k ok s = refl
      answered k _ s = refl

  pub wait_final-Silent : (t : ℕ) → Silent p sk quiet (wait_final p fuel t)
  wait_final-Silent t = Silent-of_Keeps p sk quiet _ λ x.
      wait_final-Keeps p (λ w. accepted w ≡ x) (λ f len t ctx w e. quiet.reads f len t ctx w ∙ e)
        (λ f line ctx w e. quiet.handlers f line ctx w ∙ e) fuel t

  -- A prompt command, its payload, and an answer that is waited for.
  pub prompted-Writes :
      (cmd : Text) (payload : List ℕ) (answer : Exec W Status)
      → 2 ^ 17 ≤ fuel
      → length payload < 2 ^ 16
      → Silent p sk quiet answer
      → Writes p sk quiet ((cmd ++ (b'\r' ∷ [])) ++ payload) (do
        st ← (do
          st ← at_send_prompt p fuel (some cmd) timeout_default
          if_ok st (write_raw p fuel (some payload)))
        if_ok st answer)
  prompted-Writes cmd payload answer enough short silent =
      Writes-then_Silent p sk quiet ((cmd ++ (b'\r' ∷ [])) ++ payload) _ answer
        (Writes-then p sk quiet (cmd ++ (b'\r' ∷ [])) payload
          (at_send_prompt p fuel (some cmd) timeout_default) (write_raw p fuel (some payload))
          (at_send_prompt-Writes p sk quiet fuel enough cmd timeout_default)
          (write_raw-Writes p sk quiet fuel enough payload short))
        silent

  receive_transaction-Silent :
      (prefix : Option Text) (stop : Bool) (resp : Buffer) (t : ℕ)
      → Silent p sk quiet (receive_transaction p fuel prefix stop resp t)
  receive_transaction-Silent prefix stop resp t = Silent-of_Keeps p sk quiet _ λ x.
      receive_transaction-Keeps p (λ w. accepted w ≡ x)
        (λ f len t ctx w e. quiet.reads f len t ctx w ∙ e)
        (λ f line ctx w e. quiet.handlers f line ctx w ∙ e) fuel prefix stop resp t

  -- A transaction writes the command and a CR.
  pub transmit_then-WritesAlso :
      (cmd : Text) (resp : Buffer) (next : Exec W (Status × Buffer))
      → 2 ^ 17 ≤ fuel
      → Silent p sk quiet next
      → WritesAlso p sk quiet (cmd ++ (b'\r' ∷ [])) (transmit_then p fuel cmd resp next)
  unfolding transmit_then after_transmit
  transmit_then-WritesAlso cmd resp next enough next_silent s =
      if-elim (After P) s.handle.initialised _ _
        (λ _.
          After-bind
            (λ st s'. st ≡ ok → accepted s'.world ≡ accepted s.world ++ (cmd ++ (b'\r' ∷ []))) P
            (at_transmit p fuel cmd) (after_transmit p resp next) s
            (at_transmit-Writes p sk quiet fuel enough cmd s) go_on)
        λ _ e. cc
    where
      P : Status × Buffer → Sys W → Type 0
      P r s' = r.0 ≡ ok → accepted s'.world ≡ accepted s.world ++ (cmd ++ (b'\r' ∷ []))

      go_on :
          (st : Status) (s' : Sys W)
          → (st ≡ ok → accepted s'.world ≡ accepted s.world ++ (cmd ++ (b'\r' ∷ [])))
          → After P (after_transmit p resp next st s')
      go_on ok s' h =
          After-weaken (λ _ s''. accepted s''.world ≡ accepted s'.world) P (next s')
            (λ _ s'' e _. e ∙ h refl) (next_silent s')
      go_on _ s' h = λ e. cc

  pub at_send_expect-WritesAlso :
      (cmd prefix : Text) (resp : Buffer) (t : ℕ)
      → 2 ^ 17 ≤ fuel
      → WritesAlso p sk quiet
          (cmd ++ (b'\r' ∷ []))
          (at_send_expect p fuel (some cmd) (some prefix) resp t)
  unfolding at_send_expect
  at_send_expect-WritesAlso cmd prefix resp t enough =
      transmit_then-WritesAlso cmd resp _ enough
        (receive_transaction-Silent (some prefix) true resp t)

  -- A plain command of which only the status counts.
  pub send_command-Writes :
      (cmd : Text) (t : ℕ)
      → 2 ^ 17 ≤ fuel
      → Writes p sk quiet (cmd ++ (b'\r' ∷ [])) (send_command p fuel cmd t)
  unfolding at_send
  send_command-Writes cmd t enough s =
      After-bind (λ r s'. r.0 ≡ ok → accepted s'.world ≡ accepted s.world ++ (cmd ++ (b'\r' ∷ [])))
        _ (at_send p fuel (some cmd) none t) (λ (st, _). pure st) s
        (transmit_then-WritesAlso cmd none _ enough (receive_transaction-Silent none false none t)
          s)
        λ r s' h. h

  -- A call of it of which only the status counts.
  pub expect-Writes :
      (cmd prefix : Text) (size t : ℕ)
      → 2 ^ 17 ≤ fuel
      → Writes p sk quiet (cmd ++ (b'\r' ∷ [])) (expect p fuel cmd prefix size t)
  expect-Writes cmd prefix size t enough s =
      After-bind (λ r s'. r.0 ≡ ok → accepted s'.world ≡ accepted s.world ++ (cmd ++ (b'\r' ∷ [])))
        _ (at_send_expect p fuel (some cmd) (some prefix) (local_array size) t) (λ (st, _). pure st)
        s (at_send_expect-WritesAlso cmd prefix (local_array size) t enough s) λ r s' h. h
