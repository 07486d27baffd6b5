-- ===== src/Sms/Submit.antt =====
-- src/ec200_sms.c: sms_submit, ec200_sms_send and ec200_sms_write.
use ec200_at_abstraction.Prelude.{
  ℕ, ◌^◌, ◌≤◌, ◌<◌, ◌≡◌, refl, ℤ, negsuc, List, [], ◌∷◌, ◌++◌, Option, none, some, leb, ltb,
  if◌then◌else◌, length, arith, if-elim, option-elim,
}
use mathlib.Core.Path.{subst}
use ec200_at_abstraction.Text.{Text, codes, cut}
use ec200_at_abstraction.Text.Laws.{Free, CutOf, cut-CutOf}
use ec200_at_abstraction.Handle.{
  Platform, Sys, Status, ok, err_param, timeout_default, timeout_long,
}
use ec200_at_abstraction.Exec.{Exec, pure, ◌>>=◌, if_ok, if_ok_else}
use ec200_at_abstraction.Query.{local_array, text_of}
use ec200_at_abstraction.At.Field.{parse_int_field}
use ec200_at_abstraction.At.Tx.{write_raw}
use ec200_at_abstraction.At.Prompt.{at_send_prompt}
use ec200_at_abstraction.At.Wait.{wait_prefix, wait_final}
use ec200_at_abstraction.At.Silence.{wait_prefix-Silent, wait_final-Silent}
use ec200_at_abstraction.At.Delivery.{Sink}
use ec200_at_abstraction.At.Valid.{After, After-weaken}
use ec200_at_abstraction.At.Wire.{
  Quiet, Silent, Silent-bind, Writes, Writes-then, Writes-then_Silent_else, write_raw-Writes,
  at_send_prompt-Writes,
}
use ec200_at_abstraction.Sms.Header.{max_phone_num_len, max_sms_text_len}

-- SMS_CTRL_Z
abbrev pub sms_ctrl_z : ℕ
sms_ctrl_z = 26

-- AT+<op>="<number>"
abbrev pub submit_command : Text → Text → Text
submit_command op number = codes "AT+" ++ (op ++ (codes "=\"" ++ (number ++ codes "\"")))

-- The value that a reply reports, or -1.
abbrev pub reported : Text → ℤ
reported resp = elim (parse_int_field resp 0) [ none ↦ negsuc 0 | some v ↦ v ]

-- `if (value_out != NULL)`, with NULL as `none`.
abbrev pub report : Text → Option ℤ → Option ℤ
report resp none = none
report resp (some old) = some (reported resp)

module _ {W : Type 0} (p : Platform W) (fuel : ℕ) where
  -- The prompt, the text and Ctrl-Z.
  unfoldable pub submit_text : Text → Text → Text → Exec W Status
  submit_text op number text = do
    st ← at_send_prompt p fuel (some (submit_command op number)) timeout_default
    if_ok st
        (do st ← write_raw p fuel (some text); if_ok st (write_raw p fuel (some (sms_ctrl_z ∷ []))))

  -- The answer of the module.
  unfoldable pub submit_answer : Text → Option ℤ → Exec W (Status × Option ℤ)
  submit_answer op value = do
    (st, resp) ←
        wait_prefix p fuel (some (codes "+" ++ (op ++ codes ":"))) (local_array 64) timeout_long
    if_ok_else st value
        (do st ← wait_final p fuel timeout_default; pure (st, report (text_of resp) value))

  -- sms_submit; a NULL argument is `none`.
  unfoldable pub sms_submit :
      Text → Option Text → Option Text → Option ℤ → Exec W (Status × Option ℤ)
  unfolding submit_text submit_answer
  sms_submit op (some (c ∷ number)) (some text) value s =
      let run =
        (do st ← submit_text op (c ∷ number) text; if_ok_else st value (submit_answer op value))
          s in
      if leb max_phone_num_len (length (c ∷ number))
      then some ((err_param, value), s)
      else if ltb max_sms_text_len (length text)
      then some ((err_param, value), s)
      else elim (cut sms_ctrl_z text) [ some _ ↦ some ((err_param, value), s) | none ↦ run ]
  sms_submit op number text value s = some ((err_param, value), s)

  -- ec200_sms_send
  unfoldable pub sms_send : Option Text → Option Text → Exec W Status
  unfolding sms_submit
  sms_send number text = do (st, _) ← sms_submit (codes "CMGS") number text none; pure st

  -- ec200_sms_write
  unfoldable pub sms_write : Option Text → Option Text → Option ℤ → Exec W (Status × Option ℤ)
  unfolding sms_submit
  sms_write number text index = sms_submit (codes "CMGW") number text index

-- The module was given the command, the text and one Ctrl-Z, which the text does not contain.
abbrev pub Submitted : Text → Option Text → Option Text → List ℕ → List ℕ → Type 0
Submitted op (some number) (some text) before after =
    (0 < length number)
    × (length number < 20)
    × (length text ≤ 160)
    × Free 26 text
    × (after ≡ before ++ ((submit_command op number ++ (b'\r' ∷ [])) ++ (text ++ (26 ∷ []))))
Submitted op number text before after = ⊥

module _ {W : Type 0} (p : Platform W) (sk : Sink p) (quiet : Quiet p sk) (fuel : ℕ)
    (enough : 2 ^ 17 ≤ fuel) where
  open sk use {accepted}

  submit_text-Writes :
      (op number text : Text)
      → length text ≤ 160
      → Writes p sk quiet
          ((submit_command op number ++ (b'\r' ∷ [])) ++ (text ++ (26 ∷ [])))
          (submit_text p fuel op number text)
  unfolding submit_text
  submit_text-Writes op number text short =
      Writes-then p sk quiet _ _ _ _
        (at_send_prompt-Writes p sk quiet fuel enough (submit_command op number) timeout_default)
        (Writes-then p sk quiet text (26 ∷ []) _ _
          (write_raw-Writes p sk quiet fuel enough text (omega arith))
          (write_raw-Writes p sk quiet fuel enough (26 ∷ []) (omega arith)))

  submit_answer-Silent :
      (op : Text) (value : Option ℤ) → Silent p sk quiet (submit_answer p fuel op value)
  unfolding submit_answer
  submit_answer-Silent op value =
      Silent-bind p sk quiet _ _ (wait_prefix-Silent p sk quiet fuel _ _ timeout_long)
        λ (st, resp). answered st (text_of resp)
    where
      answered :
          (st : Status) (resp : Text)
          → Silent p sk quiet (
              if_ok_else st value
                (do st ← wait_final p fuel timeout_default; pure (st, report resp value)))
      answered ok resp =
          Silent-bind p sk quiet _ _ (wait_final-Silent p sk quiet fuel timeout_default)
            λ st s. refl
      answered _ resp = λ s. refl

  -- If sms_submit returns EC200_OK, the number has 1 to 19 bytes, the text has at most 160 bytes and no
  -- Ctrl-Z, and what the platform has accepted has grown by the command line, the text and one Ctrl-Z,
  -- in this order, and by nothing else; 2^17 units of fuel are given, and reading and the application's
  -- handlers write nothing.
  pub sms_submit-Submitted :
      (op : Text) (number text : Option Text) (value : Option ℤ) (s : Sys W)
      → After
          (λ r s'. r.0 ≡ ok → Submitted op number text (accepted s.world) (accepted s'.world))
          (sms_submit p fuel op number text value s)
  unfolding sms_submit
  sms_submit-Submitted op (some (c ∷ number)) (some text) value s =
      let P : Status × Option ℤ → Sys W → Type 0 = λ r s'.
        r.0 ≡ ok
        → Submitted op (some (c ∷ number)) (some text) (accepted s.world) (accepted s'.world) in
      if-elim (After P) (leb 20 (length (c ∷ number))) _ _ (λ _ e. cc)
        λ l.
          if-elim (After P) (ltb 160 (length text)) _ _ (λ _ e. cc)
            λ k.
              option-elim (After P) (cut 26 text) _ _
                (λ none_found.
                  After-weaken (λ r s'. r.0 ≡ ok → accepted s'.world ≡ accepted s.world ++ _) P _
                    (λ r s' h e. (
                      omega arith,
                      ground (arith, l),
                      ground (arith, k),
                      subst (CutOf 26 text) none_found (cut-CutOf 26 text),
                      h e,
                    ))
                    (Writes-then_Silent_else p sk quiet _ _ value _
                      (submit_text-Writes op (c ∷ number) text (ground (arith, k)))
                      (submit_answer-Silent op value) s))
                λ _ _ e. cc
  sms_submit-Submitted op _ _ value s = λ e. cc
