-- ===== src/File/Wire.antt =====
-- What ec200_file_upload puts on the wire.
use ec200_at_abstraction.Prelude.{
  ℕ, ◌^◌, ◌≤◌, ◌<◌, ◌≡◌, refl, ◌||◌, List, [], ◌∷◌, ◌++◌, Option, none, some, length, ltb, ◌==◌,
  arith, if-elim,
}
use ec200_at_abstraction.Text.{Text, codes}
use ec200_at_abstraction.Handle.{Platform, Sys, Status, ok, timeout_default, timeout_long}
use ec200_at_abstraction.Exec.{Exec, pure, ◌>>=◌, if_ok_else}
use ec200_at_abstraction.Query.{await_prefix, local_array}
use ec200_at_abstraction.At.Wait.{wait_prefix, wait_final}
use ec200_at_abstraction.At.Delivery.{Sink}
use ec200_at_abstraction.At.Valid.{After, After-weaken}
use ec200_at_abstraction.At.Silence.{wait_prefix-Silent, wait_final-Silent, expect-Writes}
use ec200_at_abstraction.At.Wire.{
  Quiet, Silent, Silent-bind, WritesAlso, Writes-then_else, Writes-then_Silent_else,
  write_raw-Writes,
}
use ec200_at_abstraction.File.{
  bad_name, upload_command, checksum_of, upload_answer, upload, file_upload,
}

-- The module was given the command and the content, within the limits of ec200_file_upload.
abbrev pub FileSent : Option Text → Option (List ℕ) → List ℕ → List ℕ → Type 0
FileSent (some name) (some content) before after =
    (0 < length name)
    × (length name < 64)
    × (0 < length content)
    × (length content < 2 ^ 16)
    × (after ≡ before ++ ((upload_command name (length content) ++ (b'\r' ∷ [])) ++ content))
FileSent name content before after = ⊥

module _ {W : Type 0} (p : Platform W) (sk : Sink p) (quiet : Quiet p sk) (fuel : ℕ)
    (enough : 2 ^ 17 ≤ fuel) where
  open sk use {accepted}

  upload_answer-Silent : (checksum : Option ℕ) → Silent p sk quiet (upload_answer p fuel checksum)
  unfolding upload_answer
  upload_answer-Silent checksum =
      Silent-bind p sk quiet (await_prefix p fuel (codes "+QFUPL:") 48 timeout_long) _
        (Silent-bind p sk quiet
          (wait_prefix p fuel (some (codes "+QFUPL:")) (local_array 48) timeout_long) _
          (wait_prefix-Silent p sk quiet fuel (some (codes "+QFUPL:")) (local_array 48)
            timeout_long)
          λ a s. refl)
        λ (st, resp). answered st (elim checksum [ none ↦ none | some _ ↦ some (checksum_of resp) ])
    where
      answered :
          (st : Status) (stored : Option ℕ)
          → Silent p sk quiet (
              if_ok_else st checksum (do st ← wait_final p fuel timeout_default; pure (st, stored)))
      answered ok stored =
          Silent-bind p sk quiet _ _ (wait_final-Silent p sk quiet fuel timeout_default)
            λ st s. refl
      answered _ stored = λ s. refl

  upload-WritesAlso :
      (name : Text) (content : List ℕ) (checksum : Option ℕ)
      → length content < 2 ^ 16
      → WritesAlso p sk quiet
          ((upload_command name (length content) ++ (b'\r' ∷ [])) ++ content)
          (upload p fuel name content checksum)
  unfolding upload
  upload-WritesAlso name content checksum short =
      Writes-then_else p sk quiet _ content _ checksum _
        (expect-Writes p sk quiet fuel (upload_command name (length content)) (codes "CONNECT") 48
          timeout_default enough)
        (Writes-then_Silent_else p sk quiet content _ checksum (upload_answer p fuel checksum)
          (write_raw-Writes p sk quiet fuel enough content short) (upload_answer-Silent checksum))

  -- If ec200_file_upload returns EC200_OK, the name has 1 to 63 bytes, the content 1 to 65535, and what
  -- the platform has accepted has grown by the command line with the content's length and by the content,
  -- in this order, and by nothing else; 2^17 units of fuel are given, and reading and the application's
  -- handlers write nothing.
  pub file_upload-FileSent :
      (name : Option Text) (content : Option (List ℕ)) (checksum : Option ℕ) (s : Sys W)
      → After
          (λ r s'. r.0 ≡ ok → FileSent name content (accepted s.world) (accepted s'.world))
          (file_upload p fuel name content checksum s)
  unfolding file_upload bad_name
  file_upload-FileSent name none checksum s = λ e. cc
  file_upload-FileSent none (some content) checksum s = λ e. cc
  file_upload-FileSent (some name) (some content) checksum s =
      let P : Status × Option ℕ → Sys W → Type 0 = λ r s'.
        r.0 ≡ ok → FileSent (some name) (some content) (accepted s.world) (accepted s'.world) in
      if-elim (λ (m : Exec W (Status × Option ℕ)). After P (m s))
        (bad_name (some name) || length content == 0 || ltb 65535 (length content)) _ _ (λ _ e. cc)
        λ g.
          let short : length content < 2 ^ 16 = ground (arith, g) in
          After-weaken (λ r s'. r.0 ≡ ok → accepted s'.world ≡ accepted s.world ++ _) P _
            (λ r s' h e. (ground (arith, g), ground (arith, g), ground (arith, g), short, h e))
            (upload-WritesAlso name content checksum short s)
