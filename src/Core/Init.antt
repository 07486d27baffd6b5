-- ===== src/Core/Init.antt =====
-- What ec200_init leaves.
use ec200_at_abstraction.Prelude.{
  ℕ, zero, suc, ◌≡◌, refl, sym, ◌∙◌, Bool, true, false, ◌||◌, some, none, if-elim, arith,
}
use mathlib.Core.Path.{subst}
use ec200_at_abstraction.Text.{Text}
use ec200_at_abstraction.Handle.{
  Handle, Ptr, is_null, is_ok, Platform, Sys, Status, ok, err_timeout,
}
use ec200_at_abstraction.Exec.{Exec}
use ec200_at_abstraction.At.Command.{at_send}
use ec200_at_abstraction.At.Valid.{IsValid, After, After-bind, After-weaken}
use ec200_at_abstraction.At.Valid.Calls.{at_send-Safe}
use ec200_at_abstraction.Query.{send_command}
use ec200_at_abstraction.Core.{
  init_handle, check_at, set_echo, wait_reset, probed, probe, give_up, echo_set, after_probe, init,
}

-- The handle is valid, in command mode, without URC handlers, and marked as given.
pub record Fresh (ready : Bool) (h : Handle) : Type 0 where
  pub valid : IsValid h
  pub marked : h.initialised ≡ ready
  pub command_mode : h.ppp_data_mode ≡ false
  pub no_handlers : h.urc_table ≡ (init_handle 0 0 0 0).urc_table

module _ {W : Type 0} (p : Platform W) (fuel : ℕ) where
  send-Fresh :
      (cmd : Text) (t : ℕ) (s : Sys W)
      → Fresh true s.handle
      → After (λ _ s'. Fresh true s'.handle) (send_command p fuel cmd t s)
  send-Fresh cmd t s f =
      After-bind (λ _ s'. Fresh true s'.handle) (λ _ s'. Fresh true s'.handle)
        (at_send p fuel (some cmd) none t) _ s
        (After-weaken _ (λ _ s'. Fresh true s'.handle) _
          (λ a s' k. record {
            valid = k.valid;
            marked = k.ready_kept ∙ f.marked;
            command_mode = k.mode_kept ∙ f.command_mode;
            no_handlers = k.table_kept ∙ f.no_handlers;
          })
          (at_send-Safe p fuel s none f.valid (some cmd) t))
        λ _ s' k. k

  probed-Fresh :
      (next : Status → Exec W Status)
      → ((st : Status) (s : Sys W)
          → Fresh true s.handle
          → After (λ _ s'. Fresh true s'.handle) (next st s))
      → (st : Status) (s : Sys W) → Fresh true s.handle
      → After (λ _ s'. Fresh true s'.handle) (probed p fuel next st s)
  unfolding probed wait_reset
  probed-Fresh next rest ok s f = f
  probed-Fresh next rest st s f = rest st (wait_reset p fuel s) f

  probe-Fresh :
      (left : ℕ) (st : Status) (s : Sys W)
      → Fresh true s.handle
      → After (λ _ s'. Fresh true s'.handle) (probe p fuel left st s)
  unfolding probe check_at
  probe-Fresh zero st s f = f
  probe-Fresh (suc left) st s f =
      After-bind (λ _ s'. Fresh true s'.handle) (λ _ s'. Fresh true s'.handle) (check_at p fuel) _ s
        (send-Fresh _ _ s f)
        (probed-Fresh (λ st'. probe p fuel left st') λ st' s' k. probe-Fresh left st' s' k)

  give_up-Fresh :
      (st : Status) (s : Sys W)
      → Fresh true s.handle
      → is_ok st ≡ false
      → After (λ st s'. Fresh (is_ok st) s'.handle) (give_up p fuel st s)
  unfolding give_up
  give_up-Fresh st s f e =
      subst (λ b. Fresh b (record (s.handle) { initialised = false })) (sym e)
        (record {
          valid = valid_marked;
          marked = refl;
          command_mode = f.command_mode;
          no_handlers = f.no_handlers;
        })
    where
      valid_marked : IsValid (record (s.handle) { initialised = false })
      valid_marked = omega (arith, f.valid)

  echo-Fresh :
      (st : Status) (s : Sys W)
      → Fresh true s.handle
      → After (λ st s'. Fresh (is_ok st) s'.handle) (echo_set p fuel st s)
  unfolding echo_set
  echo-Fresh ok s f = f
  echo-Fresh st s f = give_up-Fresh st s f refl

  after_probe-Fresh :
      (st : Status) (s : Sys W)
      → Fresh true s.handle
      → After (λ st s'. Fresh (is_ok st) s'.handle) (after_probe p fuel st s)
  unfolding after_probe set_echo
  after_probe-Fresh ok s f =
      After-bind (λ _ s'. Fresh true s'.handle) (λ st s'. Fresh (is_ok st) s'.handle)
        (set_echo p fuel false) _ s (send-Fresh _ _ s f) echo-Fresh
  after_probe-Fresh st s f = give_up-Fresh err_timeout s f refl

  -- With three callbacks, ec200_init, if it returns, leaves a valid handle in command mode without URC
  -- handlers, which is marked as initialised exactly when the status is EC200_OK.
  pub init-Fresh :
      (write_fn read_fn delay_fn user_ctx : Ptr) (s : Sys W)
      → is_null write_fn ≡ false
      → is_null read_fn ≡ false
      → is_null delay_fn ≡ false
      → After
          (λ st s'. Fresh (is_ok st) s'.handle)
          (init p fuel write_fn read_fn delay_fn user_ctx s)
  unfolding init init_handle
  init-Fresh write_fn read_fn delay_fn user_ctx s w r d =
      if-elim (After (λ st s'. Fresh (is_ok st) s'.handle))
        (is_null write_fn || (is_null read_fn || is_null delay_fn)) _ _
        (λ e. absurd (ground (arith, w, r, d, e)))
        λ _.
          After-bind (λ _ s'. Fresh true s'.handle) (λ st s'. Fresh (is_ok st) s'.handle)
            (probe p fuel 3 err_timeout) _
            (record s { handle = init_handle write_fn read_fn delay_fn user_ctx })
            (probe-Fresh 3 err_timeout _ (record {
              valid = omega arith;
              marked = refl;
              command_mode = refl;
              no_handlers = refl;
            }))
            after_probe-Fresh
