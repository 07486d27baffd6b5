-- ===== src/At/Guarded/Rules.antt =====
-- What every client keeps of the handle, one rule for each way to build a call.
use ec200_at_abstraction.Prelude.{
  ℕ, ◌≡◌, refl, ◌∙◌, sym, Bool, true, false, List, Option, none, some, if◌then◌else◌,
}
use mathlib.Core.Path.{subst}
use ec200_at_abstraction.Text.{Text}
use ec200_at_abstraction.Handle.{Handle, Platform, Sys, Status, ok}
use ec200_at_abstraction.Exec.{Exec, pure, ◌>>=◌, if_ok, if_ok_else}
use ec200_at_abstraction.Query.{send_command}
use ec200_at_abstraction.At.Command.{at_send, at_send_wait, at_send_expect, at_send_await_urc}
use ec200_at_abstraction.At.Tx.{write_raw}
use ec200_at_abstraction.At.Wait.{wait_prefix, wait_final}
use ec200_at_abstraction.At.Transaction.{Buffer}
use ec200_at_abstraction.At.Valid.{IsValid, After, After-bind, After-weaken}
use ec200_at_abstraction.At.Valid.Transact.{Safe, buffer_size}
use ec200_at_abstraction.At.Valid.Calls.{
  Safely, handle-write_raw, wait_prefix-Safe, wait_final-Safe, at_send-Safe, at_send_wait-Safe,
  at_send_expect-Safe, at_send_await_urc-Safe,
}

-- `h` is valid, with the URC table, the PPP flag and the initialisation flag of `before`.
abbrev pub Unharmed : Handle → Handle → Type 0
Unharmed before h = Safe before none none h

-- Whatever the platform does, the call leaves a valid handle valid, and its table and flags alone.
pub record Guarded {W A : Type 0} (m : Exec W A) : Type 0 where
  pub at :
      (before : Handle) (s : Sys W)
      → Unharmed before s.handle
      → After (λ _ s'. Unharmed before s'.handle) (m s)

module _ {W A : Type 0} where
  pub Guarded-pure : (a : A) → Guarded (pure {W = W} a)
  Guarded-pure a = record { at = λ before s v. v }

  pub Guarded-if :
      (b : Bool) (m k : Exec W A) → Guarded m → Guarded k → Guarded (if b then m else k)
  Guarded-if true m k g h = g
  Guarded-if false m k g h = h

  pub Guarded-option :
      {B : Type 0} (o : Option B) (m : Exec W A) (f : B → Exec W A)
      → Guarded m
      → ((b : B) → Guarded (f b))
      → Guarded (elim o [ none ↦ m | some b ↦ f b ])
  Guarded-option none m f g h = g
  Guarded-option (some b) m f g h = h b

  -- A test that ends the call.
  pub Guarded-test :
      (b : Bool) (a : A) (m : Exec W A) → Guarded m → Guarded (λ s. if b then some (a, s) else m s)
  Guarded-test true a m g = record { at = λ before s v. v }
  Guarded-test false a m g = g

  pub Guarded-if_ok_else :
      (st : Status) (a : A) (k : Exec W (Status × A)) → Guarded k → Guarded (if_ok_else st a k)
  Guarded-if_ok_else ok a k g = g
  Guarded-if_ok_else _ a k g = record { at = λ before s v. v }

  pub Guarded-bind :
      {B : Type 0} (m : Exec W A) (f : A → Exec W B)
      → Guarded m
      → ((a : A) → Guarded (f a))
      → Guarded (m >>= f)
  Guarded-bind m f g h = record {
    at = λ before s v.
        After-bind (λ _ s'. Unharmed before s'.handle) (λ _ s'. Unharmed before s'.handle) m f s
          (g.at before s v) λ a s' v'. (h a).at before s' v';
  }

module _ {W : Type 0} where
  pub Guarded-if_ok : (st : Status) (k : Exec W Status) → Guarded k → Guarded (if_ok st k)
  Guarded-if_ok ok k g = g
  Guarded-if_ok _ k g = record { at = λ before s v. v }

-- What Safe says of the buffer is forgotten.
unbuffered :
    (before h h' : Handle) (size : Option ℕ) (b : Buffer)
    → Unharmed before h
    → Safe h size b h'
    → Unharmed before h'
unbuffered before h h' size b v w = record {
  valid = w.valid;
  sized = refl;
  table_kept = w.table_kept ∙ v.table_kept;
  mode_kept = w.mode_kept ∙ v.mode_kept;
  ready_kept = w.ready_kept ∙ v.ready_kept;
}

Safe-itself : (h : Handle) (b : Buffer) → IsValid h → Safe h (buffer_size b) b h
Safe-itself h b v = record {
  valid = v;
  sized = refl;
  table_kept = refl;
  mode_kept = refl;
  ready_kept = refl;
}

module _ {W : Type 0} where
  Guarded-of_Safely :
      (m : Exec W (Status × Buffer)) (b : Buffer)
      → ((s : Sys W) → IsValid s.handle → Safely s b (m s))
      → Guarded m
  Guarded-of_Safely m b safely = record {
    at = λ before s v.
        After-weaken (λ a s'. Safe s.handle (buffer_size b) a.1 s'.handle) _ (m s)
          (λ a s' w. unbuffered before s.handle s'.handle (buffer_size b) a.1 v w)
          (safely s v.valid);
  }

module _ {W : Type 0} (p : Platform W) (fuel : ℕ) where
  pub Guarded-at_send : (cmd : Option Text) (b : Buffer) (t : ℕ) → Guarded (at_send p fuel cmd b t)
  Guarded-at_send cmd b t = Guarded-of_Safely _ b λ s v. at_send-Safe p fuel s b v cmd t

  pub Guarded-at_send_wait :
      (cmd prefix : Option Text) (b : Buffer) (t : ℕ) → Guarded (at_send_wait p fuel cmd prefix b t)
  Guarded-at_send_wait cmd prefix b t =
      Guarded-of_Safely _ b λ s v. at_send_wait-Safe p fuel s b v cmd prefix t

  pub Guarded-at_send_expect :
      (cmd prefix : Option Text) (b : Buffer) (t : ℕ)
      → Guarded (at_send_expect p fuel cmd prefix b t)
  Guarded-at_send_expect cmd prefix b t =
      Guarded-of_Safely _ b λ s v. at_send_expect-Safe p fuel s b v cmd prefix t

  pub Guarded-at_send_await_urc :
      (cmd prefix : Option Text) (b : Buffer) (t u : ℕ)
      → Guarded (at_send_await_urc p fuel cmd prefix b t u)
  Guarded-at_send_await_urc cmd prefix b t u =
      Guarded-of_Safely _ b λ s v. at_send_await_urc-Safe p fuel s b v cmd prefix t u

  pub Guarded-wait_prefix :
      (prefix : Option Text) (b : Buffer) (t : ℕ) → Guarded (wait_prefix p fuel prefix b t)
  Guarded-wait_prefix prefix b t = Guarded-of_Safely _ b λ s v.
      wait_prefix-Safe p s.handle (buffer_size b) fuel prefix b t s (Safe-itself s.handle b v)

  pub Guarded-wait_final : (t : ℕ) → Guarded (wait_final p fuel t)
  Guarded-wait_final t = record { at = λ before s v. wait_final-Safe p before none none fuel t s v }

  pub Guarded-write_raw : (bytes : Option (List ℕ)) → Guarded (write_raw p fuel bytes)
  Guarded-write_raw bytes = record {
    at = λ before s v.
        After-weaken (λ _ s'. s'.handle ≡ s.handle) _ (write_raw p fuel bytes s)
          (λ _ s' same. subst (Unharmed before) (sym same) v) (handle-write_raw p fuel bytes s);
  }

  pub Guarded-send_command : (cmd : Text) (t : ℕ) → Guarded (send_command p fuel cmd t)
  Guarded-send_command cmd t =
      Guarded-bind (at_send p fuel (some cmd) none t) _ (Guarded-at_send (some cmd) none t)
        λ (st, _). Guarded-pure st
