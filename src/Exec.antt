-- ===== src/Exec.antt =====
-- Library functions as actions on the handle and the world. `none` means that the fuel of a receive
-- loop ran out: the C function has not returned after that many reads.
use ec200_at_abstraction.Prelude.{Option, none, some, ◌≡◌, ap}
use ec200_at_abstraction.Handle.{Handle, Sys, Status, ok}

abbrev pub Exec : Type 0 → Type 0 → Type 0
Exec W A = Sys W → Option (A × Sys W)

module _ {W : Type 0} where
  abbrev pub pure : {A : Type 0} → A → Exec W A
  pure a s = some (a, s)

  abbrev pub bind_result : {A B : Type 0} → Option (A × Sys W) → (A → Exec W B) → Option (B × Sys W)
  bind_result none f = none
  bind_result (some (a, s)) f = f a s

  infixl 5 ◌>>=◌ ◌>>◌
  abbrev pub ◌>>=◌ : {A B : Type 0} → Exec W A → (A → Exec W B) → Exec W B
  m >>= f = λ s. bind_result (m s) f

  abbrev pub ◌>>◌ : {A B : Type 0} → Exec W A → Exec W B → Exec W B
  m >> k = m >>= λ _. k

  abbrev pub get_handle : Exec W Handle
  get_handle s = some (s.handle, s)

  abbrev pub put_handle : Handle → Exec W (Unit {0})
  put_handle h s = some (tt, record s { handle = h })

  abbrev pub modify : (Handle → Handle) → Exec W (Unit {0})
  modify f s = some (tt, record s { handle = f s.handle })

  -- `if (st != EC200_OK) return st;` before the rest.
  abbrev pub if_ok : Status → Exec W Status → Exec W Status
  if_ok ok k = k
  if_ok st k = pure st

  -- The same where the call also gives a value, which an early return leaves as it is.
  abbrev pub if_ok_else : {B : Type 0} → Status → B → Exec W (Status × B) → Exec W (Status × B)
  if_ok_else ok b k = k
  if_ok_else st b k = pure (st, b)

module _ {A B W : Type 0} where
  pub bind_none : (m : Exec W A) (f : A → Exec W B) (s : Sys W) → m s ≡ none → (m >>= f) s ≡ none
  bind_none m f s e = ap (λ o. bind_result o f) e
