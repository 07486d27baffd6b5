-- ===== src/At/Valid/Defs.antt =====
-- The invariant of ec200_handle_t, and what holds when an action has returned.
use ec200_at_abstraction.Prelude.{◌≤◌, ◌<◌, ◌≡◌, Option, none, some, length}
use ec200_at_abstraction.Exec.{Exec, bind_result, ◌>>=◌}
use ec200_at_abstraction.Handle.{
  Handle, Sys, rx_buffer_size, tx_buffer_size, max_err_text_len, max_urc_handlers,
}

pub record IsValid (h : Handle) : Type 0 where
  pub rx_size : length h.rx_buf ≡ rx_buffer_size
  pub rx_room : h.rx_len < rx_buffer_size
  pub tx_size : length h.tx_buf ≡ tx_buffer_size
  pub err_size : length h.last_err_text ≡ max_err_text_len
  pub table_size : length h.urc_table ≡ max_urc_handlers
  pub kind_known : h.last_err_kind ≤ 2

-- `Q` holds of the result and the state, if the action has returned.
abbrev pub After : {A W : Type 0} → (A → Sys W → Type 0) → Option (A × Sys W) → Type 0
After Q none = Unit
After Q (some (a, s)) = Q a s

module _ {A B W : Type 0} (P : A → Sys W → Type 0) (Q : B → Sys W → Type 0) where
  pub After-bind :
      (m : Exec W A) (f : A → Exec W B) (s : Sys W)
      → After P (m s)
      → ((a : A) (s' : Sys W) → P a s' → After Q (f a s'))
      → After Q ((m >>= f) s)
  After-bind m f s hm hf = go (m s) hm
    where
      go : (o : Option (A × Sys W)) → After P o → After Q (bind_result o f)
      go none h = tt
      go (some (a, s')) h = hf a s' h

-- What follows from the postcondition may replace it.
pub After-weaken :
    {A W : Type 0} (P Q : A → Sys W → Type 0) (o : Option (A × Sys W))
    → ((a : A) (s : Sys W) → P a s → Q a s)
    → After P o
    → After Q o
After-weaken P Q none k h = tt
After-weaken P Q (some (a, s)) k h = k a s h

-- The action returns, and `Q` holds of the result and the state.
abbrev pub Total : {A W : Type 0} → (A → Sys W → Type 0) → Option (A × Sys W) → Type 0
Total Q none = ⊥
Total Q (some (a, s)) = Q a s

module _ {A B W : Type 0} (P : A → Sys W → Type 0) (Q : B → Sys W → Type 0) where
  pub Total-bind :
      (m : Exec W A) (f : A → Exec W B) (s : Sys W)
      → Total P (m s)
      → ((a : A) (s' : Sys W) → P a s' → Total Q (f a s'))
      → Total Q ((m >>= f) s)
  Total-bind m f s hm hf = go (m s) hm
    where
      go : (o : Option (A × Sys W)) → Total P o → Total Q (bind_result o f)
      go none h = absurd h
      go (some (a, s')) h = hf a s' h

pub Total-weaken :
    {A W : Type 0} (P Q : A → Sys W → Type 0) (o : Option (A × Sys W))
    → ((a : A) (s : Sys W) → P a s → Q a s)
    → Total P o
    → Total Q o
Total-weaken P Q none k h = absurd h
Total-weaken P Q (some (a, s)) k h = k a s h

pub After-both :
    {A W : Type 0} (P Q : A → Sys W → Type 0) (o : Option (A × Sys W))
    → After P o
    → After Q o
    → After (λ a s. P a s × Q a s) o
After-both P Q none h k = tt
After-both P Q (some (a, s)) h k = (h, k)

pub After-trivial : {A W : Type 0} (o : Option (A × Sys W)) → After (λ _ _. Unit {0}) o
After-trivial none = tt
After-trivial (some (a, s)) = tt
