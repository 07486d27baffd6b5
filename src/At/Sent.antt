-- ===== src/At/Sent.antt =====
-- What ec200_at_write_raw can report: success, or an error on this side of the module.
use ec200_at_abstraction.Prelude.{
  ℕ, zero, suc, ◌+◌, ◌-◌, ◌%◌, ◌^◌, ℤ, pos, negsuc, ltb, leb, if◌then◌else◌, if-elim, Bool-cases,
  inl, inr, List, none, some, Option, length, drop, arith,
}
use ec200_at_abstraction.Handle.{Platform, Sys, Status, ok, err_io, err_timeout, err_not_ready}
use ec200_at_abstraction.Exec.{Exec}
use ec200_at_abstraction.At.Tx.{call_write, write_answer, write_loop, write_raw}
use ec200_at_abstraction.At.Valid.{After}

module _ {W : Type 0} (p : Platform W) (P : Status → Type 0) (sent_all : P ok) (failed : P err_io)
    (late : P err_timeout) (refused : P err_not_ready) where
  status-write_answer :
      (next : ℕ → ℕ → Exec W Status) (left sent budget : ℕ) (r : ℤ) (s : Sys W)
      → ((n b : ℕ) (s' : Sys W) → After (λ st _. P st) (next n b s'))
      → After (λ st _. P st) (write_answer p next left sent budget r s)
  unfolding write_answer
  status-write_answer next left sent budget (negsuc _) s rec = failed
  status-write_answer next left sent budget (pos n) s rec =
      let waited = p.delay s.handle.delay_ms 5 s.handle.user_ctx s.world in
      ground (
        arith,
        rec ((sent + n % 2 ^ 16) % 2 ^ 16) budget s,
        rec sent (if leb 5 budget then budget - 5 else 0) (record s { world = waited }),
      )

  status-write_loop :
      (fuel : ℕ) (bytes : List ℕ) (sent budget : ℕ) (s : Sys W)
      → After (λ st _. P st) (write_loop p fuel bytes sent budget s)
  unfolding write_loop
  status-write_loop zero bytes sent budget s = tt
  status-write_loop (suc fuel) bytes sent budget s =
      let r = call_write p (drop sent bytes) s in
      let round =
        status-write_answer (λ n b. write_loop p fuel bytes n b) (length bytes - sent) sent budget
          r.result (record s { world = r.after }) (status-write_loop fuel bytes) in
      elim (Bool-cases (ltb sent (length bytes))) [ inl e ↦ rw e round | inr e ↦ rw e sent_all ]

  pub status-write_raw :
      (fuel : ℕ) (bytes : Option (List ℕ)) (s : Sys W)
      → After (λ st _. P st) (write_raw p fuel bytes s)
  unfolding write_raw
  status-write_raw fuel none s = refused
  status-write_raw fuel (some bytes) s =
      if-elim (After (λ st _. P st)) s.handle.initialised _ _
        (λ _. status-write_loop fuel bytes 0 1000 s) (λ _. refused)
