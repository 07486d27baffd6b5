-- ===== src/At/Delivery.antt =====
-- ec200_at_write_raw against the write callback's contract: what reaches the UART, and that it returns.
use ec200_at_abstraction.Prelude.{
  ℕ, zero, suc, ◌+◌, ◌-◌, ◌%◌, ◌^◌, ◌≤◌, ◌<◌, ◌≡◌, refl, sym, ap, ◌∙◌, true, List, ◌++◌, some,
  arith, ltb, leb, ◌==◌, if◌then◌else◌, if-elim, length, take, drop, take-add, take_all,
  length-drop, append_assoc, append-nil, ℤ, pos, negsuc,
}
use ec200_at_abstraction.Handle.{Platform, Sys, Status, ok, err_timeout, err_io, write_timeout_ms}
use ec200_at_abstraction.Exec.{Exec}
use ec200_at_abstraction.At.Tx.{call_write, write_wait, write_answer, write_loop, write_raw}
use ec200_at_abstraction.At.Valid.{Total}

-- The write callback's contract (ec200_write_fn): it takes a prefix of the bytes that it is given, and
-- says how long that was; the delay callback writes nothing.
pub record Sink {W : Type 0} (p : Platform W) : Type 0 where
  pub accepted : W → List ℕ
  pub takes :
      (f : ℕ) (bytes : List ℕ) (ctx : ℕ) (w : W) (n : ℕ)
      → (p.write f bytes ctx w).result ≡ pos n
      → (n ≤ length bytes) × (accepted (p.write f bytes ctx w).after ≡ accepted w ++ take n bytes)
  pub idles : (f ms ctx : ℕ) (w : W) → accepted (p.delay f ms ctx w) ≡ accepted w

module _ {W : Type 0} (p : Platform W) (sk : Sink p) where
  open sk use {accepted}

  -- What a call that started with `before` accepted has written when it returns.
  abbrev pub Delivered : List ℕ → List ℕ → Status → Sys W → Type 0
  Delivered before bytes ok s' = accepted s'.world ≡ before ++ bytes
  Delivered before bytes err_timeout s' =
      (n : ℕ) × (n < length bytes) × (accepted s'.world ≡ before ++ take n bytes)
  Delivered before bytes err_io s' = Unit
  Delivered before bytes _ s' = ⊥

  module _ (bytes : List ℕ) (fits : length bytes < 2 ^ 16) (before : List ℕ) where
    abbrev Sent : ℕ → Sys W → Type 0
    Sent sent s = (sent ≤ length bytes) × (accepted s.world ≡ before ++ take sent bytes)

    abbrev Next : ℕ → (ℕ → ℕ → Exec W Status) → Type 0
    Next left next =
        (n b : ℕ) (s : Sys W)
        → length bytes - n + b < left
        → Sent n s
        → Total (Delivered before bytes) (next n b s)

    write_wait-Delivered :
        (next : ℕ → ℕ → Exec W Status) (sent budget : ℕ) (s : Sys W)
        → sent < length bytes
        → Next (length bytes - sent + budget) next
        → Sent sent s
        → Total (Delivered before bytes) (write_wait p next sent budget s)
    unfolding write_wait
    write_wait-Delivered next sent budget s lt rec h =
        let w = p.delay s.handle.delay_ms 5 s.handle.user_ctx s.world in
        let s' : Sys W = record s { world = w } in
        let rest = if leb 5 budget then budget - 5 else 0 in
        let idle = sk.idles s.handle.delay_ms 5 s.handle.user_ctx s.world in
        if-elim (Total (Delivered before bytes)) (budget == 0) _ _ (λ _. (sent, lt, h.1))
          λ more. rec sent rest s' (ground arith) (h.0, idle ∙ h.1)

    write_answer-Delivered :
        (next : ℕ → ℕ → Exec W Status) (sent budget : ℕ) (r : ℤ) (s : Sys W)
        → sent < length bytes
        → Next (length bytes - sent + budget) next
        → Sent sent s
        → (call_write p (drop sent bytes) s).result ≡ r
        → Total (Delivered before bytes) (
            write_answer p next
              (length bytes - sent)
              sent
              budget
              r
              (record s { world = (call_write p (drop sent bytes) s).after }))
    unfolding write_answer
    write_answer-Delivered next sent budget (negsuc k) s lt rec h e = tt
    write_answer-Delivered next sent budget (pos n) s lt rec h e =
        let s' : Sys W = record s { world = (call_write p (drop sent bytes) s).after } in
        let (within, took) =
          sk.takes s.handle.write (drop sent bytes) s.handle.user_ctx s.world n e in
        let small : n + sent ≤ length bytes = omega (arith, length-drop sent bytes) in
        let same : n % 2 ^ 16 ≡ n = omega arith in
        let moved : (sent + n % 2 ^ 16) % 2 ^ 16 ≡ sent + n = omega arith in
        let all : accepted s'.world ≡ before ++ take (sent + n) bytes =
          took
          ∙ ap (λ t. t ++ take n (drop sent bytes)) h.1
          ∙ append_assoc before _ _
          ∙ ap (λ t. before ++ t) (sym (take-add sent n bytes)) in
        let zero_sent : n ≡ 0 → Sent sent s' = λ z. (
          h.0,
          took ∙ ap (λ k. accepted s.world ++ take k (drop sent bytes)) z ∙ append-nil _ ∙ h.1,
        ) in
        if-elim (Total (Delivered before bytes)) (n == 0) _ _
          (λ none_taken. write_wait-Delivered next sent budget s' lt rec (zero_sent (ground arith)))
          λ some_taken.
            if-elim (Total (Delivered before bytes)) (ltb (length bytes - sent) (n % 2 ^ 16)) _ _
              (λ _. tt)
              λ _.
                rec ((sent + n % 2 ^ 16) % 2 ^ 16) budget s' (ground arith)
                  (omega arith, rw moved all)

    write_loop-Delivered :
        (fuel sent budget : ℕ) (s : Sys W)
        → length bytes - sent + budget < fuel
        → Sent sent s
        → Total (Delivered before bytes) (write_loop p fuel bytes sent budget s)
    unfolding write_loop
    write_loop-Delivered zero sent budget s m h = absurd (omega arith)
    write_loop-Delivered (suc fuel) sent budget s m h =
        if-elim (Total (Delivered before bytes)) (ltb sent (length bytes)) _ _
          (λ more.
            write_answer-Delivered (λ n b. write_loop p fuel bytes n b) sent budget _ s
              (ground arith) (λ n b s' left k. write_loop-Delivered fuel n b s' (omega arith) k) h
              refl)
          λ done. h.1 ∙ ap (λ t. before ++ t) (take_all sent bytes (ground arith))

  -- With fuel for every byte and every millisecond of EC200_AT_WRITE_TIMEOUT_MS, ec200_at_write_raw
  -- returns: with EC200_OK after the UART took all the bytes in order and nothing else, or with
  -- EC200_ERR_TIMEOUT after it took a proper prefix of them, or with EC200_ERR_IO.
  pub write_raw-Delivered :
      (fuel : ℕ) (bytes : List ℕ) (s : Sys W)
      → s.handle.initialised ≡ true
      → length bytes < 2 ^ 16
      → length bytes + write_timeout_ms < fuel
      → Total (Delivered (accepted s.world) bytes) (write_raw p fuel (some bytes) s)
  unfolding write_raw
  write_raw-Delivered fuel bytes s ready fits enough =
      if-elim (Total (Delivered (accepted s.world) bytes)) s.handle.initialised _ _
        (λ _.
          write_loop-Delivered bytes fits (accepted s.world) fuel 0 write_timeout_ms s (omega arith)
            (omega arith, sym (append-nil (accepted s.world))))
        λ no_init. cc
