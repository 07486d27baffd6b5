-- ===== src/Tcpip/Bounds.antt =====
-- ec200_tcp_recv stays inside the caller's array.
use ec200_at_abstraction.Prelude.{
  ℕ, ◌-◌, ◌%◌, ◌^◌, ◌≤◌, ◌<◌, ◌≡◌, refl, ℤ, pos, negsuc, ◌||◌, List, ◌++◌, Option, none, some, leb,
  ltb, ◌==◌, length, take, drop, replicate, length-replicate, length-append, length-take,
  length-drop, arith, if-elim, option-elim, Bool-cases, inl, inr, if_false,
}
use mathlib.Core.Path.{subst, sym}
use ec200_at_abstraction.Text.{Text, codes}
use ec200_at_abstraction.Handle.{Platform, Sys, Status, ok, timeout_default}
use ec200_at_abstraction.Exec.{Exec}
use ec200_at_abstraction.Query.{expect_line, local_array}
use ec200_at_abstraction.At.Field.{parse_int_field}
use ec200_at_abstraction.At.Command.{at_send_expect}
use ec200_at_abstraction.At.Wait.{wait_final}
use ec200_at_abstraction.At.Raw.{RawRead, read_exact}
use ec200_at_abstraction.At.Lines.{Stream}
use ec200_at_abstraction.At.Lines.Exact.{read_exact-ReadOff}
use ec200_at_abstraction.At.Valid.{IsValid, After, After-bind, After-weaken, After-trivial}
use ec200_at_abstraction.At.Valid.Calls.{at_send_expect-Safe}
use ec200_at_abstraction.Tcpip.Receive.{
  announced_as, announced, received, cells_from, finish_recv, recv_body, recv_header, recv_command,
  tcp_recv,
}

-- The array keeps its length, and the count is within it.
pub record IsInside (size : ℕ) (r : RawRead) : Type 0 where
  pub size_kept : length r.buf ≡ size
  pub counted : r.bytes_read ≤ size

abbrev pub Inside : {W : Type 0} → ℕ → RawRead → Sys W → Type 0
Inside size r s = IsInside size r

-- An announced length fits.
announced_as_fits :
    (max_len : ℕ) (field : Option ℤ) (n : ℕ) → announced_as max_len field ≡ some n → n ≤ max_len
unfolding announced_as
announced_as_fits max_len none n e = cc
announced_as_fits max_len (some (negsuc k)) n e = cc
announced_as_fits max_len (some (pos k)) n e = ground (arith, e)

announced_fits : (hdr : Text) (max_len n : ℕ) → announced hdr max_len ≡ some n → n ≤ max_len
unfolding announced
announced_fits hdr max_len n e = announced_as_fits max_len (parse_int_field hdr 0) n e

length-cells_from : (n : ℕ) (buf : List ℕ) → length (cells_from n buf) ≡ n
unfolding cells_from
length-cells_from n buf = omega (
  arith,
  length-append (take n buf) (replicate (n - length buf) 0),
  length-take n buf,
  length-replicate {A = ℕ} (n - length buf) 0,
)

module _ {W : Type 0} (p : Platform W) (sm : Stream p) (fuel : ℕ) where
  finish_recv-Inside :
      (size : ℕ) (st : Status) (buf : List ℕ) (n : ℕ) (s : Sys W)
      → IsInside size (received st buf n)
      → After (Inside size) (finish_recv p fuel st buf n s)
  unfolding finish_recv
  finish_recv-Inside size ok buf n s v =
      After-bind (λ _ _. Unit {0}) (Inside size) (wait_final p fuel timeout_default) _ s
        (After-trivial (wait_final p fuel timeout_default s))
        λ st s' _. record { size_kept = v.size_kept; counted = v.counted }
  finish_recv-Inside size _ buf n s v = record { size_kept = v.size_kept; counted = v.counted }

  read_exact-Inside :
      (buf : List ℕ) (t : ℕ) (s : Sys W)
      → IsValid s.handle
      → length buf < 2 ^ 16
      → After (Inside (length buf)) (read_exact p fuel (some buf) 0 t s)
  read_exact-Inside buf t s v short = elim (Bool-cases s.handle.initialised) [
    | inl ready ↦
        After-weaken _ (Inside (length buf)) (read_exact p fuel (some buf) 0 t s)
          (λ r s' k. record { size_kept = k.size_kept; counted = k.within })
          (read_exact-ReadOff p sm fuel buf 0 t s v ready short)
    | inr not_ready ↦
        unfold read_exact in
        subst (After (Inside (length buf))) (sym (if_false s.handle.initialised _ _ not_ready))
          (record { size_kept = refl; counted = omega arith })
  ]

  recv_body-Inside :
      (buf : List ℕ) (actual t : ℕ) (s : Sys W)
      → IsValid s.handle
      → actual ≤ length buf
      → length buf < 2 ^ 16
      → After (Inside (length buf)) (recv_body p fuel buf actual t s)
  unfolding recv_body
  recv_body-Inside buf actual t s v fits short =
      if-elim (λ (m : Exec W RawRead). After (Inside (length buf)) (m s)) (ltb 0 actual) _ _
        (λ _.
          let len = actual % 2 ^ 16 in
          let cells = cells_from len buf in
          After-bind (Inside (length cells)) (Inside (length buf))
            (read_exact p fuel (some cells) 0 t) _ s
            (read_exact-Inside cells t s v (omega (arith, length-cells_from len buf)))
            λ r s' k.
              finish_recv-Inside (length buf) r.status (r.buf ++ drop len buf) r.bytes_read s'
                (record {
                  size_kept = omega (
                    arith,
                    length-append r.buf (drop len buf),
                    length-drop len buf,
                    k.size_kept,
                    length-cells_from len buf,
                  );
                  counted = omega (arith, k.counted, length-cells_from len buf);
                }))
        λ _.
          finish_recv-Inside (length buf) ok buf 0 s
            (record { size_kept = refl; counted = omega arith })

  pub recv_header-Inside :
      (buf : List ℕ) (t : ℕ) (a : Status × Text) (s : Sys W)
      → IsValid s.handle
      → length buf < 2 ^ 16
      → After (Inside (length buf)) (recv_header p fuel buf t a s)
  unfolding recv_header
  recv_header-Inside buf t (ok, hdr) s v short =
      option-elim (λ (m : Exec W RawRead). After (Inside (length buf)) (m s))
        (announced hdr (length buf)) _ _ (λ _. record { size_kept = refl; counted = omega arith })
        λ actual e.
          recv_body-Inside buf actual t s v (announced_fits hdr (length buf) actual e) short
  recv_header-Inside buf t (_, hdr) s v short = record { size_kept = refl; counted = omega arith }

  pub expect_line-IsValid :
      (cmd prefix : Text) (size t : ℕ) (s : Sys W)
      → IsValid s.handle
      → After (λ _ s'. IsValid s'.handle) (expect_line p fuel cmd prefix size t s)
  expect_line-IsValid cmd prefix size t s v =
      After-bind _ (λ _ s'. IsValid s'.handle)
        (at_send_expect p fuel (some cmd) (some prefix) (local_array size) t) _ s
        (at_send_expect-Safe p fuel s (local_array size) v (some cmd) (some prefix) t)
        λ a s' k. k.valid

  -- On a byte stream and a valid handle, for an array of fewer than 65536 cells, whatever length the
  -- module announces, ec200_tcp_recv, if it returns, leaves the array at its length; `*bytes_read` is at
  -- most that length when it was before the call.
  pub tcp_recv-Inside :
      (conn_id : ℕ) (buf : List ℕ) (before t : ℕ) (s : Sys W)
      → IsValid s.handle
      → length buf < 2 ^ 16
      → before ≤ length buf
      → After (Inside (length buf)) (tcp_recv p fuel conn_id (some buf) before t s)
  unfolding tcp_recv
  tcp_recv-Inside conn_id buf before t s v short counted =
      if-elim (λ (m : Exec W RawRead). After (Inside (length buf)) (m s))
        (length buf == 0 || leb 12 conn_id) _ _
        (λ _. record { size_kept = refl; counted = counted })
        λ _.
          After-bind (λ _ s'. IsValid s'.handle) (Inside (length buf))
            (expect_line p fuel (recv_command conn_id (length buf)) (codes "+QIRD:") 64 t)
            (recv_header p fuel buf t) s
            (expect_line-IsValid (recv_command conn_id (length buf)) (codes "+QIRD:") 64 t s v)
            λ a s' k. recv_header-Inside buf t a s' k short
