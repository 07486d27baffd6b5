-- ===== src/Tcpip/Receive.antt =====
-- src/ec200_tcpip.c: ec200_tcp_recv.
use ec200_at_abstraction.Prelude.{
  ℕ, ℤ, pos, ◌||◌, List, [], ◌++◌, Option, none, some, leb, ltb, ◌==◌, if◌then◌else◌, length, take,
  drop, replicate, ◌-◌, ◌%◌, ◌^◌,
}
use ec200_at_abstraction.Text.{Text, codes, decimal}
use ec200_at_abstraction.Handle.{Platform, Status, ok, err_param, err_parse, timeout_default}
use ec200_at_abstraction.Exec.{Exec, pure, ◌>>=◌}
use ec200_at_abstraction.Query.{expect_line}
use ec200_at_abstraction.At.Field.{parse_int_field}
use ec200_at_abstraction.At.Wait.{wait_final}
use ec200_at_abstraction.At.Raw.{RawRead, read_exact}
use ec200_at_abstraction.Tcpip.Socket.{max_connections}

-- The number of bytes that a +QIRD header announces, when it is one that the caller's array holds.
unfoldable pub announced_as : ℕ → Option ℤ → Option ℕ
announced_as max_len (some (pos actual)) = if ltb max_len actual then none else some actual
announced_as max_len _ = none

unfoldable pub announced : Text → ℕ → Option ℕ
unfolding announced_as
announced hdr max_len = announced_as max_len (parse_int_field hdr 0)

-- A status with the caller's array and `*bytes_read`.
abbrev pub received : Status → List ℕ → ℕ → RawRead
received st buf n = record { status = st; buf = buf; bytes_read = n }

-- AT+QIRD=<conn>,<length>
abbrev pub recv_command : ℕ → ℕ → Text
recv_command conn_id max_len =
    codes "AT+QIRD=" ++ (decimal conn_id ++ (codes "," ++ decimal max_len))

-- The `n` cells from the start of an array on, those past its end being the memory behind it: a callee
-- that is given the pointer and a length `n` beyond the array makes the array longer.
unfoldable pub cells_from : ℕ → List ℕ → List ℕ
cells_from n buf = take n buf ++ replicate (n - length buf) 0

module _ {W : Type 0} (p : Platform W) (fuel : ℕ) where
  -- The trailing "OK".
  unfoldable pub finish_recv : Status → List ℕ → ℕ → Exec W RawRead
  finish_recv ok buf n = do st ← wait_final p fuel timeout_default; pure (received st buf n)
  finish_recv st buf n = pure (received st buf n)

  -- The raw bytes, if there are any, and the trailing "OK": ec200_at_read_exact is given the pointer to
  -- the caller's array and `(uint16_t)actual`, whatever the array's size is.
  unfoldable pub recv_body : List ℕ → ℕ → ℕ → Exec W RawRead
  unfolding finish_recv cells_from
  recv_body buf actual timeout_ms =
      if ltb 0 actual
      then read_exact p fuel (some (cells_from (actual % 2 ^ 16) buf)) 0 timeout_ms
        >>= (λ r. finish_recv r.status (r.buf ++ drop (actual % 2 ^ 16) buf) r.bytes_read)
      else finish_recv ok buf 0

  -- The part of ec200_tcp_recv behind its header.
  unfoldable pub recv_header : List ℕ → ℕ → Status × Text → Exec W RawRead
  unfolding recv_body announced
  recv_header buf timeout_ms (ok, hdr) = elim (announced hdr (length buf)) [
    | none ↦ pure (received err_parse buf 0)
    | some actual ↦ recv_body buf actual timeout_ms
  ]
  recv_header buf timeout_ms (st, hdr) = pure (received st buf 0)

  -- ec200_tcp_recv into an array of `max_len` cells; a NULL array is `none`. `before` is what
  -- `*bytes_read` holds at the call.
  unfoldable pub tcp_recv : ℕ → Option (List ℕ) → ℕ → ℕ → Exec W RawRead
  unfolding recv_header
  tcp_recv conn_id none before timeout_ms = pure (received err_param [] before)
  tcp_recv conn_id (some buf) before timeout_ms =
      if length buf == 0 || leb max_connections conn_id
      then pure (received err_param buf before)
      else expect_line p fuel (recv_command conn_id (length buf)) (codes "+QIRD:") 64 timeout_ms
        >>= recv_header buf timeout_ms
