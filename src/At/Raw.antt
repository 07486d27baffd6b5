-- ===== src/At/Raw.antt =====
-- src/ec200_at.c: rx_take_buffered, ec200_at_read_raw and ec200_at_read_exact.
use ec200_at_abstraction.Prelude.{
  ℕ, zero, suc, ◌+◌, ◌-◌, ◌%◌, ◌^◌, pos, negsuc, List, [], Option, none, some, ltb, ◌==◌,
  if◌then◌else◌, length, take, drop,
}
use ec200_at_abstraction.Text.{memcpy_at}
use ec200_at_abstraction.Handle.{
  Handle, Platform, Sys, Status, ok, err_io, err_timeout, err_not_ready,
}
use ec200_at_abstraction.Exec.{Exec}
use ec200_at_abstraction.At.Rx.{call_read, slice_of}

-- What a raw read leaves: its status, the caller's array and `*bytes_read`.
pub record RawRead : Type 0 where
  pub status : Status
  pub buf : List ℕ
  pub bytes_read : ℕ

-- The number of bytes that rx_take_buffered hands out.
abbrev pub buffered : Handle → ℕ → ℕ
buffered h len = if ltb h.rx_len len then h.rx_len else len

-- rx_take_buffered on a caller's array of `len` cells: the array, the handle and the count.
unfoldable pub rx_take_buffered : Handle → List ℕ → List ℕ × Handle × ℕ
rx_take_buffered h buf =
    let n = buffered h (length buf) in
    if ltb 0 n
    then (
      memcpy_at 0 (take n h.rx_buf) buf,
      record h {
        rx_buf = memcpy_at 0 (drop n (take h.rx_len h.rx_buf)) h.rx_buf;
        rx_len = (h.rx_len - n) % 2 ^ 16;
      },
      n,
    )
    else (buf, h, n)

module _ {W : Type 0} (p : Platform W) where
  -- The loop of ec200_at_read_raw.
  unfoldable pub read_raw_loop : ℕ → List ℕ → ℕ → Exec W RawRead
  read_raw_loop zero buf budget s = none
  read_raw_loop (suc fuel) buf budget s =
      let r = call_read p (length buf) (slice_of budget) s in
      let s' : Sys W = record s { world = r.after } in
      let again = read_raw_loop fuel buf (budget - slice_of budget) s' in
      elim r.result [
        | negsuc _ ↦ some (record { status = err_io; buf = buf; bytes_read = 0 }, s')
        | pos n ↦
            if ltb 0 n
            then some
                (record { status = ok; buf = memcpy_at 0 r.bytes buf; bytes_read = n % 2 ^ 16 }, s')
            else if budget == 0
            then some (record { status = err_timeout; buf = buf; bytes_read = 0 }, s')
            else again
      ]

  -- ec200_at_read_raw into an array of `len` cells; a NULL array is `none`. `before` is what
  -- `*bytes_read` holds at the call.
  unfoldable pub read_raw : ℕ → Option (List ℕ) → ℕ → ℕ → Exec W RawRead
  read_raw fuel none before timeout_ms s =
      some (record { status = err_not_ready; buf = []; bytes_read = before }, s)
  read_raw fuel (some buf) before timeout_ms s =
      let (buf', h, got) = rx_take_buffered s.handle buf in
      let taken : Sys W = record s { handle = h } in
      let loop = read_raw_loop fuel buf' timeout_ms taken in
      let refused : RawRead = record { status = err_not_ready; buf = buf; bytes_read = before } in
      if s.handle.initialised
      then (if length buf == 0
          then some (refused, s)
          else if ltb 0 got
          then some (record { status = ok; buf = buf'; bytes_read = got }, taken)
          else loop)
      else some (refused, s)

  -- The loop of ec200_at_read_exact on `got` and `budget`.
  unfoldable pub read_exact_loop : ℕ → List ℕ → ℕ → ℕ → Exec W RawRead
  read_exact_loop zero buf got budget s = none
  read_exact_loop (suc fuel) buf got budget s =
      let len = length buf in
      let r = call_read p (len - got) (slice_of budget) s in
      let s' : Sys W = record s { world = r.after } in
      let next = λ (n : ℕ).
        read_exact_loop fuel (memcpy_at got r.bytes buf) ((got + n % 2 ^ 16) % 2 ^ 16) budget s' in
      let again = read_exact_loop fuel buf got (budget - slice_of budget) s' in
      if ltb got len
      then elim r.result [
        | negsuc _ ↦ some (record { status = err_io; buf = buf; bytes_read = got }, s')
        | pos n ↦
            if ltb 0 n
            then (if ltb (len - got) (n % 2 ^ 16)
                then some (
                  record { status = err_io; buf = memcpy_at got r.bytes buf; bytes_read = got },
                  s',
                )
                else next n)
            else if budget == 0
            then some (record { status = err_timeout; buf = buf; bytes_read = got }, s')
            else again
      ]
      else some (record { status = ok; buf = buf; bytes_read = got }, s)

  -- ec200_at_read_exact into an array of `len` cells; a NULL array is `none`.
  unfoldable pub read_exact : ℕ → Option (List ℕ) → ℕ → ℕ → Exec W RawRead
  read_exact fuel none before timeout_ms s =
      some (record { status = err_not_ready; buf = []; bytes_read = before }, s)
  read_exact fuel (some buf) before timeout_ms s =
      let (buf', h, got) = rx_take_buffered s.handle buf in
      let taken : Sys W = record s { handle = h } in
      let refused : RawRead = record { status = err_not_ready; buf = buf; bytes_read = before } in
      if s.handle.initialised
      then read_exact_loop fuel buf' got timeout_ms taken
      else some (refused, s)
