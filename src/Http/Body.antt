-- ===== src/Http/Body.antt =====
-- src/ec200_http.c: read_body_until_ok, which reads a body up to its "\r\nOK\r\n" trailer.
use ec200_at_abstraction.Prelude.{
  ℕ, zero, suc, ◌+◌, ◌-◌, ◌%◌, ◌^◌, Bool, true, false, List, [], ◌∷◌, none, some, ltb, ◌==◌,
  if◌then◌else◌, length, set, take, get_or,
}
use ec200_at_abstraction.Text.{Text}
use ec200_at_abstraction.Handle.{Platform, Status, ok, err_io, err_timeout, err_overflow}
use ec200_at_abstraction.Exec.{Exec, ◌>>=◌}
use ec200_at_abstraction.At.Rx.{slice_of}
use ec200_at_abstraction.At.Raw.{RawRead, read_raw}

-- HTTP_MAX_DISCARD
abbrev pub http_max_discard : ℕ
http_max_discard = 65536

abbrev pub trailer : Text
trailer = b'\r' ∷ b'\n' ∷ b'O' ∷ b'K' ∷ b'\r' ∷ b'\n' ∷ []

-- The caller's array and the local variables of read_body_until_ok, less the budget.
pub record BodyState : Type 0 where
  pub buf : List ℕ
  pub out_pos : ℕ
  pub matched : ℕ
  pub discarded : ℕ
  pub overflow : Bool

-- `if (out_pos < buf_sz) ... else ...`: a byte of the body is stored or counted as discarded.
unfoldable pub store_byte : ℕ → BodyState → BodyState
store_byte ch b =
    if ltb b.out_pos (length b.buf)
    then record b { buf = set b.buf b.out_pos ch; out_pos = b.out_pos + 1 }
    else record b { overflow = true; discarded = (b.discarded + 1) % 2 ^ 32 }

-- The same for each byte of a list.
unfoldable pub store_bytes : List ℕ → BodyState → BodyState
store_bytes [] b = b
store_bytes (ch ∷ bytes) b = store_bytes bytes (store_byte ch b)

-- What a byte leads to: the loop goes on, or it returns.
pub data BodyStep : Type 0 where
  go_on : BodyState → BodyStep
  finish : Status → BodyState → BodyStep

-- The round's part for a byte that is not the next one of the trailer, up to the test on `discarded`.
unfoldable pub mismatch : ℕ → BodyState → BodyState
unfolding store_byte store_bytes
mismatch ch b =
    let flushed = store_bytes (take b.matched trailer) b in
    if ch == get_or trailer 0 0
    then record flushed { matched = 1 }
    else store_byte ch (record flushed { matched = 0 })

-- A round of the loop behind a read of one byte.
unfoldable pub body_byte : ℕ → BodyState → BodyStep
unfolding mismatch
body_byte ch b =
    let next = b.matched + 1 in
    let b' = mismatch ch b in
    if ch == get_or trailer b.matched 0
    then (if next == length trailer
        then finish (if b.overflow then err_overflow else ok) (record b { matched = next })
        else go_on (record b { matched = next }))
    else if ltb http_max_discard b'.discarded
    then finish err_overflow b'
    else go_on b'

-- What the function leaves: its status, the caller's array and `*bytes_read`.
unfoldable pub body_result : Status → BodyState → RawRead
body_result st b = record { status = st; buf = b.buf; bytes_read = b.out_pos % 2 ^ 32 }

module _ {W : Type 0} (p : Platform W) (fuel : ℕ) (before : ℕ) where
  -- What the loop does with the result of ec200_at_read_raw; `next` is the next round.
  unfoldable pub body_received :
      (BodyState → ℕ → Exec W RawRead) → BodyState → ℕ → RawRead → Exec W RawRead
  unfolding body_byte body_result
  body_received next b budget r s =
      let late = next b (budget - slice_of budget) s in
      let more = λ (b' : BodyState). next b' budget s in
      elim r.status [
        | err_io ↦ some (record { status = err_io; buf = b.buf; bytes_read = before }, s)
        | err_timeout ↦ if budget == 0 then some (body_result err_timeout b, s) else late
        | _ ↦ elim (body_byte (get_or r.buf 0 0) b) [
          | go_on b' ↦ more b'
          | finish st b' ↦ some (body_result st b', s)
        ]
      ]

  -- The loop of read_body_until_ok, for at most as many rounds as the first argument says. `before` is
  -- what `*bytes_read` holds at the call.
  unfoldable pub body_loop : ℕ → BodyState → ℕ → Exec W RawRead
  unfolding body_received
  body_loop zero b budget s = none
  body_loop (suc rounds) b budget s =
      let next = λ (b' : BodyState) (left : ℕ). body_loop rounds b' left in
      (read_raw p fuel (some (0 ∷ [])) 0 (slice_of budget) >>= body_received next b budget) s

  -- read_body_until_ok
  unfoldable pub read_body_until_ok : List ℕ → ℕ → Exec W RawRead
  unfolding body_loop
  read_body_until_ok buf timeout_ms =
      body_loop fuel
        (record { buf = buf; out_pos = 0; matched = 0; discarded = 0; overflow = false }) timeout_ms
