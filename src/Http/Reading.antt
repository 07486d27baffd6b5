-- ===== src/Http/Reading.antt =====
-- src/ec200_http.c: what read_body_until_ok stores of a byte stream, and that it returns.
use ec200_at_abstraction.Prelude.{
  ℕ, zero, suc, ◌+◌, ◌-◌, ◌%◌, ◌^◌, ◌≤◌, ◌<◌, ◌≡◌, refl, sym, ap, ◌∙◌, ◌⊎◌, inl, inr, true, false,
  List, [], ◌∷◌, ◌++◌, some, ◌==◌, length, take, get_or, arith, append_assoc, take_all, take_within,
  if-elim, length-append, length-take,
}
use mathlib.Core.Path.{subst}
use ec200_at_abstraction.Text.{Text}
use ec200_at_abstraction.Handle.{Platform, Sys, Status, ok, err_timeout, err_io, err_overflow}
use ec200_at_abstraction.Exec.{Exec}
use ec200_at_abstraction.At.Rx.{slice_of}
use ec200_at_abstraction.At.Raw.{RawRead, read_raw}
use ec200_at_abstraction.At.Valid.{IsValid, Total, Total-bind}
use ec200_at_abstraction.At.Lines.{Stream}
use ec200_at_abstraction.At.Lines.Byte.{pending, ByteTaken, read_raw-ByteTaken}
use ec200_at_abstraction.Http.Body.{
  trailer, http_max_discard, BodyState, BodyStep, go_on, finish, body_byte, body_result,
  body_received, body_loop, read_body_until_ok,
}
use ec200_at_abstraction.Http.Matching.{body_before, prepend-nil}
use ec200_at_abstraction.Http.Search.{Whole, Truncated, Sought, Stepped, body_byte-Stepped}

-- The wait ran out: the array has the first bytes taken, all but the beginning of a trailer at most.
pub record Partial (size : ℕ) (x rest : Text) (r : RawRead) : Type 0 where
  pub taken : Text
  pub behind : x ≡ taken ++ rest
  pub fits : r.bytes_read ≤ size
  pub stored : take r.bytes_read r.buf ≡ take r.bytes_read taken
  pub nearly : (r.bytes_read ≡ size) ⊎ (length taken < r.bytes_read + 6)

-- What the function leaves, of the stream `x` before it and `rest` behind it.
abbrev pub BodyRead : ℕ → ℕ → Text → Text → RawRead → Type 0
BodyRead size before x rest r = elim r.status [
  | ok ↦ Whole size x rest r
  | err_overflow ↦ Truncated size x rest r
  | err_timeout ↦ Partial size x rest r
  | err_io ↦ (r.bytes_read ≡ before) × ((taken : Text) × (x ≡ taken ++ rest))
  | _ ↦ ⊥
]

cut_alike :
    (m n : ℕ) (xs : Text) → ((length xs ≤ m) × (length xs ≤ n)) ⊎ (n ≡ m) → take m xs ≡ take n xs
cut_alike m n xs (inl (h, k)) = take_all m xs h ∙ sym (take_all n xs k)
cut_alike m n xs (inr e) = ap (λ k. take k xs) (sym e)

timed_out-Partial :
    (size : ℕ) (x kept rest : Text) (b : BodyState)
    → size < 2 ^ 32
    → Sought size x kept rest b
    → Partial size x rest (body_result err_timeout b)
unfolding body_result
timed_out-Partial size x kept rest b short v =
    let part = take b.matched trailer in
    let exact : b.out_pos % 2 ^ 32 ≡ b.out_pos = omega (arith, short, v.stored.limit) in
    let long = length-append kept part in
    let few = length-take b.matched trailer in
    record {
      taken = kept ++ part;
      behind = v.reached.here ∙ sym (append_assoc kept part rest);
      fits = omega (arith, exact, v.stored.limit);
      stored =
          ap (λ n. take n b.buf) exact
          ∙ v.stored.held
          ∙ cut_alike size b.out_pos kept
              (ground (arith, v.stored.full, v.stored.count, v.stored.limit))
          ∙ sym (take_within b.out_pos kept part (omega (arith, v.stored.count)))
          ∙ ap (λ n. take n (kept ++ part)) (sym exact);
      nearly = ground (arith, exact, long, few, v.part, v.stored.full, v.stored.count);
    }

module _ {W : Type 0} (p : Platform W) (sm : Stream p) (fuel size before : ℕ) (x : Text)
    (short : size < 2 ^ 32) (enough : 2 ≤ fuel) where
  abbrev Q : RawRead → Sys W → Type 0
  Q r s' = BodyRead size before x (pending p sm s') r

  -- A round of the loop may rely on this, with `rounds` left.
  record Going (rounds : ℕ) (kept : Text) (b : BodyState) (budget : ℕ) (s : Sys W) : Type 0 where
    sought : Sought size x kept (pending p sm s) b
    few : b.discarded ≤ http_max_discard
    valid : IsValid s.handle
    ready : s.handle.initialised ≡ true
    left : size + http_max_discard + 6 + budget < rounds + (length kept + b.matched)

  -- Behind a byte.
  Stepped-BodyRead :
      (rounds n budget : ℕ) (next : BodyState → ℕ → Exec W RawRead) (s : Sys W)
      → IsValid s.handle
      → s.handle.initialised ≡ true
      → size + http_max_discard + 6 + budget < rounds + n
      → ((kept : Text) (b : BodyState) (budget : ℕ) (s : Sys W)
          → Going rounds kept b budget s
          → Total Q (next b budget s))
      → (step : BodyStep) → Stepped size x n (pending p sm s) step
      → Total Q (elim step [ go_on b ↦ next b budget s | finish st b ↦ some (body_result st b, s) ])
  unfolding body_result
  Stepped-BodyRead rounds n budget next s valid ready left rec (go_on b) (few, (kept, v, e)) =
      rec kept b budget s (record {
        sought = v;
        few = few;
        valid = valid;
        ready = ready;
        left = omega (arith, left, e);
      })
  Stepped-BodyRead rounds n budget next s valid ready left rec (finish ok b) whole = whole
  Stepped-BodyRead rounds n budget next s valid ready left rec (finish err_overflow b) cut = cut
  Stepped-BodyRead rounds n budget next s valid ready left rec (finish st b) none_such =
      absurd none_such

  -- Behind a read.
  body_received-BodyRead :
      (rounds : ℕ) (next : BodyState → ℕ → Exec W RawRead) (kept : Text) (b : BodyState)
      (budget : ℕ) (st : Status) (buf : List ℕ) (n : ℕ) (s s' : Sys W)
      → Going (suc rounds) kept b budget s
      → ByteTaken p sm (pending p sm s) (record { status = st; buf = buf; bytes_read = n }) s'
      → ((kept : Text) (b : BodyState) (budget : ℕ) (s : Sys W)
          → Going rounds kept b budget s
          → Total Q (next b budget s))
      → Total Q (
          body_received p fuel before next b budget
            (record { status = st; buf = buf; bytes_read = n })
            s')
  unfolding body_received
  body_received-BodyRead rounds next kept b budget err_io buf n s s' g t rec = (
    refl,
    (
      kept ++ take b.matched trailer,
      g.sought.reached.here
          ∙ sym (append_assoc kept (take b.matched trailer) (pending p sm s))
          ∙ ap (λ t. (kept ++ take b.matched trailer) ++ t) t.read,
    ),
  )
  body_received-BodyRead rounds next kept b budget err_timeout buf n s s' g t rec =
      if-elim (Total Q) (budget == 0) _ _
        (λ _.
          timed_out-Partial size x kept (pending p sm s') b short
            (subst (λ rest. Sought size x kept rest b) t.read g.sought))
        λ left. rec kept b (budget - slice_of budget) s' (record {
          sought = subst (λ rest. Sought size x kept rest b) t.read g.sought;
          few = g.few;
          valid = t.valid;
          ready = t.ready;
          left = ground (arith, left, g.left);
        })
  body_received-BodyRead rounds next kept b budget ok buf n s s' g t rec =
      Stepped-BodyRead rounds (length kept + b.matched + 1) budget next s' t.valid t.ready
        (omega (arith, g.left)) rec (body_byte (get_or buf 0 0) b)
        (body_byte-Stepped size (get_or buf 0 0) x kept (pending p sm s') b short g.few
          (subst (λ rest. Sought size x kept rest b) t.read g.sought))
  body_received-BodyRead rounds next kept b budget st buf n s s' g t rec = absurd t.read

  body_loop-BodyRead :
      (rounds : ℕ) (kept : Text) (b : BodyState) (budget : ℕ) (s : Sys W)
      → Going rounds kept b budget s
      → Total Q (body_loop p fuel before rounds b budget s)
  unfolding body_loop
  body_loop-BodyRead zero kept b budget s g =
      absurd
        (omega (arith, g.left, g.few, g.sought.part, g.sought.stored.limit, g.sought.stored.count))
  body_loop-BodyRead (suc rounds) kept b budget s g =
      Total-bind (ByteTaken p sm (pending p sm s)) Q
        (read_raw p fuel (some (0 ∷ [])) 0 (slice_of budget)) _ s
        (read_raw-ByteTaken p sm fuel budget s g.valid g.ready enough)
        λ r s' t.
          body_received-BodyRead rounds (body_loop p fuel before rounds) kept b budget r.status
            r.buf r.bytes_read s s' g t (body_loop-BodyRead rounds)

module _ {W : Type 0} (p : Platform W) (sm : Stream p) where
  -- On a byte stream and a valid, initialised handle, with as much fuel as the array's size, the timeout
  -- and 65543 together, read_body_until_ok returns, and has taken the bytes that the library held and
  -- then those of the stream. With EC200_OK the array has all that stood before the first "\r\nOK\r\n",
  -- which fits it, and the stream stands just behind that. With EC200_ERR_OVERFLOW the array is full of
  -- the first bytes, and either the body in front of the first trailer is longer, and the stream stands
  -- behind the trailer, or more than 65536 bytes did not fit. With EC200_ERR_TIMEOUT it has the first
  -- bytes taken, and at most five that did fit it are missing. With EC200_ERR_IO `*bytes_read` is what it
  -- was. There is no other status.
  pub read_body_until_ok-BodyRead :
      (fuel before : ℕ) (buf : List ℕ) (timeout_ms : ℕ) (s : Sys W)
      → length buf < 2 ^ 32
      → IsValid s.handle
      → s.handle.initialised ≡ true
      → length buf + timeout_ms + 65543 ≤ fuel
      → Total
          (λ r s'. BodyRead (length buf) before (pending p sm s) (pending p sm s') r)
          (read_body_until_ok p fuel before buf timeout_ms s)
  unfolding read_body_until_ok
  read_body_until_ok-BodyRead fuel before buf timeout_ms s short valid ready enough =
      body_loop-BodyRead p sm fuel (length buf) before (pending p sm s) short (omega arith) fuel []
        (record { buf = buf; out_pos = 0; matched = 0; discarded = 0; overflow = false }) timeout_ms
        s
        (record {
          sought = record {
            stored = record {
              sized = refl;
              held = sym (take_all (length buf) [] (omega arith));
              count = refl;
              limit = omega arith;
              full = inl refl;
              flag = refl;
            };
            part = omega arith;
            reached = record {
              here = refl;
              first = sym (prepend-nil (body_before (pending p sm s)));
            };
          };
          few = omega arith;
          valid = valid;
          ready = ready;
          left = omega arith;
        })
