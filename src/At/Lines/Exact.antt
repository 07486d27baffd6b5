-- ===== src/At/Lines/Exact.antt =====
-- ec200_at_read_exact and ec200_at_read_raw on a byte stream: which bytes the caller gets.
use ec200_at_abstraction.Prelude.{
  ℕ, zero, suc, ◌+◌, ◌-◌, ◌%◌, ◌^◌, ◌≤◌, ◌<◌, ◌≡◌, refl, sym, ap, ◌∙◌, pos, true, List, [], ◌∷◌,
  ◌++◌, some, ltb, ◌==◌, arith, if-elim, int-elim, length, take, drop, take-length, length-append,
  length-take, length-drop, append_assoc, take-append-drop, if_true,
}
use mathlib.Core.Path.{subst}
use ec200_at_abstraction.Text.{Text, memcpy_at}
use ec200_at_abstraction.Text.Laws.{length-memcpy_at}
use ec200_at_abstraction.Handle.{Handle, Reading, Platform, Sys, Status, ok}
use ec200_at_abstraction.At.Rx.{call_read, slice_of}
use ec200_at_abstraction.At.Raw.{RawRead, buffered, rx_take_buffered, read_exact_loop, read_exact}
use ec200_at_abstraction.At.Valid.{IsValid, After}
use ec200_at_abstraction.At.Lines.Spec.{Stream}

-- The bytes that the library holds for the caller.
abbrev pub held_bytes : Handle → Text
held_bytes h = take h.rx_len h.rx_buf

take-memcpy_at :
    (at : ℕ) (src dst : List ℕ)
    → at ≤ length dst
    → take (at + length src) (memcpy_at at src dst) ≡ take at dst ++ src
unfolding memcpy_at
take-memcpy_at at src dst h =
    ap (take (at + length src)) (sym (append_assoc (take at dst) src (drop (at + length src) dst)))
    ∙ ap (λ k. take k ((take at dst ++ src) ++ drop (at + length src) dst))
        (omega (arith, length-append (take at dst) src, length-take at dst))
    ∙ take-length (take at dst ++ src) _

empty_of_length : (xs : List ℕ) → length xs ≡ 0 → xs ≡ []
empty_of_length [] e = refl
empty_of_length (x ∷ xs) e = absurd (omega arith)

take-take : (n m : ℕ) (xs : List ℕ) → n ≤ m → take n (take m xs) ≡ take n xs
take-take zero m xs h = refl
take-take (suc n) zero xs h = absurd (omega arith)
take-take (suc n) (suc m) [] h = refl
take-take (suc n) (suc m) (x ∷ xs) h = ap (λ t. x ∷ t) (take-take n m xs (omega arith))

-- What rx_take_buffered hands out, with what it keeps, is what the library held; it keeps something only
-- if the array is full.
pub record HandedOut (h : Handle) (buf : List ℕ) (r : List ℕ × Handle × ℕ) : Type 0 where
  pub size_kept : length r.0 ≡ length buf
  pub within : r.2 ≤ length buf
  pub split : take r.2 r.0 ++ held_bytes r.1 ≡ held_bytes h
  pub emptied : r.2 < length buf → held_bytes r.1 ≡ []

abbrev Limits : ℕ → ℕ → ℕ → Type 0
Limits held len n = (n ≤ held) × (n ≤ len) × (n < len → held ≡ n)

buffered-Limits : (h : Handle) (len : ℕ) → Limits h.rx_len len (buffered h len)
buffered-Limits h len =
    if-elim (Limits h.rx_len len) (ltb h.rx_len len) _ _
      (λ l. (omega arith, ground (arith, l), λ _. refl))
      λ l. (ground (arith, l), omega arith, λ k. absurd (omega arith))

pub rx_take_buffered-HandedOut :
    (h : Handle) (buf : List ℕ) → IsValid h → HandedOut h buf (rx_take_buffered h buf)
unfolding rx_take_buffered
rx_take_buffered-HandedOut h buf v =
    let n = buffered h (length buf) in
    let (in_held, in_buf, full) = buffered-Limits h (length buf) in
    let src = take n h.rx_buf in
    let kept = drop n (held_bytes h) in
    let src_size : length src ≡ n = omega (arith, length-take n h.rx_buf, v.rx_size, v.rx_room) in
    let kept_size : length kept ≡ h.rx_len - n =
      omega (
        arith,
        length-drop n (held_bytes h),
        length-take h.rx_len h.rx_buf,
        v.rx_size,
        v.rx_room,
      ) in
    let still : take ((h.rx_len - n) % 2 ^ 16) (memcpy_at 0 kept h.rx_buf) ≡ kept =
      ap (λ k. take k (memcpy_at 0 kept h.rx_buf)) (omega (arith, kept_size, v.rx_room))
      ∙ take-memcpy_at 0 kept h.rx_buf (omega arith) in
    let out : take n (memcpy_at 0 src buf) ≡ take n (held_bytes h) =
      ap (λ k. take k (memcpy_at 0 src buf)) (omega (arith, src_size))
      ∙ take-memcpy_at 0 src buf (omega arith)
      ∙ sym (take-take n h.rx_len h.rx_buf in_held) in
    let nothing : n < length buf → kept ≡ [] =
      λ l. empty_of_length kept (omega (arith, kept_size, full l)) in
    if-elim (HandedOut h buf) (ltb 0 n) _ _
      (λ _. record {
        size_kept = length-memcpy_at 0 src buf (omega arith);
        within = in_buf;
        split =
            ap (λ t. t ++ take ((h.rx_len - n) % 2 ^ 16) (memcpy_at 0 kept h.rx_buf)) out
            ∙ ap (λ t. take n (held_bytes h) ++ t) still
            ∙ take-append-drop n (held_bytes h);
        emptied = λ l. still ∙ nothing l;
      })
      λ l.
        let none_out : n ≡ 0 = ground (arith, l) in
        record {
          size_kept = refl;
          within = in_buf;
          split = ap (λ k. take k buf ++ held_bytes h) none_out;
          emptied = λ k. ap (λ k. take k h.rx_buf) (full k ∙ none_out);
        }

module _ {W : Type 0} (p : Platform W) (sm : Stream p) where
  open sm use {incoming}

  -- The caller's array after a raw read: its first bytes are what was taken off the front of `x`.
  pub record ReadOff (size : ℕ) (x : Text) (r : RawRead) (s' : Sys W) : Type 0 where
    pub size_kept : length r.buf ≡ size
    pub within : r.bytes_read ≤ size
    pub in_order : take r.bytes_read r.buf ++ (held_bytes s'.handle ++ incoming s'.world) ≡ x
    pub full : r.status ≡ ok → r.bytes_read ≡ size

  -- The state of the loop of ec200_at_read_exact, between two reads.
  record ReadingOff (size : ℕ) (x kept : Text) (buf : List ℕ) (got : ℕ) (w : W) : Type 0 where
    size_kept : length buf ≡ size
    within : got ≤ size
    emptied : got < size → kept ≡ []
    in_order : take got buf ++ (kept ++ incoming w) ≡ x

  stopped :
      (size : ℕ) (x kept : Text) (buf : List ℕ) (got : ℕ) (w : W) (st : Status) (s' : Sys W)
      → ReadingOff size x kept buf got w
      → held_bytes s'.handle ≡ kept
      → incoming s'.world ≡ incoming w
      → (st ≡ ok → got ≡ size)
      → ReadOff size x (record { status = st; buf = buf; bytes_read = got }) s'
  stopped size x kept buf got w st s' v held e full = record {
    size_kept = v.size_kept;
    within = v.within;
    in_order =
        ap (λ t. take got buf ++ (t ++ incoming s'.world)) held
        ∙ ap (λ t. take got buf ++ (kept ++ t)) e
        ∙ v.in_order;
    full = full;
  }

  waited :
      (size : ℕ) (x kept : Text) (buf : List ℕ) (got : ℕ) (w w' : W)
      → ReadingOff size x kept buf got w
      → incoming w' ≡ incoming w
      → ReadingOff size x kept buf got w'
  waited size x kept buf got w w' v e = record {
    size_kept = v.size_kept;
    within = v.within;
    emptied = v.emptied;
    in_order = ap (λ t. take got buf ++ (kept ++ t)) e ∙ v.in_order;
  }

  -- A read that delivers `n` bytes.
  delivered :
      (size : ℕ) (x kept : Text) (buf : List ℕ) (got n f t ctx : ℕ) (w : W)
      → ReadingOff size x kept buf got w
      → got < size
      → size < 2 ^ 16
      → 0 < n
      → (p.read f (length buf - got) t ctx w).result ≡ pos n
      → ReadingOff size x kept
          (memcpy_at got (p.read f (length buf - got) t ctx w).bytes buf)
          ((got + n % 2 ^ 16) % 2 ^ 16)
          (p.read f (length buf - got) t ctx w).after
  delivered size x kept buf got n f t ctx w v more short some_bytes e =
      let r = p.read f (length buf - got) t ctx w in
      let (asked, there, bytes, rest) =
        sm.delivers f (length buf - got) t ctx w (n - 1) (e ∙ ap pos (omega arith)) in
      let many : length r.bytes ≡ n =
        ap length bytes ∙ omega (arith, length-take (suc (n - 1)) (incoming w)) in
      let now : (got + n % 2 ^ 16) % 2 ^ 16 ≡ got + length r.bytes =
        omega (arith, many, v.size_kept) in
      record {
        size_kept =
            length-memcpy_at got r.bytes buf (omega (arith, many, v.size_kept)) ∙ v.size_kept;
        within = omega (arith, many, now, v.size_kept);
        emptied = λ _. v.emptied more;
        in_order =
            ap (λ n. take n (memcpy_at got r.bytes buf) ++ (kept ++ incoming r.after)) now
            ∙ ap (λ t. t ++ (kept ++ incoming r.after))
                (take-memcpy_at got r.bytes buf (omega (arith, v.size_kept)))
            ∙ append_assoc (take got buf) r.bytes (kept ++ incoming r.after)
            ∙ ap (λ t. take got buf ++ t) (joined r.bytes r.after bytes rest)
            ∙ v.in_order;
      }
    where
      joined :
          (bytes : List ℕ) (w' : W)
          → bytes ≡ take (suc (n - 1)) (incoming w)
          → incoming w' ≡ drop (suc (n - 1)) (incoming w)
          → bytes ++ (kept ++ incoming w') ≡ kept ++ incoming w
      joined bytes w' e rest =
          ap (λ t. bytes ++ (t ++ incoming w')) (v.emptied more)
          ∙ ap (λ t. t ++ incoming w') e
          ∙ ap (λ t. take (suc (n - 1)) (incoming w) ++ t) rest
          ∙ take-append-drop (suc (n - 1)) (incoming w)
          ∙ ap (λ t. t ++ incoming w) (sym (v.emptied more))

  read_exact_loop-ReadOff :
      (fuel size : ℕ) (x kept : Text) (buf : List ℕ) (got budget : ℕ) (s : Sys W)
      → size < 2 ^ 16
      → held_bytes s.handle ≡ kept
      → ReadingOff size x kept buf got s.world
      → After (ReadOff size x) (read_exact_loop p fuel buf got budget s)
  unfolding read_exact_loop
  read_exact_loop-ReadOff zero size x kept buf got budget s short held v = tt
  read_exact_loop-ReadOff (suc fuel) size x kept buf got budget s short held v =
      if-elim (After Q) (ltb got (length buf)) _ _
        (λ more.
          int-elim (After Q) r.result _ _
            (λ n e.
              stopped size x kept buf got s.world _ s' v held (sm.fails _ _ _ _ s.world n e)
                (λ o. cc))
            λ n e.
              if-elim (After Q) (ltb 0 n) _ _
                (λ some_bytes.
                  if-elim (After Q) (ltb (length buf - got) (n % 2 ^ 16)) _ _
                    (λ too_many.
                      let (asked, _, _, _) =
                        sm.delivers _ _ _ _ s.world (n - 1)
                          (e ∙ ap pos (ground (arith, some_bytes))) in
                      absurd (ground (arith, some_bytes, too_many, asked, v.size_kept)))
                    λ _. read_exact_loop-ReadOff fuel size x kept _ _ budget s' short held (
                      delivered size x kept buf got n _ _ _ s.world v
                        (ground (arith, more, v.size_kept)) short (ground (arith, some_bytes)) e))
                λ no_bytes.
                  let same = sm.waits _ _ _ _ s.world (e ∙ ap pos (ground (arith, no_bytes))) in
                  if-elim (After Q) (budget == 0) _ _
                    (λ _. stopped size x kept buf got s.world _ s' v held same (λ o. cc))
                    λ _.
                      read_exact_loop-ReadOff fuel size x kept buf got _ s' short held
                        (waited size x kept buf got s.world r.after v same))
        λ l.
          stopped size x kept buf got s.world _ s v held refl
            (λ _. ground (arith, l, v.size_kept, v.within))
    where
      Q : RawRead → Sys W → Type 0
      Q = ReadOff size x

      r : Reading W
      r = call_read p (length buf - got) (slice_of budget) s

      s' : Sys W
      s' = record s { world = r.after }

  -- On a byte stream and a valid handle, ec200_at_read_exact into an array of fewer than 65536 cells, if
  -- it returns, has taken the bytes that the library held and then those of the stream, in their order
  -- and without loss: the first `*bytes_read` cells are the bytes taken, the array keeps its length, and
  -- it is full when the status is EC200_OK.
  pub read_exact-ReadOff :
      (fuel : ℕ) (buf : List ℕ) (before timeout_ms : ℕ) (s : Sys W)
      → IsValid s.handle
      → s.handle.initialised ≡ true
      → length buf < 2 ^ 16
      → After
          (ReadOff (length buf) (held_bytes s.handle ++ incoming s.world))
          (read_exact p fuel (some buf) before timeout_ms s)
  unfolding read_exact
  read_exact-ReadOff fuel buf before timeout_ms s valid ready short =
      let taken = rx_take_buffered s.handle buf in
      let out = rx_take_buffered-HandedOut s.handle buf valid in
      subst (After (ReadOff (length buf) (held_bytes s.handle ++ incoming s.world)))
        (sym (if_true s.handle.initialised _ _ ready))
        (read_exact_loop-ReadOff fuel (length buf) (held_bytes s.handle ++ incoming s.world)
          (held_bytes taken.1) taken.0 taken.2 timeout_ms (record s { handle = taken.1 }) short refl
          (record {
            size_kept = out.size_kept;
            within = out.within;
            emptied = out.emptied;
            in_order =
                sym (append_assoc (take taken.2 taken.0) (held_bytes taken.1) (incoming s.world))
                ∙ ap (λ t. t ++ incoming s.world) out.split;
          }))
