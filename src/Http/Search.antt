-- ===== src/Http/Search.antt =====
-- src/ec200_http.c: a round of read_body_until_ok, on the stream that the body stands in.
use ec200_at_abstraction.Prelude.{
  ℕ, suc, ◌+◌, ◌^◌, ◌≤◌, ◌<◌, ◌≡◌, refl, sym, ap, ◌∙◌, ◌⊎◌, inl, inr, true, false, [], ◌∷◌, ◌++◌,
  some, ltb, ◌==◌, if◌then◌else◌, length, take, get_or, arith, append_assoc, append-nil, take_all,
  take_within, if-elim, length-append, length-take, ==_iff, ltb→lt, take-get_or,
}
use mathlib.Core.Path.{subst}
use ec200_at_abstraction.Text.{Text, starts_with}
use ec200_at_abstraction.Handle.{Status, ok, err_overflow}
use ec200_at_abstraction.At.Raw.{RawRead}
use ec200_at_abstraction.Http.Body.{
  trailer, http_max_discard, BodyState, store_bytes, mismatch, BodyStep, go_on, finish, body_byte,
  body_result,
}
use ec200_at_abstraction.Http.Matching.{
  prepend, prepend-prepend, body_before, body_before-missed, body_before-other,
}
use ec200_at_abstraction.Http.Storing.{
  Stored, Stored-matched, store_byte-Stored, store_bytes-Stored, Stored-few, store_byte-matched,
}

-- The whole body is in the array, and the stream stands behind the first trailer.
pub record Whole (size : ℕ) (x rest : Text) (r : RawRead) : Type 0 where
  pub body : Text
  pub first : body_before x ≡ some body
  pub behind : x ≡ body ++ (trailer ++ rest)
  pub fits : length body ≤ size
  pub count : r.bytes_read ≡ length body
  pub stored : take r.bytes_read r.buf ≡ body

-- Why a body is cut: it is longer than the array, or so much is left over that the search is given up.
abbrev pub TooLong : ℕ → Text → Text → Type 0
TooLong size x taken =
    ((body : Text) × (body_before x ≡ some body) × (size < length body) × (taken ≡ body ++ trailer))
    ⊎ (size + http_max_discard < length taken)

-- The array is full of the first bytes of a body that does not fit.
pub record Truncated (size : ℕ) (x rest : Text) (r : RawRead) : Type 0 where
  pub taken : Text
  pub behind : x ≡ taken ++ rest
  pub count : r.bytes_read ≡ size
  pub stored : r.buf ≡ take size taken
  pub why : TooLong size x taken

-- How far the search has come: `kept` is body, `y` is left, and no trailer begins in `kept`.
pub record Reached (x kept y : Text) : Type 0 where
  pub here : x ≡ kept ++ y
  pub first : body_before x ≡ prepend kept (body_before y)

Reached-skip :
    (x kept xs y : Text)
    → Reached x kept (xs ++ y)
    → body_before (xs ++ y) ≡ prepend xs (body_before y)
    → Reached x (kept ++ xs) y
Reached-skip x kept xs y v e = record {
  here = v.here ∙ sym (append_assoc kept xs y);
  first = v.first ∙ ap (prepend kept) e ∙ prepend-prepend kept xs (body_before y);
}

-- The state of the loop between two rounds.
pub record Sought (size : ℕ) (x kept rest : Text) (b : BodyState) : Type 0 where
  pub stored : Stored size kept b
  pub part : b.matched < 6
  pub reached : Reached x kept (take b.matched trailer ++ rest)

-- The same with the number of bytes consumed instead of the body.
abbrev pub Advanced : ℕ → Text → ℕ → Text → BodyState → Type 0
Advanced size x n rest b =
    (kept : Text) × (Sought size x kept rest b) × (length kept + b.matched ≡ n)

mismatch-Advanced :
    (size ch : ℕ) (x kept rest : Text) (b : BodyState)
    → (ch == get_or trailer b.matched 0) ≡ false
    → b.discarded ≤ http_max_discard
    → Sought size x kept (ch ∷ rest) b
    → Advanced size x (length kept + b.matched + 1) rest (mismatch ch b)
unfolding mismatch
mismatch-Advanced size ch x kept rest b wrong few v =
    let part = take b.matched trailer in
    let part_size : length part ≡ b.matched =
      omega (arith, length-take b.matched trailer, v.part) in
    let flushed =
      store_bytes-Stored size part kept b (omega (arith, part_size, few, v.part)) v.stored in
    let few' = Stored-few size kept part b (store_bytes part b) v.stored flushed in
    let there =
      Reached-skip x kept part (ch ∷ rest) v.reached
        (body_before-missed b.matched ch rest v.part wrong) in
    if-elim (Advanced size x (length kept + b.matched + 1) rest) (ch == get_or trailer 0 0) _ _
      (λ begins. (
        kept ++ part,
        record {
          stored = Stored-matched size 1 (kept ++ part) (store_bytes part b) flushed;
          part = omega arith;
          reached =
              subst (λ c. Reached x (kept ++ part) (c ∷ rest)) ((==_iff ch 13).0 begins) there;
        },
        omega (arith, part_size, length-append kept part),
      ))
      λ other.
        let start = store_byte-matched ch (record (store_bytes part b) { matched = 0 }) in
        (
          (kept ++ part) ++ (ch ∷ []),
          record {
            stored =
                store_byte-Stored size ch (kept ++ part) _
                  (omega (arith, few, few', part_size, v.part))
                  (Stored-matched size 0 (kept ++ part) (store_bytes part b) flushed);
            part = omega (arith, start);
            reached =
                subst (λ m. Reached x ((kept ++ part) ++ (ch ∷ [])) (take m trailer ++ rest))
                  (sym start)
                  (Reached-skip x (kept ++ part) (ch ∷ []) rest there
                    (body_before-other ch rest other));
          },
          omega (
            arith,
            start,
            part_size,
            length-append kept part,
            length-append (kept ++ part) (ch ∷ []),
          ),
        )

-- What a round that ends the loop leaves.
abbrev pub Ended : ℕ → Text → Text → Status → BodyState → Type 0
Ended size x rest ok b = Whole size x rest (body_result ok b)
Ended size x rest err_overflow b = Truncated size x rest (body_result err_overflow b)
Ended size x rest _ b = ⊥

-- A round consumes a byte.
abbrev pub Stepped : ℕ → Text → ℕ → Text → BodyStep → Type 0
Stepped size x n rest (go_on b) = (b.discarded ≤ http_max_discard) × Advanced size x n rest b
Stepped size x n rest (finish st b) = Ended size x rest st b

-- More was received than the array takes.
full-Truncated :
    (size : ℕ) (x kept more rest : Text) (b : BodyState)
    → size < 2 ^ 32
    → Stored size kept b
    → 0 < b.discarded
    → x ≡ (kept ++ more) ++ rest
    → TooLong size x (kept ++ more)
    → Truncated size x rest (body_result err_overflow b)
unfolding body_result
full-Truncated size x kept more rest b short v over here why =
    let full : b.out_pos ≡ size = omega (arith, over, v.full) in
    record {
      taken = kept ++ more;
      behind = here;
      count = omega (arith, full, short);
      stored =
          sym (take_all size b.buf (omega (arith, v.sized)))
          ∙ ap (λ n. take n b.buf) (sym full)
          ∙ v.held
          ∙ sym (take_within size kept more (omega (arith, full, v.count)));
      why = why;
    }

-- The trailer is complete.
complete-Ended :
    (size : ℕ) (x kept rest : Text) (b : BodyState)
    → size < 2 ^ 32
    → Stored size kept b
    → Reached x kept (trailer ++ rest)
    → Ended size x rest (if b.overflow then err_overflow else ok) b
unfolding body_result body_before starts_with
complete-Ended size x kept rest b short v there =
    let whole : body_before x ≡ some kept = there.first ∙ ap some (append-nil kept) in
    if-elim (λ st. Ended size x rest st b) b.overflow _ _
      (λ over.
        let much : 0 < b.discarded = ground (arith, over, v.flag) in
        let long : size < length kept = omega (arith, much, v.full, v.count) in
        full-Truncated size x kept trailer rest b short v much
          (there.here ∙ sym (append_assoc kept trailer rest)) (inl (kept, whole, long, refl)))
      λ fit.
        let all_kept : b.out_pos ≡ length kept = ground (arith, fit, v.flag, v.count) in
        record {
          body = kept;
          first = whole;
          behind = there.here;
          fits = omega (arith, all_kept, v.limit);
          count = omega (arith, all_kept, short, v.limit);
          stored =
              ap (λ n. take n b.buf) (omega (arith, short, v.limit))
              ∙ v.held
              ∙ take_all size kept (omega (arith, all_kept, v.limit));
        }

-- The search is given up.
given_up-Truncated :
    (size : ℕ) (x kept rest : Text) (b : BodyState)
    → size < 2 ^ 32
    → Sought size x kept rest b
    → http_max_discard < b.discarded
    → Truncated size x rest (body_result err_overflow b)
given_up-Truncated size x kept rest b short v many =
    let part = take b.matched trailer in
    full-Truncated size x kept part rest b short v.stored (omega (arith, many))
      (v.reached.here ∙ sym (append_assoc kept part rest))
      (inr (omega (arith, many, length-append kept part, v.stored.count, v.stored.full)))

le_of_ltb : (a b : ℕ) → ltb a b ≡ false → b ≤ a
le_of_ltb a b h = ground (arith, h)

-- The next byte of the trailer.
trailer-next :
    (m ch : ℕ) (rest : Text)
    → m < 6
    → (ch == get_or trailer m 0) ≡ true
    → take m trailer ++ (ch ∷ rest) ≡ take (m + 1) trailer ++ rest
trailer-next m ch rest part right =
    let next : m + 1 ≡ suc m = omega arith in
    ap (λ c. take m trailer ++ (c ∷ rest)) ((==_iff ch (get_or trailer m 0)).0 right)
    ∙ sym (append_assoc (take m trailer) (get_or trailer m 0 ∷ []) rest)
    ∙ ap (λ t. t ++ rest) (sym (take-get_or m trailer 0 part))
    ∙ ap (λ k. take k trailer ++ rest) (sym next)

pub body_byte-Stepped :
    (size ch : ℕ) (x kept rest : Text) (b : BodyState)
    → size < 2 ^ 32
    → b.discarded ≤ http_max_discard
    → Sought size x kept (ch ∷ rest) b
    → Stepped size x (length kept + b.matched + 1) rest (body_byte ch b)
unfolding body_byte
body_byte-Stepped size ch x kept rest b short few v =
    let n = length kept + b.matched + 1 in
    let b' = mismatch ch b in
    if-elim (Stepped size x n rest) (ch == get_or trailer b.matched 0) _ _
      (λ right.
        let there =
          subst (Reached x kept) (trailer-next b.matched ch rest v.part right) v.reached in
        if-elim (Stepped size x n rest) (b.matched + 1 == 6) _ _
          (λ last.
            complete-Ended size x kept rest (record b { matched = b.matched + 1 }) short
              (Stored-matched size (b.matched + 1) kept b v.stored)
              (subst (λ k. Reached x kept (take k trailer ++ rest))
                ((==_iff (b.matched + 1) 6).0 last) there))
          λ not_last. (
            few,
            (
              kept,
              record {
                stored = Stored-matched size (b.matched + 1) kept b v.stored;
                part = ground (arith, not_last, v.part);
                reached = there;
              },
              omega arith,
            ),
          ))
      λ wrong.
        let (kept', v', consumed) = mismatch-Advanced size ch x kept rest b wrong few v in
        if-elim (Stepped size x n rest) (ltb http_max_discard b'.discarded) _ _
          (λ many.
            given_up-Truncated size x kept' rest b' short v'
              (ltb→lt http_max_discard b'.discarded many))
          λ not_many. (le_of_ltb http_max_discard b'.discarded not_many, (kept', v', consumed))
