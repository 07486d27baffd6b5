-- ===== src/Http/Storing.antt =====
-- src/ec200_http.c: what the array of read_body_until_ok holds of the bytes of a body.
use ec200_at_abstraction.Prelude.{
  ℕ, suc, ◌+◌, ◌≤◌, ◌<◌, ◌^◌, ◌≡◌, refl, sym, ap, ◌∙◌, ◌⊎◌, inr, [], ◌∷◌, ◌++◌, ltb, length, take,
  arith, append_assoc, append-nil, set, take-set, take_all, take_within, length-set, length-append,
  if-elim,
}
use mathlib.Core.Path.{subst}
use ec200_at_abstraction.Text.{Text}
use ec200_at_abstraction.Http.Body.{BodyState, store_byte, store_bytes}

-- The array and the counters, for the bytes `kept` that the body has had so far.
pub record Stored (size : ℕ) (kept : Text) (b : BodyState) : Type 0 where
  pub sized : length b.buf ≡ size
  pub held : take b.out_pos b.buf ≡ take size kept
  pub count : b.out_pos + b.discarded ≡ length kept
  pub limit : b.out_pos ≤ size
  pub full : (b.discarded ≡ 0) ⊎ (b.out_pos ≡ size)
  pub flag : b.overflow ≡ ltb 0 b.discarded

pub Stored-matched :
    (size m : ℕ) (kept : Text) (b : BodyState)
    → Stored size kept b
    → Stored size kept (record b { matched = m })
Stored-matched size m kept b v = record {
  sized = v.sized;
  held = v.held;
  count = v.count;
  limit = v.limit;
  full = v.full;
  flag = v.flag;
}

pub store_byte-Stored :
    (size ch : ℕ) (kept : Text) (b : BodyState)
    → b.discarded + 1 < 2 ^ 32
    → Stored size kept b
    → Stored size (kept ++ (ch ∷ [])) (store_byte ch b)
unfolding store_byte
store_byte-Stored size ch kept b few v =
    let more = length-append kept (ch ∷ []) in
    let next : b.out_pos + 1 ≡ suc b.out_pos = omega arith in
    if-elim (Stored size (kept ++ (ch ∷ []))) (ltb b.out_pos (length b.buf)) _ _
      (λ room. record {
        sized = length-set b.buf b.out_pos ch ∙ v.sized;
        held =
            ap (λ n. take n (set b.buf b.out_pos ch)) next
            ∙ take-set b.out_pos b.buf ch (ground (arith, room))
            ∙ ap (λ t. t ++ (ch ∷ []))
                (v.held ∙ take_all size kept (ground (arith, room, v.full, v.count, v.sized)))
            ∙ sym (
                take_all size (kept ++ (ch ∷ []))
                  (ground (arith, more, room, v.full, v.count, v.sized)));
        count = ground (arith, more, v.count);
        limit = ground (arith, room, v.sized);
        full = ground (arith, room, v.full, v.sized);
        flag = v.flag;
      })
      λ room. record {
        sized = v.sized;
        held =
            v.held
            ∙ sym
                (take_within size kept (ch ∷ []) (ground (arith, room, v.count, v.sized, v.limit)));
        count = ground (arith, more, few, v.count);
        limit = v.limit;
        full = inr (ground (arith, room, v.sized, v.limit));
        flag = ground (arith, few);
      }

pub Stored-few :
    (size : ℕ) (kept more : Text) (b b' : BodyState)
    → Stored size kept b
    → Stored size (kept ++ more) b'
    → b'.discarded ≤ b.discarded + length more
Stored-few size kept more b b' v v' =
    ground (arith, length-append kept more, v.count, v.limit, v'.count, v'.full)

pub store_bytes-Stored :
    (size : ℕ) (bytes kept : Text) (b : BodyState)
    → b.discarded + length bytes < 2 ^ 32
    → Stored size kept b
    → Stored size (kept ++ bytes) (store_bytes bytes b)
unfolding store_bytes
store_bytes-Stored size [] kept b few v = subst (λ t. Stored size t b) (sym (append-nil kept)) v
store_bytes-Stored size (ch ∷ bytes) kept b few v =
    let v' = store_byte-Stored size ch kept b (omega arith) v in
    subst (λ t. Stored size t (store_bytes bytes (store_byte ch b)))
      (append_assoc kept (ch ∷ []) bytes)
      (store_bytes-Stored size bytes (kept ++ (ch ∷ [])) (store_byte ch b)
        (omega (arith, Stored-few size kept (ch ∷ []) b (store_byte ch b) v v')) v')

pub store_byte-matched : (ch : ℕ) (b : BodyState) → (store_byte ch b).matched ≡ b.matched
unfolding store_byte
store_byte-matched ch b =
    if-elim (λ (c : BodyState). c.matched ≡ b.matched) (ltb b.out_pos (length b.buf)) _ _
      (λ _. refl) (λ _. refl)
