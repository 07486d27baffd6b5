-- ===== src/At/Lines/Feed.antt =====
-- Feeding bytes one by one extends the held line by them, less CRs and what passes the buffer; a LF
-- ends the line.
use ec200_at_abstraction.Prelude.{
  ℕ, zero, suc, ◌%◌, ◌^◌, take-length, take-take_append, ◌+◌, ◌≤◌, ◌<◌, ◌≡◌, ◌≢◌, refl, sym, ap,
  ◌∙◌, List, [], ◌∷◌, ◌++◌, arith, Bool-cases, inl, inr, ltb, ◌==◌, if◌then◌else◌, length, take,
  set, take-set, take_all, length-append, length-take, append-nil, append_assoc,
}
use ec200_at_abstraction.Text.{Text, c_str}
use ec200_at_abstraction.Handle.{Handle}
use ec200_at_abstraction.At.Rx.{rx_feed, current_line}
use ec200_at_abstraction.At.Valid.{IsValid}
use ec200_at_abstraction.At.Valid.Step.{rx_feed-IsValid}
use ec200_at_abstraction.At.Lines.Spec.{lf, max_held, held, strip_cr, NoLf, clip}

-- The handle after a run of bytes.
unfoldable pub feed_all : Handle → Text → Handle
feed_all h [] = h
feed_all h (c ∷ s) = feed_all (rx_feed h c).0 s

-- rx_feed reports a line exactly at a LF.
pub complete-rx_feed : (h : Handle) (c : ℕ) → (rx_feed h c).1 ≡ (c == lf)
unfolding rx_feed
complete-rx_feed h c = ground arith

length-held : (h : Handle) → IsValid h → length (held h) ≡ h.rx_len
length-held h v = omega (arith, length-take h.rx_len h.rx_buf, v.rx_size, v.rx_room)

pub clip-clip_append : (s t : Text) → clip (clip s ++ t) ≡ clip (s ++ t)
unfolding clip
clip-clip_append s t = take-take_append max_held s t

clip_short : (s : Text) → length s ≤ max_held → clip s ≡ s
unfolding clip
clip_short s h = take_all max_held s h

clip_full : (s t : Text) → length s ≡ max_held → clip (s ++ t) ≡ s
unfolding clip
clip_full s t h = ap (λ n. take n (s ++ t)) (sym h) ∙ take-length s t

-- A handle whose line is `s` holds `s`.
pub clip-held : (h : Handle) → IsValid h → clip (held h) ≡ held h
clip-held h v = clip_short (held h) (omega (arith, length-held h v, v.rx_room))

-- Room is left: the byte is appended.
held-set :
    (h : Handle) (c : ℕ)
    → IsValid h
    → h.rx_len < max_held
    → take ((h.rx_len + 1) % 2 ^ 16) (set h.rx_buf h.rx_len c) ≡ clip (held h ++ (c ∷ []))
held-set h c v room =
    let next : (h.rx_len + 1) % 2 ^ 16 ≡ suc h.rx_len = omega arith in
    let short : length (held h ++ (c ∷ [])) ≤ max_held =
      omega (arith, length-append (held h) (c ∷ []), length-held h v) in
    rw (next, clip_short (held h ++ (c ∷ [])) short)
      (take-set h.rx_len h.rx_buf c (omega (arith, v.rx_size)))

-- One byte that is no LF.
held-rx_feed :
    (h : Handle) (c : ℕ)
    → IsValid h
    → c ≢ lf
    → held (rx_feed h c).0 ≡ clip (held h ++ strip_cr (c ∷ []))
unfolding rx_feed strip_cr
held-rx_feed h c v n =
    let cr : clip (held h ++ []) ≡ held h = ap clip (append-nil (held h)) ∙ clip-held h v in
    elim (Bool-cases (ltb h.rx_len max_held)) [
      | inl room ↦ ground (arith, held-set h c v)
      | inr full ↦ ground (arith, clip_full (held h) (c ∷ []), length-held h v, v.rx_room)
    ]

strip_cr-cons : (c : ℕ) (s : Text) → strip_cr (c ∷ s) ≡ strip_cr (c ∷ []) ++ strip_cr s
unfolding strip_cr
strip_cr-cons c s = ground arith

feed_all-IsValid : (h : Handle) (s : Text) → IsValid h → IsValid (feed_all h s)
unfolding feed_all
feed_all-IsValid h [] v = v
feed_all-IsValid h (c ∷ s) v = feed_all-IsValid (rx_feed h c).0 s (rx_feed-IsValid h c v)

-- A run of bytes without a LF.
pub held-feed_all :
    (h : Handle) (s : Text) → IsValid h → NoLf s → held (feed_all h s) ≡ clip (held h ++ strip_cr s)
unfolding feed_all strip_cr
held-feed_all h [] v n = sym (ap clip (append-nil (held h)) ∙ clip-held h v)
held-feed_all h (c ∷ s) v n =
    held-feed_all (rx_feed h c).0 s (rx_feed-IsValid h c v) n.1
    ∙ ap (λ t. clip (t ++ strip_cr s)) (held-rx_feed h c v n.0)
    ∙ clip-clip_append (held h ++ strip_cr (c ∷ [])) (strip_cr s)
    ∙ ap clip (append_assoc (held h) _ _ ∙ ap (λ t. held h ++ t) (sym (strip_cr-cons c s)))

c_str-set_nul : (n : ℕ) (buf : List ℕ) → n < length buf → c_str (set buf n 0) ≡ c_str (take n buf)
unfolding c_str
c_str-set_nul n [] h = absurd (omega arith)
c_str-set_nul zero (b ∷ buf) h = refl
c_str-set_nul (suc n) (b ∷ buf) h =
    ap (λ t. if b == 0 then [] else b ∷ t) (c_str-set_nul n buf (omega arith))

-- A LF: the line that is read is the held one, and nothing is held any more.
pub line-rx_feed :
    (h : Handle)
    → IsValid h
    → (current_line (rx_feed h lf).0 ≡ c_str (held h)) × (held (rx_feed h lf).0 ≡ [])
unfolding rx_feed
line-rx_feed h v = (c_str-set_nul h.rx_len h.rx_buf (omega (arith, v.rx_size, v.rx_room)), refl)

-- From any valid handle, a run of bytes without a LF and then a LF complete exactly one line, at the
-- LF: what was held with the run behind it, less its CRs, cut to 2047 bytes, up to its first NUL; and the
-- assembler is empty again.
pub feed_line :
    (h : Handle) (s : Text)
    → IsValid h
    → NoLf s
    → let h' = (rx_feed (feed_all h s) lf).0 in
      (current_line h' ≡ c_str (clip (held h ++ strip_cr s))) × (held h' ≡ []) × IsValid h'
feed_line h s v n =
    let v' = feed_all-IsValid h s v in
    let (line, empty) = line-rx_feed (feed_all h s) v' in
    (line ∙ ap c_str (held-feed_all h s v n), empty, rx_feed-IsValid (feed_all h s) lf v')
