-- ===== src/At/Lines/Byte.antt =====
-- ec200_at_read_raw of one byte, on a byte stream.
use ec200_at_abstraction.Prelude.{
  ℕ, zero, suc, ◌-◌, ◌*◌, ◌≤◌, ◌≡◌, refl, sym, ap, ◌∙◌, pos, true, false, List, [], ◌∷◌, ◌++◌, some,
  ltb, ◌==◌, arith, if-elim, int-elim, length, take, drop, get_or, length-take, length-drop,
  if_true,
}
use mathlib.Core.Path.{subst}
use ec200_at_abstraction.Text.{Text, memcpy_at}
use ec200_at_abstraction.Text.Laws.{length-memcpy_at}
use ec200_at_abstraction.Handle.{Handle, Reading, Platform, Sys, ok, err_timeout, err_io}
use ec200_at_abstraction.At.Rx.{call_read, slice_of}
use ec200_at_abstraction.At.Raw.{RawRead, buffered, rx_take_buffered, read_raw_loop, read_raw}
use ec200_at_abstraction.At.Valid.{IsValid, Total, Total-weaken}
use ec200_at_abstraction.At.Lines.Spec.{Stream}
use ec200_at_abstraction.At.Lines.Exact.{held_bytes, rx_take_buffered-HandedOut}

pub rx_take_buffered-IsValid :
    (h : Handle) (buf : List ℕ) → IsValid h → IsValid (rx_take_buffered h buf).1
unfolding rx_take_buffered
rx_take_buffered-IsValid h buf v =
    let n = buffered h (length buf) in
    let kept = drop n (take h.rx_len h.rx_buf) in
    let fits : length kept ≤ length h.rx_buf =
      omega (arith, length-drop n (take h.rx_len h.rx_buf), length-take h.rx_len h.rx_buf) in
    if-elim (λ (r : List ℕ × Handle × ℕ). IsValid r.1) (ltb 0 n) _ _
      (λ _. record {
        rx_size = length-memcpy_at 0 kept h.rx_buf (omega (arith, fits)) ∙ v.rx_size;
        rx_room = omega (arith, v.rx_room);
        tx_size = v.tx_size;
        err_size = v.err_size;
        table_size = v.table_size;
        kind_known = v.kind_known;
      })
      λ _. v

pub rx_take_buffered-initialised :
    (h : Handle) (buf : List ℕ) → (rx_take_buffered h buf).1.initialised ≡ h.initialised
unfolding rx_take_buffered
rx_take_buffered-initialised h buf =
    if-elim (λ (r : List ℕ × Handle × ℕ). r.1.initialised ≡ h.initialised)
      (ltb 0 (buffered h (length buf))) _ _ (λ _. refl) (λ _. refl)

first_stored :
    (xs bytes buf : List ℕ)
    → 1 ≤ length xs
    → bytes ≡ take 1 xs
    → xs ≡ get_or (memcpy_at 0 bytes buf) 0 0 ∷ drop 1 xs
unfolding memcpy_at
first_stored [] bytes buf some_byte e = absurd (omega arith)
first_stored (x ∷ xs) bytes buf some_byte e =
    ap (λ (b : List ℕ). get_or (memcpy_at 0 b buf) 0 0 ∷ xs) (sym e)

single : (n : ℕ) (buf : List ℕ) → length buf ≡ 1 → n ≡ 1 → take n buf ≡ get_or buf 0 0 ∷ []
single n [] one e = absurd (omega arith)
single n (x ∷ buf) one e = ap (λ k. take k (x ∷ buf)) e

-- Reading one byte takes the next one off `x` and stores it, or takes none.
abbrev pub ByteRead : Text → RawRead → Text → Type 0
ByteRead x r rest = elim r.status [
  | ok ↦ x ≡ get_or r.buf 0 0 ∷ rest
  | err_timeout ↦ x ≡ rest
  | err_io ↦ x ≡ rest
  | _ ↦ ⊥
]

module _ {W : Type 0} (p : Platform W) (sm : Stream p) where
  open sm use {incoming}

  -- All that the library and the stream still hold for the caller.
  abbrev pub pending : Sys W → Text
  pending s = held_bytes s.handle ++ incoming s.world

  -- What a read of one byte leaves, with the handle that it leaves alone.
  abbrev Taken : Text → Handle → RawRead → Sys W → Type 0
  Taken x h r s' = ByteRead x r (incoming s'.world) × (s'.handle ≡ h)

  read_raw_loop-round :
      (fuel : ℕ) (buf : List ℕ) (budget : ℕ) (s : Sys W)
      → length buf ≡ 1
      → ((budget == 0) ≡ false
          → (w : W) → incoming w ≡ incoming s.world
          → Total
              (Taken (incoming s.world) s.handle)
              (read_raw_loop p fuel buf (budget - slice_of budget) (record s { world = w })))
      → Total (Taken (incoming s.world) s.handle) (read_raw_loop p (suc fuel) buf budget s)
  unfolding read_raw_loop
  read_raw_loop-round fuel buf budget s one again =
      int-elim (Total Q) r.result _ _ (λ n e. (sym (sm.fails _ _ _ _ s.world n e), refl))
        λ n e.
          if-elim (Total Q) (ltb 0 n) _ _
            (λ some_bytes.
              let (asked, there, bytes, rest) =
                sm.delivers _ _ _ _ s.world (n - 1) (e ∙ ap pos (ground (arith, some_bytes))) in
              let single : suc (n - 1) ≡ 1 = omega (arith, asked, one) in
              (
                first_stored (incoming s.world) r.bytes buf (omega (arith, there))
                      (bytes ∙ ap (λ k. take k (incoming s.world)) single)
                    ∙ ap (λ t. get_or (memcpy_at 0 r.bytes buf) 0 0 ∷ t)
                        (ap (λ k. drop k (incoming s.world)) (sym single) ∙ sym rest),
                refl,
              ))
            λ no_bytes.
              let same = sm.waits _ _ _ _ s.world (e ∙ ap pos (ground (arith, no_bytes))) in
              if-elim (Total Q) (budget == 0) _ _ (λ _. (sym same, refl))
                λ left. again left r.after same
    where
      Q : RawRead → Sys W → Type 0
      Q = Taken (incoming s.world) s.handle

      r : Reading W
      r = call_read p (length buf) (slice_of budget) s

  read_raw_loop-Taken :
      (fuel : ℕ) (buf : List ℕ) (budget : ℕ) (s : Sys W)
      → length buf ≡ 1
      → budget ≤ 100 * fuel
      → Total (Taken (incoming s.world) s.handle) (read_raw_loop p (suc fuel) buf budget s)
  read_raw_loop-Taken zero buf budget s one enough =
      read_raw_loop-round zero buf budget s one λ left. absurd (ground (arith, left, enough))
  read_raw_loop-Taken (suc fuel) buf budget s one enough =
      read_raw_loop-round (suc fuel) buf budget s one λ left w same.
        subst
          (λ x.
            Total (Taken x s.handle)
              (read_raw_loop p (suc fuel) buf (budget - slice_of budget) (record s { world = w })))
          same
          (read_raw_loop-Taken fuel buf (budget - slice_of budget) (record s { world = w }) one
            (ground (arith, enough)))

  -- What ec200_at_read_raw leaves of a valid handle that is initialised.
  pub record ByteTaken (x : Text) (r : RawRead) (s' : Sys W) : Type 0 where
    pub read : ByteRead x r (pending s')
    pub valid : IsValid s'.handle
    pub ready : s'.handle.initialised ≡ true

  -- With 2 units of fuel a read of one byte within a slice returns: the next byte, or none.
  pub read_raw-ByteTaken :
      (fuel budget : ℕ) (s : Sys W)
      → IsValid s.handle
      → s.handle.initialised ≡ true
      → 2 ≤ fuel
      → Total (ByteTaken (pending s)) (read_raw p fuel (some (0 ∷ [])) 0 (slice_of budget) s)
  unfolding read_raw
  read_raw-ByteTaken zero budget s valid ready enough = absurd (omega arith)
  read_raw-ByteTaken (suc fuel) budget s valid ready enough =
      let taken = rx_take_buffered s.handle (0 ∷ []) in
      let out = rx_take_buffered-HandedOut s.handle (0 ∷ []) valid in
      let valid' = rx_take_buffered-IsValid s.handle (0 ∷ []) valid in
      let ready' = rx_take_buffered-initialised s.handle (0 ∷ []) ∙ ready in
      subst (Total (ByteTaken (pending s))) (sym (if_true s.handle.initialised _ _ ready)) (
        if-elim (Total (ByteTaken (pending s))) (ltb 0 taken.2) _ _
          (λ some_byte. record {
            read =
                ap (λ t. t ++ incoming s.world) (sym out.split)
                ∙ ap (λ t. (t ++ held_bytes taken.1) ++ incoming s.world)
                    (single taken.2 taken.0 out.size_kept
                      (ground (arith, some_byte, out.within, out.size_kept)));
            valid = valid';
            ready = ready';
          })
          λ no_byte.
            let nothing : taken.2 ≡ 0 = ground (arith, no_byte) in
            let empty = out.emptied (omega (arith, nothing, out.size_kept)) in
            let before : pending s ≡ incoming s.world =
              ap (λ t. t ++ incoming s.world)
                (sym out.split ∙ ap (λ n. take n taken.0 ++ held_bytes taken.1) nothing ∙ empty) in
            Total-weaken (Taken (incoming s.world) taken.1) (ByteTaken (pending s)) _
              (λ r s' (read, same). record {
                read =
                    subst (λ x. ByteRead x r (pending s')) (sym before)
                      (subst (ByteRead (incoming s.world) r)
                        (ap (λ t. t ++ incoming s'.world) (sym (ap held_bytes same ∙ empty))) read);
                valid = subst IsValid (sym same) valid';
                ready = ap (λ (h : Handle). h.initialised) same ∙ ready';
              })
              (read_raw_loop-Taken fuel taken.0 (slice_of budget) (record s { handle = taken.1 })
                out.size_kept (ground (arith, enough))))
