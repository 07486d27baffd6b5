-- ===== src/At/Guarded/Reads.antt =====
-- The raw reads leave the handle valid.
use ec200_at_abstraction.Prelude.{
  ℕ, zero, suc, ◌-◌, ◌%◌, ◌^◌, ◌≡◌, refl, ◌∙◌, List, Option, none, some, ltb, ◌==◌, length, if-elim,
  int-elim,
}
use ec200_at_abstraction.Handle.{Handle, Platform, Sys}
use ec200_at_abstraction.At.Rx.{call_read, slice_of}
use ec200_at_abstraction.At.Raw.{
  RawRead, buffered, rx_take_buffered, read_raw_loop, read_raw, read_exact_loop, read_exact,
}
use ec200_at_abstraction.At.Valid.{After}
use ec200_at_abstraction.At.Lines.Byte.{rx_take_buffered-IsValid}
use ec200_at_abstraction.At.Guarded.Rules.{Unharmed, Guarded}
use ec200_at_abstraction.At.Guarded.Calls.{Guarded-of_same}

rx_take_buffered-flags :
    (h : Handle) (buf : List ℕ)
    → ((rx_take_buffered h buf).1.urc_table ≡ h.urc_table)
      × ((rx_take_buffered h buf).1.ppp_data_mode ≡ h.ppp_data_mode)
      × ((rx_take_buffered h buf).1.initialised ≡ h.initialised)
unfolding rx_take_buffered
rx_take_buffered-flags h buf =
    if-elim
      (λ (r : List ℕ × Handle × ℕ).
        (r.1.urc_table ≡ h.urc_table)
        × (r.1.ppp_data_mode ≡ h.ppp_data_mode)
        × (r.1.initialised ≡ h.initialised))
      (ltb 0 (buffered h (length buf))) _ _ (λ _. (refl, refl, refl)) (λ _. (refl, refl, refl))

rx_take_buffered-Unharmed :
    (before h : Handle) (buf : List ℕ)
    → Unharmed before h
    → Unharmed before (rx_take_buffered h buf).1
rx_take_buffered-Unharmed before h buf v =
    let (table, mode, ready) = rx_take_buffered-flags h buf in
    record {
      valid = rx_take_buffered-IsValid h buf v.valid;
      sized = refl;
      table_kept = table ∙ v.table_kept;
      mode_kept = mode ∙ v.mode_kept;
      ready_kept = ready ∙ v.ready_kept;
    }

module _ {W : Type 0} (p : Platform W) where
  handle-read_raw_loop :
      (fuel : ℕ) (buf : List ℕ) (budget : ℕ) (s : Sys W)
      → After (λ _ s'. s'.handle ≡ s.handle) (read_raw_loop p fuel buf budget s)
  unfolding read_raw_loop
  handle-read_raw_loop zero buf budget s = tt
  handle-read_raw_loop (suc fuel) buf budget s =
      let r = call_read p (length buf) (slice_of budget) s in
      let Q : RawRead → Sys W → Type 0 = λ _ s'. s'.handle ≡ s.handle in
      int-elim (After Q) r.result _ _ (λ n e. refl)
        λ n e.
          if-elim (After Q) (ltb 0 n) _ _ (λ _. refl)
            λ _.
              if-elim (After Q) (budget == 0) _ _ (λ _. refl)
                λ _.
                  handle-read_raw_loop fuel buf (budget - slice_of budget)
                    (record s { world = r.after })

  handle-read_exact_loop :
      (fuel : ℕ) (buf : List ℕ) (got budget : ℕ) (s : Sys W)
      → After (λ _ s'. s'.handle ≡ s.handle) (read_exact_loop p fuel buf got budget s)
  unfolding read_exact_loop
  handle-read_exact_loop zero buf got budget s = tt
  handle-read_exact_loop (suc fuel) buf got budget s =
      let r = call_read p (length buf - got) (slice_of budget) s in
      let s' : Sys W = record s { world = r.after } in
      let Q : RawRead → Sys W → Type 0 = λ _ s'. s'.handle ≡ s.handle in
      if-elim (After Q) (ltb got (length buf)) _ _
        (λ _.
          int-elim (After Q) r.result _ _ (λ n e. refl)
            λ n e.
              if-elim (After Q) (ltb 0 n) _ _
                (λ _.
                  if-elim (After Q) (ltb (length buf - got) (n % 2 ^ 16)) _ _ (λ _. refl)
                    λ _. handle-read_exact_loop fuel _ _ budget s')
                λ _.
                  if-elim (After Q) (budget == 0) _ _ (λ _. refl)
                    λ _. handle-read_exact_loop fuel buf got _ s')
        λ _. refl

  pub Guarded-read_raw :
      (fuel : ℕ) (buf : Option (List ℕ)) (before t : ℕ) → Guarded (read_raw p fuel buf before t)
  unfolding read_raw
  Guarded-read_raw fuel none before t = record { at = λ h s v. v }
  Guarded-read_raw fuel (some buf) before t = record {
    at = λ h s v.
        let taken = rx_take_buffered s.handle buf in
        let v' = rx_take_buffered-Unharmed h s.handle buf v in
        let Q : RawRead → Sys W → Type 0 = λ _ s'. Unharmed h s'.handle in
        if-elim (After Q) s.handle.initialised _ _
          (λ _.
            if-elim (After Q) (length buf == 0) _ _ (λ _. v)
              λ _.
                if-elim (After Q) (ltb 0 taken.2) _ _ (λ _. v')
                  λ _.
                    (Guarded-of_same (read_raw_loop p fuel taken.0 t)
                        (handle-read_raw_loop fuel taken.0 t)).at
                      h (record s { handle = taken.1 }) v')
          λ _. v;
  }

  pub Guarded-read_exact :
      (fuel : ℕ) (buf : Option (List ℕ)) (before t : ℕ) → Guarded (read_exact p fuel buf before t)
  unfolding read_exact
  Guarded-read_exact fuel none before t = record { at = λ h s v. v }
  Guarded-read_exact fuel (some buf) before t = record {
    at = λ h s v.
        let taken = rx_take_buffered s.handle buf in
        if-elim (After (λ _ s'. Unharmed h s'.handle)) s.handle.initialised _ _
          (λ _.
            (Guarded-of_same (read_exact_loop p fuel taken.0 taken.2 t)
                (handle-read_exact_loop fuel taken.0 taken.2 t)).at
              h (record s { handle = taken.1 }) (rx_take_buffered-Unharmed h s.handle buf v))
          λ _. v;
  }
