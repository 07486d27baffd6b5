-- ===== src/At/Lines/Read.antt =====
-- rx_getc and rx_line on a byte stream: which bytes they take, and which line they assemble.
use ec200_at_abstraction.Prelude.{
  ℕ, zero, suc, ◌-◌, ◌≤◌, ◌≡◌, ◌≢◌, refl, sym, ap, ◌∙◌, List, [], ◌∷◌, ◌++◌, arith, inl, inr, ◌⊎◌,
  ◌==◌, ==_iff, if-elim, length, get_or, ℤ, pos, negsuc, take, drop,
}
use mathlib.Core.Path.{subst, subst₃}
use ec200_at_abstraction.Text.{Text, c_str}
use ec200_at_abstraction.Handle.{Handle, Platform, Sys}
use ec200_at_abstraction.Exec.{Exec}
use ec200_at_abstraction.At.Rx.{
  RxCode, Got, rx_ok, rx_timeout, rx_io_error, rx_feed, getc_answer, rx_getc, rx_received, rx_line,
  current_line, call_read, slice_of,
}
use ec200_at_abstraction.At.Valid.{IsValid, After, After-bind, After-weaken}
use ec200_at_abstraction.At.Lines.Spec.{lf, held, strip_cr, NoLf, clip, Stream}
use ec200_at_abstraction.At.Lines.Feed.{feed_all, complete-rx_feed, held-feed_all, feed_line}

module _ {W : Type 0} (p : Platform W) (st : Stream p) where
  open st use {incoming}

  -- A byte was taken from the stream, or nothing was.
  abbrev pub TakenFrom : Handle → Text → Got → Sys W → Type 0
  TakenFrom h xs g s' =
      (s'.handle ≡ h)
      × (((g.code ≡ rx_ok) × (xs ≡ g.byte ∷ incoming s'.world))
          ⊎ ((g.code ≢ rx_ok) × (xs ≡ incoming s'.world)))

  abbrev pub Taken : Sys W → Got → Sys W → Type 0
  Taken s = TakenFrom s.handle (incoming s.world)

  head_taken :
      (r : List ℕ) (xs : Text) (n : ℕ)
      → suc n ≤ 1
      → suc n ≤ length xs
      → r ≡ take (suc n) xs
      → xs ≡ get_or r 0 0 ∷ drop (suc n) xs
  head_taken r [] n one fits e = absurd (omega arith)
  head_taken r (x ∷ xs) zero one fits e = rw e refl
  head_taken r (x ∷ xs) (suc n) one fits e = absurd (omega arith)

  getc_answer-Taken :
      (next : ℕ → Exec W Got) (budget : ℕ) (r : ℤ) (s : Sys W)
      → (result : (call_read p 1 (slice_of budget) s).result ≡ r)
      → ((b : ℕ) (s' : Sys W) → After (Taken s') (next b s'))
      → let reading = call_read p 1 (slice_of budget) s in
        After
          (Taken s)
          (getc_answer p next budget reading.bytes r (record s { world = reading.after }))
  unfolding getc_answer
  getc_answer-Taken next budget (negsuc n) s e rec = (
    refl,
    inr (cc, sym (st.fails s.handle.read 1 (slice_of budget) s.handle.user_ctx s.world n e)),
  )
  getc_answer-Taken next budget (pos (suc n)) s e rec =
      let (one, fits, bytes, rest) =
        st.delivers s.handle.read 1 (slice_of budget) s.handle.user_ctx s.world n e in
      (
        refl,
        inl (
          refl,
          head_taken _ (incoming s.world) n one fits bytes
              ∙ ap (λ t. get_or (call_read p 1 (slice_of budget) s).bytes 0 0 ∷ t) (sym rest),
        ),
      )
  getc_answer-Taken next budget (pos zero) s e rec =
      let w = (call_read p 1 (slice_of budget) s).after in
      let s' : Sys W = record s { world = w } in
      let same = st.waits s.handle.read 1 (slice_of budget) s.handle.user_ctx s.world e in
      let later =
        subst (λ xs. After (TakenFrom s.handle xs) (next (budget - slice_of budget) s')) same
          (rec (budget - slice_of budget) s') in
      let now : Taken s (record { code = rx_timeout; budget = 0; byte = 0 }) s' =
        (refl, inr (cc, sym same)) in
      if-elim (After (Taken s)) (budget == 0) _ _ (λ _. now) (λ _. later)

  rx_getc-Taken : (fuel budget : ℕ) (s : Sys W) → After (Taken s) (rx_getc p fuel budget s)
  unfolding rx_getc
  rx_getc-Taken zero budget s = tt
  rx_getc-Taken (suc fuel) budget s =
      getc_answer-Taken (λ b. rx_getc p fuel b) budget _ s refl (rx_getc-Taken fuel)

  -- What rx_line took from the stream `xs`, and what it fed to the assembler `h`: a run without a LF, and
  -- behind it the LF exactly if it returns RX_OK.
  abbrev pub FedFrom : Handle → Text → RxCode → Sys W → Type 0
  FedFrom h xs rx_ok s' =
      (run : Text) × NoLf run
      × (xs ≡ run ++ (lf ∷ incoming s'.world))
      × (s'.handle ≡ (rx_feed (feed_all h run) lf).0)
  FedFrom h xs _ s' =
      (run : Text) × NoLf run × (xs ≡ run ++ incoming s'.world) × (s'.handle ≡ feed_all h run)

  -- A byte before that.
  FedFrom-cons :
      (h : Handle) (c : ℕ) (xs : Text) (rc : RxCode) (s' : Sys W)
      → c ≢ lf
      → FedFrom (rx_feed h c).0 xs rc s'
      → FedFrom h (c ∷ xs) rc s'
  unfolding feed_all
  FedFrom-cons h c xs rx_ok s' n (run, free, took, fed) =
      (c ∷ run, (n, free), ap (λ t. c ∷ t) took, fed)
  FedFrom-cons h c xs rx_timeout s' n (run, free, took, fed) =
      (c ∷ run, (n, free), ap (λ t. c ∷ t) took, fed)
  FedFrom-cons h c xs rx_io_error s' n (run, free, took, fed) =
      (c ∷ run, (n, free), ap (λ t. c ∷ t) took, fed)

  abbrev Fed : Sys W → RxCode × ℕ → Sys W → Type 0
  Fed s a = FedFrom s.handle (incoming s.world) a.0

  -- The byte `c` has been received.
  received_byte :
      (next : ℕ → Exec W (RxCode × ℕ)) (budget c : ℕ) (s : Sys W)
      → ((b : ℕ) (s' : Sys W) → After (Fed s') (next b s'))
      → After
          (λ a. FedFrom s.handle (c ∷ incoming s.world) a.0)
          (rx_received p next (record { code = rx_ok; budget = budget; byte = c }) s)
  unfolding rx_received feed_all
  received_byte next budget c s rec =
      let h = (rx_feed s.handle c).0 in
      let fed : Sys W = record s { handle = h } in
      if-elim (After {A = RxCode × ℕ} (λ a. FedFrom s.handle (c ∷ incoming s.world) a.0))
        (rx_feed s.handle c).1 _ _
        (λ done.
          let is_lf : c ≡ lf = (==_iff c lf).0 (sym (complete-rx_feed s.handle c) ∙ done) in
          ([], tt, ap (λ b. b ∷ incoming s.world) is_lf, ap (λ b. (rx_feed s.handle b).0) is_lf))
        λ not_done.
          After-weaken (Fed fed) (λ a. FedFrom s.handle (c ∷ incoming s.world) a.0)
            (next budget fed)
            (λ a s'.
              FedFrom-cons s.handle c (incoming s.world) a.0 s'
                λ e. cc (complete-rx_feed s.handle c, not_done, (==_iff c lf).1 e))
            (rec budget fed)

  received_nothing :
      (code : RxCode) (budget c : ℕ) (next : ℕ → Exec W (RxCode × ℕ)) (h : Handle) (xs : Text)
      (s : Sys W)
      → code ≢ rx_ok
      → s.handle ≡ h
      → xs ≡ incoming s.world
      → After
          (λ a. FedFrom h xs a.0)
          (rx_received p next (record { code = code; budget = budget; byte = c }) s)
  unfolding rx_received feed_all
  received_nothing rx_ok budget c next h xs s n same took = absurd (n refl)
  received_nothing rx_timeout budget c next h xs s n same took = ([], tt, took, same)
  received_nothing rx_io_error budget c next h xs s n same took = ([], tt, took, same)

  rx_received-Fed :
      (next : ℕ → Exec W (RxCode × ℕ)) (g : Got) (h : Handle) (xs : Text) (s : Sys W)
      → ((b : ℕ) (s' : Sys W) → After (Fed s') (next b s'))
      → TakenFrom h xs g s
      → After (λ a. FedFrom h xs a.0) (rx_received p next g s)
  rx_received-Fed next g h xs s rec (same, inr (n, took)) =
      received_nothing g.code g.budget g.byte next h xs s n same took
  rx_received-Fed next g h xs s rec (same, inl (is_ok, took)) =
      subst₃
        (λ k ys code.
          After (λ a. FedFrom k ys a.0)
            (rx_received p next (record { code = code; budget = g.budget; byte = g.byte }) s))
        same (sym took) (sym is_ok) (received_byte next g.budget g.byte s rec)

  rx_line-Fed : (fuel budget : ℕ) (s : Sys W) → After (Fed s) (rx_line p fuel budget s)
  unfolding rx_line
  rx_line-Fed zero budget s = tt
  rx_line-Fed (suc fuel) budget s =
      After-bind (Taken s) (Fed s) (rx_getc p (suc fuel) budget) _ s
        (rx_getc-Taken (suc fuel) budget s)
        λ g s' t.
          rx_received-Fed (λ b. rx_line p fuel b) g s.handle (incoming s.world) s'
            (rx_line-Fed fuel) t

  -- What a client of rx_line sees.
  abbrev pub LineRead : Sys W → RxCode → Sys W → Type 0
  LineRead s rx_ok s' =
      (run : Text) × NoLf run
      × (incoming s.world ≡ run ++ (lf ∷ incoming s'.world))
      × (current_line s'.handle ≡ c_str (clip (held s.handle ++ strip_cr run)))
      × (held s'.handle ≡ [])
  LineRead s _ s' =
      (run : Text) × NoLf run
      × (incoming s.world ≡ run ++ incoming s'.world)
      × (held s'.handle ≡ clip (held s.handle ++ strip_cr run))

  LineRead-of_Fed :
      (s : Sys W) (rc : RxCode) (s' : Sys W)
      → IsValid s.handle
      → FedFrom s.handle (incoming s.world) rc s'
      → LineRead s rc s'
  LineRead-of_Fed s rx_ok s' v (run, free, took, fed) =
      let (line, empty, _) = feed_line s.handle run v free in
      (run, free, took, ap current_line fed ∙ line, ap held fed ∙ empty)
  LineRead-of_Fed s rx_timeout s' v (run, free, took, fed) =
      (run, free, took, ap held fed ∙ held-feed_all s.handle run v free)
  LineRead-of_Fed s rx_io_error s' v (run, free, took, fed) =
      (run, free, took, ap held fed ∙ held-feed_all s.handle run v free)

  -- On a stream, rx_line takes the bytes up to and with the first LF, and no byte behind it, and the line
  -- is what was held with those bytes, less CRs, cut to 2047 bytes, up to its first NUL. If it returns a
  -- timeout or an error instead, it took no LF, and holds the partial line for the next call.
  pub rx_line_lem :
      (fuel budget : ℕ) (s : Sys W)
      → IsValid s.handle
      → After (λ a s'. LineRead s a.0 s') (rx_line p fuel budget s)
  rx_line_lem fuel budget s v =
      After-weaken (Fed s) (λ a s'. LineRead s a.0 s') (rx_line p fuel budget s)
        (λ a s'. LineRead-of_Fed s a.0 s' v) (rx_line-Fed fuel budget s)
