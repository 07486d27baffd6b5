-- ===== src/Power/RoundTrip.antt =====
-- What psm_encode writes, ec200_psm_decode_timer reads back.
use ec200_at_abstraction.Prelude.{
  ℕ, zero, suc, ◌+◌, ◌*◌, ◌/◌, ◌%◌, ◌^◌, ◌≡◌, ◌≤◌, ◌<◌, refl, sym, ap, ◌∙◌, Bool, true, false, ◌&&◌,
  not, List, [], ◌∷◌, Option, none, some, ltb, leb, ◌==◌, ==_iff, if-elim, length, arith,
  append_assoc,
}
use ec200_at_abstraction.Text.{c_str, memcpy_at}
use ec200_at_abstraction.Text.Laws.{NoNul, c_str-append_nul}
use ec200_at_abstraction.Handle.{Status, ok, err_param}
use ec200_at_abstraction.Power.Timer.{
  PsmUnit, units_of, bits_from, psm_write_bits, encode_in, psm_encode, psm_decode_timer,
}

bits_from-NoNul : (k octet : ℕ) → NoNul (bits_from k octet)
unfolding bits_from
bits_from-NoNul zero octet = tt
bits_from-NoNul (suc k) octet = (ground arith, bits_from-NoNul k octet)

-- The string that psm_write_bits leaves.
c_str-psm_write_bits :
    (code mult : ℕ) (out : List ℕ)
    → c_str (psm_write_bits code mult out) ≡ bits_from 8 ((code % 8 * 32 + mult % 32) % 2 ^ 8)
unfolding psm_write_bits memcpy_at
c_str-psm_write_bits code mult out =
    let octet = (code % 8 * 32 + mult % 32) % 2 ^ 8 in
    ap c_str (append_assoc (bits_from 8 octet) (0 ∷ []) _)
    ∙ c_str-append_nul (bits_from 8 octet) _ (bits_from-NoNul 8 octet)

all_below : ℕ → (ℕ → Bool) → Bool
all_below zero test = true
all_below (suc n) test = test n && all_below n test

all_below_sound :
    (n : ℕ) (test : ℕ → Bool) (m : ℕ) → all_below n test ≡ true → m < n → test m ≡ true
unfolding all_below
all_below_sound zero test m h l = absurd (omega arith)
all_below_sound (suc n) test m h l = ground (arith, all_below_sound n test m)

value_is : Option ℕ → ℕ → Bool
value_is none n = false
value_is (some m) n = m == n

value_is_sound : (o : Option ℕ) (n : ℕ) → value_is o n ≡ true → o ≡ some n
unfolding value_is
value_is_sound none n h = cc
value_is_sound (some m) n h = ap some ((==_iff m n).0 h)

-- The octet of a unit and a multiplier is read back as their duration.
reads_back : Bool → PsmUnit → ℕ → Bool
unfolding value_is psm_decode_timer bits_from
reads_back is_tau u m =
    value_is (psm_decode_timer (bits_from 8 ((u.code % 8 * 32 + m % 32) % 2 ^ 8)) is_tau)
      (u.seconds * m)

-- What the tables promise of a unit: its octets are read back, and division by it is exact.
record Readable (is_tau : Bool) (u : PsmUnit) : Type 0 where
  all_read : all_below 32 (reads_back is_tau u) ≡ true
  exact : (s : ℕ) → s % u.seconds ≡ 0 → u.seconds * (s / u.seconds) ≡ s

abbrev AllReadable : Bool → List PsmUnit → Type 0
AllReadable is_tau [] = Unit
AllReadable is_tau (u ∷ units) = Readable is_tau u × AllReadable is_tau units

units-AllReadable : (is_tau : Bool) → AllReadable is_tau (units_of is_tau)
unfolding all_below reads_back
units-AllReadable true = (
  (record { all_read = refl; exact = λ s h. omega arith }),
  (
    (record { all_read = refl; exact = λ s h. omega arith }),
    (
      (record { all_read = refl; exact = λ s h. omega arith }),
      (
        (record { all_read = refl; exact = λ s h. omega arith }),
        (
          (record { all_read = refl; exact = λ s h. omega arith }),
          (
            (record { all_read = refl; exact = λ s h. omega arith }),
            ((record { all_read = refl; exact = λ s h. omega arith }), tt),
          ),
        ),
      ),
    ),
  ),
)
units-AllReadable false = (
  (record { all_read = refl; exact = λ s h. omega arith }),
  (
    (record { all_read = refl; exact = λ s h. omega arith }),
    ((record { all_read = refl; exact = λ s h. omega arith }), tt),
  ),
)

-- No unit of the table expresses the duration: none divides it with a quotient of at most 31.
abbrev pub NoneFits : ℕ → List PsmUnit → Type 0
NoneFits seconds [] = Unit
NoneFits seconds (u ∷ units) =
    (seconds % u.seconds ≡ 0 → 31 < seconds / u.seconds) × NoneFits seconds units

-- The outcome of an encoding into the array `out` with the units of a table.
abbrev pub EncodedIn : Bool → ℕ → List PsmUnit → List ℕ → Status × List ℕ → Type 0
EncodedIn is_tau seconds units out (ok, out') = psm_decode_timer (c_str out') is_tau ≡ some seconds
EncodedIn is_tau seconds units out (st, out') =
    (st ≡ err_param) × (out' ≡ out) × NoneFits seconds units

written :
    (is_tau : Bool) (u : PsmUnit) (seconds : ℕ) (out : List ℕ)
    → Readable is_tau u
    → seconds % u.seconds ≡ 0
    → seconds / u.seconds ≤ 31
    → psm_decode_timer (c_str (psm_write_bits u.code (seconds / u.seconds % 2 ^ 8) out)) is_tau
      ≡ some seconds
unfolding value_is reads_back
written is_tau u seconds out r e l =
    let m = seconds / u.seconds in
    let small : m % 2 ^ 8 ≡ m = omega arith in
    ap (λ n. psm_decode_timer (c_str (psm_write_bits u.code n out)) is_tau) small
    ∙ ap (λ t. psm_decode_timer t is_tau) (c_str-psm_write_bits u.code m out)
    ∙ value_is_sound _ _ (all_below_sound 32 (reads_back is_tau u) m r.all_read (omega arith))
    ∙ ap some (r.exact seconds e)

skipped :
    (is_tau : Bool) (u : PsmUnit) (units : List PsmUnit) (seconds : ℕ) (out : List ℕ)
    (r : Status × List ℕ)
    → (seconds % u.seconds ≡ 0 → 31 < seconds / u.seconds)
    → EncodedIn is_tau seconds units out r
    → EncodedIn is_tau seconds (u ∷ units) out r
skipped is_tau u units seconds out (ok, out') f h = h
skipped is_tau u units seconds out (st, out') f (e, same, h) = (e, same, (f, h))

encode_in-EncodedIn :
    (is_tau : Bool) (seconds : ℕ) (units : List PsmUnit) (out : List ℕ)
    → AllReadable is_tau units
    → EncodedIn is_tau seconds units out (encode_in seconds units out)
unfolding encode_in
encode_in-EncodedIn is_tau seconds [] out r = (refl, refl, tt)
encode_in-EncodedIn is_tau seconds (u ∷ units) out (r, rs) =
    let later = encode_in-EncodedIn is_tau seconds units out rs in
    if-elim (EncodedIn is_tau seconds (u ∷ units) out) (not (seconds % u.seconds == 0)) _ _
      (λ e. skipped is_tau u units seconds out _ (λ z. absurd (ground (arith, z, e))) later)
      λ e.
        if-elim (EncodedIn is_tau seconds (u ∷ units) out) (leb (seconds / u.seconds) 31) _ _
          (λ l. written is_tau u seconds out r (ground (arith, e)) (ground (arith, l)))
          λ l. skipped is_tau u units seconds out _ (λ z. ground (arith, l)) later

abbrev pub EncodedPtr : Bool → ℕ → List ℕ → Status × Option (List ℕ) → Type 0
EncodedPtr is_tau seconds out (st, none) = ⊥
EncodedPtr is_tau seconds out (st, some out') =
    EncodedIn is_tau seconds (units_of is_tau) out (st, out')

deactivated :
    (is_tau : Bool) (out : List ℕ)
    → psm_decode_timer (c_str (psm_write_bits 7 0 out)) is_tau ≡ some 0
unfolding psm_decode_timer bits_from
deactivated is_tau out = ap (λ t. psm_decode_timer t is_tau) (c_str-psm_write_bits 7 0 out) ∙ refl

-- Into an array of at least nine bytes, psm_encode with the table of the timer either returns EC200_OK
-- and ec200_psm_decode_timer reads the same duration back from the string, or it returns
-- EC200_ERR_PARAM, the array is unchanged, and no unit of the table divides the duration with a quotient
-- of at most 31.
pub psm_encode_lem :
    (is_tau : Bool) (seconds : ℕ) (out : List ℕ)
    → 9 ≤ length out
    → EncodedPtr is_tau seconds out (psm_encode seconds (units_of is_tau) (some out))
unfolding psm_encode
psm_encode_lem is_tau seconds out l =
    if-elim (EncodedPtr is_tau seconds out) (ltb (length out) 9) _ _
      (λ e. absurd (ground (arith, e)))
      λ _.
        if-elim (EncodedPtr is_tau seconds out) (seconds == 0) _ _
          (λ e. deactivated is_tau out ∙ ap some (sym ((==_iff seconds 0).0 e)))
          λ _. encode_in-EncodedIn is_tau seconds (units_of is_tau) out (units-AllReadable is_tau)
