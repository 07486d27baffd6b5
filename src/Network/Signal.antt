-- ===== src/Network/Signal.antt =====
-- src/ec200_network.c: the signal quality.
use ec200_at_abstraction.Prelude.{
  ℕ, ◌-◌, ◌*◌, ◌≤◌, ◌≡◌, refl, ℤ, pos, negsuc, ◌⊎◌, inl, inr, List, [], ◌∷◌, Option, none, some,
  ltb, if◌then◌else◌, arith, if-elim, option-elim,
}
use ec200_at_abstraction.Cast.{to_unsigned, to_signed}
use ec200_at_abstraction.Text.{Text, codes, cut}
use ec200_at_abstraction.Handle.{Platform, Status, ok, err_param, err_parse, timeout_default}
use ec200_at_abstraction.Exec.{Exec, pure, ◌>>=◌, if_ok_else}
use ec200_at_abstraction.At.Field.{after_colon}
use ec200_at_abstraction.Query.{query}

-- ec200_signal_quality_t
pub record SignalQuality : Type 0 where
  pub rssi : ℤ
  pub ber : ℕ
  pub rsrp : ℤ
  pub sinr : ℤ

-- EC200_SIGNAL_UNKNOWN
abbrev pub signal_unknown : ℤ
signal_unknown = negsuc 32767

-- The conversion of ec200_net_get_signal: -113 + 2 * raw for a raw value of 0 to 31, or 0.
unfoldable pub rssi_of : ℤ → ℤ
rssi_of (negsuc n) = pos 0
rssi_of (pos raw) = if ltb 31 raw then pos 0 else negsuc (112 - raw * 2)

-- The part of ec200_net_get_signal behind its query. `scan` is its sscanf call: the two numbers, when
-- both are converted.
unfoldable pub signal_parse :
    (Text → Option (ℤ × ℤ)) → Text → SignalQuality → Status × SignalQuality
unfolding rssi_of to_unsigned
signal_parse scan resp sq = elim (scan (after_colon resp)) [
  | none ↦ (err_parse, sq)
  | some (raw, ber) ↦ (
    ok,
    record {
      rssi = rssi_of raw;
      ber = to_unsigned 8 ber;
      rsrp = signal_unknown;
      sinr = signal_unknown;
    },
  )
]

-- The value of ec200_net_get_signal_ext that stands in a list of converted numbers, or the sentinel.
unfoldable pub or_unknown : List ℤ → ℤ
unfolding to_signed
or_unknown [] = signal_unknown
or_unknown (z ∷ rest) = to_signed 16 z

-- The numbers of +QCSQ, with `ber` 99.
unfoldable pub ext_quality : List ℤ → SignalQuality → Status × SignalQuality
unfolding or_unknown to_signed
ext_quality [] sq = (err_parse, sq)
ext_quality (rssi ∷ []) sq = (
  ok,
  record { rssi = to_signed 16 rssi; ber = 99; rsrp = signal_unknown; sinr = signal_unknown },
)
ext_quality (rssi ∷ rsrp ∷ rest) sq = (
  ok,
  record { rssi = to_signed 16 rssi; ber = 99; rsrp = to_signed 16 rsrp; sinr = or_unknown rest },
)

-- The part of ec200_net_get_signal_ext behind its query. `scan` is its sscanf call: the numbers that are
-- converted, at most three.
unfoldable pub signal_ext_parse : (Text → List ℤ) → Text → SignalQuality → Status × SignalQuality
unfolding ext_quality
signal_ext_parse scan resp sq = elim (cut b',' resp) [
  | none ↦ (err_parse, sq)
  | some (_, numbers) ↦ ext_quality (scan numbers) sq
]

module _ {W : Type 0} (p : Platform W) (fuel : ℕ) (scan : Text → Option (ℤ × ℤ)) where
  -- ec200_net_get_signal; a NULL result is `none`.
  unfoldable pub net_get_signal : Option SignalQuality → Exec W (Status × Option SignalQuality)
  unfolding signal_parse
  net_get_signal none = pure (err_param, none)
  net_get_signal (some sq) = do
    (st, resp) ← query p fuel (codes "AT+CSQ") (codes "+CSQ:") 64 timeout_default
    let (st', sq') = signal_parse scan resp sq
    if_ok_else st (some sq) (pure (st', some sq'))

  -- ec200_net_get_signal_ext behind its query: any error falls back to ec200_net_get_signal.
  unfoldable pub signal_ext_received :
      (Text → List ℤ) → SignalQuality → Status × Text → Exec W (Status × Option SignalQuality)
  unfolding net_get_signal signal_ext_parse
  signal_ext_received scan_ext sq (ok, resp) =
      let (st, sq') = signal_ext_parse scan_ext resp sq in pure (st, some sq')
  signal_ext_received scan_ext sq (st, resp) = net_get_signal (some sq)

  -- ec200_net_get_signal_ext
  unfoldable pub net_get_signal_ext :
      (Text → List ℤ) → Option SignalQuality → Exec W (Status × Option SignalQuality)
  unfolding signal_ext_received
  net_get_signal_ext scan_ext none = pure (err_param, none)
  net_get_signal_ext scan_ext (some sq) =
      query p fuel (codes "AT+QCSQ") (codes "+QCSQ:") 128 timeout_default
      >>= signal_ext_received scan_ext sq

-- -(n + 1) between -113 and -51, or 0.
abbrev pub IsDbm : ℤ → Type 0
IsDbm (pos n) = n ≡ 0
IsDbm (negsuc n) = (50 ≤ n) × (n ≤ 112)

-- The quality that a call may leave: the documented ranges, with the LTE values unknown.
pub record IsBasic (q : SignalQuality) : Type 0 where
  pub rssi_dbm : IsDbm q.rssi
  pub ber_byte : q.ber ≤ 255
  pub rsrp_unknown : q.rsrp ≡ signal_unknown
  pub sinr_unknown : q.sinr ≡ signal_unknown

rssi_of-IsDbm : (z : ℤ) → IsDbm (rssi_of z)
unfolding rssi_of
rssi_of-IsDbm (negsuc n) = refl
rssi_of-IsDbm (pos raw) = if-elim IsDbm (ltb 31 raw) _ _ (λ _. refl) λ l. ground (arith, l)

to_unsigned_byte : (z : ℤ) → to_unsigned 8 z ≤ 255
unfolding to_unsigned
to_unsigned_byte (pos n) = omega arith
to_unsigned_byte (negsuc n) = omega arith

-- Either the quality is in the documented ranges, or the reply was refused and nothing was stored.
abbrev pub Measured : SignalQuality → Status × SignalQuality → Type 0
Measured sq (st, sq') = ((st ≡ ok) × IsBasic sq') ⊎ ((st ≡ err_parse) × (sq' ≡ sq))

-- Whatever two numbers sscanf converts from a +CSQ line, or if it does not, ec200_net_get_signal stores an
-- RSSI between -113 and -51 dBm or 0, a bit error rate of one byte, and unknown LTE values, with
-- EC200_OK, or it returns EC200_ERR_PARSE and stores nothing.
pub signal_parse-Measured :
    (scan : Text → Option (ℤ × ℤ)) (resp : Text) (sq : SignalQuality)
    → Measured sq (signal_parse scan resp sq)
unfolding signal_parse
signal_parse-Measured scan resp sq =
    option-elim (Measured sq) (scan (after_colon resp)) _ _ (λ _. inr (refl, refl))
      λ (raw, ber) _. inl (
        refl,
        record {
          rssi_dbm = rssi_of-IsDbm raw;
          ber_byte = to_unsigned_byte ber;
          rsrp_unknown = refl;
          sinr_unknown = refl;
        },
      )
