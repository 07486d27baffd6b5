-- ===== src/Time/Clock.antt =====
-- A time that ec200_time_set accepts, and how it is read back.
use ec200_at_abstraction.Prelude.{
  ℕ, ◌-◌, ◌%◌, ◌^◌, ◌≤◌, ◌<◌, ◌≡◌, ap, ◌∙◌, ℤ, pos, negsuc, true, false, Option, none, some, arith,
  if_true, if_false, ltb, List, [], ◌∷◌, ◌++◌, refl,
}
use ec200_at_abstraction.Text.{Text, codes, is_digit}
use ec200_at_abstraction.Text.Laws.{Free, cut-append}
use ec200_at_abstraction.Text.Decimal.{Stops}
use ec200_at_abstraction.Text.Scanf.{scan_mark, scan_numbers, scan_numbers-strtol}
use ec200_at_abstraction.Time.Printed.{
  IsInt8, zone-Stops, strtol-zone, scan_numbers-done, scan_numbers-two_digits,
}
use ec200_at_abstraction.Handle.{ok}
use ec200_at_abstraction.Cast.{to_unsigned}
use ec200_at_abstraction.Time.{
  Datetime, Scanned, in_range, to_int8, full_year, scanned_well, to_datetime, unquoted,
  parse_timestamp, bad_datetime, timestamp_format, scanned, two_digits, zone, clock_text,
  set_command,
}

-- The numbers that stand in the text of ec200_time_set.
abbrev pub printed_fields : Datetime → Scanned
printed_fields dt = record {
  yy = pos (dt.year - 2000);
  mo = pos dt.month;
  dd = pos dt.day;
  hh = pos dt.hour;
  mi = pos dt.minute;
  ss = pos dt.second;
  tz = dt.tz_quarters;
}

to_int8-IsInt8 : (z : ℤ) → IsInt8 z → to_int8 z ≡ z
unfolding to_int8 to_unsigned
to_int8-IsInt8 (pos n) h = if_true (ltb (n % 2 ^ 8) 128) _ _ (ground arith) ∙ ap pos (omega arith)
to_int8-IsInt8 (negsuc n) h =
    if_false (ltb (2 ^ 8 - 1 - n % 2 ^ 8) 128) _ _ (ground arith) ∙ ap negsuc (omega arith)

accepted_well : (dt : Datetime) → bad_datetime dt ≡ false → scanned_well (printed_fields dt) ≡ true
unfolding bad_datetime scanned_well in_range
accepted_well dt h = ground (arith, h)

abbrev datetime : ℕ → ℕ → ℕ → ℕ → ℕ → ℕ → ℤ → Datetime
datetime year month day hour minute second tz = record {
  year = year;
  month = month;
  day = day;
  hour = hour;
  minute = minute;
  second = second;
  tz_quarters = tz;
}

abbrev Small : Datetime → Type 0
Small dt =
    (2000 ≤ dt.year)
    × (dt.year ≤ 2099)
    × (dt.month < 256)
    × (dt.day < 256)
    × (dt.hour < 256)
    × (dt.minute < 256)
    × (dt.second < 256)

bad_datetime-Small : (dt : Datetime) → bad_datetime dt ≡ false → Small dt
unfolding bad_datetime
bad_datetime-Small dt h = ground (arith, h)

to_datetime-printed_fields :
    (dt : Datetime) → Small dt → IsInt8 dt.tz_quarters → to_datetime (printed_fields dt) ≡ dt
unfolding to_datetime to_unsigned full_year
to_datetime-printed_fields dt (low, high, mo, dd, hh, mi, ss) tz =
    let d = datetime in
    ap
      (λ k.
        d k (dt.month % 2 ^ 8) (dt.day % 2 ^ 8) (dt.hour % 2 ^ 8) (dt.minute % 2 ^ 8)
          (dt.second % 2 ^ 8) (to_int8 dt.tz_quarters))
      (omega arith)
    ∙ ap
        (λ k.
          d dt.year k (dt.day % 2 ^ 8) (dt.hour % 2 ^ 8) (dt.minute % 2 ^ 8) (dt.second % 2 ^ 8)
            (to_int8 dt.tz_quarters))
        (omega arith)
    ∙ ap
        (λ k.
          d dt.year dt.month k (dt.hour % 2 ^ 8) (dt.minute % 2 ^ 8) (dt.second % 2 ^ 8)
            (to_int8 dt.tz_quarters))
        (omega arith)
    ∙ ap
        (λ k.
          d dt.year dt.month dt.day k (dt.minute % 2 ^ 8) (dt.second % 2 ^ 8)
            (to_int8 dt.tz_quarters))
        (omega arith)
    ∙ ap (λ k. d dt.year dt.month dt.day dt.hour k (dt.second % 2 ^ 8) (to_int8 dt.tz_quarters))
        (omega arith)
    ∙ ap (λ k. d dt.year dt.month dt.day dt.hour dt.minute k (to_int8 dt.tz_quarters)) (omega arith)
    ∙ ap (d dt.year dt.month dt.day dt.hour dt.minute dt.second) (to_int8-IsInt8 dt.tz_quarters tz)

parse_timestamp_lem :
    (s : Text) (dt : Datetime) (t : Scanned)
    → scanned (scan_numbers timestamp_format (unquoted s)) ≡ some t
    → scanned_well t ≡ true
    → parse_timestamp s dt ≡ (ok, to_datetime t)
unfolding parse_timestamp
parse_timestamp_lem s dt t e w = rw (parse_timestamp, e) (if_true (scanned_well t) _ _ w)

abbrev numbers : Scanned → List ℤ
numbers t = t.yy ∷ t.mo ∷ t.dd ∷ t.hh ∷ t.mi ∷ t.ss ∷ t.tz ∷ []

-- sscanf converts the seven numbers of a printed time.
scan_numbers-clock_text :
    (dt : Datetime) (rest : Text)
    → Small dt
    → IsInt8 dt.tz_quarters
    → Stops rest
    → scan_numbers timestamp_format (clock_text dt rest) ≡ numbers (printed_fields dt)
unfolding scan_mark is_digit
scan_numbers-clock_text dt rest (low, high, mo, dd, hh, mi, ss) tz stops =
    let at_zone : Text = zone dt.tz_quarters ++ rest in
    let at_ss : Text = b':' ∷ (two_digits dt.second ++ at_zone) in
    let at_mi : Text = b':' ∷ (two_digits dt.minute ++ at_ss) in
    let at_hh : Text = b',' ∷ (two_digits dt.hour ++ at_mi) in
    let at_dd : Text = b'/' ∷ (two_digits dt.day ++ at_hh) in
    let at_mo : Text = b'/' ∷ (two_digits dt.month ++ at_dd) in
    let number = scan_numbers-two_digits in
    let zoned : List (Option ℕ) = none ∷ [] in
    let from_ss : List (Option ℕ) = some b':' ∷ zoned in
    let from_mi : List (Option ℕ) = some b':' ∷ from_ss in
    let from_hh : List (Option ℕ) = some b',' ∷ from_mi in
    let from_dd : List (Option ℕ) = some b'/' ∷ from_hh in
    let from_mo : List (Option ℕ) = some b'/' ∷ from_dd in
    let f = printed_fields dt in
    number none from_mo (clock_text dt rest) (dt.year - 2000) at_mo refl (omega arith) refl
    ∙ ap (λ t. f.yy ∷ t) (number (some b'/') from_dd at_mo dt.month at_dd refl (omega arith) refl)
    ∙ ap (λ t. f.yy ∷ f.mo ∷ t)
        (number (some b'/') from_hh at_dd dt.day at_hh refl (omega arith) refl)
    ∙ ap (λ t. f.yy ∷ f.mo ∷ f.dd ∷ t)
        (number (some b',') from_mi at_hh dt.hour at_mi refl (omega arith) refl)
    ∙ ap (λ t. f.yy ∷ f.mo ∷ f.dd ∷ f.hh ∷ t)
        (number (some b':') from_ss at_mi dt.minute at_ss refl (omega arith) refl)
    ∙ ap (λ t. f.yy ∷ f.mo ∷ f.dd ∷ f.hh ∷ f.mi ∷ t)
        (number (some b':') zoned at_ss dt.second at_zone refl (omega arith)
          (zone-Stops dt.tz_quarters rest))
    ∙ ap (λ t. f.yy ∷ f.mo ∷ f.dd ∷ f.hh ∷ f.mi ∷ f.ss ∷ t)
        (scan_numbers-strtol none [] at_zone at_zone rest dt.tz_quarters refl
            (strtol-zone dt.tz_quarters rest tz stops)
          ∙ ap (λ t. dt.tz_quarters ∷ t) (scan_numbers-done rest))

unquoted-append : (lead rest : Text) → Free b'"' lead → unquoted (lead ++ (b'"' ∷ rest)) ≡ rest
unfolding unquoted
unquoted-append lead rest free = rw (unquoted, cut-append b'"' lead rest free) refl

parse_timestamp-quoted :
    (dt before : Datetime) (lead rest : Text)
    → bad_datetime dt ≡ false
    → IsInt8 dt.tz_quarters
    → Free b'"' lead
    → parse_timestamp (lead ++ (b'"' ∷ clock_text dt (b'"' ∷ rest))) before ≡ (ok, dt)
unfolding is_digit scanned
parse_timestamp-quoted dt before lead rest good tz free =
    let small = bad_datetime-Small dt good in
    parse_timestamp_lem (lead ++ (b'"' ∷ clock_text dt (b'"' ∷ rest))) before (printed_fields dt)
      (ap (λ t. scanned (scan_numbers timestamp_format t))
          (unquoted-append lead (clock_text dt (b'"' ∷ rest)) free)
        ∙ ap scanned (scan_numbers-clock_text dt (b'"' ∷ rest) small tz refl))
      (accepted_well dt good)
    ∙ ap (λ d. (ok, d)) (to_datetime-printed_fields dt small tz)

-- A time that ec200_time_set accepts, with a zone that int8_t holds, is read back by parse_timestamp, with
-- EC200_OK, from the command that ec200_time_set sends, and from every text in which it stands printed as
-- there behind the first quote, and a quote behind it.
pub parse_timestamp-clock_text :
    (dt before : Datetime) (lead rest : Text)
    → bad_datetime dt ≡ false
    → IsInt8 dt.tz_quarters
    → Free b'"' lead
    → (parse_timestamp (set_command dt) before ≡ (ok, dt))
      × (parse_timestamp (lead ++ (b'"' ∷ clock_text dt (b'"' ∷ rest))) before ≡ (ok, dt))
parse_timestamp-clock_text dt before lead rest good tz free = (
  parse_timestamp-quoted dt before (codes "AT+CCLK=") [] good tz (omega arith),
  parse_timestamp-quoted dt before lead rest good tz free,
)
