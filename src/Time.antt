-- ===== src/Time.antt =====
-- src/ec200_time.c: the clock.
use ec200_at_abstraction.Prelude.{
  ℕ, ◌+◌, ◌-◌, ◌/◌, ◌%◌, ◌^◌, ℤ, pos, negsuc, Bool, ◌||◌, List, [], ◌∷◌, ◌++◌, Option, none, some,
  leb, ltb, ◌==◌, if◌then◌else◌, length, get_or,
}
use ec200_at_abstraction.Text.{Text, codes, cut, decimal}
use ec200_at_abstraction.Text.Scanf.{scan_numbers}
use ec200_at_abstraction.Handle.{Platform, Status, ok, err_param, err_parse, timeout_default}
use ec200_at_abstraction.Exec.{Exec, pure, ◌>>=◌, if_ok, if_ok_else}
use ec200_at_abstraction.Query.{result_field, send_command, query, await_urc}
use ec200_at_abstraction.At.Field.{after_colon}
use ec200_at_abstraction.Tcpip.Socket.{max_url_len, bad_context}
use ec200_at_abstraction.Cast.{to_unsigned}
pub mod Printed
pub mod Clock

-- ec200_datetime_t
pub record Datetime : Type 0 where
  pub year : ℕ
  pub month : ℕ
  pub day : ℕ
  pub hour : ℕ
  pub minute : ℕ
  pub second : ℕ
  pub tz_quarters : ℤ

-- memset(dt, 0, sizeof(*dt))
abbrev pub datetime_cleared : Datetime
datetime_cleared = record {
  year = 0;
  month = 0;
  day = 0;
  hour = 0;
  minute = 0;
  second = 0;
  tz_quarters = pos 0;
}

-- What sscanf converts in parse_timestamp; the zone is 0 where it is missing.
pub record Scanned : Type 0 where
  pub yy : ℤ
  pub mo : ℤ
  pub dd : ℤ
  pub hh : ℤ
  pub mi : ℤ
  pub ss : ℤ
  pub tz : ℤ

-- low <= z && z <= high
unfoldable pub in_range : ℕ → ℕ → ℤ → Bool
in_range low high (pos n) = if leb low n then leb n high else Bool.false
in_range low high (negsuc n) = Bool.false

-- The cast of an int to int8_t.
unfoldable pub to_int8 : ℤ → ℤ
unfolding to_unsigned
to_int8 z = let u = to_unsigned 8 z in if ltb u 128 then pos u else negsuc (255 - u)

-- 2000 + yy
unfoldable pub full_year : ℤ → ℤ
full_year (pos n) = pos (2000 + n)
full_year (negsuc n) = if ltb n 2000 then pos (1999 - n) else negsuc (n - 2000)

-- The fields that parse_timestamp accepts.
unfoldable pub scanned_well : Scanned → Bool
unfolding in_range
scanned_well t =
    if in_range 1 12 t.mo
    then (if in_range 1 31 t.dd
        then (if in_range 0 23 t.hh
            then (if in_range 0 59 t.mi then in_range 0 60 t.ss else Bool.false)
            else Bool.false)
        else Bool.false)
    else Bool.false

-- The casts at the end of parse_timestamp.
unfoldable pub to_datetime : Scanned → Datetime
unfolding to_unsigned to_int8 full_year
to_datetime t = record {
  year = to_unsigned 16 (full_year t.yy);
  month = to_unsigned 8 t.mo;
  day = to_unsigned 8 t.dd;
  hour = to_unsigned 8 t.hh;
  minute = to_unsigned 8 t.mi;
  second = to_unsigned 8 t.ss;
  tz_quarters = to_int8 t.tz;
}

-- The text behind the first quote, if there is one.
unfoldable pub unquoted : Text → Text
unquoted s = elim (cut b'"' s) [ none ↦ s | some (_, rest) ↦ rest ]

-- "%d/%d/%d,%d:%d:%d%d"
abbrev pub timestamp_format : List (Option ℕ)
timestamp_format = none ∷ some b'/' ∷ some b'/' ∷ some b',' ∷ some b':' ∷ some b':' ∷ none ∷ []

-- The variables behind sscanf, when at least six are converted.
unfoldable pub scanned : List ℤ → Option Scanned
scanned (yy ∷ mo ∷ dd ∷ hh ∷ mi ∷ ss ∷ rest) =
    some
      (record { yy = yy; mo = mo; dd = dd; hh = hh; mi = mi; ss = ss; tz = get_or rest 0 (pos 0) })
scanned numbers = none

-- parse_timestamp
unfoldable pub parse_timestamp : Text → Datetime → Status × Datetime
unfolding unquoted scanned_well to_datetime scanned scan_numbers
parse_timestamp s dt = elim (scanned (scan_numbers timestamp_format (unquoted s))) [
  | none ↦ (err_parse, dt)
  | some t ↦ if scanned_well t then (ok, to_datetime t) else (err_parse, dt)
]

-- The guards of ec200_time_set.
unfoldable pub bad_datetime : Datetime → Bool
bad_datetime dt =
    ltb dt.year 2000
    || ltb 2099 dt.year
    || ltb dt.month 1
    || ltb 12 dt.month
    || ltb dt.day 1
    || ltb 31 dt.day
    || ltb 23 dt.hour
    || ltb 59 dt.minute
    || ltb 59 dt.second

-- "%02u" of a number below 100.
abbrev pub two_digits : ℕ → Text
two_digits n = if ltb n 10 then b'0' ∷ decimal n else decimal n

-- "%+03d" of an int8_t.
abbrev pub zone : ℤ → Text
zone (pos n) = b'+' ∷ two_digits n
zone (negsuc n) = b'-' ∷ two_digits (n + 1)

-- <yy>/<MM>/<dd>,<hh>:<mm>:<ss><zz>, and what follows.
abbrev pub clock_text : Datetime → Text → Text
clock_text dt rest =
    two_digits (dt.year - 2000)
    ++ (codes "/"
        ++ (two_digits dt.month
            ++ (codes "/"
                ++ (two_digits dt.day
                    ++ (codes ","
                        ++ (two_digits dt.hour
                            ++ (codes ":"
                                ++ (two_digits dt.minute
                                    ++ (codes ":"
                                        ++ (two_digits dt.second
                                            ++ (zone dt.tz_quarters ++ rest)))))))))))

-- AT+CCLK="<time>"
abbrev pub set_command : Datetime → Text
set_command dt = codes "AT+CCLK=\"" ++ clock_text dt (codes "\"")

module _ {W : Type 0} (p : Platform W) (fuel : ℕ) where
  -- The queries of the module's clock and of the network's time.
  unfoldable pub time_query : Text → Text → ℕ → Exec W (Status × Datetime)
  unfolding parse_timestamp
  time_query cmd prefix size = do
    (st, resp) ← query p fuel cmd prefix size timeout_default
    if_ok_else st datetime_cleared (pure (parse_timestamp (after_colon resp) datetime_cleared))

  -- ec200_time_get; its result is set to 0 first.
  unfoldable pub time_get : Exec W (Status × Datetime)
  unfolding time_query
  time_get = time_query (codes "AT+CCLK?") (codes "+CCLK:") 80

  -- ec200_time_get_network
  unfoldable pub time_get_network : Exec W (Status × Datetime)
  unfolding time_query
  time_get_network = time_query (codes "AT+QLTS=2") (codes "+QLTS:") 96

  -- ec200_time_set; a NULL pointer is `none`.
  unfoldable pub time_set : Option Datetime → Exec W Status
  unfolding bad_datetime
  time_set none = pure err_param
  time_set (some dt) =
      if bad_datetime dt
      then pure err_param
      else send_command p fuel (set_command dt) timeout_default

  -- ec200_time_set_auto_update
  unfoldable pub time_set_auto_update : Bool → Exec W Status
  time_set_auto_update enable =
      send_command p fuel (codes "AT+CTZU=" ++ (if enable then codes "1" else codes "0"))
        timeout_default

  -- ec200_time_sync_ntp; a NULL server is `none`.
  unfoldable pub time_sync_ntp : ℕ → Option Text → ℕ → ℕ → Exec W Status
  unfolding result_field
  time_sync_ntp pdp_ctx (some (c ∷ server)) port timeout_ms =
      if bad_context pdp_ctx || leb max_url_len (length (c ∷ server)) then pure err_param else do
        (st, resp) ←
            await_urc p fuel
              (codes "AT+QNTP="
                ++ (decimal pdp_ctx
                    ++ (codes ",\""
                        ++ ((c ∷ server)
                            ++ (codes "\"," ++ decimal (if port == 0 then 123 else port))))))
              (codes "+QNTP:") 96 timeout_ms
        if_ok st (pure (result_field resp 0))
  time_sync_ntp pdp_ctx server port timeout_ms = pure err_param
