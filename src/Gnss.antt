-- ===== src/Gnss.antt =====
-- src/ec200_gnss.c: the positioning receiver.
use ec200_at_abstraction.Prelude.{
  ℕ, ℤ, pos, negsuc, Bool, false, List, [], ◌∷◌, ◌++◌, Option, none, some, ltb, ◌==◌, if◌then◌else◌,
  replicate,
}
use ec200_at_abstraction.Cast.{to_unsigned}
use ec200_at_abstraction.Text.{Text, codes, decimal, skip_spaces, cut, memcpy_at}
use ec200_at_abstraction.Handle.{Platform, Status, ok, err_param, err_parse, timeout_default}
use ec200_at_abstraction.Exec.{Exec, pure, ◌>>=◌, if_ok, if_ok_else}
use ec200_at_abstraction.At.Field.{parse_int_field}
use ec200_at_abstraction.Query.{send_command, query}

-- The end of ec200_gnss_get_status: state == 1.
unfoldable pub gnss_state : Text → Option Bool
gnss_state resp = elim (parse_int_field resp 0) [
  | none ↦ none
  | some (pos state) ↦ some (state == 1)
  | some (negsuc _) ↦ some false
]

module _ {W : Type 0} (p : Platform W) (fuel : ℕ) where
  -- ec200_gnss_start
  unfoldable pub gnss_start : Exec W Status
  gnss_start = send_command p fuel (codes "AT+QGPS=1") timeout_default

  -- ec200_gnss_stop
  unfoldable pub gnss_stop : Exec W Status
  gnss_stop = send_command p fuel (codes "AT+QGPSEND") timeout_default

  -- ec200_gnss_get_status; a NULL result is `none`.
  unfoldable pub gnss_get_status : Option Bool → Exec W (Status × Option Bool)
  unfolding gnss_state
  gnss_get_status none = pure (err_param, none)
  gnss_get_status (some before) = do
    (st, resp) ← query p fuel (codes "AT+QGPS?") (codes "+QGPS:") 32 timeout_default
    if_ok_else st (some before) (elim (gnss_state resp) [
      | none ↦ pure (err_parse, some before)
      | some enabled ↦ pure (ok, some enabled)
    ])

  -- ec200_gnss_set_nmea_output
  unfoldable pub gnss_set_nmea_output : ℕ → Exec W Status
  gnss_set_nmea_output nmea_types = do
    st ←
        send_command p fuel
          (codes "AT+QGPSCFG=\"nmeasrc\"," ++ (if nmea_types == 0 then codes "0" else codes "1"))
          timeout_default
    if_ok st (
        send_command p fuel (codes "AT+QGPSCFG=\"gpsnmeatype\"," ++ decimal nmea_types)
          timeout_default)

-- Floating point numbers are a type `F` with its zero and the cast of ten times a number to uint8_t.
module _ (F : Type 0) (zero_f : F) (tenths : F → ℕ) where
  -- ec200_gnss_location_t
  pub record Location : Type 0 where
    pub fix_valid : Bool
    pub latitude : F
    pub longitude : F
    pub altitude : F
    pub speed_kmh : F
    pub course : F
    pub satellites_used : ℕ
    pub hdop : ℕ
    pub utc_time : List ℕ

  -- memset(loc, 0, sizeof(*loc))
  abbrev pub location_cleared : Location
  location_cleared = record {
    fix_valid = false;
    latitude = zero_f;
    longitude = zero_f;
    altitude = zero_f;
    speed_kmh = zero_f;
    course = zero_f;
    satellites_used = 0;
    hdop = 0;
    utc_time = replicate 40 0;
  }

  -- What sscanf leaves in the variables of ec200_gnss_get_location.
  pub record LocationFields : Type 0 where
    pub utc : Text
    pub lat : F
    pub lon : F
    pub hdop : F
    pub alt : F
    pub fix_stat : ℤ
    pub cog : F
    pub spkm : F
    pub date : Text
    pub nsat : ℤ

  -- fix_stat > 0
  abbrev is_positive : ℤ → Bool
  is_positive (pos n) = ltb 0 n
  is_positive (negsuc n) = false

  -- The part of ec200_gnss_get_location behind its query. `scan` is its sscanf call: the variables, when at
  -- least two of them are converted.
  unfoldable pub location_parse :
      (Text → Option LocationFields) → Text → Location → Status × Location
  unfolding to_unsigned
  location_parse scan resp loc = elim (cut b':' resp) [
    | none ↦ (err_parse, loc)
    | some (_, behind) ↦ elim (scan (skip_spaces behind)) [
      | none ↦ (err_parse, loc)
      | some f ↦ (
        ok,
        record {
          fix_valid = is_positive f.fix_stat;
          latitude = f.lat;
          longitude = f.lon;
          altitude = f.alt;
          speed_kmh = f.spkm;
          course = f.cog;
          satellites_used = to_unsigned 8 f.nsat;
          hdop = tenths f.hdop;
          utc_time = memcpy_at 0 (f.date ++ (b' ' ∷ (f.utc ++ (0 ∷ [])))) loc.utc_time;
        },
      )
    ]
  ]

  -- ec200_gnss_get_location; a NULL result is `none`.
  unfoldable pub gnss_get_location :
      {W : Type 0}
      → Platform W
      → ℕ
      → (Text → Option LocationFields)
      → Option Location
      → Exec W (Status × Option Location)
  unfolding location_parse
  gnss_get_location p fuel scan none = pure (err_param, none)
  gnss_get_location p fuel scan (some loc) = do
    (st, resp) ← query p fuel (codes "AT+QGPSLOC=2") (codes "+QGPSLOC:") 256 timeout_default
    let (st', loc') = location_parse scan resp location_cleared
    if_ok_else st (some location_cleared) (pure (st', some loc'))
