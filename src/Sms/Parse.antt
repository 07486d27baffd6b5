-- ===== src/Sms/Parse.antt =====
-- src/ec200_sms.c: the parsers of the replies on storage, the service centre and the indication of new
-- messages.
use ec200_at_abstraction.Prelude.{
  ℕ, zero, suc, ◌+◌, ◌*◌, ◌%◌, ◌^◌, ℤ, pos, negsuc, List, [], ◌∷◌, ◌++◌, Option, none, some, leb,
  ltb, if◌then◌else◌, length, replicate,
}
use ec200_at_abstraction.Text.{Text, codes, c_str, starts_with, text_eq, memcpy_at}
use ec200_at_abstraction.Handle.{Status, ok, err_param, err_parse, err_overflow}
use ec200_at_abstraction.At.Field.{parse_int_field}
use ec200_at_abstraction.Sms.Header.{extract_quoted, next_quoted}

-- mem_strings; the storage is the value of its enumerator.
abbrev pub mem_string : ℕ → Text
mem_string zero = codes "SM"
mem_string (suc zero) = codes "ME"
mem_string _ = codes "MT"

-- SMS_MEM_COUNT
abbrev pub sms_mem_count : ℕ
sms_mem_count = 3

-- mem_from_string; `none` is false.
unfoldable pub mem_from_string : Text → Option ℕ
mem_from_string s =
    if text_eq s (mem_string 0)
    then some 0
    else if text_eq s (mem_string 1)
    then some 1
    else if text_eq s (mem_string 2)
    then some 2
    else none

-- ec200_sms_mem_usage_t
pub record MemUsage : Type 0 where
  pub used : ℕ
  pub total : ℕ

-- ec200_sms_storage_t
pub record Storage : Type 0 where
  pub read_delete : MemUsage
  pub write_send : MemUsage
  pub receive : MemUsage

-- A round of parse_cpms_usage: the two numbers from field `base` on, cast to uint16_t.
unfoldable pub usage_at : Text → ℕ → Option MemUsage
usage_at line base = elim (parse_int_field line base) [
  | none ↦ none
  | some used ↦ elim (parse_int_field line (base + 1)) [
    | none ↦ none
    | some total ↦ words used total
  ]
]
  where
    words : ℤ → ℤ → Option MemUsage
    words (pos used) (pos total) = some (record { used = used % 2 ^ 16; total = total % 2 ^ 16 })
    words used total = none

-- parse_cpms_usage: a round that fails leaves what the rounds before it have stored.
unfoldable pub parse_cpms_usage : Text → ℕ → ℕ → Storage → Status × Storage
unfolding usage_at
parse_cpms_usage line first stride out = elim (usage_at line first) [
  | none ↦ (err_parse, out)
  | some u ↦ elim (usage_at line (first + stride)) [
    | none ↦ (err_parse, record out { read_delete = u })
    | some v ↦ elim (usage_at line (first + 2 * stride)) [
      | none ↦ (err_parse, record out { read_delete = u; write_send = v })
      | some w ↦ (ok, record { read_delete = u; write_send = v; receive = w })
    ]
  ]
]

-- ec200_sms_cnmi_t
pub record Cnmi : Type 0 where
  pub mode : ℕ
  pub mt : ℕ
  pub bm : ℕ
  pub ds : ℕ
  pub bfr : ℕ

-- A field of ec200_sms_get_indication.
unfoldable pub byte_at : Text → ℕ → Option ℕ
byte_at resp i = elim (parse_int_field resp i) [
  | none ↦ none
  | some (pos v) ↦ if ltb 255 v then none else some v
  | some (negsuc v) ↦ none
]

-- The part of ec200_sms_get_indication behind its query: all five fields, or none.
unfoldable pub parse_cnmi : Text → Option Cnmi
unfolding byte_at
parse_cnmi resp = elim (byte_at resp 0) [
  | none ↦ none
  | some mode ↦ elim (byte_at resp 1) [
    | none ↦ none
    | some mt ↦ elim (byte_at resp 2) [
      | none ↦ none
      | some bm ↦ elim (byte_at resp 3) [
        | none ↦ none
        | some ds ↦ elim (byte_at resp 4) [
          | none ↦ none
          | some bfr ↦ some (record { mode = mode; mt = mt; bm = bm; ds = ds; bfr = bfr })
        ]
      ]
    ]
  ]
]

-- ec200_sms_notification_t
pub record Notification : Type 0 where
  pub mem : ℕ
  pub index : ℤ

-- The index of a notification whose storage is stored already.
unfoldable pub notified_index : Text → Notification → Status × Notification
notified_index line out = elim (parse_int_field line 1) [
  | none ↦ (err_parse, out)
  | some (pos index) ↦ (ok, record out { index = pos index })
  | some (negsuc _) ↦ (err_parse, out)
]

-- ec200_sms_parse_notification into `*out`; a NULL line is `none`.
unfoldable pub sms_parse_notification : Option Text → Notification → Status × Notification
unfolding mem_from_string notified_index
sms_parse_notification none out = (err_param, out)
sms_parse_notification (some line) out =
    if starts_with (codes "+CMTI:") line
    then elim (extract_quoted line (replicate 8 0)) [
      | none ↦ (err_parse, out)
      | some (mem_str, _) ↦ elim (mem_from_string (c_str mem_str)) [
        | none ↦ (err_parse, out)
        | some mem ↦ notified_index line (record out { mem = mem })
      ]
    ]
    else (err_parse, out)

-- The part of ec200_sms_get_smsc behind its query: a number that does not fit is refused, not cut.
unfoldable pub store_smsc : Text → List ℕ → Status × List ℕ
store_smsc resp out = elim (next_quoted resp) [
  | none ↦ (err_parse, out)
  | some (number, _) ↦
      if leb (length out) (length number)
      then (err_overflow, out)
      else (ok, memcpy_at 0 (number ++ (0 ∷ [])) out)
]

-- `if (usage_out == NULL) return EC200_OK;` before the parser.
abbrev pub storage_received : Text → Option Storage → Status × Option Storage
storage_received resp none = (ok, none)
storage_received resp (some out) = let (st, out') = parse_cpms_usage resp 0 2 out in (st, some out')
