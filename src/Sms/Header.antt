-- ===== src/Sms/Header.antt =====
-- src/ec200_sms.c: quoted fields, and the header lines of +CMGR and +CMGL.
use ec200_at_abstraction.Prelude.{
  ℕ, ◌+◌, ◌-◌, Bool, ◌&&◌, ℤ, pos, List, [], ◌∷◌, ◌++◌, Option, none, some, leb, if◌then◌else◌,
  length, take, replicate, get_or,
}
use ec200_at_abstraction.Cast.{to_signed}
use ec200_at_abstraction.Text.{Text, codes, c_str, cut, starts_with, strtol, memcpy_at}

-- EC200_MAX_PHONE_NUM_LEN, EC200_MAX_SMS_TEXT_LEN
abbrev pub max_phone_num_len : ℕ
max_phone_num_len = 20

abbrev pub max_sms_text_len : ℕ
max_sms_text_len = 160

-- ec200_sms_message_t; the status is the value of its enumerator.
pub record SmsMessage : Type 0 where
  pub index : ℤ
  pub stat : ℕ
  pub sender : List ℕ
  pub timestamp : List ℕ
  pub text : List ℕ

-- memset(msg, 0, sizeof(*msg))
abbrev pub cleared : SmsMessage
cleared = record {
  index = pos 0;
  stat = 0;
  sender = replicate max_phone_num_len 0;
  timestamp = replicate 24 0;
  text = replicate (max_sms_text_len + 1) 0;
}

-- stat_from_string
unfoldable pub stat_from_string : Text → ℕ
stat_from_string s =
    if starts_with (codes "REC UNREAD") s
    then 0
    else if starts_with (codes "REC READ") s
    then 1
    else if starts_with (codes "STO UNSENT") s
    then 2
    else if starts_with (codes "STO SENT") s
    then 3
    else 4

-- The quoted string that comes next, and the rest behind its closing quote.
unfoldable pub next_quoted : Text → Option (Text × Text)
next_quoted cursor = elim (cut b'"' cursor) [ none ↦ none | some (before, p) ↦ cut b'"' p ]

-- The copy in extract_quoted, cut to the array.
unfoldable pub copy_cut : Text → List ℕ → List ℕ
copy_cut s out =
    let len = if leb (length out) (length s) then length out - 1 else length s in
    memcpy_at 0 (take len s ++ (0 ∷ [])) out

-- extract_quoted: the array and the cursor behind it; `none` is false, which changes neither.
unfoldable pub extract_quoted : Text → List ℕ → Option (List ℕ × Text)
unfolding next_quoted copy_cut
extract_quoted cursor out = elim (next_quoted cursor) [
  | none ↦ none
  | some (s, rest) ↦ some (copy_cut s out, rest)
]

-- field[0] >= '0' && field[0] <= '9'
abbrev pub digit_led : List ℕ → Bool
digit_led field = leb b'0' (get_or field 0 0) && leb (get_or field 0 0) b'9'

-- The end of parse_cmgr_header: the timestamp, behind an alpha field if there is one.
unfoldable pub parse_timestamp_field : Text → SmsMessage → SmsMessage
unfolding extract_quoted
parse_timestamp_field cursor msg = elim (extract_quoted cursor (replicate 24 0)) [
  | none ↦ msg
  | some (field, rest) ↦
      if digit_led field
      then record msg { timestamp = field }
      else elim (extract_quoted rest msg.timestamp) [
        | none ↦ msg
        | some (timestamp, _) ↦ record msg { timestamp = timestamp }
      ]
]

-- The sender, and what follows.
unfoldable pub parse_sender : Text → SmsMessage → SmsMessage
unfolding parse_timestamp_field extract_quoted
parse_sender cursor msg = elim (extract_quoted cursor msg.sender) [
  | none ↦ parse_timestamp_field cursor msg
  | some (sender, rest) ↦ parse_timestamp_field rest (record msg { sender = sender })
]

-- The status, and what follows.
unfoldable pub parse_stat : Text → SmsMessage → SmsMessage
unfolding parse_sender extract_quoted stat_from_string
parse_stat cursor msg = elim (extract_quoted cursor (replicate 16 0)) [
  | none ↦ parse_sender cursor msg
  | some (stat, rest) ↦ parse_sender rest (record msg { stat = stat_from_string (c_str stat) })
]

-- The index behind the colon, if there is one, cast to int, and what follows.
unfoldable pub parse_index : Text → SmsMessage → SmsMessage
unfolding parse_stat to_signed
parse_index line msg = elim (strtol line) [
  | none ↦ parse_stat line msg
  | some (idx, rest) ↦ parse_stat rest (record msg { index = to_signed 32 idx })
]

-- parse_cmgr_header
unfoldable pub parse_cmgr_header : Text → SmsMessage → SmsMessage
unfolding parse_index parse_stat
parse_cmgr_header line msg = elim (cut b':' line) [
  | none ↦ parse_stat line msg
  | some (before, rest) ↦ parse_index rest msg
]
