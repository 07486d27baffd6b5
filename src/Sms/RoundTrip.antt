-- ===== src/Sms/RoundTrip.antt =====
-- ec200_sms_list on the reply of a module that lists messages.
use ec200_at_abstraction.Prelude.{
  ℕ, zero, suc, ◌-◌, ◌%◌, ◌^◌, ltb, ◌≤◌, ◌<◌, ◌≡◌, refl, ap, ◌∙◌, ℤ, pos, true, List, [], ◌∷◌, ◌++◌,
  some, length, take, replicate, get_or, leb, if_true, if_false, take_all, append_assoc, arith,
}
use ec200_at_abstraction.Text.{
  Text, codes, c_str, cut, decimal, is_digit, strtol, skip_white, is_space, memcpy_at, starts_with,
}
use ec200_at_abstraction.Cast.{to_signed, to_unsigned}
use ec200_at_abstraction.Text.Laws.{NoNul, Free, c_str-append_nul, cut-append}
use ec200_at_abstraction.Text.Decimal.{strtol-decimal, Stops}
use ec200_at_abstraction.Sms.Header.{
  SmsMessage, cleared, copy_cut, next_quoted, extract_quoted, stat_from_string, digit_led,
  parse_timestamp_field, parse_sender, parse_stat, parse_index, parse_cmgr_header,
}
use ec200_at_abstraction.Sms.Inbox.{stat_string, store_body}

-- A message as the module stores it.
pub record Entry : Type 0 where
  pub index : ℕ
  pub stat : ℕ
  pub sender : Text
  pub timestamp : Text
  pub body : Text

-- What the fields of a message may be: texts without NUL that fit into the arrays of
-- ec200_sms_message_t, a sender and a timestamp without quotes, a timestamp that starts with a digit, a
-- body that is not empty, and all of them in one line.
pub record IsEntry (e : Entry) : Type 0 where
  pub index_word : e.index < 2 ^ 31
  pub stat_known : e.stat ≤ 3
  pub sender_line : Free b'\n' e.sender
  pub timestamp_line : Free b'\n' e.timestamp
  pub sender_free : Free b'"' e.sender
  pub sender_text : NoNul e.sender
  pub sender_fits : length e.sender ≤ 19
  pub timestamp_free : Free b'"' e.timestamp
  pub timestamp_text : NoNul e.timestamp
  pub timestamp_fits : length e.timestamp ≤ 23
  pub timestamp_led : is_digit (get_or e.timestamp 0 0) ≡ true
  pub body_line : Free b'\n' e.body
  pub body_text : NoNul e.body
  pub body_fits : length e.body ≤ 160
  pub body_some : 0 < length e.body

-- +CMGL: <index>,"<stat>","<sender>",,"<timestamp>"
abbrev pub header : Entry → Text
header e =
    codes "+CMGL: "
    ++ (decimal e.index
        ++ (codes ",\""
            ++ (stat_string e.stat
                ++ (codes "\",\""
                    ++ (e.sender ++ (codes "\",,\"" ++ (e.timestamp ++ codes "\"")))))))

-- A listing: for each message its header line and its body, with line feeds between them.
abbrev pub print : List Entry → Text
print [] = []
print (e ∷ []) = header e ++ (b'\n' ∷ e.body)
print (e ∷ f ∷ es) = header e ++ (b'\n' ∷ (e.body ++ (b'\n' ∷ print (f ∷ es))))

-- The message of the caller has the fields of the entry.
pub record Shows (e : Entry) (m : SmsMessage) : Type 0 where
  pub index_shown : m.index ≡ pos e.index
  pub stat_shown : m.stat ≡ e.stat
  pub sender_shown : c_str m.sender ≡ e.sender
  pub timestamp_shown : c_str m.timestamp ≡ e.timestamp
  pub body_shown : c_str m.text ≡ e.body

-- A string that fits is copied whole.
pub copy_cut_fits :
    (s out : List ℕ) → length s < length out → copy_cut s out ≡ memcpy_at 0 (s ++ (0 ∷ [])) out
unfolding copy_cut
copy_cut_fits s out fits =
    ap (λ k. memcpy_at 0 (take k s ++ (0 ∷ [])) out)
      (if_false (leb (length out) (length s)) (length out - 1) (length s) (ground arith))
    ∙ ap (λ t. memcpy_at 0 (t ++ (0 ∷ [])) out) (take_all (length s) s (omega arith))

c_str-memcpy_at : (s out : List ℕ) → NoNul s → c_str (memcpy_at 0 (s ++ (0 ∷ [])) out) ≡ s
unfolding memcpy_at
c_str-memcpy_at s out n = ap c_str (append_assoc s (0 ∷ []) _) ∙ c_str-append_nul s _ n

pub c_str-copy_cut : (s out : List ℕ) → NoNul s → length s < length out → c_str (copy_cut s out) ≡ s
c_str-copy_cut s out n fits = ap c_str (copy_cut_fits s out fits) ∙ c_str-memcpy_at s out n

digit_led-copy_cut :
    (s out : List ℕ)
    → length s < length out
    → is_digit (get_or s 0 0) ≡ true
    → digit_led (copy_cut s out) ≡ true
unfolding is_digit memcpy_at
digit_led-copy_cut [] out fits d = cc
digit_led-copy_cut (c ∷ s) out fits d = ap digit_led (copy_cut_fits (c ∷ s) out fits) ∙ d

pub next_quoted-append :
    (before s rest : Text)
    → Free b'"' before
    → Free b'"' s
    → next_quoted (before ++ (b'"' ∷ (s ++ (b'"' ∷ rest)))) ≡ some (s, rest)
unfolding next_quoted
next_quoted-append before s rest h k =
    rw (next_quoted, cut-append b'"' before (s ++ (b'"' ∷ rest)) h) (cut-append b'"' s rest k)

pub extract_quoted-append :
    (before s rest out : Text)
    → Free b'"' before
    → Free b'"' s
    → extract_quoted (before ++ (b'"' ∷ (s ++ (b'"' ∷ rest)))) out ≡ some (copy_cut s out, rest)
unfolding extract_quoted
extract_quoted-append before s rest out h k =
    rw (extract_quoted, next_quoted-append before s rest h k) refl

stat_known :
    (k : ℕ)
    → k ≤ 3
    → Free b'"' (stat_string k)
      × (stat_from_string (c_str (copy_cut (stat_string k) (replicate 16 0))) ≡ k)
unfolding stat_from_string starts_with copy_cut c_str memcpy_at
stat_known zero h = (omega arith, refl)
stat_known (suc zero) h = (omega arith, refl)
stat_known (suc (suc zero)) h = (omega arith, refl)
stat_known (suc (suc (suc zero))) h = (omega arith, refl)
stat_known (suc (suc (suc (suc k)))) h = absurd (omega arith)

parse_stat_lem :
    (cursor : Text) (m : SmsMessage) (a : List ℕ) (rest : Text)
    → extract_quoted cursor (replicate 16 0) ≡ some (a, rest)
    → parse_stat cursor m ≡ parse_sender rest (record m { stat = stat_from_string (c_str a) })
unfolding parse_stat
parse_stat_lem cursor m a rest e = rw (parse_stat, e)

parse_sender_lem :
    (cursor : Text) (m : SmsMessage) (a : List ℕ) (rest : Text)
    → extract_quoted cursor m.sender ≡ some (a, rest)
    → parse_sender cursor m ≡ parse_timestamp_field rest (record m { sender = a })
unfolding parse_sender
parse_sender_lem cursor m a rest e = rw (parse_sender, e)

parse_timestamp_field_lem :
    (cursor : Text) (m : SmsMessage) (a : List ℕ) (rest : Text)
    → extract_quoted cursor (replicate 24 0) ≡ some (a, rest)
    → digit_led a ≡ true
    → parse_timestamp_field cursor m ≡ record m { timestamp = a }
unfolding parse_timestamp_field
parse_timestamp_field_lem cursor m a rest e d =
    rw (parse_timestamp_field, e) (if_true (digit_led a) _ _ d)

-- The message that a header line gives.
abbrev pub parsed : Entry → SmsMessage
parsed e = record {
  index = pos e.index;
  stat = e.stat;
  sender = copy_cut e.sender (replicate 20 0);
  timestamp = copy_cut e.timestamp (replicate 24 0);
  text = replicate 161 0;
}

-- The fields behind the index.
abbrev pub fields : Entry → Text
fields e =
    codes ",\""
    ++ (stat_string e.stat
        ++ (codes "\",\"" ++ (e.sender ++ (codes "\",,\"" ++ (e.timestamp ++ codes "\"")))))

parse_stat-fields :
    (e : Entry) (m : SmsMessage)
    → IsEntry e
    → m ≡ record cleared { index = pos e.index }
    → parse_stat (fields e) m ≡ parsed e
parse_stat-fields e m v start =
    let (free, known) = stat_known e.stat v.stat_known in
    let blank : SmsMessage = record cleared { index = pos e.index } in
    ap (parse_stat (fields e)) start
    ∙ parse_stat_lem (fields e) blank _ _
        (extract_quoted-append (codes ",") (stat_string e.stat) _ _ (omega arith) free)
    ∙ ap
        (λ k.
          parse_sender
            (codes ",\"" ++ (e.sender ++ (codes "\",,\"" ++ (e.timestamp ++ codes "\""))))
            (record blank { stat = k }))
        known
    ∙ parse_sender_lem _ (record blank { stat = e.stat }) _ _
        (extract_quoted-append (codes ",") e.sender _ _ (omega arith) v.sender_free)
    ∙ parse_timestamp_field_lem _ _ (copy_cut e.timestamp (replicate 24 0)) []
        (extract_quoted-append (codes ",,") e.timestamp _ _ (omega arith) v.timestamp_free)
        (digit_led-copy_cut e.timestamp (replicate 24 0) (omega arith) v.timestamp_led)

parse_index_lem :
    (line rest : Text) (idx : ℤ) (m : SmsMessage)
    → strtol line ≡ some (idx, rest)
    → parse_index line m ≡ parse_stat rest (record m { index = to_signed 32 idx })
unfolding parse_index
parse_index_lem line rest idx m e = rw (parse_index, e)

-- An index that an int holds is left alone by the cast.
to_signed-pos : (n : ℕ) → n < 2 ^ 31 → to_signed 32 (pos n) ≡ pos n
unfolding to_signed to_unsigned
to_signed-pos n h = if_true (ltb (n % 2 ^ 32) (2 ^ 31)) _ _ (ground arith) ∙ ap pos (omega arith)

strtol_space : (line : Text) → strtol (b' ' ∷ line) ≡ strtol line
unfolding strtol skip_white is_space
strtol_space line = refl

fields_stop : (e : Entry) → Stops (fields e)
unfolding is_digit
fields_stop e = refl

pub parse_cmgr_header-header :
    (e : Entry) → IsEntry e → parse_cmgr_header (header e) cleared ≡ parsed e
unfolding parse_cmgr_header cut
parse_cmgr_header-header e v =
    parse_index_lem (b' ' ∷ (decimal e.index ++ fields e)) (fields e) (pos e.index) cleared (
      strtol_space (decimal e.index ++ fields e)
      ∙ strtol-decimal e.index (fields e) (omega (arith, v.index_word)) (fields_stop e))
    ∙ parse_stat-fields e _ v
        (ap (λ k. record cleared { index = k }) (to_signed-pos e.index v.index_word))

pub Shows-parsed : (e : Entry) → IsEntry e → Shows e (store_body e.body (parsed e))
unfolding store_body
Shows-parsed e v = record {
  index_shown = refl;
  stat_shown = refl;
  sender_shown = c_str-copy_cut e.sender (replicate 20 0) v.sender_text (omega arith);
  timestamp_shown = c_str-copy_cut e.timestamp (replicate 24 0) v.timestamp_text (omega arith);
  body_shown =
      ap (λ t. c_str (memcpy_at 0 (t ++ (0 ∷ [])) (replicate 161 0)))
        (take_all 160 e.body v.body_fits)
      ∙ c_str-memcpy_at e.body (replicate 161 0) v.body_text;
}
