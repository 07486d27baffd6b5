-- ===== src/Sms/Inbox.antt =====
-- src/ec200_sms.c: reading one message, and listing them.
use ec200_at_abstraction.Prelude.{
  ℕ, zero, suc, ◌+◌, ◌∷◌, ◌++◌, ℤ, pos, negsuc, List, [], Option, none, some, ltb, ◌==◌,
  if◌then◌else◌, length, take, set,
}
use ec200_at_abstraction.Text.{Text, codes, cut, find_text, starts_with, memcpy_at, decimal}
use ec200_at_abstraction.Handle.{
  Platform, Status, ok, err_param, err_parse, timeout_default, timeout_long,
}
use ec200_at_abstraction.Exec.{Exec, pure, ◌>>=◌}
use ec200_at_abstraction.At.Command.{at_send}
use ec200_at_abstraction.Query.{local_array, text_of}
use ec200_at_abstraction.Sms.Header.{SmsMessage, cleared, max_sms_text_len, parse_cmgr_header}

-- memcpy(msg->text, body, blen) and its NUL, with `blen` at most EC200_MAX_SMS_TEXT_LEN.
unfoldable pub store_body : Text → SmsMessage → SmsMessage
store_body body msg = record msg {
  text = memcpy_at 0 (take max_sms_text_len body ++ (0 ∷ [])) msg.text;
}

-- The reply of ec200_sms_read from "+CMGR:" on: the header line, and the body behind it if there is one.
unfoldable pub read_message : ℕ → Text → SmsMessage
unfolding store_body
read_message index hdr = elim (cut b'\n' hdr) [
  | none ↦ record (parse_cmgr_header hdr cleared) { index = pos index }
  | some (line, body) ↦
      store_body body (record (parse_cmgr_header line cleared) { index = pos index })
]

-- The part of ec200_sms_read behind its transaction; `msg` is the cleared message with its index.
unfoldable pub read_received : ℕ → SmsMessage → Status × Text → Status × SmsMessage
unfolding read_message
read_received index msg (ok, resp) = elim (find_text (codes "+CMGR:") resp) [
  | none ↦ (err_parse, msg)
  | some hdr ↦ (ok, read_message index hdr)
]
read_received index msg (st, resp) = (st, msg)

-- The messages that ec200_sms_list has stored, and `*count_out`.
pub record Listing : Type 0 where
  pub msgs : List SmsMessage
  pub count : ℕ

-- msgs[*count_out] = m
abbrev pub put_message : SmsMessage → Listing → Listing
put_message m l = record l { msgs = set l.msgs l.count m }

-- A round of ec200_sms_list's loop at a header line: the listing, and the rest of the reply if the loop
-- goes on.
unfoldable pub list_message : Text → Listing → Listing × Option Text
unfolding store_body
list_message line l = elim (cut b'\n' line) [
  | none ↦ (put_message (parse_cmgr_header line cleared) l, none)
  | some (hdr, rest) ↦
      let m = parse_cmgr_header hdr cleared in
      elim (cut b'\n' rest) [
        | none ↦ (record (put_message (store_body rest m) l) { count = l.count + 1 }, none)
        | some (body, rest') ↦
            (record (put_message (store_body body m) l) { count = l.count + 1 }, some rest')
      ]
]

-- A round of the loop at any line.
unfoldable pub list_round : Text → Listing → Listing × Option Text
unfolding list_message
list_round line l =
    if starts_with (codes "+CMGL:") line
    then list_message line l
    else elim (cut b'\n' line) [ none ↦ (l, none) | some (skipped, rest) ↦ (l, some rest) ]

-- The loop of ec200_sms_list; `none`: it has not ended after `rounds` rounds.
unfoldable pub list_loop : ℕ → Text → Listing → Option Listing
unfolding list_round
list_loop zero line l = none
list_loop (suc rounds) [] l = some l
list_loop (suc rounds) (c ∷ line) l =
    let (l', rest) = list_round (c ∷ line) l in
    let go_on : Option Listing = elim rest [
      | none ↦ some l'
      | some line' ↦ list_loop rounds line' l'
    ] in
    if ltb l.count (length l.msgs) then go_on else some l

-- The part of ec200_sms_list behind its transaction.
unfoldable pub list_messages : Text → List SmsMessage → Option Listing
unfolding list_loop
list_messages resp msgs = list_loop (length resp + 1) resp (record { msgs = msgs; count = 0 })

-- stat_strings
abbrev pub stat_string : ℕ → Text
stat_string zero = codes "REC UNREAD"
stat_string (suc zero) = codes "REC READ"
stat_string (suc (suc zero)) = codes "STO UNSENT"
stat_string (suc (suc (suc zero))) = codes "STO SENT"
stat_string _ = codes "ALL"

unfoldable pub list_received :
    {W : Type 0} → List SmsMessage → Status × Text → Exec W (Status × Listing)
unfolding list_messages
list_received msgs (ok, resp) s = elim (list_messages resp msgs) [
  | none ↦ none
  | some l ↦ some ((ok, l), s)
]
list_received msgs (st, resp) s = some ((st, record { msgs = msgs; count = 0 }), s)

module _ {W : Type 0} (p : Platform W) (fuel : ℕ) where
  -- ec200_at_send with a local array for its reply.
  abbrev reply : Text → ℕ → ℕ → Exec W (Status × Text)
  reply cmd size timeout_ms = do
    (st, resp) ← at_send p fuel (some cmd) (local_array size) timeout_ms
    pure (st, text_of resp)

  -- ec200_sms_read into `*msg`, which a negative index leaves alone.
  unfoldable pub sms_read : ℤ → SmsMessage → Exec W (Status × SmsMessage)
  unfolding read_received
  sms_read (negsuc n) msg = pure (err_param, msg)
  sms_read (pos index) msg = do
    answer ← reply (codes "AT+CMGR=" ++ decimal index) 512 timeout_default
    pure (read_received index (record cleared { index = pos index }) answer)

  -- ec200_sms_list into an array of `max_msgs` messages; `before` is `*count_out` at the call.
  unfoldable pub sms_list : ℕ → List SmsMessage → ℕ → Exec W (Status × Listing)
  unfolding list_received
  sms_list stat msgs before s =
      let start : Listing = record { msgs = msgs; count = 0 } in
      let run =
        (reply (codes "AT+CMGL=\"" ++ (stat_string stat ++ codes "\"")) 1024 timeout_long
            >>= list_received msgs)
          s in
      if length msgs == 0
      then some ((err_param, record { msgs = msgs; count = before }), s)
      else if ltb 4 stat
      then some ((err_param, start), s)
      else run
