-- ===== src/Sms/Replies.antt =====
-- ec200_sms_list on the printed listing of a module that stores messages.
use ec200_at_abstraction.Prelude.{
  ℕ, zero, suc, ◌+◌, ◌≤◌, ◌<◌, ◌≡◌, refl, ap, ◌∙◌, List, [], ◌∷◌, ◌++◌, Option, none, some, map,
  length, set, drop, ltb, if_true, append_assoc, length-append, arith,
}
use ec200_at_abstraction.Text.{Text, codes, cut, decimal, is_digit, starts_with}
use ec200_at_abstraction.Text.Laws.{Free, cut-append, cut-none}
use ec200_at_abstraction.Text.Decimal.{AllDigits, decimal-AllDigits}
use ec200_at_abstraction.Sms.Header.{SmsMessage, cleared, parse_cmgr_header}
use ec200_at_abstraction.Sms.Inbox.{
  Listing, stat_string, put_message, store_body, list_message, list_round, list_loop, list_messages,
}
use ec200_at_abstraction.Sms.RoundTrip.{
  Entry, IsEntry, header, print, parsed, fields, Shows, Shows-parsed, parse_cmgr_header-header,
}

Free-append : (c : ℕ) (s t : Text) → Free c s → Free c t → Free c (s ++ t)
Free-append c [] t h k = k
Free-append c (b ∷ s) t (n, h) k = (n, Free-append c s t h k)

digits_in_line : (s : Text) → AllDigits s → Free b'\n' s
unfolding is_digit
digits_in_line [] h = tt
digits_in_line (c ∷ s) (d, h) = (ground (arith, d), digits_in_line s h)

stat_in_line : (k : ℕ) → Free b'\n' (stat_string k)
stat_in_line zero = omega arith
stat_in_line (suc zero) = omega arith
stat_in_line (suc (suc zero)) = omega arith
stat_in_line (suc (suc (suc zero))) = omega arith
stat_in_line (suc (suc (suc (suc k)))) = omega arith

header_in_line : (e : Entry) → IsEntry e → Free b'\n' (header e)
header_in_line e v =
    let join = Free-append b'\n' in
    join (codes "+CMGL: ") _ (omega arith) (
      join (decimal e.index) (fields e)
        (digits_in_line _ (decimal-AllDigits e.index (omega (arith, v.index_word))).0)
        (join (codes ",\"") _ (omega arith) (
          join (stat_string e.stat) _ (stat_in_line e.stat) (
            join (codes "\",\"") _ (omega arith) (
              join e.sender _ v.sender_line (
                join (codes "\",,\"") _ (omega arith)
                  (join e.timestamp (codes "\"") v.timestamp_line (omega arith))))))))

-- What ec200_sms_list stores for a message.
abbrev pub message : Entry → SmsMessage
message e = store_body e.body (parsed e)

abbrev counted : SmsMessage → Listing → Listing
counted m l = record (put_message m l) { count = l.count + 1 }

stored :
    (e : Entry) → IsEntry e → store_body e.body (parse_cmgr_header (header e) cleared) ≡ message e
stored e v = ap (store_body e.body) (parse_cmgr_header-header e v)

list_message_between :
    (line hdr behind body rest : Text) (l : Listing)
    → cut b'\n' line ≡ some (hdr, behind)
    → cut b'\n' behind ≡ some (body, rest)
    → list_message line l ≡ (counted (store_body body (parse_cmgr_header hdr cleared)) l, some rest)
unfolding list_message
list_message_between line hdr behind body rest l e k = rw (list_message, e, k) refl

list_message_last :
    (line hdr body : Text) (l : Listing)
    → cut b'\n' line ≡ some (hdr, body)
    → cut b'\n' body ≡ none
    → list_message line l ≡ (counted (store_body body (parse_cmgr_header hdr cleared)) l, none)
unfolding list_message
list_message_last line hdr body l e k = rw (list_message, e, k) refl

round_between :
    (e : Entry) (rest : Text) (l : Listing)
    → IsEntry e
    → list_round (header e ++ (b'\n' ∷ (e.body ++ (b'\n' ∷ rest)))) l
      ≡ (counted (message e) l, some rest)
unfolding list_round starts_with
round_between e rest l v =
    list_message_between _ (header e) (e.body ++ (b'\n' ∷ rest)) e.body rest l
      (cut-append b'\n' (header e) _ (header_in_line e v))
      (cut-append b'\n' e.body rest v.body_line)
    ∙ ap (λ m. (counted m l, some rest)) (stored e v)

round_last :
    (e : Entry) (l : Listing)
    → IsEntry e
    → list_round (header e ++ (b'\n' ∷ e.body)) l ≡ (counted (message e) l, none)
unfolding list_round starts_with
round_last e l v =
    list_message_last _ (header e) e.body l
      (cut-append b'\n' (header e) e.body (header_in_line e v)) (cut-none b'\n' e.body v.body_line)
    ∙ ap (λ m. (counted m l, none)) (stored e v)

set_between :
    {A : Type 0} (done : List A) (x y : A) (rest : List A)
    → set (done ++ (x ∷ rest)) (length done) y ≡ (done ++ (y ∷ [])) ++ rest
set_between [] x y rest = refl
set_between (d ∷ done) x y rest = ap (λ t. d ∷ t) (set_between done x y rest)

abbrev pub AllEntries : List Entry → Type 0
AllEntries [] = Unit
AllEntries (e ∷ es) = IsEntry e × AllEntries es

-- A full round of the loop.
list_loop_between :
    (rounds : ℕ) (c : ℕ) (line rest : Text) (l l' : Listing)
    → l.count < length l.msgs
    → list_round (c ∷ line) l ≡ (l', some rest)
    → list_loop (suc rounds) (c ∷ line) l ≡ list_loop rounds rest l'
unfolding list_loop
list_loop_between rounds c line rest l l' room e =
    if_true (ltb l.count (length l.msgs)) _ _ (ground arith) ∙ ap go_on e
  where
    go_on : Listing × Option Text → Option Listing
    go_on (l', none) = some l'
    go_on (l', some line') = list_loop rounds line' l'

-- The round that ends it.
list_loop_last :
    (rounds : ℕ) (c : ℕ) (line : Text) (l l' : Listing)
    → l.count < length l.msgs
    → list_round (c ∷ line) l ≡ (l', none)
    → list_loop (suc rounds) (c ∷ line) l ≡ some l'
unfolding list_loop
list_loop_last rounds c line l l' room e =
    if_true (ltb l.count (length l.msgs)) _ _ (ground arith) ∙ ap go_on e
  where
    go_on : Listing × Option Text → Option Listing
    go_on (l', none) = some l'
    go_on (l', some line') = list_loop rounds line' l'

abbrev at : List SmsMessage → ℕ → Listing
at msgs count = record { msgs = msgs; count = count }

-- The listing behind a counted message.
counted_at :
    (done : List SmsMessage) (x m : SmsMessage) (rest : List SmsMessage)
    → counted m (at (done ++ (x ∷ rest)) (length done))
      ≡ at ((done ++ (m ∷ [])) ++ rest) (length (done ++ (m ∷ [])))
counted_at done x m rest =
    ap (λ t. at t (length done + 1)) (set_between done x m rest)
    ∙ ap (at ((done ++ (m ∷ [])) ++ rest)) (omega (arith, length-append done (m ∷ [])))

abbrev listed : List Entry → List SmsMessage → List SmsMessage → Listing
listed es done rest =
    at (done ++ (map message es ++ drop (length es) rest)) (length done + length es)

listed_more :
    (e : Entry) (es : List Entry) (done rest : List SmsMessage) (x : SmsMessage)
    → listed es (done ++ (message e ∷ [])) rest ≡ listed (e ∷ es) done (x ∷ rest)
listed_more e es done rest x =
    ap (λ t. at t (length (done ++ (message e ∷ [])) + length es))
      (append_assoc done (message e ∷ []) (map message es ++ drop (length es) rest))
    ∙ ap (at (done ++ (map message (e ∷ es) ++ drop (length es) rest)))
        (omega (arith, length-append done (message e ∷ [])))

room_left :
    (done rest : List SmsMessage) (x : SmsMessage) → length done < length (done ++ (x ∷ rest))
room_left done rest x = omega (arith, length-append done (x ∷ rest))

list_loop-print :
    (rounds : ℕ) (es : List Entry) (done rest : List SmsMessage)
    → AllEntries es
    → length es ≤ length rest
    → length es < rounds
    → list_loop rounds (print es) (at (done ++ rest) (length done)) ≡ some (listed es done rest)
unfolding list_loop
list_loop-print zero es done rest v room enough = absurd (omega arith)
list_loop-print (suc rounds) [] done rest v room enough =
    ap (λ k. some (at (done ++ rest) k)) (omega arith)
list_loop-print (suc rounds) (e ∷ es) done [] v room enough = absurd (omega arith)
list_loop-print (suc rounds) (e ∷ []) done (x ∷ rest) (v, _) room enough =
    list_loop_last rounds _ _ _ _ (room_left done rest x)
      (round_last e (at (done ++ (x ∷ rest)) (length done)) v)
    ∙ ap some (counted_at done x (message e) rest)
    ∙ ap some (ap (λ k. at ((done ++ (message e ∷ [])) ++ rest) k) (omega arith))
    ∙ ap some (listed_more e [] done rest x)
list_loop-print (suc rounds) (e ∷ f ∷ es) done (x ∷ rest) (v, vs) room enough =
    list_loop_between rounds _ _ _ _ _ (room_left done rest x)
      (round_between e (print (f ∷ es)) (at (done ++ (x ∷ rest)) (length done)) v)
    ∙ ap (list_loop rounds (print (f ∷ es))) (counted_at done x (message e) rest)
    ∙ list_loop-print rounds (f ∷ es) (done ++ (message e ∷ [])) rest vs (omega arith) (omega arith)
    ∙ ap some (listed_more e (f ∷ es) done rest x)

length-print : (es : List Entry) → length es ≤ length (print es)
length-print [] = omega arith
length-print (e ∷ []) = omega arith
length-print (e ∷ f ∷ es) = omega (
  arith,
  length-append (header e) (b'\n' ∷ (e.body ++ (b'\n' ∷ print (f ∷ es)))),
  length-append e.body (b'\n' ∷ print (f ∷ es)),
  length-print (f ∷ es),
)

-- The messages show the entries, in their order.
abbrev pub AllShown : List Entry → List SmsMessage → Type 0
AllShown [] [] = Unit
AllShown (e ∷ es) (m ∷ ms) = Shows e m × AllShown es ms
AllShown _ _ = ⊥

AllShown-map : (es : List Entry) → AllEntries es → AllShown es (map message es)
AllShown-map [] v = tt
AllShown-map (e ∷ es) (v, vs) = (Shows-parsed e v, AllShown-map es vs)

-- When a module stores messages whose fields fit ec200_sms_message_t, with an index below 2^31, a status
-- up to "STO SENT", no quotes in a sender or timestamp, a timestamp that starts with a digit, a body that is
-- not empty, and each field in one line without NUL, and the array has room for all of them,
-- ec200_sms_list's loop on their printed listing stores messages that show them, in their order, at the start of the array, leaves the
-- rest of the array alone and counts them.
pub list_messages-print :
    (es : List Entry) (msgs : List SmsMessage)
    → AllEntries es
    → length es ≤ length msgs
    → AllShown es (map message es)
      × (list_messages (print es) msgs
          ≡ some (record { msgs = map message es ++ drop (length es) msgs; count = length es }))
unfolding list_messages
list_messages-print es msgs v room = (
  AllShown-map es v,
  list_loop-print (length (print es) + 1) es [] msgs v room (omega (arith, length-print es))
      ∙ ap (λ k. some (at (map message es ++ drop (length es) msgs) k)) (omega arith),
)
