-- ===== src/Sms/Listing.antt =====
-- ec200_sms_list on every reply: it ends, and stays inside the caller's array.
use ec200_at_abstraction.Prelude.{
  ℕ, zero, suc, ◌+◌, ◌≤◌, ◌<◌, ◌≡◌, ◌∙◌, refl, List, [], ◌∷◌, Option, none, some, ltb, length, set,
  length-set, arith, option-elim, if-elim,
}
use ec200_at_abstraction.Text.{Text, codes, cut, starts_with}
use ec200_at_abstraction.Text.Laws.{length-cut}
use ec200_at_abstraction.Sms.Header.{SmsMessage, cleared, parse_cmgr_header}
use ec200_at_abstraction.Sms.Inbox.{
  Listing, put_message, list_message, list_round, list_loop, list_messages,
}
use ec200_at_abstraction.Sms.Sizes.{
  IsSized, cleared-IsSized, parse_cmgr_header-IsSized, store_body-IsSized,
}

abbrev pub AllSized : List SmsMessage → Type 0
AllSized [] = Unit
AllSized (m ∷ ms) = IsSized m × AllSized ms

AllSized-set :
    (ms : List SmsMessage) (i : ℕ) (m : SmsMessage)
    → AllSized ms
    → IsSized m
    → AllSized (set ms i m)
AllSized-set [] i m h v = tt
AllSized-set (x ∷ ms) zero m (_, h) v = (v, h)
AllSized-set (x ∷ ms) (suc i) m (k, h) v = (k, AllSized-set ms i m h v)

-- A listing in an array of `n` messages.
pub record IsListing (n : ℕ) (l : Listing) : Type 0 where
  pub within : l.count ≤ n
  pub array_kept : length l.msgs ≡ n
  pub all_sized : AllSized l.msgs

-- After a round: the listing is right, and what is left of the reply is shorter.
abbrev Rounded : ℕ → ℕ → Listing × Option Text → Type 0
Rounded n size (l, none) = IsListing n l
Rounded n size (l, some rest) = IsListing n l × (length rest < size)

put_message-IsListing :
    (n : ℕ) (m : SmsMessage) (l : Listing)
    → IsListing n l
    → IsSized m
    → IsListing n (put_message m l)
put_message-IsListing n m l v k = record {
  within = v.within;
  array_kept = length-set l.msgs l.count m ∙ v.array_kept;
  all_sized = AllSized-set l.msgs l.count m v.all_sized k;
}

counted-IsListing :
    (n : ℕ) (m : SmsMessage) (l : Listing)
    → IsListing n l
    → IsSized m
    → l.count < n
    → IsListing n (record (put_message m l) { count = l.count + 1 })
counted-IsListing n m l v k room = record {
  within = omega arith;
  array_kept = length-set l.msgs l.count m ∙ v.array_kept;
  all_sized = AllSized-set l.msgs l.count m v.all_sized k;
}

header-IsSized : (line : Text) → IsSized (parse_cmgr_header line cleared)
header-IsSized line = parse_cmgr_header-IsSized line cleared cleared-IsSized

list_message-Rounded :
    (n : ℕ) (line : Text) (l : Listing)
    → IsListing n l
    → l.count < n
    → Rounded n (length line) (list_message line l)
unfolding list_message
list_message-Rounded n line l v room =
    option-elim (Rounded n (length line)) (cut b'\n' line) _ _
      (λ _. put_message-IsListing n _ l v (header-IsSized line))
      λ (hdr, rest) e.
        option-elim (Rounded n (length line)) (cut b'\n' rest) _ _
          (λ _. counted-IsListing n _ l v (store_body-IsSized rest _ (header-IsSized hdr)) room)
          λ (body, rest') e'. (
            counted-IsListing n _ l v (store_body-IsSized body _ (header-IsSized hdr)) room,
            omega (arith, length-cut b'\n' line hdr rest e, length-cut b'\n' rest body rest' e'),
          )

list_round-Rounded :
    (n : ℕ) (line : Text) (l : Listing)
    → IsListing n l
    → l.count < n
    → Rounded n (length line) (list_round line l)
unfolding list_round
list_round-Rounded n line l v room =
    if-elim (Rounded n (length line)) (starts_with (codes "+CMGL:") line) _ _
      (λ _. list_message-Rounded n line l v room)
      λ _.
        option-elim (Rounded n (length line)) (cut b'\n' line) _ _ (λ _. v)
          λ (skipped, rest) e. (v, omega (arith, length-cut b'\n' line skipped rest e))

-- The loop ended with a right listing.
abbrev pub Listed : ℕ → Option Listing → Type 0
Listed n none = ⊥
Listed n (some l) = IsListing n l

list_loop-Listed :
    (n rounds : ℕ) (line : Text) (l : Listing)
    → IsListing n l
    → length line < rounds
    → Listed n (list_loop rounds line l)
unfolding list_loop
list_loop-Listed n zero line l v h = absurd (omega arith)
list_loop-Listed n (suc rounds) [] l v h = v
list_loop-Listed n (suc rounds) (c ∷ line) l v h =
    if-elim (Listed n) (ltb l.count (length l.msgs)) _ _
      (λ e.
        go_on (list_round (c ∷ line) l)
          (list_round-Rounded n (c ∷ line) l v (ground (arith, e, v.array_kept)))
          (λ line' l' v' h'. list_loop-Listed n rounds line' l' v' h'))
      (λ _. v)
  where
    go_on :
        (r : Listing × Option Text)
        → Rounded n (length (c ∷ line)) r
        → ((line' : Text) (l' : Listing)
            → IsListing n l'
            → length line' < rounds
            → Listed n (list_loop rounds line' l'))
        → Listed n (
            let o : Option Listing = elim r.1 [
              | none ↦ some r.0
              | some line' ↦ list_loop rounds line' r.0
            ] in
            o)
    go_on (l', none) k rec = k
    go_on (l', some line') (k, shorter) rec = rec line' l' k (omega arith)

-- On every reply ec200_sms_list's loop ends, within as many rounds as the reply has bytes and one more;
-- `*count_out` is at most max_msgs, the caller's array keeps its length, and every message in it keeps
-- the sizes of its arrays.
pub list_messages-Listed :
    (resp : Text) (msgs : List SmsMessage)
    → AllSized msgs
    → Listed (length msgs) (list_messages resp msgs)
unfolding list_messages
list_messages-Listed resp msgs h =
    list_loop-Listed (length msgs) (length resp + 1) resp (record { msgs = msgs; count = 0 })
      (record { within = omega arith; array_kept = refl; all_sized = h }) (omega arith)
