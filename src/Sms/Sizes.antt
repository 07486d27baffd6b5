-- ===== src/Sms/Sizes.antt =====
-- The arrays of a message keep their sizes.
use ec200_at_abstraction.Prelude.{
  ℕ, ◌-◌, ◌<◌, ◌≡◌, List, [], ◌∷◌, ◌++◌, Option, none, some, leb, if◌then◌else◌, length, take,
  replicate, arith, option-elim, if-elim, length-append, length-take,
}
use mathlib.Core.Path.{subst}
use ec200_at_abstraction.Text.{Text, strtol, cut}
use ec200_at_abstraction.Text.Laws.{length-memcpy_at}
use ec200_at_abstraction.Sms.Header.{
  SmsMessage, cleared, max_sms_text_len, copy_cut, extract_quoted, next_quoted,
  parse_timestamp_field, parse_sender, parse_stat, parse_index, parse_cmgr_header, digit_led,
}
use ec200_at_abstraction.Sms.Inbox.{store_body}

-- The arrays of a message have their C sizes.
pub record IsSized (m : SmsMessage) : Type 0 where
  pub sender_size : length m.sender ≡ 20
  pub timestamp_size : length m.timestamp ≡ 24
  pub text_size : length m.text ≡ 161

pub cleared-IsSized : IsSized cleared
cleared-IsSized = omega arith

pub length-copy_cut : (s out : List ℕ) → 0 < length out → length (copy_cut s out) ≡ length out
unfolding copy_cut
length-copy_cut s out h =
    let len = if leb (length out) (length s) then length out - 1 else length s in
    length-memcpy_at 0 (take len s ++ (0 ∷ [])) out
      (ground (arith, length-append (take len s) (0 ∷ []), length-take len s))

-- What extract_quoted stores has the size of the array.
abbrev SameSize : List ℕ → Option (List ℕ × Text) → Type 0
SameSize out none = Unit
SameSize out (some (out', rest)) = length out' ≡ length out

extract_quoted-SameSize :
    (cursor : Text) (out : List ℕ) → 0 < length out → SameSize out (extract_quoted cursor out)
unfolding extract_quoted
extract_quoted-SameSize cursor out h =
    option-elim (SameSize out) (next_quoted cursor) _ _ (λ _. tt)
      λ (s, rest) _. length-copy_cut s out h

-- To prove something of what is done behind extract_quoted.
quoted-elim :
    {B : Type 0} (P : B → Type 0) (cursor : Text) (out : List ℕ) (x : B) (f : List ℕ × Text → B)
    → 0 < length out
    → P x
    → ((out' : List ℕ) (rest : Text) → length out' ≡ length out → P (f (out', rest)))
    → P (elim (extract_quoted cursor out) [ none ↦ x | some a ↦ f a ])
quoted-elim P cursor out x f h px pf =
    option-elim P (extract_quoted cursor out) x f (λ _. px)
      λ (out', rest) e. pf out' rest (subst (SameSize out) e (extract_quoted-SameSize cursor out h))

parse_timestamp_field-IsSized :
    (cursor : Text) (m : SmsMessage) → IsSized m → IsSized (parse_timestamp_field cursor m)
unfolding parse_timestamp_field
parse_timestamp_field-IsSized cursor m v =
    quoted-elim IsSized cursor (replicate 24 0) m _ (omega arith) v λ field rest e.
      if-elim IsSized (digit_led field) _ _ (λ _. omega (arith, e))
        λ _.
          quoted-elim IsSized rest m.timestamp m _ (omega arith) v
            λ timestamp _ e'. omega (arith, e')

parse_sender-IsSized :
    (cursor : Text) (m : SmsMessage) → IsSized m → IsSized (parse_sender cursor m)
unfolding parse_sender
parse_sender-IsSized cursor m v =
    quoted-elim IsSized cursor m.sender _ _ (omega arith) (parse_timestamp_field-IsSized cursor m v)
      λ sender rest e. parse_timestamp_field-IsSized rest _ (omega (arith, e))

parse_stat-IsSized : (cursor : Text) (m : SmsMessage) → IsSized m → IsSized (parse_stat cursor m)
unfolding parse_stat
parse_stat-IsSized cursor m v =
    quoted-elim IsSized cursor (replicate 16 0) _ _ (omega arith) (parse_sender-IsSized cursor m v)
      λ stat rest e. parse_sender-IsSized rest _ (omega arith)

parse_index-IsSized : (line : Text) (m : SmsMessage) → IsSized m → IsSized (parse_index line m)
unfolding parse_index
parse_index-IsSized line m v =
    option-elim IsSized (strtol line) _ _ (λ _. parse_stat-IsSized line m v)
      λ (idx, rest) _. parse_stat-IsSized rest _ (omega arith)

pub parse_cmgr_header-IsSized :
    (line : Text) (m : SmsMessage) → IsSized m → IsSized (parse_cmgr_header line m)
unfolding parse_cmgr_header
parse_cmgr_header-IsSized line m v =
    option-elim IsSized (cut b':' line) _ _ (λ _. parse_stat-IsSized line m v)
      λ (before, rest) _. parse_index-IsSized rest m v

pub store_body-IsSized : (body : Text) (m : SmsMessage) → IsSized m → IsSized (store_body body m)
unfolding store_body
store_body-IsSized body m v = omega (
  arith,
  length-memcpy_at 0 (take max_sms_text_len body ++ (0 ∷ [])) m.text,
  length-append (take max_sms_text_len body) (0 ∷ []),
  length-take max_sms_text_len body,
)
