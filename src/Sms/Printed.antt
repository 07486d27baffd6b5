-- ===== src/Sms/Printed.antt =====
-- The listing of a module that stores messages, line by line.
use ec200_at_abstraction.Prelude.{
  ℕ, zero, suc, ◌+◌, ◌≤◌, ◌≡◌, refl, sym, ap, ◌∙◌, List, [], ◌∷◌, ◌++◌, length, append_assoc,
  length-append, arith,
}
use ec200_at_abstraction.Text.{Text, codes, decimal, is_digit}
use ec200_at_abstraction.Text.Laws.{NoNul}
use ec200_at_abstraction.Text.Decimal.{AllDigits, decimal-AllDigits}
use ec200_at_abstraction.Sms.Inbox.{stat_string}
use ec200_at_abstraction.Sms.RoundTrip.{Entry, IsEntry, header, print}
use ec200_at_abstraction.Sms.Replies.{AllEntries}

-- The lines of a listing: two for each message.
abbrev pub lines : List Entry → List Text
lines [] = []
lines (e ∷ es) = header e ∷ e.body ∷ lines es

-- What stands in a listing behind its first text.
abbrev pub behind : List Entry → Text
behind [] = []
behind (e ∷ es) = b'\n' ∷ (header e ++ (b'\n' ∷ (e.body ++ behind es)))

pub append_nil : (t : Text) → t ++ [] ≡ t
append_nil [] = refl
append_nil (c ∷ t) = ap (λ u. c ∷ u) (append_nil t)

pub length-behind :
    (e : Entry) (es : List Entry)
    → length (behind (e ∷ es)) ≡ length (header e) + length e.body + length (behind es) + 2
length-behind e es = omega (
  arith,
  length-append (header e) (b'\n' ∷ (e.body ++ behind es)),
  length-append e.body (behind es),
)

pub join_behind :
    (t : Text) (e : Entry) (es : List Entry)
    → ((t ++ (b'\n' ∷ header e)) ++ (b'\n' ∷ e.body)) ++ behind es ≡ t ++ behind (e ∷ es)
join_behind t e es =
    append_assoc (t ++ (b'\n' ∷ header e)) (b'\n' ∷ e.body) (behind es)
    ∙ append_assoc t (b'\n' ∷ header e) (b'\n' ∷ (e.body ++ behind es))

pub print_behind :
    (e : Entry) (es : List Entry) → print (e ∷ es) ≡ header e ++ (b'\n' ∷ (e.body ++ behind es))
print_behind e [] = ap (λ u. header e ++ (b'\n' ∷ u)) (sym (append_nil e.body))
print_behind e (f ∷ es) =
    ap (λ u. header e ++ (b'\n' ∷ (e.body ++ (b'\n' ∷ u)))) (print_behind f es)

NoNul-append : (s t : Text) → NoNul s → NoNul t → NoNul (s ++ t)
NoNul-append [] t h k = k
NoNul-append (b ∷ s) t (n, h) k = (n, NoNul-append s t h k)

digits-NoNul : (s : Text) → AllDigits s → NoNul s
unfolding is_digit
digits-NoNul [] h = tt
digits-NoNul (c ∷ s) (d, h) = (ground (arith, d), digits-NoNul s h)

stat_string-NoNul : (k : ℕ) → NoNul (stat_string k)
stat_string-NoNul zero = omega arith
stat_string-NoNul (suc zero) = omega arith
stat_string-NoNul (suc (suc zero)) = omega arith
stat_string-NoNul (suc (suc (suc zero))) = omega arith
stat_string-NoNul (suc (suc (suc (suc k)))) = omega arith

header-NoNul : (e : Entry) → IsEntry e → NoNul (header e)
header-NoNul e v =
    let join = NoNul-append in
    join (codes "+CMGL: ") _ (omega arith) (
      join (decimal e.index) _
        (digits-NoNul _ (decimal-AllDigits e.index (omega (arith, v.index_word))).0)
        (join (codes ",\"") _ (omega arith) (
          join (stat_string e.stat) _ (stat_string-NoNul e.stat) (
            join (codes "\",\"") _ (omega arith) (
              join e.sender _ v.sender_text (
                join (codes "\",,\"") _ (omega arith)
                  (join e.timestamp (codes "\"") v.timestamp_text (omega arith))))))))

pub print-NoNul : (es : List Entry) → AllEntries es → NoNul (print es)
print-NoNul [] v = tt
print-NoNul (e ∷ []) (v, _) =
    NoNul-append (header e) _ (header-NoNul e v) ((λ h. omega arith), v.body_text)
print-NoNul (e ∷ f ∷ es) (v, vs) = NoNul-append (header e) _ (header-NoNul e v) (
  (λ h. omega arith),
  NoNul-append e.body _ v.body_text ((λ h. omega arith), print-NoNul (f ∷ es) vs),
)

pub print_room :
    (e : Entry) (es : List Entry) (n : ℕ)
    → length (print (e ∷ es)) + 2 ≤ suc n
    → length (header e) + length e.body + length (behind es) + 2 ≤ n
print_room e es n fits = omega (
  arith,
  ap length (print_behind e es),
  fits,
  length-append (header e) (b'\n' ∷ (e.body ++ behind es)),
  length-append e.body (behind es),
)
