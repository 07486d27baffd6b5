-- ===== src/Tcpip/Replies.antt =====
-- The replies on ping and name resolution, read back from their printed form.
use ec200_at_abstraction.Prelude.{
  ℕ, zero, suc, ◌+◌, ◌-◌, ◌%◌, ◌^◌, ◌<◌, ◌≡◌, refl, ap, ◌∙◌, ℤ, pos, ◌==◌, if◌then◌else◌, List, [],
  ◌∷◌, Option, none, some, arith,
}
use ec200_at_abstraction.Text.{Text, codes, cut}
use ec200_at_abstraction.Text.Laws.{Free, cut-append}
use ec200_at_abstraction.Handle.{Status, ok, err_module}
use ec200_at_abstraction.At.Field.{parse_int_field}
use ec200_at_abstraction.At.Printed.{
  Item, item, number, quoted, reply_line, AllItems, nth_number, parse_int_field-nth_number,
}
use ec200_at_abstraction.Sms.Header.{next_quoted, copy_cut}
use ec200_at_abstraction.Sms.RoundTrip.{next_quoted-append}
use ec200_at_abstraction.Cast.{to_unsigned}
use ec200_at_abstraction.Tcpip.Ping.{PingResult, int_fields, ping_summary, ping_line}
use ec200_at_abstraction.Tcpip.Resolve.{quoted_after_comma, store_address, resolve_failed}

-- A result whose counts fit uint16_t and whose times fit an int.
pub record IsPing (r : PingResult) : Type 0 where
  pub sent_word : r.sent < 2 ^ 16
  pub received_word : r.received < 2 ^ 16
  pub lost_word : r.lost < 2 ^ 16
  pub min_int : r.min_rtt_ms < 2 ^ 31
  pub max_int : r.max_rtt_ms < 2 ^ 31
  pub avg_int : r.avg_rtt_ms < 2 ^ 31

-- <err>,<sent>,<rcvd>,<lost>,<min>,<max>,<avg>
abbrev pub summary_items : ℕ → PingResult → List Item
summary_items err r =
    number err
    ∷ number r.sent
    ∷ number r.received
    ∷ number r.lost
    ∷ number r.min_rtt_ms
    ∷ number r.max_rtt_ms
    ∷ number r.avg_rtt_ms
    ∷ []

-- <err>,"<address>",<bytes>,<time>,<ttl>
abbrev pub echo_items : Text → ℕ → ℕ → ℕ → List Item
echo_items address bytes time ttl =
    number 0 ∷ quoted address ∷ number bytes ∷ number time ∷ number ttl ∷ []

-- The fields of `is` from `k` on, if all are numbers.
abbrev nth_numbers : List Item → ℕ → ℕ → Option (List ℤ)
nth_numbers is k zero = some []
nth_numbers is k (suc left) = elim (nth_number is k) [
  | none ↦ none
  | some v ↦ elim (nth_numbers is (k + 1) left) [ none ↦ none | some f ↦ some (v ∷ f) ]
]

int_fields-nth_numbers :
    (is : List Item) (k left : ℕ)
    → AllItems is
    → int_fields (reply_line (codes "+QPING") is) k left ≡ nth_numbers is k left
unfolding int_fields
int_fields-nth_numbers is k zero h = refl
int_fields-nth_numbers is k (suc left) h =
    ap (λ o. first o (int_fields (reply_line (codes "+QPING") is) (k + 1) left))
      (parse_int_field-nth_number (codes "+QPING") is k (omega arith) h)
    ∙ ap (first (nth_number is k)) (int_fields-nth_numbers is (k + 1) left h)
  where
    first : Option ℤ → Option (List ℤ) → Option (List ℤ)
    first o rest = elim o [
      | none ↦ none
      | some v ↦ elim rest [ none ↦ none | some f ↦ some (v ∷ f) ]
    ]

ping_line_lem :
    (resp : Text) (res : PingResult) (o : Option (List ℤ))
    → int_fields resp 0 7 ≡ o
    → ping_line resp res ≡ (elim o [ none ↦ none | some f ↦ some (ping_summary f res) ])
unfolding ping_line
ping_line_lem resp res o e = rw (ping_line, e) refl

abbrev summary : ℕ → ℕ → ℕ → ℕ → ℕ → ℕ → Status × PingResult
summary a b c d e f = (
  ok,
  record { sent = a; received = b; lost = c; min_rtt_ms = d; max_rtt_ms = e; avg_rtt_ms = f },
)

result_back :
    (a b c d e f : ℕ)
    → a < 2 ^ 16
    → b < 2 ^ 16
    → c < 2 ^ 16
    → d < 2 ^ 31
    → e < 2 ^ 31
    → f < 2 ^ 31
    → summary (a % 2 ^ 16) (b % 2 ^ 16) (c % 2 ^ 16) (d % 2 ^ 32) (e % 2 ^ 32) (f % 2 ^ 32)
      ≡ summary a b c d e f
result_back a b c d e f ha hb hc hd he hf =
    ap (λ k. summary k (b % 2 ^ 16) (c % 2 ^ 16) (d % 2 ^ 32) (e % 2 ^ 32) (f % 2 ^ 32))
      (omega arith)
    ∙ ap (λ k. summary a k (c % 2 ^ 16) (d % 2 ^ 32) (e % 2 ^ 32) (f % 2 ^ 32)) (omega arith)
    ∙ ap (λ k. summary a b k (d % 2 ^ 32) (e % 2 ^ 32) (f % 2 ^ 32)) (omega arith)
    ∙ ap (λ k. summary a b c k (e % 2 ^ 32) (f % 2 ^ 32)) (omega arith)
    ∙ ap (λ k. summary a b c d k (f % 2 ^ 32)) (omega arith)
    ∙ ap (λ k. summary a b c d e k) (omega arith)

-- What a round of ec200_tcp_ping makes of the lines of the module: the result of six numbers that fit its
-- fields, from a summary without an error; EC200_ERR_MODULE and the result unchanged, from one with an
-- error number; nothing, from the line of a single reply, whose second field is a quoted address.
pub ping_line-reply_line :
    (r res : PingResult) (err : ℕ) (address : Text) (bytes time ttl : ℕ)
    → IsPing r
    → 0 < err
    → err < 2 ^ 31
    → Free b'"' address
    → bytes < 2 ^ 31
    → time < 2 ^ 31
    → ttl < 2 ^ 31
    → (ping_line (reply_line (codes "+QPING") (summary_items 0 r)) res ≡ some (ok, r))
      × (ping_line (reply_line (codes "+QPING") (summary_items err r)) res ≡ some (err_module, res))
      × (ping_line (reply_line (codes "+QPING") (echo_items address bytes time ttl)) res ≡ none)
unfolding ping_summary to_unsigned
ping_line-reply_line r res err address bytes time ttl v failed err_int free bytes_int time_int
      ttl_int =
    (
      ping_line_lem (line (summary_items 0 r)) res _
            (int_fields-nth_numbers (summary_items 0 r) 0 7 (all 0 (omega arith)))
          ∙ ap some (
              result_back r.sent r.received r.lost r.min_rtt_ms r.max_rtt_ms r.avg_rtt_ms
                v.sent_word v.received_word v.lost_word v.min_int v.max_int v.avg_int),
      ap (λ k. ping_line (line (summary_items k r)) res) (omega arith)
          ∙ ping_line_lem (line (summary_items (suc (err - 1)) r)) res _ (
              int_fields-nth_numbers (summary_items (suc (err - 1)) r) 0 7
                (all (suc (err - 1)) (omega arith))),
      ping_line_lem (line (echo_items address bytes time ttl)) res _ (
          int_fields-nth_numbers (echo_items address bytes time ttl) 0 7
            (omega arith, (free, (bytes_int, (time_int, (ttl_int, tt)))))),
    )
  where
    line : List Item → Text
    line is = reply_line (codes "+QPING") is

    all : (n : ℕ) → n < 2 ^ 31 → AllItems (summary_items n r)
    all n h = (
      h,
      (
        omega (arith, v.sent_word),
        (
          omega (arith, v.received_word),
          (omega (arith, v.lost_word), (v.min_int, (v.max_int, (v.avg_int, tt)))),
        ),
      ),
    )

-- "dnsgip","<address>"
abbrev pub address_items : Text → List Item
address_items address = quoted (codes "dnsgip") ∷ quoted address ∷ []

-- "dnsgip",<err>,<count>,<ttl>
abbrev pub answer_items : ℕ → ℕ → ℕ → List Item
answer_items err count ttl = quoted (codes "dnsgip") ∷ number err ∷ number count ∷ number ttl ∷ []

store_address_lem :
    (resp before behind address rest : Text) (ip : List ℕ)
    → cut b',' resp ≡ some (before, behind)
    → next_quoted behind ≡ some (address, rest)
    → store_address resp ip ≡ (ok, copy_cut address ip)
unfolding store_address quoted_after_comma
store_address_lem resp before behind address rest ip e k =
    rw (store_address, quoted_after_comma, e, k) refl

resolve_failed_lem :
    (resp : Text) (o : Option ℤ)
    → parse_int_field resp 1 ≡ o
    → resolve_failed resp ≡ (elim o [
      | none ↦ ok
      | some (pos err) ↦ if err == 0 then ok else err_module
      | some _ ↦ err_module
    ])
unfolding resolve_failed
resolve_failed_lem resp o e = rw (resolve_failed, e) refl

-- What ec200_tcp_dns_resolve makes of the lines of the module: a first line with the error 0 lets it go
-- on, one with another error is EC200_ERR_MODULE, and from the line of a quoted address without quotes
-- that address, cut to the caller's array, is stored.
pub store_address-reply_line :
    (err count ttl : ℕ) (address : Text) (ip : List ℕ)
    → err < 2 ^ 31
    → count < 2 ^ 31
    → ttl < 2 ^ 31
    → Free b'"' address
    → (resolve_failed (reply_line (codes "+QIURC") (answer_items err count ttl))
        ≡ (if err == 0 then ok else err_module))
      × (store_address (reply_line (codes "+QIURC") (address_items address)) ip
          ≡ (ok, copy_cut address ip))
store_address-reply_line err count ttl address ip err_int count_int ttl_int free = (
  resolve_failed_lem _ (some (pos err)) (
      parse_int_field-nth_number (codes "+QIURC") (answer_items err count ttl) 1 (omega arith)
        (omega arith, (err_int, (count_int, (ttl_int, tt))))),
  store_address_lem _ (codes "+QIURC: \"dnsgip\"") (item (quoted address)) address [] ip
      (cut-append b',' (codes "+QIURC: \"dnsgip\"") (item (quoted address)) (omega arith))
      (next_quoted-append [] address [] tt free),
)
