-- ===== src/Http/Results.antt =====
-- src/ec200_http.c: the result lines +QHTTPGET, +QHTTPPOST and +QHTTPREAD, read back from their printed form.
use ec200_at_abstraction.Prelude.{
  ℕ, ◌%◌, ◌^◌, ◌<◌, ◌≡◌, refl, ap, ◌∙◌, ℤ, pos, ◌==◌, if◌then◌else◌, List, [], ◌∷◌, Option, none,
  some, arith,
}
use ec200_at_abstraction.Text.{Text}
use ec200_at_abstraction.Text.Laws.{Free}
use ec200_at_abstraction.Cast.{to_unsigned}
use ec200_at_abstraction.Handle.{Status, ok, err_module}
use ec200_at_abstraction.At.Field.{parse_int_field}
use ec200_at_abstraction.At.Printed.{Item, number, reply_line, AllItems, parse_int_field-nth_number}
use ec200_at_abstraction.Http.Calls.{
  HttpResponse, optional_field, length_of, http_result, parse_http_result,
}

-- A response whose length an int holds.
pub record IsResponse (r : HttpResponse) : Type 0 where
  pub code_word : r.status_code < 2 ^ 16
  pub length_int : r.content_length < 2 ^ 31

-- <err>,<status>,<length>
abbrev pub result_items : ℕ → HttpResponse → List Item
result_items err r = number err ∷ number r.status_code ∷ number r.content_length ∷ []

-- What the caller gets for an error number and a response.
abbrev pub outcome : ℕ → HttpResponse → HttpResponse → Status × HttpResponse
outcome err r before = if err == 0 then (ok, r) else (err_module, before)

parse_http_result_of :
    (line : Text) (before : HttpResponse) (err : ℕ) (status size : Option ℤ)
    → parse_int_field line 0 ≡ some (pos err)
    → parse_int_field line 1 ≡ status
    → parse_int_field line 2 ≡ size
    → parse_http_result line before
      ≡ outcome err
          (record {
            status_code = to_unsigned 16 (elim status [ none ↦ pos 0 | some z ↦ z ]);
            content_length = length_of (elim size [ none ↦ pos 0 | some z ↦ z ]);
          })
          before
unfolding parse_http_result http_result optional_field
parse_http_result_of line before err status size e0 e1 e2 =
    rw (parse_http_result, e0, http_result, optional_field, e1, e2) refl

-- On a line of a prefix without a colon, a colon, a space and printed numbers below 2^31 with commas
-- between them, of which the second fits 16 bits: parse_http_result gives EC200_OK and the response of
-- the second and third number, each 0 where the line ends behind the first, if the first number is 0,
-- and otherwise EC200_ERR_MODULE and no response.
pub parse_http_result-reply_line :
    (prefix : Text) (err : ℕ) (r before : HttpResponse)
    → Free b':' prefix
    → err < 2 ^ 31
    → IsResponse r
    → (parse_http_result (reply_line prefix (result_items err r)) before ≡ outcome err r before)
      × (parse_http_result (reply_line prefix (number err ∷ [])) before
          ≡ outcome err (record { status_code = 0; content_length = 0 }) before)
unfolding to_unsigned length_of
parse_http_result-reply_line prefix err r before free small v =
    let known : AllItems (result_items err r) =
      (small, (omega (arith, v.code_word), (v.length_int, tt))) in
    let alone : AllItems (number err ∷ []) = (small, tt) in
    let field = λ (k : ℕ). parse_int_field-nth_number prefix (result_items err r) k free known in
    let bare = λ (k : ℕ). parse_int_field-nth_number prefix (number err ∷ []) k free alone in
    (
      parse_http_result_of _ before err _ _ (field 0) (field 1) (field 2)
          ∙ ap (λ r. outcome err r before) (same_response r v),
      parse_http_result_of _ before err _ _ (bare 0) (bare 1) (bare 2),
    )
  where
    same_response :
        (r : HttpResponse)
        → IsResponse r
        → record {
          status_code = r.status_code % 2 ^ 16;
          content_length = r.content_length % 2 ^ 32;
        }
          ≡ r
    same_response r v =
        ap (λ (c : ℕ). record { status_code = c; content_length = r.content_length % 2 ^ 32 })
          (omega (arith, v.code_word))
        ∙ ap (λ (n : ℕ). record { status_code = r.status_code; content_length = n })
            (omega (arith, v.length_int))
