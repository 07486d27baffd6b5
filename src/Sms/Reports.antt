-- ===== src/Sms/Reports.antt =====
-- The replies on storage, indication and new messages, read back from their printed form.
use ec200_at_abstraction.Prelude.{
  ℕ, zero, suc, ◌+◌, ◌*◌, ◌%◌, ◌^◌, ◌≤◌, ◌<◌, ◌≡◌, refl, ap, ◌∙◌, pos, true, false, List, [], ◌∷◌,
  ◌++◌, some, arith, append_assoc, if_false, ltb, replicate,
}
use ec200_at_abstraction.Text.{Text, codes, c_str, starts_with, text_eq, memcpy_at}
use ec200_at_abstraction.Text.Laws.{Free}
use ec200_at_abstraction.Handle.{ok}
use ec200_at_abstraction.At.Field.{parse_int_field}
use ec200_at_abstraction.At.Printed.{
  Item, number, quoted, items, reply_line, AllItems, nth_number, parse_int_field-nth_number,
}
use ec200_at_abstraction.Sms.Header.{copy_cut, extract_quoted}
use ec200_at_abstraction.Sms.RoundTrip.{extract_quoted-append}
use ec200_at_abstraction.Sms.Parse.{
  mem_string, mem_from_string, MemUsage, Storage, usage_at, parse_cpms_usage, Cnmi, byte_at,
  parse_cnmi, Notification, notified_index, sms_parse_notification,
}
use ec200_at_abstraction.Sms.Settings.{bad_cnmi, cnmi_command}

abbrev usage : ℕ → ℕ → MemUsage
usage used total = record { used = used; total = total }

usage_at_lem :
    (line : Text) (base : ℕ) (u : MemUsage)
    → parse_int_field line base ≡ some (pos u.used)
    → parse_int_field line (base + 1) ≡ some (pos u.total)
    → u.used < 2 ^ 16
    → u.total < 2 ^ 16
    → usage_at line base ≡ some u
unfolding usage_at
usage_at_lem line base u e k h l = rw (usage_at, e, k) (ap some (words u.used u.total h l))
  where
    words : (m n : ℕ) → m < 2 ^ 16 → n < 2 ^ 16 → usage (m % 2 ^ 16) (n % 2 ^ 16) ≡ usage m n
    words m n h l = ap (λ k. usage k (n % 2 ^ 16)) (omega arith) ∙ ap (usage m) (omega arith)

abbrev IsUsage : MemUsage → Type 0
IsUsage u = (u.used < 2 ^ 16) × (u.total < 2 ^ 16)

-- Numbers that fit the fields of ec200_sms_storage_t.
pub record IsStorage (s : Storage) : Type 0 where
  pub read_delete_words : IsUsage s.read_delete
  pub write_send_words : IsUsage s.write_send
  pub receive_words : IsUsage s.receive

-- <used>,<total> of each area.
abbrev pub set_form : Storage → List Item
set_form s =
    number s.read_delete.used
    ∷ number s.read_delete.total
    ∷ number s.write_send.used
    ∷ number s.write_send.total
    ∷ number s.receive.used
    ∷ number s.receive.total
    ∷ []

-- "<name>",<used>,<total> of each area.
abbrev pub query_form : Text → Text → Text → Storage → List Item
query_form a b c s =
    quoted a
    ∷ number s.read_delete.used
    ∷ number s.read_delete.total
    ∷ quoted b
    ∷ number s.write_send.used
    ∷ number s.write_send.total
    ∷ quoted c
    ∷ number s.receive.used
    ∷ number s.receive.total
    ∷ []

parse_cpms_usage_lem :
    (line : Text) (first stride : ℕ) (s out : Storage)
    → usage_at line first ≡ some s.read_delete
    → usage_at line (first + stride) ≡ some s.write_send
    → usage_at line (first + 2 * stride) ≡ some s.receive
    → parse_cpms_usage line first stride out ≡ (ok, s)
unfolding parse_cpms_usage
parse_cpms_usage_lem line first stride s out e k l = rw (parse_cpms_usage, e, k, l) refl

-- A storage whose six numbers are below 2^16 is read back by parse_cpms_usage from both replies: from six
-- numbers with the positions of ec200_sms_set_storage, and from numbers between names without quotes with
-- the positions of ec200_sms_get_storage.
pub parse_cpms_usage-reply_line :
    (s out : Storage) (a b c : Text)
    → IsStorage s
    → Free b'"' a
    → Free b'"' b
    → Free b'"' c
    → (parse_cpms_usage (reply_line (codes "+CPMS") (set_form s)) 0 2 out ≡ (ok, s))
      × (parse_cpms_usage (reply_line (codes "+CPMS") (query_form a b c s)) 1 3 out ≡ (ok, s))
parse_cpms_usage-reply_line s out a b c v fa fb fc = (
  form (set_form s) 0 2 (omega arith) refl refl refl refl refl refl,
  form (query_form a b c s) 1 3
      (
        fa,
        (
          omega (arith, v.read_delete_words),
          (
            omega (arith, v.read_delete_words),
            (
              fb,
              (
                omega (arith, v.write_send_words),
                (
                  omega (arith, v.write_send_words),
                  (fc, (omega (arith, v.receive_words), (omega (arith, v.receive_words), tt))),
                ),
              ),
            ),
          ),
        ),
      )
      refl refl refl refl refl refl,
)
  where
    form :
        (is : List Item) (first stride : ℕ)
        → AllItems is
        → nth_number is first ≡ some (pos s.read_delete.used)
        → nth_number is (first + 1) ≡ some (pos s.read_delete.total)
        → nth_number is (first + stride) ≡ some (pos s.write_send.used)
        → nth_number is (first + stride + 1) ≡ some (pos s.write_send.total)
        → nth_number is (first + 2 * stride) ≡ some (pos s.receive.used)
        → nth_number is (first + 2 * stride + 1) ≡ some (pos s.receive.total)
        → parse_cpms_usage (reply_line (codes "+CPMS") is) first stride out ≡ (ok, s)
    form is first stride all e0 e1 e2 e3 e4 e5 =
        let line = reply_line (codes "+CPMS") is in
        let at = λ (k : ℕ). parse_int_field-nth_number (codes "+CPMS") is k (omega arith) all in
        parse_cpms_usage_lem line first stride s out
          (usage_at_lem line first s.read_delete (at _ ∙ e0) (at _ ∙ e1) v.read_delete_words.0
            v.read_delete_words.1)
          (usage_at_lem line (first + stride) s.write_send (at _ ∙ e2) (at _ ∙ e3)
            v.write_send_words.0 v.write_send_words.1)
          (usage_at_lem line (first + 2 * stride) s.receive (at _ ∙ e4) (at _ ∙ e5)
            v.receive_words.0 v.receive_words.1)

-- The fields of AT+CNMI=… and of its reply.
abbrev pub cnmi_items : Cnmi → List Item
cnmi_items c = number c.mode ∷ number c.mt ∷ number c.bm ∷ number c.ds ∷ number c.bfr ∷ []

byte_at_lem :
    (line : Text) (i n : ℕ)
    → parse_int_field line i ≡ some (pos n)
    → n ≤ 255
    → byte_at line i ≡ some n
unfolding byte_at
byte_at_lem line i n e h = rw (byte_at, e) (if_false (ltb 255 n) _ _ (ground arith))

parse_cnmi_lem :
    (line : Text) (c : Cnmi)
    → byte_at line 0 ≡ some c.mode
    → byte_at line 1 ≡ some c.mt
    → byte_at line 2 ≡ some c.bm
    → byte_at line 3 ≡ some c.ds
    → byte_at line 4 ≡ some c.bfr
    → parse_cnmi line ≡ some c
unfolding parse_cnmi
parse_cnmi_lem line c e0 e1 e2 e3 e4 = rw (parse_cnmi, e0, e1, e2, e3, e4) refl

abbrev Small : Cnmi → Type 0
Small c = (c.mode ≤ 255) × (c.mt ≤ 255) × (c.bm ≤ 255) × (c.ds ≤ 255) × (c.bfr ≤ 255)

bad_cnmi-Small : (c : Cnmi) → bad_cnmi c ≡ false → Small c
unfolding bad_cnmi
bad_cnmi-Small c h = ground (arith, h)

-- An indication that ec200_sms_set_indication accepts is sent as fields that ec200_sms_get_indication
-- reads back, from a reply of the same fields, as the same indication.
pub parse_cnmi-reply_line :
    (c : Cnmi)
    → bad_cnmi c ≡ false
    → (cnmi_command c ≡ codes "AT+CNMI=" ++ items (cnmi_items c))
      × (parse_cnmi (reply_line (codes "+CNMI") (cnmi_items c)) ≡ some c)
unfolding bad_cnmi
parse_cnmi-reply_line c h = (
  refl,
  parse_cnmi_lem line c (at 0 c.mode refl small.0) (at 1 c.mt refl small.1) (at 2 c.bm refl small.2)
      (at 3 c.ds refl small.3) (at 4 c.bfr refl small.4),
)
  where
    small : Small c
    small = bad_cnmi-Small c h

    line : Text
    line = reply_line (codes "+CNMI") (cnmi_items c)

    at : (i n : ℕ) → nth_number (cnmi_items c) i ≡ some (pos n) → n ≤ 255 → byte_at line i ≡ some n
    at i n e l =
        byte_at_lem line i n
          (parse_int_field-nth_number (codes "+CNMI") (cnmi_items c) i (omega arith)
              (omega (arith, small))
            ∙ e)
          l

mem_known :
    (k : ℕ)
    → k ≤ 2
    → Free b'"' (mem_string k)
      × (mem_from_string (c_str (copy_cut (mem_string k) (replicate 8 0))) ≡ some k)
unfolding mem_from_string text_eq copy_cut c_str memcpy_at
mem_known zero h = (omega arith, refl)
mem_known (suc zero) h = (omega arith, refl)
mem_known (suc (suc zero)) h = (omega arith, refl)
mem_known (suc (suc (suc k))) h = absurd (omega arith)

abbrev pub notification : ℕ → ℕ → Notification
notification mem index = record { mem = mem; index = pos index }

notified_index_lem :
    (line : Text) (index : ℕ) (out : Notification)
    → parse_int_field line 1 ≡ some (pos index)
    → notified_index line out ≡ (ok, record out { index = pos index })
unfolding notified_index
notified_index_lem line index out e = rw (notified_index, e) refl

sms_parse_notification_lem :
    (line : Text) (out : Notification) (a : List ℕ) (rest : Text) (k : ℕ)
    → starts_with (codes "+CMTI:") line ≡ true
    → extract_quoted line (replicate 8 0) ≡ some (a, rest)
    → mem_from_string (c_str a) ≡ some k
    → sms_parse_notification (some line) out ≡ notified_index line (record out { mem = k })
unfolding sms_parse_notification
sms_parse_notification_lem line out a rest k s e m = rw (sms_parse_notification, s, e, m) refl

-- The line +CMTI: "<storage>",<index> of a known storage and an index below 2^31 is read by
-- ec200_sms_parse_notification as that storage and that index, whatever its result held before.
pub sms_parse_notification-reply_line :
    (mem index : ℕ) (out : Notification)
    → mem ≤ 2
    → index < 2 ^ 31
    → sms_parse_notification
        (some (reply_line (codes "+CMTI") (quoted (mem_string mem) ∷ number index ∷ [])))
        out
      ≡ (ok, notification mem index)
unfolding starts_with
sms_parse_notification-reply_line mem index out known small =
    let is = quoted (mem_string mem) ∷ number index ∷ [] in
    let line = reply_line (codes "+CMTI") is in
    let (free, back) = mem_known mem known in
    sms_parse_notification_lem line out (copy_cut (mem_string mem) (replicate 8 0))
      (b',' ∷ items (number index ∷ [])) mem refl
      (ap (λ s. extract_quoted (codes "+CMTI: \"" ++ s) (replicate 8 0))
          (append_assoc (mem_string mem) (b'"' ∷ []) _)
        ∙ extract_quoted-append (codes "+CMTI: ") (mem_string mem) _ (replicate 8 0) (omega arith)
            free)
      back
    ∙ notified_index_lem line index (record out { mem = mem })
        (parse_int_field-nth_number (codes "+CMTI") is 1 (omega arith) (free, (small, tt)))
