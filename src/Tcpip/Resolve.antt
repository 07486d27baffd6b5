-- ===== src/Tcpip/Resolve.antt =====
-- src/ec200_tcpip.c: ec200_tcp_dns_resolve.
use ec200_at_abstraction.Prelude.{
  ℕ, pos, ◌||◌, List, ◌∷◌, ◌++◌, Option, none, some, leb, ◌==◌, if◌then◌else◌, length,
}
use ec200_at_abstraction.Text.{Text, codes, decimal, cut}
use ec200_at_abstraction.Handle.{Platform, Status, ok, err_param, err_parse, err_module}
use ec200_at_abstraction.Exec.{Exec, pure, ◌>>=◌, if_ok_else}
use ec200_at_abstraction.Query.{await_urc, await_prefix}
use ec200_at_abstraction.At.Field.{parse_int_field}
use ec200_at_abstraction.Sms.Header.{next_quoted, copy_cut}
use ec200_at_abstraction.Tcpip.Socket.{max_url_len, bad_context}

-- The quoted string behind the first comma.
unfoldable pub quoted_after_comma : Text → Option Text
quoted_after_comma resp = elim (cut b',' resp) [
  | none ↦ none
  | some (_, behind) ↦ elim (next_quoted behind) [ none ↦ none | some (s, _) ↦ some s ]
]

-- The address line of ec200_tcp_dns_resolve, cut to the caller's array.
unfoldable pub store_address : Text → List ℕ → Status × List ℕ
unfolding quoted_after_comma
store_address resp ip = elim (quoted_after_comma resp) [
  | none ↦ (err_parse, ip)
  | some address ↦ (ok, copy_cut address ip)
]

-- The error of the first line, if it states one.
unfoldable pub resolve_failed : Text → Status
resolve_failed resp = elim (parse_int_field resp 1) [
  | none ↦ ok
  | some (pos err) ↦ if err == 0 then ok else err_module
  | some _ ↦ err_module
]

-- AT+QIDNSGIP=<ctx>,"<host>"
abbrev pub resolve_command : ℕ → Text → Text
resolve_command pdp_ctx host =
    codes "AT+QIDNSGIP=" ++ (decimal pdp_ctx ++ (codes ",\"" ++ (host ++ codes "\"")))

-- The prefix of both lines.
abbrev pub dnsgip : Text
dnsgip = codes "+QIURC: \"dnsgip\""

module _ {W : Type 0} (p : Platform W) (fuel : ℕ) where
  -- The part of ec200_tcp_dns_resolve behind its first line.
  unfoldable pub await_address : List ℕ → ℕ → Exec W (Status × List ℕ)
  unfolding store_address
  await_address ip timeout_ms = do
    (st, resp) ← await_prefix p fuel dnsgip 128 timeout_ms
    if_ok_else st ip (pure (store_address resp ip))

  -- ec200_tcp_dns_resolve into an array; a NULL array is as an empty one, a NULL host is `none`.
  unfoldable pub tcp_dns_resolve : ℕ → Option Text → List ℕ → ℕ → Exec W (Status × List ℕ)
  unfolding await_address resolve_failed
  tcp_dns_resolve pdp_ctx (some (c ∷ host)) ip timeout_ms =
      if length ip == 0 || bad_context pdp_ctx || leb max_url_len (length (c ∷ host))
      then pure (err_param, ip)
      else do
        (st, resp) ← await_urc p fuel (resolve_command pdp_ctx (c ∷ host)) dnsgip 128 timeout_ms
        if_ok_else st ip (if_ok_else (resolve_failed resp) ip (await_address ip timeout_ms))
  tcp_dns_resolve pdp_ctx host ip timeout_ms = pure (err_param, ip)
