-- ===== src/Http/Calls.antt =====
-- src/ec200_http.c: the functions of the HTTP client.
use ec200_at_abstraction.Prelude.{
  ℕ, ◌/◌, ◌%◌, ◌^◌, ℤ, pos, negsuc, Bool, true, ◌||◌, List, ◌++◌, Option, none, some, length, ltb,
  ◌==◌, if◌then◌else◌,
}
use ec200_at_abstraction.Cast.{to_unsigned}
use ec200_at_abstraction.Text.{Text, codes, decimal, decimal_ℤ}
use ec200_at_abstraction.Handle.{
  Platform, Status, ok, err_param, err_parse, err_module, err_overflow, timeout_default,
  timeout_long,
}
use ec200_at_abstraction.Exec.{Exec, pure, ◌>>=◌, if_ok, if_ok_else}
use ec200_at_abstraction.At.Field.{parse_int_field}
use ec200_at_abstraction.At.Raw.{RawRead}
use ec200_at_abstraction.At.Tx.{write_raw}
use ec200_at_abstraction.At.Wait.{wait_final}
use ec200_at_abstraction.Tcpip.Socket.{max_url_len}
use ec200_at_abstraction.Http.Body.{read_body_until_ok}
use ec200_at_abstraction.Query.{send_command, expect, await_urc, await_prefix}

-- ec200_http_response_t
pub record HttpResponse : Type 0 where
  pub status_code : ℕ
  pub content_length : ℕ

-- timeout_secs
unfoldable pub timeout_secs : ℕ → ℕ
timeout_secs timeout_ms =
    let s = timeout_ms / 1000 in
    let s' = if ltb s 1 then 1 else s in if ltb 65535 s' then 65535 else s'

-- An int that holds 0 unless ec200_at_parse_int_field stores a field in it.
unfoldable pub optional_field : Text → ℕ → ℤ
optional_field line index = elim (parse_int_field line index) [ none ↦ pos 0 | some z ↦ z ]

-- (uint32_t)((clen > 0) ? clen : 0)
unfoldable pub length_of : ℤ → ℕ
length_of (pos n) = n % 2 ^ 32
length_of (negsuc n) = 0

-- parse_http_result behind its first field.
unfoldable pub http_result : Text → ℤ → HttpResponse → Status × HttpResponse
unfolding optional_field length_of to_unsigned
http_result line (negsuc _) resp = (err_module, resp)
http_result line (pos err) resp =
    if err == 0
    then (
      ok,
      record {
        status_code = to_unsigned 16 (optional_field line 1);
        content_length = length_of (optional_field line 2);
      },
    )
    else (err_module, resp)

-- parse_http_result
unfoldable pub parse_http_result : Text → HttpResponse → Status × HttpResponse
unfolding http_result
parse_http_result line resp = elim (parse_int_field line 0) [
  | none ↦ (err_parse, resp)
  | some err ↦ http_result line err resp
]

-- "AT+QHTTPURL=%u,80"
unfoldable pub url_command : ℕ → Text
url_command size = codes "AT+QHTTPURL=" ++ (decimal size ++ codes ",80")

-- "AT+QHTTPCFG=\"contenttype\",%d"
unfoldable pub content_type_command : ℤ → Text
content_type_command content_type = codes "AT+QHTTPCFG=\"contenttype\"," ++ decimal_ℤ content_type

-- "AT+QHTTPPOST=%u,%u,%u"
unfoldable pub post_command : ℕ → ℕ → Text
unfolding timeout_secs
post_command size timeout_ms =
    let secs = decimal (timeout_secs timeout_ms) in
    codes "AT+QHTTPPOST=" ++ (decimal size ++ (codes "," ++ (secs ++ (codes "," ++ secs))))

-- (int)content_type < 0 || (int)content_type > 4
unfoldable pub bad_content_type : ℤ → Bool
bad_content_type (pos n) = ltb 4 n
bad_content_type (negsuc n) = true

-- The status that ec200_http_read makes of a +QHTTPREAD line, for a body that was read with `st`.
unfoldable pub read_verdict : Status → Text → Status
read_verdict st line = elim (parse_int_field line 0) [
  | none ↦ st
  | some (pos err) ↦ if err == 0 then st else err_module
  | some (negsuc _) ↦ err_module
]

module _ {W : Type 0} (p : Platform W) (fuel : ℕ) where
  -- ec200_http_set_context
  unfoldable pub http_set_context : ℕ → Exec W Status
  http_set_context ctx_id =
      if ltb ctx_id 1 || ltb 16 ctx_id
      then pure err_param
      else send_command p fuel (codes "AT+QHTTPCFG=\"contextid\"," ++ decimal ctx_id)
          timeout_default

  -- ec200_http_set_ssl_context
  unfoldable pub http_set_ssl_context : ℕ → Exec W Status
  http_set_ssl_context ssl_ctx =
      if ltb 5 ssl_ctx
      then pure err_param
      else send_command p fuel (codes "AT+QHTTPCFG=\"sslctxid\"," ++ decimal ssl_ctx)
          timeout_default

  -- ec200_http_set_url behind its guards.
  unfoldable pub send_url : Text → Exec W Status
  send_url url = do
    st ← expect p fuel (url_command (length url)) (codes "CONNECT") 32 timeout_default
    if_ok st (do st ← write_raw p fuel (some url); if_ok st (wait_final p fuel timeout_default))

  -- ec200_http_set_url; a NULL URL is `none`.
  unfoldable pub http_set_url : Option Text → Exec W Status
  unfolding send_url
  http_set_url none = pure err_param
  http_set_url (some url) =
      if length url == 0 || ltb max_url_len (length url) then pure err_param else send_url url

  -- ec200_http_get; a NULL response is `none`.
  unfoldable pub http_get : ℕ → Option HttpResponse → Exec W (Status × Option HttpResponse)
  unfolding parse_http_result timeout_secs
  http_get timeout_ms none = pure (err_param, none)
  http_get timeout_ms (some resp) = do
    (st, raw) ←
        await_urc p fuel (codes "AT+QHTTPGET=" ++ decimal (timeout_secs timeout_ms))
          (codes "+QHTTPGET:") 128 timeout_ms
    let (st', resp') = parse_http_result raw resp
    if_ok_else st (some resp) (pure (st', some resp'))

  -- ec200_http_post behind its second write: the final response and the result.
  unfoldable pub post_answer : ℕ → HttpResponse → Exec W (Status × Option HttpResponse)
  unfolding parse_http_result
  post_answer timeout_ms resp = do
    st ← wait_final p fuel timeout_long
    if_ok_else st (some resp) (do
      (st, raw) ← await_prefix p fuel (codes "+QHTTPPOST:") 128 timeout_ms
      let (st', resp') = parse_http_result raw resp
      if_ok_else st (some resp) (pure (st', some resp')))

  -- ec200_http_post behind its guards.
  unfoldable pub post : List ℕ → ℤ → ℕ → HttpResponse → Exec W (Status × Option HttpResponse)
  unfolding post_answer
  post body content_type timeout_ms resp = do
    st ← send_command p fuel (content_type_command content_type) timeout_default
    if_ok_else st (some resp) (do
      st ←
          expect p fuel (post_command (length body) timeout_ms) (codes "CONNECT") 32
            (if ltb timeout_default timeout_ms then timeout_ms else timeout_default)
      if_ok_else st (some resp) (do
        st ← write_raw p fuel (some body)
        if_ok_else st (some resp) (post_answer timeout_ms resp)))

  -- ec200_http_post; a NULL body or response is `none`.
  unfoldable pub http_post :
      Option (List ℕ) → ℤ → ℕ → Option HttpResponse → Exec W (Status × Option HttpResponse)
  unfolding post
  http_post body content_type timeout_ms none = pure (err_param, none)
  http_post none content_type timeout_ms (some resp) = pure (err_param, some resp)
  http_post (some body) content_type timeout_ms (some resp) =
      if length body == 0 || ltb 65535 (length body) || bad_content_type content_type
      then pure (err_param, some resp)
      else post body content_type timeout_ms resp

  -- ec200_http_read behind the body.
  unfoldable pub read_confirmed : RawRead → Exec W RawRead
  unfolding read_verdict
  read_confirmed r = do
    (urc, raw) ← await_prefix p fuel (codes "+QHTTPREAD:") 64 timeout_default
    pure (record r { status = elim urc [ ok ↦ read_verdict r.status raw | _ ↦ r.status ] })

  -- `if (st != EC200_OK && st != EC200_ERR_OVERFLOW) return st;` and the rest.
  unfoldable pub body_read : RawRead → Exec W RawRead
  unfolding read_confirmed
  body_read r = elim r.status [
    | ok ↦ read_confirmed r
    | err_overflow ↦ read_confirmed r
    | _ ↦ pure r
  ]

  -- ec200_http_read behind its prompt.
  unfoldable pub read_prompted : List ℕ → ℕ → Status → Exec W RawRead
  unfolding body_read
  read_prompted buf timeout_ms ok = read_body_until_ok p fuel 0 buf timeout_ms >>= body_read
  read_prompted buf timeout_ms st = pure (record { status = st; buf = buf; bytes_read = 0 })

  -- ec200_http_read; a NULL array is `none`, and so is a NULL `bytes_read`.
  unfoldable pub http_read :
      Option (List ℕ) → Option ℕ → ℕ → Exec W (Status × (Option (List ℕ) × Option ℕ))
  unfolding read_prompted timeout_secs
  http_read none bytes_read timeout_ms = pure (err_param, (none, bytes_read))
  http_read (some buf) none timeout_ms = pure (err_param, (some buf, none))
  http_read (some buf) (some before) timeout_ms =
      if length buf == 0 then pure (err_param, (some buf, some before)) else do
        st ←
            expect p fuel (codes "AT+QHTTPREAD=" ++ decimal (timeout_secs timeout_ms))
              (codes "CONNECT") 32 timeout_default
        r ← read_prompted buf timeout_ms st
        pure (r.status, (some r.buf, some r.bytes_read))

  -- ec200_http_stop
  unfoldable pub http_stop : Exec W Status
  http_stop = send_command p fuel (codes "AT+QHTTPSTOP") timeout_default
