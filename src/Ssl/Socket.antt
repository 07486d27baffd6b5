-- ===== src/Ssl/Socket.antt =====
-- src/ec200_ssl_socket.c: TLS sockets.
use ec200_at_abstraction.Prelude.{
  ℕ, ◌||◌, List, [], ◌∷◌, ◌++◌, Option, none, some, leb, ltb, ◌==◌, if◌then◌else◌, length,
}
use ec200_at_abstraction.Text.{Text, codes, decimal}
use ec200_at_abstraction.Handle.{Platform, Status, err_param, timeout_default, timeout_long}
use ec200_at_abstraction.Exec.{Exec, pure, ◌>>=◌, if_ok}
use ec200_at_abstraction.Query.{result_field, send_command, await_urc, expect_line}
use ec200_at_abstraction.At.Raw.{RawRead}
use ec200_at_abstraction.At.Tx.{write_raw}
use ec200_at_abstraction.At.Prompt.{at_send_prompt}
use ec200_at_abstraction.Tcpip.Socket.{
  max_connections, max_url_len, max_payload_len, bad_context, send_answer,
}
use ec200_at_abstraction.Tcpip.Receive.{received, recv_header}

-- AT+QSSLOPEN=<pdp>,<ssl>,<conn>,"<host>",<port>,0
abbrev pub ssl_open_command : ℕ → ℕ → ℕ → Text → ℕ → Text
ssl_open_command pdp_ctx ssl_ctx conn_id host port =
    codes "AT+QSSLOPEN="
    ++ (decimal pdp_ctx
        ++ (codes ","
            ++ (decimal ssl_ctx
                ++ (codes ","
                    ++ (decimal conn_id
                        ++ (codes ",\""
                            ++ (host ++ (codes "\"," ++ (decimal port ++ codes ",0")))))))))

-- <command>=<conn>,<length>
abbrev pub length_command : Text → ℕ → ℕ → Text
length_command name conn_id len = name ++ (decimal conn_id ++ (codes "," ++ decimal len))

module _ {W : Type 0} (p : Platform W) (fuel : ℕ) where
  -- ec200_ssl_socket_open; a NULL host is `none`.
  unfoldable pub ssl_socket_open : ℕ → ℕ → ℕ → Option Text → ℕ → Exec W Status
  unfolding result_field
  ssl_socket_open pdp_ctx ssl_ctx conn_id (some (c ∷ host)) port =
      if leb max_connections conn_id
        || bad_context pdp_ctx
        || ltb 5 ssl_ctx
        || leb max_url_len (length (c ∷ host))
      then pure err_param
      else do
        (st, resp) ←
            await_urc p fuel (ssl_open_command pdp_ctx ssl_ctx conn_id (c ∷ host) port)
              (codes "+QSSLOPEN:") 64 timeout_long
        if_ok st (pure (result_field resp 1))
  ssl_socket_open pdp_ctx ssl_ctx conn_id host port = pure err_param

  -- The transaction of ec200_ssl_socket_send; its end is as in ec200_tcp_send.
  unfoldable pub ssl_send_payload : ℕ → List ℕ → Exec W Status
  unfolding send_answer
  ssl_send_payload conn_id payload = do
    st ← (do
      st ←
          at_send_prompt p fuel
            (some (length_command (codes "AT+QSSLSEND=") conn_id (length payload))) timeout_default
      if_ok st (write_raw p fuel (some payload)))
    if_ok st (send_answer p fuel)

  -- ec200_ssl_socket_send of `len` bytes; a NULL array is `none`.
  unfoldable pub ssl_socket_send : ℕ → Option (List ℕ) → Exec W Status
  unfolding ssl_send_payload
  ssl_socket_send conn_id none = pure err_param
  ssl_socket_send conn_id (some payload) =
      if length payload == 0 || ltb max_payload_len (length payload) || leb max_connections conn_id
      then pure err_param
      else ssl_send_payload conn_id payload

  -- ec200_ssl_socket_recv; behind its header it is as ec200_tcp_recv.
  unfoldable pub ssl_socket_recv : ℕ → Option (List ℕ) → ℕ → ℕ → Exec W RawRead
  unfolding recv_header
  ssl_socket_recv conn_id none before timeout_ms = pure (received err_param [] before)
  ssl_socket_recv conn_id (some buf) before timeout_ms =
      if length buf == 0 || leb max_connections conn_id
      then pure (received err_param buf before)
      else expect_line p fuel (length_command (codes "AT+QSSLRECV=") conn_id (length buf))
          (codes "+QSSLRECV:") 48 timeout_ms
        >>= recv_header p fuel buf timeout_ms

  -- ec200_ssl_socket_close
  unfoldable pub ssl_socket_close : ℕ → Exec W Status
  ssl_socket_close conn_id =
      if leb max_connections conn_id
      then pure err_param
      else send_command p fuel (codes "AT+QSSLCLOSE=" ++ decimal conn_id) timeout_long
