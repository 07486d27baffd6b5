-- ===== src/Tcpip/Socket.antt =====
-- src/ec200_tcpip.c: opening, sending, closing, and the queries on a socket.
use ec200_at_abstraction.Prelude.{
  ℕ, zero, suc, ◌%◌, ◌^◌, ℤ, pos, negsuc, Bool, ◌||◌, List, [], ◌∷◌, ◌++◌, Option, none, some, leb,
  ltb, ◌==◌, if◌then◌else◌, length, replicate,
}
use ec200_at_abstraction.Text.{Text, codes, decimal, text_eq, starts_with, memcpy_at}
use ec200_at_abstraction.Handle.{
  Platform, Status, ok, err_param, err_parse, err_module, timeout_default, timeout_long,
}
use ec200_at_abstraction.Exec.{Exec, pure, ◌>>=◌, if_ok, if_ok_else}
use ec200_at_abstraction.Query.{result_field, send_command, query, await_urc, await_prefix}
use ec200_at_abstraction.At.Field.{parse_int_field, after_colon}
use ec200_at_abstraction.At.Tx.{write_raw}
use ec200_at_abstraction.At.Prompt.{at_send_prompt}

-- EC200_MAX_CONNECTIONS, EC200_MAX_URL_LEN, EC200_MAX_PAYLOAD_LEN
abbrev pub max_connections : ℕ
max_connections = 12

abbrev pub max_url_len : ℕ
max_url_len = 256

abbrev pub max_payload_len : ℕ
max_payload_len = 1460

-- sock_type_str; the type is the value of its enumerator.
abbrev pub sock_type_str : ℕ → Text
sock_type_str zero = codes "TCP"
sock_type_str (suc zero) = codes "UDP"
sock_type_str (suc (suc zero)) = codes "TCP LISTENER"
sock_type_str _ = codes "UDP SERVICE"

-- ctx_id < 1U || ctx_id > 16U
abbrev pub bad_context : ℕ → Bool
bad_context ctx_id = ltb ctx_id 1 || ltb 16 ctx_id

-- AT+QIOPEN=<ctx>,<conn>,"<type>","<host>",<port>,0,<mode>
abbrev pub open_command : ℕ → ℕ → ℕ → Text → ℕ → ℕ → Text
open_command ctx_id conn_id type host port access_mode =
    codes "AT+QIOPEN="
    ++ (decimal ctx_id
        ++ (codes ","
            ++ (decimal conn_id
                ++ (codes ",\""
                    ++ (sock_type_str type
                        ++ (codes "\",\""
                            ++ (host
                                ++ (codes "\","
                                    ++ (decimal port
                                        ++ (codes ",0," ++ decimal access_mode))))))))))

-- AT+QISEND=<conn>,<length>
abbrev pub send_header : ℕ → ℕ → Text
send_header conn_id len = codes "AT+QISEND=" ++ (decimal conn_id ++ (codes "," ++ decimal len))

-- The six fields that sscanf converts in ec200_tcp_get_state.
pub record QistateFields : Type 0 where
  pub type_str : Text
  pub host : Text
  pub remote_port : ℕ
  pub state : ℤ

-- ec200_socket_t
pub record Socket : Type 0 where
  pub conn_id : ℕ
  pub type : ℕ
  pub remote_host : List ℕ
  pub remote_port : ℕ
  pub connected : Bool

-- memset(sock, 0, sizeof(*sock)); sock->conn_id = (int)conn_id;
abbrev pub socket_cleared : ℕ → Socket
socket_cleared conn_id = record {
  conn_id = conn_id;
  type = 0;
  remote_host = replicate max_url_len 0;
  remote_port = 0;
  connected = Bool.false;
}

-- state == QISTATE_CONNECTED
abbrev is_connected : ℤ → Bool
is_connected (pos n) = n == 2
is_connected (negsuc n) = Bool.false

-- The part of ec200_tcp_get_state behind its query. `scan` is the sscanf call on the text behind the
-- colon: the fields, when all six are converted.
unfoldable pub socket_parse : (Text → Option QistateFields) → Text → Socket → Status × Socket
socket_parse scan resp sock = elim (scan (after_colon resp)) [
  | none ↦ (err_parse, sock)
  | some f ↦ (
    ok,
    record sock {
      type = if starts_with (codes "UDP") f.type_str then 1 else 0;
      remote_host = memcpy_at 0 (f.host ++ (0 ∷ [])) sock.remote_host;
      remote_port = f.remote_port % 2 ^ 16;
      connected = is_connected f.state;
    },
  )
]

-- The unread bytes in a +QIRD line.
unfoldable pub unread_parse : Text → Status × ℕ
unread_parse resp = elim (parse_int_field resp 2) [
  | some (pos unread) ↦ (ok, unread % 2 ^ 32)
  | _ ↦ (err_parse, 0)
]

-- strcmp(resp, "SEND OK") == 0
unfoldable pub send_result : Text → Status
send_result resp = if text_eq resp (codes "SEND OK") then ok else err_module

module _ {W : Type 0} (p : Platform W) (fuel : ℕ) where
  -- ec200_tcp_open; a NULL host is `none`.
  unfoldable pub tcp_open : ℕ → ℕ → ℕ → Option Text → ℕ → ℕ → Exec W Status
  unfolding result_field
  tcp_open ctx_id conn_id type (some (c ∷ host)) port access_mode =
      if leb max_connections conn_id
        || leb max_url_len (length (c ∷ host))
        || bad_context ctx_id
        || ltb 3 type
      then pure err_param
      else do
        (st, resp) ←
            await_urc p fuel (open_command ctx_id conn_id type (c ∷ host) port access_mode)
              (codes "+QIOPEN:") 64 timeout_long
        if_ok st (pure (result_field resp 1))
  tcp_open ctx_id conn_id type host port access_mode = pure err_param

  -- The rest of ec200_tcp_send behind the payload.
  unfoldable pub send_answer : Exec W Status
  unfolding send_result
  send_answer = do
    (st, resp) ← await_prefix p fuel (codes "SEND") 32 timeout_long
    if_ok st (pure (send_result resp))

  -- The transaction of ec200_tcp_send.
  unfoldable pub send_payload : ℕ → List ℕ → Exec W Status
  unfolding send_answer
  send_payload conn_id payload = do
    st ← (do
      st ← at_send_prompt p fuel (some (send_header conn_id (length payload))) timeout_default
      if_ok st (write_raw p fuel (some payload)))
    if_ok st send_answer

  -- ec200_tcp_send of `len` bytes; a NULL array is `none`.
  unfoldable pub tcp_send : ℕ → Option (List ℕ) → Exec W Status
  unfolding send_payload
  tcp_send conn_id none = pure err_param
  tcp_send conn_id (some payload) =
      if length payload == 0 || ltb max_payload_len (length payload) || leb max_connections conn_id
      then pure err_param
      else send_payload conn_id payload

  -- ec200_tcp_close
  unfoldable pub tcp_close : ℕ → Exec W Status
  tcp_close conn_id =
      if leb max_connections conn_id
      then pure err_param
      else send_command p fuel (codes "AT+QICLOSE=" ++ decimal conn_id) timeout_long

  -- ec200_tcp_get_state; a NULL socket is `none`.
  unfoldable pub tcp_get_state :
      (Text → Option QistateFields) → ℕ → Option Socket → Exec W (Status × Option Socket)
  unfolding socket_parse
  tcp_get_state scan conn_id none = pure (err_param, none)
  tcp_get_state scan conn_id (some sock) =
      if leb max_connections conn_id then pure (err_param, some sock) else do
        (st, resp) ←
            query p fuel (codes "AT+QISTATE=1," ++ decimal conn_id) (codes "+QISTATE:") 256
              timeout_default
        let (st', sock') = socket_parse scan resp (socket_cleared conn_id)
        if_ok_else st (some (socket_cleared conn_id)) (pure (st', some sock'))

  -- ec200_tcp_bytes_available; a NULL result is `none`.
  unfoldable pub tcp_bytes_available : ℕ → Option ℕ → Exec W (Status × Option ℕ)
  unfolding unread_parse
  tcp_bytes_available conn_id none = pure (err_param, none)
  tcp_bytes_available conn_id (some before) =
      if leb max_connections conn_id then pure (err_param, some before) else do
        (st, resp) ←
            query p fuel (codes "AT+QIRD=" ++ (decimal conn_id ++ codes ",0")) (codes "+QIRD:") 128
              timeout_default
        let (st', unread) = unread_parse resp
        if_ok_else st (some 0) (pure (st', some unread))
