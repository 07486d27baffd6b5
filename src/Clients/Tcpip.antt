-- ===== src/Clients/Tcpip.antt =====
-- src/ec200_tcpip.c: what its functions keep of the handle.
use ec200_at_abstraction.Prelude.{ℕ, List, ◌∷◌, Option, none, some, zero, suc, option-elim, length}
use ec200_at_abstraction.Tcpip.Ping.{PingResult, ping_loop, tcp_ping, ping_line}
use ec200_at_abstraction.Tcpip.Socket.{
  QistateFields, Socket, tcp_open, send_answer, send_payload, tcp_send, tcp_close, tcp_get_state,
  tcp_bytes_available,
}
use ec200_at_abstraction.Handle.{Status, Platform, ok}
use ec200_at_abstraction.Text.{Text, codes}
use ec200_at_abstraction.Tcpip.Receive.{finish_recv, recv_body, recv_header, tcp_recv, announced}
use ec200_at_abstraction.Tcpip.Resolve.{await_address, tcp_dns_resolve}
use ec200_at_abstraction.At.Valid.{After}
use ec200_at_abstraction.Query.{await_prefix}
use ec200_at_abstraction.At.Guarded.{guarded_rules}
use ec200_at_abstraction.At.Guarded.Rules.{
  Unharmed, Guarded, Guarded-pure, Guarded-bind, Guarded-if_ok_else,
}

module _ {W : Type 0} (p : Platform W) (fuel : ℕ) where
  tcp_open-Guarded :
      (ctx_id : ℕ) (conn_id : ℕ) (type : ℕ) (host : Option Text) (port : ℕ) (access_mode : ℕ)
      → Guarded (tcp_open p fuel ctx_id conn_id type host port access_mode)
  unfolding tcp_open
  tcp_open-Guarded ctx_id conn_id type (some (c ∷ host)) port access_mode =
      search guarded_rules depth 24
  tcp_open-Guarded ctx_id conn_id type host port access_mode = search guarded_rules depth 24

  pub send_answer-Guarded : Guarded (send_answer p fuel)
  unfolding send_answer
  send_answer-Guarded = search guarded_rules depth 24

  send_payload-Guarded :
      (conn_id : ℕ) (payload : List ℕ) → Guarded (send_payload p fuel conn_id payload)
  unfolding send_payload
  send_payload-Guarded conn_id payload = search (guarded_rules, send_answer-Guarded) depth 24

  tcp_send-Guarded :
      (conn_id : ℕ) (payload : Option (List ℕ)) → Guarded (tcp_send p fuel conn_id payload)
  unfolding tcp_send
  tcp_send-Guarded conn_id none = search guarded_rules depth 24
  tcp_send-Guarded conn_id (some payload) = search (guarded_rules, send_payload-Guarded) depth 24

  tcp_close-Guarded : (conn_id : ℕ) → Guarded (tcp_close p fuel conn_id)
  unfolding tcp_close
  tcp_close-Guarded conn_id = search guarded_rules depth 24

  tcp_get_state-Guarded :
      (scan : (Text → Option QistateFields)) (conn_id : ℕ) (sock : Option Socket)
      → Guarded (tcp_get_state p fuel scan conn_id sock)
  unfolding tcp_get_state
  tcp_get_state-Guarded scan conn_id none = search guarded_rules depth 24
  tcp_get_state-Guarded scan conn_id (some sock) = search guarded_rules depth 24

  tcp_bytes_available-Guarded :
      (conn_id : ℕ) (before : Option ℕ) → Guarded (tcp_bytes_available p fuel conn_id before)
  unfolding tcp_bytes_available
  tcp_bytes_available-Guarded conn_id none = search guarded_rules depth 24
  tcp_bytes_available-Guarded conn_id (some before) = search guarded_rules depth 24

  finish_recv-Guarded : (ok : Status) (buf : List ℕ) (n : ℕ) → Guarded (finish_recv p fuel ok buf n)
  unfolding finish_recv
  finish_recv-Guarded ok buf n = search guarded_rules depth 24
  finish_recv-Guarded st buf n = search guarded_rules depth 24

  recv_body-Guarded :
      (buf : List ℕ) (actual : ℕ) (timeout_ms : ℕ)
      → Guarded (recv_body p fuel buf actual timeout_ms)
  unfolding recv_body
  recv_body-Guarded buf actual timeout_ms = search (guarded_rules, finish_recv-Guarded) depth 24

  pub recv_header-Guarded :
      (buf : List ℕ) (timeout_ms : ℕ) (answer : Status × Text)
      → Guarded (recv_header p fuel buf timeout_ms answer)
  unfolding recv_header
  recv_header-Guarded buf timeout_ms (ok, hdr) =
      option-elim Guarded (announced hdr (length buf)) _ _ (λ _. Guarded-pure _)
        λ actual _. recv_body-Guarded buf actual timeout_ms
  recv_header-Guarded buf timeout_ms (st, hdr) = Guarded-pure _

  tcp_recv-Guarded :
      (conn_id : ℕ) (buf : Option (List ℕ)) (before : ℕ) (timeout_ms : ℕ)
      → Guarded (tcp_recv p fuel conn_id buf before timeout_ms)
  unfolding tcp_recv
  tcp_recv-Guarded conn_id none before timeout_ms = search guarded_rules depth 24
  tcp_recv-Guarded conn_id (some buf) before timeout_ms =
      search (guarded_rules, recv_header-Guarded) depth 24

  await_address-Guarded :
      (ip : List ℕ) (timeout_ms : ℕ) → Guarded (await_address p fuel ip timeout_ms)
  unfolding await_address
  await_address-Guarded ip timeout_ms = search guarded_rules depth 24

  tcp_dns_resolve-Guarded :
      (pdp_ctx : ℕ) (host : Option Text) (ip : List ℕ) (timeout_ms : ℕ)
      → Guarded (tcp_dns_resolve p fuel pdp_ctx host ip timeout_ms)
  unfolding tcp_dns_resolve
  tcp_dns_resolve-Guarded pdp_ctx (some (c ∷ host)) ip timeout_ms =
      search (guarded_rules, await_address-Guarded) depth 24
  tcp_dns_resolve-Guarded pdp_ctx host ip timeout_ms = search guarded_rules depth 24

  ping_loop-Guarded :
      (rounds : ℕ) (resp : Text) (res : PingResult) (timeout_ms : ℕ)
      → Guarded (ping_loop p fuel rounds resp res timeout_ms)
  unfolding ping_loop
  ping_loop-Guarded zero resp res timeout_ms = record { at = λ before s v. v }
  ping_loop-Guarded (suc rounds) resp res timeout_ms = record {
    at = λ before s v.
        option-elim (After (λ _ s'. Unharmed before s'.handle)) (ping_line resp res) _ _
          (λ _.
            (Guarded-bind (await_prefix p fuel (codes "+QPING:") 128 timeout_ms) _
                (search guarded_rules)
                λ (st, resp').
                  Guarded-if_ok_else st res _ (ping_loop-Guarded rounds resp' res timeout_ms)).at
              before s v)
          λ answer _. v;
  }

  tcp_ping-Guarded :
      (pdp_ctx : ℕ) (host : Option Text) (count : ℕ) (res : Option PingResult) (timeout_ms : ℕ)
      → Guarded (tcp_ping p fuel pdp_ctx host count res timeout_ms)
  unfolding tcp_ping
  tcp_ping-Guarded pdp_ctx (some (c ∷ host)) count (some res) timeout_ms =
      search (guarded_rules, ping_loop-Guarded) depth 24
  tcp_ping-Guarded pdp_ctx host count res timeout_ms = search guarded_rules depth 24

  -- Every function of the file that sends a command.
  abbrev pub TcpipGuarded : Type 0
  TcpipGuarded =
      ((ctx_id : ℕ) (conn_id : ℕ) (type : ℕ) (host : Option Text) (port : ℕ) (access_mode : ℕ)
        → Guarded (tcp_open p fuel ctx_id conn_id type host port access_mode))
      × ((conn_id : ℕ) (payload : Option (List ℕ)) → Guarded (tcp_send p fuel conn_id payload))
      × ((conn_id : ℕ) → Guarded (tcp_close p fuel conn_id))
      × ((scan : (Text → Option QistateFields)) (conn_id : ℕ) (sock : Option Socket)
          → Guarded (tcp_get_state p fuel scan conn_id sock))
      × ((conn_id : ℕ) (before : Option ℕ) → Guarded (tcp_bytes_available p fuel conn_id before))
      × ((conn_id : ℕ) (buf : Option (List ℕ)) (before : ℕ) (timeout_ms : ℕ)
          → Guarded (tcp_recv p fuel conn_id buf before timeout_ms))
      × ((pdp_ctx : ℕ) (host : Option Text) (ip : List ℕ) (timeout_ms : ℕ)
          → Guarded (tcp_dns_resolve p fuel pdp_ctx host ip timeout_ms))
      × ((pdp_ctx : ℕ) (host : Option Text) (count : ℕ) (res : Option PingResult) (timeout_ms : ℕ)
          → Guarded (tcp_ping p fuel pdp_ctx host count res timeout_ms))

  pub tcpip_calls-TcpipGuarded : TcpipGuarded
  tcpip_calls-TcpipGuarded = (
    tcp_open-Guarded, tcp_send-Guarded, tcp_close-Guarded, tcp_get_state-Guarded,
    tcp_bytes_available-Guarded, tcp_recv-Guarded, tcp_dns_resolve-Guarded, tcp_ping-Guarded,
  )
