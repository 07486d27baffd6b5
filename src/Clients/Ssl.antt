-- ===== src/Clients/Ssl.antt =====
-- src/ec200_ssl.c and src/ec200_ssl_socket.c: what their functions keep of the handle.
use ec200_at_abstraction.Prelude.{ℕ, List, [], ◌∷◌, Option, none, some}
use ec200_at_abstraction.Ssl.Config.{
  SslConfig, ssl_set_seclevel, cfg_num, cfg_file, cfg_optional, ssl_commands, ssl_configure,
}
use ec200_at_abstraction.Handle.{Platform}
use ec200_at_abstraction.Text.{Text}
use ec200_at_abstraction.Ssl.Socket.{
  ssl_socket_open, ssl_send_payload, ssl_socket_send, ssl_socket_recv, ssl_socket_close,
}
use ec200_at_abstraction.Clients.Tcpip.{recv_header-Guarded, send_answer-Guarded}
use ec200_at_abstraction.At.Guarded.{guarded_rules}
use ec200_at_abstraction.At.Guarded.Rules.{Guarded}

module _ {W : Type 0} (p : Platform W) (fuel : ℕ) where
  ssl_set_seclevel-Guarded :
      (ctx_id : ℕ) (level : ℕ) → Guarded (ssl_set_seclevel p fuel ctx_id level)
  unfolding ssl_set_seclevel
  ssl_set_seclevel-Guarded ctx_id level = search guarded_rules depth 24

  cfg_num-Guarded : (ctx : ℕ) (key : Text) (val : ℕ) → Guarded (cfg_num p fuel ctx key val)
  unfolding cfg_num
  cfg_num-Guarded ctx key val = search guarded_rules depth 24

  cfg_file-Guarded : (ctx : ℕ) (key : Text) (file : Text) → Guarded (cfg_file p fuel ctx key file)
  unfolding cfg_file
  cfg_file-Guarded ctx key file = search guarded_rules depth 24

  cfg_optional-Guarded :
      (ctx : ℕ) (key : Text) (arg2 : Text) → Guarded (cfg_optional p fuel ctx key arg2)
  unfolding cfg_optional
  cfg_optional-Guarded ctx key [] = search guarded_rules depth 24
  cfg_optional-Guarded ctx key (c ∷ file) = search guarded_rules depth 24

  ssl_commands-Guarded : (cfg : SslConfig) → Guarded (ssl_commands p fuel cfg)
  unfolding ssl_commands
  ssl_commands-Guarded cfg = search (guarded_rules, cfg_optional-Guarded) depth 24

  ssl_configure-Guarded : (cfg : Option SslConfig) → Guarded (ssl_configure p fuel cfg)
  unfolding ssl_configure
  ssl_configure-Guarded none = search guarded_rules depth 24
  ssl_configure-Guarded (some cfg) = search (guarded_rules, ssl_commands-Guarded) depth 24

  ssl_socket_open-Guarded :
      (pdp_ctx : ℕ) (ssl_ctx : ℕ) (conn_id : ℕ) (host : Option Text) (port : ℕ)
      → Guarded (ssl_socket_open p fuel pdp_ctx ssl_ctx conn_id host port)
  unfolding ssl_socket_open
  ssl_socket_open-Guarded pdp_ctx ssl_ctx conn_id (some (c ∷ host)) port =
      search guarded_rules depth 24
  ssl_socket_open-Guarded pdp_ctx ssl_ctx conn_id host port = search guarded_rules depth 24

  ssl_send_payload-Guarded :
      (conn_id : ℕ) (payload : List ℕ) → Guarded (ssl_send_payload p fuel conn_id payload)
  unfolding ssl_send_payload
  ssl_send_payload-Guarded conn_id payload = search (guarded_rules, send_answer-Guarded) depth 24

  ssl_socket_send-Guarded :
      (conn_id : ℕ) (payload : Option (List ℕ)) → Guarded (ssl_socket_send p fuel conn_id payload)
  unfolding ssl_socket_send
  ssl_socket_send-Guarded conn_id none = search guarded_rules depth 24
  ssl_socket_send-Guarded conn_id (some payload) =
      search (guarded_rules, ssl_send_payload-Guarded) depth 24

  ssl_socket_recv-Guarded :
      (conn_id : ℕ) (buf : Option (List ℕ)) (before : ℕ) (timeout_ms : ℕ)
      → Guarded (ssl_socket_recv p fuel conn_id buf before timeout_ms)
  unfolding ssl_socket_recv
  ssl_socket_recv-Guarded conn_id none before timeout_ms = search guarded_rules depth 24
  ssl_socket_recv-Guarded conn_id (some buf) before timeout_ms =
      search (guarded_rules, recv_header-Guarded) depth 24

  ssl_socket_close-Guarded : (conn_id : ℕ) → Guarded (ssl_socket_close p fuel conn_id)
  unfolding ssl_socket_close
  ssl_socket_close-Guarded conn_id = search guarded_rules depth 24

  -- Every function of the file that sends a command.
  abbrev pub SslGuarded : Type 0
  SslGuarded =
      ((ctx_id : ℕ) (level : ℕ) → Guarded (ssl_set_seclevel p fuel ctx_id level))
      × ((cfg : Option SslConfig) → Guarded (ssl_configure p fuel cfg))
      × ((pdp_ctx : ℕ) (ssl_ctx : ℕ) (conn_id : ℕ) (host : Option Text) (port : ℕ)
          → Guarded (ssl_socket_open p fuel pdp_ctx ssl_ctx conn_id host port))
      × ((conn_id : ℕ) (payload : Option (List ℕ))
          → Guarded (ssl_socket_send p fuel conn_id payload))
      × ((conn_id : ℕ) (buf : Option (List ℕ)) (before : ℕ) (timeout_ms : ℕ)
          → Guarded (ssl_socket_recv p fuel conn_id buf before timeout_ms))
      × ((conn_id : ℕ) → Guarded (ssl_socket_close p fuel conn_id))

  pub ssl_calls-SslGuarded : SslGuarded
  ssl_calls-SslGuarded = (
    ssl_set_seclevel-Guarded, ssl_configure-Guarded, ssl_socket_open-Guarded,
    ssl_socket_send-Guarded, ssl_socket_recv-Guarded, ssl_socket_close-Guarded,
  )
