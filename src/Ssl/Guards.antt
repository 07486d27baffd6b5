-- ===== src/Ssl/Guards.antt =====
-- TLS sockets: what is sent, and where what is received goes.
use ec200_at_abstraction.Prelude.{
  ℕ, ◌^◌, ◌≤◌, ◌<◌, ◌≡◌, refl, ◌||◌, List, [], ◌∷◌, ◌++◌, Option, none, some, length, leb, ltb,
  ◌==◌, arith, if-elim,
}
use ec200_at_abstraction.Text.{codes}
use ec200_at_abstraction.Handle.{Platform, Sys, Status, ok}
use ec200_at_abstraction.Exec.{Exec}
use ec200_at_abstraction.Query.{expect_line}
use ec200_at_abstraction.At.Raw.{RawRead}
use ec200_at_abstraction.At.Delivery.{Sink}
use ec200_at_abstraction.At.Lines.{Stream}
use ec200_at_abstraction.At.Valid.{IsValid, After, After-bind, After-weaken}
use ec200_at_abstraction.At.Silence.{prompted-Writes}
use ec200_at_abstraction.At.Wire.{Quiet, Writes}
use ec200_at_abstraction.Tcpip.Socket.{send_answer}
use ec200_at_abstraction.Tcpip.Receive.{recv_header}
use ec200_at_abstraction.Tcpip.Wire.{send_answer-Silent}
use ec200_at_abstraction.Tcpip.Bounds.{Inside, recv_header-Inside, expect_line-IsValid}
use ec200_at_abstraction.Ssl.Socket.{
  length_command, ssl_send_payload, ssl_socket_send, ssl_socket_recv,
}

-- The module was given the command and the payload of 1 to 1460 bytes, for a connection that exists.
abbrev pub SecurePayloadSent : ℕ → Option (List ℕ) → List ℕ → List ℕ → Type 0
SecurePayloadSent conn_id none before after = ⊥
SecurePayloadSent conn_id (some payload) before after =
    (conn_id < 12)
    × (0 < length payload)
    × (length payload ≤ 1460)
    × (after
        ≡ before
          ++ ((length_command (codes "AT+QSSLSEND=") conn_id (length payload) ++ (b'\r' ∷ []))
              ++ payload))

module _ {W : Type 0} (p : Platform W) (sk : Sink p) (quiet : Quiet p sk) (fuel : ℕ)
    (enough : 2 ^ 17 ≤ fuel) where
  open sk use {accepted}

  ssl_send_payload-Writes :
      (conn_id : ℕ) (payload : List ℕ)
      → length payload ≤ 1460
      → Writes p sk quiet
          ((length_command (codes "AT+QSSLSEND=") conn_id (length payload) ++ (b'\r' ∷ []))
            ++ payload)
          (ssl_send_payload p fuel conn_id payload)
  unfolding ssl_send_payload
  ssl_send_payload-Writes conn_id payload short =
      prompted-Writes p sk quiet fuel
        (length_command (codes "AT+QSSLSEND=") conn_id (length payload)) payload
        (send_answer p fuel) enough (omega arith) (send_answer-Silent p sk quiet fuel enough)

  -- If ec200_ssl_socket_send returns EC200_OK, the connection id is below 12, the payload has 1 to 1460
  -- bytes, and what the platform has accepted has grown by the command line with the payload's length and
  -- by the payload, in this order, and by nothing else; 2^17 units of fuel are given, and reading and the
  -- application's handlers write nothing.
  pub ssl_socket_send-SecurePayloadSent :
      (conn_id : ℕ) (payload : Option (List ℕ)) (s : Sys W)
      → After
          (λ st s'.
            st ≡ ok → SecurePayloadSent conn_id payload (accepted s.world) (accepted s'.world))
          (ssl_socket_send p fuel conn_id payload s)
  unfolding ssl_socket_send
  ssl_socket_send-SecurePayloadSent conn_id none s = λ e. cc
  ssl_socket_send-SecurePayloadSent conn_id (some payload) s =
      let P : Status → Sys W → Type 0 = λ st s'.
        st ≡ ok → SecurePayloadSent conn_id (some payload) (accepted s.world) (accepted s'.world) in
      if-elim (λ (m : Exec W Status). After P (m s))
        (length payload == 0 || ltb 1460 (length payload) || leb 12 conn_id) _ _ (λ _ e. cc)
        λ g.
          let short : length payload ≤ 1460 = ground (arith, g) in
          After-weaken (λ st s'. st ≡ ok → accepted s'.world ≡ accepted s.world ++ _) P _
            (λ st s' h e. (ground (arith, g), ground (arith, g), short, h e))
            (ssl_send_payload-Writes conn_id payload short s)

module _ {W : Type 0} (p : Platform W) (sm : Stream p) (fuel : ℕ) where
  -- On a byte stream and a valid handle, for an array of fewer than 65536 cells, whatever length the
  -- module announces, ec200_ssl_socket_recv, if it returns, leaves the array at its length;
  -- `*bytes_read` is at most that length when it was before the call.
  pub ssl_socket_recv-Inside :
      (conn_id : ℕ) (buf : List ℕ) (before t : ℕ) (s : Sys W)
      → IsValid s.handle
      → length buf < 2 ^ 16
      → before ≤ length buf
      → After (Inside (length buf)) (ssl_socket_recv p fuel conn_id (some buf) before t s)
  unfolding ssl_socket_recv
  ssl_socket_recv-Inside conn_id buf before t s v short counted =
      let line =
        expect_line p fuel (length_command (codes "AT+QSSLRECV=") conn_id (length buf))
          (codes "+QSSLRECV:") 48 t in
      if-elim (λ (m : Exec W RawRead). After (Inside (length buf)) (m s))
        (length buf == 0 || leb 12 conn_id) _ _
        (λ _. record { size_kept = refl; counted = counted })
        λ _.
          After-bind (λ _ s'. IsValid s'.handle) (Inside (length buf)) line
            (recv_header p fuel buf t) s (expect_line-IsValid p sm fuel _ _ 48 t s v)
            λ a s' k. recv_header-Inside p sm fuel buf t a s' k short
