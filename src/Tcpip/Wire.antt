-- ===== src/Tcpip/Wire.antt =====
-- What ec200_tcp_send puts on the wire.
use ec200_at_abstraction.Prelude.{
  ℕ, ◌^◌, ◌≤◌, ◌<◌, ◌≡◌, ◌||◌, List, [], ◌∷◌, ◌++◌, Option, none, some, length, leb, ltb, ◌==◌,
  arith, if-elim,
}
use ec200_at_abstraction.Text.{codes}
use ec200_at_abstraction.Handle.{Platform, Sys, Status, ok, timeout_long}
use ec200_at_abstraction.Exec.{Exec}
use ec200_at_abstraction.At.Delivery.{Sink}
use ec200_at_abstraction.At.Valid.{After, After-weaken}
use ec200_at_abstraction.At.Silence.{answer-Silent, prompted-Writes}
use ec200_at_abstraction.At.Wire.{Quiet, Silent, Writes}
use ec200_at_abstraction.Tcpip.Socket.{
  send_header, send_result, send_answer, send_payload, tcp_send,
}

-- The module was given the command and the payload of 1 to 1460 bytes, for a connection that exists.
abbrev pub PayloadSent : ℕ → Option (List ℕ) → List ℕ → List ℕ → Type 0
PayloadSent conn_id none before after = ⊥
PayloadSent conn_id (some payload) before after =
    (conn_id < 12)
    × (0 < length payload)
    × (length payload ≤ 1460)
    × (after ≡ before ++ ((send_header conn_id (length payload) ++ (b'\r' ∷ [])) ++ payload))

module _ {W : Type 0} (p : Platform W) (sk : Sink p) (quiet : Quiet p sk) (fuel : ℕ)
    (enough : 2 ^ 17 ≤ fuel) where
  open sk use {accepted}

  pub send_answer-Silent : Silent p sk quiet (send_answer p fuel)
  unfolding send_answer
  send_answer-Silent = answer-Silent p sk quiet fuel (codes "SEND") 32 timeout_long send_result

  send_payload-Writes :
      (conn_id : ℕ) (payload : List ℕ)
      → length payload ≤ 1460
      → Writes p sk quiet
          ((send_header conn_id (length payload) ++ (b'\r' ∷ [])) ++ payload)
          (send_payload p fuel conn_id payload)
  unfolding send_payload
  send_payload-Writes conn_id payload short =
      prompted-Writes p sk quiet fuel (send_header conn_id (length payload)) payload
        (send_answer p fuel) enough (omega arith) send_answer-Silent

  -- If ec200_tcp_send returns EC200_OK, the connection id is below 12, the payload has 1 to 1460 bytes,
  -- and what the platform has accepted has grown by the command line with the payload's length and by the
  -- payload, in this order, and by nothing else; 2^17 units of fuel are given, and reading and the
  -- application's handlers write nothing.
  pub tcp_send-PayloadSent :
      (conn_id : ℕ) (payload : Option (List ℕ)) (s : Sys W)
      → After
          (λ st s'. st ≡ ok → PayloadSent conn_id payload (accepted s.world) (accepted s'.world))
          (tcp_send p fuel conn_id payload s)
  unfolding tcp_send
  tcp_send-PayloadSent conn_id none s = λ e. cc
  tcp_send-PayloadSent conn_id (some payload) s =
      let P : Status → Sys W → Type 0 = λ st s'.
        st ≡ ok → PayloadSent conn_id (some payload) (accepted s.world) (accepted s'.world) in
      if-elim (λ (m : Exec W Status). After P (m s))
        (length payload == 0 || ltb 1460 (length payload) || leb 12 conn_id) _ _ (λ _ e. cc)
        λ g.
          let short : length payload ≤ 1460 = ground (arith, g) in
          After-weaken (λ st s'. st ≡ ok → accepted s'.world ≡ accepted s.world ++ _) P _
            (λ st s' h e. (ground (arith, g), ground (arith, g), short, h e))
            (send_payload-Writes conn_id payload short s)
