-- ===== src/Tcpip/Ping.antt =====
-- src/ec200_tcpip.c: ec200_tcp_ping.
use ec200_at_abstraction.Prelude.{
  ℕ, zero, suc, ◌+◌, ℤ, pos, ◌||◌, List, [], ◌∷◌, ◌++◌, Option, none, some, leb, ltb, ◌==◌,
  if◌then◌else◌, length,
}
use ec200_at_abstraction.Cast.{to_unsigned}
use ec200_at_abstraction.Text.{Text, codes, decimal}
use ec200_at_abstraction.Handle.{
  Platform, Status, ok, err_param, err_module, err_timeout, max_lines,
}
use ec200_at_abstraction.Exec.{Exec, pure, ◌>>=◌, if_ok_else}
use ec200_at_abstraction.Query.{await_urc, await_prefix}
use ec200_at_abstraction.At.Field.{parse_int_field}
use ec200_at_abstraction.Tcpip.Socket.{max_url_len, bad_context}

-- ec200_ping_result_t
pub record PingResult : Type 0 where
  pub sent : ℕ
  pub received : ℕ
  pub lost : ℕ
  pub min_rtt_ms : ℕ
  pub max_rtt_ms : ℕ
  pub avg_rtt_ms : ℕ

-- memset(res, 0, sizeof(*res))
abbrev pub ping_cleared : PingResult
ping_cleared = record {
  sent = 0;
  received = 0;
  lost = 0;
  min_rtt_ms = 0;
  max_rtt_ms = 0;
  avg_rtt_ms = 0;
}

-- The loop over `f[k]`: the fields from `k` on, `left` of them, if all are numbers.
unfoldable pub int_fields : Text → ℕ → ℕ → Option (List ℤ)
int_fields resp k zero = some []
int_fields resp k (suc left) = elim (parse_int_field resp k) [
  | none ↦ none
  | some v ↦ elim (int_fields resp (k + 1) left) [ none ↦ none | some f ↦ some (v ∷ f) ]
]

-- The result of a summary line whose seven fields are given.
unfoldable pub ping_summary : List ℤ → PingResult → Status × PingResult
unfolding to_unsigned
ping_summary (pos zero ∷ sent ∷ received ∷ lost ∷ least ∷ most ∷ average ∷ []) res = (
  ok,
  record {
    sent = to_unsigned 16 sent;
    received = to_unsigned 16 received;
    lost = to_unsigned 16 lost;
    min_rtt_ms = to_unsigned 32 least;
    max_rtt_ms = to_unsigned 32 most;
    avg_rtt_ms = to_unsigned 32 average;
  },
)
ping_summary f res = (err_module, res)

-- A round of the loop behind its line: the answer, if the line is the summary.
unfoldable pub ping_line : Text → PingResult → Option (Status × PingResult)
unfolding int_fields ping_summary
ping_line resp res = elim (int_fields resp 0 7) [ none ↦ none | some f ↦ some (ping_summary f res) ]

-- AT+QPING=<ctx>,"<host>",4,<count>
abbrev pub ping_command : ℕ → Text → ℕ → Text
ping_command pdp_ctx host count =
    codes "AT+QPING="
    ++ (decimal pdp_ctx ++ (codes ",\"" ++ (host ++ (codes "\",4," ++ decimal count))))

module _ {W : Type 0} (p : Platform W) (fuel : ℕ) where
  -- The loop of ec200_tcp_ping, for at most `rounds` lines.
  unfoldable pub ping_loop : ℕ → Text → PingResult → ℕ → Exec W (Status × PingResult)
  unfolding ping_line
  ping_loop zero resp res timeout_ms s = some ((err_timeout, res), s)
  ping_loop (suc rounds) resp res timeout_ms s =
      let next =
        (do
          (st, resp') ← await_prefix p fuel (codes "+QPING:") 128 timeout_ms
          if_ok_else st res (ping_loop rounds resp' res timeout_ms))
          s in
      elim (ping_line resp res) [ some answer ↦ some (answer, s) | none ↦ next ]

  -- ec200_tcp_ping; a NULL result or host is `none`.
  unfoldable pub tcp_ping :
      ℕ → Option Text → ℕ → Option PingResult → ℕ → Exec W (Status × Option PingResult)
  unfolding ping_loop
  tcp_ping pdp_ctx (some (c ∷ host)) count (some res) timeout_ms =
      if bad_context pdp_ctx || count == 0 || ltb 10 count || leb max_url_len (length (c ∷ host))
      then pure (err_param, some res)
      else do
        (st, resp) ←
            await_urc p fuel (ping_command pdp_ctx (c ∷ host) count) (codes "+QPING:") 128
              timeout_ms
        (st', res') ← if_ok_else st ping_cleared (ping_loop max_lines resp ping_cleared timeout_ms)
        pure (st', some res')
  tcp_ping pdp_ctx host count res timeout_ms = pure (err_param, res)
