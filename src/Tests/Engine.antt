-- ===== src/Tests/Engine.antt =====
-- The AT engine against a script.
use ec200_at_abstraction.Prelude.{
  ℕ, ◌≡◌, ◌≢◌, refl, [], ◌∷◌, ◌++◌, Option, none, some, false, replicate, arith, length, pos,
}
use ec200_at_abstraction.Text.{Text, codes, c_str}
use ec200_at_abstraction.Handle.{Platform, Sys, Status, ok}
use ec200_at_abstraction.At.Rx.{rx_line, rx_feed, current_line}
use ec200_at_abstraction.At.Tx.{write_raw}
use ec200_at_abstraction.At.Transaction.{Buffer, receive_transaction, clear_buffer}
use ec200_at_abstraction.At.Wait.{wait_final}
use ec200_at_abstraction.At.Command.{at_send, at_send_wait, at_send_expect, at_send_await_urc}
use ec200_at_abstraction.At.Valid.{IsValid, After, Total}
use ec200_at_abstraction.At.Valid.Calls.{Safely, transactions_memory_safe}
use ec200_at_abstraction.At.Lines.{lf, held, strip_cr, clip}
use ec200_at_abstraction.At.Lines.Feed.{feed_all, feed_line}
use ec200_at_abstraction.At.Lines.Read.{LineRead, rx_line_lem}
use ec200_at_abstraction.At.Delivery.{Delivered, write_raw-Delivered}
use ec200_at_abstraction.At.Returning.{Returns, transactions_return, endless_line_blocks}
use ec200_at_abstraction.At.Outcome.{kind_of, transactions_classified}
use ec200_at_abstraction.At.Outcome.Prefixed.{HoldsLine, prefixed_line}
use ec200_at_abstraction.Tests.Uart.{
  Uart, scripted, scripted-Stream, scripted-Sink, bounded, fresh, start,
}

abbrev pub crlf : Text
crlf = b'\r' ∷ b'\n' ∷ []

-- The reply to AT+CSQ.
abbrev pub csq_reply : Text
csq_reply = crlf ++ (codes "+CSQ: 20,99" ++ (crlf ++ (crlf ++ (codes "OK" ++ crlf))))

abbrev cme_reply : Text
cme_reply = crlf ++ (codes "+CME ERROR: 10" ++ crlf)

abbrev seen : Option ((Status × Buffer) × Sys Uart) → Option (Status × Text × Text)
seen none = none
seen (some ((st, none), s)) = some (st, [], s.world.written)
seen (some ((st, some buf), s)) = some (st, c_str buf, s.world.written)

abbrev run_csq : Option (Status × Text × Text)
run_csq = seen (
    at_send_wait (scripted csq_reply) 2000 (some (codes "AT+CSQ")) (some (codes "+CSQ:"))
      (some (replicate 16 7)) 1000 start)

abbrev run_cme : Option (Status × Text × Text)
run_cme = seen (
    at_send_wait (scripted cme_reply) 2000 (some (codes "AT+CSQ")) (some (codes "+CSQ:"))
      (some (replicate 16 7)) 1000 start)

pub fresh-IsValid : IsValid fresh
fresh-IsValid = omega arith

-- A UART on which the byte `a` never stops.
abbrev trickling : Platform Uart
trickling = record {
  write = λ f bytes ctx w. record { result = pos (length bytes); after = w };
  read = λ f len t ctx w. record { result = pos 1; bytes = b'a' ∷ []; after = w };
  delay = λ f ms ctx w. w;
  urc = λ f line ctx w. w;
}

abbrev pub csq : Platform Uart
csq = scripted csq_reply

transactions_memory_safe_example :
    Safely start
      (some (replicate 16 7))
      (at_send csq 2000 (some (codes "ATI")) (some (replicate 16 7)) 1000 start)
    × Safely start (some (replicate 16 7)) (
        at_send_wait csq 2000
          (some (codes "ATI"))
          (some (codes "+CSQ:"))
          (some (replicate 16 7))
          1000
          start)
    × Safely start (some (replicate 16 7)) (
        at_send_expect csq 2000
          (some (codes "ATI"))
          (some (codes "+CSQ:"))
          (some (replicate 16 7))
          1000
          start)
    × Safely start (some (replicate 16 7)) (
        at_send_await_urc csq 2000
          (some (codes "ATI"))
          (some (codes "+CSQ:"))
          (some (replicate 16 7))
          1000
          500
          start)
transactions_memory_safe_example =
    transactions_memory_safe csq 2000 start (some (replicate 16 7)) fresh-IsValid
      (some (codes "ATI")) (some (codes "+CSQ:")) 1000 500

feed_line_example :
    let h = (rx_feed (feed_all fresh (b'O' ∷ b'\r' ∷ b'K' ∷ [])) lf).0 in
    (current_line h ≡ c_str (clip (held fresh ++ strip_cr (b'O' ∷ b'\r' ∷ b'K' ∷ []))))
    × (held h ≡ [])
    × IsValid h
feed_line_example =
    feed_line fresh (b'O' ∷ b'\r' ∷ b'K' ∷ []) fresh-IsValid
      (ground arith, (ground arith, (ground arith, tt)))

rx_line_lem_example :
    After (λ a s'. LineRead csq (scripted-Stream csq_reply) start a.0 s') (rx_line csq 50 10 start)
rx_line_lem_example = rx_line_lem csq (scripted-Stream csq_reply) 50 10 start fresh-IsValid

write_raw-Delivered_example :
    Total
      (Delivered csq (scripted-Sink csq_reply) [] (codes "AT"))
      (write_raw csq 2000 (some (codes "AT")) start)
write_raw-Delivered_example =
    write_raw-Delivered csq (scripted-Sink csq_reply) 2000 (codes "AT") start refl (omega arith)
      (omega arith)

transactions_return_example :
    Returns (at_send csq 9000 (some (codes "ATI")) none 1000 start)
    × Returns (at_send_wait csq 9000 (some (codes "ATI")) (some (codes "+CSQ:")) none 1000 start)
    × Returns (at_send_expect csq 9000 (some (codes "ATI")) (some (codes "+CSQ:")) none 1000 start)
    × Returns
        (at_send_await_urc csq 9000 (some (codes "ATI")) (some (codes "+CSQ:")) none 1000 500 start)
transactions_return_example =
    transactions_return csq (scripted-Stream csq_reply) 9000 (length csq_reply) (bounded csq_reply)
      (scripted-Sink csq_reply) (omega arith) (codes "ATI") (codes "+CSQ:") none 1000 500 start
      (omega arith) (omega arith)

trickles :
    (f len t ctx : ℕ) (w : Uart) → ((trickling.read f len t ctx w).result ≡ pos 1) × (b'a' ≢ lf)
trickles f len t ctx w = (refl, ground arith)

endless_line_blocks_example :
    (wait_final trickling 100000 1000 start ≡ none)
    × (receive_transaction trickling 100000 none false none 1000 start ≡ none)
endless_line_blocks_example =
    endless_line_blocks trickling trickles 100000 1000 none false none start refl

transactions_classified_example :
    After
      (λ a s'. s'.handle.last_err_kind ≡ kind_of a.0)
      (at_send (scripted cme_reply) 2000 (some (codes "ATI")) none 1000 start)
    × After
        (λ a s'. s'.handle.last_err_kind ≡ kind_of a.0)
        (at_send_wait
          (scripted cme_reply)
          2000
          (some (codes "ATI"))
          (some (codes "+CSQ:"))
          none
          1000
          start)
    × After
        (λ a s'. s'.handle.last_err_kind ≡ kind_of a.0)
        (at_send_expect
          (scripted cme_reply)
          2000
          (some (codes "ATI"))
          (some (codes "+CSQ:"))
          none
          1000
          start)
transactions_classified_example =
    transactions_classified (scripted cme_reply) 2000 (codes "ATI") (codes "+CSQ:") none 1000 start
      refl refl

prefixed_line_example :
    After
      (λ a _. a.0 ≡ ok → HoldsLine (codes "+CSQ:") (clear_buffer (some (replicate 16 7))) a.1)
      (at_send_wait csq 2000
        (some (codes "ATI"))
        (some (codes "+CSQ:"))
        (some (replicate 16 7))
        1000
        start)
    × After
        (λ a _. a.0 ≡ ok → HoldsLine (codes "+CSQ:") (clear_buffer (some (replicate 16 7))) a.1)
        (at_send_expect csq 2000
          (some (codes "ATI"))
          (some (codes "+CSQ:"))
          (some (replicate 16 7))
          1000
          start)
prefixed_line_example =
    prefixed_line csq (codes "+CSQ:") 2000 (codes "ATI") (some (replicate 16 7)) 1000 start
