-- ===== src/Tests/Network.antt =====
-- The wait for registration against a script, and an address.
use ec200_at_abstraction.Prelude.{◌++◌, replicate, ◌≡◌, some, length, arith}
use ec200_at_abstraction.Text.{codes}
use ec200_at_abstraction.Handle.{Sys, ok}
use ec200_at_abstraction.At.Command.{at_send_wait}
use ec200_at_abstraction.At.Valid.{After, Total, Total-bind}
use ec200_at_abstraction.At.Returning.{transactions_return}
use ec200_at_abstraction.Query.{local_array, query}
use ec200_at_abstraction.Network.{net_get_cereg, get_reg, net_wait_registered}
use ec200_at_abstraction.Network.Registration.{
  Ended, net_wait_registered-Ended, net_wait_registered_wraps,
}
use ec200_at_abstraction.Tests.Uart.{Uart, scripted-Stream, scripted-Sink, bounded, start}
use ec200_at_abstraction.Tests.Engine.{csq_reply, csq}
use ec200_at_abstraction.Data.{address_parse}
use ec200_at_abstraction.Data.Address.{Holds, address_parse_lem}

answers : (s : Sys Uart) → Total (λ _ _. Unit {0}) (net_get_cereg csq 9000 s)
unfolding net_get_cereg get_reg
answers s =
    Total-bind (λ _ _. Unit {0}) (λ _ _. Unit {0})
      (query csq 9000 (codes "AT+CEREG?") (codes "+CEREG:") 64 1000) _ s
      (Total-bind (λ _ _. Unit {0}) (λ _ _. Unit {0})
        (at_send_wait csq 9000 (some (codes "AT+CEREG?")) (some (codes "+CEREG:")) (local_array 64)
          1000)
        _ s
        (transactions_return csq (scripted-Stream csq_reply) 9000 (length csq_reply)
          (bounded csq_reply) (scripted-Sink csq_reply) (omega arith) (codes "AT+CEREG?")
          (codes "+CEREG:") (local_array 64) 1000 0 s (omega arith) (omega arith)).1
        λ _ _ _. tt)
      λ _ _ _. tt

net_wait_registered-Ended_example : Total Ended (net_wait_registered csq 9000 40 60000 start)
net_wait_registered-Ended_example =
    net_wait_registered-Ended csq 9000 answers 40 60000 start (omega arith) (omega arith)

net_wait_registered_wraps_example :
    After (λ st _. st ≡ ok) (net_wait_registered csq 9000 40 4294967295 start)
net_wait_registered_wraps_example =
    net_wait_registered_wraps csq 9000 40 4294967295 start (omega arith)

address_parse_lem_example : Holds (codes "10.7.0.2") (
    address_parse
      (codes "+CGPADDR: " ++ (codes "1" ++ (codes ",\"" ++ (codes "10.7.0.2" ++ codes "\""))))
      (replicate 46 0))
address_parse_lem_example =
    address_parse_lem (codes "1") (codes "10.7.0.2") (replicate 46 0) (ground arith) (ground arith)
      (omega arith) (omega arith)
