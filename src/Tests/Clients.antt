-- ===== src/Tests/Clients.antt =====
-- HTTP, the dispatch of publications and all calls of the clients at concrete inputs.
use ec200_at_abstraction.Prelude.{ℕ, ◌^◌, ◌≡◌, refl, pos, [], ◌∷◌, some, replicate, arith}
use ec200_at_abstraction.Text.{Text, codes, starts_with}
use ec200_at_abstraction.Handle.{ok}
use ec200_at_abstraction.At.Valid.{After, Total}
use ec200_at_abstraction.At.Lines.Byte.{pending}
use ec200_at_abstraction.At.Urc.{entry_has, entry_free}
use ec200_at_abstraction.At.Table.{Unique}
use ec200_at_abstraction.At.Printed.{number, reply_line}
use ec200_at_abstraction.Http.Body.{read_body_until_ok}
use ec200_at_abstraction.Http.Reading.{BodyRead, read_body_until_ok-BodyRead}
use ec200_at_abstraction.Http.Calls.{HttpResponse, http_post, parse_http_result}
use ec200_at_abstraction.Http.Wire.{BodyPosted, http_post-BodyPosted}
use ec200_at_abstraction.Http.Results.{result_items, outcome, parse_http_result-reply_line}
use ec200_at_abstraction.Mqtt.Session.{mqtt_set_message_cb}
use ec200_at_abstraction.Mqtt.Callback.{Routed, mqtt_set_message_cb-Routed}
use ec200_at_abstraction.Clients.{ClientsGuarded, client_calls-ClientsGuarded}
use ec200_at_abstraction.Tests.Uart.{
  scripted, scripted-Quiet, scripted-Stream, scripted-Sink, fresh, start,
}
use ec200_at_abstraction.Tests.Engine.{fresh-IsValid}

-- A body, its trailer, and the confirmation.
abbrev body_script : Text
body_script = codes "hello\r\r\nOK\r\n+QHTTPREAD: 0\r\n"

read_body_until_ok-BodyRead_example :
    Total
      (λ r s'.
        BodyRead 16 0 body_script
          (pending (scripted body_script) (scripted-Stream body_script) s')
          r)
      (read_body_until_ok (scripted body_script) (2 ^ 17) 0 (replicate 16 0) 1000 start)
read_body_until_ok-BodyRead_example =
    read_body_until_ok-BodyRead (scripted body_script) (scripted-Stream body_script) (2 ^ 17) 0
      (replicate 16 0) 1000 start (omega arith) fresh-IsValid refl (omega arith)

abbrev post_script : Text
post_script = codes "OK\r\nCONNECT\r\nOK\r\n+QHTTPPOST: 0,200,2\r\n"

abbrev no_response : HttpResponse
no_response = record { status_code = 0; content_length = 0 }

http_post-BodyPosted_example :
    After
      (λ r s'. r.0 ≡ ok → BodyPosted (some (codes "{}")) (pos 4) 60000 [] s'.world.written)
      (http_post
        (scripted post_script)
        (2 ^ 17)
        (some (codes "{}"))
        (pos 4)
        60000
        (some no_response)
        start)
http_post-BodyPosted_example =
    http_post-BodyPosted (scripted post_script) (scripted-Sink post_script)
      (scripted-Quiet post_script) (2 ^ 17) (omega arith) (some (codes "{}")) (pos 4) 60000
      (some no_response) start

abbrev found : HttpResponse
found = record { status_code = 200; content_length = 1234 }

parse_http_result-reply_line_example :
    (parse_http_result (reply_line (codes "+QHTTPGET") (result_items 0 found)) no_response
      ≡ outcome 0 found no_response)
    × (parse_http_result (reply_line (codes "+QHTTPGET") (number 0 ∷ [])) no_response
        ≡ outcome 0 no_response no_response)
parse_http_result-reply_line_example =
    parse_http_result-reply_line (codes "+QHTTPGET") 0 found no_response (ground arith)
      (omega arith) (record { code_word = omega arith; length_int = omega arith })

fresh-Unique : Unique fresh.urc_table
unfolding entry_has
fresh-Unique = (
  λ q e. refl,
  (
    λ q e. refl,
    (λ q e. refl, (λ q e. refl, (λ q e. refl, (λ q e. refl, (λ q e. refl, (λ q e. refl, tt)))))),
  ),
)

mqtt_set_message_cb-Routed_example :
    Routed
      (scripted [])
      7
      8
      (codes "+QMTRECV: 0,1,\"t\",\"hi\"")
      start
      (mqtt_set_message_cb 7 8 9 fresh)
unfolding starts_with entry_has entry_free
mqtt_set_message_cb-Routed_example =
    mqtt_set_message_cb-Routed (scripted []) 7 8 9 (codes "+QMTRECV: 0,1,\"t\",\"hi\"") start refl
      refl fresh-Unique (λ (taken, _). absurd (ground (arith, taken))) refl (λ r d b. refl)

client_calls-ClientsGuarded_example :
    ClientsGuarded (scripted body_script) 100 (λ t. some (pos 20, pos 99)) ℕ 0 (λ n. n)
client_calls-ClientsGuarded_example =
    client_calls-ClientsGuarded (scripted body_script) 100 (λ t. some (pos 20, pos 99)) ℕ 0 (λ n. n)
