-- ===== src/Tests/Services.antt =====
-- SMS, sockets, MQTT, the SIM and raw reads at concrete inputs.
use ec200_at_abstraction.Prelude.{
  ◌^◌, ◌≡◌, refl, pos, negsuc, List, [], ◌∷◌, ◌++◌, none, some, false, map, replicate, arith,
}
use ec200_at_abstraction.Text.{Text, codes, is_digit, decimal, text_eq, starts_with}
use ec200_at_abstraction.Handle.{ok, err_module}
use ec200_at_abstraction.At.Field.{parse_int_field}
use ec200_at_abstraction.At.Printed.{
  Item, number, quoted, items, reply_line, parse_int_field-nth_number,
}
use ec200_at_abstraction.At.Raw.{read_exact}
use ec200_at_abstraction.At.Lines.Exact.{ReadOff, read_exact-ReadOff}
use ec200_at_abstraction.At.Valid.{After}
use ec200_at_abstraction.Sms.Header.{SmsMessage, cleared}
use ec200_at_abstraction.Sms.Inbox.{list_messages}
use ec200_at_abstraction.Sms.Listing.{Listed, list_messages-Listed}
use ec200_at_abstraction.Sms.Sizes.{cleared-IsSized}
use ec200_at_abstraction.Sms.RoundTrip.{Entry, IsEntry, print}
use ec200_at_abstraction.Sms.Replies.{AllShown, message, list_messages-print}
use ec200_at_abstraction.Sms.Collected.{collected, collected-print}
use ec200_at_abstraction.Sms.Printed.{lines}
use ec200_at_abstraction.At.Terminal.{is_terminal}
use ec200_at_abstraction.At.Urc.{dispatch_registered_urc, find_handler, entry_matches, call_entry}
use ec200_at_abstraction.Sms.Submit.{Submitted, sms_submit, sms_submit-Submitted}
use ec200_at_abstraction.Sms.Parse.{Storage, parse_cpms_usage, Cnmi, parse_cnmi}
use ec200_at_abstraction.Sms.Settings.{cnmi_command, bad_cnmi}
use ec200_at_abstraction.Sms.Reports.{
  set_form, query_form, cnmi_items, parse_cpms_usage-reply_line, parse_cnmi-reply_line,
}
use ec200_at_abstraction.Tcpip.Socket.{tcp_send}
use ec200_at_abstraction.Tcpip.Wire.{PayloadSent, tcp_send-PayloadSent}
use ec200_at_abstraction.Tcpip.Receive.{tcp_recv}
use ec200_at_abstraction.Tcpip.Bounds.{Inside, tcp_recv-Inside}
use ec200_at_abstraction.Tcpip.Ping.{PingResult, ping_cleared, ping_line}
use ec200_at_abstraction.Tcpip.Replies.{summary_items, echo_items, ping_line-reply_line}
use ec200_at_abstraction.Mqtt.Session.{mqtt_publish}
use ec200_at_abstraction.Mqtt.Wire.{Published, mqtt_publish-Published}
use ec200_at_abstraction.Mqtt.Message.{MqttMessage, mqtt_recv_urc}
use ec200_at_abstraction.Mqtt.Delivery.{Delivered, publication, mqtt_recv_urc-Delivered}
use ec200_at_abstraction.Sim.Card.{sim_pin_required, resp_value, sim_status}
use ec200_at_abstraction.Sim.Codes.{sim_code, sim_status-resp_value}
use ec200_at_abstraction.Time.{
  Datetime, datetime_cleared, parse_timestamp, bad_datetime, set_command,
}
use ec200_at_abstraction.Time.Clock.{parse_timestamp-clock_text}
use ec200_at_abstraction.File.{file_upload}
use ec200_at_abstraction.File.Wire.{FileSent, file_upload-FileSent}
use ec200_at_abstraction.Tests.Uart.{
  scripted, scripted-Quiet, scripted-Stream, scripted-Sink, start,
}
use ec200_at_abstraction.Tests.Engine.{fresh-IsValid}

-- A module that answers a submission.
abbrev submit_script : Text
submit_script = codes "> +CMGS: 7\r\nOK\r\n"

abbrev send_script : Text
send_script = codes "> SEND OK\r\n"

abbrev recv_script : Text
recv_script = codes "+QIRD: 3\r\nabcOK\r\n"

tcp_send-PayloadSent_example :
    After
      (λ st s'. st ≡ ok → PayloadSent 3 (some (codes "hello")) [] s'.world.written)
      (tcp_send (scripted send_script) (2 ^ 17) 3 (some (codes "hello")) start)
tcp_send-PayloadSent_example =
    tcp_send-PayloadSent (scripted send_script) (scripted-Sink send_script)
      (scripted-Quiet send_script) (2 ^ 17) (omega arith) 3 (some (codes "hello")) start

sms_submit-Submitted_example :
    After
      (λ r s'.
        r.0 ≡ ok
        → Submitted (codes "CMGS") (some (codes "+123")) (some (codes "hi")) [] s'.world.written)
      (sms_submit
        (scripted submit_script)
        (2 ^ 17)
        (codes "CMGS")
        (some (codes "+123"))
        (some (codes "hi"))
        none
        start)
sms_submit-Submitted_example =
    sms_submit-Submitted (scripted submit_script) (scripted-Sink submit_script)
      (scripted-Quiet submit_script) (2 ^ 17) (omega arith) (codes "CMGS") (some (codes "+123"))
      (some (codes "hi")) none start

mqtt_publish-Published_example :
    After
      (λ st s'.
        st ≡ ok → Published 0 1 1 false (some (codes "t")) (some (26 ∷ 0 ∷ [])) [] s'.world.written)
      (mqtt_publish
        (scripted send_script)
        (2 ^ 17)
        0
        1
        1
        false
        (some (codes "t"))
        (some (26 ∷ 0 ∷ []))
        start)
mqtt_publish-Published_example =
    mqtt_publish-Published (scripted send_script) (scripted-Sink send_script)
      (scripted-Quiet send_script) (2 ^ 17) (omega arith) 0 1 1 false (some (codes "t"))
      (some (26 ∷ 0 ∷ [])) start

tcp_recv-Inside_example :
    After (Inside 4) (tcp_recv (scripted recv_script) 100 1 (some (replicate 4 7)) 0 1000 start)
tcp_recv-Inside_example =
    tcp_recv-Inside (scripted recv_script) (scripted-Stream recv_script) 100 1 (replicate 4 7) 0
      1000 start fresh-IsValid (omega arith) (omega arith)

read_exact-ReadOff_example :
    After
      (ReadOff (scripted recv_script) (scripted-Stream recv_script) 4 recv_script)
      (read_exact (scripted recv_script) 100 (some (replicate 4 7)) 0 1000 start)
read_exact-ReadOff_example =
    read_exact-ReadOff (scripted recv_script) (scripted-Stream recv_script) 100 (replicate 4 7) 0
      1000 start fresh-IsValid refl (omega arith)

abbrev two_messages : List SmsMessage
two_messages = cleared ∷ cleared ∷ []

list_messages-Listed_example :
    Listed 2 (list_messages (codes "+CMGL: 1,\"REC READ\",\"+1\"\nhello\nrest") two_messages)
list_messages-Listed_example =
    list_messages-Listed (codes "+CMGL: 1,\"REC READ\",\"+1\"\nhello\nrest") two_messages
      (cleared-IsSized, (cleared-IsSized, tt))

abbrev stored_message : Entry
stored_message = record {
  index = 5;
  stat = 1;
  sender = codes "+12";
  timestamp = codes "26/01/02";
  body = codes "a,b";
}

stored_message-IsEntry : IsEntry stored_message
unfolding is_digit
stored_message-IsEntry = record {
  index_word = omega arith;
  stat_known = omega arith;
  sender_line = omega arith;
  timestamp_line = omega arith;
  sender_free = omega arith;
  sender_text = omega arith;
  sender_fits = omega arith;
  timestamp_free = omega arith;
  timestamp_text = omega arith;
  timestamp_fits = omega arith;
  timestamp_led = refl;
  body_line = omega arith;
  body_text = omega arith;
  body_fits = omega arith;
  body_some = omega arith;
}

abbrev stored_messages : List Entry
stored_messages = stored_message ∷ stored_message ∷ []

list_messages-print_example :
    AllShown stored_messages (map message stored_messages)
    × (list_messages (print stored_messages) two_messages
        ≡ some (record { msgs = map message stored_messages ++ []; count = 2 }))
list_messages-print_example =
    list_messages-print stored_messages two_messages
      (stored_message-IsEntry, (stored_message-IsEntry, tt)) (omega arith)

collected-print_example :
    collected (scripted []) 1024 (lines stored_messages) start ≡ some (print stored_messages)
unfolding is_terminal text_eq starts_with dispatch_registered_urc find_handler entry_matches
    call_entry decimal
collected-print_example =
    collected-print (scripted []) 1024 stored_messages start
      (stored_message-IsEntry, (stored_message-IsEntry, tt))
      ((refl, refl), ((refl, refl), ((refl, refl), ((refl, refl), tt)))) (omega arith)

abbrev storage : Storage
storage = record {
  read_delete = record { used = 1; total = 23 };
  write_send = record { used = 1; total = 23 };
  receive = record { used = 0; total = 255 };
}

abbrev no_storage : Storage
no_storage = record {
  read_delete = record { used = 0; total = 0 };
  write_send = record { used = 0; total = 0 };
  receive = record { used = 0; total = 0 };
}

parse_cpms_usage-reply_line_example :
    (parse_cpms_usage (reply_line (codes "+CPMS") (set_form storage)) 0 2 no_storage
      ≡ (ok, storage))
    × (parse_cpms_usage
          (reply_line (codes "+CPMS") (query_form (codes "ME") (codes "ME") (codes "SM") storage))
          1
          3
          no_storage
        ≡ (ok, storage))
parse_cpms_usage-reply_line_example =
    parse_cpms_usage-reply_line storage no_storage (codes "ME") (codes "ME") (codes "SM")
      (record {
        read_delete_words = (omega arith, omega arith);
        write_send_words = (omega arith, omega arith);
        receive_words = (omega arith, omega arith);
      })
      (omega arith) (omega arith) (omega arith)

abbrev indication : Cnmi
indication = record { mode = 2; mt = 1; bm = 0; ds = 0; bfr = 0 }

parse_cnmi-reply_line_example :
    (cnmi_command indication ≡ codes "AT+CNMI=" ++ items (cnmi_items indication))
    × (parse_cnmi (reply_line (codes "+CNMI") (cnmi_items indication)) ≡ some indication)
parse_cnmi-reply_line_example = parse_cnmi-reply_line indication (unfold bad_cnmi in refl)

abbrev reply_items : List Item
reply_items = quoted (codes "a,b") ∷ number 42 ∷ []

parse_int_field-nth_number_example :
    parse_int_field (reply_line (codes "+X") reply_items) 1 ≡ some (pos 42)
parse_int_field-nth_number_example =
    parse_int_field-nth_number (codes "+X") reply_items 1 (omega arith)
      (omega arith, (omega arith, tt))

abbrev ping : PingResult
ping = record {
  sent = 4;
  received = 3;
  lost = 1;
  min_rtt_ms = 20;
  max_rtt_ms = 90;
  avg_rtt_ms = 41;
}

ping_line-reply_line_example :
    (ping_line (reply_line (codes "+QPING") (summary_items 0 ping)) ping_cleared ≡ some (ok, ping))
    × (ping_line (reply_line (codes "+QPING") (summary_items 569 ping)) ping_cleared
        ≡ some (err_module, ping_cleared))
    × (ping_line (reply_line (codes "+QPING") (echo_items (codes "8.8.8.8") 32 50 255)) ping_cleared
        ≡ none)
ping_line-reply_line_example =
    ping_line-reply_line ping ping_cleared 569 (codes "8.8.8.8") 32 50 255
      (record {
        sent_word = omega arith;
        received_word = omega arith;
        lost_word = omega arith;
        min_int = omega arith;
        max_int = omega arith;
        avg_int = omega arith;
      })
      (omega arith) (omega arith) (omega arith) (omega arith) (omega arith) (omega arith)

abbrev old_message : MqttMessage
old_message = record {
  topic = replicate 128 7;
  payload = replicate 1460 7;
  payload_len = 9;
  qos = 0;
}

mqtt_recv_urc-Delivered_example : Delivered (codes "a/b") (codes "x\"y") (
    mqtt_recv_urc 5
      (publication (codes "+QMTRECV: 0,0,") (codes "a/b") (codes ",") (codes "x\"y") [])
      old_message)
mqtt_recv_urc-Delivered_example =
    mqtt_recv_urc-Delivered 5 (codes "+QMTRECV: 0,0,") (codes "a/b") (codes ",") (codes "x\"y") []
      old_message refl (record { topic_size = refl; payload_size = refl }) (omega arith)
      (omega arith) (omega arith) (omega arith) (omega arith) tt

sim_status-resp_value_example :
    sim_status (resp_value (codes "+CPIN: " ++ (sim_code sim_pin_required ++ [])))
    ≡ sim_pin_required
sim_status-resp_value_example = sim_status-resp_value sim_pin_required [] (λ e. cc) tt

abbrev upload_script : Text
upload_script = codes "CONNECT\r\n+QFUPL: 2,77\r\nOK\r\n"

file_upload-FileSent_example :
    After
      (λ r s'. r.0 ≡ ok → FileSent (some (codes "ca.pem")) (some (1 ∷ 2 ∷ [])) [] s'.world.written)
      (file_upload
        (scripted upload_script)
        (2 ^ 17)
        (some (codes "ca.pem"))
        (some (1 ∷ 2 ∷ []))
        (some 0)
        start)
file_upload-FileSent_example =
    file_upload-FileSent (scripted upload_script) (scripted-Sink upload_script)
      (scripted-Quiet upload_script) (2 ^ 17) (omega arith) (some (codes "ca.pem"))
      (some (1 ∷ 2 ∷ [])) (some 0) start

abbrev new_year : Datetime
new_year = record {
  year = 2026;
  month = 1;
  day = 1;
  hour = 0;
  minute = 5;
  second = 9;
  tz_quarters = negsuc 3;
}

parse_timestamp-clock_text_example :
    (parse_timestamp (set_command new_year) datetime_cleared ≡ (ok, new_year))
    × (parse_timestamp (codes " \"26/01/01,00:05:09-04\",0") datetime_cleared ≡ (ok, new_year))
unfolding decimal
parse_timestamp-clock_text_example =
    parse_timestamp-clock_text new_year datetime_cleared (codes " ") (codes ",0")
      (unfold bad_datetime in refl) (omega arith) (omega arith)
