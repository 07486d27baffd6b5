-- ===== src/Mqtt/Message.antt =====
-- src/ec200_mqtt.c: mqtt_recv_urc.
use ec200_at_abstraction.Prelude.{
  ℕ, if◌then◌else◌, Bool, true, false, List, [], ◌∷◌, Option, none, some, length, take,
}
use ec200_at_abstraction.Text.{Text, cut, cut_last, memcpy_at}
use ec200_at_abstraction.Handle.{Ptr, is_null}
use ec200_at_abstraction.Sms.Header.{next_quoted, copy_cut}

-- ec200_mqtt_message_t; the quality of service is the value of its enumerator.
pub record MqttMessage : Type 0 where
  pub topic : List ℕ
  pub payload : List ℕ
  pub payload_len : ℕ
  pub qos : ℕ

-- The static message at the start of mqtt_recv_urc: the payload of the call before is still in it.
abbrev pub restarted : MqttMessage → MqttMessage
restarted msg = record msg { topic = memcpy_at 0 (0 ∷ []) msg.topic; payload_len = 0; qos = 0 }

-- memcpy(msg.payload, p + 1, plen) with `plen` at most sizeof(msg.payload)
unfoldable pub store_payload : Text → MqttMessage → MqttMessage
store_payload body msg =
    let stored = take (length msg.payload) body in
    record msg { payload = memcpy_at 0 stored msg.payload; payload_len = length stored }

-- The payload between the next quote and the last one.
unfoldable pub quoted_body : Text → Option Text
quoted_body rest = elim (cut b'"' rest) [ none ↦ none | some (_, behind) ↦ cut_last b'"' behind ]

-- mqtt_recv_urc behind the check of the callback.
unfoldable pub recv_message : Text → MqttMessage → MqttMessage × Bool
unfolding store_payload quoted_body
recv_message line msg = elim (next_quoted line) [
  | none ↦ (restarted msg, false)
  | some (topic, rest) ↦
      let named = record (restarted msg) { topic = copy_cut topic (restarted msg).topic } in
      elim (quoted_body rest) [
        | none ↦ (named, true)
        | some body ↦ (store_payload body named, true)
      ]
]

-- mqtt_recv_urc on the static message, with the application's callback: what it leaves in the message,
-- and whether it calls the callback with it.
unfoldable pub mqtt_recv_urc : Ptr → Text → MqttMessage → MqttMessage × Bool
unfolding recv_message
mqtt_recv_urc callback line msg = if is_null callback then (msg, false) else recv_message line msg
