-- ===== src/Mqtt/Delivery.antt =====
-- mqtt_recv_urc on the line of a publication.
use ec200_at_abstraction.Prelude.{
  ℕ, ◌<◌, ◌≡◌, refl, ap, ◌∙◌, min, Bool, true, List, [], ◌∷◌, ◌++◌, some, length, take, arith,
  take-length, length-take, length-append, if_false, false, sym,
}
use mathlib.Core.Path.{subst}
use ec200_at_abstraction.Text.{Text, c_str, memcpy_at}
use ec200_at_abstraction.Text.Laws.{Free, NoNul, cut-append, cut_last-append, length-memcpy_at}
use ec200_at_abstraction.Handle.{Ptr, is_null}
use ec200_at_abstraction.Sms.Header.{next_quoted, copy_cut}
use ec200_at_abstraction.Sms.RoundTrip.{next_quoted-append, c_str-copy_cut, copy_cut_fits}
use ec200_at_abstraction.Mqtt.Message.{
  MqttMessage, restarted, store_payload, quoted_body, recv_message, mqtt_recv_urc,
}

-- A message struct whose arrays have their C sizes.
pub record IsSizedMessage (m : MqttMessage) : Type 0 where
  pub topic_size : length m.topic ≡ 128
  pub payload_size : length m.payload ≡ 1460

-- <before>"<topic>"<between>"<payload>"<behind>
abbrev pub publication : Text → Text → Text → Text → Text → Text
publication before topic between payload behind =
    before ++ (b'"' ∷ (topic ++ (b'"' ∷ (between ++ (b'"' ∷ (payload ++ (b'"' ∷ behind)))))))

-- The message shows the topic and the payload, cut to its array.
pub record Carries (topic payload : Text) (m : MqttMessage) : Type 0 where
  pub topic_shown : c_str m.topic ≡ topic
  pub count : m.payload_len ≡ min 1460 (length payload)
  pub payload_shown : take m.payload_len m.payload ≡ take 1460 payload
  pub sized : IsSizedMessage m

quoted_body-append :
    (between payload behind : Text)
    → Free b'"' between
    → Free b'"' behind
    → quoted_body (between ++ (b'"' ∷ (payload ++ (b'"' ∷ behind)))) ≡ some payload
unfolding quoted_body
quoted_body-append between payload behind h k =
    rw (quoted_body, cut-append b'"' between (payload ++ (b'"' ∷ behind)) h)
      (cut_last-append b'"' payload behind k)

recv_message_lem :
    (line topic rest body : Text) (m : MqttMessage)
    → next_quoted line ≡ some (topic, rest)
    → quoted_body rest ≡ some body
    → recv_message line m ≡ (
      store_payload body (record (restarted m) { topic = copy_cut topic (restarted m).topic }),
      true,
    )
unfolding recv_message
recv_message_lem line topic rest body m e k = rw (recv_message, e, k) refl

take-memcpy_at : (src dst : List ℕ) → take (length src) (memcpy_at 0 src dst) ≡ src
unfolding memcpy_at
take-memcpy_at src dst = take-length src _

store_payload-Carries :
    (topic body : Text) (m : MqttMessage)
    → IsSizedMessage m
    → c_str m.topic ≡ topic
    → Carries topic body (store_payload body m)
unfolding store_payload
store_payload-Carries topic body m v e =
    let stored = take (length m.payload) body in
    let size : length stored ≡ min 1460 (length body) =
      length-take (length m.payload) body ∙ ap (λ k. min k (length body)) v.payload_size in
    record {
      topic_shown = e;
      count = size;
      payload_shown = take-memcpy_at stored m.payload ∙ ap (λ k. take k body) v.payload_size;
      sized = record {
        topic_size = v.topic_size;
        payload_size =
            length-memcpy_at 0 stored m.payload (omega (arith, length-take (length m.payload) body))
            ∙ v.payload_size;
      };
    }

restarted-IsSizedMessage : (m : MqttMessage) → IsSizedMessage m → IsSizedMessage (restarted m)
restarted-IsSizedMessage m v = record {
  topic_size = length-memcpy_at 0 (0 ∷ []) m.topic (omega (arith, v.topic_size)) ∙ v.topic_size;
  payload_size = v.payload_size;
}

named-IsSizedMessage :
    (topic : Text) (m : MqttMessage)
    → IsSizedMessage m
    → length topic < 128
    → IsSizedMessage (record m { topic = copy_cut topic m.topic })
named-IsSizedMessage topic m v short = record {
  topic_size =
      ap length (copy_cut_fits topic m.topic (omega (arith, v.topic_size)))
      ∙ length-memcpy_at 0 (topic ++ (0 ∷ [])) m.topic
          (omega (arith, length-append topic (0 ∷ []), v.topic_size))
      ∙ v.topic_size;
  payload_size = v.payload_size;
}

-- What mqtt_recv_urc makes of a publication: a message that carries it, and a call of the callback.
abbrev pub Delivered : Text → Text → MqttMessage × Bool → Type 0
Delivered topic payload (m, called) = Carries topic payload m × (called ≡ true)

-- On a line with a quoted topic of at most 127 bytes without NUL or quotes, and behind it a payload
-- between the next quote and the last one of the line, mqtt_recv_urc calls the callback, if one is set,
-- with that topic and the first 1460 bytes of that payload, which may hold quotes itself, whatever the
-- static message held before.
pub mqtt_recv_urc-Delivered :
    (callback : Ptr) (before topic between payload behind : Text) (m : MqttMessage)
    → is_null callback ≡ false
    → IsSizedMessage m
    → Free b'"' before
    → Free b'"' topic
    → NoNul topic
    → length topic < 128
    → Free b'"' between
    → Free b'"' behind
    → Delivered topic payload
        (mqtt_recv_urc callback (publication before topic between payload behind) m)
unfolding mqtt_recv_urc
mqtt_recv_urc-Delivered callback before topic between payload behind m set v fb ft nt short fm fe =
    let v' = restarted-IsSizedMessage m v in
    let rest = between ++ (b'"' ∷ (payload ++ (b'"' ∷ behind))) in
    subst (Delivered topic payload)
      (sym (
        if_false (is_null callback) _ _ set
        ∙ recv_message_lem (publication before topic between payload behind) topic rest payload m
            (next_quoted-append before topic rest fb ft)
            (quoted_body-append between payload behind fm fe)))
      (
        store_payload-Carries topic payload
            (record (restarted m) { topic = copy_cut topic (restarted m).topic })
            (named-IsSizedMessage topic (restarted m) v' short)
            (c_str-copy_cut topic (restarted m).topic nt (omega (arith, v'.topic_size))),
        refl,
      )
