-- ===== src/Clients/Mqtt.antt =====
-- src/ec200_mqtt.c: what its commands keep of the handle.
use ec200_at_abstraction.Prelude.{ℕ, Bool, List, Option, none, some}
use ec200_at_abstraction.Mqtt.Session.{
  MqttConfig, qmt_command, mqtt_open, mqtt_connect, mqtt_disconnect, mqtt_close, mqtt_subscribe,
  mqtt_unsubscribe, publish_answer, publish_payload, mqtt_publish,
}
use ec200_at_abstraction.Handle.{Platform}
use ec200_at_abstraction.Text.{Text}
use ec200_at_abstraction.At.Guarded.{guarded_rules}
use ec200_at_abstraction.At.Guarded.Rules.{Guarded}

module _ {W : Type 0} (p : Platform W) (fuel : ℕ) where
  qmt_command-Guarded :
      (cmd : Text) (prefix : Text) (size : ℕ) (index : ℕ)
      → Guarded (qmt_command p fuel cmd prefix size index)
  unfolding qmt_command
  qmt_command-Guarded cmd prefix size index = search guarded_rules depth 24

  mqtt_open-Guarded : (cfg : Option MqttConfig) → Guarded (mqtt_open p fuel cfg)
  unfolding mqtt_open
  mqtt_open-Guarded none = search guarded_rules depth 24
  mqtt_open-Guarded (some cfg) = search (guarded_rules, qmt_command-Guarded) depth 24

  mqtt_connect-Guarded : (cfg : Option MqttConfig) → Guarded (mqtt_connect p fuel cfg)
  unfolding mqtt_connect
  mqtt_connect-Guarded none = search guarded_rules depth 24
  mqtt_connect-Guarded (some cfg) = search (guarded_rules, qmt_command-Guarded) depth 24

  mqtt_disconnect-Guarded : (client_idx : ℕ) → Guarded (mqtt_disconnect p fuel client_idx)
  unfolding mqtt_disconnect
  mqtt_disconnect-Guarded client_idx = search (guarded_rules, qmt_command-Guarded) depth 24

  mqtt_close-Guarded : (tcp_connect_id : ℕ) → Guarded (mqtt_close p fuel tcp_connect_id)
  unfolding mqtt_close
  mqtt_close-Guarded tcp_connect_id = search (guarded_rules, qmt_command-Guarded) depth 24

  mqtt_subscribe-Guarded :
      (client_idx : ℕ) (msg_id : ℕ) (topic : Option Text) (qos : ℕ)
      → Guarded (mqtt_subscribe p fuel client_idx msg_id topic qos)
  unfolding mqtt_subscribe
  mqtt_subscribe-Guarded client_idx msg_id none qos = search guarded_rules depth 24
  mqtt_subscribe-Guarded client_idx msg_id (some topic) qos =
      search (guarded_rules, qmt_command-Guarded) depth 24

  mqtt_unsubscribe-Guarded :
      (client_idx : ℕ) (msg_id : ℕ) (topic : Option Text)
      → Guarded (mqtt_unsubscribe p fuel client_idx msg_id topic)
  unfolding mqtt_unsubscribe
  mqtt_unsubscribe-Guarded client_idx msg_id none = search guarded_rules depth 24
  mqtt_unsubscribe-Guarded client_idx msg_id (some topic) =
      search (guarded_rules, qmt_command-Guarded) depth 24

  publish_answer-Guarded : Guarded (publish_answer p fuel)
  unfolding publish_answer
  publish_answer-Guarded = search guarded_rules depth 24

  publish_payload-Guarded :
      (cmd : Text) (payload : List ℕ) → Guarded (publish_payload p fuel cmd payload)
  unfolding publish_payload
  publish_payload-Guarded cmd payload = search (guarded_rules, publish_answer-Guarded) depth 24

  mqtt_publish-Guarded :
      (client_idx : ℕ) (msg_id : ℕ) (qos : ℕ) (retain : Bool) (topic : Option Text)
      (payload : Option (List ℕ))
      → Guarded (mqtt_publish p fuel client_idx msg_id qos retain topic payload)
  unfolding mqtt_publish
  mqtt_publish-Guarded client_idx msg_id qos retain (some topic) (some payload) =
      search (guarded_rules, publish_payload-Guarded) depth 24
  mqtt_publish-Guarded client_idx msg_id qos retain topic payload = search guarded_rules depth 24

  -- Every function that sends a command; ec200_mqtt_set_message_cb, which sends none, changes the table.
  abbrev pub MqttGuarded : Type 0
  MqttGuarded =
      ((cfg : Option MqttConfig) → Guarded (mqtt_open p fuel cfg))
      × ((cfg : Option MqttConfig) → Guarded (mqtt_connect p fuel cfg))
      × ((client_idx : ℕ) → Guarded (mqtt_disconnect p fuel client_idx))
      × ((tcp_connect_id : ℕ) → Guarded (mqtt_close p fuel tcp_connect_id))
      × ((client_idx : ℕ) (msg_id : ℕ) (topic : Option Text) (qos : ℕ)
          → Guarded (mqtt_subscribe p fuel client_idx msg_id topic qos))
      × ((client_idx : ℕ) (msg_id : ℕ) (topic : Option Text)
          → Guarded (mqtt_unsubscribe p fuel client_idx msg_id topic))
      × ((client_idx : ℕ) (msg_id : ℕ) (qos : ℕ) (retain : Bool) (topic : Option Text)
            (payload : Option (List ℕ))
          → Guarded (mqtt_publish p fuel client_idx msg_id qos retain topic payload))

  pub mqtt_calls-MqttGuarded : MqttGuarded
  mqtt_calls-MqttGuarded = (
    mqtt_open-Guarded, mqtt_connect-Guarded, mqtt_disconnect-Guarded, mqtt_close-Guarded,
    mqtt_subscribe-Guarded, mqtt_unsubscribe-Guarded, mqtt_publish-Guarded,
  )
