-- ===== src/Mqtt/Session.antt =====
-- src/ec200_mqtt.c: the commands of the client.
use ec200_at_abstraction.Prelude.{
  ℕ, Bool, true, ◌||◌, ◌&&◌, not, List, [], ◌∷◌, ◌++◌, Option, none, some, leb, ltb, ◌==◌,
  if◌then◌else◌, length,
}
use ec200_at_abstraction.Text.{Text, codes, decimal}
use ec200_at_abstraction.Handle.{
  Handle, Platform, Ptr, Status, err_param, is_null, timeout_default, timeout_long,
}
use ec200_at_abstraction.Exec.{Exec, pure, ◌>>=◌, if_ok}
use ec200_at_abstraction.Query.{result_field, send_command, await_urc, await_prefix}
use ec200_at_abstraction.At.Urc.{register_urc, unregister_urc}
use ec200_at_abstraction.At.Tx.{write_raw}
use ec200_at_abstraction.At.Prompt.{at_send_prompt}
use ec200_at_abstraction.Tcpip.Socket.{max_payload_len}

-- EC200_MAX_TOPIC_LEN
abbrev pub max_topic_len : ℕ
max_topic_len = 128

-- ec200_mqtt_config_t, with its strings; the keep-alive interval and the clean session flag are not here,
-- since no function of the file reads them.
pub record MqttConfig : Type 0 where
  pub host : Text
  pub port : ℕ
  pub client_id : Text
  pub username : Text
  pub password : Text
  pub tcp_connect_id : ℕ
  pub client_idx : ℕ
  pub use_tls : Bool
  pub ssl_ctx_id : ℕ

abbrev flag : Bool → ℕ
flag b = if b then 1 else 0

-- "<text>"
abbrev quote : Text → Text
quote s = b'"' ∷ (s ++ (b'"' ∷ []))

-- A number, a comma, and what follows.
abbrev field : ℕ → Text → Text
field n rest = decimal n ++ (b',' ∷ rest)

-- qmt_result
unfoldable pub qmt_result : Text → ℕ → Status
unfolding result_field
qmt_result line index = result_field line index

-- The guards on the topic.
unfoldable pub bad_topic : Option Text → Bool
bad_topic none = true
bad_topic (some topic) = length topic == 0 || leb max_topic_len (length topic)

-- AT+QMTPUBEX=<idx>,<msg_id>,<qos>,<retain>,"<topic>",<length>
abbrev pub publish_command : ℕ → ℕ → ℕ → Bool → Text → ℕ → Text
publish_command client_idx msg_id qos retain topic len =
    codes "AT+QMTPUBEX="
    ++ field client_idx
        (field msg_id (field qos (field (flag retain) (quote topic ++ (b',' ∷ decimal len)))))

-- The guards of ec200_mqtt_publish behind those on the topic.
unfoldable pub bad_publication : ℕ → ℕ → List ℕ → Bool
bad_publication msg_id qos payload =
    length payload == 0 || ltb max_payload_len (length payload) || not (qos == 0) && (msg_id == 0)

module _ {W : Type 0} (p : Platform W) (fuel : ℕ) where
  -- An asynchronous command and the check of its result line.
  unfoldable pub qmt_command : Text → Text → ℕ → ℕ → Exec W Status
  unfolding qmt_result
  qmt_command cmd prefix size index = do
    (st, resp) ← await_urc p fuel cmd prefix size timeout_long
    if_ok st (pure (qmt_result resp index))

  -- ec200_mqtt_open; a NULL configuration is `none`.
  unfoldable pub mqtt_open : Option MqttConfig → Exec W Status
  unfolding qmt_command
  mqtt_open none = pure err_param
  mqtt_open (some cfg) =
      if length cfg.host == 0 || cfg.use_tls && ltb 5 cfg.ssl_ctx_id then pure err_param else do
        st ←
            send_command p fuel
              (codes "AT+QMTCFG=\"ssl\","
                ++ field cfg.tcp_connect_id (field (flag cfg.use_tls) (decimal cfg.ssl_ctx_id)))
              timeout_default
        if_ok st (
            qmt_command
              (codes "AT+QMTOPEN="
                ++ field cfg.tcp_connect_id (quote cfg.host ++ (b',' ∷ decimal cfg.port)))
              (codes "+QMTOPEN:") 64 1)

  -- AT+QMTCONN=<idx>,"<client>"[,"<user>","<password>"]
  abbrev connect_command : MqttConfig → Text
  connect_command cfg =
      codes "AT+QMTCONN="
      ++ field cfg.client_idx (
          if length cfg.username == 0
          then quote cfg.client_id
          else quote cfg.client_id ++ (b',' ∷ (quote cfg.username ++ (b',' ∷ quote cfg.password))))

  -- ec200_mqtt_connect
  unfoldable pub mqtt_connect : Option MqttConfig → Exec W Status
  unfolding qmt_command
  mqtt_connect none = pure err_param
  mqtt_connect (some cfg) =
      if length cfg.client_id == 0
      then pure err_param
      else qmt_command (connect_command cfg) (codes "+QMTCONN:") 64 1

  -- ec200_mqtt_disconnect
  unfoldable pub mqtt_disconnect : ℕ → Exec W Status
  unfolding qmt_command
  mqtt_disconnect client_idx =
      qmt_command (codes "AT+QMTDISC=" ++ decimal client_idx) (codes "+QMTDISC:") 64 1

  -- ec200_mqtt_close
  unfoldable pub mqtt_close : ℕ → Exec W Status
  unfolding qmt_command
  mqtt_close tcp_connect_id =
      qmt_command (codes "AT+QMTCLOSE=" ++ decimal tcp_connect_id) (codes "+QMTCLOSE:") 64 1

  -- ec200_mqtt_subscribe; a NULL topic is `none`.
  unfoldable pub mqtt_subscribe : ℕ → ℕ → Option Text → ℕ → Exec W Status
  unfolding qmt_command bad_topic
  mqtt_subscribe client_idx msg_id none qos = pure err_param
  mqtt_subscribe client_idx msg_id (some topic) qos =
      if bad_topic (some topic) || (msg_id == 0)
      then pure err_param
      else qmt_command
          (codes "AT+QMTSUB="
            ++ field client_idx (field msg_id (quote topic ++ (b',' ∷ decimal qos))))
          (codes "+QMTSUB:") 128 2

  -- ec200_mqtt_unsubscribe
  unfoldable pub mqtt_unsubscribe : ℕ → ℕ → Option Text → Exec W Status
  unfolding qmt_command bad_topic
  mqtt_unsubscribe client_idx msg_id none = pure err_param
  mqtt_unsubscribe client_idx msg_id (some topic) =
      if bad_topic (some topic) || (msg_id == 0)
      then pure err_param
      else qmt_command (codes "AT+QMTUNS=" ++ field client_idx (field msg_id (quote topic)))
          (codes "+QMTUNS:") 128 2

  -- The rest of ec200_mqtt_publish behind the payload.
  unfoldable pub publish_answer : Exec W Status
  unfolding qmt_result
  publish_answer = do
    (st, resp) ← await_prefix p fuel (codes "+QMTPUBEX:") 128 timeout_long
    if_ok st (pure (qmt_result resp 2))

  -- The transaction of ec200_mqtt_publish.
  unfoldable pub publish_payload : Text → List ℕ → Exec W Status
  unfolding publish_answer
  publish_payload cmd payload = do
    st ← (do
      st ← at_send_prompt p fuel (some cmd) timeout_default
      if_ok st (write_raw p fuel (some payload)))
    if_ok st publish_answer

  -- ec200_mqtt_publish; a NULL topic or payload is `none`.
  unfoldable pub mqtt_publish : ℕ → ℕ → ℕ → Bool → Option Text → Option (List ℕ) → Exec W Status
  unfolding publish_payload bad_topic bad_publication
  mqtt_publish client_idx msg_id qos retain (some topic) (some payload) =
      if bad_topic (some topic) || bad_publication msg_id qos payload
      then pure err_param
      else publish_payload (publish_command client_idx msg_id qos retain topic (length payload))
          payload
  mqtt_publish client_idx msg_id qos retain topic payload = pure err_param

-- ec200_mqtt_set_message_cb, with the pointers to mqtt_recv_urc and to the handle.
unfoldable pub mqtt_set_message_cb : Ptr → Ptr → Ptr → Handle → Handle
mqtt_set_message_cb recv_urc self callback h =
    let h' : Handle = record h { mqtt_msg_cb = callback } in
    if is_null callback
    then (unregister_urc (some (codes "+QMTRECV:")) h').1
    else (register_urc (some (codes "+QMTRECV:")) recv_urc self h').1
