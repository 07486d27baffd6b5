-- ===== src/Mqtt/Wire.antt =====
-- What ec200_mqtt_publish puts on the wire.
use ec200_at_abstraction.Prelude.{
  ℕ, ◌^◌, ◌≤◌, ◌<◌, ◌≡◌, Bool, ◌||◌, List, [], ◌∷◌, ◌++◌, Option, some, length, arith, if-elim,
}
use ec200_at_abstraction.Text.{Text, codes}
use ec200_at_abstraction.Handle.{Platform, Sys, Status, ok, timeout_long}
use ec200_at_abstraction.Exec.{Exec}
use ec200_at_abstraction.At.Delivery.{Sink}
use ec200_at_abstraction.At.Valid.{After, After-weaken}
use ec200_at_abstraction.At.Silence.{answer-Silent, prompted-Writes}
use ec200_at_abstraction.At.Wire.{Quiet, Writes}
use ec200_at_abstraction.Mqtt.Session.{
  qmt_result, bad_topic, bad_publication, publish_command, publish_answer, publish_payload,
  mqtt_publish,
}

-- The module was given the command and the payload, within the limits of ec200_mqtt_publish.
abbrev pub Published : ℕ → ℕ → ℕ → Bool → Option Text → Option (List ℕ) → List ℕ → List ℕ → Type 0
Published idx msg_id qos retain (some topic) (some payload) before after =
    (0 < length topic)
    × (length topic < 128)
    × (0 < length payload)
    × (length payload ≤ 1460)
    × (msg_id ≡ 0 → qos ≡ 0)
    × (after
        ≡ before
          ++ ((publish_command idx msg_id qos retain topic (length payload) ++ (b'\r' ∷ []))
              ++ payload))
Published idx msg_id qos retain topic payload before after = ⊥

module _ {W : Type 0} (p : Platform W) (sk : Sink p) (quiet : Quiet p sk) (fuel : ℕ)
    (enough : 2 ^ 17 ≤ fuel) where
  open sk use {accepted}

  publish_payload-Writes :
      (cmd : Text) (payload : List ℕ)
      → length payload ≤ 1460
      → Writes p sk quiet ((cmd ++ (b'\r' ∷ [])) ++ payload) (publish_payload p fuel cmd payload)
  unfolding publish_payload publish_answer
  publish_payload-Writes cmd payload short =
      prompted-Writes p sk quiet fuel cmd payload (publish_answer p fuel) enough (omega arith) (
        answer-Silent p sk quiet fuel (codes "+QMTPUBEX:") 128 timeout_long
          λ resp. qmt_result resp 2)

  -- If ec200_mqtt_publish returns EC200_OK, the topic has 1 to 127 bytes, the payload 1 to 1460, a message
  -- id of 0 goes with a quality of service of 0, and what the platform has accepted has grown by the
  -- command line with the payload's length and by the payload, whatever bytes it holds, and by nothing
  -- else; 2^17 units of fuel are given, and reading and the application's handlers write nothing.
  pub mqtt_publish-Published :
      (idx msg_id qos : ℕ) (retain : Bool) (topic : Option Text) (payload : Option (List ℕ))
      (s : Sys W)
      → After
          (λ st s'.
            st ≡ ok
            → Published idx msg_id qos retain topic payload (accepted s.world) (accepted s'.world))
          (mqtt_publish p fuel idx msg_id qos retain topic payload s)
  unfolding mqtt_publish bad_topic bad_publication
  mqtt_publish-Published idx msg_id qos retain (some topic) (some payload) s =
      let P : Status → Sys W → Type 0 = λ st s'.
        st ≡ ok
        → Published idx msg_id qos retain (some topic) (some payload) (accepted s.world)
            (accepted s'.world) in
      if-elim (λ (m : Exec W Status). After P (m s))
        (bad_topic (some topic) || bad_publication msg_id qos payload) _ _ (λ _ e. cc)
        λ g.
          let short : length payload ≤ 1460 = ground (arith, g) in
          After-weaken (λ st s'. st ≡ ok → accepted s'.world ≡ accepted s.world ++ _) P _
            (λ st s' h e. (
              ground (arith, g),
              ground (arith, g),
              ground (arith, g),
              short,
              λ z. ground (arith, g, z),
              h e,
            ))
            (publish_payload-Writes (publish_command idx msg_id qos retain topic (length payload))
              payload short s)
  mqtt_publish-Published idx msg_id qos retain _ _ s = λ e. cc
