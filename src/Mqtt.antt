-- ===== src/Mqtt.antt =====
-- src/ec200_mqtt.c: the MQTT client.
pub mod Message
pub mod Session
pub mod Delivery
pub mod Wire
pub mod Callback
