-- ===== src/Clients.antt =====
-- What the commands of every client keep of the handle.
mod Http
mod Mqtt
mod File
mod Sim
mod Time
mod Ssl
mod Tcpip
mod Sms
mod Data
mod Power
mod Network
mod Gnss
mod Core
use ec200_at_abstraction.Prelude.{ℕ, ℤ, Option}
use ec200_at_abstraction.Text.{Text}
use ec200_at_abstraction.Handle.{Platform}
use Http.{HttpGuarded, http_calls-HttpGuarded}
use Mqtt.{MqttGuarded, mqtt_calls-MqttGuarded}
use File.{FileGuarded, file_calls-FileGuarded}
use Sim.{SimGuarded, sim_calls-SimGuarded}
use Time.{TimeGuarded, time_calls-TimeGuarded}
use Ssl.{SslGuarded, ssl_calls-SslGuarded}
use Tcpip.{TcpipGuarded, tcpip_calls-TcpipGuarded}
use Sms.{SmsGuarded, sms_calls-SmsGuarded}
use Data.{DataGuarded, data_calls-DataGuarded}
use Power.{PowerGuarded, power_calls-PowerGuarded}
use Network.{NetworkGuarded, network_calls-NetworkGuarded}
use Gnss.{GnssGuarded, gnss_calls-GnssGuarded}
use Core.{CoreGuarded, core_calls-CoreGuarded}

-- The clients' functions that send a command. ec200_init, the PPP calls and ec200_mqtt_set_message_cb,
-- which set up the handle, its mode and its table, are not among them.
module _ {W : Type 0} (p : Platform W) (fuel : ℕ) (scan_signal : Text → Option (ℤ × ℤ)) (F : Type 0)
    (zero_f : F) (tenths : F → ℕ) where
  abbrev pub ClientsGuarded : Type 0
  ClientsGuarded =
      HttpGuarded p fuel
      × MqttGuarded p fuel
      × FileGuarded p fuel
      × SimGuarded p fuel
      × TimeGuarded p fuel
      × SslGuarded p fuel
      × TcpipGuarded p fuel
      × SmsGuarded p fuel
      × DataGuarded p fuel
      × PowerGuarded p fuel
      × NetworkGuarded p fuel scan_signal
      × GnssGuarded p fuel F zero_f tenths
      × CoreGuarded p fuel

  -- Whatever the platform does, each of the listed functions that send commands (those of HTTP, files, SIM,
  -- time, SSL, sockets, SMS, packet data, power, network and positioning, the general commands, and opening,
  -- connecting, disconnecting, closing, subscribing, unsubscribing and publishing of MQTT), if it returns,
  -- leaves a valid handle valid, with every array at its C size and room in the receive buffer, and its URC
  -- table, its PPP flag and its initialisation flag as they were; ec200_init, the PPP calls and
  -- ec200_mqtt_set_message_cb are not among them.
  pub client_calls-ClientsGuarded : ClientsGuarded
  client_calls-ClientsGuarded = (
    http_calls-HttpGuarded p fuel,
    mqtt_calls-MqttGuarded p fuel,
    file_calls-FileGuarded p fuel,
    sim_calls-SimGuarded p fuel,
    time_calls-TimeGuarded p fuel,
    ssl_calls-SslGuarded p fuel,
    tcpip_calls-TcpipGuarded p fuel,
    sms_calls-SmsGuarded p fuel,
    data_calls-DataGuarded p fuel,
    power_calls-PowerGuarded p fuel,
    network_calls-NetworkGuarded p fuel scan_signal,
    gnss_calls-GnssGuarded p fuel F zero_f tenths,
    core_calls-CoreGuarded p fuel,
  )
