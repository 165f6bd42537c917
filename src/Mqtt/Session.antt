-- ===== src/Mqtt/Session.antt =====
-- uiot/mqtt/src: the connection over time, from mqtt_client_connect.c (connect, disconnect,
-- reconnect) and mqtt_client_yield.c (_handle_disconnect, _handle_reconnect). A function that
-- returns an int which its caller inspects is an action with that number as its result.
pub mod Liveness
pub mod Reconnect
pub mod Yield
use ucloud_iot_rtthread_pack.Prelude.{
  ℕ, zero, suc, ◌+◌, ◌*◌, ◌/◌, Bool, true, false, not, ◌&&◌, ◌||◌, List, [], ◌∷◌, ◌++◌, ltb, leb,
  ◌==◌, if◌then◌else◌, length, u8, u32, ℤ, eq_ℤ, is_pos, is_neg, Outcome, ok, err, fault,
}
use ucloud_iot_rtthread_pack.Codes.{
  success_ret, failure_ret, mqtt_already_connected, mqtt_connection_accepted,
  mqtt_manually_disconnected, mqtt_reconnected, err_param_invalid, err_mqtt_no_conn,
  err_mqtt_attempting_reconnect, err_mqtt_reconnect_timeout, err_tcp_read_failed,
  err_tcp_peer_shutdown, err_ssl_read_timeout, err_ssl_read_failed,
}
use ucloud_iot_rtthread_pack.Mqtt.Header.{
  MessageType, type_code, connack, pingreq, subscribe, disconnect,
}
use ucloud_iot_rtthread_pack.Mqtt.Serialize.{serialize_zero_payload}
use ucloud_iot_rtthread_pack.Mqtt.Deserialize.{Connack, deserialize_connack}
use ucloud_iot_rtthread_pack.Mqtt.Connect.{serialize_connect}
use ucloud_iot_rtthread_pack.Mqtt.State.{
  min_reconnect_wait_interval, max_reconnect_wait_interval, NodeState, normal, invalid, PubInfo,
  SubInfo, Event, disconnected, reconnected, publish_timeout, subscribe_timeout,
  unsubscribe_timeout, ConnectParams, Client,
}
use ucloud_iot_rtthread_pack.Mqtt.Act.{
  Hal, St, Act, ◌>>=◌, ◌>>◌, pure, fail, fail_if, lift, gets, modify, crash, outside, code,
  on_error, return_code, has_expired, countdown_ms, countdown, left_ms,
}
use ucloud_iot_rtthread_pack.Mqtt.Pending.{notify}
use ucloud_iot_rtthread_pack.Mqtt.Net.{send_mqtt_packet}
use ucloud_iot_rtthread_pack.Mqtt.Handlers.{store_packet, cycle_for_read, wait_for_read}
use ucloud_iot_rtthread_pack.Mqtt.Requests.{mqtt_resubscribe}

-- set_client_conn_state
abbrev pub set_conn_state : Bool → Client → Client
set_conn_state connected c = record c { is_connected = connected }

module _ (hal : Hal) (fuel : ℕ) where
  -- pClient->network_stack.disconnect(...)
  net_disconnect : Act hal.World (Unit {0})
  net_disconnect s = (ok tt, record s { world = hal.disconnect s.world })

  -- _mqtt_connect, up to the CONNACK packet
  unfoldable pub send_connect : ConnectParams → Act hal.World ℕ
  send_connect options = do
    timeout ← gets (λ c. c.command_timeout_ms)
    timer ← countdown_ms hal timeout
    modify (λ c. record c { options = options })
    ret ← outside hal.connect
    return_code ret
    buf ← gets (λ c. c.write_buf)
    size ← gets (λ c. c.write_buf_size)
    len ← store_packet (serialize_connect buf size options)
    send_mqtt_packet hal fuel len timer
    pure timer

  -- _mqtt_connect, behind the CONNACK packet
  unfoldable pub accept_connack : Act hal.World (Unit {0})
  accept_connack = do
    buf ← gets (λ c. c.read_buf)
    size ← gets (λ c. c.read_buf_size)
    ack ← lift (deserialize_connack buf size)
    fail_if (not (eq_ℤ ack.connack_rc mqtt_connection_accepted)) ack.connack_rc
    modify (set_conn_state true)
    modify (λ c. record c { was_manually_disconnected = false; is_ping_outstanding = 0 })
    interval ← gets (λ c. c.options.keep_alive_interval)
    timer ← countdown hal interval
    modify (λ c. record c { ping_timer = timer })

  -- _mqtt_connect
  unfoldable pub connect_client : ConnectParams → Act hal.World (Unit {0})
  connect_client options = do
    timer ← send_connect options
    wait_for_read hal fuel fuel 0 (type_code connack) timer
    accept_connack

  -- uiot_mqtt_connect
  unfoldable pub mqtt_connect : ConnectParams → Act hal.World (Unit {0})
  unfolding net_disconnect
  mqtt_connect options = do
    connected ← gets (λ c. c.is_connected)
    fail_if connected mqtt_already_connected
    on_error (connect_client options) (λ ret. do net_disconnect; fail ret)

  -- uiot_mqtt_attempt_reconnect behind a connection that stands
  resume : Act hal.World ℤ
  resume = do
    ret ← code (mqtt_resubscribe hal fuel)
    pure (if eq_ℤ ret success_ret then mqtt_reconnected else ret)

  -- uiot_mqtt_attempt_reconnect
  unfoldable pub attempt_reconnect : Act hal.World ℤ
  unfolding resume
  attempt_reconnect = do
    c ← gets (λ c. c)
    elim c.is_connected [
      | true ↦ pure mqtt_already_connected
      | false ↦ do
        ret ← code (mqtt_connect c.options)
        connected ← gets (λ c. c.is_connected)
        elim connected [ true ↦ resume | false ↦ pure ret ]
    ]

  -- The DISCONNECT packet, serialized and sent.
  send_disconnect : Act hal.World (Unit {0})
  send_disconnect = do
    buf ← gets (λ c. c.write_buf)
    size ← gets (λ c. c.write_buf_size)
    len ← store_packet (serialize_zero_payload buf size disconnect)
    timeout ← gets (λ c. c.command_timeout_ms)
    timer ← countdown_ms hal timeout
    send_mqtt_packet hal fuel len timer

  -- uiot_mqtt_disconnect; a failure to send goes to `end` too
  unfoldable pub mqtt_disconnect : Act hal.World (Unit {0})
  unfolding send_disconnect net_disconnect
  mqtt_disconnect = do
    connected ← gets (λ c. c.is_connected)
    fail_if (not connected) err_mqtt_no_conn
    _ ← code send_disconnect
    net_disconnect
    modify (set_conn_state false)
    modify (λ c. record c { was_manually_disconnected = true })

  -- _handle_disconnect
  unfoldable pub handle_disconnect : Act hal.World ℤ
  unfolding net_disconnect
  handle_disconnect = do
    connected ← gets (λ c. c.is_connected)
    elim connected [
      | false ↦ pure err_mqtt_no_conn
      | true ↦ do
        on_error mqtt_disconnect (λ ret. do net_disconnect; modify (set_conn_state false))
        modify (notify disconnected)
        modify (λ c. record c { was_manually_disconnected = false })
        pure err_mqtt_no_conn
    ]

  -- The wait before the next attempt; ENABLE_INFINITE_RECONNECT is 1.
  unfoldable pub next_interval : ℕ → ℕ
  next_interval interval =
      let doubled = u32 (interval * 2) in
      if ltb max_reconnect_wait_interval doubled then max_reconnect_wait_interval else doubled

  unfoldable pub back_off : Act hal.World ℤ
  back_off = do
    modify (λ c. record c {
      current_reconnect_wait_interval = next_interval c.current_reconnect_wait_interval;
    })
    interval ← gets (λ c. c.current_reconnect_wait_interval)
    timer ← countdown_ms hal interval
    modify (λ c. record c { reconnect_delay_timer = timer })
    pure err_mqtt_attempting_reconnect

  -- _handle_reconnect
  unfoldable pub handle_reconnect : Act hal.World ℤ
  unfolding back_off
  handle_reconnect = do
    delay ← gets (λ c. c.reconnect_delay_timer)
    expired ← has_expired hal delay
    elim expired [
      | false ↦ pure err_mqtt_attempting_reconnect
      | true ↦ do
        ret ← attempt_reconnect
        elim (eq_ℤ ret mqtt_reconnected) [
          | true ↦ (do modify (notify reconnected); pure ret)
          | false ↦ back_off
        ]
    ]
