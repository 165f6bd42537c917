-- ===== src/Mqtt/Session/Yield.antt =====
-- uiot/mqtt/src/mqtt_client_yield.c: the keep-alive pings, the sweeps of the waiting lists, and the
-- main loop.
pub mod Waiting
pub mod Acknowledged
use ucloud_iot_rtthread_pack.Prelude.{
  ℕ, zero, suc, ◌+◌, ◌*◌, ◌/◌, Bool, true, false, not, ◌&&◌, ◌||◌, List, [], ◌∷◌, ◌++◌, ltb, leb,
  ◌==◌, if◌then◌else◌, length, u8, u32, ℤ, eq_ℤ, is_pos, is_neg, Outcome, ok, err, fault,
}
use ucloud_iot_rtthread_pack.Codes.{
  success_ret, failure_ret, mqtt_already_connected, mqtt_connection_accepted,
  mqtt_manually_disconnected, mqtt_reconnected, err_param_invalid, err_mqtt_no_conn,
  err_mqtt_attempting_reconnect, err_mqtt_reconnect_timeout, err_tcp_read_failed,
  err_tcp_peer_shutdown, err_ssl_read_timeout, err_ssl_read_failed,
}
use ucloud_iot_rtthread_pack.Mqtt.Header.{
  MessageType, type_code, connack, pingreq, subscribe, disconnect,
}
use ucloud_iot_rtthread_pack.Mqtt.Serialize.{serialize_zero_payload}
use ucloud_iot_rtthread_pack.Mqtt.Deserialize.{Connack, deserialize_connack}
use ucloud_iot_rtthread_pack.Mqtt.Connect.{serialize_connect}
use ucloud_iot_rtthread_pack.Mqtt.State.{
  min_reconnect_wait_interval, max_reconnect_wait_interval, NodeState, normal, invalid, PubInfo,
  SubInfo, Event, disconnected, reconnected, publish_timeout, subscribe_timeout,
  unsubscribe_timeout, ConnectParams, Client,
}
use ucloud_iot_rtthread_pack.Mqtt.Act.{
  Hal, St, Act, ◌>>=◌, ◌>>◌, pure, fail, fail_if, lift, gets, modify, crash, outside, code,
  on_error, return_code, has_expired, countdown_ms, countdown, left_ms, list_iterator,
}
use ucloud_iot_rtthread_pack.Mqtt.Pending.{notify}
use ucloud_iot_rtthread_pack.Mqtt.Net.{send_mqtt_packet}
use ucloud_iot_rtthread_pack.Mqtt.Handlers.{store_packet, cycle_for_read, wait_for_read}
use ucloud_iot_rtthread_pack.Mqtt.Requests.{mqtt_resubscribe}
use ucloud_iot_rtthread_pack.Mqtt.Session.{handle_disconnect, handle_reconnect}

module _ (hal : Hal) (fuel : ℕ) where
  -- MQTT_PING_RETRY_TIMES
  abbrev pub ping_retry_times : ℕ
  ping_retry_times = 2

  -- The do-while loop that sends the ping, with the attempts that are left behind this one.
  send_ping : ℕ → ℕ → Act hal.World ℤ
  send_ping zero len = do
    timeout ← gets (λ c. c.command_timeout_ms)
    timer ← countdown_ms hal timeout
    code (send_mqtt_packet hal fuel len timer)
  send_ping (suc more) len = do
    timeout ← gets (λ c. c.command_timeout_ms)
    timer ← countdown_ms hal timeout
    ret ← code (send_mqtt_packet hal fuel len timer)
    elim (eq_ℤ ret success_ret) [ true ↦ pure ret | false ↦ send_ping more len ]

  abbrev ping_wait : ℕ → ℕ
  ping_wait interval = if ltb 5 (interval / 2) then 5 else interval / 2

  -- A ping has been sent: count it, and wait for its answer.
  note_ping : Act hal.World ℤ
  note_ping = do
    modify (λ c. record c { is_ping_outstanding = u8 (c.is_ping_outstanding + 1) })
    interval ← gets (λ c. c.options.keep_alive_interval)
    timer ← countdown hal (ping_wait interval)
    modify (λ c. record c { ping_timer = timer })
    pure success_ret

  ping : Act hal.World ℤ
  ping = do
    buf ← gets (λ c. c.write_buf)
    size ← gets (λ c. c.write_buf_size)
    len ← store_packet (serialize_zero_payload buf size pingreq)
    ret ← send_ping 3 len
    elim (eq_ℤ ret success_ret) [ true ↦ note_ping | false ↦ handle_disconnect hal fuel ]

  -- _mqtt_keep_alive; the error of its serializer is its result
  unfoldable pub keep_alive : Act hal.World ℤ
  unfolding ping note_ping send_ping
  keep_alive = do
    c ← gets (λ c. c)
    elim (c.options.keep_alive_interval == 0) [
      | true ↦ pure success_ret
      | false ↦ do
        expired ← has_expired hal c.ping_timer
        elim expired [
          | false ↦ pure success_ret
          | true ↦ elim (leb ping_retry_times c.is_ping_outstanding) [
            | true ↦ handle_disconnect hal fuel
            | false ↦ ping
          ]
        ]
    ]

  -- One node of uiot_mqtt_pub_info_proc: does it stay?
  unfoldable pub visit_pub : PubInfo → Act hal.World Bool
  visit_pub p = elim p.node_state [
    | invalid ↦ pure false
    | normal ↦ do
      c ← gets (λ c. c)
      elim c.is_connected [
        | false ↦ pure true
        | true ↦ do
          left ← left_ms hal p.pub_start_time
          elim (is_pos left) [
            | true ↦ pure true
            | false ↦ do
              _ ← countdown_ms hal c.command_timeout_ms
              modify (notify (publish_timeout p.msg_id))
              pure false
          ]
      ]
  ]

  -- One node of uiot_mqtt_sub_info_proc.
  unfoldable pub visit_sub : SubInfo → Act hal.World Bool
  visit_sub p = elim p.node_state [
    | invalid ↦ pure false
    | normal ↦ do
      c ← gets (λ c. c)
      elim c.is_connected [
        | false ↦ pure true
        | true ↦ do
          left ← left_ms hal p.sub_start_time
          elim (is_pos left) [
            | true ↦ pure true
            | false ↦ do
              modify (
                  notify (
                    if type_code p.type == type_code subscribe
                    then subscribe_timeout p.msg_id
                    else unsubscribe_timeout p.msg_id))
              pure false
          ]
      ]
  ]

  -- The walk over a waiting list, from the tail to the head.
  unfoldable pub sweep : {A : Type 0} → (A → Act hal.World Bool) → List A → Act hal.World (List A)
  sweep visit [] = pure []
  sweep visit (p ∷ ps) = do
    rest ← sweep visit ps
    stays ← visit p
    pure (if stays then p ∷ rest else rest)

  -- uiot_mqtt_pub_info_proc
  unfoldable pub pub_info_proc : Act hal.World (Unit {0})
  pub_info_proc = do
    waiting ← gets (λ c. c.list_pub_wait_ack)
    granted ← outside (list_iterator hal waiting)
    elim granted [
      | false ↦ pure tt
      | true ↦ do
        rest ← sweep visit_pub waiting
        modify (λ c. record c { list_pub_wait_ack = rest })
    ]

  -- uiot_mqtt_sub_info_proc
  unfoldable pub sub_info_proc : Act hal.World (Unit {0})
  sub_info_proc = do
    waiting ← gets (λ c. c.list_sub_wait_ack)
    granted ← outside (list_iterator hal waiting)
    elim granted [
      | false ↦ pure tt
      | true ↦ do
        rest ← sweep visit_sub waiting
        modify (λ c. record c { list_sub_wait_ack = rest })
    ]

  abbrev pub is_read_error : ℤ → Bool
  is_read_error ret =
      eq_ℤ ret err_ssl_read_timeout
      || eq_ℤ ret err_ssl_read_failed
      || eq_ℤ ret err_tcp_peer_shutdown
      || eq_ℤ ret err_tcp_read_failed

  -- `ret = cycle_for_read(...)` as a number
  forget_type : Act hal.World ℕ → Act hal.World (Unit {0})
  forget_type m = do _ ← m; pure tt

  housekeeping : Act hal.World ℤ
  housekeeping = do pub_info_proc; sub_info_proc; keep_alive

  -- The branches on the result of cycle_for_read.
  unfoldable pub after_read : ℤ → Act hal.World ℤ
  unfolding housekeeping
  after_read ret =
      if eq_ℤ ret success_ret
      then housekeeping
      else if is_read_error ret
      then handle_disconnect hal fuel
      else if eq_ℤ ret failure_ret
      then pure success_ret
      else pure ret

  -- A lost connection: whether the loop goes on, and with which `ret`.
  unfoldable pub lost_connection : Act hal.World (Bool × ℤ)
  lost_connection = do
    modify
        (λ c. record c { counter_network_disconnected = u32 (c.counter_network_disconnected + 1) })
    auto ← gets (λ c. c.options.auto_connect_enable)
    elim auto [
      | false ↦ pure (false, err_mqtt_no_conn)
      | true ↦ do
        modify (λ c. record c { current_reconnect_wait_interval = min_reconnect_wait_interval })
        timer ← countdown_ms hal min_reconnect_wait_interval
        modify (λ c. record c { reconnect_delay_timer = timer })
        pure (true, err_mqtt_attempting_reconnect)
    ]

  -- The body of the loop while the client is connected.
  round_connected : ℕ → Act hal.World (Bool × ℤ)
  round_connected timer = do
    read ← code (forget_type (cycle_for_read hal fuel 0 timer))
    ret ← after_read read
    elim (eq_ℤ ret err_mqtt_no_conn) [
      | true ↦ lost_connection
      | false ↦ pure (eq_ℤ ret success_ret, ret)
    ]

  -- The body of the loop while it is not.
  round_disconnected : Act hal.World (Bool × ℤ)
  round_disconnected = do
    interval ← gets (λ c. c.current_reconnect_wait_interval)
    elim (ltb max_reconnect_wait_interval interval) [
      | true ↦ pure (false, err_mqtt_reconnect_timeout)
      | false ↦ do ret ← handle_reconnect hal fuel; pure (true, ret)
    ]

  -- One round of the loop of uiot_mqtt_yield: whether it goes on, and `ret`.
  unfoldable pub yield_round : ℕ → Act hal.World (Bool × ℤ)
  unfolding round_connected round_disconnected forget_type
  yield_round timer = do
    connected ← gets (λ c. c.is_connected)
    elim connected [ true ↦ round_connected timer | false ↦ round_disconnected ]

  -- The loop of uiot_mqtt_yield, on rounds.
  unfoldable pub yield_loop : ℕ → ℤ → ℕ → Act hal.World ℤ
  yield_loop zero ret timer = crash
  yield_loop (suc rounds) ret timer = do
    expired ← has_expired hal timer
    elim expired [
      | true ↦ pure ret
      | false ↦ do
        (goes_on, ret₁) ← yield_round timer
        elim goes_on [ true ↦ yield_loop rounds ret₁ timer | false ↦ pure ret₁ ]
    ]

  -- uiot_mqtt_yield
  unfoldable pub mqtt_yield : ℕ → Act hal.World ℤ
  mqtt_yield timeout_ms = do
    fail_if (timeout_ms == 0) err_param_invalid
    c ← gets (λ c. c)
    fail_if (not c.is_connected && c.was_manually_disconnected) mqtt_manually_disconnected
    fail_if (not c.is_connected && not c.options.auto_connect_enable) err_mqtt_no_conn
    timer ← countdown_ms hal timeout_ms
    yield_loop fuel success_ret timer
