-- ===== src/Mqtt/Session/Liveness.antt =====
-- uiot/mqtt/src/mqtt_client_connect.c and mqtt_client_yield.c: the connection state behind
-- uiot_mqtt_connect, uiot_mqtt_disconnect and _handle_disconnect.
use ucloud_iot_rtthread_pack.Prelude.{
  ℕ, Bool-cases, ◌≡◌, ◌≢◌, refl, arith, true, false, ok, fault, inl, inr,
}
use ucloud_iot_rtthread_pack.Codes.{err_mqtt_no_conn}
use ucloud_iot_rtthread_pack.Mqtt.State.{Client, ConnectParams, Event, disconnected}
use ucloud_iot_rtthread_pack.Mqtt.Act.{Hal, St, on_error, ◌>>◌, countdown, ◌>>=◌, >>=-ok}
use ucloud_iot_rtthread_pack.Mqtt.Pending.{notify}
use ucloud_iot_rtthread_pack.Mqtt.Header.{type_code, connack}
use ucloud_iot_rtthread_pack.Mqtt.Handlers.{wait_for_read}
use ucloud_iot_rtthread_pack.Mqtt.Session.{
  accept_connack, send_connect, mqtt_connect, connect_client, mqtt_disconnect, handle_disconnect,
}

-- What a connection that stands looks like.
abbrev pub IsFresh : Client → Type 0
IsFresh c =
    (c.is_connected ≡ true) × (c.was_manually_disconnected ≡ false) × (c.is_ping_outstanding ≡ 0)

notify-is_connected : (e : Event) (c : Client) → (notify e c).is_connected ≡ c.is_connected
unfolding notify
notify-is_connected e c = ground arith

module _ (hal : Hal) (fuel : ℕ) where
  accept_connack-connected :
      (s : St hal.World)
      → (accept_connack hal fuel s).0 ≡ ok tt
      → ((accept_connack hal fuel s).1.client.is_connected ≡ true)
        × ((accept_connack hal fuel s).1.client.was_manually_disconnected ≡ false)
        × ((accept_connack hal fuel s).1.client.is_ping_outstanding ≡ 0)
  unfolding accept_connack countdown
  accept_connack-connected s h = ground arith

  connect_client-IsFresh :
      (options : ConnectParams) (s : St hal.World)
      → (connect_client hal fuel options s).0 ≡ ok tt
      → IsFresh (connect_client hal fuel options s).1.client
  unfolding connect_client
  connect_client-IsFresh options s h =
      let wait = λ (timer : ℕ). wait_for_read hal fuel fuel 0 (type_code connack) timer in
      let (timer, e) =
        >>=-ok (send_connect hal fuel options)
          (λ timer. wait timer >>= λ _. accept_connack hal fuel) s h in
      let (_, e') =
        >>=-ok (wait timer) (λ _. accept_connack hal fuel) (send_connect hal fuel options s).1
          (rw e at h) in
      rw (e, e')
        (accept_connack-connected (wait timer (send_connect hal fuel options s).1).1
          (rw (e, e') at h))

  -- uiot_mqtt_connect reports SUCCESS_RET only for a client that is connected, was not disconnected
  -- by hand, and has no ping outstanding.
  pub mqtt_connect-IsFresh :
      (options : ConnectParams) (s : St hal.World)
      → (mqtt_connect hal fuel options s).0 ≡ ok tt
      → IsFresh (mqtt_connect hal fuel options s).1.client
  unfolding mqtt_connect
  mqtt_connect-IsFresh options s h = ground (arith, connect_client-IsFresh options s)

  -- uiot_mqtt_disconnect on a connected client, where it meets no fault: it reports success, also if
  -- the DISCONNECT packet could not be sent, and the client is disconnected, by hand.
  pub mqtt_disconnect_disconnects :
      (s : St hal.World)
      → s.client.is_connected ≡ true
      → (mqtt_disconnect hal fuel s).0 ≢ fault
      → ((mqtt_disconnect hal fuel s).0 ≡ ok tt)
        × ((mqtt_disconnect hal fuel s).1.client.is_connected ≡ false)
        × ((mqtt_disconnect hal fuel s).1.client.was_manually_disconnected ≡ true)
  unfolding mqtt_disconnect
  mqtt_disconnect_disconnects s c h = ground arith

  -- _handle_disconnect, where uiot_mqtt_disconnect meets no fault: its result is ERR_MQTT_NO_CONN, and
  -- the client is disconnected.
  pub handle_disconnect_disconnects :
      (s : St hal.World)
      → (mqtt_disconnect hal fuel s).0 ≢ fault
      → ((handle_disconnect hal fuel s).0 ≡ ok err_mqtt_no_conn)
        × ((handle_disconnect hal fuel s).1.client.is_connected ≡ false)
  unfolding handle_disconnect
  handle_disconnect_disconnects s h = elim (Bool-cases s.client.is_connected) [
    | inl c ↦
        let (e, d, _) = mqtt_disconnect_disconnects s c h in
        simp (c, e, on_error, ◌>>◌)
          (refl, rw (notify-is_connected disconnected (mqtt_disconnect hal fuel s).1.client) d)
    | inr c ↦ simp c (refl, refl)
  ]
