-- ===== src/Mqtt/Construct/Ready.antt =====
-- What uiot_mqtt_init and IOT_MQTT_Construct (uiot/mqtt/src/mqtt_client.c) leave behind.
use ucloud_iot_rtthread_pack.Prelude.{
  ℕ, ◌*◌, ◌<◌, ◌≤◌, ◌≡◌, ◌≢◌, refl, ap, arith, inr, [], ◌∷◌, true, false, ok, length, length-append,
  length-replicate, Bool, ℤ, not, Outcome, err, fault,
}
use ucloud_iot_rtthread_pack.Mqtt.Header.{connect}
use ucloud_iot_rtthread_pack.Mqtt.Header.Fields.{header_byte}
use ucloud_iot_rtthread_pack.Codes.{failure_ret}
use ucloud_iot_rtthread_pack.Mqtt.Connect.Packet.{connect_body, serialize_connect-writes}
use ucloud_iot_rtthread_pack.Mqtt.State.{Client, max_sub_topics}
use ucloud_iot_rtthread_pack.Mqtt.Deserialize.{rx_buf_len}
use ucloud_iot_rtthread_pack.Mqtt.Act.{Hal, St, Act, continue, fail_if, ◌>>=◌, >>=-ok}
use ucloud_iot_rtthread_pack.Mqtt.Connect.{serialize_connect}
use ucloud_iot_rtthread_pack.Mqtt.Serialize.Safety.{packet_or_short}
use ucloud_iot_rtthread_pack.Mqtt.Session.{mqtt_connect, set_conn_state}
use ucloud_iot_rtthread_pack.Mqtt.Session.Liveness.{IsFresh, mqtt_connect-IsFresh}
use ucloud_iot_rtthread_pack.Mqtt.Construct.{
  InitParams, init_fields, mqtt_init, acquire, prepare, construct_client, connect_params,
  mqtt_tx_buf_len, min_command_timeout, max_command_timeout,
}
use ucloud_iot_rtthread_pack.Mqtt.Construct.Credentials.{connect_params_whole}

-- What the requests and the receive cycle rely on.
pub record IsReady (c : Client) : Type 0 where
  pub apart : c.is_connected ≡ false
  pub timeout_low : min_command_timeout ≤ c.command_timeout_ms
  pub timeout_high : c.command_timeout_ms ≤ max_command_timeout
  pub first_id : c.next_packet_id ≡ 1
  pub write_room : length c.write_buf ≡ c.write_buf_size
  pub read_room : length c.read_buf ≡ c.read_buf_size
  pub no_pub : c.list_pub_wait_ack ≡ []
  pub no_sub : c.list_sub_wait_ack ≡ []
  pub slots : length c.sub_handles ≡ max_sub_topics

init_fields-IsReady : (p : InitParams) (c : Client) → IsReady (init_fields p c)
unfolding init_fields
init_fields-IsReady p c = record {
  apart = refl;
  timeout_low = ground arith;
  timeout_high = ground arith;
  first_id = refl;
  write_room = length-replicate {A = ℕ} mqtt_tx_buf_len 0;
  read_room = length-replicate {A = ℕ} rx_buf_len 0;
  no_pub = refl;
  no_sub = refl;
  slots = refl;
}

module _ (hal : Hal) (mutex : hal.World → Bool × hal.World) where
  fail_if-IsReady :
      (bad : Bool) (e : ℤ) (s : St hal.World)
      → IsReady s.client
      → IsReady (fail_if bad e s).1.client
  fail_if-IsReady true e s r = r
  fail_if-IsReady false e s r = r

  acquire-IsReady :
      (f : hal.World → Bool × hal.World) (s : St hal.World)
      → IsReady s.client
      → IsReady (acquire hal mutex f s).1.client
  acquire-IsReady f s r =
      fail_if-IsReady (not (f s.world).0) failure_ret (record s { world = (f s.world).1 }) r

  -- Behind a part that leaves a client ready, if what follows does too.
  continue-IsReady :
      (r : Outcome (Unit {0})) (next : Act hal.World (Unit {0})) (t : St hal.World)
      → IsReady t.client
      → ((u : St hal.World) → IsReady u.client → IsReady (next u).1.client)
      → IsReady (continue r (λ _. next) t).1.client
  continue-IsReady (ok _) next t h k = k t h
  continue-IsReady (err e) next t h k = h
  continue-IsReady fault next t h k = h

  acquire_then :
      (f : hal.World → Bool × hal.World) (next : Act hal.World (Unit {0}))
      → ((u : St hal.World) → IsReady u.client → IsReady (next u).1.client)
      → (s : St hal.World) → IsReady s.client
      → IsReady ((acquire hal mutex f >>= λ _. next) s).1.client
  acquire_then f next k s h =
      continue-IsReady (acquire hal mutex f s).0 next (acquire hal mutex f s).1
        (acquire-IsReady f s h) k

  -- The fields of the model's client behind uiot_mqtt_init, also where it fails: there the caller
  -- frees the client, whose list pointers may be NULL and whose locks are destroyed.
  mqtt_init_leaves :
      (p : InitParams) (s : St hal.World) → IsReady (mqtt_init hal mutex p s).1.client
  unfolding mqtt_init
  mqtt_init_leaves p s =
      acquire_then mutex _
        (λ u r.
          acquire_then mutex _
            (acquire_then mutex _ (
              acquire_then mutex _
                (acquire_then (hal.malloc 0) _ (acquire-IsReady (hal.malloc 0)))))
            (record u { client = set_conn_state false u.client }) (apart_again u r))
        (record s { client = init_fields p s.client }) (init_fields-IsReady p s.client)
    where
      apart_again : (u : St hal.World) → IsReady u.client → IsReady (set_conn_state false u.client)
      apart_again u r = record {
        apart = refl;
        timeout_low = r.timeout_low;
        timeout_high = r.timeout_high;
        first_id = r.first_id;
        write_room = r.write_room;
        read_room = r.read_room;
        no_pub = r.no_pub;
        no_sub = r.no_sub;
        slots = r.slots;
      }

  -- Where uiot_mqtt_init succeeds, the client is ready for its requests: it is not connected, its
  -- command timeout is within its limits, the next packet identifier is 1, write_buf and read_buf
  -- have the sizes that are noted for them, both waiting lists are empty, and it has all its
  -- subscription slots.
  pub mqtt_init-IsReady :
      (p : InitParams) (s : St hal.World)
      → (mqtt_init hal mutex p s).0 ≡ ok tt
      → IsReady (mqtt_init hal mutex p s).1.client
  mqtt_init-IsReady p s success = mqtt_init_leaves p s

  version : (p : InitParams) → (connect_params p).mqtt_version ≡ 4
  unfolding connect_params
  version p = refl

  named : (p : InitParams) → length (connect_params p).client_id ≢ 0
  named p e = absurd (
      omega (
        arith,
        e,
        ap length (connect_params_whole p).0,
        length-append p.product_sn (b'.' ∷ p.device_sn),
      ))

  -- The CONNECT packet of a client behind uiot_mqtt_init with the parameters of IOT_MQTT_Construct,
  -- where its body has fewer than 128^4 bytes, is one whole packet in write_buf, or is refused as too long for it, and nothing is written behind
  -- write_buf.
  pub mqtt_init-serialize_connect :
      (p : InitParams) (s : St hal.World)
      → length (connect_body (connect_params p)) < 128 * 128 * 128 * 128
      → let c = (mqtt_init hal mutex p s).1.client in
        serialize_connect c.write_buf c.write_buf_size (connect_params p)
        ≡ packet_or_short c.write_buf c.write_buf_size
            (header_byte connect 0 0 0)
            (connect_body (connect_params p))
  mqtt_init-serialize_connect p s h =
      let c = (mqtt_init hal mutex p s).1.client in
      let r = mqtt_init_leaves p s in
      serialize_connect-writes c.write_buf c.write_buf_size (connect_params p) (inr (version p))
        (named p) (omega (arith, r.write_room)) h

  -- IOT_MQTT_Construct returns a client only if it is connected, was not disconnected by hand, and
  -- has no ping outstanding.
  pub construct_client-IsFresh :
      (fuel : ℕ) (p : InitParams) (s : St hal.World)
      → (construct_client hal mutex fuel p s).0 ≡ ok tt
      → IsFresh (construct_client hal mutex fuel p s).1.client
  unfolding construct_client
  construct_client-IsFresh fuel p s h =
      let (_, e) =
        >>=-ok (prepare hal mutex p) (λ _. mqtt_connect hal fuel (connect_params p)) s h in
      rw e (mqtt_connect-IsFresh hal fuel (connect_params p) (prepare hal mutex p s).1 (rw e at h))
