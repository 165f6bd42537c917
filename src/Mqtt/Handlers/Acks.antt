-- ===== src/Mqtt/Handlers/Acks.antt =====
-- uiot/mqtt/src/mqtt_client_common.c: SUBACK and UNSUBACK packets whose identifier no request waits
-- for.
use ucloud_iot_rtthread_pack.Prelude.{
  ℕ, ◌≡◌, ◌≢◌, refl, arith, none, List, [], ◌∷◌, All, ok, err, fault, inl, inr, Bool-cases,
}
use ucloud_iot_rtthread_pack.Codes.{err_mqtt_sub_failed}
use ucloud_iot_rtthread_pack.Mqtt.State.{SubInfo}
use ucloud_iot_rtthread_pack.Mqtt.Act.{Hal, St, list_iterator}
use ucloud_iot_rtthread_pack.Mqtt.Deserialize.{Suback, deserialize_suback, deserialize_unsuback}
use ucloud_iot_rtthread_pack.Mqtt.Pending.{masked_handler}
use ucloud_iot_rtthread_pack.Mqtt.Handlers.{handle_suback, handle_unsuback}

masked_handler-none :
    (msg_id : ℕ) (waiting : List SubInfo)
    → All (λ x. x.msg_id ≢ msg_id) waiting
    → masked_handler msg_id waiting ≡ none
unfolding masked_handler
masked_handler-none msg_id [] h = refl
masked_handler-none msg_id (x ∷ xs) h = ground (arith, masked_handler-none msg_id xs)

-- An UNSUBACK packet with an identifier that no request waits for makes _handle_unsuback_packet use
-- a variable that was never set.
handle_unsuback_unknown :
    (hal : Hal) (s : St hal.World) (packet_id : ℕ)
    → deserialize_unsuback s.client.read_buf s.client.read_buf_size ≡ ok packet_id
    → All (λ x. x.msg_id ≢ packet_id) s.client.list_sub_wait_ack
    → (handle_unsuback hal s).0 ≡ fault
unfolding handle_unsuback
handle_unsuback_unknown hal s packet_id e h =
    let waiting = s.client.list_sub_wait_ack in
    elim (Bool-cases (list_iterator hal waiting s.world).0) [
      | inl g ↦ simp (e, g, masked_handler-none packet_id waiting h)
      | inr g ↦ simp (e, g)
    ]

-- A SUBACK packet with such an identifier is refused with ERR_MQTT_SUB_FAILED, and the table of
-- subscriptions and the trace stay as they are.
pub handle_suback_unknown :
    (hal : Hal) (s : St hal.World) (ack : Suback)
    → deserialize_suback 1 (0 ∷ 0 ∷ 0 ∷ []) s.client.read_buf s.client.read_buf_size ≡ ok ack
    → All (λ x. x.msg_id ≢ ack.packet_id) s.client.list_sub_wait_ack
    → ((handle_suback hal s).0 ≡ err err_mqtt_sub_failed)
      × ((handle_suback hal s).1.client.sub_handles ≡ s.client.sub_handles)
      × ((handle_suback hal s).1.client.trace ≡ s.client.trace)
unfolding handle_suback
handle_suback_unknown hal s ack e h =
    let waiting = s.client.list_sub_wait_ack in
    elim (Bool-cases (list_iterator hal waiting s.world).0) [
      | inl g ↦ simp (e, g, masked_handler-none ack.packet_id waiting h) (refl, refl, refl)
      | inr g ↦ simp (e, g) (refl, refl, refl)
    ]
