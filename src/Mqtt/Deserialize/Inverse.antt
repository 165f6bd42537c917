-- ===== src/Mqtt/Deserialize/Inverse.antt =====
-- uiot/mqtt/src/mqtt_client_publish.c: deserialize_publish_packet on a buffer that
-- _serialize_publish_packet has filled.
use ucloud_iot_rtthread_pack.Prelude.{
  ℕ, ◌*◌, ◌^◌, ◌≤◌, ◌<◌, ◌≡◌, ◌∙◌, arith, List, ◌++◌, ok, length,
}
use ucloud_iot_rtthread_pack.Mqtt.Bytes.{Writer}
use ucloud_iot_rtthread_pack.Mqtt.RemLen.{packet_len}
use ucloud_iot_rtthread_pack.Mqtt.Header.{publish}
use ucloud_iot_rtthread_pack.Mqtt.Header.Fields.{header_byte}
use ucloud_iot_rtthread_pack.Mqtt.Serialize.{serialize_publish}
use ucloud_iot_rtthread_pack.Mqtt.Serialize.Layout.{packet_bytes, publish_body}
use ucloud_iot_rtthread_pack.Mqtt.Serialize.Safety.{
  holding, packet_or_short, serialize_publish-writes,
}
use ucloud_iot_rtthread_pack.Mqtt.Deserialize.{deserialize_publish, rx_buf_len}
use ucloud_iot_rtthread_pack.Mqtt.Deserialize.RoundTrip.{received, deserialize_publish-packet}

packet_or_short-fits :
    (buf : List ℕ) (buf_len header : ℕ) (body : List ℕ)
    → packet_len (length body) ≤ buf_len
    → packet_or_short buf buf_len header body ≡ ok (holding (packet_bytes header body) buf)
packet_or_short-fits buf buf_len header body h = ground arith

-- For a topic of at most rx_buf_len bytes, a body of fewer than 128^4 bytes, dup and retained of one
-- bit, QoS up to 2 and a packet identifier of 16 bits: where get_mqtt_packet_len finds room for the
-- packet in a buffer of at least four bytes, _serialize_publish_packet succeeds, and
-- deserialize_publish_packet reads from that buffer the same flags, topic, payload and packet
-- identifier (at QOS0 the old one stays).
pub deserialize_publish-serialize_publish :
    (old : ℕ) (buf topic_name payload : List ℕ) (buf_len dup qos retained packet_id : ℕ)
    → dup ≤ 1
    → qos ≤ 2
    → retained ≤ 1
    → packet_id < 2 ^ 16
    → length topic_name ≤ rx_buf_len
    → 4 ≤ buf_len
    → buf_len ≤ length buf
    → length (publish_body qos packet_id topic_name payload) < 128 * 128 * 128 * 128
    → packet_len (length (publish_body qos packet_id topic_name payload)) ≤ buf_len
    → (w : Writer) × (serialize_publish buf buf_len dup qos retained packet_id topic_name payload
        ≡ ok w)
      × (deserialize_publish old (w.done ++ w.room) buf_len
          ≡ ok (received old dup qos retained packet_id topic_name payload w.room))
deserialize_publish-serialize_publish old buf topic payload buf_len dup qos ret id hd hq hr hi ht h4
      hb hl hp =
    let body = publish_body qos id topic payload in
    let packet = packet_bytes (header_byte publish qos dup ret) body in
    (
      holding packet buf,
      serialize_publish-writes buf topic payload buf_len dup qos ret id hd hq hr hb hl
          ∙ packet_or_short-fits buf buf_len (header_byte publish qos dup ret) body hp,
      deserialize_publish-packet old dup qos ret id buf_len topic payload (holding packet buf).room
          hd (omega arith) hr hi ht hl h4,
    )
