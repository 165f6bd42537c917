-- ===== src/Mqtt/Serialize/Safety.antt =====
-- uiot/mqtt/src: the serializers against the end of the buffer.
use ucloud_iot_rtthread_pack.Prelude.{
  ℕ, ◌*◌, ◌^◌, ◌≤◌, ◌<◌, ◌≡◌, List, [], ◌∷◌, Outcome, ok, err, ◌∙◌, arith, ltb, length,
  length-append, drop, true, false,
}
use ucloud_iot_rtthread_pack.Codes.{err_mqtt_buffer_too_short}
use ucloud_iot_rtthread_pack.Mqtt.Bytes.{Writer, writer_at, write_bytes}
use ucloud_iot_rtthread_pack.Mqtt.Bytes.Writes.{write_bytes_fits}
use ucloud_iot_rtthread_pack.Mqtt.RemLen.{packet_len}
use ucloud_iot_rtthread_pack.Mqtt.RemLen.Encoding.{rem_len_bytes, packet_len_bounds}
use ucloud_iot_rtthread_pack.Mqtt.Header.{publish, subscribe, unsubscribe}
use ucloud_iot_rtthread_pack.Mqtt.Header.Fields.{header_byte}
use ucloud_iot_rtthread_pack.Mqtt.Serialize.{
  serialize_publish, serialize_subscribe, serialize_unsubscribe,
}
use ucloud_iot_rtthread_pack.Mqtt.Serialize.Layout
use ucloud_iot_rtthread_pack.Mqtt.Serialize.Filters

-- The buffer after a packet has been written at its start.
abbrev pub holding : List ℕ → List ℕ → Writer
holding packet buf = record { done = packet; room = drop (length packet) buf }

-- A packet whose estimated length fits the buffer is written without a fault.
pub packet_fits :
    (buf body : List ℕ) (buf_len header : ℕ)
    → buf_len ≤ length buf
    → length body < 128 * 128 * 128 * 128
    → packet_len (length body) ≤ buf_len
    → write_bytes (writer_at buf) (Layout.packet_bytes header body)
      ≡ ok (holding (Layout.packet_bytes header body) buf)
packet_fits buf body buf_len header hb hl hp =
    write_bytes_fits (Layout.packet_bytes header body) (writer_at buf) (
      omega (
        arith,
        packet_len_bounds (length body) hl,
        length-append (rem_len_bytes (length body)) body,
      ))

-- What a serializer returns: the packet at the start of the buffer, or ERR_MQTT_BUFFER_TOO_SHORT.
abbrev pub packet_or_short : List ℕ → ℕ → ℕ → List ℕ → Outcome Writer
packet_or_short buf buf_len header body = elim (ltb buf_len (packet_len (length body))) [
  | true ↦ err err_mqtt_buffer_too_short
  | false ↦ ok (holding (Layout.packet_bytes header body) buf)
]

pub guarded_fits :
    (buf body : List ℕ) (buf_len header : ℕ)
    → buf_len ≤ length buf
    → length body < 128 * 128 * 128 * 128
    → Layout.guarded buf buf_len header body ≡ packet_or_short buf buf_len header body
guarded_fits buf body buf_len header hb hl =
    ground (arith, packet_fits buf body buf_len header hb hl)

-- _serialize_publish_packet, for any topic and payload whose body has fewer than 128^4 bytes, dup and
-- retained of one bit, QoS up to 2 and a buffer of at least buf_len bytes, writes one PUBLISH packet
-- whose remaining length is the size of its body, or returns ERR_MQTT_BUFFER_TOO_SHORT; it writes
-- nothing outside the buffer.
pub serialize_publish-writes :
    (buf topic_name payload : List ℕ) (buf_len dup qos retained packet_id : ℕ)
    → dup ≤ 1
    → qos ≤ 2
    → retained ≤ 1
    → buf_len ≤ length buf
    → length (Layout.publish_body qos packet_id topic_name payload) < 128 * 128 * 128 * 128
    → serialize_publish buf buf_len dup qos retained packet_id topic_name payload
      ≡ packet_or_short buf buf_len
          (header_byte publish qos dup retained)
          (Layout.publish_body qos packet_id topic_name payload)
serialize_publish-writes buf topic payload buf_len dup qos retained id hd hq hr hb hl =
    Layout.serialize_publish-packet buf topic payload buf_len dup qos retained id hd hq hr
      (omega arith)
    ∙ guarded_fits buf (Layout.publish_body qos id topic payload) buf_len
        (header_byte publish qos dup retained) hb hl

-- _serialize_subscribe_packet with one topic filter, as uiot_mqtt_subscribe calls it, writes one
-- SUBSCRIBE packet whose remaining length is the size of its body, or returns
-- ERR_MQTT_BUFFER_TOO_SHORT; it writes nothing outside the buffer.
serialize_subscribe-writes :
    (buf : List ℕ) (buf_len dup packet_id : ℕ) (topic : List ℕ) (qos : ℕ)
    → dup ≤ 1
    → length topic < 2 ^ 16
    → buf_len ≤ length buf
    → serialize_subscribe buf buf_len dup packet_id 1 topic (qos ∷ [])
      ≡ packet_or_short buf buf_len
          (header_byte subscribe 1 dup 0)
          (Filters.subscribe_body packet_id topic qos)
serialize_subscribe-writes buf buf_len dup id topic qos hd ht hb =
    Filters.serialize_subscribe-packet buf buf_len dup id topic qos hd (omega arith)
    ∙ guarded_fits buf (Filters.subscribe_body id topic qos) buf_len (header_byte subscribe 1 dup 0)
        hb (omega (arith, Filters.length-subscribe_body id topic qos))

-- _serialize_unsubscribe_packet with one topic filter, as uiot_mqtt_unsubscribe calls it, writes one
-- UNSUBSCRIBE packet whose remaining length is the size of its body, or returns
-- ERR_MQTT_BUFFER_TOO_SHORT; it writes nothing outside the buffer.
pub serialize_unsubscribe-writes :
    (buf : List ℕ) (buf_len dup packet_id : ℕ) (topic : List ℕ)
    → dup ≤ 1
    → length topic < 2 ^ 16
    → buf_len ≤ length buf
    → serialize_unsubscribe buf buf_len dup packet_id 1 topic
      ≡ packet_or_short buf buf_len
          (header_byte unsubscribe 1 dup 0)
          (Filters.unsubscribe_body packet_id topic)
serialize_unsubscribe-writes buf buf_len dup id topic hd ht hb =
    Filters.serialize_unsubscribe-packet buf buf_len dup id topic hd (omega arith)
    ∙ guarded_fits buf (Filters.unsubscribe_body id topic) buf_len (header_byte unsubscribe 1 dup 0)
        hb (omega (arith, Filters.length-unsubscribe_body id topic))
