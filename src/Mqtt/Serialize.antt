-- ===== src/Mqtt/Serialize.antt =====
-- The serializers of uiot/mqtt/src: each writes a packet at the start of a buffer, or returns a
-- code. `*serialized_len` is the length of what the writer has passed. Null pointers are not
-- modelled: the client passes its own buffers and local variables. `size_t` has 32 bits.
pub mod Layout
pub mod Filters
pub mod Safety
use ucloud_iot_rtthread_pack.Prelude.{
  ℕ, zero, suc, ◌+◌, ◌%◌, Bool, true, false, ◌&&◌, Option, none, some, List, [], ◌∷◌, Outcome, ok,
  err, fault, ◌>>=◌, ◌>>◌, reject_if, ltb, leb, ◌==◌, if◌then◌else◌, length, drop, get_elem?, u8,
  u16, u32, not, bit_or, bit_and,
}
use ucloud_iot_rtthread_pack.Codes.{
  failure_ret, err_mqtt_buffer_too_short, err_mqtt_unknown_error, err_param_invalid,
}
use ucloud_iot_rtthread_pack.Mqtt.Bytes.{
  Writer, writer_at, write_char, write_uint16, write_bytes, write_utf8_string,
}
use ucloud_iot_rtthread_pack.Mqtt.RemLen.{write_rem_len, packet_len}
use ucloud_iot_rtthread_pack.Mqtt.Header.{
  MessageType, type_code, connect, publish, pubrel, subscribe, unsubscribe, qos0, qos1,
  init_packet_header,
}

-- mqtt_client_common.c: serialize_packet_with_zero_payload
unfoldable pub serialize_zero_payload : List ℕ → ℕ → MessageType → Outcome Writer
serialize_zero_payload buf buf_len packet_type = do
  reject_if (ltb buf_len 4) err_mqtt_buffer_too_short
  header ← init_packet_header packet_type qos0 0 0
  w₁ ← write_char (writer_at buf) header
  write_rem_len w₁ 0

abbrev pub ack_qos : MessageType → ℕ
ack_qos packet_type = if type_code packet_type == type_code pubrel then qos1 else qos0

-- mqtt_client_publish.c: serialize_pub_ack_packet
unfoldable pub serialize_pub_ack : List ℕ → ℕ → MessageType → ℕ → ℕ → Outcome Writer
serialize_pub_ack buf buf_len packet_type dup packet_id =
    let initialized = init_packet_header packet_type (ack_qos packet_type) dup 0 in
    do
      reject_if (ltb buf_len 4) err_mqtt_buffer_too_short
      header ← initialized
      w₁ ← write_char (writer_at buf) header
      w₂ ← write_rem_len w₁ 2
      write_uint16 w₂ packet_id

-- mqtt_client_publish.c: _get_publish_packet_len
unfoldable pub publish_rem_len : ℕ → List ℕ → ℕ → ℕ
publish_rem_len qos topic_name payload_len =
    u32 (2 + length topic_name + payload_len + (if ltb 0 qos then 2 else 0))

-- `if (qos > 0) mqtt_write_uint_16(...)`
unfoldable pub write_packet_id : Writer → ℕ → ℕ → Outcome Writer
write_packet_id w qos packet_id = if ltb 0 qos then write_uint16 w packet_id else ok w

-- mqtt_client_publish.c: _serialize_publish_packet; `payload_len` is the length of the payload
unfoldable pub serialize_publish : List ℕ → ℕ → ℕ → ℕ → ℕ → ℕ → List ℕ → List ℕ → Outcome Writer
serialize_publish buf buf_len dup qos retained packet_id topic_name payload =
    let rem_len = publish_rem_len qos topic_name (length payload) in
    do
      reject_if (ltb buf_len (packet_len rem_len)) err_mqtt_buffer_too_short
      header ← init_packet_header publish qos dup retained
      w₁ ← write_char (writer_at buf) header
      w₂ ← write_rem_len w₁ rem_len
      w₃ ← write_utf8_string w₂ topic_name
      w₄ ← write_packet_id w₃ qos packet_id
      write_bytes w₄ payload

-- `*topicFilters + i`: the code steps through the bytes of the first filter, and not through the
-- array of filters. A step past its end is a fault.
unfoldable pub topic_filter_at : List ℕ → ℕ → Outcome (List ℕ)
topic_filter_at topic_filter i =
    if leb i (length topic_filter) then ok (drop i topic_filter) else fault

-- The loops over `count` filters, from index `i` on; `per_topic` is what each adds to its length.
unfoldable pub topics_len : ℕ → ℕ → ℕ → ℕ → List ℕ → Outcome ℕ
unfolding topic_filter_at
topics_len per_topic len i zero topic_filter = ok len
topics_len per_topic len i (suc count) topic_filter = do
  topic ← topic_filter_at topic_filter i
  topics_len per_topic (u32 (len + (2 + length topic + per_topic))) (i + 1) count topic_filter

-- mqtt_client_subscribe.c: _get_subscribe_packet_rem_len
unfoldable pub subscribe_rem_len : ℕ → List ℕ → Outcome ℕ
unfolding topics_len
subscribe_rem_len count topic_filter = topics_len 1 2 0 count topic_filter

-- requestedQoSs[i]
unfoldable pub qos_at : List ℕ → ℕ → Outcome ℕ
qos_at requested_qoss i = elim (get_elem? requested_qoss i) [ none ↦ fault | some q ↦ ok q ]

unfoldable pub write_subscriptions : Writer → ℕ → ℕ → List ℕ → List ℕ → Outcome Writer
unfolding topic_filter_at qos_at
write_subscriptions w i zero topic_filter requested_qoss = ok w
write_subscriptions w i (suc count) topic_filter requested_qoss = do
  topic ← topic_filter_at topic_filter i
  w₁ ← write_utf8_string w topic
  qos ← qos_at requested_qoss i
  w₂ ← write_char w₁ (u8 qos)
  write_subscriptions w₂ (i + 1) count topic_filter requested_qoss

-- mqtt_client_subscribe.c: _serialize_subscribe_packet
unfoldable pub serialize_subscribe : List ℕ → ℕ → ℕ → ℕ → ℕ → List ℕ → List ℕ → Outcome Writer
serialize_subscribe buf buf_len dup packet_id count topic_filter requested_qoss = do
  rem_len ← subscribe_rem_len count topic_filter
  reject_if (ltb buf_len (packet_len rem_len)) err_mqtt_buffer_too_short
  header ← init_packet_header subscribe qos1 dup 0
  w₁ ← write_char (writer_at buf) header
  w₂ ← write_rem_len w₁ rem_len
  w₃ ← write_uint16 w₂ packet_id
  write_subscriptions w₃ 0 count topic_filter requested_qoss

-- mqtt_client_unsubscribe.c: _get_unsubscribe_packet_rem_len
unfoldable pub unsubscribe_rem_len : ℕ → List ℕ → Outcome ℕ
unfolding topics_len
unsubscribe_rem_len count topic_filter = topics_len 0 2 0 count topic_filter

unfoldable pub write_topics : Writer → ℕ → ℕ → List ℕ → Outcome Writer
unfolding topic_filter_at
write_topics w i zero topic_filter = ok w
write_topics w i (suc count) topic_filter = do
  topic ← topic_filter_at topic_filter i
  w₁ ← write_utf8_string w topic
  write_topics w₁ (i + 1) count topic_filter

-- mqtt_client_unsubscribe.c: _serialize_unsubscribe_packet
unfoldable pub serialize_unsubscribe : List ℕ → ℕ → ℕ → ℕ → ℕ → List ℕ → Outcome Writer
serialize_unsubscribe buf buf_len dup packet_id count topic_filter = do
  rem_len ← unsubscribe_rem_len count topic_filter
  reject_if (ltb buf_len (packet_len rem_len)) err_mqtt_buffer_too_short
  header ← init_packet_header unsubscribe qos1 dup 0
  w₁ ← write_char (writer_at buf) header
  w₂ ← write_rem_len w₁ rem_len
  w₃ ← write_uint16 w₂ packet_id
  write_topics w₃ 0 count topic_filter
