-- ===== src/Mqtt/Deserialize.antt =====
-- The deserializers of uiot/mqtt/src: each reads a packet from the start of a buffer and returns its
-- fields, or a code. Output parameters are the fields of the result; the callers read them only
-- after SUCCESS_RET. Null pointers are not modelled. `size_t` has 32 bits.
pub mod RoundTrip
pub mod Truncated
pub mod Answer
pub mod Inverse
use ucloud_iot_rtthread_pack.Prelude.{
  ℕ, zero, suc, ◌+◌, ◌-◌, ◌^◌, Bool, true, false, not, List, [], ◌∷◌, Outcome, ok, err, fault,
  ◌>>=◌, ◌>>◌, reject_if, ltb, leb, ◌==◌, if◌then◌else◌, length, set, u32, bit_and, ℤ, pos, negsuc,
  eq_ℤ,
}
use ucloud_iot_rtthread_pack.Codes.{
  success_ret, failure_ret, err_mqtt_buffer_too_short, mqtt_connection_accepted,
  err_mqtt_connack_unknown, err_mqtt_connack_unacceptable_protocol_version,
  err_mqtt_connack_identifier_rejected, err_mqtt_connack_server_unavailable,
  err_mqtt_connack_bad_userdata, err_mqtt_connack_not_authorized,
}
use ucloud_iot_rtthread_pack.Mqtt.Bytes.{Reader, reader_at, read_char, read_uint16, skip}
use ucloud_iot_rtthread_pack.Mqtt.RemLen.{read_rem_len}
use ucloud_iot_rtthread_pack.Mqtt.Header.{
  type_code, publish, connack, suback, unsuback, header_type, header_dup, header_qos,
  header_retained,
}

-- UIOT_MQTT_RX_BUF_LEN
abbrev pub rx_buf_len : ℕ
rx_buf_len = 2048

pub record Ack : Type 0 where
  pub packet_type : ℕ
  pub dup : ℕ
  pub packet_id : ℕ

-- `if (enddata - curdata >= 1) { ack_code = ...; if (ack_code != 0) return FAILURE_RET; }`
check_ack_code : ℕ → Reader → Outcome (Unit {0})
check_ack_code enddata r =
    if ltb r.pos enddata
    then (do (ack_code, _) ← read_char r; reject_if (not (ack_code == 0)) failure_ret)
    else ok tt

-- mqtt_client_common.c: deserialize_ack_packet
unfoldable pub deserialize_ack : List ℕ → ℕ → Outcome Ack
unfolding check_ack_code
deserialize_ack buf buf_len = do
  reject_if (ltb buf_len 4) err_mqtt_buffer_too_short
  (header, r₁) ← read_char (reader_at buf)
  (decoded_len, r₂) ← read_rem_len r₁
  let enddata = r₂.pos + decoded_len
  reject_if (ltb enddata (r₂.pos + 2)) failure_ret
  (packet_id, r₃) ← read_uint16 r₂
  check_ack_code enddata r₃
  ok (record { packet_type = header_type header; dup = header_dup header; packet_id = packet_id })

-- mqtt_client_common.c: deserialize_unsuback_packet
unfoldable pub deserialize_unsuback : List ℕ → ℕ → Outcome ℕ
deserialize_unsuback buf buf_len = do
  ack ← deserialize_ack buf buf_len
  reject_if (not (ack.packet_type == type_code unsuback)) failure_ret
  ok ack.packet_id

pub record Suback : Type 0 where
  pub packet_id : ℕ
  pub count : ℕ
  pub granted_qoss : List ℕ

-- The loop `while (curdata < enddata)`, on the bytes left; the caller's array is `granted`, and a
-- write behind its end is a fault.
unfoldable pub read_granted : ℕ → ℕ → ℕ → List ℕ → Reader → Outcome (ℕ × List ℕ)
read_granted zero max_count count granted r = ok (count, granted)
read_granted (suc left) max_count count granted r = do
  reject_if (ltb max_count count) failure_ret
  (code, r₁) ← read_char r
  elim (ltb count (length granted)) [
    | true ↦ read_granted left max_count (count + 1) (set granted count code) r₁
    | false ↦ fault
  ]

-- mqtt_client_common.c: deserialize_suback_packet
unfoldable pub deserialize_suback : ℕ → List ℕ → List ℕ → ℕ → Outcome Suback
deserialize_suback max_count granted buf buf_len = do
  reject_if (ltb buf_len 5) err_mqtt_buffer_too_short
  (header, r₁) ← read_char (reader_at buf)
  reject_if (not (header_type header == type_code suback)) failure_ret
  (decoded_len, r₂) ← read_rem_len r₁
  let enddata = r₂.pos + decoded_len
  reject_if (ltb enddata (r₂.pos + 2)) failure_ret
  (packet_id, r₃) ← read_uint16 r₂
  (count, granted_qoss) ← read_granted (enddata - r₃.pos) max_count 0 granted r₃
  ok (record { packet_id = packet_id; count = count; granted_qoss = granted_qoss })

pub record Connack : Type 0 where
  pub session_present : ℕ
  pub connack_rc : ℤ

-- The switch on the return code of CONNACK.
connack_code : ℕ → ℤ
connack_code c =
    if c == 0
    then mqtt_connection_accepted
    else if c == 1
    then err_mqtt_connack_unacceptable_protocol_version
    else if c == 2
    then err_mqtt_connack_identifier_rejected
    else if c == 3
    then err_mqtt_connack_server_unavailable
    else if c == 4
    then err_mqtt_connack_bad_userdata
    else if c == 5
    then err_mqtt_connack_not_authorized
    else err_mqtt_connack_unknown

-- mqtt_client_connect.c: _deserialize_connack_packet
unfoldable pub deserialize_connack : List ℕ → ℕ → Outcome Connack
unfolding connack_code
deserialize_connack buf buf_len = do
  reject_if (ltb buf_len 4) err_mqtt_buffer_too_short
  (header, r₁) ← read_char (reader_at buf)
  reject_if (not (header_type header == type_code connack)) failure_ret
  (decoded_len, r₂) ← read_rem_len r₁
  let enddata = r₂.pos + decoded_len
  reject_if (not (enddata == r₂.pos + 2)) failure_ret
  (flags, r₃) ← read_char r₂
  (connack_rc_char, _) ← read_char r₃
  ok (record { session_present = bit_and flags 0x01; connack_rc = connack_code connack_rc_char })

pub record Message : Type 0 where
  pub dup : ℕ
  pub qos : ℕ
  pub retained : ℕ
  pub id : ℕ
  pub topic_name : Reader
  pub topic_len : ℕ
  pub payload : Reader
  pub payload_len : ℕ

-- mqtt_client_publish.c: _read_string_with_len; the string starts at the reader that is returned
unfoldable pub read_string_with_len : Reader → ℕ → Outcome (ℕ × Reader)
read_string_with_len r enddata =
    if ltb (r.pos + 1) enddata
    then (do
      (string_len, r₁) ← read_uint16 r
      reject_if (ltb rx_buf_len string_len) failure_ret
      if leb (r₁.pos + string_len) enddata then ok (string_len, r₁) else err failure_ret)
    else err failure_ret

-- `if (QOS0 != *qos) *packet_id = mqtt_read_uint16_t(&curdata);`
unfoldable pub read_packet_id : ℕ → ℕ → Reader → Outcome (ℕ × Reader)
read_packet_id qos packet_id r = if qos == 0 then ok (packet_id, r) else read_uint16 r

-- mqtt_client_publish.c: deserialize_publish_packet; `packet_id` is what the caller's variable holds
-- before the call, and stays there at QOS0
unfoldable pub deserialize_publish : ℕ → List ℕ → ℕ → Outcome Message
unfolding read_string_with_len read_packet_id
deserialize_publish packet_id buf buf_len = do
  reject_if (ltb buf_len 4) err_mqtt_buffer_too_short
  (header, r₁) ← read_char (reader_at buf)
  reject_if (not (header_type header == type_code publish)) failure_ret
  (decoded_len, r₂) ← read_rem_len r₁
  let enddata = r₂.pos + decoded_len
  (topic_len, topic) ← read_string_with_len r₂ enddata
  let r₃ = skip topic_len topic
  reject_if (ltb enddata r₃.pos) failure_ret
  (id, r₄) ← read_packet_id (header_qos header) packet_id r₃
  ok (record {
    dup = header_dup header;
    qos = header_qos header;
    retained = header_retained header;
    id = id;
    topic_name = topic;
    topic_len = topic_len;
    payload = r₄;
    payload_len = u32 (enddata + 2 ^ 32 - r₄.pos);
  })
