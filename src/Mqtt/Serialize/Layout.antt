-- ===== src/Mqtt/Serialize/Layout.antt =====
-- uiot/mqtt/src: the packets as byte sequences, and the writes of the serializers as one copy.
use mathlib.Core.Path.{fun_ext}
use ucloud_iot_rtthread_pack.Prelude.{
  ℕ, ◌+◌, ◌^◌, ◌≤◌, ◌<◌, ◌≡◌, ◌≢◌, refl, List, [], ◌∷◌, ◌++◌, Outcome, ok, err, ◌>>=◌, arith, ltb,
  if◌then◌else◌, length, length-append, Bool-cases, inl, inr, >>=-ok, reject_if-then, true, false,
  le→ltb,
}
use ucloud_iot_rtthread_pack.Codes.{err_mqtt_buffer_too_short}
use ucloud_iot_rtthread_pack.Mqtt.Bytes.{
  Writer, writer_at, write_char, write_uint16, write_bytes, write_utf8_string,
}
use ucloud_iot_rtthread_pack.Mqtt.Bytes.Writes.{
  uint16_bytes, string_bytes, write_char-bytes, write_uint16-bytes, write_utf8_string-bytes,
  write_bytes-append, length-uint16_bytes, length-string_bytes,
}
use ucloud_iot_rtthread_pack.Mqtt.RemLen.{write_rem_len, packet_len}
use ucloud_iot_rtthread_pack.Mqtt.RemLen.Encoding.{rem_len_bytes, write_rem_len-bytes}
use ucloud_iot_rtthread_pack.Mqtt.Header.{MessageType, reserved, publish}
use ucloud_iot_rtthread_pack.Mqtt.Header.Fields.{header_byte, init_packet_header-byte}
use ucloud_iot_rtthread_pack.Mqtt.Serialize.{
  serialize_zero_payload, serialize_pub_ack, ack_qos, publish_rem_len, serialize_publish,
  write_packet_id,
}

-- A packet: the header byte, the length of the body, the body.
abbrev pub packet_bytes : ℕ → List ℕ → List ℕ
packet_bytes header body = header ∷ (rem_len_bytes (length body) ++ body)

abbrev pub packet_id_bytes : ℕ → ℕ → List ℕ
packet_id_bytes qos packet_id = if ltb 0 qos then uint16_bytes packet_id else []

abbrev pub publish_body : ℕ → ℕ → List ℕ → List ℕ → List ℕ
publish_body qos packet_id topic_name payload =
    string_bytes topic_name ++ (packet_id_bytes qos packet_id ++ payload)

-- The header byte, the length and the body are one copy.
pub write_packet :
    (w : Writer) (header n : ℕ) (body : List ℕ) (write_body : Writer → Outcome Writer)
    → n < 2 ^ 32
    → ((w' : Writer) → write_body w' ≡ write_bytes w' body)
    → (write_char w header >>= λ w₁. write_rem_len w₁ n >>= write_body)
      ≡ write_bytes w (header ∷ (rem_len_bytes n ++ body))
write_packet w header n body write_body h e =
    let r : (w' : Writer) → write_rem_len w' n ≡ write_bytes w' (rem_len_bytes n) =
      λ w'. write_rem_len-bytes w' n h in
    rw (write_bytes-append (header ∷ []) (rem_len_bytes n ++ body) w)
      (simp (write_char-bytes, write_bytes-append, r) (rw (fun_ext e)))

pub write_packet_id-bytes :
    (w : Writer) (qos packet_id : ℕ)
    → write_packet_id w qos packet_id ≡ write_bytes w (packet_id_bytes qos packet_id)
unfolding write_packet_id
write_packet_id-bytes w qos packet_id = elim (Bool-cases (ltb 0 qos)) [
  | inl e ↦ rw e (write_uint16-bytes w packet_id)
  | inr e ↦ rw e (unfold write_bytes in refl)
]

pub length-publish_body :
    (qos packet_id : ℕ) (topic_name payload : List ℕ)
    → length (publish_body qos packet_id topic_name payload)
      ≡ 2 + length topic_name + length payload + (if ltb 0 qos then 2 else 0)
length-publish_body qos id topic payload = ground (
  arith,
  length-append (string_bytes topic) (packet_id_bytes qos id ++ payload),
  length-append (packet_id_bytes qos id) payload,
  length-string_bytes topic,
  length-uint16_bytes id,
)

pub ruleset writers = (
  write_char-bytes, write_uint16-bytes, write_utf8_string-bytes, write_packet_id-bytes,
  write_bytes-append,
)

-- The writes behind the remaining length, as the serializer makes them.
abbrev write_publish_body : ℕ → ℕ → List ℕ → List ℕ → Writer → Outcome Writer
write_publish_body qos packet_id topic_name payload w = do
  w₃ ← write_utf8_string w topic_name
  w₄ ← write_packet_id w₃ qos packet_id
  write_bytes w₄ payload

write_publish_body-bytes :
    (qos packet_id : ℕ) (topic_name payload : List ℕ) (w : Writer)
    → write_publish_body qos packet_id topic_name payload w
      ≡ write_bytes w (publish_body qos packet_id topic_name payload)
write_publish_body-bytes qos packet_id topic_name payload w = simp writers

-- A packet that the guard lets through is copied whole.
abbrev pub guarded : List ℕ → ℕ → ℕ → List ℕ → Outcome Writer
guarded buf buf_len header body = elim (ltb buf_len (packet_len (length body))) [
  | true ↦ err err_mqtt_buffer_too_short
  | false ↦ write_bytes (writer_at buf) (packet_bytes header body)
]

pub serialize_publish-packet :
    (buf topic_name payload : List ℕ) (buf_len dup qos retained packet_id : ℕ)
    → dup ≤ 1
    → qos ≤ 2
    → retained ≤ 1
    → length (publish_body qos packet_id topic_name payload) < 2 ^ 32
    → serialize_publish buf buf_len dup qos retained packet_id topic_name payload
      ≡ guarded buf buf_len
          (header_byte publish qos dup retained)
          (publish_body qos packet_id topic_name payload)
unfolding serialize_publish
serialize_publish-packet buf topic payload buf_len dup qos retained id hd hq hr hb =
    let body = publish_body qos id topic payload in
    let el : publish_rem_len qos topic (length payload) ≡ length body =
      unfold publish_rem_len in omega (arith, length-publish_body qos id topic payload) in
    rw (el, init_packet_header-byte publish qos dup retained (λ e. cc) hq hd hr)
      (reject_if-then _ _ _ _ (
        write_packet (writer_at buf) (header_byte publish qos dup retained) (length body) body
          (write_publish_body qos id topic payload) (omega arith)
          (write_publish_body-bytes qos id topic payload)))

pub serialize_pub_ack-packet :
    (buf : List ℕ) (buf_len : ℕ) (type : MessageType) (dup packet_id : ℕ)
    → type ≢ reserved
    → dup ≤ 1
    → 4 ≤ buf_len
    → serialize_pub_ack buf buf_len type dup packet_id
      ≡ write_bytes
          (writer_at buf)
          (packet_bytes (header_byte type (ack_qos type) dup 0) (uint16_bytes packet_id))
unfolding serialize_pub_ack
serialize_pub_ack-packet buf buf_len type dup id ht hd h =
    rw
      (
        le→ltb buf_len 4 h,
        init_packet_header-byte type (ack_qos type) dup 0 ht (ground arith) hd (omega arith),
        length-uint16_bytes id,
      )
      (write_packet (writer_at buf) (header_byte type (ack_qos type) dup 0) 2 (uint16_bytes id)
        (λ w. write_uint16 w id) (omega arith) (λ w. write_uint16-bytes w id))

pub serialize_zero_payload-packet :
    (buf : List ℕ) (buf_len : ℕ) (type : MessageType)
    → type ≢ reserved
    → 4 ≤ buf_len
    → serialize_zero_payload buf buf_len type
      ≡ write_bytes (writer_at buf) (packet_bytes (header_byte type 0 0 0) [])
unfolding serialize_zero_payload
serialize_zero_payload-packet buf buf_len type ht h =
    rw
      (
        le→ltb buf_len 4 h,
        init_packet_header-byte type 0 0 0 ht (omega arith) (omega arith) (omega arith),
        ← write_packet (writer_at buf) (header_byte type 0 0 0) 0 [] ok (omega arith)
            (λ w. unfold write_bytes in refl),
      )
      (simp >>=-ok)
