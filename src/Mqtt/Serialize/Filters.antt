-- ===== src/Mqtt/Serialize/Filters.antt =====
-- uiot/mqtt/src: the packets with topic filters, SUBSCRIBE and UNSUBSCRIBE, as byte sequences.
use ucloud_iot_rtthread_pack.Prelude.{
  ℕ, ◌+◌, ◌^◌, ◌≤◌, ◌<◌, ◌≡◌, List, [], ◌∷◌, ◌++◌, Outcome, ok, ◌>>=◌, arith, length, length-append,
  reject_if-then, u8,
}
use ucloud_iot_rtthread_pack.Mqtt.Bytes.{
  Writer, writer_at, write_char, write_uint16, write_bytes, write_utf8_string,
}
use ucloud_iot_rtthread_pack.Mqtt.Bytes.Writes.{
  uint16_bytes, string_bytes, length-uint16_bytes, length-string_bytes,
}
use ucloud_iot_rtthread_pack.Mqtt.Header.{subscribe, unsubscribe}
use ucloud_iot_rtthread_pack.Mqtt.Header.Fields.{header_byte, init_packet_header-byte}
use ucloud_iot_rtthread_pack.Mqtt.Serialize.{
  subscribe_rem_len, unsubscribe_rem_len, write_subscriptions, write_topics, serialize_subscribe,
  serialize_unsubscribe,
}
use ucloud_iot_rtthread_pack.Mqtt.Serialize.Layout.{guarded, write_packet, writers}

-- The body of a SUBSCRIBE packet for one topic filter.
abbrev pub subscribe_body : ℕ → List ℕ → ℕ → List ℕ
subscribe_body packet_id topic qos = uint16_bytes packet_id ++ (string_bytes topic ++ (u8 qos ∷ []))

abbrev pub unsubscribe_body : ℕ → List ℕ → List ℕ
unsubscribe_body packet_id topic = uint16_bytes packet_id ++ string_bytes topic

pub length-subscribe_body :
    (packet_id : ℕ) (topic : List ℕ) (qos : ℕ)
    → length (subscribe_body packet_id topic qos) ≡ 5 + length topic
length-subscribe_body id topic qos = ground (
  arith,
  length-append (uint16_bytes id) (string_bytes topic ++ (u8 qos ∷ [])),
  length-append (string_bytes topic) (u8 qos ∷ []),
  length-string_bytes topic,
  length-uint16_bytes id,
)

pub length-unsubscribe_body :
    (packet_id : ℕ) (topic : List ℕ) → length (unsubscribe_body packet_id topic) ≡ 4 + length topic
length-unsubscribe_body id topic = ground (
  arith,
  length-append (uint16_bytes id) (string_bytes topic),
  length-string_bytes topic,
  length-uint16_bytes id,
)

subscribe_rem_len-body :
    (packet_id : ℕ) (topic : List ℕ) (qos : ℕ)
    → length topic < 2 ^ 31
    → subscribe_rem_len 1 topic ≡ ok (length (subscribe_body packet_id topic qos))
unfolding subscribe_rem_len
subscribe_rem_len-body id topic qos h = ground (arith, length-subscribe_body id topic qos)

unsubscribe_rem_len-body :
    (packet_id : ℕ) (topic : List ℕ)
    → length topic < 2 ^ 31
    → unsubscribe_rem_len 1 topic ≡ ok (length (unsubscribe_body packet_id topic))
unfolding unsubscribe_rem_len
unsubscribe_rem_len-body id topic h = ground (arith, length-unsubscribe_body id topic)

write_subscriptions-one :
    (w : Writer) (topic : List ℕ) (qos : ℕ)
    → write_subscriptions w 0 1 topic (qos ∷ [])
      ≡ (write_utf8_string w topic >>= λ w₁. write_char w₁ (u8 qos))
unfolding write_subscriptions
write_subscriptions-one w topic qos = ground arith

write_topics-one :
    (w : Writer) (topic : List ℕ) → write_topics w 0 1 topic ≡ write_utf8_string w topic
unfolding write_topics
write_topics-one w topic = ground arith

abbrev write_subscribe_body : ℕ → List ℕ → ℕ → Writer → Outcome Writer
write_subscribe_body packet_id topic qos w =
    write_uint16 w packet_id >>= λ w₃. write_subscriptions w₃ 0 1 topic (qos ∷ [])

abbrev write_unsubscribe_body : ℕ → List ℕ → Writer → Outcome Writer
write_unsubscribe_body packet_id topic w =
    write_uint16 w packet_id >>= λ w₃. write_topics w₃ 0 1 topic

write_subscribe_body-bytes :
    (packet_id : ℕ) (topic : List ℕ) (qos : ℕ) (w : Writer)
    → write_subscribe_body packet_id topic qos w
      ≡ write_bytes w (subscribe_body packet_id topic qos)
write_subscribe_body-bytes id topic qos w = simp (writers, write_subscriptions-one)

write_unsubscribe_body-bytes :
    (packet_id : ℕ) (topic : List ℕ) (w : Writer)
    → write_unsubscribe_body packet_id topic w ≡ write_bytes w (unsubscribe_body packet_id topic)
write_unsubscribe_body-bytes id topic w = simp (writers, write_topics-one)

pub serialize_subscribe-packet :
    (buf : List ℕ) (buf_len dup packet_id : ℕ) (topic : List ℕ) (qos : ℕ)
    → dup ≤ 1
    → length topic < 2 ^ 31
    → serialize_subscribe buf buf_len dup packet_id 1 topic (qos ∷ [])
      ≡ guarded buf buf_len (header_byte subscribe 1 dup 0) (subscribe_body packet_id topic qos)
unfolding serialize_subscribe
serialize_subscribe-packet buf buf_len dup id topic qos hd ht =
    let body = subscribe_body id topic qos in
    rw
      (
        subscribe_rem_len-body id topic qos ht,
        init_packet_header-byte subscribe 1 dup 0 (λ e. cc) (omega arith) hd (omega arith),
      )
      (reject_if-then _ _ _ _ (
        write_packet (writer_at buf) (header_byte subscribe 1 dup 0) (length body) body
          (write_subscribe_body id topic qos) (omega (arith, length-subscribe_body id topic qos))
          (write_subscribe_body-bytes id topic qos)))

pub serialize_unsubscribe-packet :
    (buf : List ℕ) (buf_len dup packet_id : ℕ) (topic : List ℕ)
    → dup ≤ 1
    → length topic < 2 ^ 31
    → serialize_unsubscribe buf buf_len dup packet_id 1 topic
      ≡ guarded buf buf_len (header_byte unsubscribe 1 dup 0) (unsubscribe_body packet_id topic)
unfolding serialize_unsubscribe
serialize_unsubscribe-packet buf buf_len dup id topic hd ht =
    let body = unsubscribe_body id topic in
    rw
      (
        unsubscribe_rem_len-body id topic ht,
        init_packet_header-byte unsubscribe 1 dup 0 (λ e. cc) (omega arith) hd (omega arith),
      )
      (reject_if-then _ _ _ _ (
        write_packet (writer_at buf) (header_byte unsubscribe 1 dup 0) (length body) body
          (write_unsubscribe_body id topic) (omega (arith, length-unsubscribe_body id topic))
          (write_unsubscribe_body-bytes id topic)))
