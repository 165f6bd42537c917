-- ===== src/Tests/Codec.antt =====
-- The packets of uiot/mqtt/src and the topic matcher, at concrete values.
use ucloud_iot_rtthread_pack.Prelude.{
  drop, ℕ, ◌≡◌, refl, List, [], ◌∷◌, ◌++◌, true, some, ok, arith, length, replicate,
}
use ucloud_iot_rtthread_pack.Mqtt.RemLen.{packet_len, read_rem_len, write_rem_len}
use ucloud_iot_rtthread_pack.Mqtt.RemLen.Encoding.{rem_len_bytes}
use ucloud_iot_rtthread_pack.Mqtt.RemLen.RoundTrip.{read_rem_len-write_rem_len}
use ucloud_iot_rtthread_pack.Mqtt.Header.{publish}
use ucloud_iot_rtthread_pack.Mqtt.Header.Fields.{header_byte}
use ucloud_iot_rtthread_pack.Mqtt.Serialize.{serialize_publish}
use ucloud_iot_rtthread_pack.Mqtt.Serialize.Layout.{packet_bytes, publish_body}
use ucloud_iot_rtthread_pack.Mqtt.Serialize.Safety.{packet_or_short, serialize_publish-writes}
use ucloud_iot_rtthread_pack.Mqtt.Bytes.Writes.{string_bytes}
use ucloud_iot_rtthread_pack.Mqtt.Deserialize.{Message, deserialize_publish}
use ucloud_iot_rtthread_pack.Mqtt.Deserialize.RoundTrip.{received}
use ucloud_iot_rtthread_pack.Mqtt.Deserialize.Truncated.{deserialize_publish_truncated}
use ucloud_iot_rtthread_pack.Mqtt.Bytes.{Writer}
use ucloud_iot_rtthread_pack.Mqtt.Deserialize.Inverse.{deserialize_publish-serialize_publish}
use ucloud_iot_rtthread_pack.Mqtt.Topic.{is_topic_matched}
use ucloud_iot_rtthread_pack.Mqtt.Topic.Matching.{
  Matches, end, plain, plus, is_topic_matched_complete,
}
use ucloud_iot_rtthread_pack.Mqtt.Topic.Overmatch.{is_topic_matched_overmatch}

abbrev topic : List ℕ
topic = b'a' ∷ b'/' ∷ b'b' ∷ []

abbrev payload : List ℕ
payload = 1 ∷ 2 ∷ 3 ∷ []

abbrev buf : List ℕ
buf = replicate 32 0

abbrev start : Writer
start = record { done = 0x30 ∷ []; room = buf }

read_rem_len-write_rem_len_example :
    (w' : Writer) × (write_rem_len start 321 ≡ ok w')
    × (read_rem_len (record { pos = 1; rest = drop 1 (w'.done ++ w'.room) })
        ≡ ok (321, record { pos = length w'.done; rest = w'.room }))
read_rem_len-write_rem_len_example =
    read_rem_len-write_rem_len 321 start (omega arith) (omega arith)

rem_len_bytes_321 : rem_len_bytes 321 ≡ 193 ∷ 2 ∷ []
unfolding rem_len_bytes
rem_len_bytes_321 = refl

serialize_publish-writes_example :
    serialize_publish buf 32 0 1 0 7 topic payload
    ≡ packet_or_short buf 32 (header_byte publish 1 0 0) (publish_body 1 7 topic payload)
unfolding string_bytes
serialize_publish-writes_example =
    serialize_publish-writes buf topic payload 32 0 1 0 7 (omega arith) (omega arith) (omega arith)
      (omega arith) (omega arith)

deserialize_publish-serialize_publish_example :
    (w : Writer) × (serialize_publish buf 32 0 1 0 7 topic payload ≡ ok w)
    × (deserialize_publish 0 (w.done ++ w.room) 32 ≡ ok (received 0 0 1 0 7 topic payload w.room))
unfolding string_bytes packet_len
deserialize_publish-serialize_publish_example =
    deserialize_publish-serialize_publish 0 buf topic payload 32 0 1 0 7 (omega arith) (omega arith)
      (omega arith) (omega arith) (omega arith) (omega arith) (omega arith) (omega arith)
      (omega arith)

deserialize_publish_truncated_example :
    (m : Message) × (deserialize_publish 0
        (packet_bytes (header_byte publish 1 0 0) (string_bytes topic) ++ (1 ∷ 2 ∷ []))
        64
      ≡ ok m)
    × (m.id ≡ 258)
    × (m.payload_len ≡ 4294967294)
deserialize_publish_truncated_example =
    deserialize_publish_truncated 0 0 1 0 64 1 2 topic [] (omega arith) (omega arith) (omega arith)
      (omega arith) (omega arith) (omega arith)

-- "+/b" matches "a/b".
plus_filter : Matches true (b'+' ∷ b'/' ∷ b'b' ∷ []) topic
plus_filter =
    plus (b'a' ∷ []) (b'/' ∷ b'b' ∷ []) refl refl (ground arith) refl refl
      (plain (ground arith) refl (plain (ground arith) refl end))

is_topic_matched_complete_example : is_topic_matched (b'+' ∷ b'/' ∷ b'b' ∷ []) topic ≡ some true
is_topic_matched_complete_example =
    is_topic_matched_complete (b'+' ∷ b'/' ∷ b'b' ∷ []) topic (λ e. cc) plus_filter

is_topic_matched_overmatch_example :
    (is_topic_matched (b'a' ∷ b'/' ∷ b'#' ∷ []) (b'a' ∷ b'b' ∷ []) ≡ some true)
    × (¬ Matches true (b'a' ∷ b'/' ∷ b'#' ∷ []) (b'a' ∷ b'b' ∷ []))
is_topic_matched_overmatch_example =
    is_topic_matched_overmatch (b'a' ∷ []) [] b'b' (ground arith) (ground arith)

-- CONNACK_NOT_AUTHORIZED_ERROR
abbrev not_authorized : ℕ
not_authorized = 5
