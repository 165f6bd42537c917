-- ===== src/Mqtt/Deserialize/RoundTrip.antt =====
-- uiot/mqtt/src: the deserializers of acknowledgements and of PUBLISH packets, on the packets of
-- Serialize/Layout.
use ucloud_iot_rtthread_pack.Prelude.{
  ℕ, ◌+◌, ◌*◌, ◌^◌, ◌≤◌, ◌<◌, ◌≡◌, List, ◌++◌, ok, arith, ltb, if◌then◌else◌, length, drop-append,
  u16, append_assoc,
}
use ucloud_iot_rtthread_pack.Mqtt.Bytes.{read_char, read_uint16, skip}
use ucloud_iot_rtthread_pack.Mqtt.Bytes.Writes.{uint16_bytes, string_bytes, length-uint16_bytes}
use ucloud_iot_rtthread_pack.Mqtt.RemLen.{read_rem_len}
use ucloud_iot_rtthread_pack.Mqtt.RemLen.Encoding.{rem_len_bytes}
use ucloud_iot_rtthread_pack.Mqtt.RemLen.RoundTrip.{read-rem_len_bytes}
use ucloud_iot_rtthread_pack.Mqtt.Header.{MessageType, type_code, publish}
use ucloud_iot_rtthread_pack.Mqtt.Header.Fields.{header_byte, header_byte_fields}
use ucloud_iot_rtthread_pack.Mqtt.Serialize.Layout.{
  packet_bytes, packet_id_bytes, publish_body, length-publish_body,
}
use ucloud_iot_rtthread_pack.Mqtt.Deserialize.{
  deserialize_ack, Message, read_string_with_len, read_packet_id, deserialize_publish, rx_buf_len,
}

pub read_uint16-bytes :
    (n pos : ℕ) (rest : List ℕ)
    → n < 2 ^ 16
    → read_uint16 (record { pos = pos; rest = uint16_bytes n ++ rest })
      ≡ ok (n, record { pos = pos + 1 + 1; rest = rest })
unfolding read_uint16 uint16_bytes
read_uint16-bytes n pos rest h = ground arith

pub skip-append :
    (s rest : List ℕ) (pos : ℕ)
    → skip (length s) (record { pos = pos; rest = s ++ rest })
      ≡ record { pos = pos + length s; rest = rest }
unfolding skip
skip-append s rest pos = rw drop-append

-- A packet and the rest of the buffer, read up to the body.
pub read_rem_len-packet :
    (body tail : List ℕ)
    → length body < 128 * 128 * 128 * 128
    → read_rem_len (record { pos = 1; rest = (rem_len_bytes (length body) ++ body) ++ tail })
      ≡ ok (
        length body,
        record { pos = 1 + length (rem_len_bytes (length body)); rest = body ++ tail },
      )
read_rem_len-packet body tail h =
    rw append_assoc (read-rem_len_bytes (length body) 1 (body ++ tail) h)

-- deserialize_ack_packet reads the type, the DUP flag and the packet identifier out of every
-- acknowledgement that has a two-byte body, whatever else the buffer holds behind it.
pub deserialize_ack-packet :
    (type : MessageType) (qos dup packet_id buf_len : ℕ) (tail : List ℕ)
    → qos ≤ 3
    → dup ≤ 1
    → packet_id < 2 ^ 16
    → 4 ≤ buf_len
    → deserialize_ack
        (packet_bytes (header_byte type qos dup 0) (uint16_bytes packet_id) ++ tail)
        buf_len
      ≡ ok (record { packet_type = type_code type; dup = dup; packet_id = packet_id })
unfolding deserialize_ack read_char
deserialize_ack-packet type qos dup id buf_len tail hq hd hi hb =
    let fields = header_byte_fields type qos dup 0 hq hd (omega arith) in
    let body = uint16_bytes id in
    let p : ℕ = 1 + length (rem_len_bytes (length body)) in
    ground (
      arith,
      fields,
      read_rem_len-packet body tail (omega (arith, length-uint16_bytes id)),
      read_uint16-bytes id p tail hi,
      length-uint16_bytes id,
    )

pub read_string_with_len-bytes :
    (s rest : List ℕ) (pos enddata : ℕ)
    → length s ≤ rx_buf_len
    → pos + 2 + length s ≤ enddata
    → read_string_with_len (record { pos = pos; rest = string_bytes s ++ rest }) enddata
      ≡ ok (length s, record { pos = pos + 1 + 1; rest = s ++ rest })
unfolding read_string_with_len string_bytes
read_string_with_len-bytes s rest pos enddata hs he =
    ground (arith, read_uint16-bytes (u16 (length s)) pos (s ++ rest))

read_packet_id-bytes :
    (qos old packet_id pos : ℕ) (rest : List ℕ)
    → packet_id < 2 ^ 16
    → read_packet_id qos old (record { pos = pos; rest = packet_id_bytes qos packet_id ++ rest })
      ≡ ok (
        if ltb 0 qos then packet_id else old,
        record { pos = pos + (if ltb 0 qos then 2 else 0); rest = rest },
      )
unfolding read_packet_id
read_packet_id-bytes qos old id pos rest h = ground (arith, read_uint16-bytes id pos rest h)

-- A PUBLISH packet as the receiver sees it: its flags, the place and length of its topic, and the
-- place and length of its payload. At QOS0 the packet identifier is left as it was.
abbrev pub received : ℕ → ℕ → ℕ → ℕ → ℕ → List ℕ → List ℕ → List ℕ → Message
received old dup qos retained packet_id topic_name payload tail =
    let body = publish_body qos packet_id topic_name payload in
    let start = 1 + length (rem_len_bytes (length body)) in
    record {
      dup = dup;
      qos = qos;
      retained = retained;
      id = if ltb 0 qos then packet_id else old;
      topic_name = record {
        pos = start + 1 + 1;
        rest = topic_name ++ ((packet_id_bytes qos packet_id ++ payload) ++ tail);
      };
      topic_len = length topic_name;
      payload = record {
        pos = start + 1 + 1 + length topic_name + (if ltb 0 qos then 2 else 0);
        rest = payload ++ tail;
      };
      payload_len = length payload;
    }

-- deserialize_publish on a PUBLISH packet with a topic of at most rx_buf_len bytes gives back its
-- flags, its packet identifier (at QOS0 the old one stays), and the place and length of its topic
-- and of its payload, whatever else the buffer holds behind the packet.
pub deserialize_publish-packet :
    (old dup qos retained packet_id buf_len : ℕ) (topic_name payload tail : List ℕ)
    → dup ≤ 1
    → qos ≤ 3
    → retained ≤ 1
    → packet_id < 2 ^ 16
    → length topic_name ≤ rx_buf_len
    → length (publish_body qos packet_id topic_name payload) < 128 * 128 * 128 * 128
    → 4 ≤ buf_len
    → deserialize_publish old
        (packet_bytes
            (header_byte publish qos dup retained)
            (publish_body qos packet_id topic_name payload)
          ++ tail)
        buf_len
      ≡ ok (received old dup qos retained packet_id topic_name payload tail)
unfolding deserialize_publish read_char
deserialize_publish-packet old dup qos ret id buf_len topic payload tail hd hq hr hi ht hl hb =
    let body = publish_body qos id topic payload in
    let p : ℕ = 1 + length (rem_len_bytes (length body)) in
    let rest : List ℕ = (packet_id_bytes qos id ++ payload) ++ tail in
    ground (
      arith,
      header_byte_fields publish qos dup ret hq hd hr,
      read_rem_len-packet body tail hl,
      append_assoc (string_bytes topic) (packet_id_bytes qos id ++ payload) tail,
      append_assoc (packet_id_bytes qos id) payload tail,
      length-publish_body qos id topic payload,
      read_string_with_len-bytes topic rest p (p + length body) ht,
      skip-append topic rest (p + 1 + 1),
      read_packet_id-bytes qos old id (p + 1 + 1 + length topic) (payload ++ tail) hi,
    )
