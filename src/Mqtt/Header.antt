-- ===== src/Mqtt/Header.antt =====
-- uiot/mqtt/include/mqtt_client.h and uiot/mqtt/src/mqtt_client_common.c: the packet types and the
-- first byte of a packet. A QoS is its number, since two bits of a received header may hold 3.
pub mod Fields
use ucloud_iot_rtthread_pack.Prelude.{
  ℕ, ◌+◌, ◌*◌, ◌/◌, ◌^◌, Outcome, ok, err, ◌>>=◌, bit_and, bit_or, ◌==◌, if◌then◌else◌, u8, shl,
  shr,
}
use ucloud_iot_rtthread_pack.Codes.{err_mqtt_unknown_error}

-- MessageTypes
pub data MessageType : Type 0 where
  reserved connect connack publish puback pubrec pubrel pubcomp : MessageType
  subscribe suback unsubscribe unsuback pingreq pingresp disconnect : MessageType

-- The values of the enumeration.
abbrev pub type_code : MessageType → ℕ
type_code reserved = 0
type_code connect = 1
type_code connack = 2
type_code publish = 3
type_code puback = 4
type_code pubrec = 5
type_code pubrel = 6
type_code pubcomp = 7
type_code subscribe = 8
type_code suback = 9
type_code unsubscribe = 10
type_code unsuback = 11
type_code pingreq = 12
type_code pingresp = 13
type_code disconnect = 14

-- QOS0, QOS1 and QOS2
abbrev pub qos0 : ℕ
qos0 = 0

abbrev pub qos1 : ℕ
qos1 = 1

abbrev pub qos2 : ℕ
qos2 = 2

-- The first switch of mqtt_init_packet_header.
type_bits : MessageType → Outcome ℕ
type_bits reserved = err err_mqtt_unknown_error
type_bits connect = ok 0x01
type_bits connack = ok 0x02
type_bits publish = ok 0x03
type_bits puback = ok 0x04
type_bits pubrec = ok 0x05
type_bits pubrel = ok 0x06
type_bits pubcomp = ok 0x07
type_bits subscribe = ok 0x08
type_bits suback = ok 0x09
type_bits unsubscribe = ok 0x0a
type_bits unsuback = ok 0x0b
type_bits pingreq = ok 0x0c
type_bits pingresp = ok 0x0d
type_bits disconnect = ok 0x0e

-- The second switch: an unknown QoS is sent as QOS0.
qos_bits : ℕ → ℕ
qos_bits qos =
    if qos == qos0 then 0x00 else if qos == qos1 then 0x01 else if qos == qos2 then 0x02 else 0x00

-- The header byte, by the masks and shifts of mqtt_client.h.
header_bits : ℕ → ℕ → ℕ → ℕ → ℕ
header_bits type dup qos retained = u8 (
    bit_or
      (bit_or (bit_or (bit_and (shl type 4) 0xf0) (bit_and (shl dup 3) 0x08))
        (bit_and (shl qos 1) 0x06))
      (bit_and retained 0x01))

-- mqtt_init_packet_header
unfoldable pub init_packet_header : MessageType → ℕ → ℕ → ℕ → Outcome ℕ
unfolding type_bits qos_bits header_bits
init_packet_header message_type qos dup retained = do
  type ← type_bits message_type
  ok (header_bits type dup (qos_bits qos) retained)

-- The fields of a received header byte.
abbrev pub header_type : ℕ → ℕ
header_type header = shr (bit_and header 0xf0) 4

abbrev pub header_dup : ℕ → ℕ
header_dup header = shr (bit_and header 0x08) 3

abbrev pub header_qos : ℕ → ℕ
header_qos header = shr (bit_and header 0x06) 1

abbrev pub header_retained : ℕ → ℕ
header_retained header = bit_and header 0x01
