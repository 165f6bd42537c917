-- ===== src/Mqtt/Header/Fields.antt =====
-- uiot/mqtt/src/mqtt_client_common.c: the fields of the header byte, for the sender and for the
-- receiver.
use ucloud_iot_rtthread_pack.Prelude.{
  ℕ, ◌+◌, ◌*◌, ◌/◌, ◌%◌, ◌<◌, ◌≤◌, ◌≡◌, ◌≢◌, refl, arith, ok, ◌==◌, true, every, every-below,
  by_table, bit_and-240, bit_and-8, bit_and-6, bit_and-1,
}
use ucloud_iot_rtthread_pack.Mqtt.Header.{
  MessageType, reserved, type_code, header_bits, init_packet_header, header_type, header_dup,
  header_qos, header_retained,
}

-- The byte with these fields.
abbrev pub header_byte : MessageType → ℕ → ℕ → ℕ → ℕ
header_byte type qos dup retained = type_code type * 16 + dup * 8 + qos * 2 + retained

pub type_code_lt : (type : MessageType) → type_code type < 15
type_code_lt reserved = omega arith
type_code_lt _ = omega arith

abbrev bits_of : ℕ → ℕ → ℕ
bits_of type x = header_bits type (x / 2 % 2) (x / 4) (x % 2)

abbrev byte_of : ℕ → ℕ → ℕ
byte_of type x = type * 16 + x / 2 % 2 * 8 + x / 4 * 2 + x % 2

-- All the flags of all the types, by evaluation.
bits_table : (type : ℕ) → type < 15 → every (λ x. bits_of type x == byte_of type x) 12 ≡ true
unfolding every header_bits
bits_table type h = every-below (λ t. every (λ x. bits_of t x == byte_of t x) 12) 15 type refl h

header_bits-byte :
    (type qos dup retained : ℕ)
    → type < 15
    → qos ≤ 2
    → dup ≤ 1
    → retained ≤ 1
    → header_bits type dup qos retained ≡ type * 16 + dup * 8 + qos * 2 + retained
header_bits-byte type q d r ht hq hd hr =
    let x = q * 4 + d * 2 + r in
    let eq : x / 4 ≡ q = omega arith in
    let ed : x / 2 % 2 ≡ d = omega arith in
    let er : x % 2 ≡ r = omega arith in
    let e : bits_of type x ≡ byte_of type x =
      by_table 12 _ _ (bits_table type ht) x (omega arith) in
    rw (eq, ed, er) at e

-- Every type but the reserved one has a header byte, which packs the four fields.
pub init_packet_header-byte :
    (type : MessageType) (qos dup retained : ℕ)
    → type ≢ reserved
    → qos ≤ 2
    → dup ≤ 1
    → retained ≤ 1
    → init_packet_header type qos dup retained ≡ ok (header_byte type qos dup retained)
unfolding init_packet_header
init_packet_header-byte type q d r ht hq hd hr =
    ground (arith, header_bits-byte (type_code type) q d r)

-- The masks and shifts of the receivers give back each field of such a byte, at any QoS up to 3.
pub header_byte_fields :
    (type : MessageType) (qos dup retained : ℕ)
    → qos ≤ 3
    → dup ≤ 1
    → retained ≤ 1
    → (header_type (header_byte type qos dup retained) ≡ type_code type)
      × (header_qos (header_byte type qos dup retained) ≡ qos)
      × (header_dup (header_byte type qos dup retained) ≡ dup)
      × (header_retained (header_byte type qos dup retained) ≡ retained)
header_byte_fields type qos dup retained hq hd hr =
    let b = header_byte type qos dup retained in
    ground (arith, type_code_lt type, bit_and-240 b, bit_and-8 b, bit_and-6 b, bit_and-1 b)

-- What mqtt_init_packet_header packs into the header byte, the receivers' masks read back: the
-- packet type, the QoS, the DUP flag and the RETAIN flag.
pub init_packet_header-fields :
    (type : MessageType) (qos dup retained : ℕ)
    → type ≢ reserved
    → qos ≤ 2
    → dup ≤ 1
    → retained ≤ 1
    → (header : ℕ) × (init_packet_header type qos dup retained ≡ ok header)
      × (header_type header ≡ type_code type)
      × (header_qos header ≡ qos)
      × (header_dup header ≡ dup)
      × (header_retained header ≡ retained)
init_packet_header-fields type qos dup retained ht hq hd hr =
    let (t, q, d, r) = header_byte_fields type qos dup retained (omega arith) hd hr in
    (
      header_byte type qos dup retained,
      init_packet_header-byte type qos dup retained ht hq hd hr,
      t,
      q,
      d,
      r,
    )
