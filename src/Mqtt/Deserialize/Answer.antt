-- ===== src/Mqtt/Deserialize/Answer.antt =====
-- uiot/mqtt/src/mqtt_client_connect.c: _deserialize_connack_packet on CONNACK packets.
use ucloud_iot_rtthread_pack.Prelude.{
  ℕ, ◌%◌, ◌≤◌, ◌<◌, ◌≡◌, arith, List, [], ◌∷◌, ◌++◌, ok, bit_and, bit_and-1, ◌↔◌,
}
use ucloud_iot_rtthread_pack.Codes.{mqtt_connection_accepted}
use ucloud_iot_rtthread_pack.Mqtt.Bytes.{read_char}
use ucloud_iot_rtthread_pack.Mqtt.Header.{connack}
use ucloud_iot_rtthread_pack.Mqtt.Header.Fields.{header_byte, header_byte_fields}
use ucloud_iot_rtthread_pack.Mqtt.Serialize.Layout.{packet_bytes}
use ucloud_iot_rtthread_pack.Mqtt.Deserialize.{Connack, connack_code, deserialize_connack}
use ucloud_iot_rtthread_pack.Mqtt.Deserialize.RoundTrip.{read_rem_len-packet}

connack_code_accepted : (code : ℕ) → (connack_code code ≡ mqtt_connection_accepted) ↔ (code ≡ 0)
unfolding connack_code
connack_code_accepted code = ground arith

-- _deserialize_connack_packet reads every CONNACK packet with a two-byte body, whatever else the
-- buffer holds behind it: the session flag is the lowest bit of the first byte, and the connection is
-- accepted for the return code 0 and for no other.
pub deserialize_connack-packet :
    (flags code buf_len : ℕ) (tail : List ℕ)
    → flags < 256
    → 4 ≤ buf_len
    → (c : Connack) × (deserialize_connack
          (packet_bytes (header_byte connack 0 0 0) (flags ∷ code ∷ []) ++ tail)
          buf_len
        ≡ ok c)
      × (c.session_present ≡ flags % 2)
      × ((c.connack_rc ≡ mqtt_connection_accepted) ↔ (code ≡ 0))
deserialize_connack-packet flags code buf_len tail hf hb = (
  record { session_present = bit_and flags 0x01; connack_rc = connack_code code },
  unfold deserialize_connack read_char in
      ground
        (arith, header_byte_fields connack 0 0 0, read_rem_len-packet (flags ∷ code ∷ []) tail),
  bit_and-1 flags hf,
  connack_code_accepted code,
)
