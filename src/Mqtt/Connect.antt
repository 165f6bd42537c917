-- ===== src/Mqtt/Connect.antt =====
-- uiot/mqtt/src/mqtt_client_connect.c: the CONNECT packet.
pub mod Packet
use ucloud_iot_rtthread_pack.Prelude.{
  ℕ, ◌+◌, Bool, true, false, Option, none, some, List, [], ◌∷◌, Outcome, ok, ◌>>=◌, ◌>>◌, reject_if,
  ltb, ◌==◌, if◌then◌else◌, length, u32, bit_or, bit_and,
}
use ucloud_iot_rtthread_pack.Codes.{err_param_invalid, err_mqtt_buffer_too_short}
use ucloud_iot_rtthread_pack.Mqtt.Bytes.{
  Writer, writer_at, write_char, write_uint16, write_utf8_string,
}
use ucloud_iot_rtthread_pack.Mqtt.RemLen.{write_rem_len, packet_len}
use ucloud_iot_rtthread_pack.Mqtt.Header.{connect, qos0, init_packet_header}
use ucloud_iot_rtthread_pack.Mqtt.State.{ConnectParams}

abbrev pub optional_len : Option (List ℕ) → ℕ
optional_len none = 0
optional_len (some s) = length s + 2

-- _get_packet_connect_rem_len
unfoldable pub connect_rem_len : ConnectParams → ℕ
connect_rem_len o =
    let fixed = if 3 == o.mqtt_version then 12 else if 4 == o.mqtt_version then 10 else 0 in
    u32 (fixed + (length o.client_id + 2) + optional_len o.username + optional_len o.password)

abbrev pub is_some : Option (List ℕ) → Bool
is_some none = false
is_some (some _) = true

-- MQTT_CONNECT_FLAG_CLEAN_SES, _USERNAME and _PASSWORD
unfoldable pub connect_flags : ConnectParams → ℕ
connect_flags o =
    let clean = bit_or 0 (if o.clean_session then 0x02 else 0) in
    let username = bit_or clean (if is_some o.username then 0x80 else 0) in bit_or username 0x40

-- "MQTT" and "MQIsdp"
abbrev pub mqtt_name : List ℕ
mqtt_name = b'M' ∷ b'Q' ∷ b'T' ∷ b'T' ∷ []

abbrev pub mqisdp_name : List ℕ
mqisdp_name = b'M' ∷ b'Q' ∷ b'I' ∷ b's' ∷ b'd' ∷ b'p' ∷ []

unfoldable pub write_protocol : Writer → ℕ → Outcome Writer
write_protocol w version =
    if 4 == version
    then (write_utf8_string w mqtt_name >>= λ w₁. write_char w₁ 4)
    else (write_utf8_string w mqisdp_name >>= λ w₁. write_char w₁ 3)

-- `if ((flags & FLAG) && s != NULL) mqtt_write_utf8_string(&ptr, s);`
unfoldable pub write_optional : Writer → ℕ → ℕ → Option (List ℕ) → Outcome Writer
write_optional w flags flag none = ok w
write_optional w flags flag (some s) =
    if bit_and flags flag == 0 then ok w else write_utf8_string w s

-- _serialize_connect_packet; an empty client_id is refused
unfoldable pub serialize_connect : List ℕ → ℕ → ConnectParams → Outcome Writer
serialize_connect buf buf_len o =
    let rem_len = connect_rem_len o in
    let flags = connect_flags o in
    do
      reject_if (length o.client_id == 0) err_param_invalid
      reject_if (ltb buf_len (packet_len rem_len)) err_mqtt_buffer_too_short
      header ← init_packet_header connect qos0 0 0
      w₁ ← write_char (writer_at buf) header
      w₂ ← write_rem_len w₁ rem_len
      w₃ ← write_protocol w₂ o.mqtt_version
      w₄ ← write_char w₃ flags
      w₅ ← write_uint16 w₄ o.keep_alive_interval
      w₆ ← write_utf8_string w₅ o.client_id
      w₇ ← write_optional w₆ flags 0x80 o.username
      write_optional w₇ flags 0x40 o.password
