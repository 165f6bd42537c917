-- ===== src/Mqtt/RemLen.antt =====
-- uiot/mqtt/src/mqtt_client_common.c: the "remaining length" of a packet, seven bits to a byte, the
-- low ones first, with the top bit set on all bytes but the last.
pub mod Encoding
pub mod RoundTrip
use ucloud_iot_rtthread_pack.Prelude.{
  ℕ, zero, suc, ◌+◌, ◌*◌, ◌/◌, ◌%◌, ◌<◌, Bool, true, false, List, [], ◌∷◌, Outcome, ok, err, fault,
  ◌>>=◌, bit_and, bit_or, ltb, ◌==◌, if◌then◌else◌, u32,
}
use ucloud_iot_rtthread_pack.Codes.{err_mqtt_packet_read_error}
use ucloud_iot_rtthread_pack.Mqtt.Bytes.{Reader, Writer, read_char, write_char}

-- MAX_NO_OF_REMAINING_LENGTH_BYTES
abbrev pub max_no_of_remaining_length_bytes : ℕ
max_no_of_remaining_length_bytes = 4

-- The do-while loop of mqtt_write_packet_rem_len, on fuel.
write_loop : ℕ → Writer → ℕ → Outcome Writer
write_loop zero w len = fault
write_loop (suc fuel) w len =
    let digit = len % 128 in
    let left = len / 128 in
    let encode_byte = if ltb 0 left then bit_or digit 0x80 else digit in
    do
      w₁ ← write_char w encode_byte
      elim (ltb 0 left) [ true ↦ write_loop fuel w₁ left | false ↦ ok w₁ ]

-- mqtt_write_packet_rem_len, with the caller's `ptr += ...`. A 32-bit length has at most five digits.
unfoldable pub write_rem_len : Writer → ℕ → Outcome Writer
unfolding write_loop
write_rem_len w len = write_loop 5 w len

-- get_mqtt_packet_len; `size_t` has 32 bits
unfoldable pub packet_len : ℕ → ℕ
packet_len rem_len =
    let with_header = u32 (rem_len + 1) in
    u32 (
      with_header
      + (if ltb with_header 128
          then 1
          else if ltb with_header 16384
          then 2
          else if ltb with_header 2097151
          then 3
          else 4))

-- The loop of _decode_packet_rem_len_from_buf_read: the first argument is the number of bytes that
-- may still be read before `++len > MAX_NO_OF_REMAINING_LENGTH_BYTES`.
read_loop : ℕ → Reader → ℕ → ℕ → Outcome (ℕ × Reader)
read_loop zero r multiplier value = err err_mqtt_packet_read_error
read_loop (suc more) r multiplier value = do
  (c, r₁) ← read_char r
  let value₁ = u32 (value + bit_and c 127 * multiplier)
  elim (bit_and c 128 == 0) [
    | true ↦ ok (value₁, r₁)
    | false ↦ read_loop more r₁ (u32 (multiplier * 128)) value₁
  ]

-- mqtt_read_packet_rem_len_form_buf, with the caller's `curdata += readBytesLen`
unfoldable pub read_rem_len : Reader → Outcome (ℕ × Reader)
unfolding read_loop
read_rem_len r = read_loop max_no_of_remaining_length_bytes r 1 0
