-- ===== src/Mqtt/Net.antt =====
-- uiot/mqtt/src/mqtt_client_common.c: whole packets to and from the network. A loop whose end
-- depends on the network and the clock runs on fuel; where it runs out the result is a fault.
pub mod Send
use ucloud_iot_rtthread_pack.Prelude.{
  ℕ, zero, suc, ◌+◌, ◌-◌, ◌*◌, ◌^◌, true, false, not, ◌&&◌, List, [], ◌∷◌, ◌++◌, ℤ, pos, ltb, leb,
  ◌==◌, if◌then◌else◌, length, take, drop, is_neg, is_pos, to_ℕ, bit_and, u32, Outcome, ok, fault,
}
use ucloud_iot_rtthread_pack.Codes.{
  failure_ret, err_mqtt_buffer_too_short, err_mqtt_packet_read_error, err_mqtt_nothing_to_read,
}
use ucloud_iot_rtthread_pack.Mqtt.RemLen.{write_rem_len, max_no_of_remaining_length_bytes}
use ucloud_iot_rtthread_pack.Mqtt.Header.{header_type}
use ucloud_iot_rtthread_pack.Mqtt.Act.{
  Hal, Act, ◌>>=◌, ◌>>◌, pure, fail, fail_if, lift, gets, modify, crash, outside, has_expired,
  left_ms,
}

-- UIOT_MQTT_MAX_REMAIN_WAIT_MS
abbrev pub max_remain_wait_ms : ℕ
max_remain_wait_ms = 2000

-- `memcpy(buf + pos, bytes, length)`, where it stays inside the buffer
unfoldable pub overwrite : List ℕ → ℕ → List ℕ → Outcome (List ℕ)
overwrite buf at bytes =
    if leb (at + length bytes) (length buf)
    then ok (take at buf ++ (bytes ++ drop (at + length bytes) buf))
    else fault

-- `timer_left_ms = left_ms(timer); if (timer_left_ms <= 0) timer_left_ms = 1;`
abbrev pub at_least_one : ℤ → ℕ
at_least_one t = if is_pos t then to_ℕ t else 1

module _ (hal : Hal) where
  -- network_stack.write(&write_buf[sent], length, left_ms(timer)): the length is that of the packet,
  -- also where a part of it has been sent. Bytes behind write_buf are a fault.
  unfoldable pub write_from : ℕ → ℕ → ℕ → Act hal.World ℤ
  write_from sent len timer = do
    buf ← gets (λ c. c.write_buf)
    left ← left_ms hal timer
    if ltb (length buf) (sent + len)
        then crash
        else outside (hal.write (take len (drop sent buf)) left)

  -- The loop of send_mqtt_packet; the result is `sent`.
  unfoldable pub send_loop : ℕ → ℕ → ℕ → ℕ → Act hal.World ℕ
  send_loop zero len sent timer = crash
  send_loop (suc fuel) len sent timer = elim (ltb sent len) [
    | false ↦ pure sent
    | true ↦ do
      expired ← has_expired hal timer
      elim expired [
        | true ↦ pure sent
        | false ↦ do
          send_len ← write_from sent len timer
          elim (is_neg send_len) [
            | true ↦ pure sent
            | false ↦ send_loop fuel len (sent + to_ℕ send_len) timer
          ]
      ]
  ]

  -- send_mqtt_packet
  unfoldable pub send_mqtt_packet : ℕ → ℕ → ℕ → Act hal.World (Unit {0})
  send_mqtt_packet fuel len timer = do
    size ← gets (λ c. c.write_buf_size)
    fail_if (leb size len) err_mqtt_buffer_too_short
    sent ← send_loop fuel len 0 timer
    fail_if (not (sent == len)) failure_ret

  -- network_stack.read(buffer, count, timeout)
  unfoldable pub read_net : ℕ → ℕ → Act hal.World (ℤ × List ℕ)
  read_net count timeout s =
      let (ret, bytes, w) = hal.read count (pos timeout) s.world in
      (ok (ret, bytes), record s { world = w })

  -- The same into read_buf + at.
  unfoldable pub read_into : ℕ → ℕ → ℕ → Act hal.World ℤ
  read_into at count timeout = do
    (ret, bytes) ← read_net count timeout
    buf ← gets (λ c. c.read_buf)
    buf₁ ← lift (overwrite buf at bytes)
    modify (λ c. record c { read_buf = buf₁ })
    pure ret

  -- The byte that a read of one byte has stored. A read that reports a byte and stores none breaks
  -- the contract of the platform layer, and is a fault.
  unfoldable pub first_byte : List ℕ → Act hal.World ℕ
  first_byte [] = crash
  first_byte (b ∷ _) = pure b

  -- _decode_packet_rem_len_with_net_read, on the digits that may still be read
  unfoldable pub decode_rem_len : ℕ → ℕ → ℕ → ℕ → Act hal.World ℕ
  decode_rem_len zero multiplier value timeout = fail err_mqtt_packet_read_error
  decode_rem_len (suc more) multiplier value timeout = do
    (ret, bytes) ← read_net 1 timeout
    fail_if (not (is_pos ret)) failure_ret
    i ← first_byte bytes
    let value₁ = u32 (value + bit_and i 127 * multiplier)
    elim (bit_and i 128 == 0) [
      | true ↦ pure value₁
      | false ↦ decode_rem_len more (u32 (multiplier * 128)) value₁ timeout
    ]

  -- The do-while loop that drops a packet too long for read_buf.
  unfoldable pub discard : ℕ → ℕ → ℕ → ℕ → ℕ → Act hal.World (Unit {0})
  discard zero total to_be_read rem_len timeout = crash
  discard (suc fuel) total to_be_read rem_len timeout = do
    read_len ← read_into 0 to_be_read timeout
    size ← gets (λ c. c.read_buf_size)
    let total₁ = total + to_ℕ read_len
    let left = u32 (rem_len + 2 ^ 32 - total₁)
    let to_be_read₁ = if leb size left then size else left
    elim (ltb total₁ rem_len && is_pos read_len) [
      | true ↦ discard fuel total₁ to_be_read₁ rem_len timeout
      | false ↦ pure tt
    ]

  -- The clamped time that is left, and the time to wait for the rest of a packet.
  unfoldable pub wait_ms : ℕ → Act hal.World ℕ
  wait_ms timer = do left ← left_ms hal timer; pure (at_least_one left)

  unfoldable pub rest_wait_ms : ℕ → Act hal.World ℕ
  rest_wait_ms timer = do left ← wait_ms timer; pure (left + max_remain_wait_ms)

  -- `if (read_len < 0) return read_len; else if (read_len == 0) return ERR_MQTT_NOTHING_TO_READ;`
  abbrev check_read : ℤ → Act hal.World (Unit {0})
  check_read read_len =
      if is_neg read_len
      then fail read_len
      else fail_if (not (is_pos read_len)) err_mqtt_nothing_to_read

  -- mqtt_write_packet_rem_len(read_buf + 1, rem_len); the result is `len`
  unfoldable pub store_rem_len : ℕ → Act hal.World ℕ
  store_rem_len rem_len = do
    buf ← gets (λ c. c.read_buf)
    w ← lift (write_rem_len (record { done = take 1 buf; room = drop 1 buf }) rem_len)
    modify (λ c. record c { read_buf = w.done ++ w.room })
    pure (length w.done)

  -- The body of the packet fits behind the `len` bytes of the fixed header, or it does not.
  unfoldable pub receive_body : ℕ → ℕ → ℕ → Act hal.World (Unit {0})
  receive_body len rem_len timer = do
    timeout ← rest_wait_ms timer
    read_len ← read_into len rem_len timeout
    check_read read_len

  unfoldable pub refuse_body : ℕ → ℕ → Act hal.World (Unit {0})
  refuse_body rem_len timer = do
    timeout ← rest_wait_ms timer
    _ ← read_into 0 rem_len timeout
    fail err_mqtt_buffer_too_short

  unfoldable pub read_body : ℕ → ℕ → ℕ → Act hal.World (Unit {0})
  read_body len rem_len timer = do
    size ← gets (λ c. c.read_buf_size)
    elim (ltb 0 rem_len) [
      | false ↦ pure tt
      | true ↦ elim (ltb size (len + rem_len)) [
        | true ↦ refuse_body rem_len timer
        | false ↦ receive_body len rem_len timer
      ]
    ]

  -- The type in the first byte of read_buf.
  unfoldable pub packet_type : List ℕ → Act hal.World ℕ
  packet_type [] = crash
  packet_type (b ∷ _) = pure (header_type b)

  unfoldable pub discard_packet : ℕ → ℕ → Act hal.World (Unit {0})
  discard_packet rem_len timer = do
    timeout ← rest_wait_ms timer
    size ← gets (λ c. c.read_buf_size)
    discard (suc rem_len) 0 size rem_len timeout
    fail err_mqtt_buffer_too_short

  -- _read_mqtt_packet; the result is `*packet_type`
  unfoldable pub read_mqtt_packet : ℕ → Act hal.World ℕ
  read_mqtt_packet timer = do
    timeout ← wait_ms timer
    read_len ← read_into 0 1 timeout
    check_read read_len
    timeout₁ ← rest_wait_ms timer
    rem_len ← decode_rem_len max_no_of_remaining_length_bytes 1 0 timeout₁
    size ← gets (λ c. c.read_buf_size)
    if leb size rem_len then discard_packet rem_len timer else pure tt
    len ← store_rem_len rem_len
    read_body len rem_len timer
    buf ← gets (λ c. c.read_buf)
    packet_type buf
