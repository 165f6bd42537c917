-- ===== src/Mqtt/Connect/Packet.antt =====
-- uiot/mqtt/src/mqtt_client_connect.c: the CONNECT packet of _serialize_connect_packet.
use ucloud_iot_rtthread_pack.Prelude.{
  ℕ, ◌+◌, ◌*◌, ◌^◌, ◌≤◌, ◌<◌, ◌≡◌, ◌≢◌, refl, ◌∙◌, arith, true, false, Option, none, some, List, [],
  ◌∷◌, ◌++◌, Outcome, ◌>>=◌, ◌==◌, if◌then◌else◌, length, length-append, reject_if-then, bit_and,
  Bool-cases, inl, inr, ◌⊎◌,
}
use ucloud_iot_rtthread_pack.Mqtt.Bytes.{
  Writer, writer_at, write_char, write_uint16, write_bytes, write_utf8_string,
}
use ucloud_iot_rtthread_pack.Mqtt.Bytes.Writes.{
  uint16_bytes, string_bytes, write_char-bytes, write_uint16-bytes, write_utf8_string-bytes,
  write_bytes-append, length-uint16_bytes, length-string_bytes,
}
use ucloud_iot_rtthread_pack.Mqtt.State.{ConnectParams}
use ucloud_iot_rtthread_pack.Mqtt.Header.{connect}
use ucloud_iot_rtthread_pack.Mqtt.Header.Fields.{header_byte, init_packet_header-byte}
use ucloud_iot_rtthread_pack.Mqtt.Serialize.Layout.{write_packet}
use ucloud_iot_rtthread_pack.Mqtt.Serialize.Safety.{packet_or_short, guarded_fits}
use ucloud_iot_rtthread_pack.Mqtt.Connect.{
  optional_len, connect_rem_len, connect_flags, is_some, mqtt_name, mqisdp_name, write_protocol,
  write_optional, serialize_connect,
}

abbrev pub protocol_bytes : ℕ → List ℕ
protocol_bytes version =
    if 4 == version then string_bytes mqtt_name ++ 4 ∷ [] else string_bytes mqisdp_name ++ 3 ∷ []

abbrev pub optional_bytes : Option (List ℕ) → List ℕ
optional_bytes none = []
optional_bytes (some s) = string_bytes s

-- The protocol name and version, the flags, the keep-alive time, and the strings that are there.
abbrev pub connect_body : ConnectParams → List ℕ
connect_body o =
    let strings = optional_bytes o.username ++ optional_bytes o.password in
    protocol_bytes o.mqtt_version
    ++ (connect_flags o
        ∷ (uint16_bytes o.keep_alive_interval ++ (string_bytes o.client_id ++ strings)))

write_protocol-bytes :
    (w : Writer) (version : ℕ) → write_protocol w version ≡ write_bytes w (protocol_bytes version)
unfolding write_protocol
write_protocol-bytes w version = elim (Bool-cases (4 == version)) [
  | inl e ↦ rw e (simp (write_utf8_string-bytes, write_char-bytes, write_bytes-append))
  | inr e ↦ rw e (simp (write_utf8_string-bytes, write_char-bytes, write_bytes-append))
]

-- The flags say which strings follow; the PASSWORD flag is always set.
flags_username :
    (o : ConnectParams)
    → (bit_and (connect_flags o) 0x80 == 0) ≡ (if is_some o.username then false else true)
unfolding connect_flags
flags_username o = ground arith

flags_password : (o : ConnectParams) → (bit_and (connect_flags o) 0x40 == 0) ≡ false
unfolding connect_flags
flags_password o = ground arith

write_optional-bytes :
    (w : Writer) (flags flag : ℕ) (s : Option (List ℕ))
    → (is_some s ≡ true → (bit_and flags flag == 0) ≡ false)
    → write_optional w flags flag s ≡ write_bytes w (optional_bytes s)
unfolding write_optional
write_optional-bytes w flags flag none h = unfold write_bytes in refl
write_optional-bytes w flags flag (some s) h = rw (h refl) (write_utf8_string-bytes w s)

write_username-bytes :
    (w : Writer) (o : ConnectParams)
    → write_optional w (connect_flags o) 0x80 o.username ≡ write_bytes w (optional_bytes o.username)
write_username-bytes w o =
    write_optional-bytes w (connect_flags o) 0x80 o.username (λ e. ground (arith, flags_username o))

write_password-bytes :
    (w : Writer) (o : ConnectParams)
    → write_optional w (connect_flags o) 0x40 o.password ≡ write_bytes w (optional_bytes o.password)
write_password-bytes w o =
    write_optional-bytes w (connect_flags o) 0x40 o.password (λ _. flags_password o)

length-optional_bytes : (s : Option (List ℕ)) → length (optional_bytes s) ≡ optional_len s
length-optional_bytes none = refl
length-optional_bytes (some s) = omega (arith, length-string_bytes s)

length-protocol_bytes :
    (version : ℕ)
    → (version ≡ 3) ⊎ (version ≡ 4)
    → length (protocol_bytes version) + 3
      ≡ (if 3 == version then 12 else if 4 == version then 10 else 0)
length-protocol_bytes version h = ground (
  arith,
  length-append (string_bytes mqtt_name) (4 ∷ []),
  length-append (string_bytes mqisdp_name) (3 ∷ []),
  length-string_bytes mqtt_name,
  length-string_bytes mqisdp_name,
)

length-connect_body :
    (o : ConnectParams)
    → (o.mqtt_version ≡ 3) ⊎ (o.mqtt_version ≡ 4)
    → length (connect_body o) < 2 ^ 32
    → connect_rem_len o ≡ length (connect_body o)
unfolding connect_rem_len
length-connect_body o v h =
    let strings = optional_bytes o.username ++ optional_bytes o.password in
    let id = string_bytes o.client_id ++ strings in
    let time = uint16_bytes o.keep_alive_interval ++ id in
    ground (
      arith,
      length-protocol_bytes o.mqtt_version v,
      length-append (protocol_bytes o.mqtt_version) (connect_flags o ∷ time),
      length-append (uint16_bytes o.keep_alive_interval) id,
      length-append (string_bytes o.client_id) strings,
      length-append (optional_bytes o.username) (optional_bytes o.password),
      length-string_bytes o.client_id,
      length-uint16_bytes o.keep_alive_interval,
      length-optional_bytes o.username,
      length-optional_bytes o.password,
    )

abbrev write_connect_body : ConnectParams → Writer → Outcome Writer
write_connect_body o w₂ = do
  w₃ ← write_protocol w₂ o.mqtt_version
  w₄ ← write_char w₃ (connect_flags o)
  w₅ ← write_uint16 w₄ o.keep_alive_interval
  w₆ ← write_utf8_string w₅ o.client_id
  w₇ ← write_optional w₆ (connect_flags o) 0x80 o.username
  write_optional w₇ (connect_flags o) 0x40 o.password

ruleset connect_writers = (
  write_char-bytes, write_uint16-bytes, write_utf8_string-bytes, write_protocol-bytes,
  write_bytes-append,
)

write_connect_body-bytes :
    (o : ConnectParams) (w : Writer) → write_connect_body o w ≡ write_bytes w (connect_body o)
write_connect_body-bytes o w =
    let u = λ (w' : Writer). write_username-bytes w' o in
    let p = λ (w' : Writer). write_password-bytes w' o in
    let write_flags = λ (w' : Writer).
      write_bytes-append (connect_flags o ∷ [])
        (uint16_bytes o.keep_alive_interval
          ++ (string_bytes o.client_id ++ (optional_bytes o.username ++ optional_bytes o.password)))
        w' in
    simp (connect_writers, u, p, write_flags)

-- _serialize_connect_packet, for a client identifier that is not empty and the protocol versions 3
-- and 4, writes one CONNECT packet whose remaining length is the size of its body, or returns
-- ERR_MQTT_BUFFER_TOO_SHORT; it writes nothing outside the buffer.
pub serialize_connect-writes :
    (buf : List ℕ) (buf_len : ℕ) (o : ConnectParams)
    → (o.mqtt_version ≡ 3) ⊎ (o.mqtt_version ≡ 4)
    → length o.client_id ≢ 0
    → buf_len ≤ length buf
    → length (connect_body o) < 128 * 128 * 128 * 128
    → serialize_connect buf buf_len o
      ≡ packet_or_short buf buf_len (header_byte connect 0 0 0) (connect_body o)
unfolding serialize_connect
serialize_connect-writes buf buf_len o v c hb hl =
    let body = connect_body o in
    let named : (length o.client_id == 0) ≡ false = ground arith in
    rw
      (
        named,
        length-connect_body o v (omega arith),
        init_packet_header-byte connect 0 0 0 (λ e. cc) (omega arith) (omega arith) (omega arith),
      )
      (reject_if-then _ _ _ _ (
          write_packet (writer_at buf) (header_byte connect 0 0 0) (length body) body
            (write_connect_body o) (omega arith) (write_connect_body-bytes o))
        ∙ guarded_fits buf body buf_len (header_byte connect 0 0 0) hb hl)
