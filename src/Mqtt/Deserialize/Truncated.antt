-- ===== src/Mqtt/Deserialize/Truncated.antt =====
-- uiot/mqtt/src: deserialize_publish_packet on a PUBLISH packet that ends before its packet
-- identifier, and deserialize_suback_packet on a SUBACK packet with many codes.
use ucloud_iot_rtthread_pack.Prelude.{
  ℕ, ◌+◌, ◌*◌, ◌-◌, ◌^◌, ◌≤◌, ◌<◌, ◌≡◌, refl, List, [], ◌∷◌, ◌++◌, ok, fault, ◌>>=◌, arith, length,
  length-append, set, length-set, u16, append_assoc,
}
use ucloud_iot_rtthread_pack.Mqtt.Bytes.{read_char, read_uint16}
use ucloud_iot_rtthread_pack.Mqtt.Bytes.Writes.{
  uint16_bytes, string_bytes, length-uint16_bytes, length-string_bytes,
}
use ucloud_iot_rtthread_pack.Mqtt.RemLen.Encoding.{rem_len_bytes}
use ucloud_iot_rtthread_pack.Mqtt.Header.{publish, suback}
use ucloud_iot_rtthread_pack.Mqtt.Header.Fields.{header_byte, header_byte_fields}
use ucloud_iot_rtthread_pack.Mqtt.Serialize.Layout.{packet_bytes}
use ucloud_iot_rtthread_pack.Mqtt.Deserialize.{
  Message, read_granted, deserialize_suback, read_packet_id, deserialize_publish, rx_buf_len,
}
use ucloud_iot_rtthread_pack.Mqtt.Deserialize.RoundTrip.{
  read_rem_len-packet, read_string_with_len-bytes, read_uint16-bytes, skip-append,
}

-- Two bytes behind the declared end are read as a packet identifier.
read_packet_id-beyond :
    (qos old b₁ b₂ pos : ℕ) (rest : List ℕ)
    → 1 ≤ qos
    → read_packet_id qos old (record { pos = pos; rest = b₁ ∷ b₂ ∷ rest })
      ≡ ok (u16 (b₂ + 256 * b₁), record { pos = pos + 1 + 1; rest = rest })
unfolding read_packet_id read_uint16
read_packet_id-beyond qos old b₁ b₂ pos rest h = ground arith

-- A PUBLISH packet of QoS 1 or more whose remaining length covers the topic only is accepted: the
-- packet identifier is read from the two bytes behind the packet, and payload_len wraps around to
-- 2 ^ 32 - 2.
pub deserialize_publish_truncated :
    (old dup qos retained buf_len b₁ b₂ : ℕ) (topic_name tail : List ℕ)
    → dup ≤ 1
    → 1 ≤ qos
    → qos ≤ 3
    → retained ≤ 1
    → length topic_name ≤ rx_buf_len
    → 4 ≤ buf_len
    → (m : Message) × (deserialize_publish old
          (packet_bytes (header_byte publish qos dup retained) (string_bytes topic_name)
            ++ (b₁ ∷ b₂ ∷ tail))
          buf_len
        ≡ ok m)
      × (m.id ≡ u16 (b₂ + 256 * b₁))
      × (m.payload_len ≡ 2 ^ 32 - 2)
deserialize_publish_truncated old dup qos ret buf_len b₁ b₂ topic tail hd h1 hq hr ht hb = (
  record {
    dup = dup;
    qos = qos;
    retained = ret;
    id = u16 (b₂ + 256 * b₁);
    topic_name = record { pos = p + 1 + 1; rest = topic ++ (b₁ ∷ b₂ ∷ tail) };
    topic_len = length topic;
    payload = record { pos = p + 1 + 1 + length topic + 1 + 1; rest = tail };
    payload_len = 2 ^ 32 - 2;
  },
  unfold deserialize_publish read_char in
      ground (
        arith,
        header_byte_fields publish qos dup ret hq hd hr,
        read_rem_len-packet body (b₁ ∷ b₂ ∷ tail) (omega (arith, length-string_bytes topic)),
        length-string_bytes topic,
        read_string_with_len-bytes topic (b₁ ∷ b₂ ∷ tail) p (p + length body) ht,
        skip-append topic (b₁ ∷ b₂ ∷ tail) (p + 1 + 1),
        read_packet_id-beyond qos old b₁ b₂ (p + 1 + 1 + length topic) tail h1,
      ),
  refl,
  refl,
)
  where
    body : List ℕ
    body = string_bytes topic

    p : ℕ
    p = 1 + length (rem_len_bytes (length body))

-- The codes stored one after the other from index `i` on.
abbrev pub store : List ℕ → ℕ → List ℕ → List ℕ
store [] i granted = granted
store (c ∷ cs) i granted = store cs (i + 1) (set granted i c)

read_granted-codes :
    (codes granted : List ℕ) (max_count count pos : ℕ) (rest : List ℕ)
    → count + length codes ≤ max_count + 1
    → count + length codes ≤ length granted
    → read_granted
        (length codes)
        max_count
        count
        granted
        (record { pos = pos; rest = codes ++ rest })
      ≡ ok (count + length codes, store codes count granted)
unfolding read_granted read_char
read_granted-codes [] granted m n pos rest hm hg = ground arith
read_granted-codes (c ∷ cs) granted m n pos rest hm hg = ground (
  arith,
  length-set granted n c,
  read_granted-codes cs (set granted n c) m (n + 1) (pos + 1) rest,
)

read_granted_overrun :
    (codes granted : List ℕ) (count pos : ℕ) (rest : List ℕ)
    → count + length codes ≡ length granted + 1
    → 0 < length codes
    → read_granted
        (length codes)
        (length granted)
        count
        granted
        (record { pos = pos; rest = codes ++ rest })
      ≡ fault
unfolding read_granted read_char
read_granted_overrun [] granted n pos rest e h = absurd (omega arith)
read_granted_overrun (c ∷ []) granted n pos rest e h = ground arith
read_granted_overrun (c ∷ d ∷ cs) granted n pos rest e h = ground (
  arith,
  length-set granted n c,
  read_granted_overrun (d ∷ cs) (set granted n c) (n + 1) (pos + 1) rest,
)

-- A SUBACK packet with the codes of a client's request.
abbrev pub suback_packet : ℕ → List ℕ → List ℕ
suback_packet packet_id codes =
    packet_bytes (header_byte suback 0 0 0) (uint16_bytes packet_id ++ codes)

suback_steps :
    (packet_id max_count : ℕ) (codes granted tail : List ℕ) (buf_len : ℕ)
    → packet_id < 2 ^ 16
    → length codes < 2 ^ 16
    → 5 ≤ buf_len
    → (pos : ℕ) × (deserialize_suback max_count granted
          (suback_packet packet_id codes ++ tail)
          buf_len
        ≡ (read_granted
              (length codes)
              max_count
              0
              granted
              (record { pos = pos; rest = codes ++ tail })
            >>= λ r. ok (record { packet_id = packet_id; count = r.0; granted_qoss = r.1 })))
suback_steps id max codes granted tail buf_len hi hc hb = (
  p + 1 + 1,
  unfold deserialize_suback read_char in
      ground (
        arith,
        header_byte_fields suback 0 0 0,
        length-append (uint16_bytes id) codes,
        length-uint16_bytes id,
        read_rem_len-packet body tail,
        append_assoc (uint16_bytes id) codes tail,
        read_uint16-bytes id p (codes ++ tail) hi,
      ),
)
  where
    body : List ℕ
    body = uint16_bytes id ++ codes

    p : ℕ
    p = 1 + length (rem_len_bytes (length body))

-- A SUBACK packet with up to max_count + 1 codes is read into the caller's array, in order, if the
-- array holds them: one code more than max_count passes the check.
pub deserialize_suback-codes :
    (packet_id max_count : ℕ) (codes granted tail : List ℕ) (buf_len : ℕ)
    → packet_id < 2 ^ 16
    → length codes < 2 ^ 16
    → 5 ≤ buf_len
    → length codes ≤ max_count + 1
    → length codes ≤ length granted
    → deserialize_suback max_count granted (suback_packet packet_id codes ++ tail) buf_len
      ≡ ok (record {
        packet_id = packet_id;
        count = length codes;
        granted_qoss = store codes 0 granted;
      })
deserialize_suback-codes id max codes granted tail buf_len hi hc hb hm hg =
    let (pos, e) = suback_steps id max codes granted tail buf_len hi hc hb in
    rw e (
      rw (read_granted-codes codes granted max 0 pos tail (omega arith) (omega arith))
        (let z : 0 + length codes ≡ length codes = omega arith in rw z))

-- If the array holds exactly max_count members, as its documentation asks, a SUBACK packet with one
-- more code is written past the end of the array.
deserialize_suback_overrun :
    (packet_id : ℕ) (codes granted tail : List ℕ) (buf_len : ℕ)
    → packet_id < 2 ^ 16
    → length codes < 2 ^ 16
    → 5 ≤ buf_len
    → length codes ≡ length granted + 1
    → deserialize_suback (length granted) granted (suback_packet packet_id codes ++ tail) buf_len
      ≡ fault
deserialize_suback_overrun id codes granted tail buf_len hi hc hb h =
    let (pos, e) = suback_steps id (length granted) codes granted tail buf_len hi hc hb in
    rw e (rw (read_granted_overrun codes granted 0 pos tail (omega arith) (omega arith)))
