-- ===== src/Mqtt/Bytes/Writes.antt =====
-- uiot/mqtt/src/mqtt_client_common.c: the byte writers as copies of byte sequences.
use ucloud_iot_rtthread_pack.Prelude.{
  ℕ, ◌+◌, ◌/◌, ◌%◌, ◌≤◌, ◌≡◌, refl, List, [], ◌∷◌, ◌++◌, arith, ok, ◌>>=◌, length, drop, u8, u16,
  append-nil, append_assoc,
}
use ucloud_iot_rtthread_pack.Mqtt.Bytes.{
  Writer, write_char, write_uint16, write_bytes, write_utf8_string,
}

-- The two bytes of a 16-bit number, the high one first.
unfoldable pub uint16_bytes : ℕ → List ℕ
uint16_bytes n = u8 (n / 256) ∷ u8 (n % 256) ∷ []

-- A length-delimited string.
unfoldable pub string_bytes : List ℕ → List ℕ
unfolding uint16_bytes
string_bytes s = uint16_bytes (u16 (length s)) ++ s

pub write_char-bytes : (w : Writer) (c : ℕ) → write_char w c ≡ write_bytes w (c ∷ [])
unfolding write_bytes
write_char-bytes w c = ground arith

pub write_uint16-bytes : (w : Writer) (n : ℕ) → write_uint16 w n ≡ write_bytes w (uint16_bytes n)
unfolding write_uint16 write_bytes uint16_bytes
write_uint16-bytes w n = ground arith

pub write_bytes-append :
    (a b : List ℕ) (w : Writer)
    → write_bytes w (a ++ b) ≡ (write_bytes w a >>= λ w₁. write_bytes w₁ b)
unfolding write_bytes
write_bytes-append [] b w = refl
write_bytes-append (x ∷ a) b w =
    ground
      (arith, write_bytes-append a b (record { done = w.done ++ x ∷ []; room = drop 1 w.room }))

pub write_utf8_string-bytes :
    (w : Writer) (s : List ℕ) → write_utf8_string w s ≡ write_bytes w (string_bytes s)
unfolding write_utf8_string string_bytes
write_utf8_string-bytes w s = ground arith

-- A copy that fits moves its bytes behind the pointer and uses up as much room.
pub write_bytes_fits :
    (bs : List ℕ) (w : Writer)
    → length bs ≤ length w.room
    → write_bytes w bs ≡ ok (record { done = w.done ++ bs; room = drop (length bs) w.room })
unfolding write_bytes
write_bytes_fits [] w h = rw append-nil
write_bytes_fits (b ∷ bs) w h = ground (
  arith,
  write_bytes_fits bs (record { done = w.done ++ b ∷ []; room = drop 1 w.room }),
  append_assoc w.done (b ∷ []) bs,
)

pub length-uint16_bytes : (n : ℕ) → length (uint16_bytes n) ≡ 2
unfolding uint16_bytes
length-uint16_bytes n = refl

pub length-string_bytes : (s : List ℕ) → length (string_bytes s) ≡ 2 + length s
unfolding string_bytes
length-string_bytes s = omega arith
