-- ===== src/Mqtt/Bytes.antt =====
-- uiot/mqtt/src/mqtt_client_common.c: the readers and writers that move a pointer along a packet
-- buffer. A pointer for reading is its offset in the buffer with the bytes from there to the end of
-- the array. A pointer for writing splits the array into what it has passed and what is left, so
-- `ptr - buf` is the length of `done`. An access past the end of the array is a `fault`.
pub mod Writes
use ucloud_iot_rtthread_pack.Prelude.{
  ℕ, ◌+◌, ◌-◌, ◌*◌, ◌/◌, ◌%◌, List, [], ◌∷◌, ◌++◌, Outcome, ok, fault, ◌>>=◌, length, drop, u8, u16,
}

pub record Reader : Type 0 where
  pub pos : ℕ
  pub rest : List ℕ

pub record Writer : Type 0 where
  pub done : List ℕ
  pub room : List ℕ

-- mqtt_read_char
unfoldable pub read_char : Reader → Outcome (ℕ × Reader)
read_char r = elim r.rest [ [] ↦ fault | b ∷ bs ↦ ok (b, record { pos = r.pos + 1; rest = bs }) ]

-- mqtt_read_uint16_t
unfoldable pub read_uint16 : Reader → Outcome (ℕ × Reader)
unfolding read_char
read_uint16 r = do
  (first_byte, r₁) ← read_char r
  (second_byte, r₂) ← read_char r₁
  ok (u16 (second_byte + 256 * first_byte), r₂)

-- `*pptr += n` with no access: the pointer may pass the end.
unfoldable pub skip : ℕ → Reader → Reader
skip n r = record { pos = r.pos + n; rest = drop n r.rest }

-- mqtt_write_char
unfoldable pub write_char : Writer → ℕ → Outcome Writer
write_char w c = elim w.room [
  | [] ↦ fault
  | _ ∷ after ↦ ok (record { done = w.done ++ c ∷ []; room = after })
]

-- mqtt_write_uint_16, for a value below 2 ^ 16
unfoldable pub write_uint16 : Writer → ℕ → Outcome Writer
unfolding write_char
write_uint16 w n = do w₁ ← write_char w (u8 (n / 256)); write_char w₁ (u8 (n % 256))

-- `memcpy(ptr, bytes, n); ptr += n;`
unfoldable pub write_bytes : Writer → List ℕ → Outcome Writer
unfolding write_char
write_bytes w [] = ok w
write_bytes w (b ∷ bs) = do w₁ ← write_char w b; write_bytes w₁ bs

-- mqtt_write_utf8_string; a C string is the list of its bytes before the NUL
unfoldable pub write_utf8_string : Writer → List ℕ → Outcome Writer
unfolding write_uint16 write_bytes
write_utf8_string w s = do w₁ ← write_uint16 w (u16 (length s)); write_bytes w₁ s

-- A pointer at the start of a buffer.
abbrev pub reader_at : List ℕ → Reader
reader_at buf = record { pos = 0; rest = buf }

abbrev pub writer_at : List ℕ → Writer
writer_at buf = record { done = []; room = buf }
