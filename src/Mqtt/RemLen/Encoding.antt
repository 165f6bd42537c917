-- ===== src/Mqtt/RemLen/Encoding.antt =====
-- uiot/mqtt/src/mqtt_client_common.c: the bytes that mqtt_write_packet_rem_len writes, and the buffer
-- size that get_mqtt_packet_len asks for.
use ucloud_iot_rtthread_pack.Prelude.{
  ℕ, zero, suc, ◌+◌, ◌*◌, ◌/◌, ◌%◌, ◌^◌, ◌≤◌, ◌<◌, ◌≡◌, List, [], ◌∷◌, arith, ltb, if◌then◌else◌,
  length, drop, ◌++◌, bit_or-128,
}
use ucloud_iot_rtthread_pack.Mqtt.Bytes.{Writer, write_bytes}
use ucloud_iot_rtthread_pack.Mqtt.RemLen.{write_loop, write_rem_len, packet_len}

-- The digits of a number in base 128, the low ones first, at most as many as the fuel.
abbrev pub digits : ℕ → ℕ → List ℕ
digits zero n = []
digits (suc k) n = if ltb 0 (n / 128) then (n % 128 + 128) ∷ digits k (n / 128) else n % 128 ∷ []

unfoldable pub rem_len_bytes : ℕ → List ℕ
rem_len_bytes n = digits 5 n

-- 128 to the power k
abbrev pub cap : ℕ → ℕ
cap zero = 1
cap (suc k) = 128 * cap k

write_loop-digits :
    (k n : ℕ) (w : Writer)
    → n < cap (suc k)
    → write_loop (suc k) w n ≡ write_bytes w (digits (suc k) n)
unfolding write_loop write_bytes
write_loop-digits zero n w h = ground (arith)
write_loop-digits (suc k) n w h = ground (
  arith,
  bit_or-128 (n % 128),
  write_loop-digits k (n / 128)
      (record { done = w.done ++ (n % 128 + 128) ∷ []; room = drop 1 w.room }),
)

pub write_rem_len-bytes :
    (w : Writer) (n : ℕ) → n < 2 ^ 32 → write_rem_len w n ≡ write_bytes w (rem_len_bytes n)
unfolding write_rem_len rem_len_bytes
write_rem_len-bytes w n h = write_loop-digits 4 n w (omega arith)

pub length-rem_len_bytes : (n : ℕ) → length (rem_len_bytes n) ≤ 5
unfolding rem_len_bytes
length-rem_len_bytes n = ground arith

-- For every remaining length that four digits can express, get_mqtt_packet_len is enough for the
-- header byte, the encoded length and the rest, and it asks for one byte more than needed at most.
pub packet_len_bounds :
    (n : ℕ)
    → n < 128 * 128 * 128 * 128
    → (1 + length (rem_len_bytes n) + n ≤ packet_len n)
      × (packet_len n ≤ 2 + length (rem_len_bytes n) + n)
unfolding packet_len rem_len_bytes
packet_len_bounds n h = ground arith
