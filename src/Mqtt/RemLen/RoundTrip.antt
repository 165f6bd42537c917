-- ===== src/Mqtt/RemLen/RoundTrip.antt =====
-- uiot/mqtt/src/mqtt_client_common.c: mqtt_read_packet_rem_len_form_buf on what mqtt_write_packet_rem_len
-- writes.
use ucloud_iot_rtthread_pack.Mqtt.RemLen.{write_rem_len}
use ucloud_iot_rtthread_pack.Mqtt.RemLen.Encoding.{write_rem_len-bytes, length-rem_len_bytes}
use ucloud_iot_rtthread_pack.Mqtt.Bytes.{Writer}
use ucloud_iot_rtthread_pack.Mqtt.Bytes.Writes.{write_bytes_fits}
use ucloud_iot_rtthread_pack.Prelude.{
  drop, drop-append, append_assoc, length-append, ◌∙◌, ℕ, zero, suc, ◌+◌, ◌*◌, ◌/◌, ◌%◌, ◌≤◌, ◌<◌,
  ◌≡◌, List, ◌∷◌, ◌++◌, arith, ok, length, bit_and-127, bit_and-128, u32, ap,
}
use native.Mathlib.Nat.{div-add-mod}
use ucloud_iot_rtthread_pack.Mqtt.Bytes.{read_char}
use ucloud_iot_rtthread_pack.Mqtt.RemLen.{read_loop, read_rem_len}
use ucloud_iot_rtthread_pack.Mqtt.RemLen.Encoding.{digits, rem_len_bytes, cap}

-- One digit that is not the last.
read_loop-more :
    (k d pos m v : ℕ) (rest : List ℕ)
    → d < 128
    → read_loop (suc k) (record { pos = pos; rest = (d + 128) ∷ rest }) m v
      ≡ read_loop k (record { pos = pos + 1; rest = rest }) (u32 (m * 128)) (u32 (v + d * m))
unfolding read_loop read_char
read_loop-more k d pos m v rest h = ground (arith, bit_and-127 (d + 128), bit_and-128 (d + 128))

-- The last digit.
read_loop-last :
    (k d pos m v : ℕ) (rest : List ℕ)
    → d < 128
    → read_loop (suc k) (record { pos = pos; rest = d ∷ rest }) m v
      ≡ ok (u32 (v + d * m), record { pos = pos + 1; rest = rest })
unfolding read_loop read_char
read_loop-last k d pos m v rest h = ground (arith, bit_and-127 d, bit_and-128 d)

mul_cap_pos : (k m : ℕ) → m ≤ m * cap k
mul_cap_pos zero m = omega arith
mul_cap_pos (suc k) m = omega (arith, mul_cap_pos k m)

split_product : (n m : ℕ) → n % 128 * m + n / 128 * (m * 128) ≡ n * m
split_product n m = omega (arith, ap (λ t. t * m) (div-add-mod n 128))

read_loop-digits :
    (k j n pos m v : ℕ) (rest : List ℕ)
    → n < cap (suc k)
    → m * cap k < 128 * 128 * 128 * 128
    → v + n * m < 128 * 128 * 128 * 128
    → k ≤ j
    → read_loop (suc j) (record { pos = pos; rest = digits (suc (suc k)) n ++ rest }) m v
      ≡ ok (v + n * m, record { pos = pos + length (digits (suc (suc k)) n); rest = rest })
read_loop-digits zero j n pos m v rest h hm hv hj = ground (arith, read_loop-last j n pos m v rest)
read_loop-digits (suc k) zero n pos m v rest h hm hv hj = absurd (omega arith)
read_loop-digits (suc k) (suc j) n pos m v rest h hm hv hj = ground (
  arith,
  read_loop-last (suc j) n pos m v rest,
  read_loop-more (suc j) (n % 128) pos m v (digits (suc (suc k)) (n / 128) ++ rest),
  split_product n m,
  mul_cap_pos k (m * 128),
  read_loop-digits k j (n / 128) (pos + 1) (m * 128) (v + n % 128 * m) rest,
)

pub read-rem_len_bytes :
    (n pos : ℕ) (rest : List ℕ)
    → n < 128 * 128 * 128 * 128
    → read_rem_len (record { pos = pos; rest = rem_len_bytes n ++ rest })
      ≡ ok (n, record { pos = pos + length (rem_len_bytes n); rest = rest })
unfolding read_rem_len rem_len_bytes
read-rem_len_bytes n pos rest h =
    rw (read_loop-digits 3 3 n pos 1 0 rest (omega arith) (omega arith) (omega arith) (omega arith))
      (let e : 0 + n * 1 ≡ n = omega arith in rw e)

-- What mqtt_write_packet_rem_len writes into a buffer with enough room, for every length below
-- 128 ^ 4 (268435456, the limit of MQTT), mqtt_read_packet_rem_len_form_buf reads back from the same
-- place, and it stops where the writer stopped.
pub read_rem_len-write_rem_len :
    (n : ℕ) (w : Writer)
    → n < 128 * 128 * 128 * 128
    → 5 ≤ length w.room
    → (w' : Writer) × (write_rem_len w n ≡ ok w')
      × (read_rem_len
            (record { pos = length w.done; rest = drop (length w.done) (w'.done ++ w'.room) })
          ≡ ok (n, record { pos = length w'.done; rest = w'.room }))
read_rem_len-write_rem_len n w h room =
    let bytes = rem_len_bytes n in
    let left = drop (length bytes) w.room in
    (
      record { done = w.done ++ bytes; room = left },
      write_rem_len-bytes w n (omega arith)
          ∙ write_bytes_fits bytes w (omega (arith, length-rem_len_bytes n)),
      rw (append_assoc w.done bytes left, drop-append, length-append w.done bytes)
          (read-rem_len_bytes n (length w.done) left h),
    )
