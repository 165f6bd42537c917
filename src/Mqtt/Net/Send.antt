-- ===== src/Mqtt/Net/Send.antt =====
-- uiot/mqtt/src/mqtt_client_common.c: the loop of send_mqtt_packet, and what it does to the client.
use ucloud_iot_rtthread_pack.Prelude.{
  ℕ, zero, suc, ◌+◌, ◌-◌, ◌≤◌, ◌<◌, ◌≡◌, ◌≢◌, refl, ap, arith, List, ℤ, ◌*◌, length, ltb, ◌⊎◌, inl,
  inr, Bool-cases, pos, negsuc, false, ok, fault, is_neg, to_ℕ,
}
use ucloud_iot_rtthread_pack.Mqtt.State.{Client}
use ucloud_iot_rtthread_pack.Mqtt.Act.{Hal, St, has_expired, left_ms}
use ucloud_iot_rtthread_pack.Mqtt.Net.{write_from, send_loop, send_mqtt_packet}

to_ℕ_pos : (z : ℤ) → z ≢ pos 0 → is_neg z ≡ false → 1 ≤ to_ℕ z
to_ℕ_pos (pos zero) h e = absurd (h refl)
to_ℕ_pos (pos (suc n)) h e = omega arith
to_ℕ_pos (negsuc n) h e = cc

module _ (hal : Hal) where
  -- A write that takes no byte reports an error.
  abbrev pub MakesProgress : Type 0
  MakesProgress =
      (bytes : List ℕ) (timeout : ℤ) (w : hal.World) → (hal.write bytes timeout w).0 ≢ pos 0

  write_from-progress :
      MakesProgress
      → (sent len timer : ℕ) (s : St hal.World) → sent + len ≤ length s.client.write_buf
      → (z : ℤ) × ((write_from hal sent len timer s).0 ≡ ok z) × (z ≢ pos 0)
  unfolding write_from left_ms
  write_from-progress p sent len timer s h =
      let within : ltb (length s.client.write_buf) (sent + len) ≡ false = ground arith in
      rw within (_, refl, p _ _ _)

  write_from-cases :
      (sent len timer : ℕ) (s : St hal.World)
      → ((z : ℤ) × ((write_from hal sent len timer s).0 ≡ ok z))
        ⊎ ((write_from hal sent len timer s).0 ≡ fault)
  unfolding write_from left_ms
  write_from-cases sent len timer s =
      elim (Bool-cases (ltb (length s.client.write_buf) (sent + len))) [
        | inl e ↦ rw e (inr refl)
        | inr e ↦ rw e (inl (_, refl))
      ]

  write_from-client :
      (sent len timer : ℕ) (s : St hal.World)
      → (write_from hal sent len timer s).1.client ≡ s.client
  unfolding write_from left_ms
  write_from-client sent len timer s =
      elim (Bool-cases (ltb (length s.client.write_buf) (sent + len))) [
        | inl e ↦ rw e
        | inr e ↦ rw e
      ]

  send_loop_total :
      MakesProgress
      → (fuel len sent timer : ℕ) (s : St hal.World) → len - sent < fuel
      → 2 * len ≤ length s.client.write_buf
      → (send_loop hal fuel len sent timer s).0 ≢ fault
  unfolding send_loop has_expired
  send_loop_total p zero len sent timer s h room = absurd (omega arith)
  send_loop_total p (suc fuel) len sent timer s h room = elim (Bool-cases (ltb sent len)) [
    | inr e ↦ ground (arith, e)
    | inl e ↦
        let t : St hal.World = record s { world = (hal.tick s.world).1 } in
        let (z, f, ne) = write_from-progress p sent len timer t (ground arith) in
        let kept : length (write_from hal sent len timer t).1.client.write_buf
            ≡ length s.client.write_buf =
          ap (λ (c : Client). length c.write_buf) (write_from-client sent len timer t) in
        ground (
          arith,
          f,
          to_ℕ_pos z ne,
          kept,
          send_loop_total p fuel len (sent + to_ℕ z) timer (write_from hal sent len timer t).1,
        )
  ]

  -- On a network where no write reports 0, and where write_buf has at least twice the bytes of the
  -- packet (so that no write, which is given the length of the whole packet, reads behind it): fuel
  -- for one write per byte of the packet and one more is enough for send_mqtt_packet, which comes to
  -- its end without a fault, whatever the clock does.
  pub send_mqtt_packet_total :
      MakesProgress
      → (fuel len timer : ℕ) (s : St hal.World) → len < fuel
      → 2 * len ≤ length s.client.write_buf
      → (send_mqtt_packet hal fuel len timer s).0 ≢ fault
  unfolding send_mqtt_packet
  send_mqtt_packet_total p fuel len timer s h room =
      ground (arith, send_loop_total p fuel len 0 timer s)

  -- Sending leaves the client as it is, on every branch.
  send_loop-client :
      (fuel len sent timer : ℕ) (s : St hal.World)
      → (send_loop hal fuel len sent timer s).1.client ≡ s.client
  unfolding send_loop has_expired
  send_loop-client zero len sent timer s = refl
  send_loop-client (suc fuel) len sent timer s =
      let t : St hal.World = record s { world = (hal.tick s.world).1 } in
      let same = write_from-client sent len timer t in
      elim (write_from-cases sent len timer t) [
        | inl (z, e) ↦ ground (
          arith,
          e,
          same,
          send_loop-client fuel len (sent + to_ℕ z) timer (write_from hal sent len timer t).1,
        )
        | inr e ↦ ground (arith, e, same)
      ]

  pub send_mqtt_packet-client :
      (fuel len timer : ℕ) (s : St hal.World)
      → (send_mqtt_packet hal fuel len timer s).1.client ≡ s.client
  unfolding send_mqtt_packet
  send_mqtt_packet-client fuel len timer s = ground (arith, send_loop-client fuel len 0 timer s)
