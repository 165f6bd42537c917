-- ===== src/Mqtt/Session/Yield/Acknowledged.antt =====
-- uiot/mqtt/src: _handle_puback_packet followed by uiot_mqtt_pub_info_proc.
use ucloud_iot_rtthread_pack.Prelude.{ℕ, ◌≡◌, ◌≢◌, arith, Bool, List, [], ◌∷◌, All, ok, true}
use ucloud_iot_rtthread_pack.Mqtt.State.{invalid, PubInfo, Event, Client}
use ucloud_iot_rtthread_pack.Mqtt.Act.{Hal, St, Act, list_iterator}
use ucloud_iot_rtthread_pack.Mqtt.Deserialize.{Ack, deserialize_ack}
use ucloud_iot_rtthread_pack.Mqtt.Pending.{notify, mask_pub_info}
use ucloud_iot_rtthread_pack.Mqtt.Handlers.{handle_puback}
use ucloud_iot_rtthread_pack.Mqtt.Session.Yield.{visit_pub, sweep, pub_info_proc}
use ucloud_iot_rtthread_pack.Mqtt.Session.Yield.Waiting.{
  IsWaiting, keep-All, sweep_steps, sweep_total, visit_pub_total, pub_info_proc-IsWaiting,
}

abbrev IsMasked : ℕ → PubInfo → Type 0
IsMasked msg_id p = p.msg_id ≡ msg_id → p.node_state ≡ invalid

mask_pub_info-All :
    (msg_id : ℕ) (ps : List PubInfo) → All (IsMasked msg_id) (mask_pub_info msg_id ps)
unfolding mask_pub_info
mask_pub_info-All msg_id [] = tt
mask_pub_info-All msg_id (p ∷ ps) = (ground arith, mask_pub_info-All msg_id ps)

masked_waiting :
    (msg_id : ℕ) (ps : List PubInfo)
    → All (IsMasked msg_id) ps
    → All (λ p. IsWaiting p.node_state) ps
    → All (λ p. p.msg_id ≢ msg_id) ps
masked_waiting msg_id [] m w = tt
masked_waiting msg_id (p ∷ ps) m w =
    ((λ e. absurd (rw (m.0 e) at w.0)), masked_waiting msg_id ps m.1 w.1)

notify-list_pub_wait_ack :
    (e : Event) (c : Client) → (notify e c).list_pub_wait_ack ≡ c.list_pub_wait_ack
unfolding notify
notify-list_pub_wait_ack e c = ground arith

handle_puback-mask :
    (hal : Hal) (s : St hal.World) (ack : Ack)
    → deserialize_ack s.client.read_buf s.client.read_buf_size ≡ ok ack
    → (list_iterator hal s.client.list_pub_wait_ack s.world).0 ≡ true
    → (handle_puback hal s).1.client.list_pub_wait_ack
      ≡ mask_pub_info ack.packet_id s.client.list_pub_wait_ack
unfolding handle_puback
handle_puback-mask hal s ack e granted = simp (e, granted, notify-list_pub_wait_ack)

module _ (hal : Hal) (fuel : ℕ) where
  sweep_keeps :
      {A : Type 0} (P : A → Type 0) (visit : A → Act hal.World Bool) (xs : List A)
      (s : St hal.World) (ys : List A)
      → (sweep hal fuel visit xs s).0 ≡ ok ys
      → All P xs
      → All P ys
  unfolding sweep
  sweep_keeps P visit [] s ys h a = let e : [] ≡ ys = cc in rw (← e) tt
  sweep_keeps P visit (x ∷ xs) s ys h a =
      let (rest, b, e, v, k) = sweep_steps hal fuel visit x xs s h in
      rw (← k) (keep-All hal fuel P x rest b (λ _. a.0) (sweep_keeps P visit xs s rest e a.1))

  pub_info_proc-IsMasked :
      (msg_id : ℕ) (s : St hal.World)
      → (list_iterator hal s.client.list_pub_wait_ack s.world).0 ≡ true
      → All (IsMasked msg_id) s.client.list_pub_wait_ack
      → All (IsMasked msg_id) (pub_info_proc hal fuel s).1.client.list_pub_wait_ack
  unfolding pub_info_proc
  pub_info_proc-IsMasked msg_id s granted a =
      let waiting = s.client.list_pub_wait_ack in
      let t : St hal.World = record s { world = (list_iterator hal waiting s.world).1 } in
      let (rest, e) =
        sweep_total hal fuel (visit_pub hal fuel) (visit_pub_total hal fuel) waiting t in
      simp (granted, e) (sweep_keeps (IsMasked msg_id) (visit_pub hal fuel) waiting t rest e a)

  -- When a PUBACK packet is in the receive buffer, then after _handle_puback_packet and
  -- uiot_mqtt_pub_info_proc no PUBLISH packet with its identifier is waiting any more, where the list
  -- iterator of each of the two calls can be allocated.
  pub pub_info_proc-handle_puback :
      (s : St hal.World) (ack : Ack)
      → deserialize_ack s.client.read_buf s.client.read_buf_size ≡ ok ack
      → (list_iterator hal s.client.list_pub_wait_ack s.world).0 ≡ true
      → (list_iterator hal
          (handle_puback hal s).1.client.list_pub_wait_ack
          (handle_puback hal s).1.world).0
        ≡ true
      → All
          (λ p. p.msg_id ≢ ack.packet_id)
          (pub_info_proc hal fuel (handle_puback hal s).1).1.client.list_pub_wait_ack
  pub_info_proc-handle_puback s ack e first_granted then_granted =
      let t = (handle_puback hal s).1 in
      masked_waiting ack.packet_id _
        (pub_info_proc-IsMasked ack.packet_id t then_granted (
          rw (handle_puback-mask hal s ack e first_granted)
            (mask_pub_info-All ack.packet_id s.client.list_pub_wait_ack)))
        (pub_info_proc-IsWaiting hal fuel t then_granted).1
