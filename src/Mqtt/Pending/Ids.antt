-- ===== src/Mqtt/Pending/Ids.antt =====
-- uiot/mqtt/src/mqtt_client_common.c: the packet identifiers of get_next_packet_id.
use ucloud_iot_rtthread_pack.Prelude.{ℕ, zero, suc, ◌+◌, ◌-◌, ◌%◌, ◌≤◌, ◌≡◌, ◌≢◌, arith}
use ucloud_iot_rtthread_pack.Mqtt.State.{Client, max_packet_id}
use ucloud_iot_rtthread_pack.Mqtt.Pending.{get_next_packet_id}

-- From any identifier that 16 bits hold, the next one is between 1 and 65535: 0, which MQTT forbids,
-- is never given out. The client remembers it, and it differs from the one before.
pub get_next_packet_id_range :
    (c : Client)
    → c.next_packet_id ≤ max_packet_id
    → (1 ≤ (get_next_packet_id c).0)
      × ((get_next_packet_id c).0 ≤ max_packet_id)
      × ((get_next_packet_id c).1.next_packet_id ≡ (get_next_packet_id c).0)
      × ((get_next_packet_id c).0 ≢ c.next_packet_id)
unfolding get_next_packet_id
get_next_packet_id_range c h = ground arith

-- The client after n calls.
abbrev pub after : ℕ → Client → Client
after zero c = c
after (suc n) c = (get_next_packet_id (after n c)).1

-- After n calls of get_next_packet_id the identifier i has become i + n, counted in the cycle
-- 1 ... 65535, for every i of the cycle.
after-id :
    (n : ℕ) (c : Client)
    → 1 ≤ c.next_packet_id
    → c.next_packet_id ≤ max_packet_id
    → (after n c).next_packet_id ≡ (c.next_packet_id - 1 + n) % 65535 + 1
unfolding get_next_packet_id
after-id zero c h k = omega arith
after-id (suc n) c h k = ground (arith, after-id n c h k)
