-- ===== src/Mqtt/Requests/Unsubscribe.antt =====
-- uiot/mqtt/src/mqtt_client_unsubscribe.c: what uiot_mqtt_unsubscribe does to the table of
-- subscriptions.
use ucloud_iot_rtthread_pack.Prelude.{
  ℕ, ◌≡◌, ◌≤◌, arith, true, false, ◌||◌, none, List, [], ◌∷◌, ◌++◌, All, ◌⊎◌, inl, inr, length,
  length-append, ltb, ◌==◌, ◌+◌,
}
use ucloud_iot_rtthread_pack.Mqtt.State.{SubTopicHandle, max_size_of_cloud_topic}
use ucloud_iot_rtthread_pack.Mqtt.Act.{Hal, St, countdown_ms}
use ucloud_iot_rtthread_pack.Mqtt.Header.{MessageType}
use ucloud_iot_rtthread_pack.Mqtt.Pending.{has_pair, remove_handles, get_next_packet_id}
use ucloud_iot_rtthread_pack.Mqtt.Pending.Table.{remove_handles_wildcard}
use ucloud_iot_rtthread_pack.Mqtt.Net.Send.{send_mqtt_packet-client}
use ucloud_iot_rtthread_pack.Mqtt.Handlers.{store_packet}
use ucloud_iot_rtthread_pack.Mqtt.Requests.{
  mqtt_unsubscribe, forget_handles, check_topic, check_connected, push_sub_info, send_or, drop_sub,
}

-- A string with the two characters side by side.
has_pair-append :
    (a b : ℕ) (before after : List ℕ) → has_pair a b (before ++ (a ∷ b ∷ after)) ≡ true
unfolding has_pair
has_pair-append a b [] after = ground arith
has_pair-append a b (c ∷ []) after = ground (arith, has_pair-append a b [] after)
has_pair-append a b (c ∷ d ∷ before) after = ground (arith, has_pair-append a b (d ∷ before) after)

has_wildcard :
    (before after : List ℕ) (w : ℕ)
    → (w ≡ b'#') ⊎ (w ≡ b'+')
    → let topic = before ++ (b'/' ∷ w ∷ after) in
      (has_pair b'/' b'#' topic || has_pair b'/' b'+' topic) ≡ true
has_wildcard before after w (inl e) = rw (e, has_pair-append b'/' b'#' before after)
has_wildcard before after w (inr e) = rw e (ground (arith, has_pair-append b'/' b'+' before after))

-- No slot of the table is in use.
abbrev IsEmptied : List SubTopicHandle → Type 0
IsEmptied hs = All (λ h. h.topic_filter ≡ none) hs

module _ (hal : Hal) (fuel : ℕ) where
  push_sub_info-handles :
      (len msg_id : ℕ) (type : MessageType) (handler : SubTopicHandle) (s : St hal.World)
      → (push_sub_info hal fuel len msg_id type handler s).1.client.sub_handles
        ≡ s.client.sub_handles
  unfolding push_sub_info countdown_ms
  push_sub_info-handles len msg_id type handler s = ground arith

  send_or-handles :
      (len timer : ℕ) (s : St hal.World)
      → (send_or hal fuel drop_sub len timer s).1.client.sub_handles ≡ s.client.sub_handles
  unfolding send_or
  send_or-handles len timer s = ground (arith, send_mqtt_packet-client hal fuel len timer s)

  -- For a topic that is let through, the loop has its effect on every branch behind it.
  mqtt_unsubscribe-handles :
      (topic : List ℕ) (s : St hal.World)
      → (length topic == 0) ≡ false
      → ltb max_size_of_cloud_topic (length topic) ≡ false
      → (mqtt_unsubscribe hal fuel topic s).1.client.sub_handles
        ≡ (remove_handles topic s.client.sub_handles).0
  unfolding mqtt_unsubscribe check_topic check_connected get_next_packet_id store_packet
      countdown_ms forget_handles
  mqtt_unsubscribe-handles topic s h k = grind (arith, push_sub_info-handles, send_or-handles)

  -- uiot_mqtt_unsubscribe with a filter of at most MAX_SIZE_OF_CLOUD_TOPIC bytes that holds "/#" or
  -- "/+" leaves no subscription in the table, whatever their topic filters are and whatever its
  -- result.
  pub mqtt_unsubscribe_wildcard :
      (before after : List ℕ) (w : ℕ) (s : St hal.World)
      → (w ≡ b'#') ⊎ (w ≡ b'+')
      → length before + length after + 2 ≤ max_size_of_cloud_topic
      → IsEmptied (mqtt_unsubscribe hal fuel (before ++ (b'/' ∷ w ∷ after)) s).1.client.sub_handles
  mqtt_unsubscribe_wildcard before after w s h k =
      let topic = before ++ (b'/' ∷ w ∷ after) in
      let size : length topic ≡ length before + length after + 2 =
        omega (arith, length-append before (b'/' ∷ w ∷ after)) in
      rw (mqtt_unsubscribe-handles topic s (ground (arith, size)) (ground (arith, size)))
        (remove_handles_wildcard topic s.client.sub_handles (has_wildcard before after w h))
