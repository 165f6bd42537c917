-- ===== src/Mqtt/Requests/Bounds.antt =====
-- uiot/mqtt/src: the lengths of the lists of waiting requests behind uiot_mqtt_publish,
-- uiot_mqtt_subscribe and uiot_mqtt_unsubscribe.
use ucloud_iot_rtthread_pack.Prelude.{ℕ, ◌≤◌, arith, List, [], ◌∷◌, length, length-append}
use ucloud_iot_rtthread_pack.Mqtt.State.{max_sub_topics, max_repub_num, SubTopicHandle}
use ucloud_iot_rtthread_pack.Mqtt.Act.{Hal, St, countdown_ms}
use ucloud_iot_rtthread_pack.Mqtt.Header.{MessageType}
use ucloud_iot_rtthread_pack.Mqtt.Requests.{
  PublishParams, SubscribeParams, mqtt_subscribe, mqtt_unsubscribe, forget_handles, push_pub_info,
  push_sub_info, send_or, transmit, mqtt_publish, drop_last, drop_sub, check_topic, check_connected,
  publish_id,
}
use ucloud_iot_rtthread_pack.Mqtt.Net.Send.{send_mqtt_packet-client}
use ucloud_iot_rtthread_pack.Mqtt.Handlers.{store_packet}
use ucloud_iot_rtthread_pack.Mqtt.Pending.{get_next_packet_id}

module _ (hal : Hal) (fuel : ℕ) where
  -- _mask_push_pubInfo_to keeps the list of PUBLISH packets within MAX_REPUB_NUM, on every branch.
  push_pub_info_bound :
      (len msg_id : ℕ) (s : St hal.World)
      → length s.client.list_pub_wait_ack ≤ max_repub_num
      → length (push_pub_info hal fuel len msg_id s).1.client.list_pub_wait_ack ≤ max_repub_num
  unfolding push_pub_info countdown_ms
  push_pub_info_bound len msg_id s h = grind (arith, length-append)

  -- push_sub_info_to keeps the list of SUBSCRIBE and UNSUBSCRIBE packets within MAX_SUB_TOPICS, on
  -- every branch.
  push_sub_info_bound :
      (len msg_id : ℕ) (type : MessageType) (handler : SubTopicHandle) (s : St hal.World)
      → length s.client.list_sub_wait_ack ≤ max_sub_topics
      → length (push_sub_info hal fuel len msg_id type handler s).1.client.list_sub_wait_ack
        ≤ max_sub_topics
  unfolding push_sub_info countdown_ms
  push_sub_info_bound len msg_id type handler s h = grind (arith, length-append)

  length-drop_last : {A : Type 0} (xs : List A) → length (drop_last xs) ≤ length xs
  length-drop_last [] = omega arith
  length-drop_last (x ∷ []) = omega arith
  length-drop_last (x ∷ y ∷ ys) = omega (arith, length-drop_last (y ∷ ys))

  transmit_bound :
      (qos len id timer : ℕ) (s : St hal.World)
      → length s.client.list_pub_wait_ack ≤ max_repub_num
      → length (transmit hal fuel qos len id timer s).1.client.list_pub_wait_ack ≤ max_repub_num
  unfolding transmit send_or
  transmit_bound qos len id timer s h =
      let t = (push_pub_info hal fuel len id s).1 in
      ground (
        arith,
        push_pub_info_bound len id s h,
        send_mqtt_packet-client hal fuel len timer s,
        send_mqtt_packet-client hal fuel len timer t,
        length-drop_last t.client.list_pub_wait_ack,
      )

  -- uiot_mqtt_publish keeps the list of PUBLISH packets within MAX_REPUB_NUM, if it was within it before, on
  -- every branch.
  pub mqtt_publish_bound :
      (topic : List ℕ) (p : PublishParams) (s : St hal.World)
      → length s.client.list_pub_wait_ack ≤ max_repub_num
      → length (mqtt_publish hal fuel topic p s).1.client.list_pub_wait_ack ≤ max_repub_num
  unfolding mqtt_publish check_topic check_connected publish_id get_next_packet_id store_packet
      countdown_ms
  mqtt_publish_bound topic p s h = grind (arith, transmit_bound)

  send_or_bound :
      (len timer : ℕ) (s : St hal.World)
      → length s.client.list_sub_wait_ack ≤ max_sub_topics
      → length (send_or hal fuel drop_sub len timer s).1.client.list_sub_wait_ack ≤ max_sub_topics
  unfolding send_or
  send_or_bound len timer s h = ground (
    arith,
    send_mqtt_packet-client hal fuel len timer s,
    length-drop_last s.client.list_sub_wait_ack,
  )

  -- uiot_mqtt_subscribe keeps the list of SUBSCRIBE and UNSUBSCRIBE packets within MAX_SUB_TOPICS,
  -- if it was within it before, on every branch.
  pub mqtt_subscribe_bound :
      (topic : List ℕ) (p : SubscribeParams) (s : St hal.World)
      → length s.client.list_sub_wait_ack ≤ max_sub_topics
      → length (mqtt_subscribe hal fuel topic p s).1.client.list_sub_wait_ack ≤ max_sub_topics
  unfolding mqtt_subscribe check_topic check_connected get_next_packet_id store_packet countdown_ms
  mqtt_subscribe_bound topic p s h = grind (arith, push_sub_info_bound, send_or_bound)

  -- uiot_mqtt_unsubscribe keeps the list of SUBSCRIBE and UNSUBSCRIBE packets within MAX_SUB_TOPICS,
  -- if it was within it before, on every branch.
  pub mqtt_unsubscribe_bound :
      (topic : List ℕ) (s : St hal.World)
      → length s.client.list_sub_wait_ack ≤ max_sub_topics
      → length (mqtt_unsubscribe hal fuel topic s).1.client.list_sub_wait_ack ≤ max_sub_topics
  unfolding mqtt_unsubscribe check_topic check_connected get_next_packet_id store_packet
      countdown_ms forget_handles
  mqtt_unsubscribe_bound topic s h = grind (arith, push_sub_info_bound, send_or_bound)
