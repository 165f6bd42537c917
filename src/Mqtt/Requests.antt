-- ===== src/Mqtt/Requests.antt =====
-- uiot/mqtt/src: the requests of the application, uiot_mqtt_publish (mqtt_client_publish.c),
-- uiot_mqtt_subscribe and uiot_mqtt_resubscribe (mqtt_client_subscribe.c) and uiot_mqtt_unsubscribe
-- (mqtt_client_unsubscribe.c). The result of a successful request is its packet identifier.
pub mod Bounds
pub mod Unsubscribe
use ucloud_iot_rtthread_pack.Prelude.{
  ℕ, ◌+◌, Bool, true, false, not, Option, none, some, List, [], ◌∷◌, ◌++◌, ltb, leb, ◌==◌, length,
  take, eq_ℤ, ok,
}
use ucloud_iot_rtthread_pack.Codes.{
  success_ret, failure_ret, err_param_invalid, err_mqtt_no_conn, err_mqtt_max_subscriptions_reached,
  err_mqtt_qos_not_support, err_mqtt_unsub_failed, err_max_topic_length,
}
use ucloud_iot_rtthread_pack.Mqtt.Header.{MessageType, subscribe, unsubscribe, qos0, qos1, qos2}
use ucloud_iot_rtthread_pack.Mqtt.Serialize.{
  serialize_publish, serialize_subscribe, serialize_unsubscribe,
}
use ucloud_iot_rtthread_pack.Mqtt.State.{
  max_sub_topics, max_repub_num, max_size_of_cloud_topic, normal, SubTopicHandle, Client,
}
use ucloud_iot_rtthread_pack.Mqtt.Act.{
  Hal, Act, ◌>>=◌, ◌>>◌, pure, fail, fail_if, gets, modify, outside, code, countdown_ms,
}
use ucloud_iot_rtthread_pack.Mqtt.Pending.{get_next_packet_id, remove_handles}
use ucloud_iot_rtthread_pack.Mqtt.Net.{send_mqtt_packet}
use ucloud_iot_rtthread_pack.Mqtt.Handlers.{store_packet}

-- PublishParams, as far as uiot_mqtt_publish reads them
pub record PublishParams : Type 0 where
  pub qos : ℕ
  pub retained : ℕ
  pub id : ℕ
  pub payload : List ℕ

-- SubscribeParams
pub record SubscribeParams : Type 0 where
  pub qos : ℕ
  pub on_message_handler : Option ℕ
  pub user_data : ℕ

-- list_remove of the node that a failed request has pushed, the last one
abbrev pub drop_last {ℓ} : {A : Type ℓ} → List A → List A
drop_last [] = []
drop_last (x ∷ []) = []
drop_last (x ∷ y ∷ ys) = x ∷ drop_last (y ∷ ys)

abbrev pub drop_pub : Client → Client
drop_pub c = record c { list_pub_wait_ack = drop_last c.list_pub_wait_ack }

abbrev pub drop_sub : Client → Client
drop_sub c = record c { list_sub_wait_ack = drop_last c.list_sub_wait_ack }

-- packet_id = get_next_packet_id(pClient)
next_id : {W : Type 0} → Act W ℕ
next_id s = let (id, c) = get_next_packet_id s.client in (ok id, record s { client = c })

module _ (hal : Hal) (fuel : ℕ) where
  -- HAL_Malloc(size) == NULL
  no_memory : ℕ → Act hal.World (Unit {0})
  no_memory size = do got ← outside (hal.malloc size); fail_if (not got) failure_ret

  -- _mask_push_pubInfo_to; a node is allocated after its contents
  unfoldable pub push_pub_info : ℕ → ℕ → Act hal.World (Unit {0})
  unfolding no_memory
  push_pub_info len msg_id = do
    c ← gets (λ c. c)
    fail_if (ltb c.write_buf_size len) failure_ret
    fail_if (leb max_repub_num (length c.list_pub_wait_ack)) failure_ret
    no_memory len
    timer ← countdown_ms hal c.command_timeout_ms
    no_memory 0
    modify (λ c. record c {
      list_pub_wait_ack =
          c.list_pub_wait_ack
          ++ (record {
            pub_start_time = timer;
            node_state = normal;
            msg_id = msg_id;
            buf = take len c.write_buf;
          }
              ∷ []);
    })

  -- push_sub_info_to
  unfoldable pub push_sub_info : ℕ → ℕ → MessageType → SubTopicHandle → Act hal.World (Unit {0})
  unfolding no_memory
  push_sub_info len msg_id type handler = do
    c ← gets (λ c. c)
    fail_if (leb max_sub_topics (length c.list_sub_wait_ack)) err_mqtt_max_subscriptions_reached
    no_memory len
    timer ← countdown_ms hal c.command_timeout_ms
    no_memory 0
    modify (λ c. record c {
      list_sub_wait_ack =
          c.list_sub_wait_ack
          ++ (record {
            type = type;
            msg_id = msg_id;
            sub_start_time = timer;
            node_state = normal;
            handler = handler;
            buf = take len c.write_buf;
          }
              ∷ []);
    })

  -- `ret = send_mqtt_packet(...); if (SUCCESS_RET != ret) { clean up; return ret; }`
  unfoldable pub send_or : (Client → Client) → ℕ → ℕ → Act hal.World (Unit {0})
  send_or clean_up len timer = do
    ret ← code (send_mqtt_packet hal fuel len timer)
    elim (eq_ℤ ret success_ret) [ true ↦ pure tt | false ↦ (do modify clean_up; fail ret) ]

  -- The checks that the three requests begin with; a topic is not empty.
  unfoldable pub check_topic : List ℕ → Act hal.World (Unit {0})
  check_topic topic = do
    fail_if (length topic == 0) err_param_invalid
    fail_if (ltb max_size_of_cloud_topic (length topic)) err_max_topic_length

  unfoldable pub check_connected : Act hal.World (Unit {0})
  check_connected = do
    connected ← gets (λ c. c.is_connected)
    fail_if (not connected) err_mqtt_no_conn

  -- The identifier of a PUBLISH packet: a new one at QOS1, else what the caller has set.
  unfoldable pub publish_id : PublishParams → Act hal.World ℕ
  unfolding next_id
  publish_id p = elim (p.qos == qos1) [ true ↦ next_id | false ↦ pure p.id ]

  -- What uiot_mqtt_publish does behind its serializer.
  unfoldable pub transmit : ℕ → ℕ → ℕ → ℕ → Act hal.World (Unit {0})
  transmit qos len id timer = elim (ltb qos0 qos) [
    | true ↦ (do push_pub_info len id; send_or drop_pub len timer)
    | false ↦ send_mqtt_packet hal fuel len timer
  ]

  -- uiot_mqtt_publish
  unfoldable pub mqtt_publish : List ℕ → PublishParams → Act hal.World ℕ
  mqtt_publish topic p = do
    check_topic topic
    fail_if (p.qos == qos2) err_mqtt_qos_not_support
    check_connected
    timeout ← gets (λ c. c.command_timeout_ms)
    timer ← countdown_ms hal timeout
    id ← publish_id p
    buf ← gets (λ c. c.write_buf)
    size ← gets (λ c. c.write_buf_size)
    len ← store_packet (serialize_publish buf size 0 p.qos p.retained id topic p.payload)
    transmit p.qos len id timer
    pure id

  abbrev pub handle_of : List ℕ → SubscribeParams → SubTopicHandle
  handle_of topic p = record {
    topic_filter = some topic;
    message_handler = p.on_message_handler;
    message_handler_data = p.user_data;
    qos = p.qos;
  }

  -- uiot_mqtt_subscribe
  unfoldable pub mqtt_subscribe : List ℕ → SubscribeParams → Act hal.World ℕ
  unfolding no_memory next_id
  mqtt_subscribe topic p = do
    check_topic topic
    fail_if (p.qos == qos2) err_mqtt_qos_not_support
    check_connected
    no_memory (length topic + 1)
    timeout ← gets (λ c. c.command_timeout_ms)
    timer ← countdown_ms hal timeout
    id ← next_id
    buf ← gets (λ c. c.write_buf)
    size ← gets (λ c. c.write_buf_size)
    len ← store_packet (serialize_subscribe buf size 0 id 1 topic (p.qos ∷ []))
    push_sub_info len id subscribe (handle_of topic p)
    send_or drop_sub len timer
    pure id

  -- The loop of uiot_mqtt_resubscribe, over the table as it is: a subscription that is sent again
  -- does not change the table.
  unfoldable pub resubscribe_loop : List SubTopicHandle → Act hal.World (Unit {0})
  resubscribe_loop [] = pure tt
  resubscribe_loop (h ∷ hs) = elim h.topic_filter [
    | none ↦ resubscribe_loop hs
    | some topic ↦ do
      mqtt_subscribe topic (record {
        qos = h.qos;
        on_message_handler = h.message_handler;
        user_data = h.message_handler_data;
      })
      resubscribe_loop hs
  ]

  -- uiot_mqtt_resubscribe
  unfoldable pub mqtt_resubscribe : Act hal.World (Unit {0})
  mqtt_resubscribe = do
    check_connected
    handles ← gets (λ c. c.sub_handles)
    resubscribe_loop handles

  abbrev pub unsubscribe_handle : List ℕ → SubTopicHandle
  unsubscribe_handle topic = record {
    topic_filter = some topic;
    message_handler = none;
    message_handler_data = 0;
    qos = 0;
  }

  -- The loop of uiot_mqtt_unsubscribe; the result is `suber_exists`.
  unfoldable pub forget_handles : List ℕ → Act hal.World Bool
  forget_handles topic s =
      let (handles, found) = remove_handles topic s.client.sub_handles in
      (ok found, record s { client = record s.client { sub_handles = handles } })

  -- uiot_mqtt_unsubscribe; the `qos` of its local handle is not set and not read, and is 0
  unfoldable pub mqtt_unsubscribe : List ℕ → Act hal.World ℕ
  unfolding no_memory next_id
  mqtt_unsubscribe topic = do
    check_topic topic
    found ← forget_handles topic
    fail_if (not found) err_mqtt_unsub_failed
    check_connected
    no_memory (length topic + 1)
    timeout ← gets (λ c. c.command_timeout_ms)
    timer ← countdown_ms hal timeout
    id ← next_id
    buf ← gets (λ c. c.write_buf)
    size ← gets (λ c. c.write_buf_size)
    len ← store_packet (serialize_unsubscribe buf size 0 id 1 topic)
    push_sub_info len id unsubscribe (unsubscribe_handle topic)
    send_or drop_sub len timer
    pure id
