-- ===== src/Mqtt/Handlers.antt =====
-- uiot/mqtt/src/mqtt_client_common.c: what the client does with each packet that it receives. The
-- duplicate check under MQTT_CHECK_REPEAT_MSG, a macro that no build file of the repository sets, is
-- left out.
pub mod Acks
pub mod Delivery
pub mod FixTopic
use ucloud_iot_rtthread_pack.Prelude.{
  ℕ, zero, suc, ◌-◌, Bool, true, false, not, ◌||◌, Option, none, some, List, [], ◌∷◌, ◌++◌, ltb,
  leb, ◌==◌, if◌then◌else◌, length, take, replicate, set, eq_ℤ, Outcome, ok, err, fault,
}
use ucloud_iot_rtthread_pack.Codes.{
  failure_ret, err_mqtt_sub_failed, err_mqtt_nothing_to_read, err_mqtt_request_timeout,
  err_mqtt_rx_message_packet_type_invalid,
}
use ucloud_iot_rtthread_pack.Mqtt.Bytes.{Reader, Writer}
use ucloud_iot_rtthread_pack.Mqtt.Header.{
  MessageType, type_code, connack, publish, puback, pubrec, pubrel, pubcomp, suback, unsuback,
  pingresp, qos0, qos1,
}
use ucloud_iot_rtthread_pack.Mqtt.Serialize.{serialize_pub_ack}
use ucloud_iot_rtthread_pack.Mqtt.Deserialize.{
  Message, deserialize_ack, deserialize_suback, deserialize_unsuback, deserialize_publish,
}
use ucloud_iot_rtthread_pack.Mqtt.Topic.{is_topic_equals, is_topic_matched}
use ucloud_iot_rtthread_pack.Mqtt.State.{
  max_size_of_cloud_topic, SubTopicHandle, publish_success, subscribe_success, subscribe_nack,
  unsubscribe_success, publish_received, message, Client,
}
use ucloud_iot_rtthread_pack.Mqtt.Act.{
  Hal, Act, ◌>>=◌, ◌>>◌, pure, fail, fail_if, lift, gets, modify, crash, code, return_code,
  has_expired, countdown, outside, list_iterator,
}
use ucloud_iot_rtthread_pack.Mqtt.Pending.{
  notify, mask_pub_info, mask_sub_info, masked_handler, Slot, duplicate, free, find_slot,
}
use ucloud_iot_rtthread_pack.Mqtt.Net.{send_mqtt_packet, read_mqtt_packet}

-- The bytes of a char array up to its NUL; without one strlen runs out of the array.
unfoldable pub c_string : List ℕ → Outcome (List ℕ)
c_string [] = fault
c_string (b ∷ bs) = elim (b == 0) [
  | true ↦ ok []
  | false ↦ elim (c_string bs) [ ok s ↦ ok (b ∷ s) | err e ↦ err e | fault ↦ fault ]
]

-- memcpy out of the packet: `count` bytes from the reader on.
unfoldable pub copy_out : ℕ → Reader → Outcome (List ℕ)
copy_out count r = if leb count (length r.rest) then ok (take count r.rest) else fault

-- The test of _deliver_message on one topic filter; `topic` is the array fix_topic.
unfoldable pub belongs : List ℕ → ℕ → List ℕ → Outcome Bool
unfolding c_string
belongs topic topic_len filter = elim (c_string topic) [
  | ok name ↦
      if is_topic_equals name filter
      then ok true
      else elim (is_topic_matched filter (take topic_len topic)) [ some b ↦ ok b | none ↦ fault ]
  | err e ↦ err e
  | fault ↦ fault
]

-- The loop of _deliver_message: the first subscription that the topic belongs to and that has a
-- handler.
unfoldable pub receiver : List ℕ → ℕ → List SubTopicHandle → Outcome (Option SubTopicHandle)
receiver topic topic_len [] = ok none
receiver topic topic_len (h ∷ hs) =
    let later = receiver topic topic_len hs in
    elim h.topic_filter [
      | none ↦ later
      | some filter ↦ elim (belongs topic topic_len filter) [
        | ok true ↦ elim h.message_handler [ some _ ↦ ok (some h) | none ↦ later ]
        | ok false ↦ later
        | err e ↦ err e
        | fault ↦ fault
      ]
    ]

-- The call of a subscription's handler, or of the default one.
hand_over : Option SubTopicHandle → List ℕ → Message → Client → Client
hand_over none topic m c = notify (publish_received topic m.payload m.payload_len) c
hand_over (some h) topic m c = elim h.message_handler [
  | none ↦ c
  | some handler ↦ record c {
    trace = c.trace ++ message handler h.message_handler_data topic m.payload m.payload_len ∷ [];
  }
]

-- _deliver_message
unfoldable pub deliver_message : {W : Type 0} → List ℕ → ℕ → Message → Act W (Unit {0})
unfolding hand_over
deliver_message topic topic_len m = do
  handles ← gets (λ c. c.sub_handles)
  found ← lift (receiver topic topic_len handles)
  modify (hand_over found (take topic_len topic) m)

-- The packet in write_buf; the result is its length.
unfoldable pub store_packet : {W : Type 0} → Outcome Writer → Act W ℕ
store_packet packet = do
  w ← lift packet
  modify (λ c. record c { write_buf = w.done ++ w.room })
  pure (length w.done)

-- _handle_puback_packet; without an iterator _mask_pubInfo_from leaves the list
unfoldable pub handle_puback : (hal : Hal) → Act hal.World (Unit {0})
handle_puback hal = do
  buf ← gets (λ c. c.read_buf)
  size ← gets (λ c. c.read_buf_size)
  ack ← lift (deserialize_ack buf size)
  waiting ← gets (λ c. c.list_pub_wait_ack)
  granted ← outside (list_iterator hal waiting)
  modify (λ c. record c {
    list_pub_wait_ack = if granted then mask_pub_info ack.packet_id waiting else waiting;
  })
  modify (notify (publish_success ack.packet_id))

-- `for (j = 0; j < count; j++)`: is one of the first codes 0x80?
unfoldable pub has_nack : ℕ → List ℕ → Bool
has_nack zero codes = false
has_nack (suc n) [] = false
has_nack (suc n) (c ∷ cs) = c == 0x80 || has_nack n cs

-- memset(&sub_handle, 0, sizeof(SubTopicHandle))
abbrev pub null_handle : SubTopicHandle
null_handle = record {
  topic_filter = none;
  message_handler = none;
  message_handler_data = 0;
  qos = 0;
}

abbrev pub or_null : Option SubTopicHandle → SubTopicHandle
or_null none = null_handle
or_null (some h) = h

-- The table after the loop of _handle_suback_packet.
install : {W : Type 0} → SubTopicHandle → Slot → Act W (Unit {0})
install h duplicate = pure tt
install h (free none) = fail failure_ret
install h (free (some i)) = modify (λ c. record c { sub_handles = set c.sub_handles i h })

subscribed : {W : Type 0} → ℕ → Bool → SubTopicHandle → Act W (Unit {0})
unfolding install
subscribed packet_id true h = do
  modify (notify (subscribe_nack packet_id))
  fail err_mqtt_sub_failed
subscribed packet_id false h = do
  handles ← gets (λ c. c.sub_handles)
  install h (find_slot h handles 0 none)
  modify (notify (subscribe_success packet_id))

-- _handle_suback_packet; without an iterator _mask_sub_info_from stores nothing and leaves the list
unfoldable pub handle_suback : (hal : Hal) → Act hal.World (Unit {0})
unfolding subscribed
handle_suback hal = do
  buf ← gets (λ c. c.read_buf)
  size ← gets (λ c. c.read_buf_size)
  ack ← lift (deserialize_suback 1 (0 ∷ 0 ∷ 0 ∷ []) buf size)
  waiting ← gets (λ c. c.list_sub_wait_ack)
  granted ← outside (list_iterator hal waiting)
  modify (λ c. record c {
    list_sub_wait_ack = if granted then mask_sub_info ack.packet_id waiting else waiting;
  })
  let h = or_null (if granted then masked_handler ack.packet_id waiting else none)
  elim h.topic_filter [
    | none ↦ fail err_mqtt_sub_failed
    | some _ ↦ subscribed ack.packet_id (has_nack ack.count ack.granted_qoss) h
  ]

-- `if (messageHandler.topic_filter) HAL_Free(...)`: where the walk has stored nothing, the handler is
-- an uninitialised variable, and its use a fault.
free_topic_filter : {W : Type 0} → Option SubTopicHandle → Act W (Unit {0})
free_topic_filter none = crash
free_topic_filter (some h) = pure tt

-- _handle_unsuback_packet
unfoldable pub handle_unsuback : (hal : Hal) → Act hal.World (Unit {0})
unfolding free_topic_filter
handle_unsuback hal = do
  buf ← gets (λ c. c.read_buf)
  size ← gets (λ c. c.read_buf_size)
  packet_id ← lift (deserialize_unsuback buf size)
  waiting ← gets (λ c. c.list_sub_wait_ack)
  granted ← outside (list_iterator hal waiting)
  modify (λ c. record c {
    list_sub_wait_ack = if granted then mask_sub_info packet_id waiting else waiting;
  })
  free_topic_filter (if granted then masked_handler packet_id waiting else none)
  modify (notify (unsubscribe_success packet_id))

-- `if (topic_len > MAX_SIZE_OF_CLOUD_TOPIC) topic_len = MAX_SIZE_OF_CLOUD_TOPIC - 1;`
abbrev pub clamp_topic_len : ℕ → ℕ
clamp_topic_len n = if ltb max_size_of_cloud_topic n then max_size_of_cloud_topic - 1 else n

-- fix_topic after the memcpy: 128 bytes, zero behind the topic
abbrev pub fix_topic : ℕ → List ℕ → List ℕ
fix_topic topic_len topic = topic ++ replicate (max_size_of_cloud_topic - topic_len) 0

abbrev pub reply_type : ℕ → MessageType
reply_type qos = if qos == qos1 then puback else pubrec

module _ (hal : Hal) (fuel : ℕ) where
  -- The reply to a PUBLISH packet of QoS 1 or more, and to a PUBREC packet.
  unfoldable pub send_ack : MessageType → ℕ → ℕ → Act hal.World (Unit {0})
  send_ack type packet_id timer = do
    buf ← gets (λ c. c.write_buf)
    size ← gets (λ c. c.write_buf_size)
    len ← store_packet (serialize_pub_ack buf size type 0 packet_id)
    send_mqtt_packet hal fuel len timer

  -- _handle_publish_packet; the uninitialised `msg.id` of QoS 0 is 0
  unfoldable pub handle_publish : ℕ → Act hal.World (Unit {0})
  handle_publish timer = do
    buf ← gets (λ c. c.read_buf)
    size ← gets (λ c. c.read_buf_size)
    m ← lift (deserialize_publish 0 buf size)
    let topic_len = clamp_topic_len m.topic_len
    topic ← lift (copy_out topic_len m.topic_name)
    deliver_message (fix_topic topic_len topic) topic_len m
    elim (m.qos == qos0) [ true ↦ pure tt | false ↦ send_ack (reply_type m.qos) m.id timer ]

  -- _handle_pubrec_packet
  unfoldable pub handle_pubrec : ℕ → Act hal.World (Unit {0})
  handle_pubrec timer = do
    buf ← gets (λ c. c.read_buf)
    size ← gets (λ c. c.read_buf_size)
    ack ← lift (deserialize_ack buf size)
    send_ack pubrel ack.packet_id timer

  -- _handle_pingresp_packet
  unfoldable pub handle_pingresp : Act hal.World (Unit {0})
  handle_pingresp = do
    modify (λ c. record c { is_ping_outstanding = 0 })
    interval ← gets (λ c. c.options.keep_alive_interval)
    timer ← countdown hal interval
    modify (λ c. record c { ping_timer = timer })

  abbrev is_type : ℕ → MessageType → Bool
  is_type t type = t == type_code type

  -- The first switch of cycle_for_read.
  unfoldable pub dispatch : ℕ → ℕ → Act hal.World (Unit {0})
  dispatch t timer =
      if is_type t connack
      then pure tt
      else if is_type t puback
      then handle_puback hal
      else if is_type t suback
      then handle_suback hal
      else if is_type t unsuback
      then handle_unsuback hal
      else if is_type t publish
      then handle_publish timer
      else if is_type t pubrec
      then handle_pubrec timer
      else if is_type t pubrel
      then pure tt
      else if is_type t pubcomp
      then pure tt
      else if is_type t pingresp
      then pure tt
      else fail err_mqtt_rx_message_packet_type_invalid

  abbrev pub is_handled : ℕ → Bool
  is_handled t =
      is_type t connack
      || is_type t puback
      || is_type t suback
      || is_type t unsuback
      || is_type t publish
      || is_type t pubrec
      || is_type t pubrel
      || is_type t pubcomp
      || is_type t pingresp

  -- The second switch: what counts as a sign of life.
  unfoldable pub note_alive : ℕ → Act hal.World (Unit {0})
  note_alive t =
      if is_type t puback || is_type t suback || is_type t unsuback || is_type t pingresp
      then handle_pingresp
      else if is_type t publish
      then modify (λ c. record c { is_ping_outstanding = 0 })
      else pure tt

  -- cycle_for_read behind _read_mqtt_packet; an unknown type returns before the second switch
  unfoldable pub process_packet : ℕ → ℕ → Act hal.World (Unit {0})
  process_packet t timer = do
    fail_if (not (is_handled t)) err_mqtt_rx_message_packet_type_invalid
    ret ← code (dispatch t timer)
    note_alive t
    return_code ret

  -- ERR_MQTT_NOTHING_TO_READ is no failure, and leaves *packet_type as it was.
  received : ℕ → ℕ → Outcome ℕ → Act hal.World ℕ
  received old timer (ok t) = do process_packet t timer; pure t
  received old timer (err e) = if eq_ℤ e err_mqtt_nothing_to_read then pure old else fail e
  received old timer fault = crash

  -- cycle_for_read; `old` is *packet_type before the call, the result is *packet_type after it
  unfoldable pub cycle_for_read : ℕ → ℕ → Act hal.World ℕ
  unfolding received
  cycle_for_read old timer s =
      received old timer (read_mqtt_packet hal timer s).0 (read_mqtt_packet hal timer s).1

  -- wait_for_read, on rounds; `read_type` is read_packet_type, 0 at first
  unfoldable pub wait_for_read : ℕ → ℕ → ℕ → ℕ → Act hal.World (Unit {0})
  wait_for_read zero read_type packet_type timer = crash
  wait_for_read (suc rounds) read_type packet_type timer = do
    expired ← has_expired hal timer
    fail_if expired err_mqtt_request_timeout
    t ← cycle_for_read read_type timer
    elim (t == packet_type) [ true ↦ pure tt | false ↦ wait_for_read rounds t packet_type timer ]
