-- ===== src/Tests/Client.antt =====
-- A client of uiot/mqtt/src on a small network: it answers with the bytes of a script and takes all
-- that is sent; each look at the clock takes one tick.
use ucloud_iot_rtthread_pack.Prelude.{
  negsuc, inl, ◌++◌, ℕ, ◌+◌, ◌≤◌, ◌≡◌, ◌≢◌, refl, List, [], ◌∷◌, Bool, true, false, none, some, ok,
  fault, arith, length, replicate, take, drop, All, ℤ, pos, ltb, if◌then◌else◌,
}
use ucloud_iot_rtthread_pack.Codes.{err_mqtt_no_conn}
use ucloud_iot_rtthread_pack.Mqtt.State.{
  SubTopicHandle, ConnectParams, Client, max_repub_num, PubInfo, normal,
}
use ucloud_iot_rtthread_pack.Mqtt.Pending.{
  is_identical, free, find_slot, has_pair, mask_pub_info, notify,
}
use ucloud_iot_rtthread_pack.Mqtt.Session.{
  mqtt_connect, connect_client, send_connect, accept_connack, mqtt_disconnect, handle_disconnect,
}
use ucloud_iot_rtthread_pack.Mqtt.Act.{
  Hal, St, countdown_ms, countdown, has_expired, left_ms, list_iterator,
}
use ucloud_iot_rtthread_pack.Mqtt.Handlers.{
  store_packet, wait_for_read, cycle_for_read, process_packet, dispatch, note_alive,
}
use ucloud_iot_rtthread_pack.Mqtt.Connect.{
  serialize_connect, connect_rem_len, connect_flags, write_protocol, write_optional,
}
use ucloud_iot_rtthread_pack.Mqtt.RemLen.{packet_len, write_rem_len, read_rem_len}
use ucloud_iot_rtthread_pack.Mqtt.Header.{init_packet_header}
use ucloud_iot_rtthread_pack.Mqtt.Bytes.{
  write_char, write_uint16, write_bytes, write_utf8_string, read_char, read_uint16, skip,
}
use ucloud_iot_rtthread_pack.Mqtt.Net.{
  send_mqtt_packet, send_loop, write_from, read_mqtt_packet, decode_rem_len, read_net, read_into,
  first_byte, wait_ms, rest_wait_ms, store_rem_len, receive_body, read_body, packet_type, overwrite,
}
use ucloud_iot_rtthread_pack.Mqtt.Serialize.{serialize_zero_payload}
use ucloud_iot_rtthread_pack.Mqtt.Topic.{str_equal}
use ucloud_iot_rtthread_pack.Mqtt.Deserialize.{
  Message, deserialize_publish, read_string_with_len, read_packet_id, Suback, deserialize_connack,
  deserialize_ack, deserialize_unsuback, deserialize_suback, read_granted,
}
use ucloud_iot_rtthread_pack.Mqtt.Topic.{is_topic_equals}
use ucloud_iot_rtthread_pack.Mqtt.Net.Send.{MakesProgress, send_mqtt_packet_total}
use ucloud_iot_rtthread_pack.Mqtt.Handlers.{
  handle_puback, handle_publish, receiver, belongs, c_string,
}
use ucloud_iot_rtthread_pack.Mqtt.Handlers.FixTopic.{IsChar, handle_publish_full}
use ucloud_iot_rtthread_pack.Mqtt.Requests.{
  PublishParams, SubscribeParams, mqtt_publish, mqtt_unsubscribe,
}
use ucloud_iot_rtthread_pack.Mqtt.Requests.Unsubscribe.{mqtt_unsubscribe_wildcard}
use ucloud_iot_rtthread_pack.Mqtt.Requests.Bounds.{mqtt_publish_bound}
use ucloud_iot_rtthread_pack.Mqtt.Session.Yield.{pub_info_proc, sweep, visit_pub}
use ucloud_iot_rtthread_pack.Mqtt.Session.Yield.Acknowledged.{pub_info_proc-handle_puback}
use ucloud_iot_rtthread_pack.Mqtt.Session.Liveness.{
  IsFresh, mqtt_connect-IsFresh, handle_disconnect_disconnects,
}

pub record Network : Type 0 where
  pub time : ℕ
  pub input : List ℕ

abbrev answer : ℕ → Network → ℤ × List ℕ × Network
answer n w =
    if ltb (length w.input) n
    then (pos 0, [], w)
    else (pos n, take n w.input, record w { input = drop n w.input })

abbrev pub script : Hal
script = record {
  World = Network;
  read = λ n _ w. answer n w;
  write = λ bytes _ w. (pos (length bytes), w);
  connect = λ w. (pos 0, w);
  disconnect = λ w. w;
  tick = λ w. (w.time, record w { time = w.time + 1 });
  malloc = λ _ w. (true, w);
  ticks_of_ms = λ ms. ms;
}

abbrev options : ConnectParams
options = record {
  client_id = b'i' ∷ b'd' ∷ [];
  username = some (b'u' ∷ []);
  password = some (b'p' ∷ []);
  mqtt_version = 4;
  keep_alive_interval = 60;
  clean_session = true;
  auto_connect_enable = true;
}

abbrev handle : List ℕ → SubTopicHandle
handle topic = record {
  topic_filter = some topic;
  message_handler = some 1;
  message_handler_data = 0;
  qos = 1;
}

abbrev unused : SubTopicHandle
unused = record { topic_filter = none; message_handler = none; message_handler_data = 0; qos = 0 }

abbrev topic : List ℕ
topic = b'a' ∷ b'/' ∷ b'b' ∷ []

abbrev other : List ℕ
other = b'c' ∷ []

abbrev pub client : Bool → Client
client is_connected = record {
  is_connected = is_connected;
  was_manually_disconnected = false;
  is_ping_outstanding = 1;
  next_packet_id = 65535;
  command_timeout_ms = 1000;
  current_reconnect_wait_interval = 1000;
  counter_network_disconnected = 0;
  write_buf_size = 64;
  read_buf_size = 32;
  write_buf = replicate 64 0;
  read_buf = replicate 32 0;
  list_pub_wait_ack = [];
  list_sub_wait_ack = [];
  has_event_handler = true;
  options = options;
  ping_timer = 0;
  reconnect_delay_timer = 0;
  sub_handles = handle topic ∷ unused ∷ handle other ∷ [];
  trace = [];
}

-- CONNACK with return code 0
abbrev connack_packet : List ℕ
connack_packet = 0x20 ∷ 2 ∷ 0 ∷ 0 ∷ []

abbrev pub start : Bool → List ℕ → St Network
start is_connected input = record {
  client = client is_connected;
  world = record { time = 5; input = input };
}

find_slot_1 : find_slot (handle (b'd' ∷ [])) (client true).sub_handles 0 none ≡ free (some 1)
unfolding find_slot is_identical str_equal
find_slot_1 = refl

no_pair : (has_pair b'/' b'#' topic ≡ false) × (has_pair b'/' b'+' topic ≡ false)
unfolding has_pair
no_pair = (refl, refl)

abbrev wildcard : List ℕ
wildcard = b'z' ∷ b'/' ∷ b'#' ∷ []

mqtt_unsubscribe_wildcard_example :
    All
      (λ h. h.topic_filter ≡ none)
      (mqtt_unsubscribe script 9 wildcard (start true [])).1.client.sub_handles
mqtt_unsubscribe_wildcard_example =
    mqtt_unsubscribe_wildcard script 9 (b'z' ∷ []) [] b'#' (start true []) (inl refl) (omega arith)

connects : (mqtt_connect script 9 options (start false connack_packet)).0 ≡ ok tt
unfolding mqtt_connect connect_client send_connect accept_connack countdown_ms countdown has_expired
    left_ms store_packet wait_for_read cycle_for_read process_packet dispatch note_alive
    serialize_connect connect_rem_len connect_flags write_protocol write_optional packet_len
    write_rem_len init_packet_header write_char write_uint16 write_bytes write_utf8_string read_char
    read_uint16 skip send_mqtt_packet send_loop write_from read_mqtt_packet read_net read_into
    first_byte wait_ms rest_wait_ms store_rem_len receive_body read_body packet_type overwrite
    decode_rem_len read_rem_len deserialize_connack
connects = refl

mqtt_connect-IsFresh_example :
    IsFresh (mqtt_connect script 9 options (start false connack_packet)).1.client
mqtt_connect-IsFresh_example =
    mqtt_connect-IsFresh script 9 options (start false connack_packet) connects

disconnects : (mqtt_disconnect script 9 (start true [])).0 ≢ fault
unfolding mqtt_disconnect serialize_zero_payload countdown_ms countdown has_expired left_ms
    store_packet write_rem_len init_packet_header write_char send_mqtt_packet send_loop write_from
disconnects e = cc

handle_disconnect_disconnects_example :
    ((handle_disconnect script 9 (start true [])).0 ≡ ok err_mqtt_no_conn)
    × ((handle_disconnect script 9 (start true [])).1.client.is_connected ≡ false)
handle_disconnect_disconnects_example =
    handle_disconnect_disconnects script 9 (start true []) disconnects

-- A network that takes one byte at a time, and whose clock stands still.
abbrev quiet : Hal
quiet = record script { write = λ bytes _ w. (pos 1, w); tick = λ w. (w.time, w) }

takes_all : MakesProgress quiet
takes_all bytes timeout w e = cc

send_mqtt_packet_total_example : (send_mqtt_packet quiet 8 7 100 (start true [])).0 ≢ fault
send_mqtt_packet_total_example =
    send_mqtt_packet_total quiet takes_all 8 7 100 (start true []) (omega arith) (omega arith)

-- A client that has just read a packet with the identifier 7.
abbrev holding : List ℕ → St Network
holding packet = record {
  client = record (client true) { read_buf = packet };
  world = record { time = 5; input = [] };
}

abbrev puback_packet : List ℕ
puback_packet = 0x40 ∷ 2 ∷ 0 ∷ 7 ∷ []

puback_read :
    deserialize_ack puback_packet 32 ≡ ok (record { packet_type = 4; dup = 0; packet_id = 7 })
unfolding deserialize_ack read_char read_rem_len read_uint16
puback_read = refl

abbrev waits : ℕ → PubInfo
waits id = record { pub_start_time = 90; node_state = normal; msg_id = id; buf = [] }

-- The acknowledged packet waits between two others.
abbrev three_waiting : St Network
three_waiting = record {
  client = record (client true) {
    read_buf = puback_packet;
    list_pub_wait_ack = waits 6 ∷ waits 7 ∷ waits 8 ∷ [];
  };
  world = record { time = 5; input = [] };
}

second_walk :
    (list_iterator script
      (handle_puback script three_waiting).1.client.list_pub_wait_ack
      (handle_puback script three_waiting).1.world).0
    ≡ true
unfolding handle_puback mask_pub_info notify deserialize_ack read_char read_rem_len read_uint16
second_walk = refl

pub_info_proc-handle_puback_example :
    All
      (λ p. p.msg_id ≢ 7)
      (pub_info_proc script 9 (handle_puback script three_waiting).1).1.client.list_pub_wait_ack
pub_info_proc-handle_puback_example =
    pub_info_proc-handle_puback script 9 three_waiting
      (record { packet_type = 4; dup = 0; packet_id = 7 }) puback_read refl second_walk

-- The others stay.
two_left :
    (pub_info_proc script 9 (handle_puback script three_waiting).1).1.client.list_pub_wait_ack
    ≡ waits 6 ∷ waits 8 ∷ []
unfolding pub_info_proc sweep visit_pub handle_puback mask_pub_info notify deserialize_ack read_char
    read_rem_len read_uint16 left_ms
two_left = refl

abbrev unsuback_packet : List ℕ
unsuback_packet = 0xb0 ∷ 2 ∷ 0 ∷ 7 ∷ []

unsuback_read : deserialize_unsuback unsuback_packet 32 ≡ ok 7
unfolding deserialize_unsuback deserialize_ack read_char read_rem_len read_uint16
unsuback_read = refl

abbrev suback_bytes : List ℕ
suback_bytes = 0x90 ∷ 3 ∷ 0 ∷ 7 ∷ 1 ∷ []

abbrev suback_ack : Suback
suback_ack = record { packet_id = 7; count = 1; granted_qoss = 1 ∷ 0 ∷ 0 ∷ [] }

suback_read : deserialize_suback 1 (0 ∷ 0 ∷ 0 ∷ []) suback_bytes 32 ≡ ok suback_ack
unfolding deserialize_suback read_granted read_char read_rem_len read_uint16
suback_read = refl

receives : receiver (topic ++ 0 ∷ []) 3 (client true).sub_handles ≡ ok (some (handle topic))
unfolding receiver belongs c_string is_topic_equals str_equal
receives = refl

abbrev params : PublishParams
params = record { qos = 1; retained = 0; id = 0; payload = 1 ∷ 2 ∷ [] }

mqtt_publish_bound_example :
    length (mqtt_publish script 9 topic params (start true [])).1.client.list_pub_wait_ack
    ≤ max_repub_num
mqtt_publish_bound_example = mqtt_publish_bound script 9 topic params (start true []) (omega arith)

abbrev wish : SubscribeParams
wish = record { qos = 1; on_message_handler = some 2; user_data = 0 }

long : All IsChar (replicate 128 b'a')
long = ground arith

abbrev long_packet : List ℕ
long_packet = 0x30 ∷ 131 ∷ 1 ∷ 0 ∷ 128 ∷ (replicate 128 b'a' ++ b'!' ∷ [])

abbrev overlong : St Network
overlong = record {
  client = record (client true) { read_buf = long_packet; read_buf_size = 134 };
  world = record { time = 5; input = [] };
}

abbrev long_message : Message
long_message = record {
  dup = 0;
  qos = 0;
  retained = 0;
  id = 0;
  topic_name = record { pos = 5; rest = replicate 128 b'a' ++ b'!' ∷ [] };
  topic_len = 128;
  payload = record { pos = 133; rest = b'!' ∷ [] };
  payload_len = 1;
}

long_read : deserialize_publish 0 long_packet 134 ≡ ok long_message
unfolding deserialize_publish read_string_with_len read_packet_id read_char read_rem_len read_uint16
    skip
long_read = refl

handle_publish_full_example : (handle_publish script 9 100 overlong).0 ≡ fault
handle_publish_full_example =
    handle_publish_full script 9 100 overlong long_message (replicate 128 b'a') (b'!' ∷ [])
      long_read refl refl refl long (inl (topic, refl))

-- A network that refuses every connection.
abbrev refusing : Hal
refusing = record script { connect = λ w. (negsuc 4, w) }

abbrev gave_up : St Network
gave_up = record { client = client false; world = record { time = 7; input = [] } }

-- Behind the look at the clock that finds the delay over.
abbrev over : St Network
over = record { client = client false; world = record { time = 6; input = [] } }
