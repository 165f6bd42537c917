-- ===== src/Mqtt/State.antt =====
-- uiot/mqtt/include/mqtt_client.h: the client, its lists of requests that wait for an
-- acknowledgement, and its table of subscriptions. A callback is a number that names it; what the
-- client calls is recorded in `trace`. Locks are left out: one thread at a time is modelled.
use ucloud_iot_rtthread_pack.Prelude.{ℕ, ◌*◌, Bool, Option, List}
use ucloud_iot_rtthread_pack.Mqtt.Header.{MessageType}
use ucloud_iot_rtthread_pack.Mqtt.Bytes.{Reader}

-- MAX_PACKET_ID
abbrev pub max_packet_id : ℕ
max_packet_id = 65535

-- MAX_SUB_TOPICS
abbrev pub max_sub_topics : ℕ
max_sub_topics = 10

-- MAX_REPUB_NUM
abbrev pub max_repub_num : ℕ
max_repub_num = 20

-- MIN_RECONNECT_WAIT_INTERVAL
abbrev pub min_reconnect_wait_interval : ℕ
min_reconnect_wait_interval = 1000

-- MAX_RECONNECT_WAIT_INTERVAL
abbrev pub max_reconnect_wait_interval : ℕ
max_reconnect_wait_interval = 60 * 1000

-- MAX_SIZE_OF_CLOUD_TOPIC
abbrev pub max_size_of_cloud_topic : ℕ
max_size_of_cloud_topic = 128

-- MQTTNodeState
pub data NodeState : Type 0 where
  normal invalid : NodeState

-- SubTopicHandle; no topic filter is a null pointer
pub record SubTopicHandle : Type 0 where
  pub topic_filter : Option (List ℕ)
  pub message_handler : Option ℕ
  pub message_handler_data : ℕ
  pub qos : ℕ

-- UIoTPubInfo
pub record PubInfo : Type 0 where
  pub pub_start_time : ℕ
  pub node_state : NodeState
  pub msg_id : ℕ
  pub buf : List ℕ

-- UIoTSubInfo
pub record SubInfo : Type 0 where
  pub type : MessageType
  pub msg_id : ℕ
  pub sub_start_time : ℕ
  pub node_state : NodeState
  pub handler : SubTopicHandle
  pub buf : List ℕ

-- MQTTConnectParams
pub record ConnectParams : Type 0 where
  pub client_id : List ℕ
  pub username : Option (List ℕ)
  pub password : Option (List ℕ)
  pub mqtt_version : ℕ
  pub keep_alive_interval : ℕ
  pub clean_session : Bool
  pub auto_connect_enable : Bool

-- What the application is told: the events of MQTTEventType, and the calls of a message handler with
-- its user data, the topic, and the place and length of the payload.
pub data Event : Type 0 where
  disconnected : Event
  reconnected : Event
  subscribe_success : ℕ → Event
  subscribe_timeout : ℕ → Event
  subscribe_nack : ℕ → Event
  unsubscribe_success : ℕ → Event
  unsubscribe_timeout : ℕ → Event
  publish_success : ℕ → Event
  publish_timeout : ℕ → Event
  publish_received : List ℕ → Reader → ℕ → Event
  message : ℕ → ℕ → List ℕ → Reader → ℕ → Event

-- UIoT_Client
pub record Client : Type 0 where
  pub is_connected : Bool
  pub was_manually_disconnected : Bool
  pub is_ping_outstanding : ℕ
  pub next_packet_id : ℕ
  pub command_timeout_ms : ℕ
  pub current_reconnect_wait_interval : ℕ
  pub counter_network_disconnected : ℕ
  pub write_buf_size : ℕ
  pub read_buf_size : ℕ
  pub write_buf : List ℕ
  pub read_buf : List ℕ
  pub list_pub_wait_ack : List PubInfo
  pub list_sub_wait_ack : List SubInfo
  pub has_event_handler : Bool
  pub options : ConnectParams
  pub ping_timer : ℕ
  pub reconnect_delay_timer : ℕ
  pub sub_handles : List SubTopicHandle
  pub trace : List Event
