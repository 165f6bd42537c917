-- ===== src/Mqtt/Construct.antt =====
-- uiot/mqtt/src/mqtt_client.c: the construction of a client with its credentials, its end, and the
-- registration of a device that has no secret yet. The name of the server is a constant that fits in
-- s_uiot_host, so that test is left out; a mutex is a call of the parameter `mutex`.
pub mod Ready
pub mod Credentials
pub mod Secret
use Prim.Native.String.{String}
use ucloud_iot_rtthread_pack.Prelude.{
  ℕ, ◌+◌, ◌-◌, Bool, true, false, not, Option, none, some, List, [], ◌∷◌, ◌++◌, ltb, ◌==◌,
  if◌then◌else◌, length, take, replicate, u16, ℤ, pos, eq_ℤ, is_pos, Text, codes, Outcome, ok, err,
  fault,
}
use ucloud_iot_rtthread_pack.Codes.{success_ret, failure_ret}
use ucloud_iot_rtthread_pack.Mqtt.State.{
  max_sub_topics, max_size_of_cloud_topic, SubTopicHandle, ConnectParams, Client,
}
use ucloud_iot_rtthread_pack.Mqtt.Deserialize.{rx_buf_len}
use ucloud_iot_rtthread_pack.Mqtt.Act.{
  Hal, Act, ◌>>=◌, ◌>>◌, pure, fail_if, modify, outside, code, St,
}
use ucloud_iot_rtthread_pack.Mqtt.Requests.{
  PublishParams, SubscribeParams, mqtt_publish, mqtt_subscribe, mqtt_unsubscribe,
}
use ucloud_iot_rtthread_pack.Mqtt.Session.{set_conn_state, mqtt_connect, mqtt_disconnect}
use ucloud_iot_rtthread_pack.Mqtt.Session.Yield.{mqtt_yield}
use ucloud_iot_rtthread_pack.Ota.Message.{decimal}

-- MQTTInitParams; no secret is a null pointer
pub record InitParams : Type 0 where
  pub product_sn : Text
  pub device_sn : Text
  pub product_secret : Option Text
  pub device_secret : Option Text
  pub command_timeout : ℕ
  pub keep_alive_interval : ℕ
  pub clean_session : Bool
  pub auto_connect_enable : Bool
  pub has_event_handler : Bool

-- UIOT_MQTT_TX_BUF_LEN
abbrev pub mqtt_tx_buf_len : ℕ
mqtt_tx_buf_len = 2048

abbrev pub min_command_timeout : ℕ
min_command_timeout = 500

abbrev pub max_command_timeout : ℕ
max_command_timeout = 5000

abbrev pub clamp_timeout : ℕ → ℕ
clamp_timeout n =
    let raised = if ltb n min_command_timeout then min_command_timeout else n in
    if ltb max_command_timeout raised then max_command_timeout else raised

abbrev pub null_sub_handle : SubTopicHandle
null_sub_handle = record {
  topic_filter = none;
  message_handler = none;
  message_handler_data = 0;
  qos = 0;
}

-- memset of the client. The trace is no part of it.
abbrev pub zeroed_client : Client → Client
zeroed_client c = record {
  is_connected = false;
  was_manually_disconnected = false;
  is_ping_outstanding = 0;
  next_packet_id = 0;
  command_timeout_ms = 0;
  current_reconnect_wait_interval = 0;
  counter_network_disconnected = 0;
  write_buf_size = 0;
  read_buf_size = 0;
  write_buf = replicate mqtt_tx_buf_len 0;
  read_buf = replicate rx_buf_len 0;
  list_pub_wait_ack = [];
  list_sub_wait_ack = [];
  has_event_handler = false;
  options = record {
    client_id = [];
    username = none;
    password = none;
    mqtt_version = 0;
    keep_alive_interval = 0;
    clean_session = false;
    auto_connect_enable = false;
  };
  ping_timer = 0;
  reconnect_delay_timer = 0;
  sub_handles = replicate max_sub_topics null_sub_handle;
  trace = c.trace;
}

-- uiot_mqtt_init, up to the first mutex
unfoldable pub init_fields : InitParams → Client → Client
init_fields p c = record (zeroed_client c) {
  command_timeout_ms = clamp_timeout p.command_timeout;
  next_packet_id = 1;
  write_buf_size = mqtt_tx_buf_len;
  read_buf_size = rx_buf_len;
  has_event_handler = p.has_event_handler;
}

-- HAL_Snprintf(dst, n, ...) of a text into n bytes, of which one is for the NUL.
abbrev pub printed : ℕ → Text → Text
printed n text = take (n - 1) text

-- AuthStatus, or 0
abbrev pub auth_mode : Option Text → Option Text → ℕ
auth_mode (some secret) product = 1
auth_mode none (some secret) = 2
auth_mode none none = 0

unfoldable pub auth_mode_text : Option Text → Option Text → Text
auth_mode_text device product = decimal (pos (auth_mode device product))

abbrev pub secret_of : Option Text → Option Text → Option Text
secret_of (some secret) product = some (printed (length secret + 1) secret)
secret_of none (some secret) = some (printed (length secret + 1) secret)
secret_of none none = none

abbrev pub client_id_len : InitParams → ℕ
client_id_len p = length p.product_sn + length p.device_sn + 2

abbrev pub username_len : InitParams → ℕ
username_len p = length p.product_sn + length p.device_sn + 4

-- The parameters of the connection: "%s.%s" and "%s|%s|%d".
unfoldable pub connect_params : InitParams → ConnectParams
connect_params p = record {
  client_id = printed (client_id_len p) (p.product_sn ++ b'.' ∷ p.device_sn);
  username = some (
      printed (username_len p) (
        p.product_sn
        ++ b'|' ∷ (p.device_sn ++ b'|' ∷ auth_mode_text p.device_secret p.product_secret)));
  password = secret_of p.device_secret p.product_secret;
  mqtt_version = 4;
  keep_alive_interval = u16 p.keep_alive_interval;
  clean_session = p.clean_session;
  auto_connect_enable = p.auto_connect_enable;
}

abbrev pub is_empty : Text → Bool
is_empty [] = true
is_empty (c ∷ s) = false

module _ (hal : Hal) (mutex : hal.World → Bool × hal.World) where
  -- What is needed is there.
  abbrev pub acquire : (hal.World → Bool × hal.World) → Act hal.World (Unit {0})
  acquire f = do got ← outside f; fail_if (not got) failure_ret

  -- uiot_mqtt_init: a mutex for the client, for write_buf and for each list, and the lists. Where it
  -- fails, the caller frees the client; that its list pointers may then be NULL and its mutexes
  -- destroyed is not part of the model's client.
  unfoldable pub mqtt_init : InitParams → Act hal.World (Unit {0})
  mqtt_init p = do
    modify (init_fields p)
    acquire mutex
    modify (set_conn_state false)
    acquire mutex
    acquire mutex
    acquire mutex
    acquire (hal.malloc 0)
    acquire (hal.malloc 0)

  abbrev pub acquire_secret : Option Text → Act hal.World (Unit {0})
  acquire_secret none = pure tt
  acquire_secret (some secret) = acquire (hal.malloc (length secret + 1))

  -- IOT_MQTT_Construct, up to the connection. `malloc 0` stands for an object of a fixed size.
  unfoldable pub prepare : InitParams → Act hal.World (Unit {0})
  prepare p = do
    fail_if (is_empty p.product_sn) failure_ret
    fail_if (is_empty p.device_sn) failure_ret
    acquire (hal.malloc 0)
    mqtt_init p
    acquire (hal.malloc (client_id_len p))
    acquire (hal.malloc (username_len p))
    acquire_secret (secret_of p.device_secret p.product_secret)

module _ (hal : Hal) (mutex : hal.World → Bool × hal.World) (fuel : ℕ) where
  -- IOT_MQTT_Construct; a failure is NULL.
  unfoldable pub construct_client : InitParams → Act hal.World (Unit {0})
  construct_client p = prepare hal mutex p >> mqtt_connect hal fuel (connect_params p)

  -- IOT_MQTT_Destroy: the client is gone.
  unfoldable pub destroy_client : Act hal.World ℤ
  destroy_client = do ret ← code (mqtt_disconnect hal fuel); modify zeroed_client; pure ret

  -- An int result, an error code included.
  abbrev pub int_of : Outcome ℕ → Outcome ℤ
  int_of (ok n) = ok (pos n)
  int_of (err e) = ok e
  int_of fault = fault

  abbrev pub code_of_int : Outcome ℤ → Outcome ℤ
  code_of_int (ok n) = ok n
  code_of_int (err e) = ok e
  code_of_int fault = fault

  abbrev pub request : Act hal.World ℕ → Act hal.World ℤ
  request m s = (int_of (m s).0, (m s).1)

  abbrev pub yielded : ℕ → Act hal.World ℤ
  yielded timeout_ms s =
      (code_of_int (mqtt_yield hal fuel timeout_ms s).0, (mqtt_yield hal fuel timeout_ms s).1)

  -- "/$system/%s/%s/..." in a buffer of MAX_SIZE_OF_CLOUD_TOPIC bytes
  abbrev pub register_topic : InitParams → String → Text
  register_topic p end =
      printed max_size_of_cloud_topic
        (codes "/$system/" ++ (p.product_sn ++ b'/' ∷ (p.device_sn ++ b'/' ∷ codes end)))

  -- IOT_MQTT_Dynamic_Register behind the subscription; the number of the callback is 0.
  unfoldable pub ask_secret : InitParams → Act hal.World ℤ
  ask_secret p = do
    _ ← yielded 200
    _ ← request (
        mqtt_publish hal fuel (register_topic p "password")
          (record { qos = 1; retained = 0; id = 0; payload = codes "{\"RequestID\":\"1\"}" }))
    ret ← yielded 5000
    if eq_ℤ ret success_ret
        then (do
          _ ← request (mqtt_unsubscribe hal fuel (register_topic p "password_reply"))
          yielded 200)
        else pure ret

  unfoldable pub register_with : InitParams → Act hal.World ℤ
  register_with p = do
    ret ← request (
        mqtt_subscribe hal fuel (register_topic p "password_reply")
          (record { qos = 1; on_message_handler = some 0; user_data = 0 }))
    if is_pos ret then ask_secret p else pure ret

  -- The calls between construction and end.
  abbrev pub with_names : InitParams → Act hal.World ℤ
  with_names p = do
    got ← outside (hal.malloc max_size_of_cloud_topic)
    if got
        then (do
          more ← outside (hal.malloc max_size_of_cloud_topic)
          if more then register_with p else pure failure_ret)
        else pure failure_ret

  -- IOT_MQTT_Dynamic_Register: IOT_MQTT_Destroy stands on every way out.
  unfoldable pub dynamic_register : InitParams → Act hal.World ℤ
  dynamic_register p = do
    built ← code (construct_client p)
    if eq_ℤ built success_ret
        then (do ret ← with_names p; _ ← destroy_client; pure ret)
        else pure failure_ret

-- uiot_mqtt_set_autoreconnect
unfoldable pub set_autoreconnect : Bool → Client → Client
set_autoreconnect value c = record c { options = record c.options { auto_connect_enable = value } }

-- uiot_mqtt_reset_network_disconnected_count
unfoldable pub reset_network_disconnected_count : Client → Client
reset_network_disconnected_count c = record c { counter_network_disconnected = 0 }
