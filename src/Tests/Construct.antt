-- ===== src/Tests/Construct.antt =====
-- Instances for the construction of a client: uiot/mqtt/src/mqtt_client.c on the network of Client.
use ucloud_iot_rtthread_pack.Prelude.{
  ℕ, ◌*◌, ◌<◌, ◌≡◌, refl, arith, [], ◌++◌, Bool, true, none, some, ok, length, Text, codes,
  if◌then◌else◌, Option,
}
use ucloud_iot_rtthread_pack.Mqtt.Topic.{str_equal}
use ucloud_iot_rtthread_pack.Mqtt.Header.{connect}
use ucloud_iot_rtthread_pack.Mqtt.Header.Fields.{header_byte}
use ucloud_iot_rtthread_pack.Mqtt.Connect.{serialize_connect}
use ucloud_iot_rtthread_pack.Mqtt.Bytes.Writes.{string_bytes}
use ucloud_iot_rtthread_pack.Mqtt.Connect.Packet.{connect_body}
use ucloud_iot_rtthread_pack.Mqtt.Serialize.Safety.{packet_or_short}
use ucloud_iot_rtthread_pack.Mqtt.Construct.{
  InitParams, connect_params, auth_mode_text, mqtt_init, init_fields,
}
use ucloud_iot_rtthread_pack.Mqtt.Construct.Ready.{
  IsReady, mqtt_init-IsReady, mqtt_init-serialize_connect,
}
use ucloud_iot_rtthread_pack.Mqtt.Construct.Credentials.{connect_params_whole}
use ucloud_iot_rtthread_pack.Mqtt.Construct.Secret.{reply_secret, reply_secret-print}
use ucloud_iot_rtthread_pack.Utils.Json.Printed.{
  str, num, obj, Fields, one, more, print, are_printable, is_printable, size_fields,
}
use ucloud_iot_rtthread_pack.Utils.Json.Printed.Lookups.{first_match}
use ucloud_iot_rtthread_pack.Tests.Client.{Network, script, start}

abbrev params : InitParams
params = record {
  product_sn = codes "p1";
  device_sn = codes "d1";
  product_secret = some (codes "ps");
  device_secret = none;
  command_timeout = 100;
  keep_alive_interval = 240;
  clean_session = true;
  auto_connect_enable = true;
  has_event_handler = true;
}

abbrev mutex : Network → Bool × Network
mutex w = (true, w)

initialized : (mqtt_init script mutex params (start true [])).0 ≡ ok tt
unfolding mqtt_init init_fields
initialized = refl

mqtt_init-IsReady_example : IsReady (mqtt_init script mutex params (start true [])).1.client
mqtt_init-IsReady_example = mqtt_init-IsReady script mutex params (start true []) initialized

short_enough : length (connect_body (connect_params params)) < 128 * 128 * 128 * 128
unfolding connect_params auth_mode_text string_bytes
short_enough = omega arith

mqtt_init-serialize_connect_example :
    let c = (mqtt_init script mutex params (start true [])).1.client in
    serialize_connect c.write_buf c.write_buf_size (connect_params params)
    ≡ packet_or_short c.write_buf c.write_buf_size
        (header_byte connect 0 0 0)
        (connect_body (connect_params params))
mqtt_init-serialize_connect_example =
    mqtt_init-serialize_connect script mutex params (start true []) short_enough

connect_params_whole_example :
    ((connect_params params).client_id ≡ codes "p1.d1")
    × ((connect_params params).username
        ≡ some (codes "p1|d1|" ++ auth_mode_text none (some (codes "ps"))))
    × ((connect_params params).password ≡ some (codes "ps"))
connect_params_whole_example = connect_params_whole params

-- The text of the mode.
dynamic_mode : auth_mode_text none (some (codes "ps")) ≡ codes "2"
unfolding auth_mode_text
dynamic_mode = refl

-- {"RetCode":0,"RequestID":"1","Password":"s3"}
abbrev reply : Fields
reply =
    more (codes "RetCode") (num (codes "0"))
      (more (codes "RequestID") (str (codes "1")) (one (codes "Password") (str (codes "s3"))))

reply_printable : are_printable reply ≡ true
unfolding are_printable is_printable
reply_printable = refl

abbrev read_zero : Text → Option ℕ
read_zero t = some (if str_equal t (codes "0") then 0 else 1)

-- What an older packet left behind the reply.
abbrev left_over : Text
left_over = codes "RetCode\":1}"

found_in_reply :
    (first_match (codes "RetCode") reply ≡ some (num (codes "0")))
    × (first_match (codes "RequestID") reply ≡ some (str (codes "1")))
    × (first_match (codes "Password") reply ≡ some (str (codes "s3")))
unfolding first_match size_fields
found_in_reply = (refl, refl, refl)

reply_secret-print_example :
    reply_secret read_zero (print (obj reply) left_over) ≡ ok (some (codes "s3"))
unfolding str_equal
reply_secret-print_example =
    reply_secret-print read_zero reply left_over (num (codes "0")) (str (codes "1"))
      (str (codes "s3")) reply_printable found_in_reply.0 found_in_reply.1 found_in_reply.2
