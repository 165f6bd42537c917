-- ===== src/Ota/Message.antt =====
-- ota_lib_gen_upstream_msg of uiot/ota/src/ota_lib.c with the templates of ota_config.h, and the
-- topics and publications of uiot/ota/src/ota_mqtt.c.
use Prim.Native.String.{String}
use ucloud_iot_rtthread_pack.Prelude.{
  ℕ, zero, suc, ◌+◌, ◌/◌, ◌%◌, [], ◌∷◌, ◌++◌, Option, some, ℤ, pos, negsuc, if◌then◌else◌, ltb,
  length, is_neg, ◌==◌, Text, codes,
}
use ucloud_iot_rtthread_pack.Codes.{
  err_ota_general_failure, err_ota_str_too_long, err_ota_osc_failed,
}
use ucloud_iot_rtthread_pack.Ota.State.{Platform, Act, ◌>>=◌, pure, crash, get, outside}

pub data UpstreamMsgType : Type 0 where
  report_undefined_error : UpstreamMsgType
  report_firmware_burn_failed : UpstreamMsgType
  report_md5_mismatch : UpstreamMsgType
  report_download_timeout : UpstreamMsgType
  report_signature_expired : UpstreamMsgType
  report_firmware_not_exist : UpstreamMsgType
  report_none : UpstreamMsgType
  report_downloading : UpstreamMsgType
  report_burning : UpstreamMsgType
  report_success : UpstreamMsgType
  request_firmware : UpstreamMsgType
  report_version : UpstreamMsgType

-- `%d`, for at most ten digits
abbrev pub digits : ℕ → ℕ → Text
digits zero n = []
digits (suc fuel) n =
    let high = digits fuel (n / 10) in
    if ltb n 10 then (b'0' + n) ∷ [] else high ++ (b'0' + n % 10) ∷ []

abbrev pub decimal : ℤ → Text
decimal (pos n) = digits 10 n
decimal (negsuc n) = b'-' ∷ digits 10 (n + 1)

abbrev pub report_progress_msg : String → ℤ → Text → Text → Text
report_progress_msg state progress name version =
    codes "{\"Method\": \"report_progress\", \"Payload\": {\"State\":\""
    ++ (codes state
        ++ (codes "\", \"Percent\":"
            ++ (decimal progress
                ++ (codes ", \"Module\":\""
                    ++ (name ++ (codes "\", \"Version\":\"" ++ (version ++ codes "\" }}")))))))

abbrev pub report_success_msg : Text → Text → Text
report_success_msg name version =
    codes "{\"Method\": \"report_success\", \"Payload\":{\"Module\":\""
    ++ (name ++ (codes "\", \"Version\":\"" ++ (version ++ codes "\"}}")))

abbrev pub report_version_msg : Text → Text → Text
report_version_msg name version =
    codes "{\"Method\": \"report_version\", \"Payload\":{\"Module\":\""
    ++ (name ++ (codes "\", \"Version\":\"" ++ (version ++ codes "\"}}")))

abbrev pub request_firmware_msg : Text → Text → Text
request_firmware_msg name version =
    codes "{\"Method\": \"request_firmware\", \"Payload\":{\"Module\":\""
    ++ (name ++ (codes "\", \"Version\":\"" ++ (version ++ codes "\"}}")))

-- What the switch prints. REPORT_FAIL_MSG_TEMPLATE has two `%s` for which no argument is passed: that
-- is undefined behaviour.
pub data Printed : Type 0 where
  text : Text → Printed
  no_template : Printed
  missing_arguments : Printed

-- `%s` of a null pointer is undefined too.
abbrev pub with_texts : Option Text → Option Text → (Text → Text → Text) → Printed
with_texts (some name) (some version) f = text (f name version)
with_texts _ _ f = missing_arguments

unfoldable pub print_msg : Option Text → Option Text → ℤ → UpstreamMsgType → Printed
print_msg name version progress report_downloading =
    with_texts name version (report_progress_msg "downloading" progress)
print_msg name version progress report_burning =
    with_texts name version (report_progress_msg "burning" progress)
print_msg name version progress report_success = with_texts name version report_success_msg
print_msg name version progress request_firmware = with_texts name version request_firmware_msg
print_msg name version progress report_version = with_texts name version report_version_msg
print_msg name version progress report_none = no_template
print_msg name version progress _ = missing_arguments

-- The message that fits the buffer, or a return code.
pub data Generated : Type 0 where
  msg : Text → Generated
  failed : ℤ → Generated

module _ {W : Type 0} where
  unfoldable pub fit : ℕ → Printed → Act W Generated
  fit buf_len (text t) =
      pure (if ltb (length t) buf_len then msg t else failed err_ota_str_too_long)
  fit buf_len no_template = pure (failed err_ota_general_failure)
  fit buf_len missing_arguments = crash

  unfoldable pub gen_upstream_msg :
      ℕ → Option Text → Option Text → ℤ → UpstreamMsgType → Act W Generated
  unfolding fit print_msg
  gen_upstream_msg buf_len name version progress report_type =
      fit buf_len (print_msg name version progress report_type)

-- OTA_UPSTREAM_MSG_BUF_LEN and OTA_TOPIC_BUF_LEN
abbrev pub ota_upstream_msg_buf_len : ℕ
ota_upstream_msg_buf_len = 129

abbrev pub ota_topic_buf_len : ℕ
ota_topic_buf_len = 129

abbrev pub ota_upstream_topic_type : Text
ota_upstream_topic_type = codes "upstream"

abbrev pub ota_downstream_topic_type : Text
ota_downstream_topic_type = codes "downstream"

-- OTA_TOPIC_TEMPLATE
abbrev pub topic_name : Text → Text → Text → Text
topic_name topic_type product_sn device_sn =
    codes "/$system/" ++ (product_sn ++ (b'/' ∷ (device_sn ++ (codes "/ota/" ++ topic_type))))

unfoldable pub gen_topic_name : ℕ → Text → Text → Text → Generated
gen_topic_name buf_len topic_type product_sn device_sn =
    let t = topic_name topic_type product_sn device_sn in
    if ltb (length t) buf_len then msg t else failed err_ota_general_failure

module _ (p : Platform) where
  abbrev pub send_to : Generated → ℕ → Text → Act p.World ℤ
  send_to (failed e) qos payload = pure err_ota_general_failure
  send_to (msg topic) qos payload = do
    ret ← outside (p.publish qos topic payload)
    pure (if is_neg ret then err_ota_osc_failed else ret)

  -- _ota_mqtt_publish: QOS0 for 0, and QOS1 for all else
  unfoldable pub mqtt_publish_ota : Text → ℕ → Text → Act p.World ℤ
  mqtt_publish_ota topic_type qos payload = do
    o ← get
    send_to (gen_topic_name ota_topic_buf_len topic_type o.product_sn o.device_sn)
        (if qos == 0 then 0 else 1) payload

  unfoldable pub osc_report_progress : Text → Act p.World ℤ
  osc_report_progress payload = mqtt_publish_ota ota_upstream_topic_type 0 payload

  unfoldable pub osc_upstream_publish : Text → Act p.World ℤ
  osc_upstream_publish payload = mqtt_publish_ota ota_upstream_topic_type 1 payload
