-- ===== src/Mqtt/Construct/Secret.antt =====
-- The secret that a device gets by its registration: on_message_callback_get_device_secret of
-- uiot/mqtt/src/mqtt_client.c and the lookups of mqtt_client_common.c that it calls.
use ucloud_iot_rtthread_pack.Prelude.{
  ℕ, zero, suc, Bool-cases, inl, inr, ◌≡◌, refl, arith, true, false, [], Option, none, some, ◌==◌,
  if◌then◌else◌, Text, codes, Outcome, ok, ◌>>=◌,
}
use ucloud_iot_rtthread_pack.Mqtt.Topic.{str_equal}
use ucloud_iot_rtthread_pack.Utils.Json.Lookup.{json_value_of}
use ucloud_iot_rtthread_pack.Utils.Json.Printed.{Value, Fields, obj, print, are_printable}
use ucloud_iot_rtthread_pack.Utils.Json.Printed.Lookups.{first_match}
use ucloud_iot_rtthread_pack.Utils.Json.Printed.Paths.{value_text}
use ucloud_iot_rtthread_pack.Utils.Json.Printed.Nested.{json_value_of-path}

-- sscanf of what parse_mqtt_payload_retcode_type finds: `none` is false.
abbrev pub number_of : (Text → Option ℕ) → Option Text → Option ℕ
number_of get_uint32 none = none
number_of get_uint32 (some t) = get_uint32 t

abbrev pub parse_payload_retcode : (Text → Option ℕ) → Text → Outcome (Option ℕ)
parse_payload_retcode get_uint32 doc =
    json_value_of (codes "RetCode") doc >>= λ t. ok (number_of get_uint32 t)

-- Behind the RequestID.
abbrev pub secret_for : Text → Option Text → Outcome (Option Text)
secret_for payload none = ok none
secret_for payload (some id) =
    if str_equal id (codes "1") then json_value_of (codes "Password") payload else ok none

-- Behind the RetCode.
abbrev pub secret_by_code : Text → Option ℕ → Outcome (Option Text)
secret_by_code payload none = ok none
secret_by_code payload (some n) =
    if n == 0 then (json_value_of (codes "RequestID") payload >>= secret_for payload) else ok none

-- on_message_callback_get_device_secret: the text that HAL_SetDeviceSecret gets, or `none` where it is
-- not called. The payload is a pointer into read_buf without a NUL of its own: the text here is what
-- stands there up to the next NUL, with what older packets left behind the payload.
unfoldable pub reply_secret : (Text → Option ℕ) → Text → Outcome (Option Text)
reply_secret get_uint32 payload =
    parse_payload_retcode get_uint32 payload >>= secret_by_code payload

-- The secret by the code, the identifier and the password of a reply.
abbrev pub grants : Option ℕ → Text → Text → Option Text
grants none id password = none
grants (some zero) id password = if str_equal id (codes "1") then some password else none
grants (some (suc n)) id password = none

module _ (fs : Fields) (rest : Text) (id password : Value) (printable : are_printable fs ≡ true)
    (id_at : first_match (codes "RequestID") fs ≡ some id)
    (password_at : first_match (codes "Password") fs ≡ some password) where
  by_id :
      secret_for (print (obj fs) rest) (some (value_text id))
      ≡ ok (grants (some 0) (value_text id) (value_text password))
  by_id = elim (Bool-cases (str_equal (value_text id) (codes "1"))) [
    | inl e ↦
        rw e (
          json_value_of-path (codes "Password") [] fs rest password (refl, tt) printable
            password_at)
    | inr e ↦ rw e
  ]

  by_code :
      (n : Option ℕ)
      → secret_by_code (print (obj fs) rest) n ≡ ok (grants n (value_text id) (value_text password))
  by_code none = refl
  by_code (some (suc n)) = let later : (suc n == 0) ≡ false = ground arith in rw later
  by_code (some zero) =
      rw (json_value_of-path (codes "RequestID") [] fs rest id (refl, tt) printable id_at) by_id

-- For a reply that is a printable object with a RetCode, a RequestID and a Password (each the first
-- field that is not empty and whose key starts with that name), with any bytes behind it in read_buf
-- up to the next NUL: it sets the secret of the device to its Password where its RetCode reads as 0
-- and its RequestID is 1, and sets none otherwise, whatever those bytes are.
pub reply_secret-print :
    (get_uint32 : Text → Option ℕ) (fs : Fields) (rest : Text) (code id password : Value)
    → are_printable fs ≡ true
    → first_match (codes "RetCode") fs ≡ some code
    → first_match (codes "RequestID") fs ≡ some id
    → first_match (codes "Password") fs ≡ some password
    → reply_secret get_uint32 (print (obj fs) rest)
      ≡ ok (grants (get_uint32 (value_text code)) (value_text id) (value_text password))
unfolding reply_secret
reply_secret-print get_uint32 fs rest code id password printable code_at id_at password_at =
    rw (json_value_of-path (codes "RetCode") [] fs rest code (refl, tt) printable code_at)
      (by_code fs rest id password printable id_at password_at (get_uint32 (value_text code)))
