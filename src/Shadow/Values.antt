-- ===== src/Shadow/Values.antt =====
-- A received value goes into a property: IOT_Shadow_Direct_Update_Value of
-- uiot/shadow/src/shadow_client.c with the conversions LITE_get_* of uiot/utils/json_token.c. What
-- sscanf reads is a parameter.
use ucloud_iot_rtthread_pack.Prelude.{
  ℕ, ◌-◌, Bool, true, false, not, Option, none, some, ℤ, pos, negsuc, if◌then◌else◌, ltb, u8, Text,
  codes,
}
use ucloud_iot_rtthread_pack.Codes.{success_ret, failure_ret}
use ucloud_iot_rtthread_pack.Mqtt.Topic.{str_equal}
use ucloud_iot_rtthread_pack.Shadow.Document.{Datum, integer, real, flag}

-- JsonDataType
pub data JsonDataType : Type 0 where
  jint32 jint16 jint8 juint32 juint16 juint8 jfloat jdouble jbool jstring jobject : JsonDataType

-- sscanf with the conversion for a number of so many bits, or for a float or double: `none` unless
-- its result is 1. A float is what %f prints of it.
pub record Scan : Type 0 where
  pub signed : ℕ → Text → Option ℤ
  pub unsigned : ℕ → Text → Option ℕ
  pub float : Bool → Text → Option Text

-- (int8_t)
abbrev pub low_byte : ℤ → ℕ
low_byte (pos n) = u8 n
low_byte (negsuc n) = 255 - u8 n

abbrev pub signed8 : ℕ → ℤ
signed8 w = if ltb w 128 then pos w else negsuc (255 - w)

abbrev pub to_int8 : ℤ → ℤ
to_int8 v = signed8 (low_byte v)

-- The return code, and what is stored, if anything.
abbrev pub scanned : {A : Type 0} → (A → Datum) → Option A → ℤ × Option Datum
scanned f none = (failure_ret, none)
scanned f (some v) = (success_ret, some (f v))

module _ (s : Scan) where
  -- LITE_get_int32, LITE_get_int16
  abbrev pub get_int : ℕ → Text → ℤ × Option Datum
  get_int bits src = scanned integer (s.signed bits src)

  -- LITE_get_int8, through 16 bits
  abbrev pub get_int8 : Text → ℤ × Option Datum
  get_int8 src = scanned (λ v. integer (to_int8 v)) (s.signed 16 src)

  -- LITE_get_uint32, LITE_get_uint16
  abbrev pub get_uint : ℕ → Text → ℤ × Option Datum
  get_uint bits src = scanned (λ v. integer (pos v)) (s.unsigned bits src)

  -- LITE_get_uint8, through 16 bits
  abbrev pub get_uint8 : Text → ℤ × Option Datum
  get_uint8 src = scanned (λ v. integer (pos (u8 v))) (s.unsigned 16 src)

  -- LITE_get_float, LITE_get_double
  abbrev pub get_float : Bool → Text → ℤ × Option Datum
  get_float double src = scanned real (s.float double src)

  -- LITE_get_boolean
  abbrev pub get_boolean : Text → ℤ × Option Datum
  get_boolean src = (success_ret, some (flag (not (str_equal src (codes "0")))))

  -- IOT_Shadow_Direct_Update_Value, by the type of the property
  unfoldable pub direct_update_value : JsonDataType → Text → ℤ × Option Datum
  direct_update_value jbool value = get_boolean value
  direct_update_value jint32 value = get_int 32 value
  direct_update_value jint16 value = get_int 16 value
  direct_update_value jint8 value = get_int8 value
  direct_update_value juint32 value = get_uint 32 value
  direct_update_value juint16 value = get_uint 16 value
  direct_update_value juint8 value = get_uint8 value
  direct_update_value jfloat value = get_float false value
  direct_update_value jdouble value = get_float true value
  direct_update_value jstring value = (success_ret, none)
  direct_update_value jobject value = (success_ret, none)
