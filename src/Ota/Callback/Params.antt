-- ===== src/Ota/Callback/Params.antt =====
-- ota_lib_get_params (uiot/ota/src/ota_lib.c) on top of LITE_json_value_of (uiot/utils/json_token.c).
use Prim.Native.String.{String}
use ucloud_iot_rtthread_pack.Prelude.{ℕ, ◌≡◌, [], ◌∷◌, true, Option, some, Text, codes}
use ucloud_iot_rtthread_pack.Utils.Json.Printed.{Value, Fields, are_printable}
use ucloud_iot_rtthread_pack.Utils.Json.Printed.Paths.{value_text}
use ucloud_iot_rtthread_pack.Utils.Json.Printed.Nested.{at_path}
use ucloud_iot_rtthread_pack.Ota.State.{Ota}

-- The values of an update message.
pub record Update : Type 0 where
  pub name : Value
  pub version : Value
  pub url : Value
  pub md5 : Value
  pub size : Value

abbrev pub payload : String → Fields → Option Value
payload key fs = at_path (codes "Payload") (codes key ∷ []) fs

-- The message has them in its payload.
pub record IsUpdate (fs : Fields) (u : Update) : Type 0 where
  pub printable : are_printable fs ≡ true
  pub name_at : payload "Module" fs ≡ some u.name
  pub version_at : payload "Version" fs ≡ some u.version
  pub url_at : payload "URL" fs ≡ some u.url
  pub md5_at : payload "MD5" fs ≡ some u.md5
  pub size_at : payload "Size" fs ≡ some u.size

-- The handle with the values of an update, of `n` bytes.
abbrev pub updated : Update → ℕ → Option Text → Ota → Ota
updated u n download_name o = record o {
  module_name = some (value_text u.name);
  version = some (value_text u.version);
  url = some (value_text u.url);
  download_name = download_name;
  md5sum = some (value_text u.md5);
  size_file = n;
}
