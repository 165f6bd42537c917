-- ===== src/Ota/Callback.antt =====
-- _ota_callback of uiot/ota/src/ota_client.c, which receives the messages of the OTA topic, with
-- ota_lib_get_params and ota_lib_get_msg_module_ver of ota_lib.c.
use ucloud_iot_rtthread_pack.Prelude.{
  Text, codes, ℕ, zero, suc, List, [], ◌∷◌, ◌++◌, Bool, true, false, Option, none, some, ℤ,
  if◌then◌else◌, ◌&&◌, eq_ℤ, ◌==◌,
}
use ucloud_iot_rtthread_pack.Codes.{success_ret, err_ota_general_failure}
use ucloud_iot_rtthread_pack.Mqtt.Topic.{str_equal}
use ucloud_iot_rtthread_pack.Ota.State.{
  fetching, disconnected, FetchChannel, null, open_at, freed, Platform, Act, spent, ◌>>=◌, ◌>>◌,
  pure, crash, get, modify, set_state, text_of, outside, tell, is_fetching,
}
use ucloud_iot_rtthread_pack.Ota.Fetch.{ofc_init, ofc_connect}
use ucloud_iot_rtthread_pack.Ota.Download.{fw_download}
pub mod States
pub mod Params

abbrev pub type_field : Text
type_field = codes "Method"

abbrev pub md5_field : Text
md5_field = codes "Payload.MD5"

abbrev pub module_field : Text
module_field = codes "Payload.Module"

abbrev pub version_field : Text
version_field = codes "Payload.Version"

abbrev pub url_field : Text
url_field = codes "Payload.URL"

abbrev pub size_field : Text
size_field = codes "Payload.Size"

abbrev pub update_firmware_method : Text
update_firmware_method = codes "update_firmware"

abbrev pub cancel_update_method : Text
cancel_update_method = codes "cancel_update"

abbrev pub is_null : FetchChannel → Bool
is_null null = true
is_null (open_at r) = false
is_null freed = false

-- `%s` stops at a NUL.
abbrev pub until_nul : List ℕ → Text
until_nul [] = []
until_nul (c ∷ cs) = if c == 0 then [] else c ∷ until_nul cs

module _ (p : Platform) where
  -- A field that the message has, or ERR_OTA_GENERAL_FAILURE.
  abbrev pub field_of : Option Text → (Text → Act p.World ℤ) → Act p.World ℤ
  field_of none next = pure err_ota_general_failure
  field_of (some v) next = next v

  abbrev pub field : Text → Text → (Text → Act p.World ℤ) → Act p.World ℤ
  field key json next = field_of (p.json_value_of key json) next

  abbrev pub store_size : Option ℕ → Act p.World ℤ
  store_size none = pure err_ota_general_failure
  store_size (some n) = do modify (λ o. record o { size_file = n }); pure success_ret

  unfoldable pub get_params : Text → Act p.World ℤ
  get_params json = field module_field json λ v.
      modify (λ o. record o { module_name = some v })
      >> field version_field json λ v.
        modify (λ o. record o { version = some v })
        >> field url_field json λ v.
          modify (λ o. record o { url = some v })
          >> (outside (p.download_name_set v) >>= λ name.
              modify (λ o. record o { download_name = name })
              >> field md5_field json λ v.
                modify (λ o. record o { md5sum = some v })
                >> field size_field json λ v. store_size (p.get_uint32 v))

  -- _ota_push_upload_msg: the struct's allocation is not checked, the payload's and the node's are.
  unfoldable pub push_upload_msg : Text → Act p.World (Unit {0})
  push_upload_msg msg = do
    made ← outside p.malloc
    if made then pure tt else crash
    payload ← outside p.malloc
    node ← (if payload then outside p.malloc else pure false)
    if node then modify (λ o. record o { msg_list = o.msg_list ++ msg ∷ [] }) else pure tt

  -- The first of the waiting messages goes to the callback.
  abbrev pub pop_first : (Text → Act p.World (Unit {0})) → List Text → Act p.World (Unit {0})
  pop_first deliver [] = pure tt
  pop_first deliver (m ∷ ms) = do modify (λ o. record o { msg_list = ms }); deliver m

  unfoldable pub pop_upload_msg : (Text → Act p.World (Unit {0})) → Act p.World (Unit {0})
  pop_upload_msg deliver = do o ← get; pop_first deliver o.msg_list

  abbrev pub close_http : FetchChannel → Act p.World (Unit {0})
  close_http null = crash
  close_http freed = crash
  close_http (open_at r) = tell p.http_close

  -- strcmp(...) == 0, with the pointer of the struct read
  abbrev pub same_text : Text → Option Text → Act p.World Bool
  same_text t s = do u ← text_of s; pure (str_equal t u)

  abbrev pub cancel_if : Bool → Act p.World (Unit {0})
  cancel_if false = pure tt
  cancel_if true = do o ← get; close_http o.ch_fetch; set_state disconnected

  -- `if ((0 == strcmp(msg_module, h_ota->module)) && (0 == strcmp(msg_ver, h_ota->version)))`
  abbrev pub cancel_named : Option Text → Option Text → Act p.World (Unit {0})
  cancel_named none version = pure tt
  cancel_named (some name) none = pure tt
  cancel_named (some name) (some version) = do
    o ← get
    same ← same_text name o.module_name
    both ← (if same then same_text version o.version else pure false)
    cancel_if both

  unfoldable pub handle_cancel : Text → Act p.World (Unit {0})
  handle_cancel json =
      cancel_named (p.json_value_of module_field json) (p.json_value_of version_field json)

  -- The part behind ofc_connect.
  unfoldable pub run_download : ℕ → (Text → Act p.World (Unit {0})) → Act p.World (Unit {0})
  run_download rounds deliver = do
    set_state fetching
    ret ← fw_download p rounds deliver
    if eq_ℤ ret success_ret then pure tt else set_state disconnected
    pop_upload_msg deliver

  unfoldable pub start_update : ℕ → (Text → Act p.World (Unit {0})) → Text → Act p.World (Unit {0})
  start_update rounds deliver json = do
    ret ← get_params json
    if eq_ℤ ret success_ret
        then (do
          ofc_init p
          o ← get
          if is_null o.ch_fetch then pure tt else (do
            rc ← ofc_connect p
            if eq_ℤ rc success_ret then run_download rounds deliver else set_state disconnected))
        else pure tt

  unfoldable pub handle_method :
      ℕ → (Text → Act p.World (Unit {0})) → Text → Text → Act p.World (Unit {0})
  handle_method rounds deliver method json = do
    o ← get
    if is_null o.ch_fetch && str_equal method cancel_update_method
        then pure tt
        else if str_equal method update_firmware_method
        then (if is_fetching o.state
            then push_upload_msg json
            else start_update rounds deliver json)
        else if str_equal method cancel_update_method
        then handle_cancel json
        else pure tt

  -- Where the message has no method, nothing happens.
  abbrev pub handle_message :
      ℕ → (Text → Act p.World (Unit {0})) → Option Text → Text → Act p.World (Unit {0})
  handle_message rounds deliver none json = pure tt
  handle_message rounds deliver (some method) json = handle_method rounds deliver method json

-- `rounds` bounds the loop of one download, and the fuel how deep the callback calls itself: from
-- IOT_OTA_Yield within a download, and for the message that waited for the end of one.
unfoldable pub ota_callback : (p : Platform) → ℕ → ℕ → Text → Act p.World (Unit {0})
ota_callback p rounds zero msg = λ s. spent
ota_callback p rounds (suc fuel) msg = do
  granted ← outside p.malloc
  let json = until_nul msg
  let deliver = ota_callback p rounds fuel
  if granted
      then handle_message p rounds deliver (p.json_value_of type_field json) json
      else pure tt
