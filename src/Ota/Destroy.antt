-- ===== src/Ota/Destroy.antt =====
-- IOT_OTA_Destroy of uiot/ota/src/ota_client.c, with osc_deinit of ota_mqtt.c.
use ucloud_iot_rtthread_pack.Prelude.{[], none, ℤ, if◌then◌else◌}
use ucloud_iot_rtthread_pack.Codes.{success_ret, failure_ret}
use ucloud_iot_rtthread_pack.Ota.State.{
  Ota, Platform, Act, ◌>>=◌, ◌>>◌, pure, get, modify, is_uninited,
}
use ucloud_iot_rtthread_pack.Ota.Fetch.{ofc_deinit}
pub mod Undefined

-- What was freed is absent; the struct is freed as well, so that nothing may read what is left.
abbrev pub release : Ota → Ota
release o = record o {
  md5 = none;
  url = none;
  module_name = none;
  version = none;
  md5sum = none;
  download_name = none;
}

module _ (p : Platform) where
  abbrev pub osc_deinit : Act p.World (Unit {0})
  osc_deinit = modify (λ o. record o { msg_list = [] })

  unfoldable pub ota_destroy : Act p.World ℤ
  ota_destroy = do
    o ← get
    if is_uninited o.state
        then pure failure_ret
        else do osc_deinit; ofc_deinit p; modify release; pure success_ret
