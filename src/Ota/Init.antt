-- ===== src/Ota/Init.antt =====
-- IOT_OTA_Init of uiot/ota/src/ota_client.c, with osc_init of ota_mqtt.c. A result of `none` is NULL.
use ucloud_iot_rtthread_pack.Prelude.{
  Text, [], Bool, true, false, Option, none, some, pos, is_neg, if◌then◌else◌,
}
use ucloud_iot_rtthread_pack.Ota.State.{Ota, uninited, inited, null, Platform}
use ucloud_iot_rtthread_pack.Ota.Message.{
  Generated, msg, failed, gen_topic_name, ota_topic_buf_len, ota_downstream_topic_type,
}

-- memset(h_ota, 0, sizeof(OTA_Struct_t)), with the names that the signal channel keeps
abbrev pub zeroed : Text → Text → Ota
zeroed product_sn device_sn = record {
  state = uninited;
  size_last_fetched = 0;
  size_fetched = 0;
  size_file = 0;
  url = none;
  download_name = none;
  module_name = none;
  version = none;
  md5sum = none;
  md5 = none;
  ch_fetch = null;
  err = pos 0;
  report_timer = 0;
  has_fetch_callback = false;
  product_sn = product_sn;
  device_sn = device_sn;
  msg_list = [];
}

module _ (p : Platform) where
  abbrev pub subscribe_to : Generated → p.World → Bool × p.World
  subscribe_to (failed e) w = (false, w)
  subscribe_to (msg topic) w =
      let (ret, v) = p.subscribe topic w in (if is_neg ret then false else true, v)

  -- Does osc_init give a channel? list_new's result is not checked.
  unfoldable pub osc_init : Text → Text → p.World → Bool × p.World
  osc_init product_sn device_sn w =
      let (granted, w1) = p.malloc w in
      let (_, w2) = p.malloc w1 in
      let (mutex, w3) = p.mutex_create w2 in
      if granted
      then if mutex
        then subscribe_to
            (gen_topic_name ota_topic_buf_len ota_downstream_topic_type product_sn device_sn) w3
        else (false, w3)
      else (false, w1)

  unfoldable pub ota_init : Text → Text → p.World → Option Ota × p.World
  ota_init product_sn device_sn w =
      let (granted, w1) = p.malloc w in
      let (signal, w2) = osc_init product_sn device_sn w1 in
      let (md5, w3) = p.malloc w2 in
      if granted
      then if signal
        then if md5
          then (some (record (zeroed product_sn device_sn) { md5 = some []; state = inited }), w3)
          else (none, w3)
        else (none, w2)
      else (none, w1)
