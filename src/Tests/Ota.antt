-- ===== src/Tests/Ota.antt =====
-- Instances at a concrete platform: uiot/ota.
use ucloud_iot_rtthread_pack.Prelude.{
  ℕ, zero, suc, ◌+◌, ◌≤◌, List, [], ◌∷◌, true, false, none, some, pos, ◌≡◌, refl, arith, length,
  take, is_pos, to_ℕ, if◌then◌else◌, ◌==◌, drop, negsuc,
}
use ucloud_iot_rtthread_pack.Ota.State.{
  Ota, inited, fetching, fetched, null, open_at, Platform, St, done, fault, pure,
}
use ucloud_iot_rtthread_pack.Ota.Ensures.{Ensures}
use ucloud_iot_rtthread_pack.Ota.Fetch.{fetch_yield, ofc_fetch, fetch_code}
use ucloud_iot_rtthread_pack.Ota.Fetch.Progress.{Stepped, fetch_yield-Stepped}
use ucloud_iot_rtthread_pack.Codes.{success_ret, err_ota_fetch_failed}
use ucloud_iot_rtthread_pack.Ota.Fetch.EarlyEnd.{after_failure}
use ucloud_iot_rtthread_pack.Ota.Download.Incomplete.{prepared, fw_download_incomplete}
use ucloud_iot_rtthread_pack.Ota.Download.{fw_download, empty_buffer}
use ucloud_iot_rtthread_pack.Ota.Init.{ota_init, osc_init, zeroed}
use ucloud_iot_rtthread_pack.Ota.Message.{gen_topic_name}
use ucloud_iot_rtthread_pack.Ota.Destroy.{ota_destroy}
use ucloud_iot_rtthread_pack.Ota.Destroy.Undefined.{ota_destroy_undefined}
use ucloud_iot_rtthread_pack.Mqtt.Topic.{str_equal}
use ucloud_iot_rtthread_pack.Ota.Callback.{ota_callback, type_field, update_firmware_method}
use ucloud_iot_rtthread_pack.Ota.Callback.States.{Moves, ota_callback-Moves}
use ucloud_iot_rtthread_pack.Ota.Download.Verified.{Sound, fw_download-Sound}

-- A server that sends the same three bytes for every request, and sums that are the bytes.
abbrev three_bytes : List ℕ
three_bytes = 7 ∷ 8 ∷ 9 ∷ []

abbrev pub toy : Platform
toy = record {
  World = ℕ;
  malloc = λ w. (true, w);
  mutex_create = λ w. (true, w);
  subscribe = λ t w. (pos 1, w);
  publish = λ q t m w. (pos 1, w + 1);
  arrivals = λ n w. ([], w);
  http_connect = λ u w. (pos 0, w);
  http_close = λ w. w;
  http_send = λ u o r w. (pos 0, w);
  http_recv = λ n ms r w.
      (record { rc = pos 0; got = pos 3; retrieve_len = pos 0; bytes = take n three_bytes }, w);
  download_name_set = λ t w. (some t, w);
  download_init = λ n w. (true, w);
  download_write = λ o b w. (pos 0, w);
  download_end = λ w. (pos 0, w);
  fetch_callback = λ c w. w;
  json_value_of = λ k t. none;
  get_uint32 = λ t. none;
  md5_hex = λ bs. bs;
  tick = λ w. (w, w);
  ticks_of_ms = λ n. n;
}

length-take-le : (n : ℕ) (xs : List ℕ) → length (take n xs) ≤ n
length-take-le zero xs = omega arith
length-take-le (suc n) [] = omega arith
length-take-le (suc n) (x ∷ xs) = omega (arith, length-take-le n xs)

abbrev ready : Ota
ready = record {
  state = fetching;
  size_last_fetched = 0;
  size_fetched = 0;
  size_file = 3;
  url = some (1 ∷ []);
  download_name = some (2 ∷ []);
  module_name = some (3 ∷ []);
  version = some (4 ∷ []);
  md5sum = some three_bytes;
  md5 = some [];
  ch_fetch = open_at (pos 0);
  err = pos 0;
  report_timer = 0;
  has_fetch_callback = false;
  product_sn = 5 ∷ [];
  device_sn = 6 ∷ [];
  msg_list = [];
}

abbrev pub begun : St ℕ
begun = record { ota = ready; world = 0; writes = [] }

fw_download-Sound_example :
    Ensures ⊥ (fw_download toy 4 (λ m. pure tt) begun) (Sound toy (some three_bytes) 3)
fw_download-Sound_example =
    fw_download-Sound toy (λ n ms r w. length-take-le n three_bytes) (λ n w. refl) 4 (λ m. pure tt)
      begun refl refl refl refl (omega arith) (omega arith)

fetch_yield-Stepped_example : Ensures ⊥ (fetch_yield toy (0 ∷ 0 ∷ 0 ∷ []) 3 3 10 begun) (λ r t.
    (length r.1 ≤ 3)
    × (t.writes ≡ [])
    × (is_pos r.0 ≡ true → (begun.ota.state ≡ fetching) × Stepped toy (to_ℕ r.0) r.1 begun t))
fetch_yield-Stepped_example =
    fetch_yield-Stepped toy (λ n ms r w. length-take-le n three_bytes) (0 ∷ 0 ∷ 0 ∷ []) 3 3 10 begun
      (omega arith)

-- The first request meets a closed connection (ERR_HTTP_CLOSED), and all others are served.
abbrev flaky : Platform
flaky = record toy {
  http_send = λ u o r w. (if w == 0 then negsuc 2 else pos 0, w + 1);
  publish = λ q t m w. (pos 1, w);
}

-- The file has five bytes, and a request gives three.
abbrev larger : St ℕ
larger = record { ota = record ready { size_file = 5 }; world = 0; writes = [] }

abbrev refused : St ℕ
refused = record larger { world = 1 }

abbrev served : St ℕ
served = record {
  ota = record larger.ota { state = fetched; err = err_ota_fetch_failed };
  world = 2;
  writes = [];
}

abbrev filled : List ℕ
filled = 7 ∷ 8 ∷ 9 ∷ drop 3 empty_buffer

first_fetch :
    ofc_fetch flaky empty_buffer 4100 4096 10 (prepared flaky larger)
    ≡ done (negsuc 2, empty_buffer) refused
unfolding ofc_fetch
first_fetch = refl

second_fetch :
    ofc_fetch flaky empty_buffer 4100 4096 10 (after_failure refused) ≡ done (pos 3, filled) served
unfolding ofc_fetch fetch_code
second_fetch = refl

fw_download_incomplete_example :
    Ensures ⊥
      (fw_download flaky 6 (λ m. pure tt) larger)
      (λ ret t. (ret ≡ success_ret) × (t.writes ≡ (0, three_bytes) ∷ []))
fw_download_incomplete_example =
    fw_download_incomplete flaky (λ n w. refl) (λ o b w. refl) (λ m. pure tt) 5 2 2 empty_buffer
      filled larger refused served refl refl refl
      (record { not_conn = refl; not_auth = refl; not_exist = refl; not_timeout = refl })
      first_fetch second_fetch refl refl

-- Every message asks for an update to a file of three bytes.
abbrev updating : Platform
updating = record toy {
  json_value_of =
      λ k t. if str_equal k type_field then some update_firmware_method else some three_bytes;
  get_uint32 = λ t. some 3;
}

abbrev idle : St ℕ
idle = record begun { ota = record ready { state = inited; ch_fetch = null } }

ota_callback-Moves_example :
    Ensures Unit (ota_callback updating 4 3 (1 ∷ 2 ∷ []) idle) (λ _ t. Moves idle t)
ota_callback-Moves_example = ota_callback-Moves updating 4 3 (1 ∷ 2 ∷ []) idle

abbrev fresh : Ota
fresh = record (zeroed (5 ∷ []) (6 ∷ [])) { md5 = some []; state = inited }

toy_init : (ota_init toy (5 ∷ []) (6 ∷ []) 0).0 ≡ some fresh
unfolding ota_init osc_init gen_topic_name
toy_init = refl

ota_destroy_undefined_example :
    (ota_destroy toy (record { ota = fresh; world = 0; writes = [] }) ≡ fault)
    × Ensures Unit (fw_download toy 4 (λ m. pure tt) begun) (λ ret t. ota_destroy toy t ≡ fault)
ota_destroy_undefined_example =
    ota_destroy_undefined toy (5 ∷ []) (6 ∷ []) 0 0 [] fresh toy_init 4 (λ m. pure tt) begun
