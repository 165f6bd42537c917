-- ===== src/Ota/Fetch.antt =====
-- The fetch channel of uiot/ota/src/ota_fetch.c, and IOT_OTA_FetchYield of ota_client.c.
use ucloud_iot_rtthread_pack.Prelude.{
  Text, ℕ, zero, suc, ◌+◌, ◌-◌, ◌*◌, ◌/◌, List, [], ◌∷◌, ◌++◌, Bool, true, false, Option, none,
  some, ℤ, pos, negsuc, if◌then◌else◌, ltb, leb, length, is_neg, is_pos, ◌&&◌, not, to_ℕ, eq_ℤ,
  ◌+ℤ◌, u32, take, drop, ◌==◌,
}
use ucloud_iot_rtthread_pack.Codes.{
  success_ret, err_ota_invalid_state, err_ota_invalid_param, err_ota_file_not_exist,
  err_ota_fetch_auth_fail, err_ota_fetch_timeout, err_ota_fetch_failed, err_http_not_found,
  err_http_auth_error, err_http_timeout, err_http_conn_error,
}
use ucloud_iot_rtthread_pack.Mqtt.Act.{signed32}
use ucloud_iot_rtthread_pack.Ota.State.{
  Ota, fetching, fetched, FetchChannel, null, open_at, freed, Received, Platform, Act, ◌>>=◌, ◌>>◌,
  pure, crash, get, modify, set_state, set_err, text_of, outside, tell, is_fetching,
  is_disconnected, countdown, has_expired,
}
use ucloud_iot_rtthread_pack.Ota.Report.{
  report_progress, report_fail, progress_downloading, errcode_signature_expired,
  errcode_firmware_not_exist, errcode_download_timeout,
}
pub mod Retries
pub mod Progress
pub mod EarlyEnd

-- OTA_REPORT_PROGRESS_INTERVAL
abbrev pub ota_report_progress_interval : ℕ
ota_report_progress_interval = 5

-- What ofc_fetch returns for a failure of http_client_recv_data.
unfoldable pub fetch_code : ℤ → ℤ
fetch_code rc =
    if eq_ℤ rc err_http_not_found
    then err_ota_file_not_exist
    else if eq_ℤ rc err_http_auth_error
    then err_ota_fetch_auth_fail
    else if eq_ℤ rc err_http_timeout
    then err_ota_fetch_timeout
    else rc

module _ (p : Platform) where
  -- h_ota->ch_fetch = ofc_init(h_ota->url)
  unfoldable pub ofc_init : Act p.World (Unit {0})
  ofc_init = do
    granted ← outside p.malloc
    modify (λ o. record o { ch_fetch = if granted then open_at (pos 0) else null })

  abbrev pub connect_channel : FetchChannel → Act p.World ℤ
  connect_channel null = crash
  connect_channel freed = crash
  connect_channel (open_at r) = do o ← get; url ← text_of o.url; outside (p.http_connect url)

  unfoldable pub ofc_connect : Act p.World ℤ
  ofc_connect = do o ← get; connect_channel o.ch_fetch

  abbrev pub close_channel : FetchChannel → Act p.World (Unit {0})
  close_channel null = crash
  close_channel freed = crash
  close_channel (open_at r) = do tell p.http_close; modify (λ o. record o { ch_fetch = freed })

  unfoldable pub ofc_deinit : Act p.World (Unit {0})
  ofc_deinit = do o ← get; close_channel o.ch_fetch

  -- The result, and the buffer after it. With response_content_len = 0, `diff` is minus the old
  -- retrieve_len.
  abbrev pub receive : Text → ℕ → List ℕ → ℕ → ℤ → Act p.World (ℤ × List ℕ)
  receive url timeout_s buf buf_len retrieve_len = do
    r ← outside (p.http_recv buf_len (u32 (timeout_s * 1000)) retrieve_len)
    modify (λ o. record o { ch_fetch = open_at r.retrieve_len })
    pure (
      if eq_ℤ r.rc success_ret then r.got +ℤ retrieve_len else fetch_code r.rc,
      r.bytes ++ drop (length r.bytes) buf,
    )

  abbrev pub fetch_channel : FetchChannel → List ℕ → ℕ → ℕ → ℕ → Act p.World (ℤ × List ℕ)
  fetch_channel null buf buf_len range_len timeout_s = crash
  fetch_channel freed buf buf_len range_len timeout_s = crash
  fetch_channel (open_at retrieve_len) buf buf_len range_len timeout_s = do
    o ← get
    url ← text_of o.url
    rc ← outside (p.http_send url o.size_fetched range_len)
    if eq_ℤ rc success_ret then receive url timeout_s buf buf_len retrieve_len else pure (rc, buf)

  unfoldable pub ofc_fetch : List ℕ → ℕ → ℕ → ℕ → Act p.World (ℤ × List ℕ)
  ofc_fetch buf buf_len range_len timeout_s = do
    o ← get
    fetch_channel o.ch_fetch buf buf_len range_len timeout_s

  -- The reconnection after ERR_HTTP_CONN_ERROR.
  unfoldable pub reconnect : Act p.World (Unit {0})
  reconnect = do ofc_deinit; ofc_init; _ ← ofc_connect; set_state fetching

  -- The branch of `ret < 0`.
  unfoldable pub note_failure : ℤ → Act p.World (Unit {0})
  note_failure ret = do
    set_state fetched
    set_err ret
    if eq_ℤ ret err_ota_fetch_auth_fail
        then (report_fail p errcode_signature_expired >> pure tt)
        else if eq_ℤ ret err_ota_file_not_exist
        then (report_fail p errcode_firmware_not_exist >> pure tt)
        else if eq_ℤ ret err_ota_fetch_timeout
        then (report_fail p errcode_download_timeout >> pure tt)
        else set_err err_ota_fetch_failed

  -- The forced report at the start.
  unfoldable pub first_report : Act p.World (Unit {0})
  first_report = do
    o ← get
    if o.size_fetched == 0
        then (report_progress p (pos 0) progress_downloading
            >> countdown p ota_report_progress_interval)
        else pure tt

  -- `for (retry_time = 0; retry_time < 5; retry_time++)`, with the result of the last fetch.
  unfoldable pub fetch_rounds : ℕ → ℤ → List ℕ → ℕ → ℕ → ℕ → Act p.World (ℤ × List ℕ)
  fetch_rounds zero last buf buf_len range_len timeout_s = pure (last, buf)
  fetch_rounds (suc n) last buf buf_len range_len timeout_s = do
    r ← ofc_fetch buf buf_len range_len timeout_s
    o ← get
    let again = fetch_rounds n r.0 r.1 buf_len range_len timeout_s
    if eq_ℤ r.0 err_http_conn_error && not (is_disconnected o.state)
        then (reconnect >> again)
        else if is_neg r.0
        then (note_failure r.0 >> again)
        else (first_report >> pure r)

  abbrev pub feed : Option (List ℕ) → List ℕ → Act p.World (Unit {0})
  feed none bytes = crash
  feed (some fed) bytes = modify (λ o. record o { md5 = some (fed ++ bytes) })

  abbrev pub count_bytes : ℕ → Act p.World (Unit {0})
  count_bytes ret =
      modify (λ o. record o { size_last_fetched = ret; size_fetched = u32 (o.size_fetched + ret) })

  -- ota_lib_md5_update and the two counters; `ret` bytes of the buffer are read.
  unfoldable pub account : ℕ → List ℕ → Act p.World (Unit {0})
  account ret buf = do
    o ← get
    if ltb (length buf) ret then crash else (feed o.md5 (take ret buf) >> count_bytes ret)

  unfoldable pub report_percent : Act p.World (Unit {0})
  report_percent = do
    o ← get
    let percent = u32 (o.size_fetched * 100) / o.size_file
    if o.size_file == 0
        then crash
        else if percent == 100
        then (report_progress p (pos percent) progress_downloading >> pure tt)
        else do
          expired ← has_expired p
          if ltb 0 o.size_last_fetched && expired
              then (report_progress p (signed32 percent) progress_downloading
                  >> countdown p ota_report_progress_interval)
              else pure tt

  unfoldable pub note_end : Act p.World (Unit {0})
  note_end = do o ← get; if leb o.size_file o.size_fetched then set_state fetched else pure tt

  unfoldable pub fetch_yield : List ℕ → ℕ → ℕ → ℕ → Act p.World (ℤ × List ℕ)
  unfolding fetch_rounds account report_percent note_end
  fetch_yield buf buf_len range_len timeout_s = do
    o ← get
    if buf_len == 0
        then pure (err_ota_invalid_param, buf)
        else if not (is_fetching o.state)
        then (set_err err_ota_invalid_state >> pure (err_ota_invalid_state, buf))
        else do
          r ← fetch_rounds 5 (pos 0) buf buf_len range_len timeout_s
          if is_pos r.0
              then (account (to_ℕ r.0) r.1 >> (report_percent >> (note_end >> pure r)))
              else pure r
