-- ===== src/Ota/Report.antt =====
-- The reports of uiot/ota/src/ota_client.c: IOT_OTA_ReportProgress, _ReportVersion,
-- _RequestFirmware, _ReportSuccess and _ReportFail.
use ucloud_iot_rtthread_pack.Prelude.{
  Text, ℕ, zero, suc, ◌+◌, ◌-◌, List, [], ◌∷◌, ◌++◌, Bool, true, false, Option, none, some, ℤ, pos,
  negsuc, if◌then◌else◌, ltb, length, is_neg, ◌||◌, to_ℕ,
}
use ucloud_iot_rtthread_pack.Codes.{err_ota_invalid_state, err_ota_invalid_param, err_ota_no_memory}
use ucloud_iot_rtthread_pack.Ota.State.{
  Ota, Platform, Act, ◌>>=◌, ◌>>◌, pure, get, text_of, outside, tell, refuse, is_uninited,
}
use ucloud_iot_rtthread_pack.Ota.Message.{
  UpstreamMsgType, report_undefined_error, report_firmware_burn_failed, report_md5_mismatch,
  report_download_timeout, report_signature_expired, report_firmware_not_exist, report_downloading,
  report_burning, report_success, request_firmware, report_version, Generated, msg, failed,
  gen_upstream_msg, ota_upstream_msg_buf_len, osc_report_progress, osc_upstream_publish,
}
pub mod Frame

pub data ProgressState : Type 0 where
  progress_downloading : ProgressState
  progress_burning : ProgressState

abbrev pub progress_type : ProgressState → UpstreamMsgType
progress_type progress_downloading = report_downloading
progress_type progress_burning = report_burning

pub data ReportErrCode : Type 0 where
  errcode_firmware_not_exist : ReportErrCode
  errcode_signature_expired : ReportErrCode
  errcode_download_timeout : ReportErrCode
  errcode_md5_mismatch : ReportErrCode
  errcode_firmware_burn_failed : ReportErrCode
  errcode_undefined_error : ReportErrCode

abbrev pub err_type : ReportErrCode → UpstreamMsgType
err_type errcode_firmware_not_exist = report_firmware_not_exist
err_type errcode_signature_expired = report_signature_expired
err_type errcode_download_timeout = report_download_timeout
err_type errcode_md5_mismatch = report_md5_mismatch
err_type errcode_firmware_burn_failed = report_firmware_burn_failed
err_type errcode_undefined_error = report_undefined_error

-- The number that the callback is given.
abbrev pub err_number : ReportErrCode → ℤ
err_number errcode_firmware_not_exist = negsuc 0
err_number errcode_signature_expired = negsuc 1
err_number errcode_download_timeout = negsuc 2
err_number errcode_md5_mismatch = negsuc 3
err_number errcode_firmware_burn_failed = negsuc 4
err_number errcode_undefined_error = negsuc 5

abbrev pub out_of_range : ℤ → Bool
out_of_range progress = is_neg progress || ltb 100 (to_ℕ progress)

-- OTA_VERSION_STR_LEN_MIN and OTA_VERSION_STR_LEN_MAX
abbrev pub bad_version : Text → Bool
bad_version version = ltb (length version) 1 || ltb 32 (length version)

-- The tail of the reports: the message, where it was generated, goes out.
abbrev pub send_msg : {W : Type 0} → (Text → Act W ℤ) → Generated → Act W ℤ
send_msg send (failed e) = refuse e
send_msg send (msg t) = do ret ← send t; if is_neg ret then refuse ret else pure ret

module _ (p : Platform) where
  -- The buffer for the message, or ERR_OTA_NO_MEMORY.
  abbrev pub with_buffer : Act p.World ℤ → Act p.World ℤ
  with_buffer body = do
    granted ← outside p.malloc
    if granted then body else refuse err_ota_no_memory

  unfoldable pub report_progress : ℤ → ProgressState → Act p.World ℤ
  report_progress progress state = do
    o ← get
    if is_uninited o.state
        then refuse err_ota_invalid_state
        else if out_of_range progress
        then refuse err_ota_invalid_param
        else with_buffer (do
          g ←
              gen_upstream_msg ota_upstream_msg_buf_len o.module_name o.version progress
                (progress_type state)
          send_msg (osc_report_progress p) g)

  unfoldable pub send_upstream_msg_with_version :
      Option Text → Option Text → UpstreamMsgType → Act p.World ℤ
  send_upstream_msg_with_version name none report_type = pure err_ota_invalid_param
  send_upstream_msg_with_version name (some version) report_type = do
    o ← get
    if is_uninited o.state
        then refuse err_ota_invalid_state
        else if bad_version version
        then refuse err_ota_invalid_param
        else with_buffer (do
          g ← gen_upstream_msg ota_upstream_msg_buf_len name (some version) (pos 0) report_type
          send_msg (osc_upstream_publish p) g)

  unfoldable pub report_version_of : Option Text → Option Text → Act p.World ℤ
  report_version_of name version = send_upstream_msg_with_version name version report_version

  unfoldable pub request_firmware_of : Option Text → Option Text → Act p.World ℤ
  request_firmware_of name version = send_upstream_msg_with_version name version request_firmware

  abbrev pub call_back : ℤ → Act p.World (Unit {0})
  call_back state = do
    o ← get
    if o.has_fetch_callback then tell (p.fetch_callback state) else pure tt

  -- OTA_REPORT_SUCCESS is 3.
  unfoldable pub report_success_of : Option Text → Act p.World ℤ
  report_success_of version = do
    call_back (pos 3)
    o ← get
    send_upstream_msg_with_version o.module_name version report_success

  unfoldable pub report_fail : ReportErrCode → Act p.World ℤ
  report_fail err_code = do
    o ← get
    if is_uninited o.state
        then refuse err_ota_invalid_state
        else with_buffer (do
          g ←
              gen_upstream_msg ota_upstream_msg_buf_len o.module_name (some []) (pos 0)
                (err_type err_code)
          ret ← send_msg (osc_upstream_publish p) g
          if is_neg ret then pure ret else (call_back (err_number err_code) >> pure ret))
