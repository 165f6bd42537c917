-- ===== src/Ota/Download.antt =====
-- IOT_OTA_Ioctl, IOT_OTA_Clear, the queries and IOT_OTA_fw_download of uiot/ota/src/ota_client.c.
use ucloud_iot_rtthread_pack.Prelude.{
  Text, ℕ, zero, suc, ◌+◌, ◌-◌, ◌*◌, ◌/◌, List, [], ◌∷◌, ◌++◌, Bool, true, false, Option, none,
  some, ℤ, pos, negsuc, if◌then◌else◌, ltb, leb, length, is_neg, is_pos, ◌&&◌, ◌||◌, not, to_ℕ,
  eq_ℤ, u32, take, drop, ◌==◌, replicate,
}
use ucloud_iot_rtthread_pack.Codes.{
  success_ret, failure_ret, err_ota_invalid_state, err_ota_invalid_param, err_ota_fetch_failed,
  err_ota_md5_mismatch,
}
use ucloud_iot_rtthread_pack.Mqtt.Topic.{str_equal}
use ucloud_iot_rtthread_pack.Ota.State.{
  Ota, inited, fetching, Platform, Act, St, Answer, spent, ◌>>=◌, ◌>>◌, pure, crash, get, modify,
  set_err, text_of, outside, refuse, is_fetching, is_fetched, is_uninited, state_code,
}
use ucloud_iot_rtthread_pack.Ota.Report.{report_fail, report_success_of, errcode_md5_mismatch}
use ucloud_iot_rtthread_pack.Ota.Fetch.{fetch_yield, ofc_deinit}
pub mod Loop
pub mod Verified
pub mod Incomplete

pub data CmdType : Type 0 where
  fetched_size : CmdType
  file_size : CmdType
  md5_text : CmdType
  version_text : CmdType
  check_firmware : CmdType

-- What the caller's buffer holds after the call.
pub data Stored : Type 0 where
  untouched : Stored
  word : ℕ → Stored
  chars : Text → Stored

-- `(4 != buf_len) || (0 != ((unsigned long)buf & 0x3))`
abbrev pub bad_word : Bool → ℕ → Bool
bad_word aligned buf_len = not (buf_len == 4) || not aligned

abbrev pub give : {W : Type 0} → Stored → Act W (ℤ × Stored)
give out = pure (success_ret, out)

abbrev pub reject : {W : Type 0} → ℤ → Act W (ℤ × Stored)
reject code = do set_err code; pure (failure_ret, untouched)

-- strncpy, and a NUL in the last byte
abbrev pub copy_text : {W : Type 0} → Option Text → ℕ → Act W (ℤ × Stored)
copy_text t buf_len = do s ← text_of t; give (chars (take (buf_len - 1) s))

abbrev pub md5_of : {W : Type 0} → Option (List ℕ) → Act W (List ℕ)
md5_of none = crash
md5_of (some fed) = pure fed

module _ (p : Platform) where
  unfoldable pub compare_md5 : Act p.World (ℤ × Stored)
  compare_md5 = do
    o ← get
    fed ← md5_of o.md5
    sum ← text_of o.md5sum
    if str_equal sum (p.md5_hex fed)
        then give (word 1)
        else (set_err err_ota_md5_mismatch >> (report_fail p errcode_md5_mismatch >> give (word 0)))

  unfoldable pub ioctl_command : CmdType → Bool → ℕ → Act p.World (ℤ × Stored)
  ioctl_command fetched_size aligned buf_len = do
    o ← get
    if bad_word aligned buf_len then reject err_ota_invalid_param else give (word o.size_fetched)
  ioctl_command file_size aligned buf_len = do
    o ← get
    if bad_word aligned buf_len then reject err_ota_invalid_param else give (word o.size_file)
  ioctl_command version_text aligned buf_len = do o ← get; copy_text o.version buf_len
  ioctl_command md5_text aligned buf_len = do o ← get; copy_text o.md5sum buf_len
  ioctl_command check_firmware aligned buf_len = do
    o ← get
    if bad_word aligned buf_len
        then reject err_ota_invalid_param
        else if not (is_fetched o.state)
        then reject err_ota_invalid_state
        else compare_md5

  unfoldable pub ioctl : CmdType → Bool → ℕ → Act p.World (ℤ × Stored)
  unfolding ioctl_command
  ioctl type aligned buf_len = do
    o ← get
    if buf_len == 0
        then pure (err_ota_invalid_param, untouched)
        else if ltb (state_code o.state) (state_code fetching)
        then (set_err err_ota_invalid_state >> pure (err_ota_invalid_state, untouched))
        else ioctl_command type aligned buf_len

  unfoldable pub is_fetching_now : Act p.World Bool
  is_fetching_now = do
    o ← get
    if is_uninited o.state
        then (set_err err_ota_invalid_state >> pure false)
        else pure (is_fetching o.state)

  unfoldable pub is_fetch_finish : Act p.World Bool
  is_fetch_finish = do
    o ← get
    if is_uninited o.state
        then (set_err err_ota_invalid_state >> pure false)
        else pure (is_fetched o.state)

  unfoldable pub get_last_error : Act p.World ℤ
  get_last_error = do o ← get; pure o.err

  -- `memset(s, 0, strlen(s))`
  abbrev pub blank : Option Text → Option Text
  blank none = none
  blank (some t) = some []

  -- The rest of IOT_OTA_Clear: ota_lib_md5_init may fail.
  abbrev pub reset : Act p.World (Unit {0})
  reset = do
    granted ← outside p.malloc
    modify (λ o. record o {
      url = blank o.url;
      module_name = blank o.module_name;
      download_name = blank o.download_name;
      version = blank o.version;
      md5sum = blank o.md5sum;
      size_last_fetched = 0;
      size_fetched = 0;
      size_file = 0;
      md5 = if granted then some [] else none;
      state = inited;
    })

  unfoldable pub clear : Act p.World (Unit {0})
  clear = do ofc_deinit p; reset

  -- HAL_Download_Write
  abbrev pub download_write : ℕ → List ℕ → Act p.World ℤ
  download_write offset bytes s =
      let (ret, w) = p.download_write offset bytes s.world in
      Answer.done ret (record s { world = w; writes = s.writes ++ (offset, bytes) ∷ [] })

  abbrev pub deliver_all : (Text → Act p.World (Unit {0})) → List Text → Act p.World (Unit {0})
  deliver_all deliver [] = pure tt
  deliver_all deliver (m ∷ ms) = do deliver m; deliver_all deliver ms

  -- IOT_OTA_Yield hands each message that arrives to the callback.
  unfoldable pub ota_yield : (Text → Act p.World (Unit {0})) → ℕ → Act p.World (Unit {0})
  ota_yield deliver timeout_ms = do ms ← outside (p.arrivals timeout_ms); deliver_all deliver ms

-- How the loop of the download ends.
pub data LoopEnd : Type 0 where
  stopped : ℤ → LoopEnd
  finished : ℕ → LoopEnd

-- HTTP_OTA_BUFF_LEN and HTTP_OTA_RANGE_LEN
abbrev pub http_ota_buff_len : ℕ
http_ota_buff_len = 4100

-- `memset(buffer_read, 0x00, HTTP_OTA_BUFF_LEN)`
unfoldable pub empty_buffer : List ℕ
empty_buffer = replicate http_ota_buff_len 0

abbrev pub http_ota_range_len : ℕ
http_ota_range_len = 4096

module _ (p : Platform) where
  -- The do-while loop, on fuel; `total` is total_length.
  unfoldable pub download_loop :
      ℕ → (Text → Act p.World (Unit {0})) → ℕ → List ℕ → Act p.World LoopEnd
  download_loop zero deliver total buf = λ s. spent
  download_loop (suc fuel) deliver total buf = do
    r ← fetch_yield p buf http_ota_buff_len http_ota_range_len 10
    let total' = u32 (total + to_ℕ r.0)
    let again = download_loop fuel deliver total' r.1
    if is_pos r.0
        then (do
          ret ← download_write p total (take (to_ℕ r.0) r.1)
          if eq_ℤ ret failure_ret then pure (stopped failure_ret) else (do
            ota_yield p deliver 100
            finish ← is_fetch_finish p
            if finish then pure (finished total') else again))
        else pure (stopped err_ota_fetch_failed)

  abbrev pub stored_word : Stored → ℕ
  stored_word untouched = 0
  stored_word (word n) = n
  stored_word (chars t) = 0

  -- msg_version, which the second call of IOT_OTA_Ioctl fills.
  abbrev pub stored_text : Stored → Act p.World Text
  stored_text (chars t) = pure t
  stored_text untouched = crash
  stored_text (word n) = crash

  -- A return value of 0 is success.
  abbrev pub end_download : Act p.World ℤ
  end_download = do
    ended ← outside p.download_end
    pure (if eq_ℤ ended success_ret then success_ret else failure_ret)

  -- The last part, where `total_length == file_size`; firmware_valid is not initialised.
  abbrev pub conclude : Stored → Act p.World ℤ
  conclude untouched = crash
  conclude (chars t) = crash
  conclude (word zero) = get_last_error p
  conclude (word (suc n)) = do
    v ← ioctl p version_text true 33
    version ← stored_text v.1
    _ ← report_success_of p (some version)
    end_download

  unfoldable pub after_loop : ℕ → LoopEnd → Act p.World ℤ
  after_loop size (stopped ret) = pure ret
  after_loop size (finished total) =
      if total == size
      then (ioctl p check_firmware true 4 >>= λ v. conclude v.1)
      else pure success_ret

  unfoldable pub download_body : ℕ → (Text → Act p.World (Unit {0})) → Act p.World ℤ
  download_body fuel deliver = do
    size ← ioctl p file_size true 4
    o ← get
    opened ← outside (p.download_init o.download_name)
    granted ← (if opened then outside p.malloc else pure false)
    if granted
        then (do
          end ← download_loop fuel deliver 0 empty_buffer
          after_loop (stored_word size.1) end)
        else pure failure_ret

  unfoldable pub fw_download : ℕ → (Text → Act p.World (Unit {0})) → Act p.World ℤ
  fw_download fuel deliver = do ret ← download_body fuel deliver; clear p; pure ret
