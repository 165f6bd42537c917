-- ===== src/Ota/State.antt =====
-- OTA_Struct_t of uiot/sdk-impl/uiot_export_ota.h, and actions on it. The HTTP client, the MQTT
-- client, the flash port, MD5, the JSON lookup, the allocator and the clock are the parameter
-- Platform; its state is World.
use ucloud_iot_rtthread_pack.Prelude.{
  Text, ℕ, ◌+◌, ◌*◌, List, Bool, true, false, Option, none, some, ℤ, u32, ltb,
}

pub data OtaState : Type 0 where
  uninited : OtaState
  inited : OtaState
  fetching : OtaState
  fetched : OtaState
  disconnected : OtaState

abbrev pub state_code : OtaState → ℕ
state_code uninited = 0
state_code inited = 1
state_code fetching = 2
state_code fetched = 3
state_code disconnected = 4

abbrev pub is_uninited : OtaState → Bool
is_uninited uninited = true
is_uninited _ = false

abbrev pub is_fetching : OtaState → Bool
is_fetching fetching = true
is_fetching _ = false

abbrev pub is_fetched : OtaState → Bool
is_fetched fetched = true
is_fetched _ = false

abbrev pub is_disconnected : OtaState → Bool
is_disconnected disconnected = true
is_disconnected _ = false

-- ch_fetch: NULL, the channel with its response_content_len and retrieve_len, or a pointer to one
-- that ofc_deinit has freed.
pub data FetchChannel : Type 0 where
  null : FetchChannel
  open_at : ℤ → FetchChannel
  freed : FetchChannel

-- A pointer to a text is `none` where it is NULL. `md5` holds the bytes that were fed to it.
-- `msg_list` is that of the signal channel.
pub record Ota : Type 0 where
  pub state : OtaState
  pub size_last_fetched : ℕ
  pub size_fetched : ℕ
  pub size_file : ℕ
  pub url : Option Text
  pub download_name : Option Text
  pub module_name : Option Text
  pub version : Option Text
  pub md5sum : Option Text
  pub md5 : Option (List ℕ)
  pub ch_fetch : FetchChannel
  pub err : ℤ
  pub report_timer : ℕ
  pub has_fetch_callback : Bool
  pub product_sn : Text
  pub device_sn : Text
  pub msg_list : List Text

-- What http_client_recv_data stored: its return code, response_content_len minus retrieve_len, the
-- new retrieve_len, and the bytes in the buffer.
pub record Received : Type 0 where
  pub rc : ℤ
  pub got : ℤ
  pub retrieve_len : ℤ
  pub bytes : List ℕ

pub record Platform : Type 1 where
  pub World : Type 0
  pub malloc : World → Bool × World
  pub mutex_create : World → Bool × World
  pub subscribe : Text → World → ℤ × World
  pub publish : ℕ → Text → Text → World → ℤ × World
  pub arrivals : ℕ → World → List Text × World
  pub http_connect : Text → World → ℤ × World
  pub http_close : World → World
  pub http_send : Text → ℕ → ℕ → World → ℤ × World
  pub http_recv : ℕ → ℕ → ℤ → World → Received × World
  pub download_name_set : Text → World → Option Text × World
  pub download_init : Option Text → World → Bool × World
  pub download_write : ℕ → List ℕ → World → ℤ × World
  pub download_end : World → ℤ × World
  pub fetch_callback : ℤ → World → World
  pub json_value_of : Text → Text → Option Text
  pub get_uint32 : Text → Option ℕ
  pub md5_hex : List ℕ → Text
  pub tick : World → ℕ × World
  pub ticks_of_ms : ℕ → ℕ

-- `writes` records the calls of HAL_Download_Write: the offset and the bytes.
pub record St (W : Type 0) : Type 0 where
  pub ota : Ota
  pub world : W
  pub writes : List (ℕ × List ℕ)

-- `fault` is undefined behaviour; `spent` is a loop that ran out of fuel.
pub data Answer (W A : Type 0) : Type 0 where
  done : A → St W → Answer W A
  fault : Answer W A
  spent : Answer W A

abbrev pub Act : Type 0 → Type 0 → Type 0
Act W A = St W → Answer W A

module _ {W A B : Type 0} where
  abbrev pub continue : Answer W A → (A → Act W B) → Answer W B
  continue (done a s) f = f a s
  continue fault f = fault
  continue spent f = spent

  infixl 5 ◌>>=◌ ◌>>◌
  abbrev pub ◌>>=◌ : Act W A → (A → Act W B) → Act W B
  ◌>>=◌ m f s = continue (m s) f

  abbrev pub ◌>>◌ : Act W A → Act W B → Act W B
  m >> k = m >>= λ _. k

module _ {W : Type 0} where
  abbrev pub pure : {A : Type 0} → A → Act W A
  pure a s = done a s

  abbrev pub crash : {A : Type 0} → Act W A
  crash s = fault

  abbrev pub get : Act W Ota
  get s = done s.ota s

  abbrev pub modify : (Ota → Ota) → Act W (Unit {0})
  modify f s = done tt (record s { ota = f s.ota })

  abbrev pub set_state : OtaState → Act W (Unit {0})
  set_state q = modify (λ o. record o { state = q })

  -- `h_ota->err = code;`
  abbrev pub set_err : ℤ → Act W (Unit {0})
  set_err code = modify (λ o. record o { err = code })

  -- `h_ota->err = code; return code;`
  abbrev pub refuse : ℤ → Act W ℤ
  refuse code = do set_err code; pure code

  abbrev pub outside : {A : Type 0} → (W → A × W) → Act W A
  outside f s = let (a, w) = f s.world in done a (record s { world = w })

  abbrev pub tell : (W → W) → Act W (Unit {0})
  tell f s = done tt (record s { world = f s.world })

  -- A text that is read through a pointer.
  abbrev pub text_of : Option Text → Act W Text
  text_of none = crash
  text_of (some t) = pure t

module _ (p : Platform) where
  -- countdown and has_expired of utils_timer.c
  abbrev pub countdown : ℕ → Act p.World (Unit {0})
  countdown seconds = do
    now ← outside p.tick
    modify (λ o. record o { report_timer = u32 (now + p.ticks_of_ms (u32 (seconds * 1000))) })

  abbrev pub has_expired : Act p.World Bool
  has_expired = do now ← outside p.tick; o ← get; pure (ltb o.report_timer now)
