-- ===== src/Shadow/State.antt =====
-- UIoT_Shadow of uiot/shadow/include/shadow_client.h, the platform below it, and actions on both. A
-- DeviceProperty stands at an address, since the caller and the list of handlers share it. The lists
-- are lists in their order; a callback is a number, and its call an event.
use ucloud_iot_rtthread_pack.Prelude.{
  ℕ, ◌+◌, ◌*◌, List, [], ◌∷◌, ◌++◌, Bool, Option, none, some, ℤ, Text, Outcome, ok, err, fault, ltb,
  u32,
}
use ucloud_iot_rtthread_pack.Shadow.Document.{Method, Property}

pub data RequestAck : Type 0 where
  ack_none : RequestAck
  ack_timeout : RequestAck
  ack_rejected : RequestAck
  ack_accepted : RequestAck

-- The timer is the tick at which the request expires.
pub record Request : Type 0 where
  pub method : Method
  pub timer : ℕ
  pub callback : Option ℕ

-- PropertyHandler: the address of the property.
pub record Handler : Type 0 where
  pub property : ℕ
  pub callback : Option ℕ

-- RequestParams: the list has addresses of properties, in the order in which they were added.
pub record Params : Type 0 where
  pub method : Method
  pub delta : List ℕ
  pub timeout_sec : ℕ
  pub callback : Option ℕ

pub data Event : Type 0 where
  answered : ℕ → Method → RequestAck → Event
  desired : ℕ → ℕ → Text → Event

-- `freed` holds once property_list is freed; `sent_method` is cloud_send_method, and `received` is cloud_rcv_buf.
pub record Shadow : Type 0 where
  pub version : ℕ
  pub requests : List Request
  pub handlers : List Handler
  pub freed : Bool
  pub property : ℕ → Property
  pub sent_method : Method
  pub received : Text
  pub events : List Event

-- `publish` has the topic of the synchronisation or that of the requests. A callback on a property
-- returns the addresses of the properties that it adds to its request. `get_uint32` is sscanf;
-- `connected`, `subscribe`, `unsubscribe` and `yield` are IOT_MQTT_IsConnected, IOT_MQTT_Subscribe and
-- IOT_MQTT_Unsubscribe with the topic, and IOT_MQTT_Yield with the messages that arrive on either topic meanwhile.
pub record Host : Type 1 where
  pub World : Type 0
  pub malloc : World → Bool × World
  pub tick : World → ℕ × World
  pub ticks_of_ms : ℕ → ℕ
  pub topic_fits : Bool → Bool
  pub publish : Bool → Text → World → ℤ × World
  pub on_property : ℕ → ℕ → Text → World → List ℕ × World
  pub get_uint32 : Text → Option ℕ
  pub connected : World → Bool × World
  pub mutex : World → Bool × World
  pub subscribe : Bool → World → ℤ × World
  pub unsubscribe : Bool → World → ℤ × World
  pub yield : ℕ → World → (List (Bool × Text) × ℤ) × World

pub record St (W : Type 0) : Type 0 where
  pub shadow : Shadow
  pub world : W

abbrev pub Act : Type 0 → Type 0 → Type 0
Act W A = St W → Outcome (A × St W)

module _ {W A B : Type 0} where
  abbrev pub continue : Outcome (A × St W) → (A → Act W B) → Outcome (B × St W)
  continue (ok (a, s)) f = f a s
  continue (err e) f = err e
  continue fault f = fault

  infixl 5 ◌>>=◌ ◌>>◌
  abbrev pub ◌>>=◌ : Act W A → (A → Act W B) → Act W B
  ◌>>=◌ m f s = continue (m s) f

  abbrev pub ◌>>◌ : Act W A → Act W B → Act W B
  m >> k = m >>= λ _. k

module _ {W : Type 0} where
  abbrev pub pure : {A : Type 0} → A → Act W A
  pure a s = ok (a, s)

  abbrev pub get : Act W Shadow
  get s = ok (s.shadow, s)

  abbrev pub modify : (Shadow → Shadow) → Act W (Unit {0})
  modify f s = ok (tt, record s { shadow = f s.shadow })

  abbrev pub outside : {A : Type 0} → (W → A × W) → Act W A
  outside f s = let (a, w) = f s.world in ok (a, record s { world = w })

  -- The use of what is freed.
  abbrev pub crash : {A : Type 0} → Act W A
  crash s = fault

  -- A result that needs no state.
  abbrev pub with_state : {A : Type 0} → Outcome A → Act W A
  with_state (ok a) s = ok (a, s)
  with_state (err e) s = err e
  with_state fault s = fault

  abbrev pub note : Event → Act W (Unit {0})
  note e = modify (λ o. record o { events = o.events ++ e ∷ [] })

  -- The call of a callback that may be NULL.
  abbrev pub answer : Option ℕ → Method → RequestAck → Act W (Unit {0})
  answer none method ack = pure tt
  answer (some f) method ack = note (answered f method ack)

module _ (p : Host) where
  -- countdown and has_expired of utils_timer.c
  abbrev pub countdown : ℕ → Act p.World ℕ
  countdown seconds = do
    now ← outside p.tick
    pure (u32 (now + p.ticks_of_ms (u32 (seconds * 1000))))

  abbrev pub has_expired : ℕ → Act p.World Bool
  has_expired timer = do now ← outside p.tick; pure (ltb timer now)
