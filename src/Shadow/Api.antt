-- ===== src/Shadow/Api.antt =====
-- The interface of the device shadow: IOT_Shadow_* of uiot/shadow/src/shadow_client.c with the
-- registration of properties in shadow_client_common.c and uiot_shadow_init and
-- uiot_shadow_subscribe_topic of shadow_client_manager.c.
use ucloud_iot_rtthread_pack.Prelude.{
  ℕ, List, [], ◌∷◌, ◌++◌, Bool, true, false, Option, none, some, ℤ, if◌then◌else◌, ◌==◌, is_neg,
  Text, eq_ℤ,
}
use ucloud_iot_rtthread_pack.Codes.{
  success_ret, failure_ret, err_param_invalid, err_mqtt_no_conn, err_shadow_property_exist,
  err_shadow_not_property_exist,
}
use ucloud_iot_rtthread_pack.Mqtt.Topic.{str_equal}
use ucloud_iot_rtthread_pack.Shadow.Document.{
  Method, get_all, update, update_and_reset_ver, delete, delete_all, Property,
}
use ucloud_iot_rtthread_pack.Shadow.State.{
  Handler, Params, Shadow, Host, Act, ◌>>=◌, ◌>>◌, pure, get, modify, outside,
}
use ucloud_iot_rtthread_pack.Shadow.Client.{find_handler, handle_expired_request}
use ucloud_iot_rtthread_pack.Shadow.Receive.{
  request_init, make_request_of, topic_request_result_handler, topic_sync_handler,
}
pub mod Bounded
pub mod Registry
pub mod Timeouts

-- UIOT_MQTT_TX_BUF_LEN
abbrev pub tx_buf_len : ℕ
tx_buf_len = 2048

abbrev pub is_found : Option Handler → Bool
is_found none = false
is_found (some h) = true

-- shadow_common_check_property_existence
unfoldable pub check_property_existence : ℕ → Shadow → Bool
check_property_existence a o = is_found (find_handler o.property (o.property a).key o.handlers)

-- list_remove of what list_find finds.
unfoldable pub drop_handler : (ℕ → Property) → Text → List Handler → List Handler
drop_handler property key [] = []
drop_handler property key (h ∷ hs) =
    let rest = drop_handler property key hs in
    if str_equal (property h.property).key key then hs else h ∷ rest

abbrev pub is_null : {A : Type 0} → Option A → Bool
is_null none = true
is_null (some a) = false

module _ (p : Host) where
  -- request_common_add_delta_property
  abbrev pub common_add_delta_property : ℕ → Params → Act p.World (ℤ × Option Params)
  common_add_delta_property a q = do
    node ← outside p.malloc
    pure (
        if node
        then (success_ret, some (record q { delta = q.delta ++ a ∷ [] }))
        else (failure_ret, some q))

  -- IOT_Shadow_Request_Add_Delta_Property
  unfoldable pub add_delta_property : ℕ → Option Params → Act p.World (ℤ × Option Params)
  add_delta_property a none = pure (err_param_invalid, none)
  add_delta_property a (some q) = common_add_delta_property a q

  -- The loop over the variable arguments, of which each may be NULL: false where one cannot be
  -- added.
  unfoldable pub add_each : List (Option ℕ) → Option Params → Act p.World (Bool × Option Params)
  add_each [] q = pure (true, q)
  add_each (none ∷ as') q = add_each as' q
  add_each (some a ∷ as') q = add_delta_property a q >>= λ r.
      if eq_ℤ r.0 success_ret then add_each as' r.1 else pure (false, r.1)

  -- The request with its document in a buffer of its own.
  abbrev pub submit : Option Params → Act p.World ℤ
  submit q = outside p.connected >>= λ c.
      if c then make_request_of p tx_buf_len q else pure err_mqtt_no_conn

  abbrev pub request_with : Method → Option ℕ → ℕ → List (Option ℕ) → Act p.World ℤ
  request_with method callback timeout_sec as' =
      if timeout_sec == 0
      then pure err_param_invalid
      else (request_init p method callback timeout_sec >>= λ q.
          add_each as' q >>= λ r. if r.0 then submit r.1 else pure failure_ret)

  -- A request without properties.
  abbrev pub request_whole : Method → Option ℕ → ℕ → Act p.World ℤ
  request_whole method callback timeout_sec =
      if timeout_sec == 0
      then pure err_param_invalid
      else (request_init p method callback timeout_sec >>= λ q. submit q)

  -- IOT_Shadow_Get_Sync
  unfoldable pub get_sync : Option ℕ → ℕ → Act p.World ℤ
  get_sync callback timeout_sec = request_whole get_all callback timeout_sec

  -- IOT_Shadow_Update
  unfoldable pub shadow_update : Option ℕ → ℕ → List (Option ℕ) → Act p.World ℤ
  shadow_update callback timeout_sec as' = request_with update callback timeout_sec as'

  -- IOT_Shadow_Update_And_Reset_Version
  unfoldable pub update_and_reset_version : Option ℕ → ℕ → List (Option ℕ) → Act p.World ℤ
  update_and_reset_version callback timeout_sec as' =
      request_with update_and_reset_ver callback timeout_sec as'

  -- IOT_Shadow_Delete
  unfoldable pub shadow_delete : Option ℕ → ℕ → List (Option ℕ) → Act p.World ℤ
  shadow_delete callback timeout_sec as' = request_with delete callback timeout_sec as'

  -- IOT_Shadow_Delete_All
  unfoldable pub shadow_delete_all : Option ℕ → ℕ → Act p.World ℤ
  shadow_delete_all callback timeout_sec = request_whole delete_all callback timeout_sec

  abbrev pub push_handler : Handler → Act p.World ℤ
  push_handler h = modify (λ o. record o { handlers = o.handlers ++ h ∷ [] }) >> pure success_ret

  -- _add_property_handle_to_list
  unfoldable pub add_property_handle : ℕ → Option ℕ → Act p.World ℤ
  add_property_handle a callback = outside p.malloc >>= λ granted.
      if granted
      then (outside p.malloc >>= λ node.
          if node
          then push_handler (record { property = a; callback = callback })
          else pure failure_ret)
      else pure failure_ret

  -- shadow_common_register_property_on_delta
  unfoldable pub register_property_on_delta : ℕ → Option ℕ → Act p.World ℤ
  register_property_on_delta a callback = get >>= λ o.
      if is_null callback
      then pure err_param_invalid
      else if is_null (o.property a).value
      then pure err_param_invalid
      else add_property_handle a callback

  -- IOT_Shadow_Register_Property
  unfoldable pub register_property : ℕ → Option ℕ → Act p.World ℤ
  register_property a callback = outside p.connected >>= λ c.
      if c
      then (get >>= λ o.
          if check_property_existence a o
          then pure err_shadow_property_exist
          else register_property_on_delta a callback)
      else pure err_mqtt_no_conn

  abbrev pub take_handler : ℕ → Act p.World ℤ
  take_handler a =
      modify (λ o. record o { handlers = drop_handler o.property (o.property a).key o.handlers })
      >> pure success_ret

  -- shadow_common_remove_property
  unfoldable pub remove_property : ℕ → Act p.World ℤ
  remove_property a = get >>= λ o.
      if check_property_existence a o then take_handler a else pure err_shadow_not_property_exist

  -- IOT_Shadow_UnRegister_Property
  unfoldable pub unregister_property : ℕ → Act p.World ℤ
  unregister_property a = outside p.connected >>= λ c.
      if c
      then (get >>= λ o.
          if check_property_existence a o
          then remove_property a
          else pure err_shadow_not_property_exist)
      else pure err_mqtt_no_conn

  -- The handler of a topic, by the MQTT client: topic_sync_handler or topic_request_result_handler.
  unfoldable pub deliver_each : List (Bool × Text) → Act p.World (Unit {0})
  deliver_each [] = pure tt
  deliver_each ((is_sync, payload) ∷ ms) =
      (if is_sync then topic_sync_handler p payload else topic_request_result_handler p payload)
      >> deliver_each ms

  -- IOT_Shadow_Yield
  unfoldable pub shadow_yield : ℕ → Act p.World ℤ
  shadow_yield timeout_ms =
      if timeout_ms == 0
      then pure err_param_invalid
      else (handle_expired_request p
          >> (outside (p.yield timeout_ms) >>= λ r. deliver_each r.0 >> pure r.1))

  -- uiot_shadow_init
  unfoldable pub shadow_init : Act p.World ℤ
  shadow_init =
      modify (λ o. record o { version = 0 })
      >> (outside p.mutex >>= λ request_mutex.
          if request_mutex
          then (outside p.mutex >>= λ property_mutex.
              if property_mutex
              then (outside p.malloc >>= λ property_list.
                  if property_list
                  then (modify (λ o. record o { handlers = []; freed = false })
                      >> (outside p.malloc >>= λ request_list.
                          if request_list
                          then (modify (λ o. record o { requests = [] }) >> pure success_ret)
                          else pure failure_ret))
                  else pure failure_ret)
              else pure failure_ret)
          else pure failure_ret)

  -- uiot_shadow_subscribe_topic
  unfoldable pub subscribe_topic : Bool → Act p.World ℤ
  subscribe_topic is_sync = outside p.malloc >>= λ granted.
      if granted then outside (p.subscribe is_sync) else pure failure_ret

  -- IOT_Shadow_Construct: whether a shadow is returned.
  unfoldable pub construct : Act p.World Bool
  construct = outside p.malloc >>= λ granted.
      if granted
      then (shadow_init >>= λ ret.
          if eq_ℤ ret success_ret
          then (subscribe_topic true >>= λ first.
              if is_neg first
              then pure false
              else (subscribe_topic false >>= λ second.
                  pure (if is_neg second then false else true)))
          else pure false)
      else pure false

  -- uiot_shadow_unsubscribe_topic
  unfoldable pub unsubscribe_topic : Bool → Act p.World ℤ
  unsubscribe_topic is_sync = outside p.malloc >>= λ granted.
      if granted then outside (p.unsubscribe is_sync) else pure failure_ret

  -- uiot_shadow_reset: the list of properties is freed before the last messages are read.
  unfoldable pub shadow_reset : Act p.World (Unit {0})
  shadow_reset =
      modify (λ o. record o { handlers = []; freed = true })
      >> (unsubscribe_topic false
          >> (unsubscribe_topic true
              >> (outside (p.yield 200) >>= λ r.
                  deliver_each r.0 >> modify (λ o. record o { requests = [] }))))

  -- IOT_Shadow_Destroy
  unfoldable pub destroy : Act p.World ℤ
  destroy = shadow_reset >> pure success_ret
