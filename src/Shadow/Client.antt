-- ===== src/Shadow/Client.antt =====
-- The requests and the received messages of uiot/shadow/src/shadow_client_manager.c, with the updates
-- of properties of shadow_client_common.c.
use mathlib.Core.List.{reverse, map}
use ucloud_iot_rtthread_pack.Prelude.{
  ℕ, List, [], ◌∷◌, ◌++◌, Bool, true, false, Option, none, some, ℤ, if◌then◌else◌, leb, ◌==◌,
  is_neg, length, Text, codes, ◌||◌, eq_ℤ,
}
use ucloud_iot_rtthread_pack.Codes.{
  success_ret, failure_ret, err_max_appending_request, err_param_invalid,
}
use ucloud_iot_rtthread_pack.Mqtt.Topic.{str_equal}
use ucloud_iot_rtthread_pack.Utils.Json.Lookup.{json_value_of}
use ucloud_iot_rtthread_pack.Shadow.Document.{
  Method, get_all, update, update_and_reset_ver, delete, delete_all, reply_control_update,
  reply_control_delete, Property, make_document,
}
use ucloud_iot_rtthread_pack.Shadow.State.{
  RequestAck, ack_none, ack_timeout, ack_rejected, ack_accepted, Request, Handler, Params, Shadow,
  Host, Act, ◌>>=◌, ◌>>◌, pure, get, modify, outside, with_state, answer, countdown, has_expired,
}
pub mod Bounded
pub mod Called
pub mod Expiry

-- MAX_APPENDING_REQUEST_AT_ANY_GIVEN_TIME
abbrev pub max_appending_request : ℕ
max_appending_request = 10

-- CLOUD_IOT_JSON_RX_BUF_LEN
abbrev pub rx_buf_len : ℕ
rx_buf_len = 2049

abbrev pub is_delete_all : Method → Bool
is_delete_all delete_all = true
is_delete_all _ = false

abbrev pub is_get : Method → Bool
is_get get_all = true
is_get _ = false

-- The data of a property at an address.
abbrev pub set_value : ℕ → Property → Shadow → Shadow
set_value a new o = record o { property = λ b. if b == a then new else o.property b }

-- list_find with shadow_common_check_property_match: the first handler with this key.
unfoldable pub find_handler : (ℕ → Property) → Text → List Handler → Option Handler
find_handler property key [] = none
find_handler property key (h ∷ hs) =
    let rest = find_handler property key hs in
    if str_equal (property h.property).key key then some h else rest

abbrev pub new_value : Method → Property → Property → Option Property
new_value update q old = some (record old { value = q.value })
new_value reply_control_update q old = some (record old { value = q.value })
new_value update_and_reset_ver q old = some (record old { value = q.value })
new_value delete q old = some (record old { value = none })
new_value reply_control_delete q old = some (record old { value = none })
new_value _ q old = none

abbrev pub set_handled : Option Handler → Method → Property → Shadow → Shadow
set_handled none method q o = o
set_handled (some h) method q o = elim (new_value method q (o.property h.property)) [
  | none ↦ o
  | some new ↦ set_value h.property new o
]

-- shadow_common_update_property, whose result is not looked at.
unfoldable pub update_one : Method → ℕ → Shadow → Shadow
update_one method a o =
    set_handled (find_handler o.property (o.property a).key o.handlers) method (o.property a) o

unfoldable pub update_each : Method → List ℕ → Shadow → Shadow
update_each method [] o = o
update_each method (a ∷ as') o = update_each method as' (update_one method a o)

unfoldable pub clear_each : List Handler → Shadow → Shadow
clear_each [] o = o
clear_each (h ∷ hs) o =
    clear_each hs (set_value h.property (record (o.property h.property) { value = none }) o)

-- The walks of uiot_shadow_update_property. The iterators start at the tail.
unfoldable pub update_property : Params → Shadow → Shadow
update_property params o =
    if is_delete_all params.method
    then clear_each (reverse o.handlers) o
    else update_each params.method (reverse params.delta) o

module _ (p : Host) where
  -- shadow_add_request_to_list
  unfoldable pub add_request : Params → Act p.World ℤ
  add_request params = do
    o ← get
    if leb max_appending_request (length o.requests) then pure err_max_appending_request else do
      granted ← outside p.malloc
      if granted
          then (do
            timer ← countdown p params.timeout_sec
            node ← outside p.malloc
            if node
                then (do
                  modify (λ q. record q {
                    requests =
                        q.requests
                        ++ record {
                          method = params.method;
                          timer = timer;
                          callback = params.callback;
                        }
                          ∷ [];
                  })
                  pure success_ret)
                else pure failure_ret)
          else pure failure_ret

  -- uiot_shadow_publish_operation_to_cloud
  unfoldable pub publish_operation : Method → Text → Act p.World ℤ
  publish_operation method doc =
      if p.topic_fits (is_get method)
      then (do
        modify (λ o. record o { sent_method = method })
        ret ← outside (p.publish (is_get method) doc)
        pure (if is_neg ret then failure_ret else success_ret))
      else pure failure_ret

  -- list_iterator_new in front of a walk: `false` where there is no memory. An empty list is not
  -- walked and needs none.
  abbrev pub iterator : {A : Type 0} → List A → p.World → Bool × p.World
  iterator [] w = (true, w)
  iterator (x ∷ xs) w = p.malloc w

  -- uiot_shadow_update_property with the iterator that it needs, over the properties of the request
  -- or, for DELETE_ALL, over the handlers: nothing is updated without it.
  abbrev pub update_iterator : Params → Shadow → p.World → Bool × p.World
  update_iterator params o =
      if is_delete_all params.method then iterator o.handlers else iterator params.delta

  abbrev pub store_update : Params → Act p.World ℤ
  store_update params = do
    o ← get
    granted ← outside (update_iterator params o)
    if granted
        then (do modify (update_property params); pure success_ret)
        else pure err_param_invalid

  -- shadow_json_set_content allocates an iterator over the properties.
  abbrev pub needs_iterator : Method → List ℕ → Bool
  needs_iterator get_all delta = false
  needs_iterator delete_all delta = false
  needs_iterator method [] = false
  needs_iterator method (a ∷ as') = true

  abbrev pub property_iterator : Params → Act p.World Bool
  property_iterator params =
      if needs_iterator params.method params.delta then outside p.malloc else pure true

  -- uiot_shadow_make_request: the result of shadow_add_request_to_list is overwritten.
  unfoldable pub make_request : ℕ → Params → Act p.World ℤ
  make_request buf_len params = do
    _ ← add_request params
    o ← get
    granted ← property_iterator params
    r ← with_state (
        make_document buf_len granted params.method (map o.property (reverse params.delta))
          o.version)
    if eq_ℤ r.0 success_ret
        then (do
          ret ← publish_operation params.method r.1
          if eq_ℤ ret success_ret then store_update params else pure ret)
        else pure r.0

  -- _traverse_list, with the walk over the requests.
  abbrev traverse_list : List Request → Act p.World (Unit {0}) → Act p.World (Unit {0})
  traverse_list rs walk = do granted ← outside (iterator rs); if granted then walk else pure tt

  -- _handle_expired_request_callback on the list, from its tail: the requests that stay.
  unfoldable pub expire_each : List Request → Act p.World (List Request)
  expire_each [] = pure []
  expire_each (r ∷ rs) = do
    kept ← expire_each rs
    expired ← has_expired p r.timer
    if expired then (answer r.callback r.method ack_timeout >> pure kept) else pure (r ∷ kept)

  -- _handle_expired_request
  unfoldable pub handle_expired_request : Act p.World (Unit {0})
  handle_expired_request = do
    o ← get
    traverse_list o.requests
        (do kept ← expire_each o.requests; modify (λ q. record q { requests = kept }))

  -- A number at a key of the received document: parse_version_num and
  -- parse_shadow_payload_retcode_type.
  abbrev pub number_in : Option Text → Option ℕ
  number_in none = none
  number_in (some t) = p.get_uint32 t

  abbrev pub read_text : Text → Act p.World (Option Text)
  read_text key = do o ← get; with_state (json_value_of key o.received)

  abbrev pub read_number : Text → Act p.World (Option ℕ)
  read_number key = do t ← read_text key; pure (number_in t)

  abbrev pub ack_of : Option ℕ → RequestAck
  ack_of none = ack_rejected
  ack_of (some code) = if code == 0 then ack_accepted else ack_rejected

  -- The status by the type of the message.
  unfoldable pub request_status : Text → Act p.World RequestAck
  request_status type =
      if str_equal type (codes "get_reply")
      then pure ack_accepted
      else if str_equal type (codes "reply") || str_equal type (codes "control")
      then (read_number (codes "Payload.RetCode") >>= λ n. pure (ack_of n))
      else pure ack_none

  -- _handle_request_callback on the list, from its tail.
  unfoldable pub answer_each : Text → List Request → Act p.World (Unit {0})
  answer_each type [] = pure tt
  answer_each type (r ∷ rs) = do
    answer_each type rs
    status ← request_status type
    answer r.callback r.method status

  -- _traverse_list with _handle_request_callback: every request of the walk leaves the list.
  unfoldable pub answer_requests : Text → Act p.World (Unit {0})
  answer_requests type = do
    o ← get
    traverse_list o.requests
        (do answer_each type o.requests; modify (λ q. record q { requests = [] }))
