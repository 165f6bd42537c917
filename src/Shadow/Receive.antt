-- ===== src/Shadow/Receive.antt =====
-- The messages that the shadow receives: _handle_delta, topic_request_result_handler and
-- topic_sync_handler of uiot/shadow/src/shadow_client_manager.c.
use mathlib.Core.List.{reverse}
use ucloud_iot_rtthread_pack.Prelude.{
  ℕ, ◌-◌, List, [], ◌∷◌, ◌++◌, Bool, true, false, Option, none, some, ℤ, if◌then◌else◌, ltb, length,
  take, Text, codes, strncmp_eq, ◌||◌, ◌==◌,
}
use ucloud_iot_rtthread_pack.Codes.{err_param_invalid}
use ucloud_iot_rtthread_pack.Mqtt.Topic.{str_equal}
use ucloud_iot_rtthread_pack.Utils.Json.Lookup.{json_value_of}
use ucloud_iot_rtthread_pack.Ota.Callback.{until_nul}
use ucloud_iot_rtthread_pack.Shadow.Document.{
  Method, get_all, update, update_and_reset_ver, delete, delete_all, reply_control_update,
  reply_control_delete,
}
use ucloud_iot_rtthread_pack.Shadow.State.{
  Handler, Params, desired, Host, Act, ◌>>=◌, ◌>>◌, pure, get, modify, outside, with_state, note,
  crash,
}
use ucloud_iot_rtthread_pack.Shadow.Client.{
  rx_buf_len, make_request, read_text, read_number, answer_requests, iterator,
}
pub mod Bounded
pub mod Answers

-- MAX_WAIT_TIME_SEC
abbrev pub max_wait_time_sec : ℕ
max_wait_time_sec = 1

-- The method of the reply, by cloud_send_method.
abbrev pub reply_method : Method → Method
reply_method update = reply_control_update
reply_method get_all = reply_control_update
reply_method update_and_reset_ver = reply_control_update
reply_method reply_control_update = reply_control_update
reply_method delete = reply_control_delete
reply_method delete_all = reply_control_delete
reply_method reply_control_delete = reply_control_delete

-- A value that is not null: find_value_if_key_match.
abbrev pub unless_null : Option Text → Option Text
unless_null none = none
unless_null (some t) =
    if strncmp_eq t (codes "null") 4 || strncmp_eq t (codes "NULL") 4 then none else some t

module _ (p : Host) where
  -- uiot_shadow_request_init: `none` is NULL.
  unfoldable pub request_init : Method → Option ℕ → ℕ → Act p.World (Option Params)
  request_init method callback timeout_sec = do
    params ← outside p.malloc
    list ← (if params then outside p.malloc else pure false)
    pure (
        if list
        then some
            (record { method = method; delta = []; timeout_sec = timeout_sec; callback = callback })
        else none)

  -- A callback gets the request, which may be NULL, and may add properties to it.
  abbrev pub added : Option Params → List ℕ → Option Params
  added none as' = none
  added (some q) as' = some (record q { delta = q.delta ++ as' })

  abbrev pub tell_handler : Option ℕ → Option Text → ℕ → Option Params → Act p.World (Option Params)
  tell_handler none v a q = pure q
  tell_handler (some f) none a q = pure q
  tell_handler (some f) (some v) a q = do
    note (desired f a v)
    more_properties ← outside (p.on_property f a v)
    pure (added q more_properties)

  -- The loop over the handlers, in the order of the iterator.
  unfoldable pub tell_each : Text → List Handler → Option Params → Act p.World (Option Params)
  tell_each delta [] q = pure q
  tell_each delta (h ∷ hs) q = do
    o ← get
    v ← with_state (json_value_of (o.property h.property).key delta)
    new ← tell_handler h.callback (unless_null v) h.property q
    tell_each delta hs new

  -- The check of the pointer in uiot_shadow_make_request.
  abbrev pub make_request_of : ℕ → Option Params → Act p.World ℤ
  make_request_of buf_len none = pure err_param_invalid
  make_request_of buf_len (some q) = make_request p buf_len q

  abbrev pub answer_delta : Text → List Handler → Option Params → Act p.World (Unit {0})
  answer_delta delta hs params = do
    new ← tell_each delta (reverse hs) params
    _ ← make_request_of rx_buf_len new
    pure tt

  -- _handle_delta; without an iterator over the handlers it returns at once
  unfoldable pub handle_delta : Text → Act p.World (Unit {0})
  handle_delta delta = do
    o ← get
    params ← request_init (reply_method o.sent_method) none max_wait_time_sec
    if o.freed then crash else do
      granted ← outside (iterator p o.handlers)
      if granted then answer_delta delta o.handlers params else pure tt

  abbrev pub handle_desired : Option Text → Act p.World (Unit {0})
  handle_desired none = pure tt
  handle_desired (some d) = if ltb 2 (length d) then handle_delta d else pure tt

  -- The received payload in cloud_rcv_buf: a string ends at its NUL.
  abbrev pub receive : Text → Act p.World (Unit {0})
  receive payload = modify (λ o. record o { received = until_nul (take (rx_buf_len - 1) payload) })

  -- Behind the version, by the method.
  unfoldable pub result_by_code : Option ℕ → Text → Act p.World (Unit {0})
  result_by_code none method = pure tt
  result_by_code (some code) method = if code == 0 then answer_requests p method else pure tt

  unfoldable pub result_by_method : Text → Act p.World (Unit {0})
  result_by_method method =
      if str_equal method (codes "reply")
      then (read_number p (codes "Payload.RetCode") >>= λ code. result_by_code code method)
      else if str_equal method (codes "control")
      then (read_text p (codes "Payload.State.Desired") >>= λ d.
          handle_desired d >> answer_requests p method)
      else pure tt

  abbrev pub with_version : Option ℕ → Act p.World (Unit {0}) → Act p.World (Unit {0})
  with_version none next = pure tt
  with_version (some n) next = modify (λ o. record o { version = n }) >> next

  abbrev pub with_method : Option Text → Act p.World (Unit {0})
  with_method none = pure tt
  with_method (some method) =
      read_number p (codes "Version") >>= λ n. with_version n (result_by_method method)

  -- topic_request_result_handler
  unfoldable pub topic_request_result_handler : Text → Act p.World (Unit {0})
  topic_request_result_handler payload =
      if ltb rx_buf_len (length payload)
      then pure tt
      else (receive payload >> (read_text p (codes "Method") >>= λ m. with_method m))

  -- topic_sync_handler
  unfoldable pub topic_sync_handler : Text → Act p.World (Unit {0})
  topic_sync_handler payload =
      if ltb rx_buf_len (length payload)
      then pure tt
      else (receive payload
          >> (read_number p (codes "Version") >>= λ n. with_version n (
              read_text p (codes "State.Desired") >>= λ d.
              handle_desired d >> answer_requests p (codes "get_reply"))))
