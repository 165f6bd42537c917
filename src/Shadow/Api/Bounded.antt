-- ===== src/Shadow/Api/Bounded.antt =====
-- Whatever the application calls (uiot/shadow/src/shadow_client.c) and whatever arrives, the list of
-- pending requests keeps its limit.
use ucloud_iot_rtthread_pack.Prelude.{
  ℕ, List, [], ◌∷◌, Bool, false, Option, none, some, ℤ, if◌then◌else◌, ◌==◌, Text, eq_ℤ,
}
use ucloud_iot_rtthread_pack.Codes.{
  success_ret, failure_ret, err_param_invalid, err_mqtt_no_conn, err_shadow_property_exist,
  err_shadow_not_property_exist,
}
use ucloud_iot_rtthread_pack.Shadow.Document.{
  Method, get_all, update, update_and_reset_ver, delete, delete_all,
}
use ucloud_iot_rtthread_pack.Shadow.State.{Params, Host, St, Act, ◌>>◌, pure, outside}
use ucloud_iot_rtthread_pack.Shadow.Client.{handle_expired_request}
use ucloud_iot_rtthread_pack.Shadow.Client.Bounded.{
  IsBounded, IsSafe, Keeps, >>=-Keeps, if-Keeps, handle_expired_request-Keeps,
}
use ucloud_iot_rtthread_pack.Shadow.Receive.{
  request_init, make_request_of, topic_sync_handler, topic_request_result_handler,
}
use ucloud_iot_rtthread_pack.Shadow.Receive.Bounded.{
  request_init-Keeps, make_request_of-Keeps, topic_sync_handler-Keeps,
  topic_request_result_handler-Keeps,
}
use ucloud_iot_rtthread_pack.Shadow.Api.{
  tx_buf_len, is_null, check_property_existence, add_delta_property, add_each, submit, request_with,
  request_whole, get_sync, shadow_update, update_and_reset_version, shadow_delete,
  shadow_delete_all, add_property_handle, push_handler, take_handler, register_property_on_delta,
  register_property, remove_property, unregister_property, deliver_each, shadow_yield,
}

module _ (p : Host) where
  outside-Keeps : {A : Type 0} (f : p.World → A × p.World) → Keeps (outside f)
  outside-Keeps f s b = b

  add_delta_property-Keeps : (a : ℕ) (q : Option Params) → Keeps (add_delta_property p a q)
  unfolding add_delta_property
  add_delta_property-Keeps a none s b = b
  add_delta_property-Keeps a (some q) s b = b

  add_each-Keeps : (as' : List (Option ℕ)) (q : Option Params) → Keeps (add_each p as' q)
  unfolding add_each
  add_each-Keeps [] q = λ s b. b
  add_each-Keeps (none ∷ as') q = add_each-Keeps as' q
  add_each-Keeps (some a ∷ as') q =
      >>=-Keeps (add_delta_property p a q) _ (add_delta_property-Keeps a q) λ r.
        if-Keeps (eq_ℤ r.0 success_ret) (add_each p as' r.1) (pure (false, r.1))
          (add_each-Keeps as' r.1) (λ s b. b)

  submit-Keeps : (q : Option Params) → Keeps (submit p q)
  submit-Keeps q = >>=-Keeps (outside p.connected) _ (outside-Keeps p.connected) λ c.
      if-Keeps c (make_request_of p tx_buf_len q) (pure err_mqtt_no_conn)
        (make_request_of-Keeps p tx_buf_len q) (λ s b. b)

  request_with-Keeps :
      (m : Method) (f : Option ℕ) (n : ℕ) (as' : List (Option ℕ)) → Keeps (request_with p m f n as')
  request_with-Keeps m f n as' =
      if-Keeps (n == 0) (pure err_param_invalid) _ (λ s b. b)
        (>>=-Keeps (request_init p m f n) _ (request_init-Keeps p m f n) λ q.
          >>=-Keeps (add_each p as' q) _ (add_each-Keeps as' q)
            λ r. if-Keeps r.0 (submit p r.1) (pure failure_ret) (submit-Keeps r.1) (λ s b. b))

  request_whole-Keeps : (m : Method) (f : Option ℕ) (n : ℕ) → Keeps (request_whole p m f n)
  request_whole-Keeps m f n =
      if-Keeps (n == 0) (pure err_param_invalid) _ (λ s b. b)
        (>>=-Keeps (request_init p m f n) _ (request_init-Keeps p m f n) submit-Keeps)

  add_property_handle-Keeps : (a : ℕ) (f : Option ℕ) → Keeps (add_property_handle p a f)
  unfolding add_property_handle
  add_property_handle-Keeps a f = >>=-Keeps (outside p.malloc) _ (outside-Keeps p.malloc) λ granted.
      if-Keeps granted _ (pure failure_ret)
        (>>=-Keeps (outside p.malloc) _ (outside-Keeps p.malloc) λ node.
          if-Keeps node (push_handler p (record { property = a; callback = f })) (pure failure_ret)
            (λ s b. b) (λ s b. b))
        (λ s b. b)

  register_property-Keeps : (a : ℕ) (f : Option ℕ) → Keeps (register_property p a f)
  unfolding register_property register_property_on_delta
  register_property-Keeps a f = >>=-Keeps (outside p.connected) _ (outside-Keeps p.connected) λ c.
      if-Keeps c _ (pure err_mqtt_no_conn)
        (λ s.
          if-Keeps (check_property_existence a s.shadow) (pure err_shadow_property_exist) _
            (λ t b. b)
            (λ t.
              if-Keeps (is_null f) (pure err_param_invalid) _ (λ u b. b)
                (if-Keeps (is_null (t.shadow.property a).value) (pure err_param_invalid) _
                  (λ u b. b) (add_property_handle-Keeps a f))
                t)
            s)
        (λ s b. b)

  unregister_property-Keeps : (a : ℕ) → Keeps (unregister_property p a)
  unfolding unregister_property remove_property
  unregister_property-Keeps a = >>=-Keeps (outside p.connected) _ (outside-Keeps p.connected) λ c.
      if-Keeps c _ (pure err_mqtt_no_conn)
        (λ s.
          if-Keeps (check_property_existence a s.shadow) _ (pure err_shadow_not_property_exist)
            (λ t.
              if-Keeps (check_property_existence a t.shadow) (take_handler p a)
                (pure err_shadow_not_property_exist) (λ u b. b) (λ u b. b) t)
            (λ t b. b) s)
        (λ s b. b)

  deliver_each-Keeps : (ms : List (Bool × Text)) → Keeps (deliver_each p ms)
  unfolding deliver_each
  deliver_each-Keeps [] = λ s b. b
  deliver_each-Keeps ((is_sync, payload) ∷ ms) =
      >>=-Keeps
        (if is_sync then topic_sync_handler p payload else topic_request_result_handler p payload) _
        (if-Keeps is_sync (topic_sync_handler p payload) (topic_request_result_handler p payload)
          (topic_sync_handler-Keeps p payload) (topic_request_result_handler-Keeps p payload))
        λ _. deliver_each-Keeps ms

  shadow_yield-Keeps : (n : ℕ) → Keeps (shadow_yield p n)
  unfolding shadow_yield
  shadow_yield-Keeps n =
      if-Keeps (n == 0) (pure err_param_invalid) _ (λ s b. b)
        (>>=-Keeps (handle_expired_request p) _ (handle_expired_request-Keeps p) λ _.
          >>=-Keeps (outside (p.yield n)) _ (outside-Keeps (p.yield n))
            λ r. >>=-Keeps (deliver_each p r.0) (λ _. pure r.1) (deliver_each-Keeps r.0) λ _ s b. b)

-- A call of the application.
pub data Call : Type 0 where
  sync : Option ℕ → ℕ → Call
  change : Option ℕ → ℕ → List (Option ℕ) → Call
  change_and_reset : Option ℕ → ℕ → List (Option ℕ) → Call
  remove : Option ℕ → ℕ → List (Option ℕ) → Call
  remove_all : Option ℕ → ℕ → Call
  register : ℕ → Option ℕ → Call
  unregister : ℕ → Call
  wait : ℕ → Call

abbrev pub call : (p : Host) → Call → Act p.World ℤ
call p (sync f n) = get_sync p f n
call p (change f n as') = shadow_update p f n as'
call p (change_and_reset f n as') = update_and_reset_version p f n as'
call p (remove f n as') = shadow_delete p f n as'
call p (remove_all f n) = shadow_delete_all p f n
call p (register a f) = register_property p a f
call p (unregister a) = unregister_property p a
call p (wait n) = shadow_yield p n

abbrev pub call_all : (p : Host) → List Call → Act p.World (Unit {0})
call_all p [] = pure tt
call_all p (c ∷ cs) = call p c >> call_all p cs

call-Keeps : (p : Host) (c : Call) → Keeps (call p c)
unfolding get_sync shadow_update update_and_reset_version shadow_delete shadow_delete_all
call-Keeps p (sync f n) = request_whole-Keeps p get_all f n
call-Keeps p (change f n as') = request_with-Keeps p update f n as'
call-Keeps p (change_and_reset f n as') = request_with-Keeps p update_and_reset_ver f n as'
call-Keeps p (remove f n as') = request_with-Keeps p delete f n as'
call-Keeps p (remove_all f n) = request_whole-Keeps p delete_all f n
call-Keeps p (register a f) = register_property-Keeps p a f
call-Keeps p (unregister a) = unregister_property-Keeps p a
call-Keeps p (wait n) = shadow_yield-Keeps p n

run-Keeps : (p : Host) (cs : List Call) → Keeps (call_all p cs)
run-Keeps p [] = λ s b. b
run-Keeps p (c ∷ cs) = >>=-Keeps (call p c) _ (call-Keeps p c) λ _. run-Keeps p cs

-- From a state with at most ten pending requests: however the application calls the interface of
-- the shadow, and whatever messages arrive while it waits, at most ten requests are pending
-- afterwards, if the behaviour of the run is defined.
pub call_all-Keeps :
    (p : Host) (cs : List Call) (s : St p.World) → IsBounded s → IsSafe (call_all p cs s)
call_all-Keeps p cs s b = run-Keeps p cs s b
