-- ===== src/Shadow/Receive/Bounded.antt =====
-- The messages that the shadow receives (uiot/shadow/src/shadow_client_manager.c) keep the limit of
-- the list of pending requests.
use mathlib.Core.List.{reverse}
use ucloud_iot_rtthread_pack.Prelude.{
  ℕ, List, [], ◌∷◌, false, Option, none, some, if◌then◌else◌, ltb, ◌==◌, length, Text, codes,
}
use ucloud_iot_rtthread_pack.Mqtt.Topic.{str_equal}
use ucloud_iot_rtthread_pack.Utils.Json.Lookup.{json_value_of}
use ucloud_iot_rtthread_pack.Shadow.Document.{Method}
use ucloud_iot_rtthread_pack.Shadow.State.{
  Handler, Params, Host, Act, ◌>>◌, pure, outside, with_state, crash,
}
use ucloud_iot_rtthread_pack.Shadow.Client.{
  iterator, rx_buf_len, read_text, read_number, answer_requests,
}
use ucloud_iot_rtthread_pack.Shadow.Receive.{
  max_wait_time_sec, request_init, tell_handler, unless_null, tell_each, make_request_of,
  answer_delta, handle_delta, handle_desired, receive, result_by_code, result_by_method,
  with_version, with_method, topic_request_result_handler, topic_sync_handler, reply_method,
}
use ucloud_iot_rtthread_pack.Shadow.Client.Bounded.{
  >>=-Keeps, Keeps, answer_requests-Keeps, if-Keeps, make_request-Keeps, read_number-Keeps,
  read_text-Keeps, with_state-Keeps,
}

module _ (p : Host) where
  tell_handler-Keeps :
      (f : Option ℕ) (v : Option Text) (a : ℕ) (q : Option Params) → Keeps (tell_handler p f v a q)
  tell_handler-Keeps none v a q s b = b
  tell_handler-Keeps (some f) none a q s b = b
  tell_handler-Keeps (some f) (some v) a q s b = b

  tell_each-Keeps : (d : Text) (hs : List Handler) (q : Option Params) → Keeps (tell_each p d hs q)
  unfolding tell_each
  tell_each-Keeps d [] q s b = b
  tell_each-Keeps d (h ∷ hs) q s b =
      >>=-Keeps (with_state (json_value_of (s.shadow.property h.property).key d)) _
        (with_state-Keeps (json_value_of (s.shadow.property h.property).key d))
        (λ v.
          >>=-Keeps (tell_handler p h.callback (unless_null v) h.property q) _
            (tell_handler-Keeps h.callback (unless_null v) h.property q) (tell_each-Keeps d hs))
        s b

  pub make_request_of-Keeps : (n : ℕ) (q : Option Params) → Keeps (make_request_of p n q)
  make_request_of-Keeps n none = λ s b. b
  make_request_of-Keeps n (some q) = make_request-Keeps p n q

  pub request_init-Keeps : (m : Method) (f : Option ℕ) (n : ℕ) → Keeps (request_init p m f n)
  unfolding request_init
  request_init-Keeps m f n s b =
      let (granted, w) = p.malloc s.world in
      >>=-Keeps (if granted then outside p.malloc else pure false) _
        (if-Keeps granted (outside p.malloc) (pure false) (λ t c. c) (λ t c. c)) (λ list t c. c)
        (record s { world = w }) b

  answer_delta-Keeps :
      (d : Text) (hs : List Handler) (q : Option Params) → Keeps (answer_delta p d hs q)
  answer_delta-Keeps d hs q =
      >>=-Keeps (tell_each p d (reverse hs) q) _ (tell_each-Keeps d (reverse hs) q) λ new.
        >>=-Keeps (make_request_of p rx_buf_len new) _ (make_request_of-Keeps rx_buf_len new)
          λ _ t c. c

  handle_desired-Keeps : (d : Option Text) → Keeps (handle_desired p d)
  unfolding handle_delta
  handle_desired-Keeps none = λ s b. b
  handle_desired-Keeps (some d) =
      if-Keeps (ltb 2 (length d)) _ (pure tt)
        (λ s.
          >>=-Keeps (request_init p (reply_method s.shadow.sent_method) none max_wait_time_sec) _
            (request_init-Keeps (reply_method s.shadow.sent_method) none max_wait_time_sec)
            (λ q.
              if-Keeps s.shadow.freed crash _ (λ t c. tt)
                (>>=-Keeps (outside (iterator p s.shadow.handlers)) _ (λ t c. c)
                  λ granted.
                    if-Keeps granted (answer_delta p d s.shadow.handlers q) (pure tt)
                      (answer_delta-Keeps d s.shadow.handlers q) (λ t c. c)))
            s)
        (λ s b. b)

  answered-Keeps :
      (d : Option Text) (type : Text) → Keeps (handle_desired p d >> answer_requests p type)
  answered-Keeps d type =
      >>=-Keeps (handle_desired p d) _ (handle_desired-Keeps d) λ _. answer_requests-Keeps p type

  with_version-Keeps :
      (n : Option ℕ) (next : Act p.World (Unit {0})) → Keeps next → Keeps (with_version p n next)
  with_version-Keeps none next h s b = b
  with_version-Keeps (some n) next h s b = h _ b

  result_by_code-Keeps : (n : Option ℕ) (m : Text) → Keeps (result_by_code p n m)
  unfolding result_by_code
  result_by_code-Keeps none m = λ s b. b
  result_by_code-Keeps (some n) m =
      if-Keeps (n == 0) (answer_requests p m) (pure tt) (answer_requests-Keeps p m) (λ s b. b)

  result_by_method-Keeps : (m : Text) → Keeps (result_by_method p m)
  unfolding result_by_method
  result_by_method-Keeps m =
      if-Keeps (str_equal m (codes "reply")) _ _
        (>>=-Keeps (read_number p (codes "Payload.RetCode")) _
          (read_number-Keeps p (codes "Payload.RetCode")) λ n. result_by_code-Keeps n m)
        (if-Keeps (str_equal m (codes "control")) _ (pure tt)
          (>>=-Keeps (read_text p (codes "Payload.State.Desired")) _
            (read_text-Keeps p (codes "Payload.State.Desired")) λ d. answered-Keeps d m)
          (λ s b. b))

  with_method-Keeps : (m : Option Text) → Keeps (with_method p m)
  with_method-Keeps none = λ s b. b
  with_method-Keeps (some m) =
      >>=-Keeps (read_number p (codes "Version")) _ (read_number-Keeps p (codes "Version"))
        λ n. with_version-Keeps n (result_by_method p m) (result_by_method-Keeps m)

  pub topic_request_result_handler-Keeps : (t : Text) → Keeps (topic_request_result_handler p t)
  unfolding topic_request_result_handler
  topic_request_result_handler-Keeps t =
      if-Keeps (ltb rx_buf_len (length t)) (pure tt) _ (λ s b. b)
        (>>=-Keeps (receive p t) _ (λ s b. b)
          λ _.
            >>=-Keeps (read_text p (codes "Method")) _ (read_text-Keeps p (codes "Method"))
              with_method-Keeps)

  pub topic_sync_handler-Keeps : (t : Text) → Keeps (topic_sync_handler p t)
  unfolding topic_sync_handler
  topic_sync_handler-Keeps t =
      if-Keeps (ltb rx_buf_len (length t)) (pure tt) _ (λ s b. b)
        (>>=-Keeps (receive p t) _ (λ s b. b)
          λ _.
            >>=-Keeps (read_number p (codes "Version")) _ (read_number-Keeps p (codes "Version"))
              λ n. with_version-Keeps n _ (
                >>=-Keeps (read_text p (codes "State.Desired")) _
                  (read_text-Keeps p (codes "State.Desired"))
                  λ d. answered-Keeps d (codes "get_reply")))
