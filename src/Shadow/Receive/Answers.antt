-- ===== src/Shadow/Receive/Answers.antt =====
-- What a reply does to the pending requests (topic_request_result_handler of
-- uiot/shadow/src/shadow_client_manager.c).
use ucloud_iot_rtthread_pack.Prelude.{
  ℕ, ◌-◌, ◌≤◌, ◌≡◌, refl, ap, sym, ◌∙◌, List, [], ◌∷◌, ◌++◌, append-nil, some, if◌then◌else◌,
  le→ltb, ◌==◌, length, take, Text, codes, ok, inl, inr, Bool-cases,
}
use ucloud_iot_rtthread_pack.Utils.Json.Lookup.{json_value_of}
use ucloud_iot_rtthread_pack.Mqtt.Topic.{str_equal}
use ucloud_iot_rtthread_pack.Ota.Callback.{until_nul}
use ucloud_iot_rtthread_pack.Shadow.State.{
  Request, RequestAck, ack_rejected, ack_accepted, Host, St,
}
use ucloud_iot_rtthread_pack.Shadow.Client.{
  rx_buf_len, answer_each, answer_requests, request_status, ack_of, iterator,
}
use ucloud_iot_rtthread_pack.Shadow.Client.Called.{answers, with_events, answer-called}
use ucloud_iot_rtthread_pack.Shadow.Receive.{
  topic_request_result_handler, result_by_method, result_by_code, with_method,
}

module _ (p : Host) (doc code_text : Text) (code : ℕ)
    (code_at : json_value_of (codes "Payload.RetCode") doc ≡ ok (some code_text))
    (code_is : p.get_uint32 code_text ≡ some code) where
  status-reply :
      (s : St p.World)
      → s.shadow.received ≡ doc
      → request_status p (codes "reply") s ≡ ok (ack_of p (some code), s)
  unfolding request_status str_equal
  status-reply s e = rw (e, code_at, code_is)

  answer_each-answers :
      (rs : List Request) (s : St p.World)
      → s.shadow.received ≡ doc
      → answer_each p (codes "reply") rs s
        ≡ ok (tt, with_events (answers (ack_of p (some code)) rs) s)
  unfolding answer_each
  answer_each-answers [] s e =
      ap (λ es. ok (tt, record s { shadow = record s.shadow { events = es } }))
        (sym (append-nil s.shadow.events))
  answer_each-answers (r ∷ rs) s e =
      let ack = ack_of p (some code) in
      rw (answer_each-answers rs s e, status-reply (with_events (answers ack rs) s) e)
        (answer-called r.callback r ack (answers ack rs) s)

  -- Every request is answered, the last one first, and leaves the list; where the iterator over the
  -- requests cannot be allocated, none.
  abbrev pub answered_all : RequestAck → St p.World → St p.World
  answered_all ack s =
      let (granted, w) = iterator p s.shadow.requests s.world in
      if granted
      then record s {
        shadow = record s.shadow {
          requests = [];
          events = s.shadow.events ++ answers ack s.shadow.requests;
        };
        world = w;
      }
      else record s { world = w }

  -- The version and the payload are kept; at 0 the requests are answered.
  abbrev pub replied : ℕ → St p.World → St p.World
  replied version s =
      let new = record s { shadow = record s.shadow { version = version; received = doc } } in
      if code == 0 then answered_all ack_accepted new else new

  answer_requests-answers :
      (s : St p.World)
      → s.shadow.received ≡ doc
      → answer_requests p (codes "reply") s ≡ ok (tt, answered_all (ack_of p (some code)) s)
  unfolding answer_requests
  answer_requests-answers s e =
      let rs = s.shadow.requests in
      elim (Bool-cases (iterator p rs s.world).0) [
        | inl g ↦ rw (g, answer_each-answers rs (record s { world = (iterator p rs s.world).1 }) e)
        | inr g ↦ rw g
      ]

  code-replied :
      (s : St p.World)
      → s.shadow.received ≡ doc
      → result_by_code p (some code) (codes "reply") s
        ≡ ok (tt, if code == 0 then answered_all ack_accepted s else s)
  unfolding result_by_code
  code-replied s e = elim (Bool-cases (code == 0)) [
    | inl z ↦ rw z (
        answer_requests-answers s e
        ∙ ap (λ b. ok (tt, answered_all (if b then ack_accepted else ack_rejected) s)) z)
    | inr n ↦ rw n
  ]

  abbrev arrived : St p.World → St p.World
  arrived s = record s { shadow = record s.shadow { received = doc } }

  method-replied :
      (version_digits : Text) (version : ℕ) (s : St p.World)
      → json_value_of (codes "Version") doc ≡ ok (some version_digits)
      → p.get_uint32 version_digits ≡ some version
      → with_method p (some (codes "reply")) (arrived s) ≡ ok (tt, replied version s)
  unfolding result_by_method str_equal
  method-replied version_digits version s v n =
      rw (v, n, code_at, code_is)
        (code-replied (record s { shadow = record s.shadow { version = version; received = doc } })
          refl)

  -- A message of the method "reply" that fits in the buffer and whose version and return code can
  -- be read: the version is kept, and where the code is 0, every pending request is answered as
  -- accepted, the last one first, and leaves the list, or, where the iterator over the requests cannot
  -- be allocated, none is answered and every one stays. Where the code is not 0, no request is
  -- answered and every one stays.
  pub topic_request_result_handler-reply :
      (payload version_digits : Text) (version : ℕ) (s : St p.World)
      → length payload ≤ rx_buf_len
      → until_nul (take (rx_buf_len - 1) payload) ≡ doc
      → json_value_of (codes "Method") doc ≡ ok (some (codes "reply"))
      → json_value_of (codes "Version") doc ≡ ok (some version_digits)
      → p.get_uint32 version_digits ≡ some version
      → topic_request_result_handler p payload s ≡ ok (tt, replied version s)
  unfolding topic_request_result_handler
  topic_request_result_handler-reply payload version_digits version s h e m v n =
      rw (le→ltb rx_buf_len (length payload) h, e, m) (method-replied version_digits version s v n)
