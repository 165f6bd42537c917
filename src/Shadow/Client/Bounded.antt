-- ===== src/Shadow/Client/Bounded.antt =====
-- The list of pending requests (uiot/shadow/src/shadow_client_manager.c) keeps its limit.
use mathlib.Core.List.{reverse, map}
use ucloud_iot_rtthread_pack.Prelude.{
  ℕ, suc, ◌≤◌, ◌≡◌, refl, ◌∙◌, Bool-cases, inl, inr, arith, List, [], ◌∷◌, ◌++◌, Bool, true, false,
  Option, none, some, if◌then◌else◌, leb, ltb, ◌||◌, length, length-append, Text, codes, Outcome,
  ok, err, fault, eq_ℤ,
}
use ucloud_iot_rtthread_pack.Codes.{success_ret, failure_ret, err_param_invalid}
use ucloud_iot_rtthread_pack.Mqtt.Topic.{str_equal}
use ucloud_iot_rtthread_pack.Utils.Json.Lookup.{json_value_of}
use ucloud_iot_rtthread_pack.Shadow.Document.{Method, Property, make_document}
use ucloud_iot_rtthread_pack.Shadow.State.{
  Request, Handler, Params, Shadow, Host, St, Act, ◌>>=◌, ◌>>◌, continue, pure, modify, outside,
  with_state, answer, has_expired, ack_timeout, RequestAck,
}
use ucloud_iot_rtthread_pack.Shadow.Client.{
  max_appending_request, is_get, is_delete_all, new_value, set_value, set_handled, find_handler,
  update_one, update_each, clear_each, update_property, add_request, publish_operation,
  make_request, expire_each, handle_expired_request, read_text, read_number, request_status,
  answer_each, answer_requests, iterator, property_iterator, needs_iterator, update_iterator,
  store_update,
}

-- At most MAX_APPENDING_REQUEST_AT_ANY_GIVEN_TIME requests are pending.
abbrev pub IsBounded : {W : Type 0} → St W → Type 0
IsBounded s = length s.shadow.requests ≤ max_appending_request

abbrev pub IsSafe : {W A : Type 0} → Outcome (A × St W) → Type 0
IsSafe (ok (a, t)) = IsBounded t
IsSafe (err e) = Unit
IsSafe fault = Unit

abbrev pub Keeps : {W A : Type 0} → Act W A → Type 0
Keeps {W} m = (s : St W) → IsBounded s → IsSafe (m s)

module _ {W A B : Type 0} where
  continue-IsSafe :
      (r : Outcome (A × St W)) (f : A → Act W B)
      → IsSafe r
      → ((a : A) → Keeps (f a))
      → IsSafe (continue r f)
  continue-IsSafe (ok (a, t)) f h k = k a t h
  continue-IsSafe (err e) f h k = tt
  continue-IsSafe fault f h k = tt

  pub >>=-Keeps :
      (m : Act W A) (f : A → Act W B) → Keeps m → ((a : A) → Keeps (f a)) → Keeps (m >>= f)
  >>=-Keeps m f h k s b = continue-IsSafe (m s) f (h s b) k

module _ {W A : Type 0} where
  pub if-Keeps : (b : Bool) (x y : Act W A) → Keeps x → Keeps y → Keeps (if b then x else y)
  if-Keeps true x y h k = h
  if-Keeps false x y h k = k

  -- At one state.
  if-IsSafe :
      (b : Bool) (x y : Act W A) (s : St W)
      → IsSafe (x s)
      → IsSafe (y s)
      → IsSafe ((if b then x else y) s)
  if-IsSafe true x y s h k = h
  if-IsSafe false x y s h k = k

  pub with_state-Keeps : (r : Outcome A) → Keeps {W = W} (with_state r)
  with_state-Keeps (ok a) s b = b
  with_state-Keeps (err e) s b = tt
  with_state-Keeps fault s b = tt

answer-Keeps :
    {W : Type 0} (f : Option ℕ) (m : Method) (a : RequestAck) → Keeps {W = W} (answer f m a)
answer-Keeps none m a s b = b
answer-Keeps (some f) m a s b = b

-- The updates of properties leave the requests.
set_handled-requests :
    (h : Option Handler) (m : Method) (q : Property) (o : Shadow)
    → (set_handled h m q o).requests ≡ o.requests
set_handled-requests none m q o = refl
set_handled-requests (some h) m q o = set (new_value m q (o.property h.property))
  where
    set :
        (v : Option Property)
        → (elim v as (λ x. Shadow) [ none ↦ o | some new ↦ set_value h.property new o ]).requests
          ≡ o.requests
    set none = refl
    set (some v) = refl

update_each-requests :
    (m : Method) (as' : List ℕ) (o : Shadow) → (update_each m as' o).requests ≡ o.requests
unfolding update_each update_one
update_each-requests m [] o = refl
update_each-requests m (a ∷ as') o =
    update_each-requests m as' (update_one m a o)
    ∙ set_handled-requests (find_handler o.property (o.property a).key o.handlers) m (o.property a)
        o

clear_each-requests : (hs : List Handler) (o : Shadow) → (clear_each hs o).requests ≡ o.requests
unfolding clear_each
clear_each-requests [] o = refl
clear_each-requests (h ∷ hs) o = clear_each-requests hs _

update_property-requests : (q : Params) (o : Shadow) → (update_property q o).requests ≡ o.requests
unfolding update_property
update_property-requests q o = branch (is_delete_all q.method)
  where
    branch :
        (b : Bool)
        → (if b
            then clear_each (reverse o.handlers) o
            else update_each q.method (reverse q.delta) o).requests
          ≡ o.requests
    branch true = clear_each-requests (reverse o.handlers) o
    branch false = update_each-requests q.method (reverse q.delta) o

module _ (p : Host) where
  add_request-Keeps : (q : Params) → Keeps (add_request p q)
  unfolding add_request
  add_request-Keeps q s b =
      elim (Bool-cases (leb max_appending_request (length s.shadow.requests))) [
        | inl e ↦ rw e b
        | inr e ↦ rw e (
            let (granted, w) = p.malloc s.world in
            let (now, w') = p.tick w in
            if-IsSafe granted _ (pure failure_ret) (record s { world = w })
              (if-IsSafe (p.malloc w').0 _ (pure failure_ret) (record s { world = (p.malloc w').1 })
                (room s.shadow.requests _ e) b)
              b)
      ]
    where
      room :
          (rs : List Request) (r : Request)
          → leb max_appending_request (length rs) ≡ false
          → length (rs ++ r ∷ []) ≤ max_appending_request
      room rs r h = ground (arith, length-append rs (r ∷ []))

  publish_operation-Keeps : (m : Method) (doc : Text) → Keeps (publish_operation p m doc)
  unfolding publish_operation
  publish_operation-Keeps m doc =
      if-Keeps (p.topic_fits (is_get m)) _ (pure failure_ret) (λ s b. b) (λ s b. b)

  property_iterator-Keeps : (q : Params) → Keeps (property_iterator p q)
  property_iterator-Keeps q =
      if-Keeps (needs_iterator p q.method q.delta) (outside p.malloc) (pure true) (λ s b. b)
        (λ s b. b)

  store_update-Keeps : (q : Params) → Keeps (store_update p q)
  store_update-Keeps q s b =
      let (granted, w) = update_iterator p q s.shadow s.world in
      if-IsSafe granted (modify (update_property q) >> pure success_ret) (pure err_param_invalid)
        (record s { world = w }) (rw (update_property-requests q s.shadow) b) b

  pub make_request-Keeps : (n : ℕ) (q : Params) → Keeps (make_request p n q)
  unfolding make_request
  make_request-Keeps n q = >>=-Keeps (add_request p q) _ (add_request-Keeps q) λ _ s b.
      >>=-Keeps (property_iterator p q) _ (property_iterator-Keeps q)
        (λ granted.
          >>=-Keeps
            (with_state (
              make_document n granted q.method (map s.shadow.property (reverse q.delta))
                s.shadow.version))
            _
            (with_state-Keeps (
              make_document n granted q.method (map s.shadow.property (reverse q.delta))
                s.shadow.version))
            λ r.
              if-Keeps (eq_ℤ r.0 success_ret) _ (pure r.0)
                (>>=-Keeps (publish_operation p q.method r.1) _
                  (publish_operation-Keeps q.method r.1)
                  λ ret.
                    if-Keeps (eq_ℤ ret success_ret) (store_update p q) (pure ret)
                      (store_update-Keeps q) (λ t c. c))
                (λ t c. c))
        s b

  -- At most as many requests stay.
  abbrev Stays : ℕ → Outcome (List Request × St p.World) → Type 0
  Stays n (ok (kept, t)) = length kept ≤ n
  Stays n (err e) = Unit
  Stays n fault = Unit

  answer-Stays :
      (n : ℕ) (f : Option ℕ) (m : Method) (kept : List Request) (s : St p.World)
      → length kept ≤ n
      → Stays n ((answer f m ack_timeout >> pure kept) s)
  answer-Stays n none m kept s h = h
  answer-Stays n (some f) m kept s h = h

  expire_one-Stays :
      (n : ℕ) (r : Request) (x : Outcome (List Request × St p.World))
      → Stays n x
      → Stays (suc n) (
          continue x λ kept. has_expired p r.timer >>= λ expired.
          if expired
          then (answer r.callback r.method ack_timeout >> pure kept)
          else pure (r ∷ kept))
  expire_one-Stays n r (err e) h = tt
  expire_one-Stays n r fault h = tt
  expire_one-Stays n r (ok (kept, t)) h =
      let (now, w) = p.tick t.world in
      let u : St p.World = record t { world = w } in branch (ltb r.timer now) u
    where
      branch :
          (b : Bool) (u : St p.World)
          → Stays (suc n) (
              (if b then (answer r.callback r.method ack_timeout >> pure kept) else pure (r ∷ kept))
                u)
      branch true u = answer-Stays (suc n) r.callback r.method kept u (omega arith)
      branch false u = omega arith

  expire_each-Stays : (rs : List Request) (s : St p.World) → Stays (length rs) (expire_each p rs s)
  unfolding expire_each
  expire_each-Stays [] s = omega arith
  expire_each-Stays (r ∷ rs) s =
      expire_one-Stays (length rs) r (expire_each p rs s) (expire_each-Stays rs s)

  pub handle_expired_request-Keeps : Keeps (handle_expired_request p)
  unfolding handle_expired_request
  handle_expired_request-Keeps s b =
      if-IsSafe (iterator p s.shadow.requests s.world).0 _ (pure tt)
        (record s { world = (iterator p s.shadow.requests s.world).1 })
        (kept_back (length s.shadow.requests) (expire_each p s.shadow.requests _)
          (expire_each-Stays s.shadow.requests _) b)
        b
    where
      kept_back :
          (n : ℕ) (x : Outcome (List Request × St p.World))
          → Stays n x
          → n ≤ max_appending_request
          → IsSafe (continue x λ kept. modify (λ q. record q { requests = kept }))
      kept_back n (ok (kept, t)) h b = omega arith
      kept_back n (err e) h b = tt
      kept_back n fault h b = tt

  pub read_text-Keeps : (key : Text) → Keeps (read_text p key)
  read_text-Keeps key s b = with_state-Keeps (json_value_of key s.shadow.received) s b

  pub read_number-Keeps : (key : Text) → Keeps (read_number p key)
  read_number-Keeps key = >>=-Keeps (read_text p key) _ (read_text-Keeps key) λ t s b. b

  request_status-Keeps : (type : Text) → Keeps (request_status p type)
  unfolding request_status
  request_status-Keeps type =
      if-Keeps (str_equal type (codes "get_reply")) _ _ (λ s b. b)
        (if-Keeps (str_equal type (codes "reply") || str_equal type (codes "control")) _ _
          (>>=-Keeps (read_number p (codes "Payload.RetCode")) _
            (read_number-Keeps (codes "Payload.RetCode")) λ n s b. b)
          (λ s b. b))

  answer_each-Keeps : (type : Text) (rs : List Request) → Keeps (answer_each p type rs)
  unfolding answer_each
  answer_each-Keeps type [] = λ s b. b
  answer_each-Keeps type (r ∷ rs) =
      >>=-Keeps (answer_each p type rs) _ (answer_each-Keeps type rs) λ _.
        >>=-Keeps (request_status p type) _ (request_status-Keeps type)
          λ status. answer-Keeps r.callback r.method status

  pub answer_requests-Keeps : (type : Text) → Keeps (answer_requests p type)
  unfolding answer_requests
  answer_requests-Keeps type s b =
      let rs = s.shadow.requests in
      >>=-Keeps (outside (iterator p rs)) _ (λ t b. b)
        (λ granted.
          if-Keeps granted _ (pure tt)
            (>>=-Keeps (answer_each p type rs) (λ _. modify (λ q. record q { requests = [] }))
              (answer_each-Keeps type rs) (λ _. emptied))
            (λ t b. b))
        s b
    where
      emptied : Keeps {W = p.World} (modify (λ q. record q { requests = [] }))
      emptied t c = omega arith
