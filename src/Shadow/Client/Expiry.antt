-- ===== src/Shadow/Client/Expiry.antt =====
-- Which requests _handle_expired_request of uiot/shadow/src/shadow_client_manager.c answers.
use ucloud_iot_rtthread_pack.Prelude.{
  ℕ, zero, suc, ◌<◌, ◌≤◌, arith, length, Bool, true, ◌≡◌, sym, ap, List, [], ◌∷◌, ◌++◌, append-nil,
  Bool-cases, inl, inr, if◌then◌else◌, ltb, ok,
}
use ucloud_iot_rtthread_pack.Shadow.State.{
  Request, Event, ack_timeout, Host, St, ◌>>◌, pure, answer,
}
use ucloud_iot_rtthread_pack.Shadow.Client.{expire_each, iterator, handle_expired_request}
use ucloud_iot_rtthread_pack.Shadow.Client.Called.{called, answers, with_events, answer-called}

-- The requests whose timer has not passed.
abbrev pub unexpired : ℕ → List Request → List Request
unexpired now [] = []
unexpired now (r ∷ rs) = let rest = unexpired now rs in if ltb r.timer now then rest else r ∷ rest

-- The calls of the callbacks of the others, the last request first.
abbrev pub timeouts : ℕ → List Request → List Event
timeouts now [] = []
timeouts now (r ∷ rs) =
    timeouts now rs ++ (if ltb r.timer now then called r.callback r ack_timeout else [])

-- The world behind n looks at the clock.
abbrev pub after_ticks : (p : Host) → ℕ → p.World → p.World
after_ticks p zero w = w
after_ticks p (suc n) w = (p.tick (after_ticks p n w)).1

-- The next n looks at the clock read `now`.
abbrev pub StillFor : (p : Host) → ℕ → ℕ → p.World → Type 0
StillFor p now zero w = Unit
StillFor p now (suc n) w = StillFor p now n w × ((p.tick (after_ticks p n w)).0 ≡ now)

-- The next n looks at the clock read `now` or later.
abbrev pub FromOn : (p : Host) → ℕ → ℕ → p.World → Type 0
FromOn p now zero w = Unit
FromOn p now (suc n) w = FromOn p now n w × (now ≤ (p.tick (after_ticks p n w)).0)

-- The timer of every request has passed.
abbrev pub HavePassed : ℕ → List Request → Type 0
HavePassed now [] = Unit
HavePassed now (r ∷ rs) = (r.timer < now) × HavePassed now rs

module _ (p : Host) (now : ℕ) where
  -- The state behind the walk over n requests, with the calls of their callbacks.
  abbrev walked : List Event → ℕ → St p.World → St p.World
  walked es n s = with_events es (record s { world = after_ticks p n s.world })

  answer-timeout :
      (r : Request) (es : List Event) (kept : List Request) (s : St p.World)
      → (answer r.callback r.method ack_timeout >> pure kept) (with_events es s)
        ≡ ok (kept, with_events (es ++ called r.callback r ack_timeout) s)
  answer-timeout r es kept s = rw (answer-called r.callback r ack_timeout es s)

  expire_each-timeouts :
      (rs : List Request) (s : St p.World)
      → StillFor p now (length rs) s.world
      → expire_each p rs s ≡ ok (unexpired now rs, walked (timeouts now rs) (length rs) s)
  unfolding expire_each
  expire_each-timeouts [] s still =
      ap (λ es. ok ([], record s { shadow = record s.shadow { events = es } }))
        (sym (append-nil s.shadow.events))
  expire_each-timeouts (r ∷ rs) s (still, reads) =
      let t : St p.World = record s { world = after_ticks p (suc (length rs)) s.world } in
      elim (Bool-cases (ltb r.timer now)) [
        | inl e ↦
            rw (expire_each-timeouts rs s still, reads, e)
              (answer-timeout r (timeouts now rs) (unexpired now rs) t)
        | inr e ↦
            rw (expire_each-timeouts rs s still, reads, e)
              (ap (λ es. ok (r ∷ unexpired now rs, with_events es t))
                (sym (append-nil (timeouts now rs))))
      ]

  -- All of them, on a clock that may move on.
  pub expire_each-all :
      (rs : List Request) (s : St p.World)
      → FromOn p now (length rs) s.world
      → HavePassed now rs
      → expire_each p rs s ≡ ok ([], walked (answers ack_timeout rs) (length rs) s)
  unfolding expire_each
  expire_each-all [] s from h =
      ap (λ es. ok ([], record s { shadow = record s.shadow { events = es } }))
        (sym (append-nil s.shadow.events))
  expire_each-all (r ∷ rs) s (from, reads) (h, k) =
      let t : St p.World = record s { world = after_ticks p (suc (length rs)) s.world } in
      let e : ltb r.timer (p.tick (after_ticks p (length rs) s.world)).0 ≡ true = ground arith in
      rw (expire_each-all rs s from k, e) (answer-timeout r (answers ack_timeout rs) [] t)

  -- The list behind the walk, if the iterator over it could be allocated.
  abbrev pub expired : Bool × p.World → St p.World → St p.World
  expired (granted, w) s =
      let rs = s.shadow.requests in
      if granted
      then record {
        shadow = record s.shadow {
          requests = unexpired now rs;
          events = s.shadow.events ++ timeouts now rs;
        };
        world = after_ticks p (length rs) w;
      }
      else record s { world = w }

  -- Where each look of the call at the clock reads `now`: every request whose timer has passed is
  -- answered with a timeout, the last one first, and leaves the list; the others stay in their order.
  -- Where the iterator over the requests cannot be allocated, none is answered and all stay.
  pub handle_expired_request-timeouts :
      (s : St p.World)
      → StillFor p now (length s.shadow.requests) (iterator p s.shadow.requests s.world).1
      → handle_expired_request p s ≡ ok (tt, expired (iterator p s.shadow.requests s.world) s)
  unfolding handle_expired_request
  handle_expired_request-timeouts s still =
      let rs = s.shadow.requests in
      let w = (iterator p rs s.world).1 in
      elim (Bool-cases (iterator p rs s.world).0) [
        | inl g ↦ rw (g, expire_each-timeouts rs (record s { world = w }) still)
        | inr g ↦ rw g
      ]
