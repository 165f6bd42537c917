-- ===== src/Shadow/Client/Called.antt =====
-- The calls of the callbacks of requests (_handle_request_callback and
-- _handle_expired_request_callback of uiot/shadow/src/shadow_client_manager.c), as events.
use ucloud_iot_rtthread_pack.Prelude.{
  ℕ, List, [], ◌∷◌, ◌++◌, append-nil, append_assoc, Option, none, some, ◌≡◌, ap, sym, ok,
}
use ucloud_iot_rtthread_pack.Shadow.State.{Request, RequestAck, Event, answered, St, answer}

abbrev pub called : Option ℕ → Request → RequestAck → List Event
called none r ack = []
called (some f) r ack = answered f r.method ack ∷ []

-- The calls of the callbacks, the last request first.
abbrev pub answers : RequestAck → List Request → List Event
answers ack [] = []
answers ack (r ∷ rs) = answers ack rs ++ called r.callback r ack

abbrev pub with_events : {W : Type 0} → List Event → St W → St W
with_events es s = record s { shadow = record s.shadow { events = s.shadow.events ++ es } }

pub answer-called :
    {W : Type 0} (f : Option ℕ) (r : Request) (ack : RequestAck) (es : List Event) (s : St W)
    → answer f r.method ack (with_events es s) ≡ ok (tt, with_events (es ++ called f r ack) s)
answer-called none r ack es s = ap (λ l. ok (tt, with_events l s)) (sym (append-nil es))
answer-called (some f) r ack es s =
    ap (λ l. ok (tt, record s { shadow = record s.shadow { events = l } }))
      (append_assoc s.shadow.events es (called (some f) r ack))
