-- ===== src/Mqtt/Session/Yield/Waiting.antt =====
-- uiot/mqtt/src/mqtt_client_yield.c: the waiting lists behind uiot_mqtt_pub_info_proc and
-- uiot_mqtt_sub_info_proc.
use ucloud_iot_rtthread_pack.Prelude.{
  ℕ, ◌≡◌, refl, arith, Bool, true, false, List, [], ◌∷◌, All, ok, if◌then◌else◌, ◌⊎◌, inl, inr, ap,
  ◌∙◌,
}
use ucloud_iot_rtthread_pack.Mqtt.State.{NodeState, normal, invalid, PubInfo, SubInfo}
use ucloud_iot_rtthread_pack.Mqtt.Act.{Hal, St, Act, left_ms, countdown_ms, list_iterator}
use ucloud_iot_rtthread_pack.Mqtt.Session.Yield.{
  visit_pub, visit_sub, sweep, pub_info_proc, sub_info_proc,
}

-- The node is still waited for.
abbrev pub IsWaiting : NodeState → Type 0
IsWaiting normal = Unit
IsWaiting invalid = ⊥

module _ (hal : Hal) (fuel : ℕ) where
  visit_pub-IsWaiting :
      (p : PubInfo) (s : St hal.World)
      → (visit_pub hal fuel p s).0 ≡ ok true
      → IsWaiting p.node_state
  unfolding visit_pub
  visit_pub-IsWaiting p s h = ground arith

  visit_sub-IsWaiting :
      (p : SubInfo) (s : St hal.World)
      → (visit_sub hal fuel p s).0 ≡ ok true
      → IsWaiting p.node_state
  unfolding visit_sub
  visit_sub-IsWaiting p s h = ground arith

  abbrev pub keep : {A : Type 0} → A → List A → Bool → List A
  keep x rest stays = if stays then x ∷ rest else rest

  pub keep-All :
      {A : Type 0} (P : A → Type 0) (x : A) (rest : List A) (stays : Bool)
      → (stays ≡ true → P x)
      → All P rest
      → All P (keep x rest stays)
  keep-All P x rest true h a = (h refl, a)
  keep-All P x rest false h a = a

  pub sweep_steps :
      {A : Type 0} (visit : A → Act hal.World Bool) (x : A) (xs : List A) (s : St hal.World)
      {ys : List A}
      → (sweep hal fuel visit (x ∷ xs) s).0 ≡ ok ys
      → (rest : List A) × (stays : Bool) × ((sweep hal fuel visit xs s).0 ≡ ok rest)
        × ((visit x (sweep hal fuel visit xs s).1).0 ≡ ok stays)
        × (keep x rest stays ≡ ys)
  unfolding sweep
  sweep_steps visit x xs s h = ground arith

  sweep-All :
      {A : Type 0} (P : A → Type 0) (visit : A → Act hal.World Bool)
      → ((a : A) (s : St hal.World) → (visit a s).0 ≡ ok true → P a)
      → (xs : List A) (s : St hal.World) (ys : List A) → (sweep hal fuel visit xs s).0 ≡ ok ys
      → All P ys
  unfolding sweep
  sweep-All P visit stays [] s ys h = let e : [] ≡ ys = cc in rw (← e) tt
  sweep-All P visit stays (x ∷ xs) s ys h =
      let (rest, b, e, v, k) = sweep_steps visit x xs s h in
      rw (← k)
        (keep-All P x rest b (λ t. stays x _ (v ∙ ap ok t)) (sweep-All P visit stays xs s rest e))

  pub visit_pub_total :
      (p : PubInfo) (s : St hal.World)
      → ((visit_pub hal fuel p s).0 ≡ ok true) ⊎ ((visit_pub hal fuel p s).0 ≡ ok false)
  unfolding visit_pub left_ms countdown_ms
  visit_pub_total p s = ground arith

  visit_sub_total :
      (p : SubInfo) (s : St hal.World)
      → ((visit_sub hal fuel p s).0 ≡ ok true) ⊎ ((visit_sub hal fuel p s).0 ≡ ok false)
  unfolding visit_sub left_ms
  visit_sub_total p s = ground arith

  pub sweep_total :
      {A : Type 0} (visit : A → Act hal.World Bool)
      → ((a : A) (s : St hal.World) → ((visit a s).0 ≡ ok true) ⊎ ((visit a s).0 ≡ ok false))
      → (xs : List A) (s : St hal.World) → (ys : List A) × ((sweep hal fuel visit xs s).0 ≡ ok ys)
  unfolding sweep
  sweep_total visit total [] s = ([], refl)
  sweep_total visit total (x ∷ xs) s =
      let (rest, e) = sweep_total visit total xs s in
      elim (total x (sweep hal fuel visit xs s).1) [
        | inl v ↦ (x ∷ rest, simp (e, v))
        | inr v ↦ (rest, simp (e, v))
      ]

  -- Where its iterator can be allocated, uiot_mqtt_pub_info_proc comes to its end, and every node that is left in the list of
  -- PUBLISH packets is one that still waits: none was acknowledged before.
  pub pub_info_proc-IsWaiting :
      (s : St hal.World)
      → (list_iterator hal s.client.list_pub_wait_ack s.world).0 ≡ true
      → ((pub_info_proc hal fuel s).0 ≡ ok tt)
        × All (λ p. IsWaiting p.node_state) (pub_info_proc hal fuel s).1.client.list_pub_wait_ack
  unfolding pub_info_proc
  pub_info_proc-IsWaiting s granted =
      let waiting = s.client.list_pub_wait_ack in
      let t : St hal.World = record s { world = (list_iterator hal waiting s.world).1 } in
      let (rest, e) = sweep_total (visit_pub hal fuel) visit_pub_total waiting t in
      simp (granted, e)
        (
          refl,
          sweep-All (λ p. IsWaiting p.node_state) (visit_pub hal fuel) visit_pub-IsWaiting waiting t
              rest e,
        )

  -- Where its iterator can be allocated, uiot_mqtt_sub_info_proc comes to its end, and every node that is left in the list of
  -- SUBSCRIBE and UNSUBSCRIBE packets is one that still waits: none was acknowledged before.
  pub sub_info_proc-IsWaiting :
      (s : St hal.World)
      → (list_iterator hal s.client.list_sub_wait_ack s.world).0 ≡ true
      → ((sub_info_proc hal fuel s).0 ≡ ok tt)
        × All (λ p. IsWaiting p.node_state) (sub_info_proc hal fuel s).1.client.list_sub_wait_ack
  unfolding sub_info_proc
  sub_info_proc-IsWaiting s granted =
      let waiting = s.client.list_sub_wait_ack in
      let t : St hal.World = record s { world = (list_iterator hal waiting s.world).1 } in
      let (rest, e) = sweep_total (visit_sub hal fuel) visit_sub_total waiting t in
      simp (granted, e)
        (
          refl,
          sweep-All (λ p. IsWaiting p.node_state) (visit_sub hal fuel) visit_sub-IsWaiting waiting t
              rest e,
        )
