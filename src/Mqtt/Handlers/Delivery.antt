-- ===== src/Mqtt/Handlers/Delivery.antt =====
-- uiot/mqtt/src/mqtt_client_common.c: which subscription _deliver_message hands a message to.
use ucloud_iot_rtthread_pack.Prelude.{ℕ, ◌≡◌, arith, true, some, List, [], ◌∷◌, ok, ◌⊎◌, inl, inr}
use ucloud_iot_rtthread_pack.Mqtt.State.{SubTopicHandle}
use ucloud_iot_rtthread_pack.Mqtt.Handlers.{belongs, receiver}

-- The subscription belongs to the topic and has a handler.
abbrev pub Takes : List ℕ → ℕ → SubTopicHandle → Type 0
Takes topic topic_len h =
    (filter : List ℕ) × (handler : ℕ) × (h.topic_filter ≡ some filter)
    × (belongs topic topic_len filter ≡ ok true)
    × (h.message_handler ≡ some handler)

-- The first subscription of a table that takes the topic.
pub data FirstTaker (topic : List ℕ) (topic_len : ℕ)
    : List SubTopicHandle → SubTopicHandle → Type 0 where
  here :
      {h : SubTopicHandle} {hs : List SubTopicHandle}
      → Takes topic topic_len h
      → FirstTaker topic topic_len (h ∷ hs) h
  later :
      {h x : SubTopicHandle} {hs : List SubTopicHandle}
      → ¬ Takes topic topic_len x
      → FirstTaker topic topic_len hs h
      → FirstTaker topic topic_len (x ∷ hs) h

receiver_step :
    (topic : List ℕ) (topic_len : ℕ) (x : SubTopicHandle) (xs : List SubTopicHandle)
    (h : SubTopicHandle)
    → receiver topic topic_len (x ∷ xs) ≡ ok (some h)
    → (Takes topic topic_len x × (x ≡ h))
      ⊎ ((¬ Takes topic topic_len x) × (receiver topic topic_len xs ≡ ok (some h)))
unfolding receiver
receiver_step topic n x xs h e = ground arith

-- Where _deliver_message finds a handler, it is that of the first subscription in the table whose
-- filter the topic belongs to and that has a handler.
receiver-FirstTaker :
    (topic : List ℕ) (topic_len : ℕ) (table : List SubTopicHandle) (h : SubTopicHandle)
    → receiver topic topic_len table ≡ ok (some h)
    → FirstTaker topic topic_len table h
receiver-FirstTaker topic n [] h e = unfold receiver in absurd (ground arith)
receiver-FirstTaker topic n (x ∷ xs) h e = elim (receiver_step topic n x xs h e) [
  | inl (t, q) ↦ rw (← q) (here t)
  | inr (t, r) ↦ later t (receiver-FirstTaker topic n xs h r)
]
