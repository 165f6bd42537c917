-- ===== src/Mqtt/Handlers/FixTopic.antt =====
-- uiot/mqtt/src/mqtt_client_common.c: the copy of the topic name that _handle_publish_packet makes
-- for strlen and strcmp.
use ucloud_iot_rtthread_pack.Prelude.{
  ℕ, suc, ◌-◌, ◌<◌, ◌≡◌, ◌≢◌, refl, arith, List, [], ◌∷◌, ◌++◌, All, ok, fault, length, replicate,
  append-nil, ◌⊎◌, inl, inr, some, Option-cases, length-append, take-append, leb, true,
}
use ucloud_iot_rtthread_pack.Mqtt.State.{max_size_of_cloud_topic, SubTopicHandle}
use ucloud_iot_rtthread_pack.Mqtt.Act.{Hal, St}
use ucloud_iot_rtthread_pack.Mqtt.Bytes.{Reader}
use ucloud_iot_rtthread_pack.Mqtt.Deserialize.{Message, deserialize_publish}
use ucloud_iot_rtthread_pack.Mqtt.Handlers.{
  c_string, fix_topic, belongs, receiver, copy_out, clamp_topic_len, deliver_message,
  handle_publish,
}

-- A byte of a C string.
abbrev pub IsChar : ℕ → Type 0
IsChar b = b ≢ 0

c_string_terminated :
    (s : List ℕ) (k : ℕ) → All IsChar s → c_string (s ++ replicate (suc k) 0) ≡ ok s
unfolding c_string
c_string_terminated [] k h = refl
c_string_terminated (b ∷ s) k h = ground (arith, c_string_terminated s k)

c_string_unterminated : (s : List ℕ) → All IsChar s → c_string s ≡ fault
unfolding c_string
c_string_unterminated [] h = refl
c_string_unterminated (b ∷ s) h = ground (arith, c_string_unterminated s)

-- The array fix_topic holds every topic name of fewer than MAX_SIZE_OF_CLOUD_TOPIC bytes as a
-- C string: strlen and strcmp see that name and nothing else.
pub c_string-fix_topic :
    (topic : List ℕ)
    → All IsChar topic
    → length topic < max_size_of_cloud_topic
    → c_string (fix_topic (length topic) topic) ≡ ok topic
c_string-fix_topic topic h lt =
    let k = max_size_of_cloud_topic - 1 - length topic in
    let e : max_size_of_cloud_topic - length topic ≡ suc k = omega arith in
    rw e (c_string_terminated topic k h)

copy_out-append :
    (r : Reader) (topic behind : List ℕ)
    → r.rest ≡ topic ++ behind
    → copy_out (length topic) r ≡ ok topic
unfolding copy_out
copy_out-append r topic behind e =
    let within : leb (length topic) (length (topic ++ behind)) ≡ true =
      ground (arith, length-append topic behind) in
    rw (e, within, take-append topic behind)

-- The guard of _handle_publish_packet lets a topic name of 128 bytes through.
clamp_topic_len_full :
    (n k : ℕ) → n ≡ max_size_of_cloud_topic → k ≡ max_size_of_cloud_topic → clamp_topic_len n ≡ k
clamp_topic_len_full n k e f = ground arith

fix_topic_full :
    (m : Message) (topic : List ℕ)
    → m.topic_len ≡ max_size_of_cloud_topic
    → fix_topic (clamp_topic_len m.topic_len) topic ≡ topic
fix_topic_full m topic len = rw len (append-nil topic)

-- The same of the test of _deliver_message with any filter, and of its loop.
belongs_unterminated :
    (topic filter : List ℕ) (topic_len : ℕ)
    → All IsChar topic
    → belongs topic topic_len filter ≡ fault
unfolding belongs
belongs_unterminated topic filter topic_len h = ground (arith, c_string_unterminated topic h)

-- Some slot of the table is in use.
abbrev pub HasFilter : List SubTopicHandle → Type 0
HasFilter [] = ⊥
HasFilter (h ∷ hs) = ((filter : List ℕ) × (h.topic_filter ≡ some filter)) ⊎ HasFilter hs

receiver_unterminated :
    (topic : List ℕ) (topic_len : ℕ) (hs : List SubTopicHandle)
    → All IsChar topic
    → HasFilter hs
    → receiver topic topic_len hs ≡ fault
unfolding receiver
receiver_unterminated topic topic_len [] a used = elim used [ ]
receiver_unterminated topic topic_len (h ∷ hs) a (inl (filter, e)) =
    rw (e, belongs_unterminated topic filter topic_len a)
receiver_unterminated topic topic_len (h ∷ hs) a (inr later) = elim (Option-cases h.topic_filter) [
  | inl e ↦ rw (e, receiver_unterminated topic topic_len hs a later)
  | inr (filter, e) ↦ rw (e, belongs_unterminated topic filter topic_len a)
]

-- A received PUBLISH packet whose topic name has exactly MAX_SIZE_OF_CLOUD_TOPIC bytes, none of them
-- NUL and all of them in read_buf, is not shortened by _handle_publish_packet and leaves no room for
-- a NUL in fix_topic: where the client has any subscription, the search for it reads past the end
-- of that array.
pub handle_publish_full :
    (hal : Hal) (fuel timer : ℕ) (s : St hal.World) (m : Message) (topic behind : List ℕ)
    → deserialize_publish 0 s.client.read_buf s.client.read_buf_size ≡ ok m
    → m.topic_len ≡ max_size_of_cloud_topic
    → m.topic_name.rest ≡ topic ++ behind
    → length topic ≡ max_size_of_cloud_topic
    → All IsChar topic
    → HasFilter s.client.sub_handles
    → (handle_publish hal fuel timer s).0 ≡ fault
unfolding handle_publish deliver_message
handle_publish_full hal fuel timer s m topic behind read len starts size chars used =
    let copied : copy_out (clamp_topic_len m.topic_len) m.topic_name ≡ ok topic =
      rw (clamp_topic_len_full m.topic_len (length topic) len size)
        (copy_out-append m.topic_name topic behind starts) in
    let whole : fix_topic (clamp_topic_len m.topic_len) topic ≡ topic =
      fix_topic_full m topic len in
    rw (
      read,
      copied,
      whole,
      receiver_unterminated topic (clamp_topic_len m.topic_len) s.client.sub_handles chars used,
    )
