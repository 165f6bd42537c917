-- ===== src/Mqtt/Pending.antt =====
-- uiot/mqtt/src: packet identifiers, the lists of requests that wait for an acknowledgement, and the
-- table of subscriptions. The doubly linked lists of utils_list.c are lists here, in their order.
pub mod Ids
pub mod Table
use ucloud_iot_rtthread_pack.Prelude.{
  ℕ, suc, ◌+◌, Bool, true, false, not, ◌&&◌, ◌||◌, Option, none, some, List, [], ◌∷◌, ◌++◌, ◌==◌,
  if◌then◌else◌, length, set, u16, ltb, leb,
}
use ucloud_iot_rtthread_pack.Mqtt.State.{
  max_packet_id, NodeState, normal, invalid, SubTopicHandle, PubInfo, SubInfo, Event, Client,
}
use ucloud_iot_rtthread_pack.Mqtt.Topic.{str_equal}

-- get_next_packet_id
unfoldable pub get_next_packet_id : Client → ℕ × Client
get_next_packet_id c =
    let id = u16 (if max_packet_id == c.next_packet_id then 1 else c.next_packet_id + 1) in
    (id, record c { next_packet_id = id })

-- The application's event handler, if there is one.
unfoldable pub notify : Event → Client → Client
notify e c = if c.has_event_handler then record c { trace = c.trace ++ e ∷ [] } else c

-- _mask_pubInfo_from: the nodes with this identifier become invalid
unfoldable pub mask_pub_info : ℕ → List PubInfo → List PubInfo
mask_pub_info msg_id [] = []
mask_pub_info msg_id (p ∷ ps) =
    (if p.msg_id == msg_id then record p { node_state = invalid } else p) ∷ mask_pub_info msg_id ps

-- _mask_sub_info_from, its effect on the list
unfoldable pub mask_sub_info : ℕ → List SubInfo → List SubInfo
mask_sub_info msg_id [] = []
mask_sub_info msg_id (s ∷ ss) =
    (if s.msg_id == msg_id then record s { node_state = invalid } else s) ∷ mask_sub_info msg_id ss

-- _mask_sub_info_from, what it stores through `messageHandler`: the walk starts at the tail, so the
-- match nearest to the head is stored last. `none`: nothing is stored.
unfoldable pub masked_handler : ℕ → List SubInfo → Option SubTopicHandle
masked_handler msg_id [] = none
masked_handler msg_id (s ∷ ss) =
    let later = masked_handler msg_id ss in if s.msg_id == msg_id then some s.handler else later

-- Equal callback pointers.
same_handler : Option ℕ → Option ℕ → Bool
same_handler none none = true
same_handler (some a) (some b) = a == b
same_handler _ _ = false

same_topic : Option (List ℕ) → Option (List ℕ) → Bool
same_topic (some a) (some b) = length a == length b && str_equal a b
same_topic _ _ = false

-- 0 == _check_handle_is_identical; the handles are not null
unfoldable pub is_identical : SubTopicHandle → SubTopicHandle → Bool
unfolding same_handler same_topic
is_identical a b =
    same_topic a.topic_filter b.topic_filter && same_handler a.message_handler b.message_handler

-- What the loop of _handle_suback_packet over sub_handles finds.
pub data Slot : Type 0 where
  duplicate : Slot
  free : Option ℕ → Slot

-- `if (-1 == i_free) i_free = i;`
abbrev pub first_free : Option ℕ → ℕ → Option ℕ
first_free none i = some i
first_free (some j) i = some j

unfoldable pub find_slot : SubTopicHandle → List SubTopicHandle → ℕ → Option ℕ → Slot
find_slot h [] i i_free = free i_free
find_slot h (x ∷ xs) i i_free =
    let used = find_slot h xs (i + 1) i_free in
    let unused = find_slot h xs (i + 1) (first_free i_free i) in
    elim x.topic_filter [ some _ ↦ (if is_identical x h then duplicate else used) | none ↦ unused ]

-- Does the string hold `a` followed by `b`? strstr(s, "ab") != NULL
unfoldable pub has_pair : ℕ → ℕ → List ℕ → Bool
has_pair a b [] = false
has_pair a b (c ∷ []) = false
has_pair a b (c ∷ d ∷ s) = c == a && d == b || has_pair a b (d ∷ s)

abbrev pub drop_filter : SubTopicHandle → SubTopicHandle
drop_filter h = record h { topic_filter = none }

-- The test of the loop in uiot_mqtt_unsubscribe.
unfoldable pub is_unsubscribed : List ℕ → SubTopicHandle → Bool
is_unsubscribed topic h =
    elim h.topic_filter [ none ↦ false | some f ↦ str_equal f topic ]
    || has_pair b'/' b'#' topic
    || has_pair b'/' b'+' topic

-- The loop of uiot_mqtt_unsubscribe: the new table, and `suber_exists`.
unfoldable pub remove_handles : List ℕ → List SubTopicHandle → List SubTopicHandle × Bool
remove_handles topic [] = ([], false)
remove_handles topic (h ∷ hs) =
    let (rest, found) = remove_handles topic hs in
    if is_unsubscribed topic h then (drop_filter h ∷ rest, true) else (h ∷ rest, found)
