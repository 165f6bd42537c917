-- ===== src/Mqtt/Pending/Table.antt =====
-- uiot/mqtt/src: the table of subscriptions in _handle_suback_packet and uiot_mqtt_unsubscribe.
use mathlib.Core.Bool.{false≢true}
use ucloud_iot_rtthread_pack.Prelude.{
  ℕ, zero, suc, ◌+◌, ◌≡◌, ◌≢◌, refl, ap, sym, ◌∙◌, arith, true, false, ◌||◌, Option, none, some,
  List, [], ◌∷◌, if◌then◌else◌, All, ◌⊎◌, inl, inr, ◌↔◌, Bool-cases, Option-cases,
}
use ucloud_iot_rtthread_pack.Mqtt.State.{SubTopicHandle}
use ucloud_iot_rtthread_pack.Mqtt.Topic.Matching.{str_equal_iff}
use ucloud_iot_rtthread_pack.Mqtt.Pending.{
  is_identical, duplicate, free, first_free, find_slot, has_pair, is_unsubscribed, remove_handles,
  drop_filter,
}

-- One round of the loop, on a slot that is not in use and on one that is.
find_slot_unused :
    (h x : SubTopicHandle) (xs : List SubTopicHandle) (i : ℕ) (i_free : Option ℕ)
    → x.topic_filter ≡ none
    → find_slot h (x ∷ xs) i i_free ≡ find_slot h xs (i + 1) (first_free i_free i)
unfolding find_slot
find_slot_unused h x xs i i_free e = ground arith

find_slot_used :
    (h x : SubTopicHandle) (xs : List SubTopicHandle) (i : ℕ) (i_free : Option ℕ) (t : List ℕ)
    → x.topic_filter ≡ some t
    → find_slot h (x ∷ xs) i i_free
      ≡ (if is_identical x h then duplicate else find_slot h xs (i + 1) i_free)
unfolding find_slot
find_slot_used h x xs i i_free t e = ground arith

abbrev pub IsUnused : List SubTopicHandle → ℕ → Type 0
IsUnused [] k = ⊥
IsUnused (x ∷ xs) zero = x.topic_filter ≡ none
IsUnused (x ∷ xs) (suc k) = IsUnused xs k

abbrev Found : List SubTopicHandle → ℕ → Option ℕ → ℕ → Type 0
Found table i i_free j = (i_free ≡ some j) ⊎ ((k : ℕ) × (j ≡ i + k) × IsUnused table k)

find_slot_later :
    (x : SubTopicHandle) (xs : List SubTopicHandle) (i : ℕ) (i_free : Option ℕ) (j : ℕ)
    → x.topic_filter ≡ none
    → Found xs (i + 1) (first_free i_free i) j
    → Found (x ∷ xs) i i_free j
find_slot_later x xs i none j nul (inl e) = inr (0, ground arith, nul)
find_slot_later x xs i (some f) j nul (inl e) = inl e
find_slot_later x xs i i_free j nul (inr (k, e, u)) = inr (suc k, omega arith, u)

find_slot_free :
    (h : SubTopicHandle) (table : List SubTopicHandle) (i : ℕ) (i_free : Option ℕ) (j : ℕ)
    → find_slot h table i i_free ≡ free (some j)
    → Found table i i_free j
find_slot_free h [] i i_free j e = inl (unfold find_slot in cc)
find_slot_free h (x ∷ xs) i i_free j e = elim (Option-cases x.topic_filter) [
  | inl nul ↦ find_slot_later x xs i i_free j nul (
      find_slot_free h xs (i + 1) (first_free i_free i) j
        (sym (find_slot_unused h x xs i i_free nul) ∙ e))
  | inr (t, some_t) ↦
      elim (find_slot_free h xs (i + 1) i_free j
        (ground (arith, find_slot_used h x xs i i_free t some_t))) [
          | inl q ↦ inl q
          | inr (k, q, u) ↦ inr (suc k, omega arith, u)
        ]
]

-- The slot that _handle_suback_packet takes for a new subscription is one of the table and holds no
-- other subscription.
pub find_slot-IsUnused :
    (h : SubTopicHandle) (table : List SubTopicHandle) (j : ℕ)
    → find_slot h table 0 none ≡ free (some j)
    → IsUnused table j
find_slot-IsUnused h table j e = elim (find_slot_free h table 0 none j e) [
  | inl q ↦ absurd (ground arith)
  | inr (k, q, u) ↦ let q' : j ≡ k = omega arith in rw q' u
]

-- One round of the loop that empties a slot.
remove_handles_cons :
    (topic : List ℕ) (h : SubTopicHandle) (hs : List SubTopicHandle)
    → is_unsubscribed topic h ≡ true
    → (remove_handles topic (h ∷ hs)).0 ≡ drop_filter h ∷ (remove_handles topic hs).0
unfolding remove_handles
remove_handles_cons topic h hs e = ground arith

is_unsubscribed_wildcard :
    (topic : List ℕ) (h : SubTopicHandle)
    → (has_pair b'/' b'#' topic || has_pair b'/' b'+' topic) ≡ true
    → is_unsubscribed topic h ≡ true
unfolding is_unsubscribed
is_unsubscribed_wildcard topic h e = ground arith

-- The loop with a filter that holds "/#" or "/+" leaves no subscription in the table.
pub remove_handles_wildcard :
    (topic : List ℕ) (table : List SubTopicHandle)
    → (has_pair b'/' b'#' topic || has_pair b'/' b'+' topic) ≡ true
    → All (λ h. h.topic_filter ≡ none) (remove_handles topic table).0
remove_handles_wildcard topic [] e = unfold remove_handles in tt
remove_handles_wildcard topic (h ∷ hs) e =
    rw (remove_handles_cons topic h hs (is_unsubscribed_wildcard topic h e))
      (refl, remove_handles_wildcard topic hs e)

-- Nothing is left of the subscription, and the others stay.
abbrev pub RemovedOne : List ℕ → List SubTopicHandle → List SubTopicHandle → Type 0
RemovedOne topic [] [] = Unit
RemovedOne topic (x ∷ xs) (y ∷ ys) =
    (x.topic_filter ≡ some topic → y.topic_filter ≡ none)
    × (x.topic_filter ≢ some topic → y ≡ x)
    × RemovedOne topic xs ys
RemovedOne topic _ _ = ⊥

remove_handles_keep :
    (topic : List ℕ) (h : SubTopicHandle) (hs : List SubTopicHandle)
    → is_unsubscribed topic h ≡ false
    → (remove_handles topic (h ∷ hs)).0 ≡ h ∷ (remove_handles topic hs).0
unfolding remove_handles
remove_handles_keep topic h hs e = ground arith

is_unsubscribed_iff :
    (topic : List ℕ) (h : SubTopicHandle)
    → has_pair b'/' b'#' topic ≡ false
    → has_pair b'/' b'+' topic ≡ false
    → (is_unsubscribed topic h ≡ true) ↔ (h.topic_filter ≡ some topic)
unfolding is_unsubscribed
is_unsubscribed_iff topic h p q = elim (Option-cases h.topic_filter) [
  | inl nul ↦ (λ e. ground arith, λ e. cc)
  | inr (f, e) ↦ (
    (λ u. e ∙ ap some ((str_equal_iff f topic).0 (ground arith))),
    (λ e'. ground (arith, (str_equal_iff f topic).1 (ground arith))),
  )
]

-- uiot_mqtt_unsubscribe with a filter without "/#" and "/+" empties the slots with that filter and
-- leaves all others as they were.
remove_handles_plain :
    (topic : List ℕ) (table : List SubTopicHandle)
    → has_pair b'/' b'#' topic ≡ false
    → has_pair b'/' b'+' topic ≡ false
    → RemovedOne topic table (remove_handles topic table).0
remove_handles_plain topic [] h k = unfold remove_handles in tt
remove_handles_plain topic (x ∷ xs) h k = elim (Bool-cases (is_unsubscribed topic x)) [
  | inl u ↦ rw (remove_handles_cons topic x xs u) (
    (λ _. refl),
    (λ ne. absurd (ne ((is_unsubscribed_iff topic x h k).0 u))),
    remove_handles_plain topic xs h k,
  )
  | inr u ↦ rw (remove_handles_keep topic x xs u) (
    (λ e. absurd (false≢true (sym u ∙ (is_unsubscribed_iff topic x h k).1 e))),
    (λ _. refl),
    remove_handles_plain topic xs h k,
  )
]
