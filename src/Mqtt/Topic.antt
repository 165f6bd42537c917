-- ===== src/Mqtt/Topic.antt =====
-- uiot/mqtt/src/mqtt_client_common.c: which subscriptions a received topic name belongs to. A C
-- string is the list of its bytes before the NUL. The pointer `curn` is the byte before it, if it
-- has moved past one, and the bytes from it up to `curn_end`.
pub mod Matching
pub mod Overmatch
use ucloud_iot_rtthread_pack.Prelude.{
  ℕ, Bool, true, false, not, ◌&&◌, ◌||◌, Option, none, some, List, [], ◌∷◌, ◌==◌, if◌then◌else◌,
  length,
}

-- strcmp(a, b) == 0
unfoldable pub str_equal : List ℕ → List ℕ → Bool
str_equal [] [] = true
str_equal (a ∷ as') (b ∷ bs) = a == b && str_equal as' bs
str_equal _ _ = false

-- _is_topic_equals
unfoldable pub is_topic_equals : List ℕ → List ℕ → Bool
unfolding str_equal
is_topic_equals topic_filter topic_name =
    length topic_filter == length topic_name && str_equal topic_filter topic_name

-- `while (nextpos < curn_end && *nextpos != '/') nextpos = ++curn + 1;` from a `curn` that points at
-- the byte `c` in front of `rest`: the last byte that is skipped, and what stands behind it.
skip_level : ℕ → List ℕ → ℕ × List ℕ
skip_level c [] = (c, [])
skip_level c (d ∷ rest) =
    let further = skip_level d rest in if d == b'/' then (c, d ∷ rest) else further

-- The last byte of the name.
last_byte : ℕ → List ℕ → ℕ
last_byte c [] = c
last_byte c (d ∷ rest) = last_byte d rest

-- *(curf + 1) == '#', for a `curf` that is not at the NUL
hash_follows : List ℕ → Bool
hash_follows [] = false
hash_follows (d ∷ _) = d == b'#'

-- The result behind the loop. `none` is the read of `*(curn - 1)` at the start of the name.
finish : List ℕ → Option ℕ → List ℕ → Option Bool
finish [] prev name = some (elim name [ [] ↦ true | _ ∷ _ ↦ false ])
finish (f ∷ fs) prev name =
    if f == b'#'
    then some true
    else if hash_follows fs
    then some true
    else if f == b'+'
    then elim prev [ none ↦ none | some p ↦ some (p == b'/') ]
    else some false

-- The loop of _is_topic_matched: each round takes one byte of the filter.
unfoldable pub matched : List ℕ → Option ℕ → List ℕ → Option Bool
unfolding finish hash_follows skip_level last_byte
matched [] prev name = finish [] prev name
matched (f ∷ fs) prev [] = finish (f ∷ fs) prev []
matched (f ∷ fs) prev (n ∷ ns) =
    let same = matched fs prev (n ∷ ns) in
    let (level_end, after_level) = skip_level n ns in
    let plus = matched fs (some level_end) after_level in
    let hash = matched fs (some (last_byte n ns)) [] in
    let next = matched fs (some n) ns in
    if f == b'+' && n == b'/'
    then same
    else if n == b'/' && not (f == b'/')
    then finish (f ∷ fs) prev (n ∷ ns)
    else if not (f == b'+') && not (f == b'#') && not (f == n)
    then finish (f ∷ fs) prev (n ∷ ns)
    else if f == b'+'
    then plus
    else if f == b'#'
    then hash
    else next

-- _is_topic_matched; `none` is a read in front of the topic name
unfoldable pub is_topic_matched : List ℕ → List ℕ → Option Bool
unfolding matched
is_topic_matched topic_filter topic_name = matched topic_filter none topic_name
