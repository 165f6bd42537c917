-- ===== src/Utils/LinkedList.antt =====
-- uiot/utils/utils_list.c: the doubly linked list that the MQTT client and the device shadow keep
-- their entries in, over an explicit heap of nodes. An address is a number, and 0 is NULL.
use ucloud_iot_rtthread_pack.Prelude.{
  ℕ, zero, suc, ◌+◌, ◌-◌, ◌^◌, List, [], ◌∷◌, ◌++◌, Bool, true, false, Option, none, some, ℤ, pos,
  negsuc, ltb, ◌==◌, if◌then◌else◌, u32,
}
pub mod Chain
pub mod Change
pub mod Push
pub mod Remove
pub mod Pop
pub mod Contents
pub mod Whole
pub mod Refinement
pub mod Search
pub mod Destroy

pub data ListDirection : Type 0 where
  list_head : ListDirection
  list_tail : ListDirection

pub record ListNode : Type 0 where
  pub prev : ℕ
  pub next : ℕ
  pub val : ℕ

-- The callbacks: `free` may be NULL, and its calls are recorded; `match` may be NULL.
pub record LinkedList : Type 0 where
  pub head : ℕ
  pub tail : ℕ
  pub len : ℕ
  pub free : Bool
  pub match : Option (ℕ → ℕ → Bool)

pub record ListIterator : Type 0 where
  pub next : ℕ
  pub direction : ListDirection

-- The list, the nodes that are allocated, and the values that were handed to `free`.
pub record Store : Type 0 where
  pub list : LinkedList
  pub cell : ℕ → Option ListNode
  pub released : List ℕ

-- `none` is an access through NULL or through a pointer to no node.
abbrev pub M : Type 0 → Type 0
M A = Store → Option (A × Store)

module _ {A B : Type 0} where
  abbrev pub continue : Option (A × Store) → (A → M B) → Option (B × Store)
  continue none f = none
  continue (some (a, t)) f = f a t

  infixl 5 ◌>>=◌ ◌>>◌
  abbrev pub ◌>>=◌ : M A → (A → M B) → M B
  ◌>>=◌ m f s = continue (m s) f

  abbrev pub ◌>>◌ : M A → M B → M B
  m >> k = m >>= λ _. k

abbrev pub pure : {A : Type 0} → A → M A
pure a s = some (a, s)

abbrev pub done : M (Unit {0})
done = pure tt

abbrev pub update : (ℕ → Option ListNode) → ℕ → Option ListNode → ℕ → Option ListNode
update cell p n a = if a == p then n else cell a

abbrev pub live : (ℕ → Option ListNode) → ℕ → Option ListNode
live cell p = if p == 0 then none else cell p

abbrev pub load : ℕ → M ListNode
load p s = elim (live s.cell p) [ none ↦ none | some n ↦ some (n, s) ]

abbrev pub store : ℕ → Option ListNode → M (Unit {0})
store p n s = some (tt, record s { cell = update s.cell p n })

-- `p->prev = q`, `p->next = q`, HAL_Free(p)
abbrev pub set_prev : ℕ → ℕ → M (Unit {0})
set_prev p q = do n ← load p; store p (some (record n { prev = q }))

abbrev pub set_next : ℕ → ℕ → M (Unit {0})
set_next p q = do n ← load p; store p (some (record n { next = q }))

abbrev pub hal_free : ℕ → M (Unit {0})
hal_free p = do _ ← load p; store p none

abbrev pub get_list : M LinkedList
get_list s = some (s.list, s)

abbrev pub set_list : LinkedList → M (Unit {0})
set_list l s = some (tt, record s { list = l })

-- `if (self->free) self->free(val);`
abbrev pub release : ℕ → M (Unit {0})
release v s = some (tt, if s.list.free then record s { released = s.released ++ v ∷ [] } else s)

-- The allocator's answer is the address, 0 where it fails.
unfoldable pub list_node_new : ℕ → ℕ → M ℕ
list_node_new self val =
    if self == 0
    then pure 0
    else do store self (some (record { prev = 0; next = 0; val = val })); pure self

-- A new list; `none` where the allocation fails.
unfoldable pub list_new : Bool → Option LinkedList
list_new granted =
    if granted
    then some (record { head = 0; tail = 0; len = 0; free = false; match = none })
    else none

-- The branch of an empty list, in both pushes.
abbrev pub start_with : ℕ → M (Unit {0})
start_with node = do
  self ← get_list
  set_list (record self { head = node; tail = node })
  set_next node 0
  set_prev node 0

abbrev pub link_last : ℕ → M (Unit {0})
link_last node = do
  self ← get_list
  set_prev node self.tail
  set_next node 0
  set_next self.tail node
  set_list (record self { tail = node })

abbrev pub link_first : ℕ → M (Unit {0})
link_first node = do
  self ← get_list
  set_next node self.head
  set_prev node 0
  set_prev self.head node
  set_list (record self { head = node })

-- `++self->len` and `--self->len`
abbrev pub count_up : M (Unit {0})
count_up = do self ← get_list; set_list (record self { len = u32 (self.len + 1) })

abbrev pub count_down : M (Unit {0})
count_down = do self ← get_list; set_list (record self { len = u32 (self.len + 2 ^ 32 - 1) })

unfoldable pub list_rpush : ℕ → M ℕ
list_rpush node = if node == 0 then pure 0 else do
  self ← get_list
  if self.len == 0 then start_with node else link_last node
  count_up
  pure node

unfoldable pub list_lpush : ℕ → M ℕ
list_lpush node = if node == 0 then pure 0 else do
  self ← get_list
  if self.len == 0 then start_with node else link_first node
  count_up
  pure node

-- `self->tail = self->head = NULL`, in both pops
abbrev pub leave_empty : M (Unit {0})
leave_empty = do self ← get_list; set_list (record self { head = 0; tail = 0 })

abbrev pub unlink_last : ℕ → M (Unit {0})
unlink_last node = do
  self ← get_list
  n ← load node
  set_list (record self { tail = n.prev })
  set_next n.prev 0

abbrev pub unlink_first : ℕ → M (Unit {0})
unlink_first node = do
  self ← get_list
  n ← load node
  set_list (record self { head = n.next })
  set_prev n.next 0

unfoldable pub list_rpop : M ℕ
list_rpop = do
  self ← get_list
  if self.len == 0 then pure 0 else do
    count_down
    if self.len - 1 == 0 then leave_empty else unlink_last self.tail
    set_prev self.tail 0
    set_next self.tail 0
    pure self.tail

unfoldable pub list_lpop : M ℕ
list_lpop = do
  self ← get_list
  if self.len == 0 then pure 0 else do
    count_down
    if self.len - 1 == 0 then leave_empty else unlink_first self.head
    set_prev self.head 0
    set_next self.head 0
    pure self.head

-- The two lines that relink the neighbours of the node.
unfoldable pub relink_prev : ℕ → M (Unit {0})
relink_prev node = do
  n ← load node
  self ← get_list
  if n.prev == 0 then set_list (record self { head = n.next }) else set_next n.prev n.next

unfoldable pub relink_next : ℕ → M (Unit {0})
relink_next node = do
  n ← load node
  self ← get_list
  if n.next == 0 then set_list (record self { tail = n.prev }) else set_prev n.next n.prev

unfoldable pub list_remove : ℕ → M (Unit {0})
list_remove node = do
  relink_prev node
  relink_next node
  n ← load node
  release n.val
  hal_free node
  count_down

unfoldable pub list_iterator_new_from_node : Bool → ℕ → ListDirection → Option ListIterator
list_iterator_new_from_node granted node direction =
    if granted then some (record { next = node; direction = direction }) else none

abbrev pub first_node : LinkedList → ListDirection → ℕ
first_node list list_head = list.head
first_node list list_tail = list.tail

unfoldable pub list_iterator_new : Bool → LinkedList → ListDirection → Option ListIterator
unfolding list_iterator_new_from_node
list_iterator_new granted list direction =
    list_iterator_new_from_node granted (first_node list direction) direction

abbrev pub following : ListNode → ListDirection → ℕ
following n list_head = n.next
following n list_tail = n.prev

-- The node, and the iterator after it.
unfoldable pub list_iterator_next : ListIterator → M (ℕ × ListIterator)
list_iterator_next self = if self.next == 0 then pure (0, self) else do
  curr ← load self.next
  pure (self.next, record self { next = following curr self.direction })

abbrev pub matches : Option (ℕ → ℕ → Bool) → ℕ → ℕ → Bool
matches none val v = val == v
matches (some match) val v = match val v

-- The loop of list_find: `node` is the node that was read last.
unfoldable pub find_loop : ℕ → ℕ → ℕ → ListIterator → M ℕ
find_loop zero val node it = λ s. none
find_loop (suc fuel) val node it =
    let again = λ (r : ℕ × ListIterator). find_loop fuel val r.0 r.1 in
    if node == 0 then pure 0 else do
      self ← get_list
      n ← load node
      if matches self.match val n.val then pure node else (list_iterator_next it >>= again)

unfoldable pub list_find : ℕ → Bool → ℕ → M ℕ
unfolding list_iterator_new
list_find fuel granted val = do
  self ← get_list
  elim (list_iterator_new granted self list_head) [
    | none ↦ pure 0
    | some it ↦ do r ← list_iterator_next it; find_loop fuel val r.0 r.1
  ]

-- `while (index--) node = list_iterator_next(it);`
unfoldable pub at_loop : ℕ → ℕ → ListIterator → M ℕ
at_loop zero node it = pure node
at_loop (suc index) node it = do r ← list_iterator_next it; at_loop index r.0 r.1

abbrev pub at_direction : ℤ → ListDirection
at_direction (pos n) = list_head
at_direction (negsuc n) = list_tail

-- `~index` is what a negative index lies below -1.
abbrev pub at_offset : ℤ → ℕ
at_offset (pos n) = n
at_offset (negsuc n) = n

unfoldable pub list_at : Bool → ℤ → M ℕ
unfolding list_iterator_new
list_at granted index = do
  self ← get_list
  if ltb (at_offset index) self.len
      then elim (list_iterator_new granted self (at_direction index)) [
        | none ↦ pure 0
        | some it ↦ do r ← list_iterator_next it; at_loop (at_offset index) r.0 r.1
      ]
      else pure 0

-- The loop of list_destroy, over the nodes that `len` counts.
unfoldable pub destroy_loop : ℕ → ℕ → M (Unit {0})
destroy_loop zero curr = done
destroy_loop (suc len) curr = do
  n ← load curr
  release n.val
  hal_free curr
  destroy_loop len n.next

-- The list struct itself is freed last, and is not looked at again.
unfoldable pub list_destroy : M (Unit {0})
list_destroy = do self ← get_list; destroy_loop self.len self.head
