-- ===== src/Utils/LinkedList/Search.antt =====
-- The iterator, list_find and list_at of uiot/utils/utils_list.c, on a list of distinct nodes.
use ucloud_iot_rtthread_pack.Prelude.{
  ℕ, zero, suc, ◌+◌, ◌<◌, [], ◌∷◌, Option, some, none, ◌≡◌, ◌≢◌, refl, sym, ◌∙◌, arith,
  if◌then◌else◌, Bool-cases, inl, inr, length, ap, Bool, ℤ, get_elem?, ltb, true, false, ◌≤◌, ◌==◌,
  pos, negsuc,
}
use ucloud_iot_rtthread_pack.Utils.LinkedList.{
  ListNode, ListDirection, list_head, list_tail, ListIterator, Store, list_find, find_loop, list_at,
  at_loop, list_iterator_new_from_node, list_iterator_next, following, first_node, matches,
  at_offset, at_direction,
}
use ucloud_iot_rtthread_pack.Utils.LinkedList.Chain.{
  Cells, Cell, IsList, node, first, last, Chain, Distinct,
}

-- The nodes in the order in which an iterator of that direction comes to them.
abbrev pub Along : Cell → ListDirection → Cells → Type 0
Along c d [] = Unit
Along c d ((p, v) ∷ xs) =
    (p ≢ 0)
    × ((n : ListNode) × (c p ≡ some n) × (n.val ≡ v) × (following n d ≡ first xs 0))
    × Along c d xs

abbrev rev_onto : Cells → Cells → Cells
rev_onto [] acc = acc
rev_onto (x ∷ xs) acc = rev_onto xs (x ∷ acc)

abbrev pub oriented : ListDirection → Cells → Cells
oriented list_head xs = xs
oriented list_tail xs = rev_onto xs []

Along-head : (c : Cell) (b : ℕ) (xs : Cells) → Distinct xs → Chain c b xs 0 → Along c list_head xs
Along-head c b [] d h = tt
Along-head c b ((p, v) ∷ xs) d h = (
  d.0,
  (record { prev = b; next = first xs 0; val = v }, h.0, refl, refl),
  Along-head c p xs d.2 h.1,
)

-- The nodes that were passed, in reverse: `e` comes after them.
abbrev Passed : Cell → ℕ → Cells → Type 0
Passed c e [] = Unit
Passed c e ((p, v) ∷ xs) = (p ≢ 0) × (c p ≡ node (first xs 0) e v) × Passed c p xs

Along-Passed : (c : Cell) (e : ℕ) (xs : Cells) → Passed c e xs → Along c list_tail xs
Along-Passed c e [] h = tt
Along-Passed c e ((p, v) ∷ xs) h = (
  h.0,
  (record { prev = first xs 0; next = e; val = v }, h.1, refl, refl),
  Along-Passed c p xs h.2,
)

Passed-rev_onto :
    (c : Cell) (xs acc : Cells)
    → Distinct xs
    → Chain c (first acc 0) xs 0
    → Passed c (first xs 0) acc
    → Passed c 0 (rev_onto xs acc)
Passed-rev_onto c [] acc d h k = k
Passed-rev_onto c ((p, v) ∷ xs) acc d h k =
    Passed-rev_onto c xs ((p, v) ∷ acc) d.2 h.1 (d.0, h.0, k)

first-rev_onto : (xs acc : Cells) (b : ℕ) → b ≡ first acc 0 → first (rev_onto xs acc) 0 ≡ last b xs
first-rev_onto [] acc b h = sym h
first-rev_onto ((p, v) ∷ xs) acc b h = first-rev_onto xs ((p, v) ∷ acc) p refl

length-rev_onto : (xs acc : Cells) → length (rev_onto xs acc) ≡ length xs + length acc
length-rev_onto [] acc = omega arith
length-rev_onto (x ∷ xs) acc = omega (arith, length-rev_onto xs (x ∷ acc))

length-oriented : (d : ListDirection) (xs : Cells) → length (oriented d xs) ≡ length xs
length-oriented list_head xs = refl
length-oriented list_tail xs = omega (arith, length-rev_onto xs [])

module _ {s : Store} {xs : Cells} (l : IsList s xs) where
  along : (d : ListDirection) → Along s.cell d (oriented d xs)
  along list_head = Along-head s.cell 0 xs l.distinct l.linked
  along list_tail = Along-Passed s.cell 0 _ (Passed-rev_onto s.cell xs [] l.distinct l.linked tt)

  first_node-oriented : (d : ListDirection) → first_node s.list d ≡ first (oriented d xs) 0
  first_node-oriented list_head = l.head_first
  first_node-oriented list_tail = l.tail_last ∙ sym (first-rev_onto xs [] 0 refl)

get_elem?-none : (xs : Cells) (i : ℕ) → length xs ≤ i → get_elem? xs i ≡ none
get_elem?-none [] i h = refl
get_elem?-none (x ∷ xs) zero h = absurd (omega arith)
get_elem?-none (x ∷ xs) (suc i) h = get_elem?-none xs i (omega arith)

abbrev tail : Cells → Cells
tail [] = []
tail (x ∷ xs) = xs

-- One step of the iterator.
list_iterator_next-Along :
    (s : Store) (d : ListDirection) (xs : Cells)
    → Along s.cell d xs
    → list_iterator_next (record { next = first xs 0; direction = d }) s
      ≡ some ((first xs 0, record { next = first (tail xs) 0; direction = d }), s)
unfolding list_iterator_next
list_iterator_next-Along s d [] h = refl
list_iterator_next-Along s d ((p, v) ∷ xs) h = ground arith

list_iterator_next-start :
    {s : Store} {xs : Cells} (l : IsList s xs) (d : ListDirection)
    → list_iterator_next (record { next = first_node s.list d; direction = d }) s
      ≡ some (
        (first (oriented d xs) 0, record { next = first (tail (oriented d xs)) 0; direction = d }),
        s,
      )
list_iterator_next-start {s} {xs} l d =
    ap (λ (p : ℕ). list_iterator_next (record { next = p; direction = d }) s)
      (first_node-oriented l d)
    ∙ list_iterator_next-Along s d (oriented d xs) (along l d)

abbrev pub address : Option (ℕ × ℕ) → ℕ
address none = 0
address (some (p, v)) = p

at_loop-Along :
    (s : Store) (d : ListDirection) (index : ℕ) (xs : Cells)
    → Along s.cell d xs
    → at_loop index (first xs 0) (record { next = first (tail xs) 0; direction = d }) s
      ≡ some (address (get_elem? xs index), s)
unfolding at_loop
at_loop-Along s d zero [] h = refl
at_loop-Along s d zero (x ∷ xs) h = refl
at_loop-Along s d (suc index) [] h =
    rw (list_iterator_next-Along s d [] tt) (at_loop-Along s d index [] tt)
at_loop-Along s d (suc index) (x ∷ xs) h =
    rw (list_iterator_next-Along s d xs h.2) (at_loop-Along s d index xs h.2)

-- What is searched for: a value that the callback of the list accepts (the value searched for is its
-- first argument), and without a callback the value itself.
abbrev pub wanted : Option (ℕ → ℕ → Bool) → ℕ → ℕ → Bool
wanted none val v = val == v
wanted (some f) val v = f val v

-- The element at an index of a list, and at a negative index of its reversal, where -1 is its first.
abbrev pub element : ℤ → Cells → Option (ℕ × ℕ)
element (pos n) xs = get_elem? xs n
element (negsuc n) xs = get_elem? (rev_onto xs []) n

abbrev pub first_match : Option (ℕ → ℕ → Bool) → ℕ → Cells → ℕ
first_match m val [] = 0
first_match m val ((p, v) ∷ xs) = if wanted m val v then p else first_match m val xs

matches-wanted : (m : Option (ℕ → ℕ → Bool)) (val v : ℕ) → matches m val v ≡ wanted m val v
matches-wanted none val v = refl
matches-wanted (some f) val v = refl

find_loop-end :
    (s : Store) (fuel val : ℕ) (it : ListIterator) → find_loop (suc fuel) val 0 it s ≡ some (0, s)
unfolding find_loop
find_loop-end s fuel val it = refl

module _ (s : Store) (fuel val p : ℕ) (n : ListNode) (it : ListIterator) (used : p ≢ 0)
    (there : s.cell p ≡ some n) where
  find_loop-hit :
      matches s.list.match val n.val ≡ true → find_loop (suc fuel) val p it s ≡ some (p, s)
  unfolding find_loop
  find_loop-hit e = ground arith

  find_loop-miss :
      (q : ℕ) (it' : ListIterator)
      → matches s.list.match val n.val ≡ false
      → list_iterator_next it s ≡ some ((q, it'), s)
      → find_loop (suc fuel) val p it s ≡ find_loop fuel val q it' s
  unfolding find_loop
  find_loop-miss q it' e f = ground arith

find_loop-Along :
    (s : Store) (fuel val : ℕ) (xs : Cells)
    → length xs < fuel
    → Along s.cell list_head xs
    → find_loop fuel val (first xs 0) (record { next = first (tail xs) 0; direction = list_head }) s
      ≡ some (first_match s.list.match val xs, s)
find_loop-Along s zero val xs small h = absurd (omega arith)
find_loop-Along s (suc fuel) val [] small h =
    find_loop-end s fuel val (record { next = 0; direction = list_head })
find_loop-Along s (suc fuel) val ((p, v) ∷ xs) small h =
    let (used, (n, there, valued, _), rest) = h in
    let ih = find_loop-Along s fuel val xs (omega arith) rest in
    let it : ListIterator = record { next = first xs 0; direction = list_head } in
    let same = matches-wanted s.list.match val v in
    elim (Bool-cases (wanted s.list.match val v)) [
      | inl e ↦ rw e (find_loop-hit s fuel val p n it used there (rw valued (same ∙ e)))
      | inr e ↦ rw e (
          find_loop-miss s fuel val p n it used there _ _ (rw valued (same ∙ e))
            (list_iterator_next-Along s list_head xs rest)
          ∙ ih)
    ]

module _ {s : Store} {xs : Cells} (l : IsList s xs) where
  -- Where the iterator can be allocated, list_find gives the first node, from the head, whose value
  -- the list's callback accepts for the value searched for (or is equal to it, where there is no
  -- callback), and 0 where there is none. The loop ends after at most one round for each node and one
  -- more, and the store is as before.
  pub list_find-first_match :
      (fuel val : ℕ)
      → length xs < fuel
      → list_find fuel true val s ≡ some (first_match s.list.match val xs, s)
  unfolding list_find list_iterator_new_from_node
  list_find-first_match fuel val small =
      rw (list_iterator_next-start l list_head)
        (find_loop-Along s fuel val xs small (along l list_head))

  -- list_at by its direction and its offset.
  list_at-oriented :
      (index : ℤ)
      → list_at true index s
        ≡ some (address (get_elem? (oriented (at_direction index) xs) (at_offset index)), s)
  unfolding list_at list_iterator_new_from_node
  list_at-oriented index =
      let d = at_direction index in
      let ys = oriented d xs in
      let n = at_offset index in
      let size : length ys ≡ s.list.len = length-oriented d xs ∙ sym l.counted in
      elim (Bool-cases (ltb n s.list.len)) [
        | inl e ↦ rw (e, list_iterator_next-start l d) (at_loop-Along s d n ys (along l d))
        | inr e ↦ rw (e, get_elem?-none ys n (ground (arith, size)))
      ]

  -- Where the iterator can be allocated, list_at gives the node at the index, counted from 0 at the
  -- head, and for a negative index the node of the reversed list that -1 counts as its first, -2 as
  -- its second; 0 where the list is too short. The store is as before.
  pub list_at-get_elem? : (index : ℤ) → list_at true index s ≡ some (address (element index xs), s)
  list_at-get_elem? (pos n) = list_at-oriented (pos n)
  list_at-get_elem? (negsuc n) = list_at-oriented (negsuc n)
