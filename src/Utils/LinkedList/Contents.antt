-- ===== src/Utils/LinkedList/Contents.antt =====
-- What the operations of uiot/utils/utils_list.c are for: the same operations on the list of
-- addresses and values that the nodes stand for.
use ucloud_iot_rtthread_pack.Prelude.{
  ◌⊎◌, ℕ, ◌+◌, ◌<◌, ◌^◌, List, [], ◌∷◌, ◌++◌, ◌≡◌, ◌≢◌, ◌==◌, if◌then◌else◌, length, Bool,
}
use ucloud_iot_rtthread_pack.Utils.LinkedList.{
  Store, list_rpop, list_lpop, list_rpush, list_lpush, list_remove, list_node_new, M, ◌>>=◌, ◌>>◌,
  pure,
}
use ucloud_iot_rtthread_pack.Utils.LinkedList.Chain.{Cells, IsList, first, last, Fresh}

-- A push makes the node first, at the address that the allocator answers with.
pub data Op : Type 0 where
  push_back : ℕ → ℕ → Op
  push_front : ℕ → ℕ → Op
  pop_back : Op
  pop_front : Op
  remove : ℕ → Op

unfoldable pub run : Op → M ℕ
run (push_back p v) = do q ← list_node_new p v; list_rpush q
run (push_front p v) = do q ← list_node_new p v; list_lpush q
run pop_back = list_rpop
run pop_front = list_lpop
run (remove p) = do list_remove p; pure 0

-- The contents, and the values that were released.
pub record Contents : Type 0 where
  pub nodes : Cells
  pub released : List ℕ
  pub frees : Bool

abbrev pub init : Cells → Cells
init [] = []
init (x ∷ []) = []
init (x ∷ y ∷ xs) = x ∷ init (y ∷ xs)

abbrev pub tail : Cells → Cells
tail [] = []
tail (x ∷ xs) = xs

abbrev pub erase : ℕ → Cells → Cells
erase p [] = []
erase p ((q, v) ∷ xs) = if p == q then xs else (q, v) ∷ erase p xs

abbrev pub value_at : ℕ → Cells → ℕ
value_at p [] = 0
value_at p ((q, v) ∷ xs) = if p == q then v else value_at p xs

abbrev pub Holds : ℕ → Cells → Type 0
Holds p [] = ⊥
Holds p ((q, v) ∷ xs) = (p ≡ q) ⊎ Holds p xs

-- What an operation does to the contents, and what it returns.
abbrev pub expected : Op → Contents → Contents
expected (push_back p v) a = record a { nodes = a.nodes ++ (p, v) ∷ [] }
expected (push_front p v) a = record a { nodes = (p, v) ∷ a.nodes }
expected pop_back a = record a { nodes = init a.nodes }
expected pop_front a = record a { nodes = tail a.nodes }
expected (remove p) a = record a {
  nodes = erase p a.nodes;
  released = if a.frees then a.released ++ value_at p a.nodes ∷ [] else a.released;
}

abbrev pub answer : Op → Contents → ℕ
answer (push_back p v) a = p
answer (push_front p v) a = p
answer pop_back a = last 0 a.nodes
answer pop_front a = first a.nodes 0
answer (remove p) a = 0

-- A new node has a fresh address, and a node that is removed is in the list.
abbrev pub Allowed : Op → Contents → Type 0
Allowed (push_back p v) a = (p ≢ 0) × Fresh p a.nodes × (length a.nodes + 1 < 2 ^ 32)
Allowed (push_front p v) a = (p ≢ 0) × Fresh p a.nodes × (length a.nodes + 1 < 2 ^ 32)
Allowed pop_back a = Unit
Allowed pop_front a = Unit
Allowed (remove p) a = Holds p a.nodes

pub record Represents (s : Store) (a : Contents) : Type 0 where
  pub is_list : IsList s a.nodes
  pub released_as : s.released ≡ a.released
  pub frees_as : s.list.free ≡ a.frees
  pub few : length a.nodes < 2 ^ 32
