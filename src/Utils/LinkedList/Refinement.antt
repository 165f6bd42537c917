-- ===== src/Utils/LinkedList/Refinement.antt =====
-- Sequences of operations on the list of uiot/utils/utils_list.c, against the same operations on
-- what it stands for.
use ucloud_iot_rtthread_pack.Prelude.{
  ℕ, List, [], ◌∷◌, Option, some, ◌≡◌, ◌≢◌, refl, ◌∙◌, arith, ◌==◌, Bool-cases, inl, inr,
  length-append, ==_iff,
}
use ucloud_iot_rtthread_pack.Utils.LinkedList.{
  ListNode, Store, list_rpush, list_lpush, list_node_new, update, M, ◌>>=◌, pure,
}
use ucloud_iot_rtthread_pack.Utils.LinkedList.Chain.{Cells, IsList, Fresh}
use ucloud_iot_rtthread_pack.Utils.LinkedList.Change.{Chain-update, update_self}
use ucloud_iot_rtthread_pack.Utils.LinkedList.Push.{list_rpush-IsList, list_lpush-IsList}
use ucloud_iot_rtthread_pack.Utils.LinkedList.Contents.{
  Op, push_back, push_front, pop_back, pop_front, remove, run, Contents, expected, answer, Allowed,
  Represents,
}
use ucloud_iot_rtthread_pack.Utils.LinkedList.Whole.{
  rpop-init, lpop-tail, remove-erase, length-init, length-erase, length-tail,
}

node_made :
    {A : Type 0} (p v : ℕ) (f : ℕ → M A) (s : Store)
    → p ≢ 0
    → (list_node_new p v >>= f) s
      ≡ f p (record s { cell = update s.cell p (some (record { prev = 0; next = 0; val = v })) })
unfolding list_node_new
node_made p v f s h = elim (Bool-cases (p == 0)) [
  | inl e ↦ absurd (h ((==_iff p 0).0 e))
  | inr e ↦ rw e
]

IsList-update :
    (s : Store) (p : ℕ) (n : Option ListNode) (xs : Cells)
    → Fresh p xs
    → IsList s xs
    → IsList (record s { cell = update s.cell p n }) xs
IsList-update s p n xs f l = record {
  head_first = l.head_first;
  tail_last = l.tail_last;
  counted = l.counted;
  linked = Chain-update s.cell p n 0 xs 0 f l.linked;
  distinct = l.distinct;
}

module _ (s : Store) (a : Contents) (r : Represents s a) where
  abbrev Runs : Op → Type 0
  Runs op = (t : Store) × (run op s ≡ some (answer op a, t)) × Represents t (expected op a)

  push_back-Runs : (p v : ℕ) → Allowed (push_back p v) a → Runs (push_back p v)
  unfolding run
  push_back-Runs p v k =
      let n : ListNode = record { prev = 0; next = 0; val = v } in
      let l = IsList-update s p (some n) a.nodes k.1 r.is_list in
      let (t, e, i, same, frees) =
        list_rpush-IsList _ p n k.0 (update_self s.cell p (some n)) a.nodes l k.1 k.2 in
      (
        t,
        node_made p v list_rpush s k.0 ∙ e,
        record {
          is_list = i;
          released_as = same ∙ r.released_as;
          frees_as = frees ∙ r.frees_as;
          few = omega (arith, length-append a.nodes ((p, v) ∷ []), k.2);
        },
      )

  push_front-Runs : (p v : ℕ) → Allowed (push_front p v) a → Runs (push_front p v)
  unfolding run
  push_front-Runs p v k =
      let n : ListNode = record { prev = 0; next = 0; val = v } in
      let l = IsList-update s p (some n) a.nodes k.1 r.is_list in
      let (t, e, i, same, frees) =
        list_lpush-IsList _ p n k.0 (update_self s.cell p (some n)) a.nodes l k.1 k.2 in
      (
        t,
        node_made p v list_lpush s k.0 ∙ e,
        record {
          is_list = i;
          released_as = same ∙ r.released_as;
          frees_as = frees ∙ r.frees_as;
          few = omega (arith, k.2);
        },
      )

  run-Represents_one : (op : Op) → Allowed op a → Runs op
  unfolding run
  run-Represents_one (push_back p v) k = push_back-Runs p v k
  run-Represents_one (push_front p v) k = push_front-Runs p v k
  run-Represents_one pop_back k =
      let (t, e, i, same, frees) = rpop-init s a.nodes r.is_list r.few in
      (
        t,
        e,
        record {
          is_list = i;
          released_as = same ∙ r.released_as;
          frees_as = frees ∙ r.frees_as;
          few = omega (arith, length-init a.nodes, r.few);
        },
      )
  run-Represents_one pop_front k =
      let (t, e, i, same, frees) = lpop-tail s a.nodes r.is_list r.few in
      (
        t,
        e,
        record {
          is_list = i;
          released_as = same ∙ r.released_as;
          frees_as = frees ∙ r.frees_as;
          few = omega (arith, length-tail a.nodes, r.few);
        },
      )
  run-Represents_one (remove p) k =
      let (t, e, i, same, frees) = remove-erase s p a.nodes r.is_list r.few k in
      (
        t,
        rw e,
        record {
          is_list = i;
          released_as = rw (← r.released_as, ← r.frees_as) same;
          frees_as = frees ∙ r.frees_as;
          few = omega (arith, length-erase p a.nodes, r.few);
        },
      )

unfoldable pub run_all : List Op → M (List ℕ)
run_all [] = pure []
run_all (op ∷ ops) = do p ← run op; ps ← run_all ops; pure (p ∷ ps)

abbrev pub expected_all : List Op → Contents → Contents
expected_all [] a = a
expected_all (op ∷ ops) a = expected_all ops (expected op a)

abbrev pub answers : List Op → Contents → List ℕ
answers [] a = []
answers (op ∷ ops) a = answer op a ∷ answers ops (expected op a)

abbrev pub AllowedAll : List Op → Contents → Type 0
AllowedAll [] a = Unit
AllowedAll (op ∷ ops) a = Allowed op a × AllowedAll ops (expected op a)

-- From a store that represents a list, any sequence of allowed operations runs without a fault,
-- returns the expected nodes, and ends in a store that represents the expected list: an operation is
-- a push of a new node at either end (list_node_new, then list_rpush or list_lpush), a pop at either
-- end, or list_remove, which also hands the value of the node to the list's free callback, if it has
-- one. It is allowed where a new node has a fresh address that is not NULL and leaves the length
-- below 2 ^ 32, and where a node to be removed is in the list.
pub run_all-Represents :
    (ops : List Op) (s : Store) (a : Contents)
    → Represents s a
    → AllowedAll ops a
    → (t : Store) × (run_all ops s ≡ some (answers ops a, t)) × Represents t (expected_all ops a)
unfolding run_all
run_all-Represents [] s a r k = (s, refl, r)
run_all-Represents (op ∷ ops) s a r k =
    let (t, e, r') = run-Represents_one s a r op k.0 in
    let (u, f, r'') = run_all-Represents ops t (expected op a) r' k.1 in (u, rw e (rw f), r'')
