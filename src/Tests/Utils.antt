-- ===== src/Tests/Utils.antt =====
-- Instances at concrete data: uiot/utils.
use ucloud_iot_rtthread_pack.Prelude.{
  ℕ, List, [], ◌∷◌, true, none, some, ◌≡◌, refl, arith, negsuc, ltb, if◌then◌else◌, ◌==◌, All,
  Option,
}
use ucloud_iot_rtthread_pack.Utils.LinkedList.{Store, ListNode, list_find, list_at, list_destroy}
use ucloud_iot_rtthread_pack.Utils.LinkedList.Chain.{Cells, IsList}
use ucloud_iot_rtthread_pack.Utils.LinkedList.Contents.{
  Op, push_back, push_front, pop_front, remove, Contents, Represents,
}
use ucloud_iot_rtthread_pack.Utils.LinkedList.Refinement.{run_all, run_all-Represents}
use ucloud_iot_rtthread_pack.Utils.LinkedList.Search.{list_find-first_match, list_at-get_elem?}
use ucloud_iot_rtthread_pack.Utils.LinkedList.Destroy.{list_destroy-values}

abbrev empty_store : Store
empty_store = record {
  list = record { head = 0; tail = 0; len = 0; free = true; match = none };
  cell = λ p. none;
  released = [];
}

abbrev empty_contents : Contents
empty_contents = record { nodes = []; released = []; frees = true }

empty_store-Represents : Represents empty_store empty_contents
empty_store-Represents = record {
  is_list = record {
    head_first = refl;
    tail_last = refl;
    counted = refl;
    linked = tt;
    distinct = tt;
  };
  released_as = refl;
  frees_as = refl;
  few = omega arith;
}

abbrev script : List Op
script = push_back 8 1 ∷ push_back 16 2 ∷ push_front 24 3 ∷ remove 8 ∷ pop_front ∷ []

run_all-Represents_example :
    (t : Store) × (run_all script empty_store ≡ some (8 ∷ 16 ∷ 24 ∷ 0 ∷ 24 ∷ [], t))
    × Represents t (record { nodes = (16, 2) ∷ []; released = 1 ∷ []; frees = true })
run_all-Represents_example =
    run_all-Represents script empty_store empty_contents empty_store-Represents (omega arith)

-- Two nodes, at 8 and 16, with the values 1 and 2.
abbrev two_cells : ℕ → Option ListNode
two_cells p =
    if p == 8
    then some (record { prev = 0; next = 16; val = 1 })
    else if p == 16
    then some (record { prev = 8; next = 0; val = 2 })
    else none

abbrev two_nodes : Store
two_nodes = record {
  list = record { head = 8; tail = 16; len = 2; free = true; match = some (λ a b. ltb a b) };
  cell = two_cells;
  released = [];
}

abbrev two : Cells
two = (8, 1) ∷ (16, 2) ∷ []

two_nodes-IsList : IsList two_nodes two
two_nodes-IsList = record {
  head_first = refl;
  tail_last = refl;
  counted = refl;
  linked = (refl, (refl, tt));
  distinct = omega arith;
}

list_find-first_match_example : list_find 3 true 1 two_nodes ≡ some (16, two_nodes)
list_find-first_match_example = list_find-first_match two_nodes-IsList 3 1 (omega arith)

list_at-get_elem?_example : list_at true (negsuc 1) two_nodes ≡ some (8, two_nodes)
list_at-get_elem?_example = list_at-get_elem? two_nodes-IsList (negsuc 1)

list_destroy-values_example :
    (t : Store) × (list_destroy two_nodes ≡ some (tt, t))
    × (t.released ≡ 1 ∷ 2 ∷ [])
    × All (λ (x : ℕ × ℕ). t.cell x.0 ≡ none) two
list_destroy-values_example = list_destroy-values two_nodes-IsList
