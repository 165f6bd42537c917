-- ===== src/Utils/LinkedList/Destroy.antt =====
-- list_destroy of uiot/utils/utils_list.c.
use ucloud_iot_rtthread_pack.Prelude.{
  ℕ, suc, List, [], ◌∷◌, ◌++◌, some, none, ◌≡◌, ◌≢◌, refl, sym, ◌∙◌, arith, if◌then◌else◌, length,
  true, false, append_assoc, append-nil, ap, Bool, All,
}
use ucloud_iot_rtthread_pack.Utils.LinkedList.{ListNode, Store, list_destroy, destroy_loop, update}
use ucloud_iot_rtthread_pack.Utils.LinkedList.Chain.{
  Cells, Cell, IsList, first, Chain, Fresh, Distinct,
}
use ucloud_iot_rtthread_pack.Utils.LinkedList.Change.{Chain-update, update_self, update-ne}

abbrev pub values : Cells → List ℕ
values [] = []
values ((p, v) ∷ xs) = v ∷ values xs

abbrev emptied : Cell → Cells → Cell
emptied c [] = c
emptied c ((p, v) ∷ xs) = emptied (update c p none) xs

emptied-Fresh : (c : Cell) (p : ℕ) (xs : Cells) → Fresh p xs → emptied c xs p ≡ c p
emptied-Fresh c p [] f = refl
emptied-Fresh c p ((q, v) ∷ xs) f =
    emptied-Fresh (update c q none) p xs f.1 ∙ update-ne c q p none (λ i. f.0 (sym i))

emptied-none :
    (c : Cell) (xs : Cells) → Distinct xs → All (λ (x : ℕ × ℕ). emptied c xs x.0 ≡ none) xs
emptied-none c [] d = tt
emptied-none c ((p, v) ∷ xs) d = (
  emptied-Fresh (update c p none) p xs d.1 ∙ update_self c p none,
  emptied-none (update c p none) xs d.2,
)

abbrev given : Bool → List ℕ → List ℕ → List ℕ
given free r vs = if free then r ++ vs else r

given-nil : (free : Bool) (r : List ℕ) → given free r [] ≡ r
given-nil true r = append-nil r
given-nil false r = refl

given-given :
    (free : Bool) (r vs ws : List ℕ) → given free (given free r vs) ws ≡ given free r (vs ++ ws)
given-given true r vs ws = append_assoc r vs ws
given-given false r vs ws = refl

destroy_step :
    (s : Store) (p n : ℕ) (m : ListNode)
    → p ≢ 0
    → s.cell p ≡ some m
    → destroy_loop (suc n) p s
      ≡ destroy_loop n m.next (record {
        list = s.list;
        cell = update s.cell p none;
        released = given s.list.free s.released (m.val ∷ []);
      })
unfolding destroy_loop
destroy_step s p n m used there = ground arith

destroy_loop-chain :
    (xs : Cells) (s : Store) (b : ℕ)
    → Distinct xs
    → Chain s.cell b xs 0
    → destroy_loop (length xs) (first xs 0) s
      ≡ some (
        tt,
        record {
          list = s.list;
          cell = emptied s.cell xs;
          released = given s.list.free s.released (values xs);
        },
      )
unfolding destroy_loop
destroy_loop-chain [] s b d h =
    ap (λ (r : List ℕ). some (tt, record s { released = r }))
      (sym (given-nil s.list.free s.released))
destroy_loop-chain ((p, v) ∷ xs) s b d h =
    destroy_step s p (length xs) _ d.0 h.0
    ∙ destroy_loop-chain xs _ p d.2 (Chain-update s.cell p none p xs 0 d.1 h.1)
    ∙ ap
        (λ (r : List ℕ).
          some (tt, record { list = s.list; cell = emptied s.cell ((p, v) ∷ xs); released = r }))
        (given-given s.list.free s.released (v ∷ []) (values xs))

-- list_destroy ends without a fault with no node of the list allocated, and it has handed the value
-- of each node, in order, to the list's free callback, if there is one.
pub list_destroy-values :
    {s : Store} {xs : Cells}
    → IsList s xs
    → (t : Store) × (list_destroy s ≡ some (tt, t))
      × (t.released ≡ (if s.list.free then s.released ++ values xs else s.released))
      × All (λ (x : ℕ × ℕ). t.cell x.0 ≡ none) xs
unfolding list_destroy
list_destroy-values {s} {xs} l = (
  record {
    list = s.list;
    cell = emptied s.cell xs;
    released = given s.list.free s.released (values xs);
  },
  ap (λ (n : ℕ). destroy_loop n s.list.head s) l.counted
      ∙ ap (λ (p : ℕ). destroy_loop (length xs) p s) l.head_first
      ∙ destroy_loop-chain xs s 0 l.distinct l.linked,
  refl,
  emptied-none s.cell xs l.distinct,
)
