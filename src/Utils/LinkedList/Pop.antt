-- ===== src/Utils/LinkedList/Pop.antt =====
-- list_rpop and list_lpop of uiot/utils/utils_list.c, on a list of distinct nodes.
use ucloud_iot_rtthread_pack.Prelude.{
  ℕ, ◌-◌, ◌<◌, ◌^◌, [], ◌∷◌, ◌++◌, Option, some, ◌≡◌, ◌≢◌, refl, sym, arith, length-append,
}
use ucloud_iot_rtthread_pack.Utils.LinkedList.{ListNode, Store, list_rpop, list_lpop, update}
use ucloud_iot_rtthread_pack.Utils.LinkedList.Chain.{
  Cells, Cell, IsList, node, last, Chain, Fresh, last-ne,
}
use ucloud_iot_rtthread_pack.Utils.LinkedList.Change.{
  Chain-update, Chain-set_next, Chain-set_prev, last-ne_zero,
}
use ucloud_iot_rtthread_pack.Utils.LinkedList.Remove.{AreApart-split, IsList-Between}

-- The popped node, alone.
abbrev popped : Cell → ℕ → ListNode → Cell
popped c p n =
    update (update c p (some (record n { prev = 0 }))) p
      (some (record { prev = 0; next = 0; val = n.val }))

popped_self : (c : Cell) (p : ℕ) (n : ListNode) → popped c p n p ≡ node 0 0 n.val
popped_self c p n = ground arith

Chain-popped :
    (c : Cell) (p : ℕ) (n : ListNode) (xs : Cells)
    → Fresh p xs
    → Chain c 0 xs 0
    → Chain (popped c p n) 0 xs 0
Chain-popped c p n xs f h = Chain-update _ p _ 0 xs 0 f (Chain-update c p _ 0 xs 0 f h)

module _ (s : Store) (p v : ℕ) where
  -- The list becomes ys, and the node is returned with its links cleared.
  abbrev Popped : (Store → Option (ℕ × Store)) → Cells → Type 0
  Popped pop ys =
      (t : Store) × (pop s ≡ some (p, t))
      × IsList t ys
      × (t.cell p ≡ node 0 0 v)
      × (t.released ≡ s.released)
      × (t.list.free ≡ s.list.free)

  rpop-single : IsList s ((p, v) ∷ []) → Popped list_rpop []
  unfolding list_rpop
  rpop-single l = (
    record s {
      list = record s.list { head = 0; tail = 0; len = 0 };
      cell = popped s.cell p (record { prev = 0; next = 0; val = v });
    },
    ground arith,
    record { head_first = refl; tail_last = refl; counted = refl; linked = tt; distinct = tt },
    popped_self s.cell p (record { prev = 0; next = 0; val = v }),
    refl,
    refl,
  )

  lpop-single : IsList s ((p, v) ∷ []) → Popped list_lpop []
  unfolding list_lpop
  lpop-single l = (
    record s {
      list = record s.list { head = 0; tail = 0; len = 0 };
      cell = popped s.cell p (record { prev = 0; next = 0; val = v });
    },
    ground arith,
    record { head_first = refl; tail_last = refl; counted = refl; linked = tt; distinct = tt },
    popped_self s.cell p (record { prev = 0; next = 0; val = v }),
    refl,
    refl,
  )

  rpop-used :
      (q : ℕ) (n m : ListNode)
      → s.list.tail ≡ p
      → 1 < s.list.len
      → s.list.len < 2 ^ 32
      → p ≢ 0
      → s.cell p ≡ some n
      → n.prev ≡ q
      → q ≢ 0
      → q ≢ p
      → s.cell q ≡ some m
      → list_rpop s
        ≡ some (
          p,
          record s {
            list = record s.list { tail = q; len = s.list.len - 1 };
            cell = popped (update s.cell q (some (record m { next = 0 }))) p n;
          },
        )
  unfolding list_rpop
  rpop-used q n m at more small used e prev k d f = ground arith

  lpop-used :
      (q : ℕ) (n m : ListNode)
      → s.list.head ≡ p
      → 1 < s.list.len
      → s.list.len < 2 ^ 32
      → p ≢ 0
      → s.cell p ≡ some n
      → n.next ≡ q
      → q ≢ 0
      → q ≢ p
      → s.cell q ≡ some m
      → list_lpop s
        ≡ some (
          p,
          record s {
            list = record s.list { head = q; len = s.list.len - 1 };
            cell = popped (update s.cell q (some (record m { prev = 0 }))) p n;
          },
        )
  unfolding list_lpop
  lpop-used q n m at more small used e prev k d f = ground arith

  pub list_rpop-IsList :
      (xs : Cells) → IsList s (xs ++ (p, v) ∷ []) → s.list.len < 2 ^ 32 → Popped list_rpop xs
  list_rpop-IsList [] l small = rpop-single l
  list_rpop-IsList ((q, w) ∷ xs) l small =
      let a = AreApart-split ((q, w) ∷ xs) p v [] l.distinct in
      let b = IsList-Between ((q, w) ∷ xs) p v [] l in
      let r = last q xs in
      let n : ListNode = record { prev = r; next = 0; val = v } in
      let (m, there, ends, linked) =
        Chain-set_next s.cell 0 q w xs p 0 r refl a.distinct_before b.before in
      let apart = last-ne q p xs a.fresh_before.0 a.fresh_before.1 in
      (
        record s {
          list = record s.list { tail = r; len = s.list.len - 1 };
          cell = popped (update s.cell r (some (record m { next = 0 }))) p (n);
        },
        rpop-used r n m b.tail_last (omega (arith, l.counted, length-append xs ((p, v) ∷ []))) small
            a.used b.here refl (last-ne_zero q xs a.distinct_before.0 a.distinct_before.2)
            (λ i. apart (sym i)) there,
        record {
          head_first = b.head_first;
          tail_last = refl;
          counted = omega (arith, l.counted, length-append xs ((p, v) ∷ []));
          linked = Chain-popped _ p n ((q, w) ∷ xs) a.fresh_before linked;
          distinct = a.distinct_before;
        },
        popped_self (update s.cell r (some (record m { next = 0 }))) p (n),
        refl,
        refl,
      )

  pub list_lpop-IsList :
      (xs : Cells) → IsList s ((p, v) ∷ xs) → s.list.len < 2 ^ 32 → Popped list_lpop xs
  list_lpop-IsList [] l small = lpop-single l
  list_lpop-IsList ((q, w) ∷ xs) l small =
      let f = l.distinct.1 in
      let n : ListNode = record { prev = 0; next = q; val = v } in
      let (m, there, starts, linked) =
        Chain-set_prev s.cell p q w xs 0 0 q refl l.distinct.2.1 l.linked.1 in
      (
        record s {
          list = record s.list { head = q; len = s.list.len - 1 };
          cell = popped (update s.cell q (some (record m { prev = 0 }))) p (n);
        },
        lpop-used q n m l.head_first (omega (arith, l.counted)) small l.distinct.0 l.linked.0 refl
            l.distinct.2.0 (λ i. f.0 (sym i)) there,
        record {
          head_first = refl;
          tail_last = l.tail_last;
          counted = omega (arith, l.counted);
          linked = Chain-popped _ p n ((q, w) ∷ xs) f linked;
          distinct = l.distinct.2;
        },
        popped_self (update s.cell q (some (record m { prev = 0 }))) p (n),
        refl,
        refl,
      )
