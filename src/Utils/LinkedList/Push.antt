-- ===== src/Utils/LinkedList/Push.antt =====
-- list_rpush and list_lpush of uiot/utils/utils_list.c, on a list of distinct nodes.
use ucloud_iot_rtthread_pack.Prelude.{
  ℕ, ◌+◌, ◌<◌, ◌^◌, [], ◌∷◌, ◌++◌, Option, some, ◌≡◌, ◌≢◌, refl, sym, ◌∙◌, arith, length,
  length-append, ap,
}
use ucloud_iot_rtthread_pack.Utils.LinkedList.{ListNode, Store, list_rpush, list_lpush, update}
use ucloud_iot_rtthread_pack.Utils.LinkedList.Chain.{
  Cells, Cell, IsList, node, Chain, Fresh, last-ne, Chain-append, Distinct-append, Apart,
  last-append,
}
use ucloud_iot_rtthread_pack.Utils.LinkedList.Change.{
  Chain-update, Chain-set_next, Chain-set_prev, last-ne_zero, update_self, update-ne,
}

-- The node with both its links assigned.
abbrev detached : Cell → ℕ → ListNode → Cell
detached c p n =
    update (update c p (some (record n { next = 0 }))) p
      (some (record { prev = 0; next = 0; val = n.val }))

abbrev placed_last : Cell → ℕ → ℕ → ListNode → Cell
placed_last c tail p n =
    update (update c p (some (record n { prev = tail }))) p
      (some (record { prev = tail; next = 0; val = n.val }))

abbrev placed_first : Cell → ℕ → ℕ → ListNode → Cell
placed_first c head p n =
    update (update c p (some (record n { next = head }))) p
      (some (record { prev = 0; next = head; val = n.val }))

pub Apart-single : (p v : ℕ) (xs : Cells) → Fresh p xs → Apart xs ((p, v) ∷ [])
Apart-single p v [] f = tt
Apart-single p v ((q, w) ∷ xs) f = (((λ i. f.0 (sym i)), tt), Apart-single p v xs f.1)

module _ (s : Store) (p : ℕ) (n : ListNode) (used : p ≢ 0) (there : s.cell p ≡ some n) where
  abbrev Pushed : (ℕ → Store → Option (ℕ × Store)) → Cells → Type 0
  Pushed push ys =
      (t : Store) × (push p s ≡ some (p, t))
      × IsList t ys
      × (t.released ≡ s.released)
      × (t.list.free ≡ s.list.free)

  rpush-empty : IsList s [] → Pushed list_rpush ((p, n.val) ∷ [])
  unfolding list_rpush
  rpush-empty l = (
    record s { list = record s.list { head = p; tail = p; len = 1 }; cell = detached s.cell p n },
    ground arith,
    record {
      head_first = refl;
      tail_last = refl;
      counted = refl;
      linked = (ground arith, tt);
      distinct = (used, tt, tt);
    },
    refl,
    refl,
  )

  rpush-used :
      (t : ListNode)
      → s.list.len ≢ 0
      → s.list.len + 1 < 2 ^ 32
      → s.list.tail ≢ 0
      → p ≢ s.list.tail
      → placed_last s.cell s.list.tail p n s.list.tail ≡ some t
      → list_rpush p s
        ≡ some (
          p,
          record s {
            list = record s.list { tail = p; len = s.list.len + 1 };
            cell =
                update
                  (placed_last s.cell s.list.tail p n)
                  s.list.tail
                  (some (record t { next = p }));
          },
        )
  unfolding list_rpush
  rpush-used t some_len small k d e = ground arith

  pub list_rpush-IsList :
      (xs : Cells)
      → IsList s xs
      → Fresh p xs
      → length xs + 1 < 2 ^ 32
      → Pushed list_rpush (xs ++ (p, n.val) ∷ [])
  list_rpush-IsList [] l f small = rpush-empty l
  list_rpush-IsList ((q, w) ∷ xs) l f small =
      let c = placed_last s.cell s.list.tail p n in
      let chain : Chain c 0 ((q, w) ∷ xs) 0 =
        Chain-update _ p _ 0 ((q, w) ∷ xs) 0 f
          (Chain-update s.cell p _ 0 ((q, w) ∷ xs) 0 f l.linked) in
      let (t, at_last, ends, linked) =
        Chain-set_next c 0 q w xs 0 p s.list.tail l.tail_last l.distinct chain in
      let tail = l.tail_last in
      let apart = last-ne q p xs f.0 f.1 in
      (
        record s {
          list = record s.list { tail = p; len = s.list.len + 1 };
          cell = update c s.list.tail (some (record t { next = p }));
        },
        rpush-used t (rw l.counted (omega arith)) (rw l.counted small)
            (rw tail (last-ne_zero q xs l.distinct.0 l.distinct.2)) (rw tail apart) at_last,
        record {
          head_first = l.head_first;
          tail_last = sym (last-append q xs ((p, n.val) ∷ []));
          counted = omega (arith, length-append xs ((p, n.val) ∷ []), l.counted);
          linked = Chain-append _ 0 ((q, w) ∷ xs) ((p, n.val) ∷ []) 0 linked (
            update-ne c s.list.tail p _ (λ i. apart (sym i ∙ tail))
                ∙ update_self (update s.cell p _) p _
                ∙ ap (λ (b : ℕ). node b 0 n.val) tail,
            tt,
          );
          distinct =
              Distinct-append ((q, w) ∷ xs) ((p, n.val) ∷ []) l.distinct (used, tt, tt)
                (Apart-single p n.val ((q, w) ∷ xs) f);
        },
        refl,
        refl,
      )

  lpush-empty : IsList s [] → Pushed list_lpush ((p, n.val) ∷ [])
  unfolding list_lpush
  lpush-empty l = (
    record s { list = record s.list { head = p; tail = p; len = 1 }; cell = detached s.cell p n },
    ground arith,
    record {
      head_first = refl;
      tail_last = refl;
      counted = refl;
      linked = (ground arith, tt);
      distinct = (used, tt, tt);
    },
    refl,
    refl,
  )

  lpush-used :
      (t : ListNode)
      → s.list.len ≢ 0
      → s.list.len + 1 < 2 ^ 32
      → s.list.head ≢ 0
      → p ≢ s.list.head
      → placed_first s.cell s.list.head p n s.list.head ≡ some t
      → list_lpush p s
        ≡ some (
          p,
          record s {
            list = record s.list { head = p; len = s.list.len + 1 };
            cell =
                update
                  (placed_first s.cell s.list.head p n)
                  s.list.head
                  (some (record t { prev = p }));
          },
        )
  unfolding list_lpush
  lpush-used t some_len small k d e = ground arith

  pub list_lpush-IsList :
      (xs : Cells)
      → IsList s xs
      → Fresh p xs
      → length xs + 1 < 2 ^ 32
      → Pushed list_lpush ((p, n.val) ∷ xs)
  list_lpush-IsList [] l f small = lpush-empty l
  list_lpush-IsList ((q, w) ∷ xs) l f small =
      let c = placed_first s.cell s.list.head p n in
      let chain : Chain c 0 ((q, w) ∷ xs) 0 =
        Chain-update _ p _ 0 ((q, w) ∷ xs) 0 f
          (Chain-update s.cell p _ 0 ((q, w) ∷ xs) 0 f l.linked) in
      let (t, at_first, starts, linked) =
        Chain-set_prev c 0 q w xs 0 p s.list.head l.head_first l.distinct.1 chain in
      let head = l.head_first in
      (
        record s {
          list = record s.list { head = p; len = s.list.len + 1 };
          cell = update c s.list.head (some (record t { prev = p }));
        },
        lpush-used t (rw l.counted (omega arith)) (rw l.counted small) (rw head l.distinct.0)
            (rw head f.0) at_first,
        record {
          head_first = refl;
          tail_last = l.tail_last;
          counted = omega (arith, l.counted);
          linked = (
            (update-ne c s.list.head p _ (λ i. f.0 (sym i ∙ head))
                ∙ update_self (update s.cell p _) p _
                ∙ ap (λ (b : ℕ). node 0 b n.val) head),
            linked,
          );
          distinct = (used, f, l.distinct);
        },
        refl,
        refl,
      )
