-- ===== src/Utils/LinkedList/Remove.antt =====
-- list_remove of uiot/utils/utils_list.c, at any place of a list of distinct nodes.
use ucloud_iot_rtthread_pack.Prelude.{
  ℕ, ◌+◌, ◌-◌, ◌<◌, ◌^◌, [], ◌∷◌, ◌++◌, some, none, ◌≡◌, ◌≢◌, refl, sym, ◌∙◌, arith, if◌then◌else◌,
  length, length-append,
}
use ucloud_iot_rtthread_pack.Utils.LinkedList.{
  ListNode, Store, list_remove, update, relink_prev, relink_next,
}
use ucloud_iot_rtthread_pack.Utils.LinkedList.Chain.{
  Cells, IsList, node, first, last, Chain, Fresh, Distinct, last-ne, Chain-append, Chain-split,
  Distinct-append, Distinct-split, Apart, last-append, first-append,
}
use ucloud_iot_rtthread_pack.Utils.LinkedList.Change.{
  Chain-update, Chain-set_next, Chain-set_prev, last-ne_zero, update_self, update-ne,
}

-- The node p between xs and ys: `e` is the successor of xs, `b` the predecessor of ys.
pub record Between (s : Store) (xs : Cells) (e p v b : ℕ) (ys : Cells) : Type 0 where
  pub head_first : s.list.head ≡ first xs e
  pub tail_last : s.list.tail ≡ last b ys
  pub before : Chain s.cell 0 xs e
  pub here : s.cell p ≡ node (last 0 xs) (first ys 0) v
  pub after : Chain s.cell b ys 0

pub record AreApart (xs : Cells) (p : ℕ) (ys : Cells) : Type 0 where
  pub used : p ≢ 0
  pub distinct_before : Distinct xs
  pub distinct_after : Distinct ys
  pub fresh_before : Fresh p xs
  pub fresh_after : Fresh p ys
  pub apart : Apart xs ys

Apart-Fresh : (xs ys : Cells) (p v : ℕ) → Apart xs ((p, v) ∷ ys) → Fresh p xs × Apart xs ys
Apart-Fresh [] ys p v a = (tt, tt)
Apart-Fresh ((q, w) ∷ xs) ys p v a =
    let (f, r) = Apart-Fresh xs ys p v a.1 in (((λ i. a.0.0 (sym i)), f), (a.0.1, r))

Apart-last : (q w : ℕ) (xs ys : Cells) → Apart ((q, w) ∷ xs) ys → Fresh (last q xs) ys
Apart-last q w [] ys a = a.0
Apart-last q w ((r, u) ∷ xs) ys a = Apart-last r u xs ys a.1

pub AreApart-split :
    (xs : Cells) (p v : ℕ) (ys : Cells) → Distinct (xs ++ (p, v) ∷ ys) → AreApart xs p ys
AreApart-split xs p v ys d =
    let (dx, dy, a) = Distinct-split xs ((p, v) ∷ ys) d in
    let (f, r) = Apart-Fresh xs ys p v a in
    record {
      used = dy.0;
      distinct_before = dx;
      distinct_after = dy.2;
      fresh_before = f;
      fresh_after = dy.1;
      apart = r;
    }

pub IsList-Between :
    {s : Store} (xs : Cells) (p v : ℕ) (ys : Cells)
    → IsList s (xs ++ (p, v) ∷ ys)
    → Between s xs p p v p ys
IsList-Between {s} xs p v ys l =
    let (h, k) = Chain-split s.cell 0 xs ((p, v) ∷ ys) 0 l.linked in
    record {
      head_first = l.head_first ∙ first-append xs ((p, v) ∷ ys) 0;
      tail_last = l.tail_last ∙ last-append 0 xs ((p, v) ∷ ys);
      before = h;
      here = k.0;
      after = k.1;
    }

-- What relinking leaves alone.
abbrev pub Keeps : Store → Store → Type 0
Keeps s t = (t.list.len ≡ s.list.len) × (t.list.free ≡ s.list.free) × (t.released ≡ s.released)

module _ (p v : ℕ) where
  relink_prev-Between :
      (s : Store) (xs ys : Cells)
      → AreApart xs p ys
      → Between s xs p p v p ys
      → (t : Store) × (relink_prev p s ≡ some (tt, t))
        × Between t xs (first ys 0) p v p ys
        × Keeps s t
  unfolding relink_prev
  relink_prev-Between s [] ys a b = (
    record s { list = record s.list { head = first ys 0 } },
    ground arith,
    record {
      head_first = refl;
      tail_last = b.tail_last;
      before = tt;
      here = b.here;
      after = b.after;
    },
    (refl, refl, refl),
  )
  relink_prev-Between s ((q, w) ∷ xs) ys a b =
      let l = last q xs in
      let (n, there, ends, linked) =
        Chain-set_next s.cell 0 q w xs p (first ys 0) l refl a.distinct_before b.before in
      let used = last-ne_zero q xs a.distinct_before.0 a.distinct_before.2 in
      (
        record s { cell = update s.cell l (some (record n { next = first ys 0 })) },
        ground arith,
        record {
          head_first = b.head_first;
          tail_last = b.tail_last;
          before = linked;
          here =
              update-ne s.cell l p _ (λ i. last-ne q p xs a.fresh_before.0 a.fresh_before.1 (sym i))
              ∙ b.here;
          after = Chain-update s.cell l _ p ys 0 (Apart-last q w xs ys a.apart) b.after;
        },
        (refl, refl, refl),
      )

  relink_next-Between :
      (s : Store) (xs ys : Cells)
      → AreApart xs p ys
      → Between s xs (first ys 0) p v p ys
      → (t : Store) × (relink_next p s ≡ some (tt, t))
        × Between t xs (first ys 0) p v (last 0 xs) ys
        × Keeps s t
  unfolding relink_next
  relink_next-Between s xs [] a b = (
    record s { list = record s.list { tail = last 0 xs } },
    ground arith,
    record {
      head_first = b.head_first;
      tail_last = refl;
      before = b.before;
      here = b.here;
      after = tt;
    },
    (refl, refl, refl),
  )
  relink_next-Between s xs ((r, u) ∷ ys) a b =
      let (n, there, starts, linked) =
        Chain-set_prev s.cell p r u ys 0 (last 0 xs) r refl a.distinct_after.1 b.after in
      let used = a.distinct_after.0 in
      (
        record s { cell = update s.cell r (some (record n { prev = last 0 xs })) },
        ground arith,
        record {
          head_first = b.head_first;
          tail_last = b.tail_last;
          before = Chain-update s.cell r _ 0 xs r (Apart-Fresh xs ys r u a.apart).0 b.before;
          here = update-ne s.cell r p _ (λ i. a.fresh_after.0 (sym i)) ∙ b.here;
          after = linked;
        },
        (refl, refl, refl),
      )

  remove_from :
      (s t u : Store) (n : ListNode)
      → relink_prev p s ≡ some (tt, t)
      → relink_next p t ≡ some (tt, u)
      → u.cell p ≡ some n
      → p ≢ 0
      → u.list.len ≢ 0
      → u.list.len < 2 ^ 32
      → list_remove p s
        ≡ some (
          tt,
          record {
            list = record u.list { len = u.list.len - 1 };
            cell = update u.cell p none;
            released = if u.list.free then u.released ++ n.val ∷ [] else u.released;
          },
        )
  unfolding list_remove
  remove_from s t u n e f at used k small = rw e (rw f (ground arith))

  -- list_remove takes the node out, releases its value and frees it.
  pub list_remove-IsList :
      (s : Store) (xs ys : Cells)
      → IsList s (xs ++ (p, v) ∷ ys)
      → s.list.len < 2 ^ 32
      → (t : Store) × (list_remove p s ≡ some (tt, t))
        × IsList t (xs ++ ys)
        × (t.cell p ≡ none)
        × (t.list.free ≡ s.list.free)
        × (t.released ≡ (if s.list.free then s.released ++ v ∷ [] else s.released))
  list_remove-IsList s xs ys l small =
      let a = AreApart-split xs p v ys l.distinct in
      let (t, run_prev, bt, kt) = relink_prev-Between s xs ys a (IsList-Between xs p v ys l) in
      let (u, run_next, bu, ku) = relink_next-Between t xs ys a bt in
      let len : u.list.len ≡ length (xs ++ ys) + 1 =
        omega (arith, kt, ku, l.counted, length-append xs ((p, v) ∷ ys), length-append xs ys) in
      (
        record {
          list = record u.list { len = u.list.len - 1 };
          cell = update u.cell p none;
          released = if u.list.free then u.released ++ v ∷ [] else u.released;
        },
        remove_from s t u _ run_prev run_next bu.here a.used (omega arith) (omega arith),
        record {
          head_first = bu.head_first ∙ sym (first-append xs ys 0);
          tail_last = bu.tail_last ∙ sym (last-append 0 xs ys);
          counted = omega arith;
          linked =
              Chain-append _ 0 xs ys 0 (Chain-update u.cell p none 0 xs _ a.fresh_before bu.before)
                (Chain-update u.cell p none _ ys 0 a.fresh_after bu.after);
          distinct = Distinct-append xs ys a.distinct_before a.distinct_after a.apart;
        },
        update_self u.cell p none,
        ku.1 ∙ kt.1,
        rw (ku.1, kt.1, ku.2, kt.2),
      )
