-- ===== src/Utils/LinkedList/Whole.antt =====
-- The pops and list_remove of uiot/utils/utils_list.c, in terms of the whole list.
use ucloud_iot_rtthread_pack.Prelude.{
  ℕ, ◌<◌, ◌≤◌, ◌^◌, [], ◌∷◌, ◌++◌, Option, some, ◌≡◌, refl, arith, ◌==◌, if◌then◌else◌, Bool-cases,
  inl, inr, length, ap, ==_iff,
}
use ucloud_iot_rtthread_pack.Utils.LinkedList.{Store, list_rpop, list_lpop, list_remove}
use ucloud_iot_rtthread_pack.Utils.LinkedList.Chain.{Cells, IsList, first, last}
use ucloud_iot_rtthread_pack.Utils.LinkedList.Pop.{list_rpop-IsList, list_lpop-IsList}
use ucloud_iot_rtthread_pack.Utils.LinkedList.Remove.{list_remove-IsList}
use ucloud_iot_rtthread_pack.Utils.LinkedList.Contents.{init, tail, erase, value_at, Holds}

snoc_view :
    (b : ℕ) (x : ℕ × ℕ) (xs : Cells)
    → (v : ℕ) × (x ∷ xs ≡ init (x ∷ xs) ++ (last b (x ∷ xs), v) ∷ [])
snoc_view b (p, v) [] = (v, refl)
snoc_view b (p, v) (y ∷ xs) = let (w, e) = snoc_view p y xs in (w, ap (◌∷◌ (p, v)) e)

-- Where a node stands in the list.
record Place (p : ℕ) (xs : Cells) : Type 0 where
  before : Cells
  val : ℕ
  after : Cells
  whole : xs ≡ before ++ (p, val) ∷ after
  erased : erase p xs ≡ before ++ after
  valued : value_at p xs ≡ val

place : (p : ℕ) (xs : Cells) → Holds p xs → Place p xs
place p [] h = elim h [ ]
place p ((q, v) ∷ xs) h = elim (Bool-cases (p == q)) [
  | inl e ↦ record {
    before = [];
    val = v;
    after = xs;
    whole = rw ((==_iff p q).0 e);
    erased = rw e;
    valued = rw e;
  }
  | inr e ↦
      let rest : Holds p xs = ground arith in
      let w = place p xs rest in
      record {
        before = (q, v) ∷ w.before;
        val = w.val;
        after = w.after;
        whole = ap (◌∷◌ (q, v)) w.whole;
        erased = rw e (ap (◌∷◌ (q, v)) w.erased);
        valued = rw e w.valued;
      }
]

-- A pop or a removal in terms of the whole list.
module _ (s : Store) where
  abbrev pub Shrinks : (Store → Option (ℕ × Store)) → ℕ → Cells → Type 0
  Shrinks pop p ys =
      (t : Store) × (pop s ≡ some (p, t))
      × IsList t ys
      × (t.released ≡ s.released)
      × (t.list.free ≡ s.list.free)

  pub rpop-init :
      (xs : Cells) → IsList s xs → length xs < 2 ^ 32 → Shrinks list_rpop (last 0 xs) (init xs)
  unfolding list_rpop
  rpop-init [] l small = (s, rw l.counted, l, refl, refl)
  rpop-init (x ∷ xs) l small =
      let (v, w) = snoc_view 0 x xs in
      let l' : IsList s (init (x ∷ xs) ++ (last 0 (x ∷ xs), v) ∷ []) = rw (← w) l in
      let (t, e, i, _, same, frees) =
        list_rpop-IsList s (last 0 (x ∷ xs)) v (init (x ∷ xs)) l' (omega (arith, l.counted)) in
      (t, e, i, same, frees)

  pub lpop-tail :
      (xs : Cells) → IsList s xs → length xs < 2 ^ 32 → Shrinks list_lpop (first xs 0) (tail xs)
  unfolding list_lpop
  lpop-tail [] l small = (s, rw l.counted, l, refl, refl)
  lpop-tail ((p, v) ∷ xs) l small =
      let (t, e, i, _, same, frees) = list_lpop-IsList s p v xs l (omega (arith, l.counted)) in
      (t, e, i, same, frees)

  pub remove-erase :
      (p : ℕ) (xs : Cells)
      → IsList s xs
      → length xs < 2 ^ 32
      → Holds p xs
      → (t : Store) × (list_remove p s ≡ some (tt, t))
        × IsList t (erase p xs)
        × (t.released ≡ (if s.list.free then s.released ++ value_at p xs ∷ [] else s.released))
        × (t.list.free ≡ s.list.free)
  remove-erase p xs l small h =
      let w = place p xs h in
      let l' : IsList s (w.before ++ (p, w.val) ∷ w.after) = rw (← w.whole) l in
      let (t, e, i, _, frees, same) =
        list_remove-IsList p w.val s w.before w.after l' (omega (arith, l.counted)) in
      (t, e, (rw w.erased i), (rw w.valued same), frees)

pub length-init : (xs : Cells) → length (init xs) ≤ length xs
length-init [] = omega arith
length-init (x ∷ []) = omega arith
length-init (x ∷ y ∷ xs) = omega (arith, length-init (y ∷ xs))

pub length-erase : (p : ℕ) (xs : Cells) → length (erase p xs) ≤ length xs
length-erase p [] = omega arith
length-erase p (x ∷ xs) = ground (arith, length-erase p xs)

pub length-tail : (xs : Cells) → length (tail xs) ≤ length xs
length-tail [] = omega arith
length-tail (x ∷ xs) = omega arith
