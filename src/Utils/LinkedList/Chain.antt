-- ===== src/Utils/LinkedList/Chain.antt =====
-- What a list on the heap stands for: the addresses and values of its nodes, in order, linked both
-- ways (uiot/utils/utils_list.c).
use ucloud_iot_rtthread_pack.Prelude.{ℕ, List, [], ◌∷◌, ◌++◌, Option, some, ◌≡◌, ◌≢◌, refl, length}
use ucloud_iot_rtthread_pack.Utils.LinkedList.{ListNode, Store}

abbrev pub Cells : Type 0
Cells = List (ℕ × ℕ)

abbrev pub Cell : Type 0
Cell = ℕ → Option ListNode

abbrev pub node : ℕ → ℕ → ℕ → Option ListNode
node b e v = some (record { prev = b; next = e; val = v })

-- The first address, or `e` where there is none; the last, or `b`.
abbrev pub first : Cells → ℕ → ℕ
first [] e = e
first ((p, v) ∷ xs) e = p

abbrev pub last : ℕ → Cells → ℕ
last b [] = b
last b ((p, v) ∷ xs) = last p xs

-- The nodes xs, linked both ways, with `b` before them and `e` after them.
abbrev pub Chain : Cell → ℕ → Cells → ℕ → Type 0
Chain cell b [] e = Unit
Chain cell b ((p, v) ∷ xs) e = (cell p ≡ node b (first xs e) v) × Chain cell p xs e

abbrev pub Fresh : ℕ → Cells → Type 0
Fresh p [] = Unit
Fresh p ((q, v) ∷ xs) = (p ≢ q) × Fresh p xs

abbrev pub Distinct : Cells → Type 0
Distinct [] = Unit
Distinct ((p, v) ∷ xs) = (p ≢ 0) × Fresh p xs × Distinct xs

abbrev pub Apart : Cells → Cells → Type 0
Apart [] ys = Unit
Apart ((p, v) ∷ xs) ys = Fresh p ys × Apart xs ys

-- The store holds a list of exactly these nodes.
pub record IsList (s : Store) (xs : Cells) : Type 0 where
  pub head_first : s.list.head ≡ first xs 0
  pub tail_last : s.list.tail ≡ last 0 xs
  pub counted : s.list.len ≡ length xs
  pub linked : Chain s.cell 0 xs 0
  pub distinct : Distinct xs

module _ (cell : Cell) where
  pub Chain-append :
      (b : ℕ) (xs ys : Cells) (e : ℕ)
      → Chain cell b xs (first ys e)
      → Chain cell (last b xs) ys e
      → Chain cell b (xs ++ ys) e
  Chain-append b [] ys e h k = k
  Chain-append b ((p, v) ∷ []) ys e h k = (h.0, k)
  Chain-append b ((p, v) ∷ x ∷ xs) ys e h k = (h.0, Chain-append p (x ∷ xs) ys e h.1 k)

  pub Chain-split :
      (b : ℕ) (xs ys : Cells) (e : ℕ)
      → Chain cell b (xs ++ ys) e
      → Chain cell b xs (first ys e) × Chain cell (last b xs) ys e
  Chain-split b [] ys e h = (tt, h)
  Chain-split b ((p, v) ∷ []) ys e h = ((h.0, tt), h.1)
  Chain-split b ((p, v) ∷ x ∷ xs) ys e h =
      let (l, r) = Chain-split p (x ∷ xs) ys e h.1 in ((h.0, l), r)

pub Fresh-split : (p : ℕ) (xs ys : Cells) → Fresh p (xs ++ ys) → Fresh p xs × Fresh p ys
Fresh-split p [] ys h = (tt, h)
Fresh-split p (x ∷ xs) ys h = let (l, r) = Fresh-split p xs ys h.1 in ((h.0, l), r)

pub Fresh-append : (p : ℕ) (xs ys : Cells) → Fresh p xs → Fresh p ys → Fresh p (xs ++ ys)
Fresh-append p [] ys h k = k
Fresh-append p (x ∷ xs) ys h k = (h.0, Fresh-append p xs ys h.1 k)

pub Distinct-split : (xs ys : Cells) → Distinct (xs ++ ys) → Distinct xs × Distinct ys × Apart xs ys
Distinct-split [] ys h = (tt, h, tt)
Distinct-split ((p, v) ∷ xs) ys h =
    let (l, r) = Fresh-split p xs ys h.1 in
    let (dl, dr, a) = Distinct-split xs ys h.2 in ((h.0, l, dl), dr, (r, a))

pub Distinct-append :
    (xs ys : Cells) → Distinct xs → Distinct ys → Apart xs ys → Distinct (xs ++ ys)
Distinct-append [] ys h k a = k
Distinct-append ((p, v) ∷ xs) ys h k a =
    (h.0, Fresh-append p xs ys h.1 a.0, Distinct-append xs ys h.2 k a.1)

-- The last address of a non-empty list of nodes is not that of a node apart from them.
pub last-ne : (b p : ℕ) (xs : Cells) → p ≢ b → Fresh p xs → p ≢ last b xs
last-ne b p [] h f = h
last-ne b p ((q, v) ∷ xs) h f = last-ne q p xs f.0 f.1

pub last-append : (b : ℕ) (xs ys : Cells) → last b (xs ++ ys) ≡ last (last b xs) ys
last-append b [] ys = refl
last-append b ((p, v) ∷ xs) ys = last-append p xs ys

pub first-append : (xs ys : Cells) (e : ℕ) → first (xs ++ ys) e ≡ first xs (first ys e)
first-append [] ys e = refl
first-append (x ∷ xs) ys e = refl
