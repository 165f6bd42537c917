-- ===== src/Utils/LinkedList/Change.antt =====
-- What one assignment to a node does to a chain of nodes (uiot/utils/utils_list.c).
use ucloud_iot_rtthread_pack.Prelude.{ℕ, [], ◌∷◌, Option, some, ◌≡◌, ◌≢◌, refl, sym, ap, ◌∙◌, arith}
use ucloud_iot_rtthread_pack.Utils.LinkedList.{ListNode, update, live}
use ucloud_iot_rtthread_pack.Utils.LinkedList.Chain.{
  Cells, Cell, first, last, Chain, Fresh, Distinct, last-ne,
}

pub update_self : (c : Cell) (p : ℕ) (n : Option ListNode) → update c p n p ≡ n
update_self c p n = ground arith

pub update-ne : (c : Cell) (p q : ℕ) (n : Option ListNode) → p ≢ q → update c p n q ≡ c q
update-ne c p q n h = ground arith

pub live-cell : (c : Cell) (p : ℕ) → p ≢ 0 → live c p ≡ c p
live-cell c p h = ground arith

-- A write to a node apart from the chain leaves the chain.
pub Chain-update :
    (c : Cell) (p : ℕ) (n : Option ListNode) (b : ℕ) (xs : Cells) (e : ℕ)
    → Fresh p xs
    → Chain c b xs e
    → Chain (update c p n) b xs e
Chain-update c p n b [] e f h = tt
Chain-update c p n b ((q, v) ∷ xs) e f h =
    (update-ne c p q n f.0 ∙ h.0, Chain-update c p n q xs e f.1 h.1)

-- The last node of a chain can be given another successor, and the chain then ends there.
pub Chain-set_next :
    (c : Cell) (b p v : ℕ) (xs : Cells) (e e' t : ℕ)
    → t ≡ last p xs
    → Distinct ((p, v) ∷ xs)
    → Chain c b ((p, v) ∷ xs) e
    → (n : ListNode) × (c t ≡ some n)
      × (n.next ≡ e)
      × Chain (update c t (some (record n { next = e' }))) b ((p, v) ∷ xs) e'
Chain-set_next c b p v [] e e' t at d h = (
  record { prev = b; next = e; val = v },
  ap c at ∙ h.0,
  refl,
  (ap (update c t _) (sym at) ∙ update_self c t _, tt),
)
Chain-set_next c b p v ((q, w) ∷ xs) e e' t at d h =
    let (n, there, ends, rest) = Chain-set_next c p q w xs e e' t at d.2 h.1 in
    let apart = last-ne q p xs d.1.0 d.1.1 in
    (n, there, ends, (update-ne c t p _ (λ i. apart (sym i ∙ at)) ∙ h.0, rest))

-- The first node of a chain can be given another predecessor.
pub Chain-set_prev :
    (c : Cell) (b p v : ℕ) (xs : Cells) (e b' h : ℕ)
    → h ≡ p
    → Fresh p xs
    → Chain c b ((p, v) ∷ xs) e
    → (n : ListNode) × (c h ≡ some n)
      × (n.prev ≡ b)
      × Chain (update c h (some (record n { prev = b' }))) b' ((p, v) ∷ xs) e
Chain-set_prev c b p v xs e b' h at f k = (
  record { prev = b; next = first xs e; val = v },
  ap c at ∙ k.0,
  refl,
  (ap (update c h _) (sym at) ∙ update_self c h _, Chain-update c h _ p xs e (rw at f) k.1),
)

pub last-ne_zero : (b : ℕ) (xs : Cells) → b ≢ 0 → Distinct xs → last b xs ≢ 0
last-ne_zero b [] h d = h
last-ne_zero b ((p, v) ∷ xs) h d = last-ne_zero p xs d.0 d.2
