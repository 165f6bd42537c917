-- ===== src/Ota/Ensures.antt =====
-- Postconditions of the actions of uiot/ota: what holds of the result and the new state, where the
-- action is defined.
use ucloud_iot_rtthread_pack.Prelude.{
  Text, ◌≡◌, refl, Bool, true, false, if◌then◌else◌, Option, none, some,
}
use ucloud_iot_rtthread_pack.Ota.State.{
  text_of, St, Answer, done, fault, spent, Act, ◌>>=◌, continue,
}

-- Where the fuel runs out, S: `⊥` says that it does not.
abbrev pub Ensures : (S : Type 0) {W A : Type 0} → Answer W A → (A → St W → Type 0) → Type 0
Ensures S (done a t) Q = Q a t
Ensures S fault Q = Unit
Ensures S spent Q = S

module _ (S : Type 0) {W A B : Type 0} where
  continue-Ensures :
      (r : Answer W A) (f : A → Act W B) (R : A → St W → Type 0) (Q : B → St W → Type 0)
      → Ensures S r R
      → ((a : A) (t : St W) → R a t → Ensures S (f a t) Q)
      → Ensures S (continue r f) Q
  continue-Ensures (done a t) f R Q h k = k a t h
  continue-Ensures fault f R Q h k = tt
  continue-Ensures spent f R Q h k = h

  pub >>=-Ensures :
      (m : Act W A) (f : A → Act W B) (s : St W) (R : A → St W → Type 0) (Q : B → St W → Type 0)
      → Ensures S (m s) R
      → ((a : A) (t : St W) → R a t → Ensures S (f a t) Q)
      → Ensures S ((m >>= f) s) Q
  >>=-Ensures m f s R Q h k = continue-Ensures (m s) f R Q h k

module _ (S : Type 0) {W A : Type 0} where
  pub Ensures-mono :
      (r : Answer W A) (R Q : A → St W → Type 0)
      → Ensures S r R
      → ((a : A) (t : St W) → R a t → Q a t)
      → Ensures S r Q
  Ensures-mono (done a t) R Q h k = k a t h
  Ensures-mono fault R Q h k = tt
  Ensures-mono spent R Q h k = h

  -- Both branches of a conditional, with the test.
  pub if-Ensures :
      (b : Bool) (x y : Act W A) (s : St W) (Q : A → St W → Type 0)
      → (b ≡ true → Ensures S (x s) Q)
      → (b ≡ false → Ensures S (y s) Q)
      → Ensures S ((if b then x else y) s) Q
  if-Ensures true x y s Q h k = h refl
  if-Ensures false x y s Q h k = k refl

-- A text read through a pointer.
pub text_of-Ensures :
    {W B : Type 0} (o : Option Text) (f : Text → Act W B) (s : St W) (Q : B → St W → Type 0)
    → ((t : Text) → Ensures ⊥ (f t s) Q)
    → Ensures ⊥ ((text_of o >>= f) s) Q
text_of-Ensures none f s Q h = tt
text_of-Ensures (some t) f s Q h = h t
