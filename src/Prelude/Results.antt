-- ===== src/Prelude/Results.antt =====
-- The outcome of a C function that may fail: a value, a negative return code, or a `fault`, which
-- stands for an access outside a buffer (undefined behaviour in C) or for fuel that ran out.
use mathlib.Core.Path.{◌≡◌, refl}
use mathlib.Core.Bool.{Bool, true, false}
use ucloud_iot_rtthread_pack.Prelude.Int.{ℤ}

pub data Outcome {ℓ} (A : Type ℓ) : Type ℓ where
  ok : A → Outcome A
  err : ℤ → Outcome A
  fault : Outcome A

module _ {ℓ} {B : Type ℓ} where
  infixl 5 ◌>>=◌ ◌>>◌
  abbrev pub ◌>>=◌ {κ} : {A : Type κ} → Outcome A → (A → Outcome B) → Outcome B
  fault >>= next = fault
  err e >>= next = err e
  ok a >>= next = next a

  abbrev pub ◌>>◌ : Outcome (Unit {0}) → Outcome B → Outcome B
  first >> next = first >>= λ _. next

-- `if (bad) return code;`
abbrev pub reject_if : Bool → ℤ → Outcome (Unit {0})
reject_if true e = err e
reject_if false e = ok tt

pub >>=-ok {ℓ} : {A : Type ℓ} (m : Outcome A) → (m >>= ok) ≡ m
>>=-ok (ok a) = refl
>>=-ok (err e) = refl
>>=-ok fault = refl

-- A guard, and then the rest.
pub reject_if-then {ℓ} :
    {A : Type ℓ} (b : Bool) (e : ℤ) (m n : Outcome A)
    → m ≡ n
    → (reject_if b e >> m) ≡ elim b [ true ↦ err e | false ↦ n ]
reject_if-then true e m n h = refl
reject_if-then false e m n h = h
