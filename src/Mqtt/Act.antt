-- ===== src/Mqtt/Act.antt =====
-- Actions on the client and its surroundings. The platform layer (uiot/sdk-impl/uiot_import.h) is a
-- parameter: sockets, the tick counter and the allocator. Its state is `World`.
use ucloud_iot_rtthread_pack.Prelude.{
  List, [], ◌∷◌, ℕ, ◌+◌, ◌-◌, ◌*◌, ◌^◌, List, Bool, true, false, ℤ, pos, negsuc, Outcome, ok, err,
  fault, ltb, eq_ℤ, ◌≡◌, refl, if◌then◌else◌, u32,
}
use ucloud_iot_rtthread_pack.Codes.{success_ret}
use ucloud_iot_rtthread_pack.Mqtt.State.{Client}

-- `read n t` is network_stack.read into a buffer of n bytes with timeout t: the result and the bytes
-- that it stored. `write` is given the bytes that the pointer and the length select.
pub record Hal : Type 1 where
  pub World : Type 0
  pub read : ℕ → ℤ → World → ℤ × List ℕ × World
  pub write : List ℕ → ℤ → World → ℤ × World
  pub connect : World → ℤ × World
  pub disconnect : World → World
  pub tick : World → ℕ × World
  pub malloc : ℕ → World → Bool × World
  pub ticks_of_ms : ℕ → ℕ

pub record St (W : Type 0) : Type 0 where
  pub client : Client
  pub world : W

abbrev pub Act : Type 0 → Type 0 → Type 0
Act W A = St W → Outcome A × St W

module _ {W A B : Type 0} where
  abbrev pub continue : Outcome A → (A → Act W B) → Act W B
  continue (ok a) f s = f a s
  continue (err e) f s = (err e, s)
  continue fault f s = (fault, s)

  infixl 5 ◌>>=◌ ◌>>◌
  abbrev pub ◌>>=◌ : Act W A → (A → Act W B) → Act W B
  ◌>>=◌ m f s = continue (m s).0 f (m s).1

  abbrev pub ◌>>◌ : Act W A → Act W B → Act W B
  m >> k = m >>= λ _. k

module _ {W A : Type 0} where
  abbrev pub pure : A → Act W A
  pure a s = (ok a, s)

  -- `return code;` out of the middle of a function
  abbrev pub fail : ℤ → Act W A
  fail e s = (err e, s)

  abbrev pub lift : Outcome A → Act W A
  lift r s = (r, s)

  abbrev pub gets : (Client → A) → Act W A
  gets f s = (ok (f s.client), s)

  -- An access outside a buffer.
  abbrev pub crash : Act W A
  crash s = (fault, s)

  abbrev pub outside : (W → A × W) → Act W A
  outside f s = let (a, w) = f s.world in (ok a, record s { world = w })

abbrev pub modify : {W : Type 0} → (Client → Client) → Act W (Unit {0})
modify f s = (ok tt, record s { client = f s.client })

-- `if (bad) return code;`
abbrev pub fail_if : {W : Type 0} → Bool → ℤ → Act W (Unit {0})
fail_if true e = fail e
fail_if false e = pure tt

-- The return code of a call, as a value: `ret = f(...)`.
abbrev pub code_of : Outcome (Unit {0}) → Outcome ℤ
code_of (ok _) = ok success_ret
code_of (err e) = ok e
code_of fault = fault

abbrev pub code : {W : Type 0} → Act W (Unit {0}) → Act W ℤ
code m s = (code_of (m s).0, (m s).1)

-- `if (ret != SUCCESS_RET) h; `: the code of a failure is never SUCCESS_RET.
abbrev pub caught : {W : Type 0} → Outcome (Unit {0}) → (ℤ → Act W (Unit {0})) → Act W (Unit {0})
caught (ok a) h t = (ok a, t)
caught (err e) h t = h e t
caught fault h t = (fault, t)

abbrev pub on_error : {W : Type 0} → Act W (Unit {0}) → (ℤ → Act W (Unit {0})) → Act W (Unit {0})
on_error m h s = caught (m s).0 h (m s).1

-- `return ret;`
abbrev pub return_code : {W : Type 0} → ℤ → Act W (Unit {0})
return_code ret = if eq_ℤ ret success_ret then pure tt else fail ret

-- An action that succeeds ran its first part to a value, and then the rest from where that left off.
module _ {W A B : Type 0} where
  continue-ok :
      (r : Outcome A) (f : A → Act W B) (t : St W) {b : B}
      → (continue r f t).0 ≡ ok b
      → (a : A) × (continue r f t ≡ f a t)
  continue-ok (ok a) f t h = (a, refl)
  continue-ok (err e) f t h = cc
  continue-ok fault f t h = cc

  pub >>=-ok :
      (m : Act W A) (f : A → Act W B) (s : St W) {b : B}
      → ((m >>= f) s).0 ≡ ok b
      → (a : A) × ((m >>= f) s ≡ f a (m s).1)
  >>=-ok m f s h = continue-ok (m s).0 f (m s).1 h

-- A `Timer` is its end_time, in ticks.
abbrev pub signed32 : ℕ → ℤ
signed32 w = if ltb w (2 ^ 31) then pos w else negsuc (2 ^ 32 - w - 1)

module _ (hal : Hal) where
  -- list_iterator_new in front of a walk over a waiting list: `false` where there is no memory. An
  -- empty list is not walked and needs none.
  abbrev pub list_iterator : {A : Type 0} → List A → hal.World → Bool × hal.World
  list_iterator [] w = (true, w)
  list_iterator (x ∷ xs) w = hal.malloc 0 w

  -- has_expired, HAL_Timer_Expired
  unfoldable pub has_expired : ℕ → Act hal.World Bool
  has_expired timer = do now ← outside hal.tick; pure (ltb timer now)

  -- countdown_ms, HAL_Timer_Countdown_ms
  unfoldable pub countdown_ms : ℕ → Act hal.World ℕ
  countdown_ms timeout_ms = do now ← outside hal.tick; pure (u32 (now + hal.ticks_of_ms timeout_ms))

  -- countdown, HAL_Timer_Countdown
  unfoldable pub countdown : ℕ → Act hal.World ℕ
  countdown timeout = do
    now ← outside hal.tick
    pure (u32 (now + hal.ticks_of_ms (u32 (timeout * 1000))))

  -- left_ms, HAL_Timer_Remain_ms: the difference of two 32-bit numbers, as an int
  unfoldable pub left_ms : ℕ → Act hal.World ℤ
  left_ms timer = do now ← outside hal.tick; pure (signed32 (u32 (timer + 2 ^ 32 - now)))
