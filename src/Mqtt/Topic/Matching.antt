-- ===== src/Mqtt/Topic/Matching.antt =====
-- uiot/mqtt/src/mqtt_client_common.c: _is_topic_matched beside the filters of MQTT 3.1.1 (section
-- 4.7), stated as a relation.
use mathlib.Core.Bool.{false≢true}
use ucloud_iot_rtthread_pack.Prelude.{
  ℕ, ◌≡◌, ◌≢◌, refl, Bool, true, false, Option, none, some, List, [], ◌∷◌, ◌++◌, arith, ◌==◌, All,
  ◌⊎◌, inl, inr, ap, ◌↔◌, ==_iff, ◌∙◌,
}
use ucloud_iot_rtthread_pack.Mqtt.Topic.{str_equal, skip_level, matched, is_topic_matched}

abbrev pub IsPlain : ℕ → Type 0
IsPlain c = (c ≢ b'+') × (c ≢ b'#')

-- The bytes of one level.
abbrev pub InLevel : ℕ → Type 0
InLevel c = c ≢ b'/'

-- The name is at the end of a level.
abbrev pub AtLevelEnd : List ℕ → Type 0
AtLevelEnd [] = Unit
AtLevelEnd (c ∷ _) = c ≡ b'/'

-- `+` stands for one whole level, empty ones included, and a trailing `#` for all that remains; a
-- trailing "/#" matches its parent level too. The flag says that a level starts here, where alone a
-- wildcard may stand.
pub data Matches : Bool → List ℕ → List ℕ → Type 0 where
  end : {start : Bool} → Matches start [] []
  plain :
      {start : Bool} {f n : ℕ} {fs ns : List ℕ}
      → IsPlain f
      → n ≡ f
      → Matches (f == b'/') fs ns
      → Matches start (f ∷ fs) (n ∷ ns)
  plus :
      {start : Bool} {f : ℕ} {fs name : List ℕ} (level rest : List ℕ)
      → start ≡ true
      → f ≡ b'+'
      → All InLevel level
      → AtLevelEnd rest
      → name ≡ level ++ rest
      → Matches false fs rest
      → Matches start (f ∷ fs) name
  hash :
      {start : Bool} {f : ℕ} {fs name : List ℕ}
      → start ≡ true
      → f ≡ b'#'
      → fs ≡ []
      → Matches start (f ∷ fs) name
  parent :
      {start : Bool} {f : ℕ} {fs name : List ℕ}
      → f ≡ b'/'
      → fs ≡ b'#' ∷ []
      → name ≡ []
      → Matches start (f ∷ fs) name

-- A plain filter matches itself only.
matched-plain :
    (filter : List ℕ) (prev : Option ℕ) (name : List ℕ)
    → All IsPlain filter
    → matched filter prev name ≡ some (str_equal filter name)
unfolding matched str_equal
matched-plain [] prev [] h = refl
matched-plain [] prev (n ∷ ns) h = refl
matched-plain (f ∷ []) prev [] h = ground arith
matched-plain (f ∷ g ∷ fs) prev [] h = ground arith
matched-plain (f ∷ []) prev (n ∷ ns) h = ground (arith, matched-plain [] (some n) ns)
matched-plain (f ∷ g ∷ fs) prev (n ∷ ns) h = ground (arith, matched-plain (g ∷ fs) (some n) ns h.1)

-- One round of the loop for each kind of byte in the filter.
matched_plus_empty :
    (fs rest : List ℕ) (prev : Option ℕ)
    → matched (b'+' ∷ fs) prev (b'/' ∷ rest) ≡ matched fs prev (b'/' ∷ rest)
unfolding matched
matched_plus_empty fs rest prev = ground arith

matched_plus_end :
    (fs : List ℕ) (prev : Option ℕ) → prev ≡ some b'/' → matched (b'+' ∷ fs) prev [] ≡ some true
unfolding matched
matched_plus_end [] prev h = ground arith
matched_plus_end (f ∷ fs) prev h = ground arith

skip_level-append :
    (c : ℕ) (level rest : List ℕ)
    → All InLevel level
    → AtLevelEnd rest
    → (skip_level c (level ++ rest)).1 ≡ rest
unfolding skip_level
skip_level-append c [] [] hl hr = refl
skip_level-append c [] (r ∷ rs) hl hr = ground arith
skip_level-append c (d ∷ level) rest hl hr = ground (arith, skip_level-append d level rest hl.1 hr)

matched_plus_level :
    (fs ns : List ℕ) (c : ℕ) (prev : Option ℕ)
    → c ≢ b'/'
    → matched (b'+' ∷ fs) prev (c ∷ ns) ≡ matched fs (some (skip_level c ns).0) (skip_level c ns).1
unfolding matched
matched_plus_level fs ns c prev h = ground arith

pub matched_same :
    (c : ℕ) (fs ns : List ℕ) (prev : Option ℕ)
    → IsPlain c
    → matched (c ∷ fs) prev (c ∷ ns) ≡ matched fs (some c) ns
unfolding matched
matched_same c fs ns prev h = ground arith

matched_hash : (prev : Option ℕ) (name : List ℕ) → matched (b'#' ∷ []) prev name ≡ some true
unfolding matched
matched_hash prev [] = ground arith
matched_hash prev (n ∷ ns) = ground arith

matched_parent : (prev : Option ℕ) → matched (b'/' ∷ b'#' ∷ []) prev [] ≡ some true
unfolding matched
matched_parent prev = ground arith

-- Where a level starts, the byte before is a separator, or there is a byte to read.
abbrev Before : Bool → Option ℕ → List ℕ → Type 0
Before start prev name = start ≡ true → (prev ≡ some b'/') ⊎ (name ≢ [])

matched_complete :
    {start : Bool} {filter name : List ℕ} (prev : Option ℕ)
    → Before start prev name
    → Matches start filter name
    → matched filter prev name ≡ some true
matched_complete prev h end = unfold matched in refl
matched_complete prev h (plain {f} {n} {fs} {ns} p e m) = rw e (
    matched_same f fs ns prev p
    ∙ matched_complete (some f) (λ s. inl (ap some ((==_iff f b'/').0 s))) m)
matched_complete prev h (plus {f} {fs} [] [] s e l r e' m) =
    rw (e, e') (matched_plus_end fs prev (elim (h s) [ inl p ↦ p | inr ne ↦ absurd (ne e') ]))
matched_complete prev h (plus {f} {fs} [] (d ∷ rest) s e l r e' m) =
    rw (e, e', r)
      (matched_plus_empty fs rest prev
        ∙ (rw r at (matched_complete prev (λ x. absurd (false≢true x)) m)))
matched_complete prev h (plus {f} {fs} (c ∷ level) rest s e l r e' m) =
    rw (e, e')
      (matched_plus_level fs (level ++ rest) c prev l.0
        ∙ rw (skip_level-append c level rest l.1 r)
            (matched_complete _ (λ x. absurd (false≢true x)) m))
matched_complete prev h (hash {name = name} s e e') = rw (e, e') (matched_hash prev name)
matched_complete prev h (parent e e' e'') = rw (e, e', e'') (matched_parent prev)

-- Whenever a filter matches a non-empty topic name by the rules of MQTT, _is_topic_matched says so.
pub is_topic_matched_complete :
    (filter name : List ℕ)
    → name ≢ []
    → Matches true filter name
    → is_topic_matched filter name ≡ some true
unfolding is_topic_matched
is_topic_matched_complete filter name h m = matched_complete none (λ _. inr h) m

pub str_equal_iff : (a b : List ℕ) → (str_equal a b ≡ true) ↔ (a ≡ b)
unfolding str_equal
str_equal_iff (x ∷ a) (y ∷ b) = ground (arith, str_equal_iff a b)
str_equal_iff _ _ = ground arith

-- A filter without wildcards is matched by the topic name that equals it, and by no other.
pub is_topic_matched_plain :
    (filter name : List ℕ)
    → All IsPlain filter
    → (is_topic_matched filter name ≡ some true) ↔ (filter ≡ name)
unfolding is_topic_matched
is_topic_matched_plain filter name h =
    rw (matched-plain filter none name h)
      ((λ e. (str_equal_iff filter name).0 cc), (λ e. ap some ((str_equal_iff filter name).1 e)))
