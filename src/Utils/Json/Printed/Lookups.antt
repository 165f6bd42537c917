-- ===== src/Utils/Json/Printed/Lookups.antt =====
-- json_get_value_by_name and LITE_json_value_of (uiot/utils) on printed objects.
use ucloud_iot_rtthread_pack.Prelude.{
  ℕ, zero, suc, ◌<◌, ◌≡◌, refl, arith, ap, ◌∙◌, [], ◌∷◌, ◌++◌, Bool, true, false, ◌&&◌, ◌==◌,
  Option, none, some, length, Text, if◌then◌else◌, strncmp_eq, ℤ, Outcome, ok, ltb,
}
use ucloud_iot_rtthread_pack.Utils.Json.Scan.{Walk, visit, get_next_object, walk, key_begins}
use ucloud_iot_rtthread_pack.Utils.Json.Lookup.{
  json_result_ok, each, on_entry, NameValue, value_by_name_cb, no_value,
}
use ucloud_iot_rtthread_pack.Utils.Json.Printed.{
  Value, Fields, one, more, print, print_fields, is_plain, every, is_printable, are_printable,
  and-true,
}
use ucloud_iot_rtthread_pack.Utils.Json.Printed.Entries.{
  type_of, content, content_len, entry_of, ends_number, get_next_object-print,
}

-- Does `k` start with `name`?
abbrev pub is_prefix : Text → Text → Bool
is_prefix [] k = true
is_prefix (c ∷ name) [] = false
is_prefix (c ∷ name) (d ∷ k) = d == c && is_prefix name k

-- A field that a lookup takes: neither key nor value is empty, and the key starts with the name.
abbrev pub takes : Text → Text → Value → Bool
takes name k v = (ltb 0 (length k) && ltb 0 (content_len v)) && is_prefix name k

unfoldable pub first_match : Text → Fields → Option Value
first_match name (one k v) = if takes name k v then some v else none
first_match name (more k v fs) =
    let rest = first_match name fs in if takes name k v then some v else rest

strncmp_eq-is_prefix :
    (name k r : Text)
    → every is_plain name ≡ true
    → strncmp_eq (k ++ b'"' ∷ r) name (length name) ≡ is_prefix name k
strncmp_eq-is_prefix [] k r h = refl
strncmp_eq-is_prefix (c ∷ name) [] r h = ground arith
strncmp_eq-is_prefix (c ∷ name) (d ∷ k) r h =
    ap (λ b. d == c && b)
      (strncmp_eq-is_prefix name k r (and-true (is_plain c) (every is_plain name) h).1)

-- What the callback stores for a value with `s` behind it.
abbrev pub hit : Value → Text → NameValue
hit v s = record { value = some (content v s); len = content_len v; type = type_of v }

-- The result so far, behind a field.
abbrev pub ret_behind : Text → Value → ℤ → ℤ
ret_behind k v ret = if ltb 0 (length k) && ltb 0 (content_len v) then json_result_ok else ret

abbrev pub Rest : Type 0
Rest = ℤ → NameValue → Outcome (ℤ × NameValue)

on_entry-if :
    (filled same : Bool) (next : Rest) (new old : NameValue) (ret : ℤ)
    → on_entry filled next (if same then (true, new) else (false, old)) ret old ≡ (
        if filled && same
        then ok (json_result_ok, new)
        else next (if filled then json_result_ok else ret) old)
on_entry-if false same next new old ret = refl
on_entry-if true true next new old ret = refl
on_entry-if true false next new old ret = refl

module _ (name : Text) (is_name : every is_plain name ≡ true) where
  abbrev pub scan : Walk → ℤ → Outcome (ℤ × NameValue)
  scan w ret = each (value_by_name_cb name) w ret no_value

  each-visit :
      (k : Text) (v : Value) (s : Text) (rest : Walk) (ret : ℤ)
      → scan (visit (entry_of k v s) rest) ret
        ≡ (if takes name k v then ok (json_result_ok, hit v s) else scan rest (ret_behind k v ret))
  unfolding each
  each-visit k v s rest ret =
      let filled = ltb 0 (length k) && ltb 0 (content_len v) in
      on_entry-if filled (strncmp_eq (k ++ b'"' ∷ b':' ∷ print v s) name (length name))
        (each (value_by_name_cb name) rest) (hit v s) no_value ret
      ∙ ap
          (λ b.
            if filled && b then ok (json_result_ok, hit v s) else scan rest (ret_behind k v ret))
          (strncmp_eq-is_prefix name k (b':' ∷ print v s) is_name)

  -- One round of the loop at a printed field, which does not stand at the end.
  pub walk-field :
      (fuel c : ℕ) (k : Text) (v : Value) (d : ℕ) (r : Text) (ret : ℤ)
      → (c == b'"') ≡ false
      → every is_plain k ≡ true
      → is_printable v ≡ true
      → ends_number d ≡ true
      → scan (walk (suc fuel) (c ∷ b'"' ∷ (k ++ b'"' ∷ b':' ∷ print v (d ∷ r)))) ret ≡ (
          if takes name k v
          then ok (json_result_ok, hit v (d ∷ r))
          else scan (walk fuel (d ∷ r)) (ret_behind k v ret))
  unfolding walk
  walk-field fuel c k v d r ret h p q e =
      rw (get_next_object-print c k v d r h p q e) (each-visit k v (d ∷ r) (walk fuel (d ∷ r)) ret)

abbrev pub count : Fields → ℕ
count (one k v) = 1
count (more k v fs) = suc (count fs)

-- What the loop gives: the first match with something behind it, or no value at all.
abbrev pub Gives : Text → Option Value → Outcome (ℤ × NameValue) → Type 0
Gives rest none x = rest ≡ [] → (ret : ℤ) × (x ≡ ok (ret, no_value))
Gives rest (some v) x = (s : Text) × (x ≡ ok (json_result_ok, hit v s))

Gives-if :
    (rest : Text) (b : Bool) (v : Value) (s : Text) (o : Option Value)
    (x y : Outcome (ℤ × NameValue))
    → x ≡ (if b then ok (json_result_ok, hit v s) else y)
    → Gives rest o y
    → Gives rest (if b then some v else o) x
Gives-if rest true v s o x y e h = (s, e)
Gives-if rest false v s none x y e h = λ z. let (ret, d) = h z in (ret, e ∙ d)
Gives-if rest false v s (some w) x y e (t, d) = (t, e ∙ d)

module _ (name : Text) (is_name : every is_plain name ≡ true) where
  walk_end :
      (fuel : ℕ) (ret : ℤ) (rest : Text)
      → Gives rest none (scan name is_name (walk (suc fuel) (b'}' ∷ rest)) ret)
  unfolding walk each get_next_object key_begins
  walk_end fuel ret rest z = rw z (ret, refl)

  pub walk-Gives :
      (fs : Fields) (rest : Text) (fuel c : ℕ) (ret : ℤ)
      → (c == b'"') ≡ false
      → are_printable fs ≡ true
      → count fs < fuel
      → Gives rest
          (first_match name fs)
          (scan name is_name (walk fuel (c ∷ print_fields fs rest)) ret)
  unfolding print_fields are_printable first_match
  walk-Gives fs rest zero c ret h p f = absurd (omega arith)
  walk-Gives (one k v) rest (suc zero) c ret h p f = absurd (omega arith)
  walk-Gives (one k v) rest (suc (suc fuel)) c ret h p f =
      let (a, b) = and-true (every is_plain k) (is_printable v) p in
      Gives-if rest (takes name k v) v (b'}' ∷ rest) none _ _
        (walk-field name is_name (suc fuel) c k v b'}' rest ret h a b refl)
        (walk_end fuel (ret_behind k v ret) rest)
  walk-Gives (more k v fs) rest (suc fuel) c ret h p f =
      let (a, b) = and-true (every is_plain k) (is_printable v && are_printable fs) p in
      let (b', d) = and-true (is_printable v) (are_printable fs) b in
      Gives-if rest (takes name k v) v _ (first_match name fs) _ _
        (walk-field name is_name fuel c k v b',' (print_fields fs rest) ret h a b' refl)
        (walk-Gives fs rest fuel b',' (ret_behind k v ret) refl d (omega arith))
