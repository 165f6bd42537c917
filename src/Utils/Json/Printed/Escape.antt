-- ===== src/Utils/Json/Printed/Escape.antt =====
-- LITE_json_value_of (uiot/utils/json_token.c) leaves an object that does not have the key.
use ucloud_iot_rtthread_pack.Prelude.{
  ℕ, suc, ◌+◌, ◌-◌, ◌<◌, All, ◌≡◌, refl, subst, arith, ap, ◌∙◌, [], ◌∷◌, ◌++◌, Bool, true, false,
  ◌&&◌, ◌==◌, Option, none, some, length, Text, if◌then◌else◌, ℤ, ok, ◌>>=◌,
}
use ucloud_iot_rtthread_pack.Utils.Json.Scan.{get_object, walk, get_next_object, for_each_kv}
use ucloud_iot_rtthread_pack.Utils.Json.Lookup.{
  json_result_err, json_result_ok, copied, value_along, json_value_of, descend,
}
use ucloud_iot_rtthread_pack.Utils.Json.Printed.{
  Value, obj, Fields, one, more, print, print_fields, is_plain, every, is_printable, are_printable,
  and-true,
}
use ucloud_iot_rtthread_pack.Utils.Json.Printed.Entries.{content, content_len, ends_number}
use ucloud_iot_rtthread_pack.Utils.Json.Printed.Lookups.{
  is_prefix, first_match, takes, hit, Gives, walk-Gives, walk-field, scan, count, ret_behind,
}
use ucloud_iot_rtthread_pack.Utils.Json.Printed.Paths.{
  value_text, copied-content, by_name_lem, answered, count-le, length-print_fields,
}
use ucloud_iot_rtthread_pack.Utils.Json.Printed.Nested.{
  IsName, at_path, inside, plain-name, along-dot, along_end, asked,
}

-- json_get_next_object passes over what stands in front of the next quote.
walk_skip :
    (fuel c : ℕ) (s : Text) → (c == b'"') ≡ false → walk (suc fuel) (c ∷ s) ≡ walk (suc fuel) s
unfolding walk get_next_object
walk_skip fuel c s h = rw h

-- The rounds of a loop over both objects.
abbrev rounds_of : Fields → Fields → Text → ℕ
rounds_of gs fs rest = suc (length (print_fields gs (b',' ∷ print_fields fs rest)))

rounds-eq :
    (gs fs : Fields) (rest : Text)
    → rounds_of gs fs rest ≡ count gs + suc (rounds_of gs fs rest - count gs - 1)
rounds-eq gs fs rest =
    omega (arith, length-print_fields gs (b',' ∷ print_fields fs rest), count-le gs)

rounds-left : (gs fs : Fields) (rest : Text) → count fs < suc (rounds_of gs fs rest - count gs - 1)
rounds-left gs fs rest = omega (
  arith,
  length-print_fields gs (b',' ∷ print_fields fs rest),
  length-print_fields fs rest,
  count-le gs,
  count-le fs,
)

module _ (name : Text) (is_name : every is_plain name ≡ true) where
  -- A field that is not taken.
  not_taken :
      (k : Text) (v : Value) (o : Option Value)
      → (if takes name k v then some v else o) ≡ none
      → (takes name k v ≡ false) × (o ≡ none)
  not_taken k v o h = ground arith

  -- A round at a field that is not taken, of `rounds` that are left.
  pass_field :
      (rounds fuel c : ℕ) (k : Text) (v : Value) (d : ℕ) (r : Text) (ret : ℤ)
      → rounds ≡ suc fuel
      → (c == b'"') ≡ false
      → every is_plain k ≡ true
      → is_printable v ≡ true
      → ends_number d ≡ true
      → takes name k v ≡ false
      → scan name is_name (walk rounds (c ∷ b'"' ∷ (k ++ b'"' ∷ b':' ∷ print v (d ∷ r)))) ret
        ≡ scan name is_name (walk fuel (d ∷ r)) (ret_behind k v ret)
  pass_field rounds fuel c k v d r ret e h p q x n =
      ap (λ m. scan name is_name (walk m (c ∷ b'"' ∷ (k ++ b'"' ∷ b':' ∷ print v (d ∷ r)))) ret) e
      ∙ (walk-field name is_name fuel c k v d r ret h p q x
          ∙ ap
              (λ (b : Bool).
                if b
                then ok (json_result_ok, hit v (d ∷ r))
                else scan name is_name (walk fuel (d ∷ r)) (ret_behind k v ret))
              n)

  -- The loop comes to the closing brace, with a round for each field gone.
  walk_missed :
      (fs : Fields) (rest : Text) (fuel c : ℕ) (ret : ℤ)
      → (c == b'"') ≡ false
      → are_printable fs ≡ true
      → first_match name fs ≡ none
      → (ret' : ℤ) × (scan name is_name (walk (count fs + fuel) (c ∷ print_fields fs rest)) ret
          ≡ scan name is_name (walk fuel (b'}' ∷ rest)) ret')
  unfolding print_fields are_printable first_match
  walk_missed (one k v) rest fuel c ret h p m =
      let (a, b) = and-true (every is_plain k) (is_printable v) p in
      let (n, _) = not_taken k v none m in
      (
        ret_behind k v ret,
        pass_field (1 + fuel) fuel c k v b'}' rest ret (omega arith) h a b refl n,
      )
  walk_missed (more k v fs) rest fuel c ret h p m =
      let (a, b) = and-true (every is_plain k) (is_printable v && are_printable fs) p in
      let (b', d) = and-true (is_printable v) (are_printable fs) b in
      let (n, o) = not_taken k v (first_match name fs) m in
      let (ret', e) = walk_missed fs rest fuel b',' (ret_behind k v ret) refl d o in
      (
        ret',
        pass_field (suc (count fs) + fuel) (count fs + fuel) c k v b',' (print_fields fs rest) ret
              (omega arith) h a b' refl n
            ∙ e,
      )

  -- The loop leaves an object that has no such field for the fields around it.
  walk_beyond :
      (gs fs : Fields) (rest : Text) (v : Value) (rounds fuel : ℕ) (ret : ℤ)
      → are_printable gs ≡ true
      → are_printable fs ≡ true
      → first_match name gs ≡ none
      → first_match name fs ≡ some v
      → rounds ≡ count gs + suc fuel
      → count fs < suc fuel
      → (r : Text) × (scan name is_name
            (walk rounds (b'{' ∷ print_fields gs (b',' ∷ print_fields fs rest)))
            ret
          ≡ ok (json_result_ok, hit v r))
  walk_beyond gs fs rest v rounds fuel ret p q m e d lt =
      let outer = b',' ∷ print_fields fs rest in
      let (ret', missed) = walk_missed gs outer (suc fuel) b'{' ret refl p m in
      let (r, found) =
        subst (λ o. Gives rest o (scan name is_name (walk (suc fuel) outer) ret')) e
          (walk-Gives name is_name fs rest (suc fuel) b',' ret' refl q lt) in
      (
        r,
        ap (λ n. scan name is_name (walk n (b'{' ∷ print_fields gs outer)) ret) d
            ∙ (missed
                ∙ (ap (λ w. scan name is_name w ret') (walk_skip fuel b'}' outer refl) ∙ found)),
      )

  -- So a lookup in such an object finds a field around it.
  by_name-beyond :
      (gs fs : Fields) (rest : Text) (v : Value)
      → are_printable gs ≡ true
      → are_printable fs ≡ true
      → first_match name gs ≡ none
      → first_match name fs ≡ some v
      → (r : Text) × (asked name (print (obj gs) (b',' ∷ print_fields fs rest))
          ≡ ok (some (content v r, content_len v)))
  unfolding print for_each_kv get_object
  by_name-beyond gs fs rest v p q m e =
      let outer = b',' ∷ print_fields fs rest in
      let n = length (b'{' ∷ print_fields gs outer) in
      let (r, g) =
        walk_beyond gs fs rest v n (n - count gs - 1) json_result_err p q m e (rounds-eq gs fs rest)
          (rounds-left gs fs rest) in
      (r, by_name_lem name is_name b'{' (print_fields gs outer) ∙ ap (answered name is_name) g)

is_prefix_refl : (a : Text) → is_prefix a a ≡ true
is_prefix_refl [] = refl
is_prefix_refl (c ∷ a) = ground (arith, is_prefix_refl a)

takes_self : (a : Text) (gs : Fields) → 0 < length a → takes a a (obj gs) ≡ true
takes_self a gs h = ground (arith, is_prefix_refl a)

-- The first field of an object is found by its own key, with the rest behind it.
asked_first :
    (a : Text) (gs fs : Fields)
    → every is_plain a ≡ true
    → are_printable gs ≡ true
    → 0 < length a
    → asked a (print (obj (more a (obj gs) fs)) [])
      ≡ ok (some (print (obj gs) (b',' ∷ print_fields fs []), content_len (obj gs)))
unfolding print print_fields is_printable for_each_kv get_object
asked_first a gs fs p q h =
    let outer = print_fields fs [] in
    let s = b'"' ∷ (a ++ b'"' ∷ b':' ∷ print (obj gs) (b',' ∷ outer)) in
    by_name_lem a p b'{' s
    ∙ ap (answered a p) (
        walk-field a p (length s) b'{' a (obj gs) b',' outer json_result_err refl p q refl
        ∙ ap
            (λ (b : Bool).
              if b
              then ok (json_result_ok, hit (obj gs) (b',' ∷ outer))
              else scan a p (walk (length s) (b',' ∷ outer))
                  (ret_behind a (obj gs) json_result_err))
            (takes_self a gs h))

-- With a key of two names, LITE_json_value_of gives the field of the outer object where the inner
-- one, its first field, has none: the bytes behind the inner object are searched too.
pub json_value_of_escapes :
    (a b : Text) (gs fs : Fields) (v : Value)
    → All IsName (a ∷ b ∷ [])
    → are_printable (more a (obj gs) fs) ≡ true
    → 0 < length a
    → first_match b gs ≡ none
    → first_match b fs ≡ some v
    → (at_path a (b ∷ []) (more a (obj gs) fs) ≡ none)
      × (json_value_of (a ++ b'.' ∷ b) (print (obj (more a (obj gs) fs)) [])
          ≡ ok (some (value_text v)))
unfolding json_value_of first_match are_printable is_printable
json_value_of_escapes a b gs fs v (na, (nb, _)) p h m e =
    let (pa, pb) = and-true (every is_plain a) (are_printable gs && are_printable fs) p in
    let (pg, pf) = and-true (are_printable gs) (are_printable fs) pb in
    let (r, found) = by_name-beyond b (plain-name b nb) gs fs [] v pg pf m e in
    let src = print (obj gs) (b',' ∷ print_fields fs []) in
    (
      ap (λ t. inside (if t then some (obj gs) else first_match a fs) (first_match b))
            (takes_self a gs h)
          ∙ m,
      along-dot [] a b (print (obj (more a (obj gs) fs)) []) na
          ∙ (ap (λ x. x >>= λ w. descend (value_along [] b) w)
                (asked_first a gs fs (plain-name a na) pg h)
              ∙ (along_end [] b src nb
                  ∙ (ap (λ x. x >>= λ w. ok (copied w)) found ∙ ap ok (copied-content v r)))),
    )
