-- ===== src/Utils/Json/Printed/Paths.antt =====
-- LITE_json_value_of (uiot/utils/json_token.c) on printed objects.
use ucloud_iot_rtthread_pack.Prelude.{
  ℕ, ◌+◌, ◌≤◌, ◌≡◌, refl, sym, subst, arith, ap, ◌∙◌, [], ◌∷◌, ◌++◌, append_assoc, true, false,
  ◌&&◌, Option, none, some, length, length-append, Text, ℤ, Outcome, ok, err, fault, ◌>>=◌, take,
  take-append, take-length, eq_ℤ,
}
use ucloud_iot_rtthread_pack.Utils.Json.Scan.{get_object, for_each_kv}
use ucloud_iot_rtthread_pack.Utils.Json.Lookup.{
  json_result_ok, json_result_err, each, Callback, NameValue, value_by_name_cb, no_value,
  parse_name_value, get_value_by_name, found_value, copied,
}
use ucloud_iot_rtthread_pack.Utils.Json.Printed.{
  Value, str, num, obj, Fields, one, more, print, print_fields, is_plain, every, are_printable,
  size, size_fields,
}
use ucloud_iot_rtthread_pack.Utils.Json.Printed.Entries.{content, content_len}
use ucloud_iot_rtthread_pack.Utils.Json.Printed.Lookups.{
  first_match, Gives, walk-Gives, scan, count,
}

-- What LITE_json_value_of gives for a value: a string without its quotes.
abbrev pub value_text : Value → Text
value_text (str t) = t
value_text (num t) = t
value_text (obj fs) = print (obj fs) []

mutual
  unfolding print print_fields size size_fields

  length-print : (v : Value) (r : Text) → length (print v r) ≡ size v + length r
  length-print (str t) r = omega (arith, length-append t (b'"' ∷ r))
  length-print (num t) r = length-append t r
  length-print (obj fs) r = omega (arith, length-print_fields fs r)

  pub length-print_fields :
      (fs : Fields) (r : Text) → length (print_fields fs r) ≡ size_fields fs + 1 + length r
  length-print_fields (one k v) r =
      omega (arith, length-append k (b'"' ∷ b':' ∷ print v (b'}' ∷ r)), length-print v (b'}' ∷ r))
  length-print_fields (more k v fs) r = omega (
    arith,
    length-append k (b'"' ∷ b':' ∷ print v (b',' ∷ print_fields fs r)),
    length-print v (b',' ∷ print_fields fs r),
    length-print_fields fs r,
  )

mutual
  unfolding print print_fields

  pub print-append : (v : Value) (r s : Text) → print v (r ++ s) ≡ print v r ++ s
  print-append (str t) r s = ap (◌∷◌ b'"') (sym (append_assoc t (b'"' ∷ r) s))
  print-append (num t) r s = sym (append_assoc t r s)
  print-append (obj fs) r s = ap (◌∷◌ b'{') (print_fields-append fs r s)

  print_fields-append :
      (fs : Fields) (r s : Text) → print_fields fs (r ++ s) ≡ print_fields fs r ++ s
  print_fields-append (one k v) r s = rw (append_assoc, print-append v (b'}' ∷ r) s)
  print_fields-append (more k v fs) r s =
      rw (append_assoc, print_fields-append fs r s, print-append v (b',' ∷ print_fields fs r) s)

pub count-le : (fs : Fields) → count fs ≤ size_fields fs
unfolding size_fields
count-le (one k v) = omega arith
count-le (more k v fs) = omega (arith, count-le fs)

-- The bytes that are copied: neither the closing quote nor what stands behind the value.
pub copied-content :
    (v : Value) (r : Text) → copied (some (content v r, content_len v)) ≡ some (value_text v)
unfolding print size
copied-content (str t) r = ap some (take-append t (b'"' ∷ r))
copied-content (num t) r = ap some (take-append t r)
copied-content (obj fs) r =
    let whole = print (obj fs) [] in
    ap some (
      ap (λ n. take n (print (obj fs) r)) (length-of fs)
      ∙ (ap (take (length whole)) (print-append (obj fs) [] r) ∙ take-append whole r))
  where
    length-of : (gs : Fields) → size_fields gs + 2 ≡ length (print (obj gs) [])
    length-of gs = omega (arith, length-print_fields gs [])

abbrev pub with_document : {S : Type 0} → Text → ℤ × S → ℤ × S × Text
with_document s r = (r.0, r.1, s)

-- A document of its own length is neither cut nor put together.
pub parse_whole :
    {S : Type 0} (c : ℕ) (s : Text) (cb : Callback S) (nv : S)
    → parse_name_value (c ∷ s) (length (c ∷ s)) cb nv
      ≡ (each cb (for_each_kv (c ∷ s)) json_result_err nv >>= λ r. ok (with_document (c ∷ s) r))
unfolding parse_name_value
parse_whole c s cb nv = ground (arith, take-length (c ∷ s))

module _ (name : Text) (is_name : every is_plain name ≡ true) where
  abbrev pub answered : Outcome (ℤ × NameValue) → Outcome (Option (Text × ℕ))
  answered x = x >>= λ r. ok (found_value false r.1)

  pub by_name_lem :
      (c : ℕ) (s : Text)
      → get_value_by_name (c ∷ s) (length (c ∷ s)) name false
        ≡ answered (scan name is_name (for_each_kv (c ∷ s)) json_result_err)
  unfolding get_value_by_name
  by_name_lem c s =
      rw (parse_whole c s (value_by_name_cb name) no_value)
        (joined (scan name is_name (for_each_kv (c ∷ s)) json_result_err))
    where
      joined :
          (x : Outcome (ℤ × NameValue))
          → ((x >>= λ r. ok (with_document (c ∷ s) r)) >>= λ r.
              ok (found_value (false && eq_ℤ r.0 json_result_ok) r.1))
            ≡ answered x
      joined (ok r) = refl
      joined (err e) = refl
      joined fault = refl

  -- The loop over a printed object.
  for_each-Gives :
      (fs : Fields) (rest : Text)
      → are_printable fs ≡ true
      → Gives rest
          (first_match name fs)
          (scan name is_name (for_each_kv (print (obj fs) rest)) json_result_err)
  unfolding for_each_kv get_object print
  for_each-Gives fs rest p =
      walk-Gives name is_name fs rest (length (print (obj fs) rest)) b'{' json_result_err refl p
        (omega (arith, length-print_fields fs rest, count-le fs))

  pub by_name-found :
      (fs : Fields) (rest : Text) (v : Value)
      → are_printable fs ≡ true
      → first_match name fs ≡ some v
      → (r : Text) × (get_value_by_name
            (print (obj fs) rest)
            (length (print (obj fs) rest))
            name
            false
          ≡ ok (some (content v r, content_len v)))
  unfolding print
  by_name-found fs rest v p e =
      let (r, g) =
        subst
          (λ o.
            Gives rest o (scan name is_name (for_each_kv (print (obj fs) rest)) json_result_err))
          e (for_each-Gives fs rest p) in
      (r, by_name_lem b'{' (print_fields fs rest) ∙ ap answered g)

  pub by_name-missed :
      (fs : Fields)
      → are_printable fs ≡ true
      → first_match name fs ≡ none
      → get_value_by_name (print (obj fs) []) (length (print (obj fs) [])) name false ≡ ok none
  unfolding print
  by_name-missed fs p e =
      let (r, g) =
        subst
          (λ o. Gives [] o (scan name is_name (for_each_kv (print (obj fs) [])) json_result_err)) e
          (for_each-Gives fs [] p) refl in
      by_name_lem b'{' (print_fields fs []) ∙ ap answered g
