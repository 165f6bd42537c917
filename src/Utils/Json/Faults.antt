-- ===== src/Utils/Json/Faults.antt =====
-- Where the JSON lookups (uiot/utils/json_parser.c, json_token.c) do not do what they are for.
use ucloud_iot_rtthread_pack.Prelude.{
  ℕ, ◌-◌, ◌<◌, ◌≡◌, refl, sym, arith, ap, ◌∙◌, [], ◌∷◌, ◌++◌, Bool, true, false, ◌&&◌, length, Text,
  ℤ, Outcome, ok, err, fault, ◌>>=◌, take, length-take, ltb,
}
use ucloud_iot_rtthread_pack.Utils.Json.Scan.{
  for_each_kv, get_object, walk, get_next_object, key_begins, key_ends, next_value,
  find_behind_colon, find_value, value_len, marked_len, Entry, entry, beyond, visit, overrun,
  js_string,
}
use ucloud_iot_rtthread_pack.Utils.Json.Lookup.{
  json_result_err, each, on_entry, Callback, parse_name_value,
}
use ucloud_iot_rtthread_pack.Utils.Json.Printed.Paths.{parse_whole, with_document}
use ucloud_iot_rtthread_pack.Utils.Json.Printed.{is_plain, every, strchr-plain}

-- A document that ends behind the opening quote of a value.
abbrev pub unterminated : Text → Text
unterminated k = b'{' ∷ b'"' ∷ (k ++ b'"' ∷ b':' ∷ b'"' ∷ [])

next_unterminated :
    (k : Text)
    → every is_plain k ≡ true
    → (e : Entry) × (get_next_object (unterminated k) ≡ entry e beyond) × (e.val_len ≡ 0)
unfolding get_next_object key_begins key_ends next_value find_behind_colon find_value value_len
    marked_len
next_unterminated k p =
    let whole = k ++ b'"' ∷ b':' ∷ b'"' ∷ [] in
    (
      record {
        key = whole;
        key_len = length whole - 3;
        val = [];
        val_len = 0;
        val_type = js_string;
      },
      rw (strchr-plain k (b':' ∷ b'"' ∷ []) p),
      refl,
    )

each-overrun :
    {S : Type 0} (cb : Callback S) (e : Entry) (ret : ℤ) (s : S)
    → e.val_len ≡ 0
    → each cb (visit e overrun) ret s ≡ fault
unfolding each
each-overrun cb e ret s h =
    ap (λ n. on_entry (ltb 0 e.key_len && ltb 0 n) (each cb overrun) (cb e s) ret s) h
    ∙ skipped (ltb 0 e.key_len)
  where
    skipped : (b : Bool) → on_entry (b && false) (each cb overrun) (cb e s) ret s ≡ fault
    skipped true = refl
    skipped false = refl

-- The pointer behind the value is then behind the NUL: json_parse_name_value goes on reading there,
-- for every key without quotes and braces, and every callback.
pub parse_name_value_overrun :
    {S : Type 0} (k : Text) (cb : Callback S) (s : S)
    → every is_plain k ≡ true
    → parse_name_value (unterminated k) (length (unterminated k)) cb s ≡ fault
unfolding for_each_kv get_object walk
parse_name_value_overrun k cb s p =
    let (e, g, z) = next_unterminated k p in
    parse_whole b'{' (b'"' ∷ (k ++ b'"' ∷ b':' ∷ b'"' ∷ [])) cb s
    ∙ rw (g, each-overrun cb e json_result_err s z)

-- With a length below strlen, json_parse_name_value leaves the caller's document cut at it: strlen
-- is the length by then, and the byte is not put back.
parse_name_value_cuts :
    {S : Type 0} (doc : Text) (len : ℕ) (cb : Callback S) (s : S) (ret : ℤ) (s' : S) (doc' : Text)
    → 0 < len
    → len < length doc
    → parse_name_value doc len cb s ≡ ok (ret, s', doc')
    → doc' ≡ take len doc
unfolding parse_name_value
parse_name_value_cuts {S} doc len cb s ret s' doc' p q e =
    let cut = take len doc in
    let same = length-take len doc (omega arith) in
    let gone : parse_name_value doc len cb s
        ≡ (each cb (for_each_kv cut) json_result_err s >>= λ r. ok (with_document cut r)) =
      ground (arith, same) in
    left (each cb (for_each_kv cut) json_result_err s) (sym gone ∙ e)
  where
    left :
        (x : Outcome (ℤ × S))
        → (x >>= λ r. ok (with_document (take len doc) r)) ≡ ok (ret, s', doc')
        → doc' ≡ take len doc
    left (ok r) h = cc
    left (err c) h = cc
    left fault h = cc
