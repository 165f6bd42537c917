-- ===== src/Utils/Json/Lookup.antt =====
-- json_parse_name_value and json_get_value_by_name of uiot/utils/json_parser.c, LITE_json_value_of
-- of json_token.c. The copies that the code allocates are taken to be allocated: where it cannot, it
-- returns NULL.
use ucloud_iot_rtthread_pack.Prelude.{
  ℕ, ℤ, pos, negsuc, [], ◌∷◌, ◌++◌, Bool, true, false, Option, none, some, if◌then◌else◌, ◌&&◌, ltb,
  ◌==◌, length, take, Text, strncmp_eq, Outcome, ok, fault, ◌>>=◌, eq_ℤ,
}
use ucloud_iot_rtthread_pack.Utils.Json.Scan.{
  JsonType, js_none, js_null, Entry, Walk, finished, overrun, spent, visit, for_each_kv,
}

abbrev pub json_result_err : ℤ
json_result_err = negsuc 0

abbrev pub json_result_ok : ℤ
json_result_ok = pos 0

-- A callback on its data: the flag is JSON_PARSE_FINISH.
abbrev pub Callback : Type 0 → Type 0
Callback S = Entry → S → Bool × S

-- `if (key && klen && val && vlen)`
abbrev pub is_filled : Entry → Bool
is_filled e = ltb 0 e.key_len && ltb 0 e.val_len

-- The body of the loop: the test, the rest of the loop, the callback's answer, `ret` and the data.
abbrev pub on_entry :
    {S : Type 0} → Bool → (ℤ → S → Outcome (ℤ × S)) → Bool × S → ℤ → S → Outcome (ℤ × S)
on_entry false next answer ret s = next ret s
on_entry true next (true, new) ret s = ok (json_result_ok, new)
on_entry true next (false, new) ret s = next json_result_ok new

unfoldable pub each : {S : Type 0} → Callback S → Walk → ℤ → S → Outcome (ℤ × S)
each cb finished ret s = ok (ret, s)
each cb overrun ret s = fault
each cb spent ret s = fault
each cb (visit e rest) ret s = on_entry (is_filled e) (each cb rest) (cb e s) ret s

-- The result, the callback's data, and the document afterwards. A length beyond the NUL is a fault.
-- The document is cut at its length, and put together again only if strlen differs from it then.
unfoldable pub parse_name_value : {S : Type 0} → Text → ℕ → Callback S → S → Outcome (ℤ × S × Text)
unfolding each for_each_kv
parse_name_value str len cb s =
    let cut = take len str in
    let restored = if len == length cut then cut else str in
    if len == 0
    then ok (json_result_err, s, str)
    else if ltb (length str) len
    then fault
    else each cb (for_each_kv cut) json_result_err s >>= λ r. ok (r.0, r.1, restored)

-- JSON_NV without the name: pV is NULL before a value is found.
pub record NameValue : Type 0 where
  pub value : Option Text
  pub len : ℕ
  pub type : JsonType

-- json_get_value_by_name_cb. strncmp reads from the key to the end of the document.
abbrev pub value_by_name_cb : Text → Callback NameValue
value_by_name_cb name e nv =
    if strncmp_eq e.key name (length name)
    then (true, record { value = some e.val; len = e.val_len; type = e.val_type })
    else (false, nv)

abbrev pub no_value : NameValue
no_value = record { value = none; len = 0; type = js_none }

abbrev pub is_null_type : JsonType → Bool
is_null_type js_null = true
is_null_type _ = false

-- The pointer that is returned, with the length: a null value counts as NULL if the caller asks for
-- the type.
abbrev pub found_value : Bool → NameValue → Option (Text × ℕ)
found_value wants_type nv =
    if wants_type && is_null_type nv.type
    then none
    else elim (nv.value) [ none ↦ none | some v ↦ some (v, nv.len) ]

unfoldable pub get_value_by_name : Text → ℕ → Text → Bool → Outcome (Option (Text × ℕ))
unfolding parse_name_value
get_value_by_name str len name wants_type =
    parse_name_value str len (value_by_name_cb name) no_value >>= λ r.
    ok (found_value (wants_type && eq_ℤ r.0 json_result_ok) r.1)

-- `%s` with value_len + 1 bytes of room
abbrev pub copied : Option (Text × ℕ) → Option Text
copied none = none
copied (some (v, n)) = some (take n v)

-- The rest of the document is searched, whatever the length of the value.
abbrev pub descend : (Text → Outcome (Option Text)) → Option (Text × ℕ) → Outcome (Option Text)
descend next none = ok none
descend next (some (v, n)) = next v

-- The key is read up to the next dot, of which `name` has been read.
unfoldable pub value_along : Text → Text → Text → Outcome (Option Text)
unfolding get_value_by_name
value_along name [] src = get_value_by_name src (length src) name false >>= λ v. ok (copied v)
value_along name (c ∷ key) src = elim (c == b'.') [
  | true ↦ get_value_by_name src (length src) name false >>= λ v. descend (value_along [] key) v
  | false ↦ value_along (name ++ c ∷ []) key src
]

unfoldable pub json_value_of : Text → Text → Outcome (Option Text)
unfolding value_along
json_value_of key src = value_along [] key src
