-- ===== src/Utils/Json/Printed/Nested.antt =====
-- LITE_json_value_of (uiot/utils/json_token.c) along the keys of nested objects.
use mathlib.Core.Option
use ucloud_iot_rtthread_pack.Prelude.{
  ℕ, ◌≡◌, refl, sym, arith, ap, ◌∙◌, List, [], ◌∷◌, ◌++◌, append_assoc, append-nil, Bool, true,
  false, not, ◌&&◌, ◌==◌, inl, inr, All, Option, none, some, length, Text, Outcome, ok, ◌>>=◌,
  Option-cases,
}
use ucloud_iot_rtthread_pack.Utils.Json.Lookup.{
  get_value_by_name, copied, value_along, json_value_of, descend,
}
use ucloud_iot_rtthread_pack.Utils.Json.Printed.{
  Value, str, num, obj, Fields, one, more, print, is_plain, every, is_printable, are_printable,
  and-true,
}
use ucloud_iot_rtthread_pack.Utils.Json.Printed.Lookups.{first_match}
use ucloud_iot_rtthread_pack.Utils.Json.Printed.Paths.{
  value_text, copied-content, by_name-found, by_name-missed,
}

-- A key without quotes, braces and dots.
abbrev pub is_name_byte : ℕ → Bool
is_name_byte c = is_plain c && not (c == b'.')

abbrev pub IsName : Text → Type 0
IsName name = every is_name_byte name ≡ true

-- The keys of nested objects, from the outside, with dots between them.
abbrev pub joined : Text → List Text → Text
joined name [] = name
joined name (next ∷ names) = name ++ b'.' ∷ joined next names

abbrev pub inside : Option Value → (Fields → Option Value) → Option Value
inside (some (obj fs)) next = next fs
inside _ next = none

-- The value there.
abbrev pub at_path : Text → List Text → Fields → Option Value
at_path name [] fs = first_match name fs
at_path name (next ∷ names) fs = inside (first_match name fs) (at_path next names)

pub plain-name : (name : Text) → IsName name → every is_plain name ≡ true
plain-name [] h = refl
plain-name (c ∷ name) h =
    let (a, b) = and-true (is_name_byte c) (every is_name_byte name) h in
    rw ((and-true (is_plain c) (not (c == b'.')) a).0, plain-name name b)

along_step :
    (seen key src : Text) (c : ℕ)
    → is_name_byte c ≡ true
    → value_along seen (c ∷ key) src ≡ value_along (seen ++ c ∷ []) key src
unfolding value_along
along_step seen key src c h = ground arith

-- A lookup of the key that has been read.
abbrev pub asked : Text → Text → Outcome (Option (Text × ℕ))
asked seen src = get_value_by_name src (length src) seen false

-- A key with a dot is looked up before what stands behind the dot.
pub along-dot :
    (seen name key src : Text)
    → IsName name
    → value_along seen (name ++ b'.' ∷ key) src
      ≡ (asked (seen ++ name) src >>= λ v. descend (value_along [] key) v)
along-dot seen [] key src h =
    unfold value_along in
    ap (λ n. asked n src >>= λ v. descend (value_along [] key) v) (sym (append-nil seen))
along-dot seen (c ∷ name) key src h =
    let (a, b) = and-true (is_name_byte c) (every is_name_byte name) h in
    along_step seen _ src c a
    ∙ (along-dot (seen ++ c ∷ []) name key src b
        ∙ ap (λ n. asked n src >>= λ v. descend (value_along [] key) v)
            (append_assoc seen (c ∷ []) name))

pub along_end :
    (seen name src : Text)
    → IsName name
    → value_along seen name src ≡ (asked (seen ++ name) src >>= λ v. ok (copied v))
along_end seen [] src h =
    unfold value_along in ap (λ n. asked n src >>= λ v. ok (copied v)) (sym (append-nil seen))
along_end seen (c ∷ name) src h =
    let (a, b) = and-true (is_name_byte c) (every is_name_byte name) h in
    along_step seen name src c a
    ∙ (along_end (seen ++ c ∷ []) name src b
        ∙ ap (λ n. asked n src >>= λ v. ok (copied v)) (append_assoc seen (c ∷ []) name))

pub first_match-is_printable :
    (name : Text) (fs : Fields) (v : Value)
    → are_printable fs ≡ true
    → first_match name fs ≡ some v
    → is_printable v ≡ true
unfolding first_match are_printable
first_match-is_printable name (one k w) v h e = ground arith
first_match-is_printable name (more k w fs) v h e =
    ground (arith, first_match-is_printable name fs v)

value_along-one :
    (name : Text) (fs : Fields) (rest : Text) (v : Value)
    → IsName name
    → are_printable fs ≡ true
    → first_match name fs ≡ some v
    → value_along [] name (print (obj fs) rest) ≡ ok (some (value_text v))
value_along-one name fs rest v n p e =
    let (r, g) = by_name-found name (plain-name name n) fs rest v p e in
    along_end [] name (print (obj fs) rest) n
    ∙ (ap (λ x. x >>= λ w. ok (copied w)) g ∙ ap ok (copied-content v r))

-- A first match that is an object is searched on.
inside-some :
    (o : Option Value) (next : Fields → Option Value) (v : Value)
    → inside o next ≡ some v
    → (fs : Fields) × (o ≡ some (obj fs)) × (next fs ≡ some v)
inside-some none next v e = cc
inside-some (some (str t)) next v e = cc
inside-some (some (num t)) next v e = cc
inside-some (some (obj fs)) next v e = (fs, refl, e)

value_along-path :
    (name : Text) (names : List Text) (fs : Fields) (rest : Text) (v : Value)
    → All IsName (name ∷ names)
    → are_printable fs ≡ true
    → at_path name names fs ≡ some v
    → value_along [] (joined name names) (print (obj fs) rest) ≡ ok (some (value_text v))
unfolding print is_printable
value_along-path name [] fs rest v (n, ns) p e = value_along-one name fs rest v n p e
value_along-path name (next ∷ names) fs rest v (n, ns) p e =
    let (gs, d, f) = inside-some (first_match name fs) (at_path next names) v e in
    let (r, g) = by_name-found name (plain-name name n) fs rest (obj gs) p d in
    let key = joined next names in
    along-dot [] name key (print (obj fs) rest) n
    ∙ (ap (λ x. x >>= λ w. descend (value_along [] key) w) g
        ∙ value_along-path next names gs r v ns (first_match-is_printable name fs (obj gs) p d) f)

-- Whatever stands behind a printed object, LITE_json_value_of finds in it the value at the path of
-- its key: at each object the first field that is not empty and whose key starts with the name.
pub json_value_of-path :
    (name : Text) (names : List Text) (fs : Fields) (rest : Text) (v : Value)
    → All IsName (name ∷ names)
    → are_printable fs ≡ true
    → at_path name names fs ≡ some v
    → json_value_of (joined name names) (print (obj fs) rest) ≡ ok (some (value_text v))
unfolding json_value_of
json_value_of-path name names fs rest v = value_along-path name names fs rest v

-- A key without dots gets, from a document that is a printed object, the text of the first field
-- that is not empty and whose key starts with it, or NULL where there is none.
pub json_value_of-print :
    (name : Text) (fs : Fields)
    → IsName name
    → are_printable fs ≡ true
    → json_value_of name (print (obj fs) []) ≡ ok (Option.map value_text (first_match name fs))
unfolding json_value_of
json_value_of-print name fs n p = elim (Option-cases (first_match name fs)) [
  | inl e ↦ rw e (
      along_end [] name (print (obj fs) []) n
      ∙ ap (λ x. x >>= λ w. ok (copied w)) (by_name-missed name (plain-name name n) fs p e))
  | inr (v, e) ↦ rw e (value_along-one name fs [] v n p e)
]
