-- ===== src/Utils/Json/Printed/Entries.antt =====
-- What json_get_next_object (uiot/utils/json_parser.c) reads from a printed field.
use ucloud_iot_rtthread_pack.Prelude.{
  ℕ, suc, ◌+◌, ◌≡◌, refl, arith, ap, ◌∙◌, [], ◌∷◌, ◌++◌, Bool, true, false, not, ◌||◌, ◌==◌, length,
  length-append, Text,
}
use ucloud_iot_rtthread_pack.Utils.Json.Scan.{
  JsonType, js_string, js_object, js_number, at, advance, is_digit, number_len, marked_len, found,
  find_value, value_len, behind, Entry, entry, next_value, find_behind_colon, key_ends, key_begins,
  get_next_object,
}
use ucloud_iot_rtthread_pack.Utils.Json.Printed.{
  Value, str, num, obj, Fields, one, more, print, print_fields, is_plain, every, is_printable, size,
  size_fields, and-true, strchr-plain, braces-fields,
}

-- iValueType, p_cValue, iValueLen, and p_cPos in front of the second loop.
abbrev pub type_of : Value → JsonType
type_of (str t) = js_string
type_of (num t) = js_number
type_of (obj fs) = js_object

abbrev pub content : Value → Text → Text
content (str t) rest = t ++ b'"' ∷ rest
content (num t) rest = t ++ rest
content (obj fs) rest = b'{' ∷ print_fields fs rest

abbrev pub content_len : Value → ℕ
content_len (str t) = length t
content_len (num t) = length t
content_len (obj fs) = size_fields fs + 2

abbrev tail : Text → Text
tail [] = []
tail (c ∷ s) = s

abbrev scan_start : Value → Text → Text
scan_start (str t) rest = t ++ b'"' ∷ rest
scan_start (num t) rest = tail t ++ rest
scan_start (obj fs) rest = print_fields fs rest

find_value_digit :
    (c : ℕ) (s : Text) → is_digit c ≡ true → find_value (c ∷ s) ≡ found js_number (c ∷ s) s
unfolding find_value
find_value_digit c s h = ground arith

find_value-print :
    (v : Value) (rest : Text)
    → is_printable v ≡ true
    → find_value (print v rest) ≡ found (type_of v) (content v rest) (scan_start v rest)
unfolding find_value print is_printable
find_value-print (str t) rest h = refl
find_value-print (num (c ∷ t)) rest h =
    find_value_digit c (t ++ rest) (and-true (is_digit c) (every is_digit t) h).0
find_value-print (num []) rest h = cc
find_value-print (obj fs) rest h = refl

quoted_len :
    (n : ℕ) (t r : Text)
    → every is_plain t ≡ true
    → marked_len b'"' b'"' 0 0 n (t ++ b'"' ∷ r) ≡ n + length t
unfolding marked_len
quoted_len n [] r h = refl
quoted_len n (c ∷ t) r h = ground (arith, quoted_len (suc n) t r)

-- A byte that ends a number.
abbrev pub ends_number : ℕ → Bool
ends_number c = not (is_digit c || c == b'.')

digits_len :
    (n : ℕ) (t : Text) (c : ℕ) (r : Text)
    → every is_digit t ≡ true
    → ends_number c ≡ true
    → number_len n (t ++ c ∷ r) ≡ n + length t
unfolding number_len
digits_len n [] c r h e = ground arith
digits_len n (d ∷ t) c r h e = ground (arith, digits_len (suc n) t c r)

value_len-print :
    (v : Value) (c : ℕ) (r : Text)
    → is_printable v ≡ true
    → ends_number c ≡ true
    → value_len (type_of v) (content v (c ∷ r)) (scan_start v (c ∷ r)) ≡ content_len v
unfolding value_len is_printable marked_len
value_len-print (str t) c r h e = quoted_len 0 t (c ∷ r) h ∙ omega arith
value_len-print (num (d ∷ t)) c r h e =
    digits_len 1 t c r (and-true (is_digit d) (every is_digit t) h).1 e ∙ omega arith
value_len-print (num []) c r h e = cc
value_len-print (obj fs) c r h e = braces-fields 0 1 fs (c ∷ r) h ∙ omega arith

advance_eq : (m n : ℕ) (s : Text) → m ≡ n → advance m s ≡ advance n s
advance_eq m n s e = ap (λ i. advance i s) e

advance-text : (m : ℕ) (t r : Text) → advance (length t + m) (t ++ r) ≡ advance m r
advance-text m [] r = advance_eq (0 + m) m r (omega arith)
advance-text m (c ∷ t) r =
    advance_eq (suc (length t) + m) (suc (length t + m)) (c ∷ (t ++ r)) (omega arith)
    ∙ advance-text m t r

advance-key :
    (m : ℕ) (k r : Text) → advance (length k + 3 + m) (b'"' ∷ (k ++ b'"' ∷ b':' ∷ r)) ≡ advance m r
advance-key m k r =
    advance_eq (length k + 3 + m) (suc (length k + suc (suc m))) (b'"' ∷ (k ++ b'"' ∷ b':' ∷ r))
      (omega arith)
    ∙ advance-text (suc (suc m)) k (b'"' ∷ b':' ∷ r)

-- A print is `size` bytes long.
mutual
  unfolding print print_fields size size_fields

  advance-print : (m : ℕ) (v : Value) (r : Text) → advance (size v + m) (print v r) ≡ advance m r
  advance-print m (str t) r =
      advance_eq (size (str t) + m) (suc (length t + suc m)) (print (str t) r) (omega arith)
      ∙ advance-text (suc m) t (b'"' ∷ r)
  advance-print m (num t) r = advance-text m t r
  advance-print m (obj fs) r =
      advance_eq (size (obj fs) + m) (suc (size_fields fs + suc m)) (print (obj fs) r) (omega arith)
      ∙ advance-fields (suc m) fs r

  advance-fields :
      (m : ℕ) (fs : Fields) (r : Text)
      → advance (size_fields fs + m) (print_fields fs r) ≡ advance m (b'}' ∷ r)
  advance-fields m (one k v) r =
      advance_eq (size_fields (one k v) + m) (length k + 3 + (size v + m))
        (print_fields (one k v) r) (omega arith)
      ∙ (advance-key (size v + m) k _ ∙ advance-print m v (b'}' ∷ r))
  advance-fields m (more k v fs) r =
      advance_eq (size_fields (more k v fs) + m)
        (length k + 3 + (size v + suc (size_fields fs + m))) (print_fields (more k v fs) r)
        (omega arith)
      ∙ (advance-key (size v + suc (size_fields fs + m)) k _
          ∙ (advance-print (suc (size_fields fs + m)) v (b',' ∷ print_fields fs r)
              ∙ advance-fields m fs r))

behind-print :
    (v : Value) (rest : Text) → behind (type_of v) (content_len v) (content v rest) ≡ at rest
unfolding print size
behind-print (str t) rest =
    advance_eq (suc (length t)) (length t + 1) (t ++ b'"' ∷ rest) (omega arith)
    ∙ advance-text 1 t (b'"' ∷ rest)
behind-print (num t) rest =
    advance_eq (length t) (length t + 0) (t ++ rest) (omega arith) ∙ advance-text 0 t rest
behind-print (obj fs) rest =
    advance_eq (size_fields fs + 2) (size (obj fs) + 0) (print (obj fs) rest) (omega arith)
    ∙ advance-print 0 (obj fs) rest

-- The entry of a field with the text `rest` behind its value.
abbrev pub entry_of : Text → Value → Text → Entry
entry_of k v rest = record {
  key = k ++ b'"' ∷ b':' ∷ print v rest;
  key_len = length k;
  val = content v rest;
  val_len = content_len v;
  val_type = type_of v;
}

next_value-print :
    (k : Text) (n : ℕ) (v : Value) (d : ℕ) (r : Text)
    → is_printable v ≡ true
    → ends_number d ≡ true
    → n ≡ length k
    → next_value (k ++ b'"' ∷ b':' ∷ print v (d ∷ r)) n (find_value (print v (d ∷ r)))
      ≡ entry (entry_of k v (d ∷ r)) (at (d ∷ r))
unfolding next_value
next_value-print k n v d r q e l =
    rw (find_value-print v (d ∷ r) q, value_len-print v d r q e, behind-print v (d ∷ r), l)

pub get_next_object-print :
    (c : ℕ) (k : Text) (v : Value) (d : ℕ) (r : Text)
    → (c == b'"') ≡ false
    → every is_plain k ≡ true
    → is_printable v ≡ true
    → ends_number d ≡ true
    → get_next_object (c ∷ b'"' ∷ (k ++ b'"' ∷ b':' ∷ print v (d ∷ r)))
      ≡ entry (entry_of k v (d ∷ r)) (at (d ∷ r))
unfolding get_next_object key_begins key_ends next_value find_behind_colon find_value
get_next_object-print c k v d r h p q e =
    let after = b':' ∷ print v (d ∷ r) in
    let whole = k ++ b'"' ∷ after in
    rw h (
      rw (strchr-plain k after p)
        (next_value-print k _ v d r q e (omega (arith, length-append k (b'"' ∷ after)))))
