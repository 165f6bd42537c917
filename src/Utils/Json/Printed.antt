-- ===== src/Utils/Json/Printed.antt =====
-- JSON objects as they are sent to the parser of uiot/utils/json_parser.c: an abstract syntax, its
-- print, and what the parser makes of a printed value.
use ucloud_iot_rtthread_pack.Prelude.{
  ℕ, zero, suc, ◌+◌, ◌-◌, ◌≡◌, refl, arith, ap, ◌∙◌, [], ◌∷◌, ◌++◌, Bool, true, false, not, ◌&&◌,
  ◌||◌, ◌==◌, Option, none, some, length, Text, if◌then◌else◌, strchr,
}
use ucloud_iot_rtthread_pack.Utils.Json.Scan.{
  JsonType, js_string, js_object, js_number, Pointer, at, advance, is_digit, number_len, marked_len,
}
pub mod Entries
pub mod Lookups
pub mod Paths
pub mod Nested
pub mod Escape

-- An object has at least one field.
mutual
  pub data Value : Type 0 where
    str : Text → Value
    num : Text → Value
    obj : Fields → Value

  pub data Fields : Type 0 where
    one : Text → Value → Fields
    more : Text → Value → Fields → Fields

-- The print, in front of a text. An object is its brace and the fields with the closing brace.
unfoldable mutual
  pub print : Value → Text → Text
  print (str t) rest = b'"' ∷ (t ++ b'"' ∷ rest)
  print (num t) rest = t ++ rest
  print (obj fs) rest = b'{' ∷ print_fields fs rest

  pub print_fields : Fields → Text → Text
  print_fields (one k v) rest = b'"' ∷ (k ++ b'"' ∷ b':' ∷ print v (b'}' ∷ rest))
  print_fields (more k v fs) rest =
      b'"' ∷ (k ++ b'"' ∷ b':' ∷ print v (b',' ∷ print_fields fs rest))

-- No quote and no brace.
abbrev pub is_plain : ℕ → Bool
is_plain c = not (c == b'"') && (not (c == b'{') && not (c == b'}'))

abbrev pub every : (ℕ → Bool) → Text → Bool
every p [] = true
every p (c ∷ s) = p c && every p s

abbrev pub is_number : Text → Bool
is_number [] = false
is_number (c ∷ s) = is_digit c && every is_digit s

-- Texts that need no escapes, and numbers of digits only.
unfoldable mutual
  pub is_printable : Value → Bool
  is_printable (str t) = every is_plain t
  is_printable (num t) = is_number t
  is_printable (obj fs) = are_printable fs

  pub are_printable : Fields → Bool
  are_printable (one k v) = every is_plain k && is_printable v
  are_printable (more k v fs) = every is_plain k && (is_printable v && are_printable fs)

-- The number of bytes of a print; without the closing brace for fields.
unfoldable mutual
  pub size : Value → ℕ
  size (str t) = length t + 2
  size (num t) = length t
  size (obj fs) = size_fields fs + 2

  pub size_fields : Fields → ℕ
  size_fields (one k v) = length k + 3 + size v
  size_fields (more k v fs) = length k + 4 + size v + size_fields fs

pub and-true : (a b : Bool) → (a && b) ≡ true → (a ≡ true) × (b ≡ true)
and-true true b h = (refl, h)
and-true false b h = cc

pub strchr-plain :
    (t r : Text) → every is_plain t ≡ true → strchr (t ++ b'"' ∷ r) b'"' ≡ some (b'"' ∷ r)
strchr-plain [] r h = refl
strchr-plain (c ∷ t) r h = ground (arith, strchr-plain t r)

-- The depth of the braces, `n` bytes behind the start.
abbrev braces : ℕ → ℕ → Text → ℕ
braces d n s = marked_len b'{' b'}' 1 d n s

braces_eq : {m n : ℕ} (d : ℕ) (r : Text) → m ≡ n → braces d m r ≡ braces d n r
braces_eq d r e = ap (λ i. braces d i r) e

abbrev is_calm : ℕ → Bool
is_calm c = not (c == b'{') && not (c == b'}')

braces_step : (d n c : ℕ) (r : Text) → is_calm c ≡ true → braces d n (c ∷ r) ≡ braces d (suc n) r
unfolding marked_len
braces_step d n c r h = ground arith

-- A text without braces does not change the depth.
braces-calm :
    (d n : ℕ) (t r : Text)
    → every is_calm t ≡ true
    → braces d n (t ++ r) ≡ braces d (n + length t) r
braces-calm d n [] r h = braces_eq d r (omega arith)
braces-calm d n (c ∷ t) r h =
    let (a, b) = and-true (is_calm c) (every is_calm t) h in
    braces_step d n c (t ++ r) a ∙ (braces-calm d (suc n) t r b ∙ braces_eq d r (omega arith))

plain-calm : (t : Text) → every is_plain t ≡ true → every is_calm t ≡ true
plain-calm [] h = refl
plain-calm (c ∷ t) h = ground (arith, plain-calm t)

digits-calm : (t : Text) → every is_digit t ≡ true → every is_calm t ≡ true
digits-calm [] h = refl
digits-calm (c ∷ t) h = ground (arith, digits-calm t)

braces_open : (d n : ℕ) (r : Text) → braces d n (b'{' ∷ r) ≡ braces (suc d) (suc n) r
unfolding marked_len
braces_open d n r = refl

braces_close : (d n : ℕ) (r : Text) → braces (suc d) n (b'}' ∷ r) ≡ braces d (suc n) r
unfolding marked_len
braces_close d n r = refl

-- The key of a field, with its quotes and the colon.
braces-key :
    (d n : ℕ) (k r : Text)
    → every is_plain k ≡ true
    → braces d n (b'"' ∷ (k ++ b'"' ∷ b':' ∷ r)) ≡ braces d (n + length k + 3) r
braces-key d n k r h =
    braces_step d n b'"' _ refl
    ∙ (braces-calm d (suc n) k _ (plain-calm k h)
        ∙ (braces_step d _ b'"' _ refl
            ∙ (braces_step d _ b':' r refl ∙ braces_eq d r (omega arith))))

-- A value does not change the depth; its fields leave the closing brace.
mutual
  unfolding print print_fields is_printable are_printable size size_fields

  braces-print :
      (d n : ℕ) (v : Value) (r : Text)
      → is_printable v ≡ true
      → braces d n (print v r) ≡ braces d (n + size v) r
  braces-print d n (str t) r h =
      braces_step d n b'"' _ refl
      ∙ (braces-calm d (suc n) t _ (plain-calm t h)
          ∙ (braces_step d _ b'"' r refl ∙ braces_eq d r (omega arith)))
  braces-print d n (num (c ∷ t)) r h = braces-calm d n (c ∷ t) r (digits-calm (c ∷ t) h)
  braces-print d n (num []) r h = cc
  braces-print d n (obj fs) r h =
      braces_open d n _
      ∙ (braces-fields (suc d) (suc n) fs r h ∙ (braces_close d _ r ∙ braces_eq d r (omega arith)))

  braces-fields :
      (d n : ℕ) (fs : Fields) (r : Text)
      → are_printable fs ≡ true
      → braces d n (print_fields fs r) ≡ braces d (n + size_fields fs) (b'}' ∷ r)
  braces-fields d n (one k v) r h =
      let (a, b) = and-true (every is_plain k) (is_printable v) h in
      braces-key d n k _ a ∙ (braces-print d _ v (b'}' ∷ r) b ∙ braces_eq d _ (omega arith))
  braces-fields d n (more k v fs) r h =
      let (a, b) = and-true (every is_plain k) (is_printable v && are_printable fs) h in
      let (b', c) = and-true (is_printable v) (are_printable fs) b in
      braces-key d n k _ a
      ∙ (braces-print d _ v _ b'
          ∙ (braces_step d _ b',' _ refl
              ∙ (braces-fields d _ fs r c ∙ braces_eq d _ (omega arith))))
