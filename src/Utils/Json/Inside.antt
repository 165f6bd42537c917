-- ===== src/Utils/Json/Inside.antt =====
-- json_object_for_each_kv (uiot/utils/json_parser.h) ends, and what it visits lies in the document.
use ucloud_iot_rtthread_pack.Prelude.{
  ℕ, zero, suc, ◌+◌, ◌≤◌, ◌<◌, ◌≡◌, refl, ap, [], ◌∷◌, ◌++◌, append_assoc, arith, Bool, true, false,
  Option, none, some, length, length-append, Text, strchr, ◌==◌, Bool-cases, if◌then◌else◌, inl,
  inr, ◌||◌,
}
use ucloud_iot_rtthread_pack.Utils.Json.Scan.{
  JsonType, js_string, js_object, js_array, js_number, js_boolean, js_null, Pointer, at, beyond,
  advance, get_object, Found, nothing, found, find_value, number_len, marked_len, boolean_len,
  null_len, value_len, Entry, Next, ended, entry, behind, next_value, find_behind_colon, key_ends,
  key_begins, get_next_object, Walk, finished, overrun, spent, visit, go_on, walk, walk_from,
  for_each_kv, is_digit,
}

-- `t` is the end of `s`.
abbrev pub Suffix : Text → Text → Type 0
Suffix t s = (front : Text) × (s ≡ front ++ t)

Suffix-refl : (s : Text) → Suffix s s
Suffix-refl s = ([], refl)

Suffix-cons : {t s : Text} (c : ℕ) → Suffix t s → Suffix t (c ∷ s)
Suffix-cons c (front, e) = (c ∷ front, ap (◌∷◌ c) e)

Suffix-trans : {u t s : Text} → Suffix u t → Suffix t s → Suffix u s
Suffix-trans {u} (f, e) (g, d) = (g ++ f, rw (append_assoc, ← e) d)

Suffix-le : {t s : Text} → Suffix t s → length t ≤ length s
Suffix-le {t} {s} (front, e) = omega (arith, ap length e, length-append front t)

Suffix-tail : {t s : Text} (c : ℕ) → Suffix (c ∷ t) s → Suffix t s
Suffix-tail {t} c h = Suffix-trans (c ∷ [], refl) h

-- Where there is a pointer, it points at a byte of `s`.
abbrev IsIn : Text → Option Text → Type 0
IsIn s none = Unit
IsIn s (some t) = Suffix t s × (0 < length t)

abbrev IsFoundIn : Text → Found → Type 0
IsFoundIn s nothing = Unit
IsFoundIn s (found type value pos) = Suffix value s × (value_len type value pos ≤ length value)

-- What both branches have.
if-both {ℓ κ} :
    {A : Type ℓ} (P : A → Type κ) (b : Bool) (x y : A) → P x → P y → P (if b then x else y)
if-both P true x y p q = p
if-both P false x y p q = q

IsIn-cons : (c : ℕ) (s : Text) (o : Option Text) → IsIn s o → IsIn (c ∷ s) o
IsIn-cons c s none h = tt
IsIn-cons c s (some t) (h, k) = (Suffix-cons c h, k)

strchr-IsIn : (s : Text) (k : ℕ) → IsIn s (strchr s k)
strchr-IsIn [] k = tt
strchr-IsIn (c ∷ s) k =
    if-both (IsIn (c ∷ s)) (c == k) (some (c ∷ s)) (strchr s k) (Suffix-refl (c ∷ s), omega arith)
      (IsIn-cons c s (strchr s k) (strchr-IsIn s k))

get_object-IsIn : (k : ℕ) (s : Text) → IsIn s (get_object k s)
unfolding get_object
get_object-IsIn k [] = tt
get_object-IsIn k (c ∷ s) =
    if-both (IsIn (c ∷ s)) (c == b' ') (get_object k s) _
      (IsIn-cons c s (get_object k s) (get_object-IsIn k s))
      (if-both (IsIn (c ∷ s)) (c == k) (some (c ∷ s)) none (Suffix-refl (c ∷ s), omega arith) tt)

number_len-le : (n : ℕ) (s : Text) → number_len n s ≤ n + length s
unfolding number_len
number_len-le n [] = omega arith
number_len-le n (c ∷ s) = elim (Bool-cases (is_digit c || c == b'.')) [
  | inl e ↦ rw e (omega (arith, number_len-le (suc n) s))
  | inr e ↦ rw e (omega arith)
]

marked_len-le :
    (opening closing extra depth n : ℕ) (s : Text)
    → extra ≤ 1
    → marked_len opening closing extra depth n s ≤ n + length s
unfolding marked_len
marked_len-le o k extra depth n [] h = omega arith
marked_len-le o k extra depth n (c ∷ s) h = elim (Bool-cases (c == k)) [
  | inl e ↦ rw (e, marked_len) (close (λ d. marked_len-le o k extra d (suc n) s h) depth)
  | inr e ↦
      rw (e, marked_len)
        (omega (arith, marked_len-le o k extra (if c == o then suc depth else depth) (suc n) s h))
]
  where
    close :
        ((d : ℕ) → marked_len o k extra d (suc n) s ≤ suc n + length s)
        → (d : ℕ)
        → elim d [ zero ↦ n + extra | suc d' ↦ marked_len o k extra d' (suc n) s ]
          ≤ n + length (c ∷ s)
    close ih zero = omega arith
    close ih (suc d) = omega (arith, ih d)

boolean_len-le : (s : Text) → boolean_len s ≤ length s
boolean_len-le s = ground arith

null_len-le : (s : Text) → null_len s ≤ length s
null_len-le s = ground arith

IsFoundIn-cons : (c : ℕ) (s : Text) (f : Found) → IsFoundIn s f → IsFoundIn (c ∷ s) f
IsFoundIn-cons c s nothing h = tt
IsFoundIn-cons c s (found type value pos) (h, k) = (Suffix-cons c h, k)

find_value-IsFoundIn : (s : Text) → IsFoundIn s (find_value s)
unfolding find_value value_len
find_value-IsFoundIn [] = tt
find_value-IsFoundIn (c ∷ s) =
    let P = IsFoundIn (c ∷ s) in
    let here = Suffix-refl (c ∷ s) in
    if-both P (c == b'"') (found js_string s s) _
      (Suffix-cons c (Suffix-refl s), omega (arith, marked_len-le b'"' b'"' 0 0 0 s (omega arith)))
      (if-both P (c == b'{') (found js_object (c ∷ s) s) _
        (here, omega (arith, marked_len-le b'{' b'}' 1 0 1 s (omega arith)))
        (if-both P (c == b'[') (found js_array (c ∷ s) s) _
          (here, omega (arith, marked_len-le b'[' b']' 1 0 1 s (omega arith)))
          (if-both P (c == b'-' || is_digit c) (found js_number (c ∷ s) s) _
            (here, omega (arith, number_len-le 1 s))
            (if-both P (c == b't' || (c == b'T' || (c == b'f' || c == b'F')))
              (found js_boolean (c ∷ s) (c ∷ s)) _ (here, boolean_len-le (c ∷ s))
              (if-both P (c == b'n' || c == b'N') (found js_null (c ∷ s) (c ∷ s)) (find_value s)
                (here, null_len-le (c ∷ s))
                (IsFoundIn-cons c s (find_value s) (find_value-IsFoundIn s)))))))

-- Key and value are parts of the document `s`; the key has at least one byte behind it.
pub record IsWithin (s : Text) (e : Entry) : Type 0 where
  pub key_in : Suffix e.key s
  pub key_fits : e.key_len < length e.key
  pub val_in : Suffix e.val s
  pub val_fits : e.val_len ≤ length e.val

IsWithin-trans : {s doc : Text} {e : Entry} → Suffix s doc → IsWithin s e → IsWithin doc e
IsWithin-trans d w = record {
  key_in = Suffix-trans w.key_in d;
  key_fits = w.key_fits;
  val_in = Suffix-trans w.val_in d;
  val_fits = w.val_fits;
}

-- The pointer behind the entry, where it is not behind the NUL, is in `s` and not its start.
abbrev IsPast : Text → Pointer → Type 0
IsPast s beyond = Unit
IsPast s (at t) = Suffix t s × (length t < length s)

abbrev IsNextIn : Text → Next → Type 0
IsNextIn s ended = Unit
IsNextIn s (entry e p) = IsWithin s e × IsPast s p

advance-IsPast : (n : ℕ) (v s : Text) → Suffix v s → length v < length s → IsPast s (advance n v)
advance-IsPast zero v s h k = (h, k)
advance-IsPast (suc n) [] s h k = tt
advance-IsPast (suc n) (c ∷ v) s h k = advance-IsPast n v s (Suffix-tail c h) (omega arith)

behind-IsPast :
    (t : JsonType) (n : ℕ) (v s : Text) → Suffix v s → length v < length s → IsPast s (behind t n v)
behind-IsPast js_string n v s h k = advance-IsPast (suc n) v s h k
behind-IsPast t n v s h k = advance-IsPast n v s h k

next_value-IsNextIn :
    (key s : Text) (n : ℕ) (f : Found) (rest : Text)
    → Suffix key s
    → n < length key
    → Suffix rest s
    → length rest < length s
    → IsFoundIn rest f
    → IsNextIn s (next_value key n f)
unfolding next_value
next_value-IsNextIn key s n nothing rest h k l m f = tt
next_value-IsNextIn key s n (found type value pos) rest h k l m (f, g) = (
  record { key_in = h; key_fits = k; val_in = Suffix-trans f l; val_fits = g },
  behind-IsPast type _ value s (Suffix-trans f l) (omega (arith, Suffix-le f)),
)

IsFoundIn-trans : {t s : Text} (f : Found) → Suffix t s → IsFoundIn t f → IsFoundIn s f
IsFoundIn-trans nothing h k = tt
IsFoundIn-trans (found type value pos) h (k, l) = (Suffix-trans k h, l)

find_behind_colon-IsFoundIn :
    (o : Option Text) (s : Text) → IsIn s o → IsFoundIn s (find_behind_colon o)
unfolding find_behind_colon
find_behind_colon-IsFoundIn none s h = tt
find_behind_colon-IsFoundIn (some t) s (h, k) =
    IsFoundIn-trans (find_value t) h (find_value-IsFoundIn t)

key_ends-IsNextIn :
    (key s : Text) (o : Option Text)
    → Suffix key s
    → length key < length s
    → IsIn key o
    → IsNextIn s (key_ends key o)
unfolding key_ends
key_ends-IsNextIn key s none h k i = tt
key_ends-IsNextIn key s (some t) h k (i, p) =
    next_value-IsNextIn key s _ (find_behind_colon (strchr t b':')) t h (omega (arith, Suffix-le i))
      (Suffix-trans i h) (omega (arith, Suffix-le i))
      (find_behind_colon-IsFoundIn (strchr t b':') t (strchr-IsIn t b':'))

key_begins-IsNextIn : (s : Text) (o : Option Text) → IsIn s o → IsNextIn s (key_begins o)
unfolding key_begins
key_begins-IsNextIn s none h = tt
key_begins-IsNextIn s (some []) h = tt
key_begins-IsNextIn s (some (c ∷ key)) (h, k) =
    key_ends-IsNextIn key s (strchr key b'"') (Suffix-tail c h) (omega (arith, Suffix-le h))
      (strchr-IsIn key b'"')

get_next_object-IsNextIn : (s : Text) → IsNextIn s (get_next_object s)
unfolding get_next_object
get_next_object-IsNextIn s = key_begins-IsNextIn s (strchr s b'"') (strchr-IsIn s b'"')

-- The loop does not exceed its fuel, and visits only entries within `s`.
abbrev pub Visits : (Entry → Type 0) → Walk → Type 0
Visits P finished = Unit
Visits P overrun = Unit
Visits P spent = ⊥
Visits P (visit e rest) = P e × Visits P rest

go_on-Visits :
    (doc s : Text) (f : Text → Walk) (n : Next)
    → Suffix s doc
    → IsNextIn s n
    → ((t : Text) → Suffix t doc → 0 < length t → length t < length s → Visits (IsWithin doc) (f t))
    → Visits (IsWithin doc) (go_on f n)
go_on-Visits doc s f ended d h ih = tt
go_on-Visits doc s f (entry e beyond) d (w, p) ih = (IsWithin-trans d w, tt)
go_on-Visits doc s f (entry e (at [])) d (w, p) ih = (IsWithin-trans d w, tt)
go_on-Visits doc s f (entry e (at (c ∷ t))) d (w, (p, q)) ih =
    (IsWithin-trans d w, ih (c ∷ t) (Suffix-trans p d) (omega arith) q)

walk-Visits :
    (fuel : ℕ) (doc s : Text)
    → Suffix s doc
    → 0 < length s
    → length s ≤ fuel
    → Visits (IsWithin doc) (walk fuel s)
unfolding walk
walk-Visits zero doc s d p h = absurd (omega arith)
walk-Visits (suc fuel) doc s d p h =
    go_on-Visits doc s (walk fuel) (get_next_object s) d (get_next_object-IsNextIn s)
      λ t e k l. walk-Visits fuel doc t e k (omega arith)

-- json_object_for_each_kv, on every document, never uses more than one round for each byte, and each
-- key and value that it hands to its callback, with its length, lies within the document. The walk
-- then is over, or it is about to read behind the NUL (the end `overrun`, which this does not
-- exclude: a string without its closing quote leads there).
pub for_each_kv-Visits : (doc : Text) → Visits (IsWithin doc) (for_each_kv doc)
unfolding for_each_kv
for_each_kv-Visits doc = from (get_object b'{' doc) (get_object-IsIn b'{' doc)
  where
    from : (o : Option Text) → IsIn doc o → Visits (IsWithin doc) (walk_from o)
    from none h = tt
    from (some t) (h, k) = walk-Visits (length t) doc t h k (omega arith)
