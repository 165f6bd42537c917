-- ===== src/Utils/Json/Scan.antt =====
-- json_get_object and json_get_next_object of uiot/utils/json_parser.c, and the macro
-- json_object_for_each_kv of json_parser.h. A pointer into the document is the rest of it, up to its
-- NUL; a pointer behind the NUL is `beyond`.
use ucloud_iot_rtthread_pack.Prelude.{
  ℕ, zero, suc, ◌+◌, ◌-◌, [], ◌∷◌, Bool, true, false, Option, none, some, if◌then◌else◌, ◌&&◌, ◌||◌,
  leb, ◌==◌, length, Text, codes, strchr, strncmp_eq,
}

pub data JsonType : Type 0 where
  js_none : JsonType
  js_string : JsonType
  js_object : JsonType
  js_array : JsonType
  js_number : JsonType
  js_boolean : JsonType
  js_null : JsonType

pub data Pointer : Type 0 where
  at : Text → Pointer
  beyond : Pointer

abbrev pub advance : ℕ → Text → Pointer
advance zero s = at s
advance (suc n) [] = beyond
advance (suc n) (c ∷ s) = advance n s

-- json_get_object: the bracket behind the spaces, or NULL.
unfoldable pub get_object : ℕ → Text → Option Text
get_object ch [] = none
get_object ch (c ∷ s) =
    let rest = get_object ch s in if c == b' ' then rest else if c == ch then some (c ∷ s) else none

abbrev pub is_digit : ℕ → Bool
is_digit c = leb b'0' c && leb c b'9'

-- iValueType, p_cValue and p_cPos behind the first loop.
pub data Found : Type 0 where
  nothing : Found
  found : JsonType → Text → Text → Found

unfoldable pub find_value : Text → Found
find_value [] = nothing
find_value (c ∷ s) =
    let rest = find_value s in
    if c == b'"'
    then found js_string s s
    else if c == b'{'
    then found js_object (c ∷ s) s
    else if c == b'['
    then found js_array (c ∷ s) s
    else if c == b'-' || is_digit c
    then found js_number (c ∷ s) s
    else if c == b't' || (c == b'T' || (c == b'f' || c == b'F'))
    then found js_boolean (c ∷ s) (c ∷ s)
    else if c == b'n' || c == b'N'
    then found js_null (c ∷ s) (c ∷ s)
    else rest

-- The number that starts `n` bytes before `s`: one that runs up to the NUL has the length 0.
unfoldable pub number_len : ℕ → Text → ℕ
number_len n [] = 0
number_len n (c ∷ s) =
    let rest = number_len (suc n) s in if is_digit c || c == b'.' then rest else n

-- How far the mark that closes at depth 0 is behind a place that is `n` bytes behind p_cValue: 0
-- where there is none. `extra` is 1 for the brackets, which belong to the value.
unfoldable pub marked_len : ℕ → ℕ → ℕ → ℕ → ℕ → Text → ℕ
marked_len opening closing extra depth n [] = 0
marked_len opening closing extra depth n (c ∷ s) = elim (c == closing) [
  | true ↦ elim depth [ zero ↦ n + extra | suc d ↦ marked_len opening closing extra d (suc n) s ]
  | false ↦ marked_len opening closing extra (if c == opening then suc depth else depth) (suc n) s
]

-- `len >= n && (!strncmp(s, lower, n) || !strncmp(s, upper, n))`
abbrev pub spells : Text → Text → ℕ → Text → Bool
spells lower upper n s = leb n (length s) && (strncmp_eq s lower n || strncmp_eq s upper n)

abbrev pub first_is : ℕ → ℕ → Text → Bool
first_is a b [] = false
first_is a b (c ∷ s) = c == a || c == b

abbrev pub boolean_len : Text → ℕ
boolean_len s =
    if first_is b't' b'T' s && spells (codes "true") (codes "TRUE") 4 s
    then 4
    else if first_is b'f' b'F' s && spells (codes "false") (codes "FALSE") 5 s
    then 5
    else 0

abbrev pub null_len : Text → ℕ
null_len s = if first_is b'n' b'N' s && spells (codes "null") (codes "NULL") 4 s then 4 else 0

-- iValueLen behind the second loop.
unfoldable pub value_len : JsonType → Text → Text → ℕ
unfolding number_len marked_len
value_len js_none value pos = 0
value_len js_string value pos = marked_len b'"' b'"' 0 0 0 pos
value_len js_object value pos = marked_len b'{' b'}' 1 0 1 pos
value_len js_array value pos = marked_len b'[' b']' 1 0 1 pos
value_len js_number value pos = number_len 1 pos
value_len js_boolean value pos = boolean_len value
value_len js_null value pos = null_len value

-- What a call that does not return 0 stores: the pointers with their lengths, and the type.
pub record Entry : Type 0 where
  pub key : Text
  pub key_len : ℕ
  pub val : Text
  pub val_len : ℕ
  pub val_type : JsonType

pub data Next : Type 0 where
  ended : Next
  entry : Entry → Pointer → Next

-- `p_cValue + iValueLen + 1` for a string, and else `p_cValue + iValueLen`
abbrev pub behind : JsonType → ℕ → Text → Pointer
behind js_string n value = advance (suc n) value
behind _ n value = advance n value

-- The part behind the key.
unfoldable pub next_value : Text → ℕ → Found → Next
next_value key key_len nothing = ended
next_value key key_len (found type value pos) =
    let n = value_len type value pos in
    entry (record { key = key; key_len = key_len; val = value; val_len = n; val_type = type })
      (behind type n value)

-- `p_cPos = strchr(p_cPos, ':');` and the search from there: NULL ends it.
unfoldable pub find_behind_colon : Option Text → Found
find_behind_colon none = nothing
find_behind_colon (some pos) = find_value pos

unfoldable pub key_ends : Text → Option Text → Next
key_ends key none = ended
key_ends key (some pos) =
    next_value key (length key - length pos) (find_behind_colon (strchr pos b':'))

unfoldable pub key_begins : Option Text → Next
key_begins none = ended
key_begins (some []) = ended
key_begins (some (c ∷ key)) = key_ends key (strchr key b'"')

-- json_get_next_object for an object.
unfoldable pub get_next_object : Text → Next
unfolding find_value value_len next_value find_behind_colon key_ends key_begins
get_next_object str = key_begins (strchr str b'"')

-- The entries that json_object_for_each_kv visits, with how the loop goes on where the body does
-- not leave it: it ends, reads behind the NUL, or exceeds the fuel.
pub data Walk : Type 0 where
  finished : Walk
  overrun : Walk
  spent : Walk
  visit : Entry → Walk → Walk

abbrev pub go_on : (Text → Walk) → Next → Walk
go_on walk ended = finished
go_on walk (entry e beyond) = visit e overrun
go_on walk (entry e (at [])) = visit e finished
go_on walk (entry e (at (c ∷ s))) = visit e (walk (c ∷ s))

unfoldable pub walk : ℕ → Text → Walk
unfolding get_next_object
walk zero s = spent
walk (suc fuel) s = go_on (walk fuel) (get_next_object s)

abbrev pub walk_from : Option Text → Walk
walk_from none = finished
walk_from (some s) = walk (length s) s

-- json_object_for_each_kv, with a round for every byte.
unfoldable pub for_each_kv : Text → Walk
unfolding get_object walk
for_each_kv str = walk_from (get_object b'{' str)
