-- ===== src/Shadow/Document/Printed.antt =====
-- The document of an update (uiot/shadow/src/shadow_client_manager.c) is the print of a JSON object,
-- and the lookups of uiot/utils/json_token.c find the properties in it.
use ucloud_iot_rtthread_pack.Prelude.{
  ℕ, ◌+◌, ◌-◌, ◌*◌, ◌^◌, ◌<◌, ◌≤◌, ◌≡◌, refl, sym, ap, ◌∙◌, arith, List, [], ◌∷◌, ◌++◌,
  append_assoc, append-nil, Text, Option, none, some, length, length-append, take, take_short,
  take-length, take-append, leb, if◌then◌else◌, true, false, ok, pos, codes,
}
use ucloud_iot_rtthread_pack.Codes.{success_ret}
use ucloud_iot_rtthread_pack.Mqtt.Act.{signed32}
use ucloud_iot_rtthread_pack.Ota.Message.{decimal}
use ucloud_iot_rtthread_pack.Utils.Json.Printed.{
  Value, str, num, obj, Fields, one, more, print, print_fields,
}
use ucloud_iot_rtthread_pack.Utils.Json.Printed.Paths.{print-append}
use ucloud_iot_rtthread_pack.Shadow.Document.{
  Datum, integer, real, flag, string, object, Property, update, sub32, snprintf,
  check_snprintf_return, key_text, value_text, append, reported, version_text, make_document,
  json_init, json_set_content, json_finalize, put_json_node, put_all, put_delta,
}

snprintf_fits :
    (buf_len : ℕ) (doc : Text) (off room : ℕ) (text : Text)
    → length text < room
    → off + length text < buf_len
    → snprintf buf_len doc off room text ≡ ok (pos (length text), take off doc ++ text)
unfolding snprintf
snprintf_fits buf_len doc off room text h k = ground (arith, take_short (room - 1) text)

check_fits : (n room : ℕ) → n < room → check_snprintf_return (pos n) room ≡ success_ret
unfolding check_snprintf_return
check_fits n room h = ground arith

append_fits :
    (buf_len : ℕ) (doc : Text) (room : ℕ) (text : Text)
    → length text < room
    → length doc + length text < buf_len
    → append buf_len doc room text ≡ ok (success_ret, doc ++ text)
append_fits buf_len doc room text h k =
    rw (snprintf_fits buf_len doc (length doc) room text h k)
      (rw (check_fits (length text) room h, take-length doc))

put_fits :
    (buf_len : ℕ) (doc key : Text) (v : Option Datum) (size : ℕ)
    → size ≡ sub32 buf_len (length doc)
    → buf_len < 2 ^ 31
    → 2 * length doc + length (key_text key) + length (value_text v) + 1 < buf_len
    → put_json_node buf_len doc size key v ≡ ok (success_ret, (doc ++ key_text key) ++ value_text v)
unfolding put_json_node
put_fits buf_len doc key v size e m h =
    let after = doc ++ key_text key in
    let len = length-append doc (key_text key) in
    let wide : leb (sub32 size (length doc)) 1 ≡ false = ground arith in
    let wide' : leb (sub32 size (length after)) 1 ≡ false = ground (arith, len) in
    rw (
      wide,
      append_fits buf_len doc (sub32 size (length doc)) (key_text key) (omega arith) (omega arith),
      wide',
      append_fits buf_len after (sub32 size (length after)) (value_text v) (omega (arith, len))
          (omega (arith, len)),
    )

-- What put_json_node writes for the properties.
abbrev body : List Property → Text
body [] = []
body (p ∷ ps) = key_text p.key ++ (value_text p.value ++ body ps)

put_all_fits :
    (buf_len : ℕ) (doc : Text) (ps : List Property)
    → buf_len < 2 ^ 31
    → 2 * length doc + 2 * length (body ps) + 1 < buf_len
    → put_all buf_len update doc (sub32 buf_len (length doc)) ps ≡ ok (doc ++ body ps)
unfolding put_all
put_all_fits buf_len doc [] m h = ap ok (sym (append-nil doc))
put_all_fits buf_len doc (p ∷ ps) m h =
    let key = key_text p.key in
    let text = value_text p.value in
    let doc' = (doc ++ key) ++ text in
    rw
      (put_fits buf_len doc p.key p.value (sub32 buf_len (length doc)) refl m
        (omega (arith, length-append key (text ++ body ps), length-append text (body ps))))
      (put_all_fits buf_len doc' ps m (
          omega (
            arith,
            length-append key (text ++ body ps),
            length-append text (body ps),
            length-append (doc ++ key) text,
            length-append doc key,
          ))
        ∙ ap ok (append_assoc (doc ++ key) text (body ps) ∙ append_assoc doc key (text ++ body ps)))

-- A value as JSON. What is not a plain string or a number of digits is not printable.
abbrev pub value_of : Option Datum → Value
value_of none = num (codes "null")
value_of (some (integer n)) = num (decimal n)
value_of (some (real t)) = num t
value_of (some (flag b)) = num (if b then codes "1" else codes "0")
value_of (some (string t)) = str t
value_of (some (object t)) = num t

abbrev pub fields_of : Property → List Property → Fields
fields_of p [] = one p.key (value_of p.value)
fields_of p (q ∷ qs) = more p.key (value_of p.value) (fields_of q qs)

value_text-print : (v : Option Datum) → value_text v ≡ print (value_of v) [] ++ codes ","
unfolding print
value_text-print none = refl
value_text-print (some (integer n)) = rw append-nil
value_text-print (some (real t)) = rw append-nil
value_text-print (some (flag true)) = refl
value_text-print (some (flag false)) = refl
value_text-print (some (string t)) = ap (◌∷◌ b'"') (sym (append_assoc t (b'"' ∷ []) (codes ",")))
value_text-print (some (object t)) = rw append-nil

-- The properties with commas between them.
abbrev bare : Property → List Property → Text
bare p [] = key_text p.key ++ print (value_of p.value) []
bare p (q ∷ qs) = key_text p.key ++ (print (value_of p.value) [] ++ b',' ∷ bare q qs)

-- A value with its comma, in front of a text.
text-split : (v : Option Datum) (r : Text) → value_text v ++ r ≡ print (value_of v) [] ++ b',' ∷ r
text-split v r =
    ap (λ t. t ++ r) (value_text-print v) ∙ append_assoc (print (value_of v) []) (codes ",") r

key-split : (k r : Text) → key_text k ++ r ≡ b'"' ∷ (k ++ b'"' ∷ b':' ∷ r)
key-split k r = ap (◌∷◌ b'"') (append_assoc k (codes "\":") r)

body-bare : (p : Property) (ps : List Property) → body (p ∷ ps) ≡ bare p ps ++ codes ","
body-bare p [] =
    ap (λ t. key_text p.key ++ t) (text-split p.value [])
    ∙ sym (append_assoc (key_text p.key) (print (value_of p.value) []) (codes ","))
body-bare p (q ∷ qs) =
    let pr = print (value_of p.value) [] in
    ap (λ t. key_text p.key ++ t)
      (text-split p.value (body (q ∷ qs))
        ∙ (ap (λ t. pr ++ b',' ∷ t) (body-bare q qs)
            ∙ sym (append_assoc pr (b',' ∷ bare q qs) (codes ","))))
    ∙ sym (append_assoc (key_text p.key) (pr ++ b',' ∷ bare q qs) (codes ","))

print_fields-bare :
    (p : Property) (ps : List Property) (rest : Text)
    → print_fields (fields_of p ps) rest ≡ bare p ps ++ b'}' ∷ rest
unfolding print_fields
print_fields-bare p [] rest =
    let pr = print (value_of p.value) [] in
    sym (key-split p.key (print (value_of p.value) (b'}' ∷ rest)))
    ∙ (ap (λ t. key_text p.key ++ t) (print-append (value_of p.value) [] (b'}' ∷ rest))
        ∙ sym (append_assoc (key_text p.key) pr (b'}' ∷ rest)))
print_fields-bare p (q ∷ qs) rest =
    let pr = print (value_of p.value) [] in
    let inner = print_fields (fields_of q qs) rest in
    sym (key-split p.key (print (value_of p.value) (b',' ∷ inner)))
    ∙ (ap (λ t. key_text p.key ++ t)
          (print-append (value_of p.value) [] (b',' ∷ inner)
            ∙ (ap (λ t. pr ++ b',' ∷ t) (print_fields-bare q qs rest)
                ∙ sym (append_assoc pr (b',' ∷ bare q qs) (b'}' ∷ rest))))
        ∙ sym (append_assoc (key_text p.key) (pr ++ b',' ∷ bare q qs) (b'}' ∷ rest)))

-- The document of an update.
abbrev pub document : Property → List Property → ℕ → Fields
document p ps version = more (codes "Method") (str (codes "update")) (
    more (codes "State") (obj (one (codes "Reported") (obj (fields_of p ps))))
      (one (codes "Version") (num (decimal (signed32 version)))))

document-print :
    (p : Property) (ps : List Property) (version : ℕ)
    → print (obj (document p ps version)) []
      ≡ reported "update" ++ (bare p ps ++ (codes "}}" ++ version_text version))
unfolding print print_fields
document-print p ps version =
    ap (λ t. reported "update" ++ t)
      (print_fields-bare p ps
        (b'}' ∷ b',' ∷ print_fields (one (codes "Version") (num (decimal (signed32 version)))) []))

body-length : (p : Property) (ps : List Property) → length (body (p ∷ ps)) ≡ length (bare p ps) + 1
body-length p ps = ap length (body-bare p ps) ∙ length-append (bare p ps) (codes ",")

-- Without the last comma.
take-bare :
    (front : Text) (p : Property) (ps : List Property)
    → take (length (front ++ body (p ∷ ps)) - 1) (front ++ body (p ∷ ps)) ≡ front ++ bare p ps
take-bare front p ps =
    let whole = front ++ bare p ps in
    let split : front ++ body (p ∷ ps) ≡ whole ++ codes "," =
      ap (λ t. front ++ t) (body-bare p ps) ∙ sym (append_assoc front (bare p ps) (codes ",")) in
    rw split (
      ap (λ n. take n (whole ++ codes ",")) (omega (arith, length-append whole (codes ",")))
      ∙ take-append whole (codes ","))

document-length :
    (p : Property) (ps : List Property) (version : ℕ)
    → length (print (obj (document p ps version)) [])
      ≡ length (reported "update")
        + length (bare p ps)
        + length (codes "}}" ++ version_text version)
document-length p ps version =
    ap length (document-print p ps version)
    ∙ omega (
      arith,
      length-append (reported "update") (bare p ps ++ (codes "}}" ++ version_text version)),
      length-append (bare p ps) (codes "}}" ++ version_text version),
    )

room_left : (buf_len n : ℕ) → n + 2 ≤ buf_len → buf_len < 2 ^ 31 → leb (sub32 buf_len n) 1 ≡ false
room_left buf_len n h m = ground arith

-- The closing text takes the place of the last comma.
finalize_fits :
    (buf_len : ℕ) (p : Property) (ps : List Property) (version : ℕ)
    → buf_len < 2 ^ 31
    → 2 * length (print (obj (document p ps version)) []) < buf_len
    → json_finalize buf_len update (p ∷ ps) version (reported "update" ++ body (p ∷ ps))
      ≡ ok (success_ret, print (obj (document p ps version)) [])
unfolding json_finalize
finalize_fits buf_len p ps version m h =
    let doc = reported "update" ++ body (p ∷ ps) in
    let text = codes "}}" ++ version_text version in
    let size : length doc ≡ length (reported "update") + length (bare p ps) + 1 =
      omega (arith, length-append (reported "update") (body (p ∷ ps)), body-length p ps) in
    let total = document-length p ps version in
    let wide : leb (sub32 buf_len (length doc)) 1 ≡ false =
      room_left buf_len (length doc) (omega (arith, size, total)) m in
    rw
      (
        wide,
        snprintf_fits buf_len doc (length doc - 1) (sub32 buf_len (length doc)) text
            (omega (arith, size, total)) (omega (arith, size, total)),
        check_fits (length text) (sub32 buf_len (length doc)) (omega (arith, size, total)),
        take-bare (reported "update") p ps,
      )
      (ap (λ t. ok (success_ret, t))
        (append_assoc (reported "update") (bare p ps) text ∙ sym (document-print p ps version)))

-- Where twice the document fits in the buffer, the three steps give the print of the object of an
-- update, for every properties.
pub make_document-print :
    (buf_len : ℕ) (p : Property) (ps : List Property) (version : ℕ)
    → buf_len < 2 ^ 31
    → 2 * length (print (obj (document p ps version)) []) < buf_len
    → make_document buf_len true update (p ∷ ps) version
      ≡ ok (success_ret, print (obj (document p ps version)) [])
unfolding make_document json_init json_set_content put_delta
make_document-print buf_len p ps version m h =
    let total = document-length p ps version in
    rw (
      snprintf_fits buf_len [] 0 buf_len (reported "update") (omega (arith, total))
          (omega (arith, total)),
      put_all_fits buf_len (reported "update") (p ∷ ps) m (omega (arith, total, body-length p ps)),
      finalize_fits buf_len p ps version m h,
    )
