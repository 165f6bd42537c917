-- ===== src/Tests/Json.antt =====
-- Instances at concrete documents: the JSON lookups of uiot/utils, and the update messages of uiot/ota.
use ucloud_iot_rtthread_pack.Prelude.{
  ℕ, ◌≡◌, refl, arith, [], ◌∷◌, ◌++◌, ◌+◌, true, false, Option, none, some, length, Text, codes,
  Outcome, ok, err, fault,
}
use ucloud_iot_rtthread_pack.Utils.Json.Lookup.{json_value_of, parse_name_value, Callback}
use ucloud_iot_rtthread_pack.Utils.Json.Printed.{
  str, num, obj, Fields, one, more, print, are_printable, is_printable, size_fields,
}
use ucloud_iot_rtthread_pack.Utils.Json.Printed.Paths.{value_text}
use ucloud_iot_rtthread_pack.Utils.Json.Printed.Nested.{
  joined, at_path, json_value_of-path, json_value_of-print,
}
use ucloud_iot_rtthread_pack.Utils.Json.Printed.Lookups.{first_match}
use ucloud_iot_rtthread_pack.Utils.Json.Printed.Escape.{json_value_of_escapes}
use ucloud_iot_rtthread_pack.Utils.Json.Inside.{Visits, IsWithin, for_each_kv-Visits}
use ucloud_iot_rtthread_pack.Utils.Json.Faults.{unterminated, parse_name_value_overrun}
use ucloud_iot_rtthread_pack.Utils.Json.Scan.{for_each_kv}
use ucloud_iot_rtthread_pack.Ota.State.{Platform}
use ucloud_iot_rtthread_pack.Ota.Callback.Params.{Update}
use ucloud_iot_rtthread_pack.Tests.Ota.{toy}
use mathlib.Core.Option

for_each_kv-Visits_example :
    Visits (IsWithin (codes "{\"a\":1,\"b\":[2]}")) (for_each_kv (codes "{\"a\":1,\"b\":[2]}"))
for_each_kv-Visits_example = for_each_kv-Visits (codes "{\"a\":1,\"b\":[2]}")

-- A callback that counts the entries.
abbrev keep : Callback ℕ
keep e n = (false, n + 1)

nested :
    are_printable (
      more
        (codes "a")
        (obj (one (codes "x") (num (codes "1"))))
        (one (codes "b") (num (codes "2"))))
    ≡ true
unfolding are_printable is_printable
nested = refl

absent : first_match (codes "b") (one (codes "x") (num (codes "1"))) ≡ none
unfolding first_match
absent = refl

present : first_match (codes "b") (one (codes "b") (num (codes "2"))) ≡ some (num (codes "2"))
unfolding first_match
present = refl

abbrev payload_fields : Fields
payload_fields = more (codes "Module") (str (codes "m")) (
    more (codes "Version") (str (codes "1.0")) (
      more (codes "URL") (str (codes "http://h/f"))
        (more (codes "MD5") (str (codes "abc")) (one (codes "Size") (num (codes "3"))))))

-- {"Method":"update_firmware","Payload":{"Module":"m",...}}
abbrev message : Fields
message =
    more (codes "Method") (str (codes "update_firmware"))
      (one (codes "Payload") (obj payload_fields))

message_printable : are_printable message ≡ true
unfolding are_printable is_printable
message_printable = refl

message_url : at_path (codes "Payload") (codes "URL" ∷ []) message ≡ some (str (codes "http://h/f"))
unfolding first_match print size_fields
message_url = refl

json_value_of-path_example :
    json_value_of (joined (codes "Payload") (codes "URL" ∷ [])) (print (obj message) (codes " "))
    ≡ ok (some (codes "http://h/f"))
json_value_of-path_example =
    json_value_of-path (codes "Payload") (codes "URL" ∷ []) message (codes " ")
      (str (codes "http://h/f")) (refl, (refl, tt)) message_printable message_url

-- The same by running the model.
message_method :
    json_value_of (codes "Method") (codes "{\"Method\":\"cancel_update\"}")
    ≡ ok (some (codes "cancel_update"))
unfolding json_value_of
message_method = refl

-- "Meth" is a prefix of the key.
json_value_of-print_example :
    json_value_of (codes "Meth") (print (obj message) [])
    ≡ ok (Option.map value_text (first_match (codes "Meth") message))
json_value_of-print_example = json_value_of-print (codes "Meth") message refl message_printable

meth : first_match (codes "Meth") message ≡ some (str (codes "update_firmware"))
unfolding first_match
meth = refl

json_value_of_escapes_example :
    (at_path (codes "a") (codes "b" ∷ []) (
        more
          (codes "a")
          (obj (one (codes "x") (num (codes "1"))))
          (one (codes "b") (num (codes "2"))))
      ≡ none)
    × (json_value_of (codes "a" ++ b'.' ∷ codes "b") (
          print
            (obj (
              more
                (codes "a")
                (obj (one (codes "x") (num (codes "1"))))
                (one (codes "b") (num (codes "2")))))
            [])
        ≡ ok (some (codes "2")))
json_value_of_escapes_example =
    json_value_of_escapes (codes "a") (codes "b") (one (codes "x") (num (codes "1")))
      (one (codes "b") (num (codes "2"))) (num (codes "2")) (refl, (refl, tt)) nested (omega arith)
      absent present

parse_name_value_overrun_example :
    parse_name_value (unterminated (codes "key")) (length (unterminated (codes "key"))) keep 0
    ≡ fault
parse_name_value_overrun_example = parse_name_value_overrun (codes "key") keep 0 refl

abbrev answer : Outcome (Option Text) → Option Text
answer (ok v) = v
answer (err e) = none
answer fault = none

-- The platform with the lookup of json_token.c.
abbrev reading : Platform
reading = record toy { json_value_of = λ k t. answer (json_value_of k t); get_uint32 = λ t. some 3 }

abbrev update : Update
update = record {
  name = str (codes "m");
  version = str (codes "1.0");
  url = str (codes "http://h/f");
  md5 = str (codes "abc");
  size = num (codes "3");
}
