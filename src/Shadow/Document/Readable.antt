-- ===== src/Shadow/Document/Readable.antt =====
-- What the document of an update (uiot/shadow/src/shadow_client_manager.c) says to a reader that
-- uses LITE_json_value_of (uiot/utils/json_token.c).
use ucloud_iot_rtthread_pack.Prelude.{
  ℕ, ◌*◌, ◌^◌, ◌<◌, ◌≡◌, refl, ◌∙◌, arith, List, [], ◌∷◌, true, some, Text, length, ok, codes,
}
use ucloud_iot_rtthread_pack.Codes.{success_ret}
use ucloud_iot_rtthread_pack.Utils.Json.Lookup.{json_value_of}
use ucloud_iot_rtthread_pack.Utils.Json.Printed.{Value, str, obj, print, are_printable, size_fields}
use ucloud_iot_rtthread_pack.Utils.Json.Printed.Lookups.{first_match}
use ucloud_iot_rtthread_pack.Utils.Json.Printed.Paths.{value_text}
use ucloud_iot_rtthread_pack.Utils.Json.Printed.Nested.{IsName, joined, at_path, json_value_of-path}
use ucloud_iot_rtthread_pack.Shadow.Document.{Property, update, make_document}
use ucloud_iot_rtthread_pack.Shadow.Document.Printed.{fields_of, document, make_document-print}

reported_at :
    (p : Property) (ps : List Property) (version : ℕ) (key : Text)
    → at_path (codes "State") (codes "Reported" ∷ key ∷ []) (document p ps version)
      ≡ first_match key (fields_of p ps)
unfolding first_match size_fields
reported_at p ps version key = ground arith

-- Where twice the document fits in the buffer (of fewer than 2^31 bytes), its keys and values are
-- printable and the iterator over the properties can be allocated, the document of an update has the
-- method "update", and "State.Reported" has for a key the first property whose key starts with it.
pub make_document-value :
    (buf_len : ℕ) (p : Property) (ps : List Property) (version : ℕ) (key : Text) (v : Value)
    → buf_len < 2 ^ 31
    → 2 * length (print (obj (document p ps version)) []) < buf_len
    → are_printable (document p ps version) ≡ true
    → IsName key
    → first_match key (fields_of p ps) ≡ some v
    → (doc : Text) × (make_document buf_len true update (p ∷ ps) version ≡ ok (success_ret, doc))
      × (json_value_of (codes "Method") doc ≡ ok (some (codes "update")))
      × (json_value_of (joined (codes "State") (codes "Reported" ∷ key ∷ [])) doc
          ≡ ok (some (value_text v)))
unfolding first_match
make_document-value buf_len p ps version key v m h q n e = (
  print (obj (document p ps version)) [],
  make_document-print buf_len p ps version m h,
  json_value_of-path (codes "Method") [] (document p ps version) [] (str (codes "update"))
      (refl, tt) q refl,
  json_value_of-path (codes "State") (codes "Reported" ∷ key ∷ []) (document p ps version) [] v
      (refl, (refl, (n, tt))) q (reported_at p ps version key ∙ e),
)
