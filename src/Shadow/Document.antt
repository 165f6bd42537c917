-- ===== src/Shadow/Document.antt =====
-- The JSON document of a request to the device shadow: shadow_json_init, shadow_json_set_content and
-- shadow_json_finalize of uiot/shadow/src/shadow_client_manager.c, put_json_node of
-- shadow_client_json.c. The document is the text in a buffer of `buf_len` bytes.
use Prim.Native.String.{String}
use ucloud_iot_rtthread_pack.Prelude.{
  ℕ, ◌+◌, ◌-◌, ◌%◌, ◌^◌, ℤ, pos, negsuc, List, [], ◌∷◌, ◌++◌, Bool, true, false, Option, none, some,
  if◌then◌else◌, ltb, leb, ◌==◌, length, take, Text, codes, Outcome, ok, fault, ◌>>=◌, eq_ℤ,
}
use ucloud_iot_rtthread_pack.Codes.{
  success_ret, err_param_invalid, err_json, err_json_buffer_truncated, err_json_buffer_too_small,
}
use ucloud_iot_rtthread_pack.Mqtt.Act.{signed32}
use ucloud_iot_rtthread_pack.Ota.Message.{decimal}
pub mod Overflow
pub mod Printed
pub mod Readable

pub data Method : Type 0 where
  get_all : Method
  update : Method
  update_and_reset_ver : Method
  delete : Method
  delete_all : Method
  reply_control_update : Method
  reply_control_delete : Method

-- The value of a property by its JsonDataType: the integers, what %f prints, a flag, a string, an
-- object.
pub data Datum : Type 0 where
  integer : ℤ → Datum
  real : Text → Datum
  flag : Bool → Datum
  string : Text → Datum
  object : Text → Datum

-- DeviceProperty: the data is `none` where it is NULL.
pub record Property : Type 0 where
  pub key : Text
  pub value : Option Datum

-- size_t a - b
abbrev pub sub32 : ℕ → ℕ → ℕ
sub32 a b = (a + 2 ^ 32 - b) % 2 ^ 32

-- HAL_Snprintf(doc + off, room, ...): the length of the text, and the document. Bytes behind the
-- buffer are a fault.
abbrev pub stored : ℕ → ℕ → Text → Text → Outcome (ℤ × Text)
stored buf_len off text kept =
    if ltb (off + length kept) buf_len then ok (pos (length text), kept) else fault

unfoldable pub snprintf : ℕ → Text → ℕ → ℕ → Text → Outcome (ℤ × Text)
snprintf buf_len doc off room text =
    if room == 0
    then ok (pos (length text), doc)
    else (stored buf_len off text (take (room - 1) text) >>= λ r. ok (r.0, take off doc ++ r.1))

-- The conversion to size_t.
abbrev pub size_of_int : ℤ → ℕ
size_of_int (pos n) = n
size_of_int (negsuc n) = 2 ^ 32 - 1 - n

abbrev pub is_minus : ℤ → Bool
is_minus (pos n) = false
is_minus (negsuc n) = true

-- _check_snprintf_return: the comparison is one of size_t.
unfoldable pub check_snprintf_return : ℤ → ℕ → ℤ
check_snprintf_return code max_size =
    if leb max_size (size_of_int code)
    then err_json_buffer_truncated
    else if is_minus code
    then err_json
    else success_ret

abbrev pub key_text : Text → Text
key_text key = b'"' ∷ (key ++ codes "\":")

abbrev pub datum_text : Datum → Text
datum_text (integer n) = decimal n ++ codes ","
datum_text (real t) = t ++ codes ","
datum_text (flag b) = if b then codes "1," else codes "0,"
datum_text (string t) = b'"' ∷ (t ++ codes "\",")
datum_text (object t) = t ++ codes ","

abbrev pub value_text : Option Datum → Text
value_text none = codes "null,"
value_text (some d) = datum_text d

abbrev pub method_text : String → Text
method_text name = codes "{\"Method\":\"" ++ (codes name ++ codes "\"")

abbrev pub reported : String → Text
reported name = method_text name ++ codes ",\"State\":{\"Reported\":{"

abbrev pub state_open : String → Text
state_open name = method_text name ++ codes ",\"State\":{"

-- Either text, by `pParams->property_delta_list->len`.
abbrev pub by_delta : List Property → Text → Text → Text
by_delta [] full empty = empty
by_delta (p ∷ ps) full empty = full

abbrev pub opening : Method → List Property → Text
opening get_all ps = method_text "get"
opening update ps = reported "update"
opening update_and_reset_ver ps = reported "update"
opening reply_control_update ps = by_delta ps (reported "update") (state_open "update")
opening delete ps = by_delta ps (reported "delete") (state_open "delete")
opening reply_control_delete ps = by_delta ps (reported "delete") (state_open "delete")
opening delete_all ps = method_text "delete" ++ codes ",\"State\":{\"Reported\":"

abbrev pub node_value : Method → Property → Option Datum
node_value delete p = none
node_value reply_control_delete p = none
node_value _ p = p.value

abbrev pub version_text : ℕ → Text
version_text version = codes ",\"Version\":" ++ (decimal (signed32 version) ++ codes "}")

-- The closing text, and how many bytes of the document it takes the place of.
abbrev pub closing : Method → List Property → ℕ → ℕ × Text
closing get_all ps version = (0, codes "}")
closing delete_all ps version = (0, b'}' ∷ version_text version)
closing update_and_reset_ver ps version = (1, codes "}},\"Version\":-1}")
closing reply_control_update [] version = (0, codes "\"Desired\":null}" ++ version_text version)
closing reply_control_update (p ∷ ps) version =
    (1, codes "},\"Desired\":null}" ++ version_text version)
closing reply_control_delete [] version = (0, codes "\"Desired\":null}" ++ version_text version)
closing reply_control_delete (p ∷ ps) version =
    (1, codes "},\"Desired\":null}" ++ version_text version)
closing update ps version = (1, codes "}}" ++ version_text version)
closing delete ps version = (1, codes "}}" ++ version_text version)

module _ (buf_len : ℕ) where
  -- The code of a write, and the document.
  abbrev pub append : Text → ℕ → Text → Outcome (ℤ × Text)
  append doc room text =
      snprintf buf_len doc (length doc) room text >>= λ r. ok (check_snprintf_return r.0 room, r.1)

  abbrev pub put_value : ℕ → Option Datum → Text → Outcome (ℤ × Text)
  put_value size value doc =
      let room = sub32 size (length doc) in
      if leb room 1 then ok (err_json_buffer_too_small, doc) else append doc room (value_text value)

  unfoldable pub put_json_node : Text → ℕ → Text → Option Datum → Outcome (ℤ × Text)
  put_json_node doc size key value =
      let room = sub32 size (length doc) in
      if leb room 1
      then ok (err_json_buffer_too_small, doc)
      else (append doc room (key_text key) >>= λ r.
          if eq_ℤ r.0 success_ret then put_value size value r.1 else ok r)

  -- shadow_json_init: the result of HAL_Snprintf is not looked at.
  unfoldable pub json_init : Method → List Property → Outcome (ℤ × Text)
  json_init method ps =
      snprintf buf_len [] 0 buf_len (opening method ps) >>= λ r. ok (success_ret, r.1)

  -- The loop over the properties: the room for the next one is passed on as its size, and the
  -- result of put_json_node is not looked at.
  unfoldable pub put_all : Method → Text → ℕ → List Property → Outcome Text
  put_all method doc size [] = ok doc
  put_all method doc size (p ∷ ps) = put_json_node doc size p.key (node_value method p) >>= λ r.
      put_all method r.1 (sub32 buf_len (length r.1)) ps

  -- The properties in shadow_json_set_content, in the order of the iterator. The flag says that the
  -- iterator, which an empty list does not need, could be allocated.
  unfoldable pub put_delta : Bool → Method → List Property → Text → Outcome (ℤ × Text)
  put_delta granted method [] doc = ok (success_ret, doc)
  put_delta false method (p ∷ ps) doc = ok (err_param_invalid, doc)
  put_delta true method (p ∷ ps) doc =
      put_all method doc (sub32 buf_len (length doc)) (p ∷ ps) >>= λ d. ok (success_ret, d)

  -- shadow_json_set_content
  unfoldable pub json_set_content : Bool → Method → List Property → Text → Outcome (ℤ × Text)
  json_set_content granted get_all ps doc = ok (success_ret, doc)
  json_set_content granted delete_all ps doc =
      append doc (sub32 buf_len (length doc)) (codes "null")
  json_set_content granted method ps doc = put_delta granted method ps doc

  -- shadow_json_finalize
  unfoldable pub json_finalize : Method → List Property → ℕ → Text → Outcome (ℤ × Text)
  json_finalize method ps version doc =
      let room = sub32 buf_len (length doc) in
      let (back, text) = closing method ps version in
      if leb room 1
      then ok (err_json_buffer_too_small, doc)
      else (snprintf buf_len doc (length doc - back) room text >>= λ r.
          ok (check_snprintf_return r.0 room, r.1))

  -- The three steps of uiot_shadow_make_request, up to the first that fails.
  unfoldable pub make_document : Bool → Method → List Property → ℕ → Outcome (ℤ × Text)
  make_document granted method ps version = json_init method ps >>= λ a.
      json_set_content granted method ps a.1 >>= λ b.
      if eq_ℤ b.0 success_ret then json_finalize method ps version b.1 else ok b
