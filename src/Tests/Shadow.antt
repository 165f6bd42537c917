-- ===== src/Tests/Shadow.antt =====
-- Instances at concrete documents and messages: the device shadow of uiot/shadow.
use ucloud_iot_rtthread_pack.Prelude.{
  ◌/◌, ◌==◌, ℕ, ◌≡◌, refl, arith, List, [], ◌∷◌, true, false, none, some, pos, Text, codes, ok,
  if◌then◌else◌, ◌*◌, ◌<◌, length, ◌+◌,
}
use ucloud_iot_rtthread_pack.Mqtt.Topic.{str_equal}
use ucloud_iot_rtthread_pack.Codes.{success_ret}
use ucloud_iot_rtthread_pack.Utils.Json.Lookup.{json_value_of}
use ucloud_iot_rtthread_pack.Utils.Json.Printed.{
  num, obj, are_printable, is_printable, print, print_fields,
}
use ucloud_iot_rtthread_pack.Utils.Json.Printed.Nested.{joined}
use ucloud_iot_rtthread_pack.Utils.Json.Printed.Lookups.{first_match}
use ucloud_iot_rtthread_pack.Shadow.Document.{
  Property, string, flag, update, get_all, make_document,
}
use ucloud_iot_rtthread_pack.Shadow.Document.Printed.{document, fields_of}
use ucloud_iot_rtthread_pack.Shadow.Document.Readable.{make_document-value}
use ucloud_iot_rtthread_pack.Shadow.State.{
  Host, St, Shadow, Request, ack_accepted, ack_timeout, answered,
}
use ucloud_iot_rtthread_pack.Shadow.Client.Bounded.{IsSafe}
use ucloud_iot_rtthread_pack.Shadow.Receive.{topic_request_result_handler}
use ucloud_iot_rtthread_pack.Shadow.Api.{
  shadow_yield, check_property_existence, register_property, unregister_property,
}
use ucloud_iot_rtthread_pack.Shadow.Api.Timeouts.{shadow_yield-timeouts}
use ucloud_iot_rtthread_pack.Shadow.Api.Registry.{registered, unregister_property-register_property}
use ucloud_iot_rtthread_pack.Shadow.Client.{find_handler, handle_expired_request}
use ucloud_iot_rtthread_pack.Shadow.Client.Expiry.{handle_expired_request-timeouts}
use ucloud_iot_rtthread_pack.Shadow.Api.Bounded.{
  Call, register, change, wait, call_all, call_all-Keeps,
}
use ucloud_iot_rtthread_pack.Shadow.Receive.Answers.{topic_request_result_handler-reply}

abbrev warmth : Property
warmth = record { key = codes "temperature"; value = none }

abbrev temperature : Property
temperature = record { key = codes "t"; value = some (string (codes "hot")) }

abbrev power : Property
power = record { key = codes "p"; value = some (flag true) }

small : 2 * length (print (obj (document temperature (power ∷ []) 3)) []) < 2048
unfolding print print_fields
small = omega arith

printable : are_printable (document temperature (power ∷ []) 3) ≡ true
unfolding are_printable is_printable
printable = refl

power_at : first_match (codes "p") (fields_of temperature (power ∷ [])) ≡ some (num (codes "1"))
unfolding first_match
power_at = refl

make_document-value_example :
    (doc : Text) × (make_document 2048 true update (temperature ∷ power ∷ []) 3
      ≡ ok (success_ret, doc))
    × (json_value_of (codes "Method") doc ≡ ok (some (codes "update")))
    × (json_value_of (joined (codes "State") (codes "Reported" ∷ codes "p" ∷ [])) doc
        ≡ ok (some (codes "1")))
make_document-value_example =
    make_document-value 2048 temperature (power ∷ []) 3 (codes "p") (num (codes "1")) (omega arith)
      small printable refl power_at

-- A platform whose world is the tick.
abbrev toy : Host
toy = record {
  World = ℕ;
  malloc = λ w. (true, w);
  tick = λ w. (w, w + 1);
  ticks_of_ms = λ n. n;
  topic_fits = λ _. true;
  publish = λ _ _ w. (pos 1, w);
  on_property = λ _ _ _ w. ([], w);
  get_uint32 = λ t. some (length t);
  connected = λ w. (true, w);
  mutex = λ w. (true, w);
  subscribe = λ _ w. (pos 1, w);
  unsubscribe = λ _ w. (pos 1, w);
  yield = λ _ w. (([], pos 0), w);
}

abbrev pending : List Request
pending =
    record { method = get_all; timer = 5; callback = some 1 }
    ∷ record { method = update; timer = 9; callback = some 2 }
    ∷ []

abbrev shadow : Shadow
shadow = record {
  version = 0;
  requests = pending;
  handlers = [];
  freed = false;
  property = λ _. temperature;
  sent_method = get_all;
  received = [];
  events = [];
}

abbrev begun : St ℕ
begun = record { shadow = shadow; world = 7 }

-- The second property stands at address 1.
abbrev served : St ℕ
served = record begun {
  shadow = record shadow { property = λ a. if a == 0 then temperature else power };
}

abbrev calls : List Call
calls = register 0 (some 4) ∷ change (some 5) 1 (some 0 ∷ none ∷ some 1 ∷ []) ∷ wait 200 ∷ []

call_all-Keeps_example : IsSafe (call_all toy calls served)
call_all-Keeps_example = call_all-Keeps toy calls served (omega arith)

unregistered : check_property_existence 1 served.shadow ≡ false
unfolding check_property_existence find_handler
unregistered = refl

unregister_property-register_property_example :
    (register_property toy 1 (some 4) served
      ≡ ok (success_ret, registered toy 1 4 (flag true) 7 7 7 7 served))
    × (unregister_property toy 1 (registered toy 1 4 (flag true) 7 7 7 7 served)
        ≡ ok (success_ret, served))
unregister_property-register_property_example =
    unregister_property-register_property toy 1 4 (flag true) 7 7 7 7 served refl refl refl refl
      refl unregistered

-- A clock that moves on at every hundredth look, and now reads 7.
abbrev slow : Host
slow = record toy { tick = λ w. (w / 100, w + 1) }

abbrev at_seven : St ℕ
at_seven = record begun { world = 700 }

handle_expired_request-timeouts_example :
    handle_expired_request slow at_seven
    ≡ ok (
      tt,
      record {
        shadow = record shadow {
          requests = record { method = update; timer = 9; callback = some 2 } ∷ [];
          events = answered 1 get_all ack_timeout ∷ [];
        };
        world = 702;
      },
    )
handle_expired_request-timeouts_example =
    handle_expired_request-timeouts slow 7 at_seven ((tt, refl), refl)

-- A clock that moves on at every look, behind both timers.
abbrev running : Host
running = record toy { tick = λ w. (w, w + 1) }

abbrev at_twelve : St ℕ
at_twelve = record begun { world = 12 }

shadow_yield-timeouts_example :
    shadow_yield running 200 at_twelve
    ≡ ok (
      pos 0,
      record {
        shadow = record shadow {
          requests = [];
          events = answered 2 update ack_timeout ∷ answered 1 get_all ack_timeout ∷ [];
        };
        world = 14;
      },
    )
shadow_yield-timeouts_example =
    shadow_yield-timeouts running 12 200 at_twelve (pos 0) 12 14 (omega arith) refl
      ((tt, omega arith), omega arith) (omega arith, (omega arith, tt)) refl

abbrev reply : Text
reply = codes "{\"Method\":\"reply\",\"Payload\":{\"RetCode\":0},\"Version\":7}"

-- A platform that reads 0 or 7.
abbrev reading : Host
reading = record toy { get_uint32 = λ t. if str_equal t (codes "0") then some 0 else some 7 }

reply_method_at : json_value_of (codes "Method") reply ≡ ok (some (codes "reply"))
unfolding json_value_of
reply_method_at = refl

reply_version_at : json_value_of (codes "Version") reply ≡ ok (some (codes "7"))
unfolding json_value_of
reply_version_at = refl

reply_code_at : json_value_of (codes "Payload.RetCode") reply ≡ ok (some (codes "0"))
unfolding json_value_of
reply_code_at = refl

reply_zero : reading.get_uint32 (codes "0") ≡ some 0
unfolding str_equal
reply_zero = refl

reply_seven : reading.get_uint32 (codes "7") ≡ some 7
unfolding str_equal
reply_seven = refl

topic_request_result_handler-reply_example :
    topic_request_result_handler reading reply begun
    ≡ ok (
      tt,
      record begun {
        shadow = record shadow {
          version = 7;
          received = reply;
          requests = [];
          events = answered 2 update ack_accepted ∷ answered 1 get_all ack_accepted ∷ [];
        };
      },
    )
topic_request_result_handler-reply_example =
    topic_request_result_handler-reply reading reply (codes "0") 0 reply_code_at reply_zero reply
      (codes "7") 7 begun (omega arith) refl reply_method_at reply_version_at reply_seven
