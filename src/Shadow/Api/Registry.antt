-- ===== src/Shadow/Api/Registry.antt =====
-- The registration of properties (uiot/shadow/src/shadow_client.c and shadow_client_common.c).
use ucloud_iot_rtthread_pack.Prelude.{
  ℕ, ◌≡◌, refl, ap, List, [], ◌∷◌, ◌++◌, Bool, true, false, Bool-cases, inl, inr, some,
  if◌then◌else◌, Text, ok,
}
use ucloud_iot_rtthread_pack.Codes.{success_ret}
use ucloud_iot_rtthread_pack.Mqtt.Topic.{str_equal}
use ucloud_iot_rtthread_pack.Mqtt.Topic.Matching.{str_equal_iff}
use ucloud_iot_rtthread_pack.Shadow.Document.{Datum, Property}
use ucloud_iot_rtthread_pack.Shadow.State.{Handler, Host, St}
use ucloud_iot_rtthread_pack.Shadow.Client.{find_handler}
use ucloud_iot_rtthread_pack.Shadow.Api.{
  is_found, check_property_existence, drop_handler, add_property_handle, register_property_on_delta,
  register_property, remove_property, unregister_property,
}

module _ (property : ℕ → Property) (new : Handler) where
  abbrev key : Text
  key = (property new.property).key

  same : str_equal key key ≡ true
  same = (str_equal_iff key key).1 refl

  found-last : (hs : List Handler) → is_found (find_handler property key (hs ++ new ∷ [])) ≡ true
  unfolding find_handler
  found-last [] = rw same
  found-last (h ∷ hs) = elim (Bool-cases (str_equal (property h.property).key key)) [
    | inl e ↦ rw e
    | inr e ↦ rw e (found-last hs)
  ]

  drop_handler-last :
      (hs : List Handler)
      → is_found (find_handler property key hs) ≡ false
      → drop_handler property key (hs ++ new ∷ []) ≡ hs
  unfolding find_handler drop_handler
  drop_handler-last [] e = rw same
  drop_handler-last (h ∷ hs) e =
      other (str_equal (property h.property).key key) e (drop_handler-last hs)
    where
      other :
          (b : Bool)
          → is_found (if b then some h else find_handler property key hs) ≡ false
          → (is_found (find_handler property key hs) ≡ false
              → drop_handler property key (hs ++ new ∷ []) ≡ hs)
          → (if b then hs ++ new ∷ [] else h ∷ drop_handler property key (hs ++ new ∷ [])) ≡ h ∷ hs
      other true n k = cc
      other false n k = ap (◌∷◌ h) (k n)

module _ (p : Host) (a f : ℕ) (d : Datum) (w₁ w₂ w₃ w₄ : p.World) where
  abbrev pub registered : St p.World → St p.World
  registered s = record s {
    shadow = record s.shadow {
      handlers = s.shadow.handlers ++ record { property = a; callback = some f } ∷ [];
    };
    world = w₃;
  }

  removed :
      (s : St p.World)
      → check_property_existence a s.shadow ≡ false
      → remove_property p a (record (registered s) { world = w₄ })
        ≡ ok (success_ret, record s { world = w₄ })
  unfolding remove_property check_property_existence
  removed s e =
      let new : Handler = record { property = a; callback = some f } in
      rw (
        found-last s.shadow.property new s.shadow.handlers,
        drop_handler-last s.shadow.property new s.shadow.handlers e,
      )

  -- Where the client stays connected and there is memory: a property with a value, whose key is not
  -- registered, can be registered with a callback, and its removal takes the shadow back to where it
  -- was.
  pub unregister_property-register_property :
      (s : St p.World)
      → p.connected s.world ≡ (true, w₁)
      → p.malloc w₁ ≡ (true, w₂)
      → p.malloc w₂ ≡ (true, w₃)
      → p.connected w₃ ≡ (true, w₄)
      → (s.shadow.property a).value ≡ some d
      → check_property_existence a s.shadow ≡ false
      → (register_property p a (some f) s ≡ ok (success_ret, registered s))
        × (unregister_property p a (registered s) ≡ ok (success_ret, record s { world = w₄ }))
  unfolding register_property unregister_property register_property_on_delta add_property_handle
      check_property_existence
  unregister_property-register_property s c m n k v e =
      let new : Handler = record { property = a; callback = some f } in
      (rw (c, e, v, m, n), rw (k, found-last s.shadow.property new s.shadow.handlers, removed s e))
