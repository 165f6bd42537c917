-- ===== src/Ota/Callback/States.antt =====
-- The states that _ota_callback (uiot/ota/src/ota_client.c) can leave behind.
use ucloud_iot_rtthread_pack.Prelude.{
  Text, ℕ, zero, suc, ◌≡◌, refl, ◌∙◌, ◌⊎◌, inl, inr, List, [], ◌∷◌, Bool, true, false, ℤ, pos,
  Option, some, none, eq_ℤ, ◌&&◌, if◌then◌else◌,
}
use ucloud_iot_rtthread_pack.Codes.{success_ret}
use ucloud_iot_rtthread_pack.Mqtt.Topic.{str_equal}
use ucloud_iot_rtthread_pack.Ota.State.{
  OtaState, inited, fetching, disconnected, FetchChannel, null, open_at, freed, Platform, Act, St,
  Answer, done, fault, spent, ◌>>◌, pure, crash, outside, set_state, is_fetching,
}
use ucloud_iot_rtthread_pack.Ota.Ensures.{Ensures, >>=-Ensures, if-Ensures, Ensures-mono}
use ucloud_iot_rtthread_pack.Ota.Fetch.{
  ofc_init, ofc_connect, ofc_deinit, connect_channel, close_channel,
}
use ucloud_iot_rtthread_pack.Ota.Download.{fw_download, download_body, clear, reset}
use ucloud_iot_rtthread_pack.Ota.Callback.{
  field_of, store_size, get_params, push_upload_msg, pop_first, pop_upload_msg, cancel_if,
  cancel_named, close_http, handle_cancel, run_download, start_update, handle_method,
  handle_message, ota_callback, until_nul, is_null, same_text, type_field, module_field,
  version_field, update_firmware_method, cancel_update_method,
}

abbrev pub Settled : OtaState → Type 0
Settled q = (q ≡ inited) ⊎ (q ≡ disconnected)

-- The state is as before, or the machine has come to rest.
abbrev pub Moves : {W : Type 0} → St W → St W → Type 0
Moves s t = (t.ota.state ≡ s.ota.state) ⊎ Settled t.ota.state

-- Nothing is claimed.
pub Ensures-any : {W A : Type 0} (r : Answer W A) → Ensures Unit r (λ a t. Unit)
Ensures-any (done a t) = tt
Ensures-any fault = tt
Ensures-any spent = tt

module _ (p : Platform) where
  abbrev Keeps : {A : Type 0} → St p.World → A → St p.World → Type 0
  Keeps s a t = t.ota.state ≡ s.ota.state

  clear-inited : (s : St p.World) → Ensures Unit (clear p s) (λ _ t. t.ota.state ≡ inited)
  unfolding clear ofc_deinit
  clear-inited s = cleared s.ota.ch_fetch
    where
      cleared :
          (ch : FetchChannel)
          → Ensures Unit ((close_channel p ch >> reset p) s) (λ _ t. t.ota.state ≡ inited)
      cleared null = tt
      cleared freed = tt
      cleared (open_at r) = refl

  -- However IOT_OTA_fw_download ends, IOT_OTA_Clear has set the state to INITED.
  pub fw_download-inited :
      (rounds : ℕ) (deliver : Text → Act p.World (Unit {0})) (s : St p.World)
      → Ensures Unit (fw_download p rounds deliver s) (λ ret t. t.ota.state ≡ inited)
  unfolding fw_download
  fw_download-inited rounds deliver s =
      >>=-Ensures Unit (download_body p rounds deliver) _ s (λ ret t. Unit)
        (λ ret t. t.ota.state ≡ inited) (Ensures-any (download_body p rounds deliver s))
        λ ret t _.
          >>=-Ensures Unit (clear p) _ t (λ _ u. u.ota.state ≡ inited)
            (λ ret u. u.ota.state ≡ inited) (clear-inited t) λ _ u h. h

  field_of-Keeps :
      (v : Option Text) (next : Text → Act p.World ℤ) (s t : St p.World)
      → t.ota.state ≡ s.ota.state
      → ((x : Text) → Ensures Unit (next x t) (Keeps s))
      → Ensures Unit (field_of p v next t) (Keeps s)
  field_of-Keeps none next s t e h = e
  field_of-Keeps (some x) next s t e h = h x

  store_size-Keeps :
      (n : Option ℕ) (s t : St p.World)
      → t.ota.state ≡ s.ota.state
      → Ensures Unit (store_size p n t) (Keeps s)
  store_size-Keeps none s t e = e
  store_size-Keeps (some n) s t e = e

  get_params-Keeps : (json : Text) (s : St p.World) → Ensures Unit (get_params p json s) (Keeps s)
  unfolding get_params
  get_params-Keeps json s = field_of-Keeps (p.json_value_of _ json) _ s _ refl λ a.
      field_of-Keeps (p.json_value_of _ json) _ s _ refl λ b.
        field_of-Keeps (p.json_value_of _ json) _ s _ refl λ c.
          field_of-Keeps (p.json_value_of _ json) _ s _ refl λ d.
            field_of-Keeps (p.json_value_of _ json) _ s _ refl
              λ e. store_size-Keeps (p.get_uint32 e) s _ refl

  push_upload_msg-Keeps :
      (m : Text) (s : St p.World) → Ensures Unit (push_upload_msg p m s) (Keeps s)
  unfolding push_upload_msg
  push_upload_msg-Keeps m s =
      let made = p.malloc s.world in
      let u : St p.World = record s { world = made.1 } in
      >>=-Ensures Unit (if made.0 then pure tt else crash) _ u (Keeps s) (Keeps s)
        (if-Ensures Unit made.0 (pure tt) crash u (Keeps s) (λ e. refl) (λ e. tt))
        λ _ t k.
          let payload = p.malloc t.world in
          let v : St p.World = record t { world = payload.1 } in
          >>=-Ensures Unit (if payload.0 then outside p.malloc else pure false) _ v (Keeps s)
            (Keeps s)
            (if-Ensures Unit payload.0 (outside p.malloc) (pure false) v (Keeps s) (λ e. k)
              (λ e. k))
            λ node w l. if-Ensures Unit node _ _ w (Keeps s) (λ e. l) (λ e. l)

  close_http-Keeps :
      (ch : FetchChannel) (s : St p.World) → Ensures Unit (close_http p ch s) (Keeps s)
  close_http-Keeps null s = tt
  close_http-Keeps freed s = tt
  close_http-Keeps (open_at r) s = refl

  cancel_if-Moves :
      (b : Bool) (s t : St p.World)
      → t.ota.state ≡ s.ota.state
      → Ensures Unit (cancel_if p b t) (λ _ u. Moves s u)
  cancel_if-Moves false s t e = inl e
  cancel_if-Moves true s t e =
      >>=-Ensures Unit (close_http p t.ota.ch_fetch) _ t (Keeps t) (λ _ u. Moves s u)
        (close_http-Keeps t.ota.ch_fetch t) λ _ u k. inr (inr refl)

  same_text-Keeps :
      (x : Text) (o : Option Text) (s : St p.World) → Ensures Unit (same_text p x o s) (Keeps s)
  same_text-Keeps x none s = tt
  same_text-Keeps x (some y) s = refl

  cancel_named-Moves :
      (name version : Option Text) (s : St p.World)
      → Ensures Unit (cancel_named p name version s) (λ _ u. Moves s u)
  cancel_named-Moves none version s = inl refl
  cancel_named-Moves (some name) none s = inl refl
  cancel_named-Moves (some name) (some version) s =
      >>=-Ensures Unit (same_text p name s.ota.module_name) _ s (Keeps s) (λ _ u. Moves s u)
        (same_text-Keeps name s.ota.module_name s)
        λ same t k.
          >>=-Ensures Unit (if same then same_text p version s.ota.version else pure false) _ t
            (Keeps s) (λ _ u. Moves s u)
            (if-Ensures Unit same _ (pure false) t (Keeps s)
              (λ e.
                Ensures-mono Unit (same_text p version s.ota.version t) (Keeps t) (Keeps s)
                  (same_text-Keeps version s.ota.version t) (λ a u l. l ∙ k))
              (λ e. k))
            λ both u l. cancel_if-Moves both s u l

  -- A message that waited is handled from a state of rest.
  module _ (rounds : ℕ) (deliver : Text → Act p.World (Unit {0}))
      (ih : (m : Text) (s : St p.World) → Ensures Unit (deliver m s) (λ _ t. Moves s t)) where
    settle : {q r : OtaState} → Settled q → (r ≡ q) ⊎ Settled r → Settled r
    settle (inl a) (inl e) = inl (e ∙ a)
    settle (inr a) (inl e) = inr (e ∙ a)
    settle h (inr k) = k

    pop_first-Settled :
        (ms : List Text) (s : St p.World)
        → Settled s.ota.state
        → Ensures Unit (pop_first p deliver ms s) (λ _ t. Settled t.ota.state)
    pop_first-Settled [] s h = h
    pop_first-Settled (m ∷ ms) s h =
        let u : St p.World = record s { ota = record s.ota { msg_list = ms } } in
        Ensures-mono Unit (deliver m u) (λ _ t. Moves u t) (λ _ t. Settled t.ota.state) (ih m u)
          (λ _ t k. settle h k)

    run_download-Settled :
        (s : St p.World)
        → Ensures Unit (run_download p rounds deliver s) (λ _ t. Settled t.ota.state)
    unfolding run_download pop_upload_msg
    run_download-Settled s =
        let u : St p.World = record s { ota = record s.ota { state = fetching } } in
        let Q : Unit {0} → St p.World → Type 0 = λ _ t. Settled t.ota.state in
        >>=-Ensures Unit (fw_download p rounds deliver) _ u (λ ret t. t.ota.state ≡ inited) Q
          (fw_download-inited rounds deliver u)
          λ ret t e.
            >>=-Ensures Unit (if eq_ℤ ret success_ret then pure tt else set_state disconnected) _ t
              Q Q
              (if-Ensures Unit (eq_ℤ ret success_ret) (pure tt) (set_state disconnected) t Q
                (λ _. inl e) (λ _. inr refl))
              λ _ v h. pop_first-Settled v.ota.msg_list v h

    start_update-Moves :
        (json : Text) (s : St p.World)
        → Ensures Unit (start_update p rounds deliver json s) (λ _ t. Moves s t)
    unfolding start_update ofc_init ofc_connect
    start_update-Moves json s =
        let Q : Unit {0} → St p.World → Type 0 = λ _ t. Moves s t in
        >>=-Ensures Unit (get_params p json) _ s (Keeps s) Q (get_params-Keeps json s) λ ret t k.
          if-Ensures Unit (eq_ℤ ret success_ret) _ (pure tt) t Q
            (λ _.
              let asked = p.malloc t.world in
              let c = if asked.0 then open_at (pos 0) else null in
              let u : St p.World = record t {
                ota = record t.ota { ch_fetch = c };
                world = asked.1;
              } in
              if-Ensures Unit (is_null c) (pure tt) _ u Q (λ _. inl k)
                λ _.
                  >>=-Ensures Unit (connect_channel p c) _ u (λ rc v. Unit) Q
                    (Ensures-any (connect_channel p c u))
                    λ rc v _.
                      if-Ensures Unit (eq_ℤ rc success_ret) (run_download p rounds deliver)
                        (set_state disconnected) v Q
                        (λ _.
                          Ensures-mono Unit (run_download p rounds deliver v)
                            (λ _ w. Settled w.ota.state) Q (run_download-Settled v)
                            (λ _ w h. inr h))
                        (λ _. inr (inr refl)))
            (λ _. inl k)

    handle_method-Moves :
        (method json : Text) (s : St p.World)
        → Ensures Unit (handle_method p rounds deliver method json s) (λ _ t. Moves s t)
    unfolding handle_method handle_cancel
    handle_method-Moves method json s =
        let Q : Unit {0} → St p.World → Type 0 = λ _ t. Moves s t in
        if-Ensures Unit (is_null s.ota.ch_fetch && str_equal method cancel_update_method) (pure tt)
          _ s Q (λ _. inl refl)
          λ _.
            if-Ensures Unit (str_equal method update_firmware_method) _ _ s Q
              (λ _.
                if-Ensures Unit (is_fetching s.ota.state) (push_upload_msg p json)
                  (start_update p rounds deliver json) s Q
                  (λ _.
                    Ensures-mono Unit (push_upload_msg p json s) (Keeps s) Q
                      (push_upload_msg-Keeps json s) (λ _ t k. inl k))
                  (λ _. start_update-Moves json s))
              λ _.
                if-Ensures Unit (str_equal method cancel_update_method) (handle_cancel p json)
                  (pure tt) s Q
                  (λ _.
                    cancel_named-Moves (p.json_value_of module_field json)
                      (p.json_value_of version_field json) s)
                  (λ _. inl refl)

    handle_message-Moves :
        (method : Option Text) (json : Text) (s : St p.World)
        → Ensures Unit (handle_message p rounds deliver method json s) (λ _ t. Moves s t)
    handle_message-Moves none json s = inl refl
    handle_message-Moves (some method) json s = handle_method-Moves method json s

-- A message of the OTA topic leaves the state as it was, or INITED, or DISCONNECTED: never a new
-- FETCHING or FETCHED, although IOT_OTA_fw_download runs within. It holds where the behaviour of
-- the code is defined and the fuel is not used up.
pub ota_callback-Moves :
    (p : Platform) (rounds fuel : ℕ) (msg : Text) (s : St p.World)
    → Ensures Unit (ota_callback p rounds fuel msg s) (λ _ t. Moves s t)
unfolding ota_callback
ota_callback-Moves p rounds zero msg s = tt
ota_callback-Moves p rounds (suc fuel) msg s =
    let asked = p.malloc s.world in
    let u : St p.World = record s { world = asked.1 } in
    let json = until_nul msg in
    let deliver = ota_callback p rounds fuel in
    if-Ensures Unit asked.0 (handle_message p rounds deliver (p.json_value_of type_field json) json)
      (pure tt) u (λ _ t. Moves s t)
      (λ _.
        handle_message-Moves p rounds deliver (ota_callback-Moves p rounds fuel)
          (p.json_value_of type_field json) json u)
      (λ _. inl refl)
