-- ===== src/Ota/Report/Frame.antt =====
-- What the reports of uiot/ota/src/ota_client.c leave alone: all of the struct but `err`.
use ucloud_iot_rtthread_pack.Prelude.{
  Text, ℕ, ℤ, ◌≡◌, refl, ◌∙◌, ap, true, false, Option, some, none, Bool-cases, inl, inr, pos,
  is_neg,
}
use ucloud_iot_rtthread_pack.Codes.{err_ota_no_memory, err_ota_invalid_state}
use ucloud_iot_rtthread_pack.Ota.State.{
  Ota, St, Answer, done, fault, Act, Platform, refuse, pure, is_uninited, ◌>>=◌,
}
use ucloud_iot_rtthread_pack.Ota.Ensures.{Ensures, >>=-Ensures, if-Ensures, Ensures-mono}
use ucloud_iot_rtthread_pack.Ota.Message.{
  fit, gen_upstream_msg, mqtt_publish_ota, osc_report_progress, osc_upstream_publish, Generated,
  msg, failed, Printed, text, no_template, missing_arguments, UpstreamMsgType, report_success,
  send_to, print_msg, ota_upstream_topic_type, ota_upstream_msg_buf_len,
}
use ucloud_iot_rtthread_pack.Ota.Report.{
  report_progress, report_fail, ProgressState, ReportErrCode, send_msg, out_of_range, bad_version,
  send_upstream_msg_with_version, report_success_of, call_back, progress_type, with_buffer,
  errcode_firmware_not_exist, errcode_signature_expired, errcode_download_timeout,
  errcode_md5_mismatch, errcode_firmware_burn_failed, errcode_undefined_error,
}

pub record Reported {W : Type 0} (s t : St W) : Type 0 where
  pub same_but_err : t.ota ≡ record s.ota { err = t.ota.err }
  pub same_writes : t.writes ≡ s.writes

pub Reported-refl : {W : Type 0} (s : St W) → Reported s s
Reported-refl s = record { same_but_err = refl; same_writes = refl }

pub Reported-err :
    {W : Type 0} (s : St W) (e : ℤ) → Reported s (record s { ota = record s.ota { err = e } })
Reported-err s e = record { same_but_err = refl; same_writes = refl }

pub Reported-world : {W : Type 0} (s : St W) (w : W) → Reported s (record s { world = w })
Reported-world s w = record { same_but_err = refl; same_writes = refl }

pub Reported-trans : {W : Type 0} {s t u : St W} → Reported s t → Reported t u → Reported s u
Reported-trans {u} r q = record {
  same_but_err = q.same_but_err ∙ ap (λ (o : Ota). record o { err = u.ota.err }) r.same_but_err;
  same_writes = q.same_writes ∙ r.same_writes;
}

module _ (p : Platform) where
  send_to-Reported :
      (g : Generated) (qos : ℕ) (payload : Text) (s : St p.World)
      → Ensures ⊥ (send_to p g qos payload s) (λ ret t. Reported s t)
  send_to-Reported (failed e) qos payload s = record { same_but_err = refl; same_writes = refl }
  send_to-Reported (msg topic) qos payload s = record { same_but_err = refl; same_writes = refl }

  mqtt_publish_ota-Reported :
      (topic_type : Text) (qos : ℕ) (payload : Text) (s : St p.World)
      → Ensures ⊥ (mqtt_publish_ota p topic_type qos payload s) (λ ret t. Reported s t)
  unfolding mqtt_publish_ota
  mqtt_publish_ota-Reported topic_type qos payload s = send_to-Reported _ _ payload s

  send_msg-Reported :
      (topic_type : Text) (qos : ℕ) (g : Generated) (s : St p.World)
      → Ensures ⊥ (send_msg (mqtt_publish_ota p topic_type qos) g s) (λ ret t. Reported s t)
  send_msg-Reported topic_type qos (failed e) s = record { same_but_err = refl; same_writes = refl }
  send_msg-Reported topic_type qos (msg payload) s =
      >>=-Ensures ⊥ (mqtt_publish_ota p topic_type qos payload) _ s _ _
        (mqtt_publish_ota-Reported topic_type qos payload s)
        λ ret t r.
          if-Ensures ⊥ (is_neg ret) (refuse ret) (pure ret) t _
            (λ e. Reported-trans r (Reported-err t ret)) (λ e. r)

  -- Generating a message changes nothing.
  gen-Ensures :
      {B : Type 0} (printed : Printed) (f : Generated → Act p.World B) (s : St p.World)
      (Q : B → St p.World → Type 0)
      → ((g : Generated) → Ensures ⊥ (f g s) Q)
      → Ensures ⊥ ((fit ota_upstream_msg_buf_len printed >>= f) s) Q
  unfolding fit
  gen-Ensures (text t) f s Q h = h _
  gen-Ensures no_template f s Q h = h _
  gen-Ensures missing_arguments f s Q h = tt

  with_buffer-Reported :
      (body : Act p.World ℤ) (s : St p.World)
      → ((u : St p.World) → Ensures ⊥ (body u) (λ ret t. Reported u t))
      → Ensures ⊥ (with_buffer p body s) (λ ret t. Reported s t)
  with_buffer-Reported body s h =
      let u : St p.World = record s { world = (p.malloc s.world).1 } in
      if-Ensures ⊥ (p.malloc s.world).0 body (refuse err_ota_no_memory) u (λ ret t. Reported s t)
        (λ e.
          Ensures-mono ⊥ (body u) (λ ret t. Reported u t) (λ ret t. Reported s t) (h u)
            (λ ret t r. Reported-trans (Reported-world s _) r))
        (λ e. record { same_but_err = refl; same_writes = refl })

  pub report_progress-Reported :
      (progress : ℤ) (state : ProgressState) (s : St p.World)
      → Ensures ⊥ (report_progress p progress state s) (λ ret t. Reported s t)
  unfolding report_progress gen_upstream_msg osc_report_progress
  report_progress-Reported progress state s =
      if-Ensures ⊥ (is_uninited s.ota.state) _ _ s _ (λ e. Reported-err s _)
        λ e.
          if-Ensures ⊥ (out_of_range progress) _ _ s _ (λ e. Reported-err s _)
            λ e. with_buffer-Reported _ s λ u.
              gen-Ensures (print_msg s.ota.module_name s.ota.version progress (progress_type state))
                (send_msg (osc_report_progress p)) u (λ ret t. Reported u t)
                λ g. send_msg-Reported ota_upstream_topic_type 0 g u

  pub with_version-Reported :
      (name version : Option Text) (report_type : UpstreamMsgType) (s : St p.World)
      → Ensures ⊥
          (send_upstream_msg_with_version p name version report_type s)
          (λ ret t. Reported s t)
  unfolding send_upstream_msg_with_version gen_upstream_msg osc_upstream_publish
  with_version-Reported name none report_type s = Reported-refl s
  with_version-Reported name (some version) report_type s =
      if-Ensures ⊥ (is_uninited s.ota.state) _ _ s _ (λ e. Reported-err s _)
        λ e.
          if-Ensures ⊥ (bad_version version) _ _ s _ (λ e. Reported-err s _)
            λ e. with_buffer-Reported _ s λ u.
              gen-Ensures (print_msg name (some version) (pos 0) report_type)
                (send_msg (osc_upstream_publish p)) u (λ ret t. Reported u t)
                (λ g. send_msg-Reported ota_upstream_topic_type 1 g u)

  pub report_success_of-Reported :
      (version : Option Text) (s : St p.World)
      → Ensures ⊥ (report_success_of p version s) (λ ret t. Reported s t)
  unfolding report_success_of
  report_success_of-Reported version s =
      >>=-Ensures ⊥ (call_back p (pos 3)) _ s (λ _ t. Reported s t) (λ ret t. Reported s t)
        (if-Ensures ⊥ s.ota.has_fetch_callback _ (pure tt) s (λ _ t. Reported s t)
          (λ e. Reported-world s _) (λ e. Reported-refl s))
        λ _ t r.
          Ensures-mono ⊥
            (send_upstream_msg_with_version p t.ota.module_name version report_success t)
            (λ ret u. Reported t u) (λ ret u. Reported s u)
            (with_version-Reported t.ota.module_name version report_success t)
            (λ ret u q. Reported-trans r q)

  -- IOT_OTA_ReportFail is never carried out: where the handle is initialised and the buffer is
  -- allocated, it prints a template with two strings that it does not pass, for every error code.
  report_fail_undefined :
      (err_code : ReportErrCode) (s : St p.World)
      → is_uninited s.ota.state ≡ false
      → (p.malloc s.world).0 ≡ true
      → report_fail p err_code s ≡ fault
  unfolding report_fail gen_upstream_msg
  report_fail_undefined errcode_firmware_not_exist s h k = rw (h, k)
  report_fail_undefined errcode_signature_expired s h k = rw (h, k)
  report_fail_undefined errcode_download_timeout s h k = rw (h, k)
  report_fail_undefined errcode_md5_mismatch s h k = rw (h, k)
  report_fail_undefined errcode_firmware_burn_failed s h k = rw (h, k)
  report_fail_undefined errcode_undefined_error s h k = rw (h, k)

  abbrev failing : St p.World → p.World → ℤ → Answer p.World ℤ
  failing s w e = done e (record s { ota = record s.ota { err = e }; world = w })

  report_fail-uninited :
      (err_code : ReportErrCode) (s : St p.World)
      → is_uninited s.ota.state ≡ true
      → report_fail p err_code s ≡ failing s s.world err_ota_invalid_state
  unfolding report_fail
  report_fail-uninited err_code s h = rw h

  report_fail-no_memory :
      (err_code : ReportErrCode) (s : St p.World)
      → is_uninited s.ota.state ≡ false
      → (p.malloc s.world).0 ≡ false
      → report_fail p err_code s ≡ failing s (p.malloc s.world).1 err_ota_no_memory
  unfolding report_fail
  report_fail-no_memory err_code s h k = rw (h, k)

  -- Where it is defined, it has failed and changed `err` at most.
  pub report_fail-Reported :
      (err_code : ReportErrCode) (s : St p.World)
      → Ensures ⊥ (report_fail p err_code s) (λ ret t. Reported s t × (is_neg t.ota.err ≡ true))
  report_fail-Reported err_code s = elim (Bool-cases (is_uninited s.ota.state)) [
    | inl h ↦
        rw (report_fail-uninited err_code s h)
          (record { same_but_err = refl; same_writes = refl }, refl)
    | inr h ↦ elim (Bool-cases (p.malloc s.world).0) [
      | inl k ↦ rw (report_fail_undefined err_code s h k) tt
      | inr k ↦
          rw (report_fail-no_memory err_code s h k)
            (record { same_but_err = refl; same_writes = refl }, refl)
    ]
  ]
