-- ===== src/Ota/Fetch/EarlyEnd.antt =====
-- IOT_OTA_FetchYield (uiot/ota/src/ota_client.c) after a fetch that fails for a time.
use ucloud_iot_rtthread_pack.Prelude.{
  ℕ, suc, ◌≡◌, refl, ◌∙◌, List, true, false, ℤ, pos, negsuc, eq_ℤ, leb, not, ◌==◌,
}
use ucloud_iot_rtthread_pack.Codes.{
  err_http_conn_error, err_ota_fetch_auth_fail, err_ota_file_not_exist, err_ota_fetch_timeout,
  err_ota_fetch_failed,
}
use ucloud_iot_rtthread_pack.Ota.State.{
  OtaState, is_fetching, fetching, fetched, Platform, St, done, ◌>>◌, pure,
}
use ucloud_iot_rtthread_pack.Ota.Ensures.{Ensures, >>=-Ensures, if-Ensures, Ensures-mono}
use ucloud_iot_rtthread_pack.Ota.Fetch.{
  ofc_fetch, first_report, note_failure, fetch_rounds, account, report_percent, note_end,
  fetch_yield,
}
use ucloud_iot_rtthread_pack.Ota.Fetch.Retries.{Same, first_report-Same}
use ucloud_iot_rtthread_pack.Ota.Fetch.Progress.{account-Accounted, report_percent-Same}

-- A code for which nothing is reported and the channel is not opened again.
pub record Transient (e : ℤ) : Type 0 where
  pub not_conn : eq_ℤ e err_http_conn_error ≡ false
  pub not_auth : eq_ℤ e err_ota_fetch_auth_fail ≡ false
  pub not_exist : eq_ℤ e err_ota_file_not_exist ≡ false
  pub not_timeout : eq_ℤ e err_ota_fetch_timeout ≡ false

-- The store after the branch of `ret < 0`.
abbrev pub after_failure : {W : Type 0} → St W → St W
after_failure s = record s { ota = record s.ota { state = fetched; err = err_ota_fetch_failed } }

is_running : {q : OtaState} {A : Type 0} → q ≡ fetching → not (is_fetching q) ≡ true → A
is_running e h = cc

module _ (p : Platform) where
  note_failure-Transient :
      (e : ℤ) (s : St p.World) → Transient e → note_failure p e s ≡ done tt (after_failure s)
  unfolding note_failure
  note_failure-Transient e s h = rw (h.not_auth, h.not_exist, h.not_timeout)

  fetch_rounds-failed :
      (k : ℕ) (last : ℤ) (buf b : List ℕ) (buf_len range_len timeout_s e : ℕ) (s t : St p.World)
      → Transient (negsuc e)
      → ofc_fetch p buf buf_len range_len timeout_s s ≡ done (negsuc e, b) t
      → fetch_rounds p (suc k) last buf buf_len range_len timeout_s s
        ≡ fetch_rounds p k (negsuc e) b buf_len range_len timeout_s (after_failure t)
  unfolding fetch_rounds
  fetch_rounds-failed k last buf b buf_len range_len timeout_s e s t h first =
      rw (first, h.not_conn, note_failure-Transient (negsuc e) t h)

  fetch_rounds-got :
      (k : ℕ) (last : ℤ) (buf b : List ℕ) (buf_len range_len timeout_s n : ℕ) (s t : St p.World)
      → ofc_fetch p buf buf_len range_len timeout_s s ≡ done (pos (suc n), b) t
      → fetch_rounds p (suc k) last buf buf_len range_len timeout_s s
        ≡ (first_report p >> pure (pos (suc n), b)) t
  unfolding fetch_rounds
  fetch_rounds-got k last buf b buf_len range_len timeout_s n s t h = rw h

  -- The state FETCHED stays, and the flash too.
  abbrev pub Done : St p.World → St p.World → Type 0
  Done s t = (t.ota.state ≡ fetched) × (t.writes ≡ s.writes)

  note_end-Done :
      (s : St p.World) → s.ota.state ≡ fetched → Ensures ⊥ (note_end p s) (λ _ t. Done s t)
  unfolding note_end
  note_end-Done s h =
      if-Ensures ⊥ (leb s.ota.size_file s.ota.size_fetched) _ _ s (λ _ t. Done s t)
        (λ e. (refl, refl)) (λ e. (h, refl))

  steps-Done :
      (n : ℕ) (buf : List ℕ) (r : ℤ × List ℕ) (s : St p.World)
      → s.ota.state ≡ fetched
      → Ensures ⊥
          ((account p n buf >> (report_percent p >> (note_end p >> pure r))) s)
          (λ q t. (q ≡ r) × Done s t)
  steps-Done n buf r s h =
      let Q : ℤ × List ℕ → St p.World → Type 0 = λ q t. (q ≡ r) × Done s t in
      >>=-Ensures ⊥ (account p n buf) _ s _ Q (account-Accounted p n buf s) λ _ t a.
        >>=-Ensures ⊥ (report_percent p) _ t (λ _ u. Same t u) Q (report_percent-Same p t)
          λ _ u k.
            >>=-Ensures ⊥ (note_end p) _ u (λ _ v. Done u v) Q (note_end-Done u (k.1 ∙ a.1 ∙ h))
              λ _ v l. (refl, (l.0, l.1 ∙ k.0.writes_kept ∙ a.0.writes_same))

  -- A transient failure, and then some bytes: the call returns them, and the state is FETCHED.
  pub fetch_yield-Done :
      (buf b1 b2 : List ℕ) (buf_len range_len timeout_s e n : ℕ) (s s1 s3 : St p.World)
      → (buf_len == 0) ≡ false
      → s.ota.state ≡ fetching
      → Transient (negsuc e)
      → ofc_fetch p buf buf_len range_len timeout_s s ≡ done (negsuc e, b1) s1
      → ofc_fetch p b1 buf_len range_len timeout_s (after_failure s1) ≡ done (pos (suc n), b2) s3
      → s3.ota.state ≡ fetched
      → Ensures ⊥
          (fetch_yield p buf buf_len range_len timeout_s s)
          (λ r t. (r ≡ (pos (suc n), b2)) × Done s3 t)
  unfolding fetch_yield
  fetch_yield-Done buf b1 b2 buf_len range_len timeout_s e n s s1 s3 room started h first second
        state =
      let r : ℤ × List ℕ = (pos (suc n), b2) in
      let R : ℤ × List ℕ → St p.World → Type 0 = λ q t. (q ≡ r) × Same s3 t in
      let Q : ℤ × List ℕ → St p.World → Type 0 = λ q t. (q ≡ r) × Done s3 t in
      let chain =
        fetch_rounds-failed 4 (pos 0) buf b1 buf_len range_len timeout_s e s s1 h first
        ∙ fetch_rounds-got 3 (negsuc e) b1 b2 buf_len range_len timeout_s n (after_failure s1) s3
            second in
      if-Ensures ⊥ (buf_len == 0) _ _ s Q (λ e. cc)
        λ _.
          if-Ensures ⊥ (not (is_fetching s.ota.state)) _ _ s Q (λ e. is_running started e)
            λ _.
              >>=-Ensures ⊥ (fetch_rounds p 5 (pos 0) buf buf_len range_len timeout_s) _ s R Q
                (rw chain (
                  >>=-Ensures ⊥ (first_report p) _ s3 (λ _ t. Same s3 t) R (first_report-Same p s3)
                    (λ _ t k. (refl, k))))
                λ q t k. rw k.0 (
                  Ensures-mono ⊥ _ (λ q u. (q ≡ r) × Done t u) Q
                    (steps-Done (suc n) b2 r t (k.1.1 ∙ state))
                    (λ q u l. (l.0, (l.1.0, l.1.1 ∙ k.1.0.writes_kept))))
