-- ===== src/Ota/Fetch/Retries.antt =====
-- What the retries of IOT_OTA_FetchYield (uiot/ota/src/ota_client.c) leave alone.
use ucloud_iot_rtthread_pack.Prelude.{
  ℕ, zero, suc, ◌*◌, ◌≤◌, ◌≡◌, refl, ap, ◌∙◌, arith, ◌⊎◌, inl, inr, List, ℤ, pos, if◌then◌else◌,
  length, length-append, length-drop, is_neg, ◌&&◌, not, eq_ℤ, u32, drop, ◌==◌,
}
use ucloud_iot_rtthread_pack.Codes.{
  success_ret, err_http_conn_error, err_ota_fetch_failed, err_ota_fetch_auth_fail,
  err_ota_file_not_exist, err_ota_fetch_timeout,
}
use ucloud_iot_rtthread_pack.Ota.State.{
  Ota, OtaState, fetching, fetched, FetchChannel, null, open_at, freed, Platform, St, ◌>>◌, pure,
  is_disconnected, countdown,
}
use ucloud_iot_rtthread_pack.Ota.Ensures.{
  Ensures, >>=-Ensures, if-Ensures, Ensures-mono, text_of-Ensures,
}
use ucloud_iot_rtthread_pack.Ota.Report.{
  report_progress, report_fail, ReportErrCode, ProgressState, progress_downloading,
  errcode_signature_expired, errcode_firmware_not_exist, errcode_download_timeout,
}
use ucloud_iot_rtthread_pack.Ota.Report.Frame.{
  Reported, report_progress-Reported, report_fail-Reported,
}
use ucloud_iot_rtthread_pack.Ota.Fetch.{
  fetch_channel, receive, ofc_fetch, reconnect, ofc_deinit, ofc_init, ofc_connect, connect_channel,
  close_channel, note_failure, first_report, fetch_rounds, ota_report_progress_interval,
}

-- The counters, the MD5 context and sum, and the flash, as before.
pub record Kept {W : Type 0} (s t : St W) : Type 0 where
  pub size_fetched_kept : t.ota.size_fetched ≡ s.ota.size_fetched
  pub size_file_kept : t.ota.size_file ≡ s.ota.size_file
  pub md5_kept : t.ota.md5 ≡ s.ota.md5
  pub md5sum_kept : t.ota.md5sum ≡ s.ota.md5sum
  pub writes_kept : t.writes ≡ s.writes

abbrev pub Active : OtaState → Type 0
Active q = (q ≡ fetching) ⊎ (q ≡ fetched)

pub Active-eq : {q r : OtaState} → Active r → q ≡ r → Active q
Active-eq (inl a) e = inl (e ∙ a)
Active-eq (inr a) e = inr (e ∙ a)

module _ {W : Type 0} where
  pub Kept-trans : {s t u : St W} → Kept s t → Kept t u → Kept s u
  Kept-trans k l = record {
    size_fetched_kept = l.size_fetched_kept ∙ k.size_fetched_kept;
    size_file_kept = l.size_file_kept ∙ k.size_file_kept;
    md5_kept = l.md5_kept ∙ k.md5_kept;
    md5sum_kept = l.md5sum_kept ∙ k.md5sum_kept;
    writes_kept = l.writes_kept ∙ k.writes_kept;
  }

  pub Reported-Kept : {s t : St W} → Reported s t → Kept s t
  Reported-Kept r = record {
    size_fetched_kept = ap (λ (o : Ota). o.size_fetched) r.same_but_err;
    size_file_kept = ap (λ (o : Ota). o.size_file) r.same_but_err;
    md5_kept = ap (λ (o : Ota). o.md5) r.same_but_err;
    md5sum_kept = ap (λ (o : Ota). o.md5sum) r.same_but_err;
    writes_kept = r.same_writes;
  }

  pub Reported-state : {s t : St W} → Reported s t → t.ota.state ≡ s.ota.state
  Reported-state r = ap (λ (o : Ota). o.state) r.same_but_err

  -- A new world, error code, timer or channel.
  pub Kept-with :
      (s : St W) (q : OtaState) (c : FetchChannel) (e : ℤ) (r : ℕ) (w : W)
      → Kept s (record s {
        ota = record s.ota { state = q; ch_fetch = c; err = e; report_timer = r };
        world = w;
      })
  Kept-with s q c e r w = record {
    size_fetched_kept = refl;
    size_file_kept = refl;
    md5_kept = refl;
    md5sum_kept = refl;
    writes_kept = refl;
  }

  -- The same, with the state of the machine.
  abbrev pub Same : St W → St W → Type 0
  Same s t = Kept s t × (t.ota.state ≡ s.ota.state)

module _ (p : Platform) where
  abbrev pub Reconnected : St p.World → St p.World → Type 0
  Reconnected s t = Kept s t × Active t.ota.state

  connect_channel-Same :
      (ch : FetchChannel) (s : St p.World) → Ensures ⊥ (connect_channel p ch s) (λ r t. Same s t)
  connect_channel-Same null s = tt
  connect_channel-Same freed s = tt
  connect_channel-Same (open_at r) s =
      text_of-Ensures s.ota.url _ s _
        λ url. (Kept-with s s.ota.state s.ota.ch_fetch s.ota.err s.ota.report_timer _, refl)

  close_channel-Same :
      (ch : FetchChannel) (s : St p.World) → Ensures ⊥ (close_channel p ch s) (λ r t. Same s t)
  close_channel-Same null s = tt
  close_channel-Same freed s = tt
  close_channel-Same (open_at r) s =
      (Kept-with s s.ota.state freed s.ota.err s.ota.report_timer _, refl)

  reconnect-Reconnected : (s : St p.World) → Ensures ⊥ (reconnect p s) (λ r t. Reconnected s t)
  unfolding reconnect ofc_deinit ofc_init ofc_connect
  reconnect-Reconnected s =
      >>=-Ensures ⊥ (close_channel p s.ota.ch_fetch) _ s (λ r t. Same s t) (λ r t. Reconnected s t)
        (close_channel-Same s.ota.ch_fetch s)
        λ a t k.
          let asked = p.malloc t.world in
          let c = if asked.0 then open_at (pos 0) else null in
          let u : St p.World = record t { ota = record t.ota { ch_fetch = c }; world = asked.1 } in
          let l : Kept t u = Kept-with t t.ota.state c t.ota.err t.ota.report_timer asked.1 in
          >>=-Ensures ⊥ (connect_channel p c) _ u (λ r v. Same u v) (λ r v. Reconnected s v)
            (connect_channel-Same c u)
            λ b v m. (
              Kept-trans k.0 (
                  Kept-trans l (
                    Kept-trans m.0
                      (Kept-with v fetching v.ota.ch_fetch v.ota.err v.ota.report_timer v.world))),
              inl refl,
            )

  report_fail-Same :
      (c : ReportErrCode) (s : St p.World)
      → Ensures ⊥ ((report_fail p c >> pure tt) s) (λ r t. Same s t)
  report_fail-Same c s =
      >>=-Ensures ⊥ (report_fail p c) _ s _ (λ r t. Same s t) (report_fail-Reported p c s)
        λ a t r. (Reported-Kept r.0, Reported-state r.0)

  note_failure-Reconnected :
      (ret : ℤ) (s : St p.World) → Ensures ⊥ (note_failure p ret s) (λ r t. Reconnected s t)
  unfolding note_failure
  note_failure-Reconnected ret s =
      let u : St p.World = record s { ota = record s.ota { state = fetched; err = ret } } in
      let k : Kept s u = Kept-with s fetched s.ota.ch_fetch ret s.ota.report_timer s.world in
      let Q : Unit {0} → St p.World → Type 0 = λ r t. Reconnected s t in
      let reported = λ (c : ReportErrCode).
        Ensures-mono ⊥ ((report_fail p c >> pure tt) u) (λ r t. Same u t) Q (report_fail-Same c u)
          (λ a t l. (Kept-trans k l.0, inr l.1)) in
      if-Ensures ⊥ (eq_ℤ ret err_ota_fetch_auth_fail) _ _ u Q
        (λ e. reported errcode_signature_expired)
        λ e.
          if-Ensures ⊥ (eq_ℤ ret err_ota_file_not_exist) _ _ u Q
            (λ e. reported errcode_firmware_not_exist)
            λ e.
              if-Ensures ⊥ (eq_ℤ ret err_ota_fetch_timeout) _ _ u Q
                (λ e. reported errcode_download_timeout)
                λ e. (
                  Kept-trans k (
                      Kept-with u fetched u.ota.ch_fetch err_ota_fetch_failed u.ota.report_timer
                        u.world),
                  inr refl,
                )

  -- A report of the progress, and the timer started again.
  pub report_progress-Same :
      (percent : ℤ) (c : ProgressState) (s : St p.World)
      → Ensures ⊥ (report_progress p percent c s) (λ r t. Same s t)
  report_progress-Same percent c s =
      Ensures-mono ⊥ (report_progress p percent c s) _ (λ r t. Same s t)
        (report_progress-Reported p percent c s) λ a t r. (Reported-Kept r, Reported-state r)

  pub report_and_wait-Same :
      (percent : ℤ) (c : ProgressState) (s : St p.World)
      → Ensures ⊥
          ((report_progress p percent c >> countdown p ota_report_progress_interval) s)
          (λ r t. Same s t)
  report_and_wait-Same percent c s =
      >>=-Ensures ⊥ (report_progress p percent c) _ s (λ r t. Same s t) (λ r t. Same s t)
        (report_progress-Same percent c s)
        λ a t k. (Kept-trans k.0 (Kept-with t t.ota.state t.ota.ch_fetch t.ota.err _ _), k.1)

  pub first_report-Same : (s : St p.World) → Ensures ⊥ (first_report p s) (λ r t. Same s t)
  unfolding first_report
  first_report-Same s =
      if-Ensures ⊥ (s.ota.size_fetched == 0) _ (pure tt) s (λ r t. Same s t)
        (λ e. report_and_wait-Same (pos 0) progress_downloading s)
        (λ e. (Kept-with s s.ota.state s.ota.ch_fetch s.ota.err s.ota.report_timer s.world, refl))

module _ (p : Platform)
    (fits : (n ms : ℕ) (r : ℤ) (w : p.World) → length (p.http_recv n ms r w).0.bytes ≤ n) where
  abbrev pub Fetched : ℕ → St p.World → ℤ × List ℕ → St p.World → Type 0
  Fetched buf_len s r t = Same s t × (length r.1 ≤ buf_len)

  fetch_channel-Fetched :
      (ch : FetchChannel) (buf : List ℕ) (buf_len range_len timeout_s : ℕ) (s : St p.World)
      → length buf ≤ buf_len
      → Ensures ⊥ (fetch_channel p ch buf buf_len range_len timeout_s s) (Fetched buf_len s)
  fetch_channel-Fetched null buf buf_len range_len timeout_s s h = tt
  fetch_channel-Fetched freed buf buf_len range_len timeout_s s h = tt
  fetch_channel-Fetched (open_at r) buf buf_len range_len timeout_s s h =
      text_of-Ensures s.ota.url _ s (Fetched buf_len s) λ url.
        let sent = p.http_send url s.ota.size_fetched range_len s.world in
        let u : St p.World = record s { world = sent.1 } in
        if-Ensures ⊥ (eq_ℤ sent.0 success_ret) (receive p url timeout_s buf buf_len r)
          (pure (sent.0, buf)) u (Fetched buf_len s)
          (λ e.
            let got = p.http_recv buf_len (u32 (timeout_s * 1000)) r sent.1 in
            let bytes = got.0.bytes in
            (
              (
                Kept-with s s.ota.state (open_at got.0.retrieve_len) s.ota.err s.ota.report_timer
                    got.1,
                refl,
              ),
              omega (
                arith,
                fits buf_len (u32 (timeout_s * 1000)) r sent.1,
                length-append bytes (drop (length bytes) buf),
                length-drop (length bytes) buf,
              ),
            ))
          (λ e.
            ((Kept-with s s.ota.state s.ota.ch_fetch s.ota.err s.ota.report_timer sent.1, refl), h))

  pub ofc_fetch-Fetched :
      (buf : List ℕ) (buf_len range_len timeout_s : ℕ) (s : St p.World)
      → length buf ≤ buf_len
      → Ensures ⊥ (ofc_fetch p buf buf_len range_len timeout_s s) (Fetched buf_len s)
  unfolding ofc_fetch
  ofc_fetch-Fetched buf buf_len range_len timeout_s s h =
      fetch_channel-Fetched s.ota.ch_fetch buf buf_len range_len timeout_s s h

  -- The state is FETCHING or FETCHED throughout the retries, and the counters do not move.
  abbrev pub Retried : ℕ → St p.World → ℤ × List ℕ → St p.World → Type 0
  Retried buf_len s r t = Reconnected p s t × (length r.1 ≤ buf_len)

  pub fetch_rounds-Retried :
      (n : ℕ) (last : ℤ) (buf : List ℕ) (buf_len range_len timeout_s : ℕ) (s : St p.World)
      → length buf ≤ buf_len
      → Active s.ota.state
      → Ensures ⊥ (fetch_rounds p n last buf buf_len range_len timeout_s s) (Retried buf_len s)
  unfolding fetch_rounds
  fetch_rounds-Retried zero last buf buf_len range_len timeout_s s h active =
      ((Kept-with s s.ota.state s.ota.ch_fetch s.ota.err s.ota.report_timer s.world, active), h)
  fetch_rounds-Retried (suc n) last buf buf_len range_len timeout_s s h active =
      >>=-Ensures ⊥ (ofc_fetch p buf buf_len range_len timeout_s) _ s (Fetched buf_len s)
        (Retried buf_len s) (ofc_fetch-Fetched buf buf_len range_len timeout_s s h)
        λ r t k.
          let again : (u : St p.World)
              → Reconnected p t u
              → Ensures ⊥ (fetch_rounds p n r.0 r.1 buf_len range_len timeout_s u)
                  (Retried buf_len s) =
            λ u l.
              Ensures-mono ⊥ (fetch_rounds p n r.0 r.1 buf_len range_len timeout_s u)
                (Retried buf_len u) (Retried buf_len s)
                (fetch_rounds-Retried n r.0 r.1 buf_len range_len timeout_s u k.1 l.1)
                (λ a v m. ((Kept-trans k.0.0 (Kept-trans l.0 m.0.0), m.0.1), m.1)) in
          if-Ensures ⊥ (eq_ℤ r.0 err_http_conn_error && not (is_disconnected t.ota.state)) _ _ t
            (Retried buf_len s)
            (λ e.
              >>=-Ensures ⊥ (reconnect p) _ t (λ a u. Reconnected p t u) (Retried buf_len s)
                (reconnect-Reconnected p t) (λ a u l. again u l))
            λ e.
              if-Ensures ⊥ (is_neg r.0) _ _ t (Retried buf_len s)
                (λ f.
                  >>=-Ensures ⊥ (note_failure p r.0) _ t (λ a u. Reconnected p t u)
                    (Retried buf_len s) (note_failure-Reconnected p r.0 t) (λ a u l. again u l))
                (λ f.
                  >>=-Ensures ⊥ (first_report p) _ t (λ a u. Same t u) (Retried buf_len s)
                    (first_report-Same p t)
                    (λ a u l. ((Kept-trans k.0.0 l.0, Active-eq active (l.1 ∙ k.0.1)), k.1)))
