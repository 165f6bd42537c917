-- ===== src/Ota/Fetch/Progress.antt =====
-- What one call of IOT_OTA_FetchYield (uiot/ota/src/ota_client.c) does to the counters and to MD5.
use ucloud_iot_rtthread_pack.Prelude.{
  ℕ, ◌+◌, ◌*◌, ◌/◌, ◌≤◌, ◌≡◌, refl, sym, ap, ◌∙◌, arith, inl, inr, List, ◌++◌, true, Option, none,
  some, ℤ, pos, ltb, leb, length, is_pos, ◌&&◌, not, to_ℕ, u32, take, ◌==◌,
}
use mathlib.Core.Option as Option
use ucloud_iot_rtthread_pack.Mqtt.Act.{signed32}
use ucloud_iot_rtthread_pack.Ota.State.{
  OtaState, uninited, inited, fetching, fetched, disconnected, Platform, St, ◌>>◌, pure, crash,
  is_fetching, countdown,
}
use ucloud_iot_rtthread_pack.Ota.Ensures.{Ensures, >>=-Ensures, if-Ensures, Ensures-mono}
use ucloud_iot_rtthread_pack.Ota.Report.{report_progress, progress_downloading}
use ucloud_iot_rtthread_pack.Ota.Fetch.{
  fetch_rounds, account, feed, report_percent, note_end, count_bytes, fetch_yield,
  ota_report_progress_interval,
}
use ucloud_iot_rtthread_pack.Ota.Fetch.Retries.{
  Kept, Active, Kept-trans, Kept-with, Same, Retried, fetch_rounds-Retried, report_progress-Same,
  report_and_wait-Same, Active-eq,
}

-- n bytes of the buffer were fed to MD5 and counted.
pub record Accounted {W : Type 0} (n : ℕ) (buf : List ℕ) (s t : St W) : Type 0 where
  pub within : n ≤ length buf
  pub fed : (bytes : List ℕ) → s.ota.md5 ≡ some bytes → t.ota.md5 ≡ some (bytes ++ take n buf)
  pub size_counted : t.ota.size_fetched ≡ u32 (s.ota.size_fetched + n)
  pub size_file_same : t.ota.size_file ≡ s.ota.size_file
  pub md5sum_same : t.ota.md5sum ≡ s.ota.md5sum
  pub writes_same : t.writes ≡ s.writes

module _ (p : Platform) where
  feed-Accounted :
      (n : ℕ) (buf : List ℕ) (m : Option (List ℕ)) (s : St p.World)
      → s.ota.md5 ≡ m
      → n ≤ length buf
      → Ensures ⊥
          ((feed p m (take n buf) >> count_bytes p n) s)
          (λ r t. Accounted n buf s t × (t.ota.state ≡ s.ota.state))
  feed-Accounted n buf none s e h = tt
  feed-Accounted n buf (some fed) s e h = (
    record {
      within = h;
      fed = λ bytes f. ap (Option.map (λ (b : List ℕ). b ++ take n buf)) (sym e ∙ f);
      size_counted = refl;
      size_file_same = refl;
      md5sum_same = refl;
      writes_same = refl;
    },
    refl,
  )

  pub account-Accounted :
      (n : ℕ) (buf : List ℕ) (s : St p.World)
      → Ensures ⊥ (account p n buf s) (λ r t. Accounted n buf s t × (t.ota.state ≡ s.ota.state))
  unfolding account
  account-Accounted n buf s =
      if-Ensures ⊥ (ltb (length buf) n) _ _ s
        (λ r t. Accounted n buf s t × (t.ota.state ≡ s.ota.state)) (λ e. tt)
        (λ e. feed-Accounted n buf s.ota.md5 s refl (ground arith))

  pub report_percent-Same : (s : St p.World) → Ensures ⊥ (report_percent p s) (λ r t. Same s t)
  unfolding report_percent
  report_percent-Same s =
      let percent = u32 (s.ota.size_fetched * 100) / s.ota.size_file in
      let asked = p.tick s.world in
      let u : St p.World = record s { world = asked.1 } in
      let k : Kept s u =
        Kept-with s s.ota.state s.ota.ch_fetch s.ota.err s.ota.report_timer asked.1 in
      if-Ensures ⊥ (s.ota.size_file == 0) crash _ s (λ r t. Same s t) (λ e. tt)
        λ e.
          if-Ensures ⊥ (percent == 100) _ _ s (λ r t. Same s t)
            (λ f.
              >>=-Ensures ⊥ (report_progress p (pos percent) progress_downloading) _ s
                (λ r t. Same s t) (λ r t. Same s t)
                (report_progress-Same p (pos percent) progress_downloading s) (λ a t l. l))
            (λ f.
              if-Ensures ⊥ (ltb 0 s.ota.size_last_fetched && ltb s.ota.report_timer asked.0) _
                (pure tt) u (λ r t. Same s t)
                (λ g.
                  Ensures-mono ⊥
                    ((report_progress p (signed32 percent) progress_downloading
                        >> countdown p ota_report_progress_interval)
                      u)
                    (λ r t. Same u t) (λ r t. Same s t)
                    (report_and_wait-Same p (signed32 percent) progress_downloading u)
                    (λ a t l. (Kept-trans k l.0, l.1)))
                (λ g. (k, refl)))

  note_end-Kept :
      (s : St p.World)
      → Active s.ota.state
      → Ensures ⊥ (note_end p s) (λ r t.
        Kept s t
        × Active t.ota.state
        × (s.ota.size_file ≤ s.ota.size_fetched → t.ota.state ≡ fetched))
  unfolding note_end
  note_end-Kept s active =
      if-Ensures ⊥ (leb s.ota.size_file s.ota.size_fetched) _ _ s _
        (λ e. (
          Kept-with s fetched s.ota.ch_fetch s.ota.err s.ota.report_timer s.world,
          inr refl,
          λ h. refl,
        ))
        (λ e. (
          Kept-with s s.ota.state s.ota.ch_fetch s.ota.err s.ota.report_timer s.world,
          active,
          λ h. absurd (ground arith),
        ))

  -- The three steps behind a fetch of n bytes.
  abbrev pub Stepped : ℕ → List ℕ → St p.World → St p.World → Type 0
  Stepped n buf s t =
      Accounted n buf s t
      × Active t.ota.state
      × (s.ota.size_file ≤ t.ota.size_fetched → t.ota.state ≡ fetched)

  pub steps-Stepped :
      (n : ℕ) (buf : List ℕ) (r : ℤ × List ℕ) (s : St p.World)
      → Active s.ota.state
      → Ensures ⊥
          ((account p n buf >> (report_percent p >> (note_end p >> pure r))) s)
          (λ q t. (q ≡ r) × Stepped n buf s t)
  steps-Stepped n buf r s active =
      >>=-Ensures ⊥ (account p n buf) _ s _ (λ q t. (q ≡ r) × Stepped n buf s t)
        (account-Accounted n buf s)
        λ _ t a.
          >>=-Ensures ⊥ (report_percent p) _ t (λ r u. Same t u)
            (λ q t. (q ≡ r) × Stepped n buf s t) (report_percent-Same t)
            λ _ u k.
              >>=-Ensures ⊥ (note_end p) _ u _ (λ q t. (q ≡ r) × Stepped n buf s t)
                (note_end-Kept u (Active-eq active (k.1 ∙ a.1)))
                λ _ v e.
                  let l = Kept-trans k.0 e.0 in
                  (
                    refl,
                    (
                      record {
                        within = a.0.within;
                        fed = λ bytes f. l.md5_kept ∙ a.0.fed bytes f;
                        size_counted = l.size_fetched_kept ∙ a.0.size_counted;
                        size_file_same = l.size_file_kept ∙ a.0.size_file_same;
                        md5sum_same = l.md5sum_kept ∙ a.0.md5sum_same;
                        writes_same = l.writes_kept ∙ a.0.writes_same;
                      },
                      e.1,
                      (λ h. e.2 (
                          omega (
                            arith, h, k.0.size_file_kept, a.0.size_file_same, k.0.size_fetched_kept,
                            e.0.size_fetched_kept,
                          ))),
                    ),
                  )

pub fetching_of : (q : OtaState) → is_fetching q ≡ true → q ≡ fetching
fetching_of uninited h = cc
fetching_of inited h = cc
fetching_of fetching h = refl
fetching_of fetched h = cc
fetching_of disconnected h = cc

Accounted-Kept :
    {W : Type 0} {n : ℕ} {buf : List ℕ} {s t u : St W}
    → Kept s t
    → Accounted n buf t u
    → Accounted n buf s u
Accounted-Kept {n} k a = record {
  within = a.within;
  fed = λ bytes f. a.fed bytes (k.md5_kept ∙ f);
  size_counted = a.size_counted ∙ ap (λ (z : ℕ). u32 (z + n)) k.size_fetched_kept;
  size_file_same = a.size_file_same ∙ k.size_file_kept;
  md5sum_same = a.md5sum_same ∙ k.md5sum_kept;
  writes_same = a.writes_same ∙ k.writes_kept;
}

module _ (p : Platform)
    (fits : (n ms : ℕ) (r : ℤ) (w : p.World) → length (p.http_recv n ms r w).0.bytes ≤ n) where
  -- IOT_OTA_FetchYield, where the HTTP client stores no more bytes than there is room for, the buffer
  -- has at most buf_len bytes and the behaviour of the call is defined (nothing is said of a fault):
  -- the buffer stays within buf_len bytes and nothing is written to the flash. Where the call returns
  -- a positive number n, the state was FETCHING, n bytes of the buffer were appended to what MD5 is
  -- computed of, size_fetched has grown by n (modulo 2 ^ 32), the size of the file and the expected
  -- sum are as before, and the state is FETCHING or FETCHED, and FETCHED where size_fetched has
  -- reached the size of the file.
  pub fetch_yield-Stepped :
      (buf : List ℕ) (buf_len range_len timeout_s : ℕ) (s : St p.World)
      → length buf ≤ buf_len
      → Ensures ⊥ (fetch_yield p buf buf_len range_len timeout_s s) (λ r t.
        (length r.1 ≤ buf_len)
        × (t.writes ≡ s.writes)
        × (is_pos r.0 ≡ true → (s.ota.state ≡ fetching) × Stepped p (to_ℕ r.0) r.1 s t))
  unfolding fetch_yield
  fetch_yield-Stepped buf buf_len range_len timeout_s s h =
      let Q : ℤ × List ℕ → St p.World → Type 0 = λ r t.
        (length r.1 ≤ buf_len)
        × (t.writes ≡ s.writes)
        × (is_pos r.0 ≡ true → (s.ota.state ≡ fetching) × Stepped p (to_ℕ r.0) r.1 s t) in
      if-Ensures ⊥ (buf_len == 0) _ _ s Q (λ e. (h, refl, λ k. cc))
        λ e.
          if-Ensures ⊥ (not (is_fetching s.ota.state)) _ _ s Q (λ f. (h, refl, λ k. cc))
            λ f.
              let started : s.ota.state ≡ fetching = fetching_of s.ota.state (ground arith) in
              >>=-Ensures ⊥ (fetch_rounds p 5 (pos 0) buf buf_len range_len timeout_s) _ s
                (Retried p fits buf_len s) Q
                (fetch_rounds-Retried p fits 5 (pos 0) buf buf_len range_len timeout_s s h
                  (inl started))
                λ r t k.
                  if-Ensures ⊥ (is_pos r.0) _ _ t Q
                    (λ g.
                      Ensures-mono ⊥ _ (λ q u. (q ≡ r) × Stepped p (to_ℕ r.0) r.1 t u) Q
                        (steps-Stepped p (to_ℕ r.0) r.1 r t k.0.1)
                        (λ q u l. rw l.0 (
                          k.1,
                          l.1.0.writes_same ∙ k.0.0.writes_kept,
                          λ i. (
                            started,
                            (
                              Accounted-Kept k.0.0 l.1.0,
                              l.1.1,
                              λ z. l.1.2 (omega (arith, z, k.0.0.size_file_kept)),
                            ),
                          ),
                        )))
                    (λ g. (k.1, k.0.0.writes_kept, λ i. cc))
