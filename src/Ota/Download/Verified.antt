-- ===== src/Ota/Download/Verified.antt =====
-- What a successful IOT_OTA_fw_download (uiot/ota/src/ota_client.c) means.
use ucloud_iot_rtthread_pack.Prelude.{
  Text, ℕ, zero, suc, ◌+◌, ◌^◌, ◌≤◌, ◌<◌, ◌≡◌, ◌≢◌, refl, sym, ap, ◌∙◌, arith, ◌⊎◌, inl, inr, List,
  [], Bool, true, false, Option, none, some, ℤ, if◌then◌else◌, length, length-replicate, is_neg,
  u32, ltb, ◌==◌,
}
use ucloud_iot_rtthread_pack.Codes.{success_ret, err_ota_md5_mismatch}
use ucloud_iot_rtthread_pack.Mqtt.Topic.{str_equal}
use ucloud_iot_rtthread_pack.Ota.State.{
  Ota, fetching, fetched, FetchChannel, null, freed, open_at, Platform, Act, St, done, ◌>>=◌, ◌>>◌,
  pure, outside, text_of, state_code,
}
use ucloud_iot_rtthread_pack.Ota.Ensures.{Ensures, >>=-Ensures, if-Ensures, text_of-Ensures}
use ucloud_iot_rtthread_pack.Ota.Fetch.{ofc_deinit, close_channel}
use ucloud_iot_rtthread_pack.Ota.Report.{report_fail, report_success_of, errcode_md5_mismatch}
use ucloud_iot_rtthread_pack.Ota.Report.Frame.{report_fail-Reported, report_success_of-Reported}
use ucloud_iot_rtthread_pack.Ota.Download.{
  fw_download, download_body, download_loop, after_loop, conclude, clear, reset, ioctl, compare_md5,
  Stored, untouched, word, chars, file_size, check_firmware, version_text, stored_text, md5_of,
  LoopEnd, stopped, finished, get_last_error, http_ota_buff_len, empty_buffer,
}
use ucloud_iot_rtthread_pack.Ota.Download.Loop.{
  image, Contiguous, Written, Ended, download_loop-Ended,
}

module _ (p : Platform) where
  -- The writes lie in one piece, and a success means that they do not make up the size, or that
  -- their MD5 is the expected one.
  pub record Sound (expected : Option Text) (size : ℕ) (ret : ℤ) (t : St p.World) : Type 0 where
    pub placed : Contiguous 0 t.writes
    pub checked :
        ret ≡ success_ret
        → (u32 (length (image t.writes)) ≢ size)
          ⊎ ((sum : Text) × (expected ≡ some sum)
              × (str_equal sum (p.md5_hex (image t.writes)) ≡ true))

  -- The verdict of compare_md5, which leaves the flash alone.
  abbrev Verdict : St p.World → Stored → St p.World → Type 0
  Verdict s untouched t = ⊥
  Verdict s (chars v) t = ⊥
  Verdict s (word zero) t = (is_neg t.ota.err ≡ true) × (t.writes ≡ s.writes)
  Verdict s (word (suc n)) t =
      ((sum : Text) × (s.ota.md5sum ≡ some sum)
        × (str_equal sum (p.md5_hex (image s.writes)) ≡ true))
      × (t.writes ≡ s.writes)

  -- Both pointers are read, where they are not NULL.
  read_both :
      {B : Type 0} (m : Option (List ℕ)) (o : Option Text) (f : List ℕ → Text → Act p.World B)
      (s : St p.World) (Q : B → St p.World → Type 0)
      → ((fed : List ℕ) (sum : Text) → m ≡ some fed → o ≡ some sum → Ensures ⊥ (f fed sum s) Q)
      → Ensures ⊥ ((md5_of m >>= λ fed. text_of o >>= λ sum. f fed sum) s) Q
  read_both none o f s Q h = tt
  read_both (some fed) none f s Q h = tt
  read_both (some fed) (some sum) f s Q h = h fed sum refl refl

  compare_md5-Verdict :
      (s : St p.World)
      → s.ota.md5 ≡ some (image s.writes)
      → Ensures ⊥ (compare_md5 p s) (λ r t. Verdict s r.1 t)
  unfolding compare_md5
  compare_md5-Verdict s digested =
      read_both s.ota.md5 s.ota.md5sum _ s (λ r t. Verdict s r.1 t)
        λ fed sum e f.
          let same : image s.writes ≡ fed = cc in
          if-Ensures ⊥ (str_equal sum (p.md5_hex fed)) _ _ s (λ r t. Verdict s r.1 t)
            (λ g. ((sum, f, rw same g), refl))
            (λ g.
              let u : St p.World = record s { ota = record s.ota { err = err_ota_md5_mismatch } } in
              >>=-Ensures ⊥ (report_fail p errcode_md5_mismatch) _ u _ (λ r t. Verdict s r.1 t)
                (report_fail-Reported p errcode_md5_mismatch u) (λ _ t r. (r.1, r.0.same_writes)))

  check_firmware-eq :
      (s : St p.World) → s.ota.state ≡ fetched → ioctl p check_firmware true 4 s ≡ compare_md5 p s
  unfolding ioctl
  check_firmware-eq s e = rw e

  version_text-writes :
      (s : St p.World) → Ensures ⊥ (ioctl p version_text true 33 s) (λ r t. t.writes ≡ s.writes)
  unfolding ioctl
  version_text-writes s =
      if-Ensures ⊥ (ltb (state_code s.ota.state) (state_code fetching)) _ _ s
        (λ r t. t.writes ≡ s.writes) (λ e. refl)
        (λ e. text_of-Ensures s.ota.version _ s (λ r t. t.writes ≡ s.writes) (λ v. refl))

  -- The end of a download that was verified.
  stored_text-writes :
      {B : Type 0} (v : Stored) (f : Text → Act p.World B) (s : St p.World)
      (Q : B → St p.World → Type 0)
      → ((x : Text) → Ensures ⊥ (f x s) Q)
      → Ensures ⊥ ((stored_text p v >>= f) s) Q
  stored_text-writes untouched f s Q h = tt
  stored_text-writes (word n) f s Q h = tt
  stored_text-writes (chars x) f s Q h = h x

  conclude-Sound :
      (s : St p.World) (size : ℕ) (v : Stored) (t : St p.World)
      → Contiguous 0 s.writes
      → Verdict s v t
      → Ensures ⊥ (conclude p v t) (Sound s.ota.md5sum size)
  unfolding get_last_error
  conclude-Sound s size untouched t placed h = absurd h
  conclude-Sound s size (chars v) t placed h = absurd h
  conclude-Sound s size (word zero) t placed h = record {
    placed = rw h.1 placed;
    checked = λ e. cc;
  }
  conclude-Sound s size (word (suc n)) t placed h =
      let Q = Sound s.ota.md5sum size in
      let sound : (ret : ℤ) (u : St p.World) → u.writes ≡ s.writes → Q ret u =
        λ ret u e. record { placed = rw e placed; checked = λ _. inr (h.0.0, h.0.1, rw e h.0.2) } in
      >>=-Ensures ⊥ (ioctl p version_text true 33) _ t _ Q (version_text-writes t) λ r u e.
        stored_text-writes r.1 _ u Q λ x.
          >>=-Ensures ⊥ (report_success_of p (some x)) _ u _ Q
            (report_success_of-Reported p (some x) u)
            λ _ v k.
              sound _ (record v { world = (p.download_end v.world).1 }) (k.same_writes ∙ e ∙ h.1)

  after_loop-Sound :
      (s : St p.World) (size : ℕ) (l : LoopEnd) (u : St p.World)
      → Ended p s l u
      → Ensures ⊥ (after_loop p size l u) (Sound s.ota.md5sum size)
  unfolding after_loop
  after_loop-Sound s size (stopped ret) u h = record { placed = h.1; checked = λ e. cc }
  after_loop-Sound s size (finished total) u h =
      let w = h.0 in
      if-Ensures ⊥ (total == size) _ _ u (Sound s.ota.md5sum size)
        (λ e.
          >>=-Ensures ⊥ (ioctl p check_firmware true 4) _ u (λ r t. Verdict u r.1 t)
            (Sound s.ota.md5sum size)
            (rw (check_firmware-eq u h.1) (compare_md5-Verdict u w.digested))
            (λ r t v. rw (← h.2) (conclude-Sound u size r.1 t w.placed v)))
        (λ e. record { placed = w.placed; checked = λ _. inl (ground (arith, w.counted)) })

  pub clear-writes : (s : St p.World) → Ensures ⊥ (clear p s) (λ _ t. t.writes ≡ s.writes)
  unfolding clear ofc_deinit
  clear-writes s = cleared s.ota.ch_fetch
    where
      cleared :
          (ch : FetchChannel)
          → Ensures ⊥ ((close_channel p ch >> reset p) s) (λ _ t. t.writes ≡ s.writes)
      cleared null = tt
      cleared freed = tt
      cleared (open_at r) = refl

  pub file_size-eq :
      (s : St p.World)
      → s.ota.state ≡ fetching
      → ioctl p file_size true 4 s ≡ done (success_ret, word s.ota.size_file) s
  unfolding ioctl
  file_size-eq s e = rw e

length-empty_buffer : length empty_buffer ≤ http_ota_buff_len
unfolding empty_buffer
length-empty_buffer = omega (arith, length-replicate {A = ℕ} http_ota_buff_len 0)

module _ (p : Platform)
    (fits : (n ms : ℕ) (r : ℤ) (w : p.World) → length (p.http_recv n ms r w).0.bytes ≤ n)
    (quiet : (n : ℕ) (w : p.World) → (p.arrivals n w).0 ≡ []) where
  download_body-Sound :
      (fuel : ℕ) (deliver : Text → Act p.World (Unit {0})) (s : St p.World)
      → s.ota.state ≡ fetching
      → s.ota.size_fetched ≡ 0
      → s.ota.md5 ≡ some []
      → s.writes ≡ []
      → s.ota.size_file < fuel
      → s.ota.size_file + http_ota_buff_len < 2 ^ 32
      → Ensures ⊥ (download_body p fuel deliver s) (Sound p s.ota.md5sum s.ota.size_file)
  unfolding download_body
  download_body-Sound fuel deliver s running none_fetched none_fed none_written enough small =
      let Q = Sound p s.ota.md5sum s.ota.size_file in
      let asked = p.download_init s.ota.download_name s.world in
      let u : St p.World = record s { world = asked.1 } in
      let R : Bool → St p.World → Type 0 = λ _ t. (t.ota ≡ s.ota) × (t.writes ≡ s.writes) in
      rw (file_size-eq p s running) (
        >>=-Ensures ⊥ (if asked.0 then outside p.malloc else pure false) _ u R Q
          (if-Ensures ⊥ asked.0 (outside p.malloc) (pure false) u R (λ e. (refl, refl))
            (λ e. (refl, refl)))
          λ g t k.
            let ota_of = k.0 in
            let fetched_none : t.ota.size_fetched ≡ 0 =
              ap (λ (o : Ota). o.size_fetched) ota_of ∙ none_fetched in
            let size : t.ota.size_file ≡ s.ota.size_file = ap (λ (o : Ota). o.size_file) ota_of in
            let start : Written t 0 = record {
              digested =
                  ap (λ (o : Ota). o.md5) ota_of
                  ∙ none_fed
                  ∙ ap (λ (w : List (ℕ × List ℕ)). some (image w)) (sym (k.1 ∙ none_written));
              counted =
                  sym (ap (λ (w : List (ℕ × List ℕ)). u32 (length (image w))) (k.1 ∙ none_written));
              placed = rw (k.1 ∙ none_written) tt;
            } in
            if-Ensures ⊥ g _ _ t Q
              (λ e.
                >>=-Ensures ⊥ (download_loop p fuel deliver 0 empty_buffer) _ t (Ended p t) Q
                  (download_loop-Ended p fits quiet fuel deliver 0 empty_buffer t
                    length-empty_buffer (omega (arith, fetched_none))
                    (omega (arith, fetched_none, size)) (omega (arith, size)) start)
                  (λ l v h.
                    rw (← ap (λ (o : Ota). o.md5sum) ota_of)
                      (after_loop-Sound p t s.ota.size_file l v h)))
              (λ e. record { placed = start.placed; checked = λ f. cc }))

  -- IOT_OTA_fw_download, with one round of its loop for each byte of the file and one more as fuel,
  -- does not run out of fuel, where it starts in FETCHING with nothing fetched, fed to MD5 or written,
  -- the file leaves room below 2 ^ 32 for one more buffer, the HTTP client stores no more bytes than
  -- there is room for, and no OTA message arrives meanwhile. Where its behaviour is defined besides
  -- (nothing is said of a run that ends in a fault), what it wrote to the flash lies in one piece from
  -- offset 0 on, and where it returns SUCCESS_RET, the MD5 sum of what was written is the expected
  -- one, or the number of bytes written (modulo 2 ^ 32) is not the size of the file.
  pub fw_download-Sound :
      (fuel : ℕ) (deliver : Text → Act p.World (Unit {0})) (s : St p.World)
      → s.ota.state ≡ fetching
      → s.ota.size_fetched ≡ 0
      → s.ota.md5 ≡ some []
      → s.writes ≡ []
      → s.ota.size_file < fuel
      → s.ota.size_file + http_ota_buff_len < 2 ^ 32
      → Ensures ⊥ (fw_download p fuel deliver s) (Sound p s.ota.md5sum s.ota.size_file)
  unfolding fw_download
  fw_download-Sound fuel deliver s running none_fetched none_fed none_written enough small =
      let Q = Sound p s.ota.md5sum s.ota.size_file in
      >>=-Ensures ⊥ (download_body p fuel deliver) _ s Q Q
        (download_body-Sound fuel deliver s running none_fetched none_fed none_written enough small)
        λ ret t h.
          >>=-Ensures ⊥ (clear p) _ t (λ _ u. u.writes ≡ t.writes) Q (clear-writes p t)
            λ _ u e. record { placed = rw e h.placed; checked = rw e h.checked }
