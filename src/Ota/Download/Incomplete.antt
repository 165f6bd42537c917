-- ===== src/Ota/Download/Incomplete.antt =====
-- IOT_OTA_fw_download (uiot/ota/src/ota_client.c) where the first fetch fails for a time.
use ucloud_iot_rtthread_pack.Prelude.{
  Text, ℕ, suc, ◌≡◌, refl, ap, ◌∙◌, arith, inr, List, [], ◌∷◌, ◌++◌, Bool, true, false, ℤ, pos,
  negsuc, eq_ℤ, u32, ◌==◌, if◌then◌else◌, take,
}
use ucloud_iot_rtthread_pack.Codes.{success_ret, failure_ret}
use ucloud_iot_rtthread_pack.Ota.State.{fetching, fetched, Platform, Act, St, done, pure, outside}
use ucloud_iot_rtthread_pack.Ota.Ensures.{Ensures, >>=-Ensures, if-Ensures}
use ucloud_iot_rtthread_pack.Ota.Fetch.{ofc_fetch, fetch_yield}
use ucloud_iot_rtthread_pack.Ota.Fetch.EarlyEnd.{Transient, after_failure, Done, fetch_yield-Done}
use ucloud_iot_rtthread_pack.Ota.Download.{
  fw_download, download_body, download_loop, after_loop, clear, LoopEnd, finished,
  http_ota_buff_len, http_ota_range_len, empty_buffer,
}
use ucloud_iot_rtthread_pack.Ota.Download.Loop.{ota_yield-quiet, is_fetch_finish-Active}
use ucloud_iot_rtthread_pack.Ota.Download.Verified.{clear-writes, file_size-eq}

module _ (p : Platform) (quiet : (n : ℕ) (w : p.World) → (p.arrivals n w).0 ≡ [])
    (written : (o : ℕ) (b : List ℕ) (w : p.World)
      → eq_ℤ (p.download_write o b w).0 failure_ret ≡ false)
    (deliver : Text → Act p.World (Unit {0})) (e n : ℕ) (b1 b2 : List ℕ)
    (s s1 s3 : St p.World) where
  -- Only this was written.
  abbrev Wrote : St p.World → Type 0
  Wrote t = t.writes ≡ s3.writes ++ (0, take (suc n) b2) ∷ []

  download_loop-Wrote :
      (fuel : ℕ)
      → s.ota.state ≡ fetching
      → Transient (negsuc e)
      → ofc_fetch p empty_buffer http_ota_buff_len http_ota_range_len 10 s ≡ done (negsuc e, b1) s1
      → ofc_fetch p b1 http_ota_buff_len http_ota_range_len 10 (after_failure s1)
        ≡ done (pos (suc n), b2) s3
      → s3.ota.state ≡ fetched
      → Ensures ⊥
          (download_loop p (suc fuel) deliver 0 empty_buffer s)
          (λ l t. (l ≡ finished (u32 (suc n))) × Wrote t)
  unfolding download_loop
  download_loop-Wrote fuel started h first second state =
      let r : ℤ × List ℕ = (pos (suc n), b2) in
      let Q : LoopEnd → St p.World → Type 0 = λ l t. (l ≡ finished (u32 (suc n))) × Wrote t in
      >>=-Ensures ⊥ (fetch_yield p empty_buffer http_ota_buff_len http_ota_range_len 10) _ s
        (λ q t. (q ≡ r) × Done p s3 t) Q
        (fetch_yield-Done p empty_buffer b1 b2 http_ota_buff_len http_ota_range_len 10 e n s s1 s3
          refl started h first second state)
        λ q t k.
          let w = (p.download_write 0 (take (suc n) b2) t.world).1 in
          let u : St p.World = record t {
            world = w;
            writes = t.writes ++ (0, take (suc n) b2) ∷ [];
          } in
          let v : St p.World = record u { world = (p.arrivals 100 w).1 } in
          rw k.0 (
            rw (written 0 (take (suc n) b2) t.world) (
              rw
                (
                  ota_yield-quiet p deliver 100 u (quiet 100 w),
                  is_fetch_finish-Active p v (inr k.1.0),
                )
                (rw k.1.0 (
                  ap finished (omega arith),
                  ap (λ (ws : List (ℕ × List ℕ)). ws ++ (0, take (suc n) b2) ∷ []) k.1.1,
                ))))

after_loop-short :
    (p : Platform) (size total : ℕ) (s : St p.World)
    → (total == size) ≡ false
    → after_loop p size (finished total) s ≡ done success_ret s
unfolding after_loop
after_loop-short p size total s h = rw h

-- After HAL_Download_Init and the allocation of the buffer.
abbrev pub prepared : (p : Platform) → St p.World → St p.World
prepared p s = record s { world = (p.malloc (p.download_init s.ota.download_name s.world).1).1 }

module _ (p : Platform) (quiet : (n : ℕ) (w : p.World) → (p.arrivals n w).0 ≡ [])
    (written : (o : ℕ) (b : List ℕ) (w : p.World)
      → eq_ℤ (p.download_write o b w).0 failure_ret ≡ false) where
  -- An incomplete download can be reported as a success. Suppose that the flash is ready, the first
  -- fetch fails with a code other than those for the connection, the signature, a missing file and a
  -- timeout, the second one leaves the state FETCHED and returns fewer or more bytes than the file
  -- has, no write to the flash fails, and no OTA message arrives. Then, where its behaviour is defined,
  -- IOT_OTA_fw_download ends behind these bytes and returns SUCCESS_RET: it has written them and
  -- nothing else.
  pub fw_download_incomplete :
      (deliver : Text → Act p.World (Unit {0})) (fuel e n : ℕ) (b1 b2 : List ℕ)
      (s s1 s3 : St p.World)
      → s.ota.state ≡ fetching
      → (p.download_init s.ota.download_name s.world).0 ≡ true
      → (p.malloc (p.download_init s.ota.download_name s.world).1).0 ≡ true
      → Transient (negsuc e)
      → ofc_fetch p empty_buffer http_ota_buff_len http_ota_range_len 10 (prepared p s)
        ≡ done (negsuc e, b1) s1
      → ofc_fetch p b1 http_ota_buff_len http_ota_range_len 10 (after_failure s1)
        ≡ done (pos (suc n), b2) s3
      → s3.ota.state ≡ fetched
      → (u32 (suc n) == s.ota.size_file) ≡ false
      → Ensures ⊥
          (fw_download p (suc fuel) deliver s)
          (λ ret t. (ret ≡ success_ret) × (t.writes ≡ s3.writes ++ (0, take (suc n) b2) ∷ []))
  unfolding fw_download download_body
  fw_download_incomplete deliver fuel e n b1 b2 s s1 s3 started opened granted h first second state
        short =
      let ready = prepared p s in
      let wrote = s3.writes ++ (0, take (suc n) b2) ∷ [] in
      let Q : ℤ → St p.World → Type 0 = λ ret t. (ret ≡ success_ret) × (t.writes ≡ wrote) in
      let asked = p.download_init s.ota.download_name s.world in
      let u : St p.World = record s { world = asked.1 } in
      let R : Bool → St p.World → Type 0 = λ g t. (g ≡ true) × (t ≡ ready) in
      >>=-Ensures ⊥ (download_body p (suc fuel) deliver) _ s Q Q
        (rw (file_size-eq p s started) (
          >>=-Ensures ⊥ (if asked.0 then outside p.malloc else pure false) _ u R Q
            (if-Ensures ⊥ asked.0 (outside p.malloc) (pure false) u R (λ _. (granted, refl))
              (λ f. cc))
            λ g t k.
              if-Ensures ⊥ g _ _ t Q
                (λ _. rw k.1 (
                  >>=-Ensures ⊥ (download_loop p (suc fuel) deliver 0 empty_buffer) _ ready
                    (λ l v. (l ≡ finished (u32 (suc n))) × (v.writes ≡ wrote)) Q
                    (download_loop-Wrote p quiet written deliver e n b1 b2 ready s1 s3 fuel started
                      h first second state)
                    (λ l v m.
                      rw m.0 (
                        rw (after_loop-short p s.ota.size_file (u32 (suc n)) v short)
                          (refl, m.1)))))
                (λ f. cc)))
        λ ret t k.
          >>=-Ensures ⊥ (clear p) _ t (λ _ v. v.writes ≡ t.writes) Q (clear-writes p t)
            λ _ v m. (k.0, m ∙ k.1)
