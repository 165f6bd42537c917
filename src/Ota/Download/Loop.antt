-- ===== src/Ota/Download/Loop.antt =====
-- The loop of IOT_OTA_fw_download (uiot/ota/src/ota_client.c): what it writes is what it digests.
use ucloud_iot_rtthread_pack.Prelude.{
  Text, ℕ, zero, suc, ◌+◌, ◌^◌, ◌≤◌, ◌<◌, ◌≡◌, refl, sym, ap, ◌∙◌, arith, inl, inr, List, [], ◌∷◌,
  ◌++◌, true, false, some, ℤ, pos, negsuc, leb, length, length-append, length-take, is_neg, is_pos,
  to_ℕ, eq_ℤ, u32, take, Bool-cases, append_assoc, append-nil,
}
use ucloud_iot_rtthread_pack.Codes.{failure_ret}
use ucloud_iot_rtthread_pack.Ota.State.{
  OtaState, uninited, inited, fetching, fetched, disconnected, Platform, Act, St, done, is_fetched,
}
use ucloud_iot_rtthread_pack.Ota.Ensures.{Ensures, >>=-Ensures, if-Ensures, Ensures-mono}
use ucloud_iot_rtthread_pack.Ota.Fetch.{fetch_yield}
use ucloud_iot_rtthread_pack.Ota.Fetch.Retries.{Active}
use ucloud_iot_rtthread_pack.Ota.Fetch.Progress.{Accounted, fetch_yield-Stepped}
use ucloud_iot_rtthread_pack.Ota.Download.{
  download_loop, ota_yield, is_fetch_finish, LoopEnd, stopped, finished, http_ota_buff_len,
  http_ota_range_len,
}

-- The bytes of the writes, in order.
abbrev pub image : List (ℕ × List ℕ) → List ℕ
image [] = []
image ((offset, bytes) ∷ ws) = bytes ++ image ws

-- Each write starts where the one before it ended.
abbrev pub Contiguous : ℕ → List (ℕ × List ℕ) → Type 0
Contiguous n [] = Unit
Contiguous n ((offset, bytes) ∷ ws) = (offset ≡ u32 n) × Contiguous (n + length bytes) ws

image-append :
    (ws : List (ℕ × List ℕ)) (offset : ℕ) (bytes : List ℕ)
    → image (ws ++ (offset, bytes) ∷ []) ≡ image ws ++ bytes
image-append [] offset bytes = append-nil bytes
image-append ((o, b) ∷ ws) offset bytes =
    ap (λ (x : List ℕ). b ++ x) (image-append ws offset bytes)
    ∙ sym (append_assoc b (image ws) bytes)

Contiguous-append :
    (n : ℕ) (ws : List (ℕ × List ℕ)) (offset : ℕ) (bytes : List ℕ)
    → Contiguous n ws
    → offset ≡ u32 (n + length (image ws))
    → Contiguous n (ws ++ (offset, bytes) ∷ [])
Contiguous-append n [] offset bytes h e = (omega (arith, e), tt)
Contiguous-append n ((o, b) ∷ ws) offset bytes h e = (
  h.0,
  Contiguous-append (n + length b) ws offset bytes h.1
      (omega (arith, e, length-append b (image ws))),
)

-- MD5 was fed what was written, `total` counts it, and it lies in one piece from the start.
pub record Written {W : Type 0} (s : St W) (total : ℕ) : Type 0 where
  pub digested : s.ota.md5 ≡ some (image s.writes)
  pub counted : total ≡ u32 (length (image s.writes))
  pub placed : Contiguous 0 s.writes

fetched_of : (q : OtaState) → is_fetched q ≡ true → q ≡ fetched
fetched_of uninited h = cc
fetched_of inited h = cc
fetched_of fetching h = cc
fetched_of fetched h = refl
fetched_of disconnected h = cc

-- What is not fetched as a whole leaves something to fetch.
not_whole : {m n : ℕ} {q : OtaState} → (m ≤ n → q ≡ fetched) → is_fetched q ≡ false → n < m
not_whole {m} {n} {q} whole g = elim (Bool-cases (leb m n)) [
  | inl e ↦ cc (ap is_fetched (whole (ground arith)), g)
  | inr e ↦ ground arith
]

module _ (p : Platform) where
  abbrev pub Ended : St p.World → LoopEnd → St p.World → Type 0
  Ended s (stopped ret) u = (is_neg ret ≡ true) × Contiguous 0 u.writes
  Ended s (finished total) u =
      Written u total × (u.ota.state ≡ fetched) × (u.ota.md5sum ≡ s.ota.md5sum)

  Ended-from :
      (s v : St p.World)
      → v.ota.md5sum ≡ s.ota.md5sum
      → (l : LoopEnd) (u : St p.World) → Ended v l u
      → Ended s l u
  Ended-from s v e (stopped ret) u h = h
  Ended-from s v e (finished total) u h = (h.0, h.1, h.2 ∙ e)

  pub ota_yield-quiet :
      (deliver : Text → Act p.World (Unit {0})) (n : ℕ) (s : St p.World)
      → (p.arrivals n s.world).0 ≡ []
      → ota_yield p deliver n s ≡ done tt (record s { world = (p.arrivals n s.world).1 })
  unfolding ota_yield
  ota_yield-quiet deliver n s h = rw h

  pub is_fetch_finish-Active :
      (s : St p.World) → Active s.ota.state → is_fetch_finish p s ≡ done (is_fetched s.ota.state) s
  unfolding is_fetch_finish
  is_fetch_finish-Active s (inl e) = rw e
  is_fetch_finish-Active s (inr e) = rw e

  -- A write behind a fetch.
  Written-write :
      (n total : ℕ) (buf : List ℕ) (s t : St p.World) (w : p.World)
      → Written s total
      → Accounted n buf s t
      → Written
          (record t { world = w; writes = t.writes ++ (total, take n buf) ∷ [] })
          (u32 (total + n))
  Written-write n total buf s t w h a =
      let same : image t.writes ≡ image s.writes = ap image a.writes_same in
      let grown = image-append t.writes total (take n buf) in
      record {
        digested =
            a.fed (image s.writes) h.digested
            ∙ ap (λ (b : List ℕ). some (b ++ take n buf)) (sym same)
            ∙ ap (λ (b : List ℕ). some b) (sym grown);
        counted = omega (
          arith,
          h.counted,
          ap length grown,
          ap length same,
          length-append (image t.writes) (take n buf),
          length-take n buf a.within,
        );
        placed =
            Contiguous-append 0 t.writes total (take n buf) (rw a.writes_same h.placed)
              (omega (arith, h.counted, ap length same));
      }

  placed-write :
      (n total : ℕ) (buf : List ℕ) (s t : St p.World)
      → Written s total
      → Accounted n buf s t
      → Contiguous 0 (t.writes ++ (total, take n buf) ∷ [])
  placed-write n total buf s t h a = (Written-write n total buf s t t.world h a).placed

some_bytes : (r : ℤ) → is_pos r ≡ true → 0 < to_ℕ r
some_bytes (pos zero) e = cc
some_bytes (pos (suc n)) e = omega arith
some_bytes (negsuc n) e = cc

module _ (p : Platform)
    (fits : (n ms : ℕ) (r : ℤ) (w : p.World) → length (p.http_recv n ms r w).0.bytes ≤ n)
    (quiet : (n : ℕ) (w : p.World) → (p.arrivals n w).0 ≡ []) where
  -- With a round for each byte of the file and one more, the loop of the download ends.
  pub download_loop-Ended :
      (fuel : ℕ) (deliver : Text → Act p.World (Unit {0})) (total : ℕ) (buf : List ℕ)
      (s : St p.World)
      → length buf ≤ http_ota_buff_len
      → s.ota.size_fetched ≤ s.ota.size_file
      → s.ota.size_file < s.ota.size_fetched + fuel
      → s.ota.size_file + http_ota_buff_len < 2 ^ 32
      → Written s total
      → Ensures ⊥ (download_loop p fuel deliver total buf s) (Ended p s)
  unfolding download_loop
  download_loop-Ended zero deliver total buf s small below enough fits32 h = absurd (omega arith)
  download_loop-Ended (suc fuel) deliver total buf s small below enough fits32 h =
      >>=-Ensures ⊥ (fetch_yield p buf http_ota_buff_len http_ota_range_len 10) _ s _ (Ended p s)
        (fetch_yield-Stepped p fits buf http_ota_buff_len http_ota_range_len 10 s small)
        λ r t y.
          if-Ensures ⊥ (is_pos r.0) _ _ t (Ended p s)
            (λ e.
              let (started, (a, active, whole)) = y.2 e in
              let n = to_ℕ r.0 in
              let (ret, w) = p.download_write total (take n r.1) t.world in
              let u : St p.World = record t {
                world = w;
                writes = t.writes ++ (total, take n r.1) ∷ [];
              } in
              if-Ensures ⊥ (eq_ℤ ret failure_ret) _ _ u (Ended p s)
                (λ f. (refl, placed-write p n total r.1 s t h a))
                (λ f.
                  let v : St p.World = record u { world = (p.arrivals 100 w).1 } in
                  rw
                    (
                      ota_yield-quiet p deliver 100 u (quiet 100 w),
                      is_fetch_finish-Active p v active,
                    )
                    (if-Ensures ⊥ (is_fetched t.ota.state) _ _ v (Ended p s)
                      (λ g. (
                        Written-write p n total r.1 s t v.world h a,
                        fetched_of t.ota.state g,
                        a.md5sum_same,
                      ))
                      (λ g.
                        let running = not_whole whole g in
                        Ensures-mono ⊥ (download_loop p fuel deliver (u32 (total + n)) r.1 v)
                          (Ended p v) (Ended p s)
                          (download_loop-Ended fuel deliver (u32 (total + n)) r.1 v y.0
                            (omega (arith, running, a.size_file_same))
                            (omega (
                              arith,
                              running,
                              y.0,
                              some_bytes r.0 e,
                              a.within,
                              a.size_counted,
                              a.size_file_same,
                            ))
                            (omega (arith, a.size_file_same))
                            (Written-write p n total r.1 s t v.world h a))
                          (Ended-from p s v a.md5sum_same)))))
            (λ e. (refl, rw y.1 h.placed))
