-- ===== src/Ota/Destroy/Undefined.antt =====
-- IOT_OTA_Destroy (uiot/ota/src/ota_client.c) frees a channel that may not be there.
use ucloud_iot_rtthread_pack.Prelude.{
  Text, ℕ, ◌≡◌, refl, List, Bool, true, false, Option, none, some, [], if◌then◌else◌, subst,
}
use ucloud_iot_rtthread_pack.Ota.State.{
  Ota, inited, FetchChannel, null, open_at, freed, Platform, Act, St, fault, ◌>>◌,
}
use ucloud_iot_rtthread_pack.Ota.Ensures.{Ensures, >>=-Ensures}
use ucloud_iot_rtthread_pack.Ota.Fetch.{ofc_deinit, close_channel}
use ucloud_iot_rtthread_pack.Ota.Download.{fw_download, download_body, clear, reset}
use ucloud_iot_rtthread_pack.Ota.Init.{ota_init, osc_init, zeroed}
use ucloud_iot_rtthread_pack.Ota.Callback.States.{Ensures-any}
use ucloud_iot_rtthread_pack.Ota.Destroy.{ota_destroy}

module _ (p : Platform) where
  clear-freed : (s : St p.World) → Ensures Unit (clear p s) (λ _ t. ota_destroy p t ≡ fault)
  unfolding clear ofc_deinit ota_destroy
  clear-freed s = cleared s.ota.ch_fetch
    where
      cleared :
          (ch : FetchChannel)
          → Ensures Unit ((close_channel p ch >> reset p) s) (λ _ t. ota_destroy p t ≡ fault)
      cleared null = tt
      cleared freed = tt
      cleared (open_at r) = refl

  -- NULL, or a handle that cannot be destroyed.
  abbrev Unusable : p.World → List (ℕ × List ℕ) → Option Ota → Type 0
  Unusable w ws none = Unit
  Unusable w ws (some o) = ota_destroy p (record { ota = o; world = w; writes = ws }) ≡ fault

  abbrev result :
      Text → Text → Bool → Bool → Bool → p.World → p.World → p.World → Option Ota × p.World
  result a b granted signal md5 w1 w2 w3 =
      if granted
      then if signal
        then if md5
          then (some (record (zeroed a b) { md5 = some []; state = inited }), w3)
          else (none, w3)
        else (none, w2)
      else (none, w1)

  ota_init-Unusable :
      (a b : Text) (w v : p.World) (ws : List (ℕ × List ℕ)) → Unusable v ws (ota_init p a b w).0
  unfolding ota_init ota_destroy ofc_deinit
  ota_init-Unusable a b w v ws =
      let w1 = (p.malloc w).1 in
      let signal = osc_init p a b w1 in
      branches (p.malloc w).0 signal.0 (p.malloc signal.1).0 w1 signal.1 (p.malloc signal.1).1
    where
      branches :
          (granted signal md5 : Bool) (w1 w2 w3 : p.World)
          → Unusable v ws (result a b granted signal md5 w1 w2 w3).0
      branches false signal md5 w1 w2 w3 = tt
      branches true false md5 w1 w2 w3 = tt
      branches true true false w1 w2 w3 = tt
      branches true true true w1 w2 w3 = refl

-- A handle fresh from IOT_OTA_Init has no channel, and after IOT_OTA_fw_download the channel has been
-- freed: IOT_OTA_Destroy is undefined for both (the latter where IOT_OTA_fw_download is defined and
-- its fuel suffices).
pub ota_destroy_undefined :
    (p : Platform) (a b : Text) (w v : p.World) (ws : List (ℕ × List ℕ)) (o : Ota)
    → (ota_init p a b w).0 ≡ some o
    → (rounds : ℕ) (deliver : Text → Act p.World (Unit {0})) (s : St p.World)
    → (ota_destroy p (record { ota = o; world = v; writes = ws }) ≡ fault)
      × Ensures Unit (fw_download p rounds deliver s) (λ ret t. ota_destroy p t ≡ fault)
unfolding fw_download
ota_destroy_undefined p a b w v ws o h rounds deliver s = (
  subst (Unusable p v ws) h (ota_init-Unusable p a b w v ws),
  >>=-Ensures Unit (download_body p rounds deliver) _ s (λ ret t. Unit)
      (λ ret t. ota_destroy p t ≡ fault) (Ensures-any (download_body p rounds deliver s))
      λ ret t _.
        >>=-Ensures Unit (clear p) _ t (λ _ u. ota_destroy p u ≡ fault)
          (λ ret u. ota_destroy p u ≡ fault) (clear-freed p t) λ _ u e. e,
)
