-- ===== src/Mqtt/Construct/Credentials.antt =====
-- The credentials of IOT_MQTT_Construct (uiot/mqtt/src/mqtt_client.c) fit in their buffers.
use ucloud_iot_rtthread_pack.Prelude.{
  ℕ, ◌+◌, ◌-◌, ◌≤◌, ◌≡◌, refl, ap, arith, Option, none, some, ◌∷◌, ◌++◌, length, length-append,
  take_short, Text,
}
use ucloud_iot_rtthread_pack.Mqtt.Construct.{
  InitParams, connect_params, auth_mode_text, printed, secret_of, client_id_len, username_len,
}

-- The secret of the device, or else that of the product.
abbrev pub chosen : Option Text → Option Text → Option Text
chosen (some secret) product = some secret
chosen none product = product

printed_whole : (n : ℕ) (text : Text) → length text + 1 ≤ n → printed n text ≡ text
printed_whole n text h = take_short (n - 1) text (omega arith)

length-auth_mode_text : (device product : Option Text) → length (auth_mode_text device product) ≡ 1
unfolding auth_mode_text
length-auth_mode_text (some secret) product = refl
length-auth_mode_text none (some secret) = refl
length-auth_mode_text none none = refl

secret_of_whole : (device product : Option Text) → secret_of device product ≡ chosen device product
secret_of_whole (some secret) product =
    ap some (printed_whole (length secret + 1) secret (omega arith))
secret_of_whole none (some secret) =
    ap some (printed_whole (length secret + 1) secret (omega arith))
secret_of_whole none none = refl

-- Whatever the serial numbers and secrets are, nothing of the credentials is cut off: the identifier
-- is product.device, the user name product|device|mode, and the password the whole secret.
pub connect_params_whole :
    (p : InitParams)
    → let o = connect_params p in
      (o.client_id ≡ p.product_sn ++ b'.' ∷ p.device_sn)
      × (o.username
          ≡ some (
              p.product_sn
              ++ b'|' ∷ (p.device_sn ++ b'|' ∷ auth_mode_text p.device_secret p.product_secret)))
      × (o.password ≡ chosen p.device_secret p.product_secret)
unfolding connect_params
connect_params_whole p =
    let mode = auth_mode_text p.device_secret p.product_secret in
    (
      printed_whole (client_id_len p) (p.product_sn ++ b'.' ∷ p.device_sn)
          (omega (arith, length-append p.product_sn (b'.' ∷ p.device_sn))),
      ap some (
          printed_whole (username_len p) (p.product_sn ++ b'|' ∷ (p.device_sn ++ b'|' ∷ mode)) (
            omega (
              arith,
              length-append p.product_sn (b'|' ∷ (p.device_sn ++ b'|' ∷ mode)),
              length-append p.device_sn (b'|' ∷ mode),
              length-auth_mode_text p.device_secret p.product_secret,
            ))),
      secret_of_whole p.device_secret p.product_secret,
    )
