-- ===== src/Shadow/Api/Timeouts.antt =====
-- IOT_Shadow_Yield (uiot/shadow/src/shadow_client.c) ends the wait for a reply.
use ucloud_iot_rtthread_pack.Prelude.{
  ℕ, ◌<◌, ◌≡◌, arith, [], ◌++◌, true, ◌==◌, false, ℤ, ok, length,
}
use ucloud_iot_rtthread_pack.Shadow.State.{ack_timeout, Host, St}
use ucloud_iot_rtthread_pack.Shadow.Client.{iterator, handle_expired_request}
use ucloud_iot_rtthread_pack.Shadow.Client.Called.{answers}
use ucloud_iot_rtthread_pack.Shadow.Client.Expiry.{after_ticks, FromOn, HavePassed, expire_each-all}
use ucloud_iot_rtthread_pack.Shadow.Api.{shadow_yield, deliver_each}

-- Where no message arrives, the iterator over the requests can be allocated, and each look of the
-- call at the clock reads `now` or later, behind the timer of every pending request: one
-- IOT_Shadow_Yield answers every request with a timeout, the last one first, none is pending any
-- more, and its result is that of IOT_MQTT_Yield.
pub shadow_yield-timeouts :
    (p : Host) (now timeout_ms : ℕ) (s : St p.World) (ret : ℤ) (w₁ w₂ : p.World)
    → 0 < timeout_ms
    → iterator p s.shadow.requests s.world ≡ (true, w₁)
    → FromOn p now (length s.shadow.requests) w₁
    → HavePassed now s.shadow.requests
    → p.yield timeout_ms (after_ticks p (length s.shadow.requests) w₁) ≡ (([], ret), w₂)
    → shadow_yield p timeout_ms s
      ≡ ok (
        ret,
        record {
          shadow = record s.shadow {
            requests = [];
            events = s.shadow.events ++ answers ack_timeout s.shadow.requests;
          };
          world = w₂;
        },
      )
unfolding shadow_yield deliver_each handle_expired_request
shadow_yield-timeouts p now timeout_ms s ret w₁ w₂ pos granted from h quiet =
    let waits : (timeout_ms == 0) ≡ false = ground arith in
    rw (
      waits,
      granted,
      expire_each-all p now s.shadow.requests (record s { world = w₁ }) from h,
      quiet,
    )
