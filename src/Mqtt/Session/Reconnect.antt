-- ===== src/Mqtt/Session/Reconnect.antt =====
-- uiot/mqtt/src/mqtt_client_yield.c: _handle_reconnect where the attempt to reconnect fails.
use ucloud_iot_rtthread_pack.Prelude.{ℕ, ◌+◌, u32}
use ucloud_iot_rtthread_pack.Mqtt.Act.{Hal, St}

module _ (hal : Hal) where
  -- The client waits `interval` ms for its next attempt, from the next look at the clock on.
  abbrev pub waiting_for : ℕ → St hal.World → St hal.World
  waiting_for interval t =
      let (now, w) = hal.tick t.world in
      record {
        client = record t.client {
          current_reconnect_wait_interval = interval;
          reconnect_delay_timer = u32 (now + hal.ticks_of_ms interval);
        };
        world = w;
      }
