-- ===== src/Examples/Phases.antt =====
-- A client that connects, stops, and connects again after shutting down.
use async_tcp.Common.{◌↔◌, true, ℕ, ◌≡◌, refl, some, [], ◌∷◌, arith}
use async_tcp.Lwip.{is_ok, closed}
use async_tcp.Lwip.Refcount.{sample}
use async_tcp.Lwip.Registered.{registration, registered}
use async_tcp.Context.{Context}
use async_tcp.Context.Lifecycle
use async_tcp.Context.Lifecycle.{new_context, init_rx_buffer, close}
use async_tcp.Context.Options
use async_tcp.Client.{Closure, new_client}
use async_tcp.Context.Events.{s_poll}
use async_tcp.Client.Callbacks.{closures}
use async_tcp.Client.Connection.{ts_connect, ts_status, start, opened, stop}
use async_tcp.System.{System, connecting, stopping, shutting_down, polling, handle}
use async_tcp.System.Valid.{Works}
use async_tcp.System.Trace.{Trace, empty, step, initial}
use async_tcp.System.Phases.{idle, linked, parted, phase, phase_of, Route}
use async_tcp.System.Phases.Refines.{trace-Route}
use async_tcp.System.Phases.Result.{ts_connect-Says}
use async_tcp.System.Phases.Stopped.{stop-stays_parted, cleared, shutdown-connects}
use async_tcp.Examples.{lwip, world}
use async_tcp.Examples.Session.{statics, online, context}

-- Connected, stopped, and refused.
stopped : (m : System) × Trace lwip (initial statics world) m
unfolding handle ts_connect start opened Lifecycle.connect Options.set_no_delay sample new_client
    stop close
stopped = (
  _,
  step (step (step empty (connecting 100 2 17) tt refl) stopping tt refl) (connecting 200 2 17) tt
      refl,
)

trace-Route_example : Route (connecting 200 2 17 ∷ stopping ∷ connecting 100 2 17 ∷ []) idle parted
unfolding stopped
trace-Route_example = trace-Route stopped.1

-- After `stop`: a poll, and an attempt to connect.
abbrev left : System
left = record {
  statics = statics;
  client = (stop lwip online.client world).1;
  world = (stop lwip online.client world).2;
}

waiting : (m : System) × Trace lwip left m
unfolding handle ts_connect opened new_client new_context init_rx_buffer stop close s_poll sample
    closures
waiting = (_, step (step empty polling tt refl) (connecting 200 2 17) tt refl)

stop-stays_parted_example :
    (phase waiting.0 ≡ parted)
    × (ts_status waiting.0.client waiting.0.world ≡ closed)
    × ((fresh ip port : ℕ)
        → ts_connect lwip fresh ip port waiting.0.statics waiting.0.client waiting.0.world
          ≡ (lwip.pico_error_resource_in_use, waiting.0.statics, waiting.0.client, waiting.0.world))
unfolding waiting
stop-stays_parted_example =
    stop-stays_parted lwip statics online.client world context waiting.0 refl waiting.1
      (λ e. cc, (λ e. cc, tt))

shutdown-connects_example :
    (m' : System) × (handle lwip shutting_down online ≡ some (cleared lwip online))
    × (handle lwip (connecting 200 2 17) (cleared lwip online) ≡ some m')
    × (phase m' ≡ linked)
    × ((c : Context Closure) × (m'.client.ctx ≡ some c) × Works c m'.world × (c.pcb ≡ 7))
    × (registration 7 m'.world.calls ≡ registered 200)
unfolding sample
shutdown-connects_example = shutdown-connects lwip online 200 2 17 (λ e. omega arith) refl

ts_connect-Says_example :
    let r = ts_connect lwip 100 2 17 statics new_client world in
    (is_ok r.0 ≡ true) ↔ ((phase_of new_client.ctx ≡ idle) × (phase_of r.2.ctx ≡ linked))
unfolding sample
ts_connect-Says_example = ts_connect-Says lwip 100 2 17 statics new_client world refl refl
