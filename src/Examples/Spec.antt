-- ===== src/Examples/Spec.antt =====
-- The account of a client that connects, gets a delivery and is polled.
use async_tcp.Common.{◌≡◌, refl, true, [], ◌∷◌}
use async_tcp.Lwip.{ok}
use async_tcp.Lwip.Chains.{erase_all}
use async_tcp.Lwip.Refcount.{sample}
use async_tcp.RxBuffer.{lwip_receive_callback, received, on_callback}
use async_tcp.Context.Lifecycle
use async_tcp.Context.Lifecycle.{new_context, init_rx_buffer}
use async_tcp.Context.Options
use async_tcp.Context.Events.{receive, s_poll}
use async_tcp.Client.{new_client}
use async_tcp.Client.Callbacks.{closures, on_receive_callback}
use async_tcp.Client.Connection.{ts_connect, start, opened, destroy}
use async_tcp.System.{System, receiving, polling, handle}
use async_tcp.System.Trace.{Trace, step, initial}
use async_tcp.System.Spec.{session, next}
use async_tcp.System.Spec.Refines.{Seen, trace-Seen}
use async_tcp.System.Freed.{trace-destroy}
use async_tcp.Examples.{lwip, laws, arrived, store, world}
use async_tcp.Examples.Session.{statics, delivery}
use async_tcp.Examples.Session

run : (m : System) × Trace lwip (initial statics world) m
unfolding Session.session handle opened new_client new_context init_rx_buffer receive received
    on_callback closures lwip_receive_callback on_receive_callback s_poll sample ts_connect start
    Lifecycle.connect Options.set_no_delay
run = (_, step (step Session.session.1 (receiving 7 arrived ok) delivery refl) polling tt refl)

trace-Seen_example : Seen (session true (15 ∷ [])) run.0
unfolding run Session.session next sample opened new_client new_context init_rx_buffer
trace-Seen_example = trace-Seen laws statics world run.0 run.1

trace-destroy_example : (destroy lwip run.0.client run.0.world).1.mem ≡ erase_all arrived store
unfolding run Session.session new_client
trace-destroy_example = trace-destroy laws statics world run.0 run.1 (tt, (tt, (tt, tt)))
