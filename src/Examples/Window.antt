-- ===== src/Examples/Window.antt =====
-- The receive window of a client that connects, gets a delivery and reads it.
use async_tcp.Common.{◌+◌, ◌≤◌, refl, arith, true, []}
use async_tcp.Lwip.{ok}
use async_tcp.Lwip.Credit.{credited}
use async_tcp.Lwip.Refcount.{sample}
use async_tcp.RxBuffer.{
  ack_loop, to_ack, peek_consume, lwip_receive_callback, received, on_callback, fast_path, free,
  slow_path, slow_loop,
}
use async_tcp.Context.Lifecycle
use async_tcp.Context.Lifecycle.{new_context, init_rx_buffer}
use async_tcp.Context.Options
use async_tcp.Context.Events.{receive}
use async_tcp.Client.{new_client}
use async_tcp.Client.Callbacks.{closures, on_receive_callback}
use async_tcp.Client.Connection.{ts_connect, start, opened}
use async_tcp.System.{System, receiving, consuming, handle}
use async_tcp.System.Trace.{Trace, step, initial}
use async_tcp.System.Spec.{session, next}
use async_tcp.System.Window.{unread_count}
use async_tcp.System.Window.Runs.{trace-credited}
use async_tcp.Examples.{lwip, laws, arrived, world}
use async_tcp.Examples.Session.{statics, delivery}
use async_tcp.Examples.Session

run : (m : System) × Trace lwip (initial statics world) m
unfolding Session.session handle opened new_client new_context init_rx_buffer receive received
    on_callback closures lwip_receive_callback on_receive_callback peek_consume fast_path free
    to_ack ack_loop slow_path slow_loop sample ts_connect start Lifecycle.connect
    Options.set_no_delay
run = (
  _,
  step (step Session.session.1 (receiving 7 arrived ok) delivery refl) (consuming 1)
      (omega arith, (_, refl)) refl,
)

trace-credited_example : credited run.0.world.calls + unread_count (session true []) ≤ 1
unfolding run Session.session next sample opened new_client new_context init_rx_buffer
trace-credited_example = trace-credited laws statics world run.0 run.1 (tt, (tt, (tt, tt)))
