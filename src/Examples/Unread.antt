-- ===== src/Examples/Unread.antt =====
-- A delivery to a connected client, a poll, and reading it.
use async_tcp.Common.{◌++◌, refl, [], ◌∷◌, arith}
use async_tcp.Lwip.{ok}
use async_tcp.Lwip.Refcount.{sample}
use async_tcp.RxBuffer.{
  ack_loop, to_ack, peek_consume, lwip_receive_callback, received, on_callback, fast_path, free,
  slow_path, slow_loop,
}
use async_tcp.Context.Lifecycle.{new_context, init_rx_buffer}
use async_tcp.Context.Events.{receive, s_poll}
use async_tcp.Client.{new_client}
use async_tcp.Client.Callbacks.{closures, on_receive_callback}
use async_tcp.Client.Connection.{opened}
use async_tcp.System.{System, receiving, consuming, polling, handle, Legal}
use async_tcp.System.Trace.{Trace, empty, step}
use async_tcp.System.Unread.{Carries, Left}
use async_tcp.System.Unread.Runs.{trace-Left}
use async_tcp.Examples.{lwip, laws, arrived}
use async_tcp.Examples.Session.{online, context, context-Works, arriving-Legal}

pub online-Carries : Carries online []
unfolding context-Works
online-Carries = record { context = context; here = refl; works = context-Works; same = refl }

pub delivery : Legal (receiving 7 arrived ok) online
unfolding opened new_context init_rx_buffer
delivery = arriving-Legal online context _ refl refl refl refl

unfoldable pub run : (m : System) × Trace lwip online m
unfolding handle opened new_client new_context init_rx_buffer receive received on_callback closures
    lwip_receive_callback on_receive_callback s_poll peek_consume fast_path free to_ack ack_loop
    slow_path slow_loop sample
run = (
  _,
  step (step (step empty (receiving 7 arrived ok) delivery refl) polling tt refl) (consuming 1)
      (omega arith, (_, refl)) refl,
)

trace-Left_example : Left ([] ++ 15 ∷ []) 1 run.0
unfolding run
trace-Left_example =
    trace-Left laws online-Carries run.1
      ((λ e. cc, λ e. cc), ((λ e. cc, λ e. cc), ((λ e. cc, λ e. cc), tt)))
