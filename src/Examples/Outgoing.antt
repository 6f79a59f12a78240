-- ===== src/Examples/Outgoing.antt =====
-- A client that connects, writes twice and is polled, and another that reads the first byte.
use async_tcp.Common.{ℕ, ◌≡◌, refl, some, List, [], ◌∷◌, ◌++◌, arith}
use async_tcp.Lwip.Refcount.{sample}
use async_tcp.Writer.{write_data, write_loop, get_optimal_chunk_size}
use async_tcp.Writer.Queued.{queued}
use async_tcp.Context.Chunk
use async_tcp.Context.Lifecycle
use async_tcp.Context.Lifecycle.{new_context, init_rx_buffer}
use async_tcp.Context.Options
use async_tcp.Context.Events.{s_poll}
use async_tcp.Client.{new_client}
use async_tcp.Client.Access
use async_tcp.Client.Callbacks.{closures}
use async_tcp.Client.Connection.{ts_connect, start, opened}
use async_tcp.System.{System, connecting, queuing, writing, polling, handle}
use async_tcp.System.Trace.{Trace, step, initial}
use async_tcp.System.Outgoing.{Sent}
use async_tcp.System.Outgoing.Runs.{trace-Sent}
use async_tcp.System.Delivery.{Delivers, written-read}
use async_tcp.Examples.Unread
use async_tcp.Examples.Unread.{online-Carries}
use async_tcp.Examples.{lwip, laws, world}
use async_tcp.Examples.Session.{statics}
use async_tcp.Examples.Session

run : (m : System) × Trace lwip (initial statics world) m
unfolding Session.session handle opened new_client new_context init_rx_buffer s_poll sample closures
    ts_connect start Lifecycle.connect Options.set_no_delay write_data write_loop
    get_optimal_chunk_size Access.write_chunk Chunk.write_chunk
run = (
  _,
  step
      (step (step Session.session.1 (queuing (15 ∷ 16 ∷ 17 ∷ [])) (omega arith, (_, refl)) refl)
        (writing (some (18 ∷ 19 ∷ []))) tt refl)
      polling tt refl,
)

trace-Sent_example :
    (sent : List ℕ) × (queued lwip 7 run.0.world.calls ≡ queued lwip 7 world.calls ++ sent)
    × Sent
        (polling
          ∷ writing (some (18 ∷ 19 ∷ []))
          ∷ queuing (15 ∷ 16 ∷ 17 ∷ [])
          ∷ connecting 100 2 17
          ∷ [])
        sent
unfolding run Session.session sample
trace-Sent_example =
    trace-Sent laws (omega arith) (omega arith) statics world run.0 7 run.1
      (tt, (tt, (tt, (tt, tt))))

-- All five bytes are queued.
five_queued : queued lwip 7 run.0.world.calls ≡ 15 ∷ 16 ∷ 17 ∷ 18 ∷ 19 ∷ []
unfolding run Session.session sample handle opened new_client new_context init_rx_buffer s_poll
    closures ts_connect start Lifecycle.connect Options.set_no_delay write_data write_loop
    get_optimal_chunk_size Access.write_chunk Chunk.write_chunk
five_queued = refl

-- The first byte is delivered and read, the other four are under way.
written-read_example :
    (sent : List ℕ) × Sent
      (polling
        ∷ writing (some (18 ∷ 19 ∷ []))
        ∷ queuing (15 ∷ 16 ∷ 17 ∷ [])
        ∷ connecting 100 2 17
        ∷ [])
      sent
    × Delivers sent (16 ∷ 17 ∷ 18 ∷ 19 ∷ []) 1 Unread.run.0
unfolding run Session.session sample Unread.run
written-read_example =
    written-read laws laws (omega arith) (omega arith) statics world run.0 7 run.1
      (tt, (tt, (tt, (tt, tt)))) refl online-Carries Unread.run.1
      ((λ e. cc, λ e. cc), ((λ e. cc, λ e. cc), ((λ e. cc, λ e. cc), tt))) (16 ∷ 17 ∷ 18 ∷ 19 ∷ [])
      five_queued
