-- ===== src/Client/Callbacks.antt =====
-- src/TcpClient.cpp: the callbacks that the context's closures run. A bridge takes a payload and is
-- told to run; running it schedules its handler and returns.
use async_tcp.Common.{ℕ, Option, none, some, ◌>>=◌}
use async_tcp.Lwip.{Ptr, ErrT, World, log, workload, run, rx_buffer, error_code, acked, Lwip}
use async_tcp.Writer.{on_error as writer_on_error}
use async_tcp.Context.Events.{Closures}
use async_tcp.Client.{Client, Closure, on_connect, on_error, on_fin, on_receive, on_poll}

unfoldable pub on_connect_callback : Client → World → World
on_connect_callback t w = elim t.connected_bridge [ none ↦ w | some b ↦ log (run b) w ]

-- The payload is the context's receive buffer: without a context it is a null dereference.
abbrev pub with_rx_buffer : Client → ℕ → World → Option World
with_rx_buffer t b w = t.ctx >>= λ c. some (log (run b) (log (workload b rx_buffer) w))

unfoldable pub on_fin_callback : Lwip → Client → World → Option World
on_fin_callback l t w =
    let w' : World = elim t.ctx [
      | none ↦ w
      | some c ↦ elim c.tx [ none ↦ w | some x ↦ writer_on_error x l.err_clsd w ]
    ] in
    elim t.fin_bridge [ none ↦ some w' | some b ↦ with_rx_buffer t b w' ]

unfoldable pub on_error_callback : Client → ErrT → World → World
on_error_callback t err w = elim t.error_bridge [
  | none ↦ w
  | some b ↦ log (run b) (log (workload b (error_code err)) w)
]

unfoldable pub on_receive_callback : Client → World → Option World
on_receive_callback t w = elim t.received_bridge [ none ↦ some w | some b ↦ with_rx_buffer t b w ]

unfoldable pub on_ack_callback : Client → Ptr → ℕ → World → World
on_ack_callback t tpcb len w = elim t.ack_bridge [
  | none ↦ w
  | some b ↦ log (run b) (log (workload b (acked len)) w)
]

unfoldable pub on_poll_callback : Client → World → World
on_poll_callback t w = elim t.poll_bridge [ none ↦ w | some b ↦ log (run b) w ]

-- The closures of `_ts_connect`, by what they are called with. `on_ack` takes a control block and
-- a length, and no code calls it.
unfoldable pub closures : Lwip → Client → Closures Closure
unfolding on_connect_callback on_fin_callback on_receive_callback on_poll_callback on_error_callback
closures l t = record { plain = plain; with_error = with_error }
  where
    plain : Closure → World → Option World
    plain on_connect w = some (on_connect_callback t w)
    plain on_fin w = on_fin_callback l t w
    plain on_receive w = on_receive_callback t w
    plain on_poll w = some (on_poll_callback t w)
    plain k w = none

    with_error : Closure → ErrT → World → Option World
    with_error on_error err w = some (on_error_callback t err w)
    with_error k err w = none
