-- ===== src/Client/Connection.antt =====
-- src/TcpClient.cpp: connecting, stopping and destroying.
use async_tcp.Common.{ℕ, ◌+◌, ◌%◌, Bool, true, none, some, ◌==◌, ltb, if◌then◌else◌, not}
use async_tcp.Lwip.{
  Ptr, null, ErrT, ok, is_ok, TcpState, closed, World, log, set_pcb, new_pcb, Lwip,
}
use async_tcp.Context.{
  Context, set_client_id, set_timeout, set_on_connect_callback, set_on_error_callback,
  set_on_fin_callback, set_on_received_callback, set_on_poll_callback, set_on_ack_callback,
}
use async_tcp.Context.Lifecycle
use async_tcp.Context.Lifecycle.{new_context}
use async_tcp.Context.Options
use async_tcp.Client.{
  Client, Statics, Closure, on_connect, on_error, on_fin, on_receive, on_poll, on_ack,
}

unfoldable pub set_no_delay : Bool → Client → World → World
unfolding Options.set_no_delay
set_no_delay no_delay t w = elim t.ctx [ none ↦ w | some c ↦ Options.set_no_delay no_delay c w ]

-- The closures that are set on a new context.
unfoldable pub with_closures : Client → Context Closure → Context Closure
unfolding set_client_id set_timeout set_on_connect_callback set_on_error_callback
    set_on_fin_callback set_on_received_callback set_on_poll_callback set_on_ack_callback
with_closures t c =
    let c1 = set_timeout t.timeout (set_client_id t.client_id c) in
    let c2 = set_on_error_callback (some on_error) (set_on_connect_callback (some on_connect) c1) in
    let c3 = set_on_received_callback (some on_receive) (set_on_fin_callback (some on_fin) c2) in
    set_on_ack_callback (some on_ack) (set_on_poll_callback (some on_poll) c3)

-- `_localPort++` in 16 bits, if a start was set.
abbrev pub take_port : Ptr → Statics → World → Statics × World
take_port pcb s w =
    if ltb 0 s.local_port
    then (
      record s { local_port = (s.local_port + 1) % 65536 },
      set_pcb pcb (record (w.pcbs pcb) { local_port = s.local_port }) w,
    )
    else (s, w)

-- The new context with its closures, after its control block got a port.
unfoldable pub opened : Ptr → Ptr → Statics → Client → World → Context Closure × World
unfolding with_closures new_context
opened fresh pcb s t w =
    let (c, w') = new_context fresh pcb (take_port pcb s w).1 in (with_closures t c, w')

module _ (l : Lwip) where
  -- `_ts_connect` with the control block that lwIP gave.
  unfoldable pub start :
      (fresh pcb : Ptr) → ℕ → ℕ → Statics → Client → World → ErrT × Statics × Client × World
  unfolding set_no_delay
  start fresh pcb ip port s t w =
      let (s', _) = take_port pcb s w in
      let (c, w1) = opened fresh pcb s t w in
      let (res, w2) = Lifecycle.connect l ip port c w1 in
      let t' = record t { ctx = some c } in
      if not (is_ok res)
      then (res, s', record t { ctx = none }, Lifecycle.destroy l c w2)
      else (ok, s', t', set_no_delay s'.default_no_delay t' w2)

  -- `fresh` is the address of the new context.
  unfoldable pub ts_connect :
      (fresh : Ptr) → ℕ → ℕ → Statics → Client → World → ErrT × Statics × Client × World
  unfolding start
  ts_connect fresh ip port s t w = elim t.ctx [
    | some c ↦ (l.pico_error_resource_in_use, s, t, w)
    | none ↦
        let pcb = l.tcp_new w.calls in
        let w' = log (new_pcb pcb) w in
        if pcb == null then (l.pico_error_io, s, t, w') else start fresh pcb ip port s t w'
  ]

  -- `stop` leaves the context in place; the wait time is not used.
  unfoldable pub stop : Client → World → Bool × Client × World
  stop t w = elim t.ctx [
    | none ↦ (true, t, w)
    | some c ↦
        let (err, c', w') = Lifecycle.close l c w in (is_ok err, record t { ctx = some c' }, w')
  ]

  -- `stop()` without a result, which only logs a failure.
  pub stop_default : Client → World → Client × World
  unfolding stop
  stop_default t w = let (_, t', w') = stop t w in (t', w')

  unfoldable pub shutdown : Client → World → Bool × Client × World
  unfolding stop
  shutdown t w =
      let (ret, t', w') = stop t w in
      elim t'.ctx [
        | none ↦ (ret, t', w')
        | some c ↦ (ret, record t' { ctx = none }, Lifecycle.destroy l c w')
      ]

  -- The destructor, which does not stop the connection.
  unfoldable pub destroy : Client → World → Client × World
  destroy t w = elim t.ctx [
    | none ↦ (t, w)
    | some c ↦ (record t { ctx = none }, Lifecycle.destroy l c w)
  ]

unfoldable pub ts_status : Client → World → TcpState
unfolding Options.state
ts_status t w = elim t.ctx [ none ↦ closed | some c ↦ Options.state c w ]
