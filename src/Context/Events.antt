-- ===== src/Context/Events.antt =====
-- include/TcpClientContext.hpp: the entry points that lwIP calls, and `lwip_receive_callback`
-- (src/IoRxBuffer.cpp) and `lwip_sent_cb` (src/TcpWriter.cpp) on a context.
use async_tcp.Common.{ℕ, Option, none, some, ◌==◌, if◌then◌else◌, ◌>>=◌}
use async_tcp.Lwip.{Ptr, ErrT, ok, World, Lwip}
use async_tcp.RxBuffer.{RxBuffer}
use async_tcp.RxBuffer
use async_tcp.Writer.{on_ack_callback}
use async_tcp.Context.{Context, RxClosure, calls_fin_cb, calls_receive_cb}

-- How the closures of a client run; `none` is a fault.
pub record Closures (K : Type 0) : Type 0 where
  pub plain : K → World → Option World
  pub with_error : K → ErrT → World → Option World

module _ {K : Type 0} (k : Closures K) where
  -- A call of an empty `std::function` faults.
  abbrev pub call_plain : Option K → World → Option World
  call_plain none w = none
  call_plain (some cb) w = k.plain cb w

  abbrev pub call_error : Option K → ErrT → World → Option World
  call_error none err w = none
  call_error (some cb) err w = k.with_error cb err w

  -- `if (cb) { cb(); }`
  abbrev pub call_if_set : Option K → World → Option World
  call_if_set none w = some w
  call_if_set (some cb) w = k.plain cb w

  unfoldable pub error : ErrT → Context K → World → Option World
  error err c w = call_error c.error_cb err w

  unfoldable pub fin : Context K → World → Option World
  fin c w = call_if_set c.fin_cb w

  unfoldable pub recv : Context K → World → Option World
  recv c w = call_if_set c.receive_cb w

  -- The assertion that the control block is the context's own.
  unfoldable pub connected : Ptr → ErrT → Context K → World → Option (ErrT × World)
  connected pcb err c w =
      if pcb == c.pcb then (call_plain c.connect_cb w >>= λ w'. some (ok, w')) else none

  unfoldable pub poll : Context K → World → Option (ErrT × World)
  poll c w = call_if_set c.poll_cb w >>= λ w'. some (ok, w')

  -- The static functions that lwIP calls; an argument of `none` is the null pointer.
  unfoldable pub s_error : Option (Context K) → ErrT → World → Option World
  unfolding error
  s_error none err w = some w
  s_error (some c) err w = error err c w

  unfoldable pub s_poll : Option (Context K) → World → Option (ErrT × World)
  unfolding poll
  s_poll none w = some (ok, w)
  s_poll (some c) w = poll c w

  unfoldable pub s_connected : Option (Context K) → Ptr → ErrT → World → Option (ErrT × World)
  unfolding connected
  s_connected none pcb err w = some (ok, w)
  s_connected (some c) pcb err w = connected pcb err c w

  -- The closures that `initRxBuffer` installs do not look whether the callback is set.
  abbrev pub rx_closure : Context K → RxClosure → World → Option World
  rx_closure c calls_fin_cb w = call_plain c.fin_cb w
  rx_closure c calls_receive_cb w = call_plain c.receive_cb w

  -- `lwip_receive_callback`, with the assertions that there are a context and a buffer.
  unfoldable pub receive :
      Lwip → Ptr → Ptr → ErrT → Option (Context K) → World → Option (ErrT × Context K × World)
  receive l tpcb p err none w = none
  receive l tpcb p err (some c) w = do
    b ← c.rx
    (result, b', w') ← RxBuffer.lwip_receive_callback l (rx_closure c) tpcb p err b w
    some (result, record c { rx = some b' }, w')

-- `lwip_sent_cb`: a null argument is dereferenced, and a missing writer fails the assertion.
unfoldable pub lwip_sent_cb :
    {K : Type 0} → Option (Context K) → Ptr → ℕ → World → Option (ErrT × World)
lwip_sent_cb none tpcb len w = none
lwip_sent_cb (some c) tpcb len w = do t ← c.tx; some (ok, on_ack_callback t tpcb len w)
