-- ===== src/System/Handling.antt =====
-- Each event on a client in a valid state.
use async_tcp.Common.{◌≡◌, true, refl, inl, inr, Option, some}
use async_tcp.Lwip.{Lwip}
use async_tcp.Lwip.Chains.{addr, PbufLaws}
use async_tcp.Context.{Context}
use async_tcp.Context.Events.{receive}
use async_tcp.Client.{Closure}
use async_tcp.Client.Callbacks.{closures}
use async_tcp.Client.Ending.{shutdown-ctx}
use async_tcp.System.{
  System, Event, connecting, stopping, shutting_down, configuring, consuming, writing, sending,
  queuing, setting_no_delay, keeping_alive, receiving, failing, polling, connected, sent,
  networking, handle, Legal,
}
use async_tcp.System.Valid.{IsValid, valid-Works, in_world}
use async_tcp.System.Receiving.{receive-Works}
use async_tcp.System.Quiet.{is_quiet, quiet-Passes, via, after}
use async_tcp.System.Operations.{
  IsHandled, ts_connect-IsValid, stop-IsValid, consume-IsHandled, quiet-IsValid,
}

module _ {l : Lwip} (laws : PbufLaws l) where
  quietly :
      (ev : Event) (m : System) → is_quiet ev ≡ true → IsValid m → Legal ev m → IsHandled l ev m
  quietly ev m q v legal =
      let (w', returns, (same, _)) = quiet-Passes l ev m q v legal in
      (record m { world = w' }, returns, quiet-IsValid laws m w' v same)

  -- In a valid state every legal event returns, and it leaves a valid state.
  pub handle-IsHandled : (ev : Event) (m : System) → IsValid m → Legal ev m → IsHandled l ev m
  unfolding handle
  handle-IsHandled (connecting fresh ip port) m v ok_ev =
      (_, refl, ts_connect-IsValid laws fresh ip port m.statics m.client m.world v)
  handle-IsHandled stopping m v ok_ev = (_, refl, stop-IsValid laws m v)
  handle-IsHandled shutting_down m v ok_ev = (_, refl, inl (shutdown-ctx l m.client m.world))
  handle-IsHandled (configuring set) m v ok_ev = (_, refl, rw ok_ev v)
  handle-IsHandled (consuming n) m v (small, (c, e)) =
      consume-IsHandled laws n m c small e (valid-Works m v c e)
  handle-IsHandled (writing bytes) m v ok_ev = quietly (writing bytes) m refl v ok_ev
  handle-IsHandled (sending bytes) m v ok_ev = quietly (sending bytes) m refl v ok_ev
  handle-IsHandled (queuing bytes) m v ok_ev = quietly (queuing bytes) m refl v ok_ev
  handle-IsHandled (setting_no_delay no_delay) m v ok_ev =
      quietly (setting_no_delay no_delay) m refl v ok_ev
  handle-IsHandled (keeping_alive idle_sec intv_sec count) m v ok_ev =
      quietly (keeping_alive idle_sec intv_sec count) m refl v ok_ev
  handle-IsHandled (failing err) m v ok_ev = quietly (failing err) m refl v ok_ev
  handle-IsHandled polling m v ok_ev = quietly polling m refl v ok_ev
  handle-IsHandled (connected pcb err) m v ok_ev = quietly (connected pcb err) m refl v ok_ev
  handle-IsHandled (sent tpcb len) m v ok_ev = quietly (sent tpcb len) m refl v ok_ev
  handle-IsHandled (receiving tpcb ds err) m v (c, e, apart) =
      let h = valid-Works m v c e in
      let (res, c', w', returns, (h', _, _, _)) =
        receive-Works l m.client c e h.wired laws h.buffer h.here m.world tpcb h.cells ds err
          h.holds h.listens (apart h.buffer h.cells h.here h.holds) in
      (
        record m { client = record m.client { ctx = some c' }; world = w' },
        via
            (λ (o : Option (Context Closure)).
              receive (closures l m.client) l tpcb (addr ds) err o m.world)
            (after m) m.client.ctx c (res, c', w') e returns,
        inr (c', refl, h'),
      )
  handle-IsHandled (networking w) m (inl n) kept = (_, refl, inl n)
  handle-IsHandled (networking w) m (inr (c, e, h)) kept = (
    _,
    refl,
    inr (
      c,
      e,
      in_world w h (record {
        head = h.holds.head;
        chain = kept c h.buffer h.cells e h.here h.holds;
        cursor = h.holds.cursor;
      }),
    ),
  )
