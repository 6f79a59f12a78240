-- ===== src/System/Outgoing/Single.antt =====
-- What single events have lwIP send.
use async_tcp.Common.{
  ℕ, ◌<◌, ◌≡◌, refl, sym, ap, ◌∙◌, Option, some, List, some-injective, bind-some,
}
use mathlib.Core.Path.{subst}
use async_tcp.Lwip.{Ptr, ErrT, Lwip}
use async_tcp.Lwip.Chains.{Cell, PbufLaws, addr}
use async_tcp.RxBuffer.Window.{peek_consume-Consumed}
use async_tcp.Writer.{write_data}
use async_tcp.Writer.Queued.{queued, Adds, queued-Adds}
use async_tcp.Writer.Adds.{write_data-Adds}
use async_tcp.Context.{Context}
use async_tcp.Context.Events.{receive}
use async_tcp.Client.{Closure}
use async_tcp.Client.Callbacks.{closures}
use async_tcp.System.{
  System, Event, connecting, stopping, shutting_down, configuring, consuming, writing, sending,
  queuing, setting_no_delay, keeping_alive, receiving, failing, polling, connected, sent,
  networking, handle, Legal,
}
use async_tcp.System.Valid.{IsValid, valid-Works}
use async_tcp.System.Receiving.{receive-Works}
use async_tcp.System.Quiet.{quiet-Passes, via, after}
use async_tcp.System.Writing.{given_bytes}
use async_tcp.System.Outgoing.{asks, Sends, Leaves}
use async_tcp.System.Outgoing.Ending.{
  after_acks-queued, ts_connect-Untold, stop-Untold, shutdown-Untold,
}

module _ {l : Lwip} (laws : PbufLaws l) (mss_pos : 0 < l.tcp_mss) (mss : l.tcp_mss < 65536) where
  -- An event that has nothing sent.
  silent :
      (ev : Event) (m m1 m' : System)
      → some m1 ≡ some m'
      → ((q : Ptr) → queued l q m1.world.calls ≡ queued l q m.world.calls)
      → Sends l ev m m'
  silent ev m m1 m' e same = λ q.
      queued-Adds l q (asks ev) m.world.calls m'.world.calls
        (ap (λ (v : System). queued l q v.world.calls) (sym (some-injective _ _ e)) ∙ same q)

  consuming-Sends :
      (n : ℕ) (m m' : System)
      → IsValid m
      → Legal (consuming n) m
      → handle l (consuming n) m ≡ some m'
      → Sends l (consuming n) m m'
  unfolding handle
  consuming-Sends n m m' v (small, (c, e)) returns =
      let h = valid-Works m v c e in
      let (r, consumes, done) =
        peek_consume-Consumed laws n h.buffer m.world h.cells small h.holds in
      let m1 : System = record m {
        client = record m.client { ctx = some (record c { rx = some r.0 }) };
        world = r.1;
      } in
      let gives : handle l (consuming n) m ≡ some m1 = rw (e, h.here, consumes) refl in
      silent (consuming n) m m1 m' (sym gives ∙ returns) (λ q.
        ap (queued l q) done.calls ∙ after_acks-queued l q h.buffer.pcb done.acks m.world.calls)

  receiving-Sends :
      (tpcb : Ptr) (ds : List Cell) (err : ErrT) (m m' : System)
      → IsValid m
      → Legal (receiving tpcb ds err) m
      → handle l (receiving tpcb ds err) m ≡ some m'
      → Sends l (receiving tpcb ds err) m m'
  unfolding handle
  receiving-Sends tpcb ds err m m' v (c, e, apart) returns =
      let h = valid-Works m v c e in
      let (res, c', w', gives, (_, _, _, says)) =
        receive-Works l m.client c e h.wired laws h.buffer h.here m.world tpcb h.cells ds err
          h.holds h.listens (apart h.buffer h.cells h.here h.holds) in
      let m1 : System = record m { client = record m.client { ctx = some c' }; world = w' } in
      let handled : handle l (receiving tpcb ds err) m ≡ some m1 =
        via
          (λ (o : Option (Context Closure)).
            receive (closures l m.client) l tpcb (addr ds) err o m.world)
          (after m) m.client.ctx c (res, c', w') e gives in
      silent (receiving tpcb ds err) m m1 m' (sym handled ∙ returns) says.0

  queuing-Sends :
      (bytes : List ℕ) (m m' : System)
      → Legal (queuing bytes) m
      → handle l (queuing bytes) m ≡ some m'
      → Sends l (queuing bytes) m m'
  unfolding handle
  queuing-Sends bytes m m' (small, _) returns =
      let (c, _, e1) = bind-some m.client.ctx _ _ returns in
      let (x, _, e2) = bind-some c.tx _ _ e1 in
      let ((n, w'), writes, e3) = bind-some (write_data l x (some bytes) m.world) _ _ e2 in
      λ q.
        subst (λ (v : System). Adds l q bytes m.world.calls v.world.calls) (some-injective _ _ e3)
          (write_data-Adds l x bytes small mss_pos mss m.world w' n writes q)

  -- Every legal event has sent the front of what it asks for, and no other data.
  pub handle-Sends :
      (ev : Event) (m m' : System)
      → IsValid m
      → Legal ev m
      → Leaves l ev m
      → handle l ev m ≡ some m'
      → Sends l ev m m'
  unfolding handle
  handle-Sends (connecting fresh ip port) m m' v legal leaves returns =
      silent (connecting fresh ip port) m _ m' returns
        (ts_connect-Untold l fresh ip port m.statics m.client m.world).0
  handle-Sends stopping m m' v legal leaves returns =
      silent stopping m _ m' returns (stop-Untold l m.client m.world).0
  handle-Sends shutting_down m m' v legal leaves returns =
      silent shutting_down m _ m' returns (shutdown-Untold l m.client m.world).0
  handle-Sends (configuring set) m m' v legal leaves returns =
      silent (configuring set) m _ m' returns (λ q. refl)
  handle-Sends (consuming n) m m' v legal leaves returns = consuming-Sends n m m' v legal returns
  handle-Sends (receiving tpcb ds err) m m' v legal leaves returns =
      receiving-Sends tpcb ds err m m' v legal returns
  handle-Sends (networking w) m m' v legal leaves returns =
      silent (networking w) m _ m' returns leaves
  handle-Sends (queuing bytes) m m' v legal leaves returns = queuing-Sends bytes m m' legal returns
  handle-Sends (writing bytes) m m' v legal leaves returns =
      let (w', gives, (_, says)) = quiet-Passes l (writing bytes) m refl v legal in
      λ q.
        subst (λ (u : System). Adds l q (given_bytes bytes) m.world.calls u.world.calls)
          (some-injective _ _ (sym gives ∙ returns)) (says.0 q)
  handle-Sends (sending bytes) m m' v legal leaves returns =
      let (w', gives, (_, says)) = quiet-Passes l (sending bytes) m refl v legal in
      silent (sending bytes) m _ m' (sym gives ∙ returns) says.0
  handle-Sends (setting_no_delay no_delay) m m' v legal leaves returns =
      let (w', gives, (_, says)) = quiet-Passes l (setting_no_delay no_delay) m refl v legal in
      silent (setting_no_delay no_delay) m _ m' (sym gives ∙ returns) says.0
  handle-Sends (keeping_alive idle_sec intv_sec count) m m' v legal leaves returns =
      let (w', gives, (_, says)) =
        quiet-Passes l (keeping_alive idle_sec intv_sec count) m refl v legal in
      silent (keeping_alive idle_sec intv_sec count) m _ m' (sym gives ∙ returns) says.0
  handle-Sends (failing err) m m' v legal leaves returns =
      let (w', gives, (_, says)) = quiet-Passes l (failing err) m refl v legal in
      silent (failing err) m _ m' (sym gives ∙ returns) says.0
  handle-Sends polling m m' v legal leaves returns =
      let (w', gives, (_, says)) = quiet-Passes l polling m refl v legal in
      silent polling m _ m' (sym gives ∙ returns) says.0
  handle-Sends (connected pcb err) m m' v legal leaves returns =
      let (w', gives, (_, says)) = quiet-Passes l (connected pcb err) m refl v legal in
      silent (connected pcb err) m _ m' (sym gives ∙ returns) says.0
  handle-Sends (sent tpcb len) m m' v legal leaves returns =
      let (w', gives, (_, says)) = quiet-Passes l (sent tpcb len) m refl v legal in
      silent (sent tpcb len) m _ m' (sym gives ∙ returns) says.0
