-- ===== src/System/Phases/Refines.antt =====
-- The events of a client as edges of the diagram.
use async_tcp.Common.{
  ℕ, ◌≡◌, refl, sym, ap, ◌≢◌, inl, inr, false, Option, none, some, arith, Bool-cases, Option-cases,
  some-injective, bind-some, ◌==◌,
}
use async_tcp.Lwip.{Ptr, null, ErrT, is_ok, World, log, new_pcb, Lwip}
use async_tcp.Lwip.Chains.{addr}
use async_tcp.RxBuffer.{peek_consume, lwip_receive_callback}
use async_tcp.Context.{Context}
use async_tcp.Context.Events.{
  receive, rx_closure, Closures, s_error, s_poll, s_connected, lwip_sent_cb,
}
use async_tcp.Context.Lifecycle.Closing.{close-pcb}
use async_tcp.Client.{Client, Statics, Closure}
use async_tcp.Client.Connection.{ts_connect, start, stop}
use async_tcp.Writer.{write_data}
use async_tcp.Client.Access.{write, write_chunk, keep_alive}
use async_tcp.Client.Callbacks.{closures}
use async_tcp.Client.Ending.{shutdown-ctx}
use async_tcp.Client.Connecting.{ts_connect-cases, start-leak, start-Wired, verdict}
use async_tcp.System.{
  System, Event, connecting, stopping, shutting_down, configuring, consuming, writing, sending,
  queuing, setting_no_delay, keeping_alive, receiving, failing, polling, connected, sent,
  networking, handle, Legal,
}
use async_tcp.System.Trace.{Trace, empty, step, events}
use async_tcp.System.Phases.{
  idle, linked, phase, phase_of, Edge, accept, refuse, part, stop_idle, stop_parted, clear, keep,
  Route, here, later,
}

pub phase-linked : (c : Context Closure) → (c.pcb == null) ≡ false → phase_of (some c) ≡ linked
phase-linked c e = rw e refl

module _ (l : Lwip) where
  start-Edge :
      (fresh ip port : ℕ) (pcb : Ptr) (s : Statics) (t : Client) (w : World)
      → pcb ≢ null
      → Edge (connecting fresh ip port) idle (phase_of (start l fresh pcb ip port s t w).2.ctx)
  start-Edge fresh ip port pcb s t w some_pcb =
      elim (Bool-cases (is_ok (verdict l fresh pcb ip port s t w))) [
        | inr bad ↦ let (_, gone, _, _) = start-leak l fresh pcb ip port s t w bad in rw gone refuse
        | inl good ↦
            let (c, _, made, _, (_, own), _, _, _) =
              start-Wired l fresh pcb ip port s t w some_pcb good in
            rw (made, phase-linked c (ground arith)) accept
      ]

  connecting-Edge :
      (fresh ip port : ℕ) (s : Statics) (t : Client) (w : World)
      → Edge
          (connecting fresh ip port)
          (phase_of t.ctx)
          (phase_of (ts_connect l fresh ip port s t w).2.ctx)
  connecting-Edge fresh ip port s t w = elim (ts_connect-cases l fresh ip port s t w) [
    | inl (c, e, r) ↦ rw r refuse
    | inr (inl (e, n, r)) ↦ rw r refuse
    | inr (inr (e, n, r)) ↦
        rw (r, ap phase_of e)
          (start-Edge fresh ip port (l.tcp_new w.calls) s t (log (new_pcb (l.tcp_new w.calls)) w) n)
  ]

  stopping-Edge :
      (t : Client) (w : World) → Edge stopping (phase_of t.ctx) (phase_of (stop l t w).1.ctx)
  unfolding stop
  stopping-Edge t w = elim (Option-cases t.ctx) [
    | inl e ↦ rw e stop_idle
    | inr (c, e) ↦
        rw (e, close-pcb l c w)
          (elim (Bool-cases (c.pcb == null)) [
            | inl gone ↦ rw gone stop_parted
            | inr some_pcb ↦ rw some_pcb part
          ])
  ]

  -- A receive call keeps the control block of the context.
  receive-pcb :
      (k : Closures Closure) (tpcb p : Ptr) (err res : ErrT) (o : Option (Context Closure))
      (c' : Context Closure) (w w' : World)
      → receive k l tpcb p err o w ≡ some (res, c', w')
      → phase_of (some c') ≡ phase_of o
  unfolding receive
  receive-pcb k tpcb p err res none c' w w' returns = absurd (ground (arith, returns))
  receive-pcb k tpcb p err res (some c) c' w w' returns =
      let (b, _, e) = bind-some c.rx _ _ returns in
      let (r, _, e') = bind-some (lwip_receive_callback l (rx_closure k c) tpcb p err b w) _ _ e in
      ap (λ (q : ErrT × Context Closure × World). phase_of (some q.1)) (sym (some-injective _ _ e'))

  moved :
      (ev : Event) (m : System) {m1 m' : System}
      → some m1 ≡ some m'
      → Edge ev (phase m) (phase m1)
      → Edge ev (phase m) (phase m')
  moved ev m e edge = rw⁻¹ (some-injective _ _ e) edge

  -- Every legal event that returns follows an edge.
  pub handle-Edge :
      (ev : Event) (m m' : System)
      → Legal ev m
      → handle l ev m ≡ some m'
      → Edge ev (phase m) (phase m')
  unfolding handle
  handle-Edge (connecting fresh ip port) m m' ok_ev e =
      moved _ m e (connecting-Edge fresh ip port m.statics m.client m.world)
  handle-Edge stopping m m' ok_ev e = moved _ m e (stopping-Edge m.client m.world)
  handle-Edge shutting_down m m' ok_ev e =
      moved _ m e (rw (ap phase_of (shutdown-ctx l m.client m.world)) clear)
  handle-Edge (configuring set) m m' ok_ev e = moved _ m e (rw ok_ev (keep refl))
  handle-Edge (consuming n) m m' ok_ev e =
      let (c, some_c, e1) = bind-some m.client.ctx _ _ e in
      let (b, _, e2) = bind-some c.rx _ _ e1 in
      let (r, _, e') = bind-some (peek_consume l n b m.world) _ _ e2 in
      moved _ m e' (rw (ap phase_of some_c) (keep refl))
  handle-Edge (writing bytes) m m' ok_ev e =
      let (w, _, e') = bind-some (write_chunk l bytes m.client m.world) _ _ e in
      moved _ m e' (keep refl)
  handle-Edge (sending bytes) m m' ok_ev e =
      let (w, _, e') = bind-some (write (some bytes) m.client m.world) _ _ e in
      moved _ m e' (keep refl)
  handle-Edge (queuing bytes) m m' ok_ev e =
      let (c, some_c, e1) = bind-some m.client.ctx _ _ e in
      let (x, _, e2) = bind-some c.tx _ _ e1 in
      let (r, _, e') = bind-some (write_data l x (some bytes) m.world) _ _ e2 in
      moved _ m e' (keep refl)
  handle-Edge (setting_no_delay no_delay) m m' ok_ev e = moved _ m e (keep refl)
  handle-Edge (keeping_alive idle_sec intv_sec count) m m' ok_ev e =
      let (w, _, e') = bind-some (keep_alive idle_sec intv_sec count m.client m.world) _ _ e in
      moved _ m e' (keep refl)
  handle-Edge (receiving tpcb ds err) m m' ok_ev e =
      let ((res, c', w'), returns, e') =
        bind-some (receive (closures l m.client) l tpcb (addr ds) err m.client.ctx m.world) _ _ e in
      moved _ m e' (rw (receive-pcb _ _ _ _ _ _ _ _ _ returns) (keep refl))
  handle-Edge (failing err) m m' ok_ev e =
      let (w, _, e') = bind-some (s_error (closures l m.client) m.client.ctx err m.world) _ _ e in
      moved _ m e' (keep refl)
  handle-Edge polling m m' ok_ev e =
      let (w, _, e') = bind-some (s_poll (closures l m.client) m.client.ctx m.world) _ _ e in
      moved _ m e' (keep refl)
  handle-Edge (connected pcb err) m m' ok_ev e =
      let (w, _, e') =
        bind-some (s_connected (closures l m.client) m.client.ctx pcb err m.world) _ _ e in
      moved _ m e' (keep refl)
  handle-Edge (sent tpcb len) m m' ok_ev e =
      let (w, _, e') = bind-some (lwip_sent_cb m.client.ctx tpcb len m.world) _ _ e in
      moved _ m e' (keep refl)
  handle-Edge (networking w) m m' ok_ev e = moved _ m e (keep refl)

-- Every run of legal events is a path of the diagram with the same events, from the phase it begins
-- in to the phase it ends in. In the diagram a client gets a control block only by connecting while
-- it has no context, loses it only by stopping or shutting down, and loses its context only by
-- shutting down; every other event stays where it is.
pub trace-Route :
    {l : Lwip} {m0 m : System} (run : Trace l m0 m) → Route (events run) (phase m0) (phase m)
trace-Route empty = here
trace-Route {l} (step run ev legal returns) =
    later (trace-Route run) (handle-Edge l ev _ _ legal returns)
