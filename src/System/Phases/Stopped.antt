-- ===== src/System/Phases/Stopped.antt =====
-- What is left of a client after `stop`, and how it comes back.
use async_tcp.Common.{
  ℕ, ◌≡◌, refl, ap, ◌∙◌, ◌≢◌, inl, inr, true, Option, none, some, List, arith, Bool-cases, All,
  ◌==◌,
}
use async_tcp.Lwip.{Ptr, null, is_ok, closed, World, log, new_pcb, Lwip}
use async_tcp.Lwip.Registered.{registration, registered}
use async_tcp.Context.{Context}
use async_tcp.Context.Options
use async_tcp.Context.Lifecycle.Closing.{close-pcb}
use async_tcp.Client.{Client, Statics, Closure}
use async_tcp.Client.Connection.{ts_connect, ts_status, start, stop, shutdown}
use async_tcp.Client.Connecting.{ts_connect-cases, verdict}
use async_tcp.Client.Ending.{shutdown-ctx}
use async_tcp.System.{System, Event, connecting, shutting_down, handle}
use async_tcp.System.Valid.{Works}
use async_tcp.System.Operations.{start-Works}
use async_tcp.System.Trace.{Trace, events}
use async_tcp.System.Phases.{
  Phase, linked, parted, phase, phase_of, Edge, accept, refuse, part, stop_idle, stop_parted, clear,
  keep, Route, here, later,
}
use async_tcp.System.Phases.Refines.{trace-Route, phase-linked}

-- Every event but shutting down.
abbrev pub Keeps : Event → Type 0
Keeps ev = ev ≢ shutting_down

parted-Edge : (ev : Event) (p q : Phase) → Edge ev p q → p ≡ parted → Keeps ev → q ≡ parted
parted-Edge _ _ _ (keep _) e kept = e
parted-Edge _ _ _ refuse e kept = e
parted-Edge _ _ _ clear e kept = absurd (kept refl)
parted-Edge _ _ _ stop_parted e kept = refl
parted-Edge _ _ _ part e kept = refl
parted-Edge _ _ _ accept e kept = absurd (ground (arith, e))
parted-Edge _ _ _ stop_idle e kept = e

parted-Route :
    (evs : List Event) (p q : Phase) → Route evs p q → p ≡ parted → All Keeps evs → q ≡ parted
parted-Route evs p q here e all = e
parted-Route evs p q (later path edge) e (kept, all) =
    parted-Edge _ _ _ edge (parted-Route _ _ _ path e all) kept

parted-context :
    (o : Option (Context Closure))
    → phase_of o ≡ parted
    → (c : Context Closure) × (o ≡ some c) × ((c.pcb == null) ≡ true)
parted-context none e = absurd (ground (arith, e))
parted-context (some c) e = elim (Bool-cases (c.pcb == null)) [
  | inl gone ↦ (c, refl, gone)
  | inr some_pcb ↦ absurd (ground (arith, e, some_pcb))
]

-- After a connection was stopped, whatever goes on short of `shutdown`, the client has a context
-- without a control block: it says that it is closed, and every attempt to connect is refused with
-- PICO_ERROR_RESOURCE_IN_USE and changes nothing.
pub stop-stays_parted :
    (l : Lwip) (s : Statics) (t : Client) (w : World) (c : Context Closure) (m : System)
    → t.ctx ≡ some c
    → (run : Trace l (record { statics = s; client = (stop l t w).1; world = (stop l t w).2 }) m)
    → All Keeps (events run)
    → (phase m ≡ parted)
      × (ts_status m.client m.world ≡ closed)
      × ((fresh ip port : ℕ)
          → ts_connect l fresh ip port m.statics m.client m.world
            ≡ (l.pico_error_resource_in_use, m.statics, m.client, m.world))
unfolding stop ts_status ts_connect Options.state
stop-stays_parted l s t w c m e run all =
    let start : phase_of (stop l t w).1.ctx ≡ parted = rw (e, close-pcb l c w) refl in
    let end = parted-Route _ _ _ (trace-Route run) start all in
    let (c', some_c', gone) = parted-context m.client.ctx end in
    (end, rw some_c' (rw gone refl), λ fresh ip port. rw some_c' refl)

module _ (l : Lwip) (m : System) where
  abbrev pub cleared : System
  cleared = record {
    statics = m.statics;
    client = (shutdown l m.client m.world).1;
    world = (shutdown l m.client m.world).2;
  }

  -- The control block that lwIP has for the next attempt.
  abbrev pub next_pcb : Ptr
  next_pcb = l.tcp_new cleared.world.calls

  cleared-start :
      (fresh ip port : ℕ)
      → next_pcb ≢ null
      → ts_connect l fresh ip port m.statics cleared.client cleared.world
        ≡ start l fresh next_pcb ip port m.statics cleared.client
            (log (new_pcb next_pcb) cleared.world)
  cleared-start fresh ip port some_pcb =
      elim (ts_connect-cases l fresh ip port m.statics cleared.client cleared.world) [
        | inl (c, e, _) ↦ absurd (ground (arith, e, shutdown-ctx l m.client m.world))
        | inr (inl (_, n, _)) ↦ absurd (some_pcb n)
        | inr (inr (_, _, r)) ↦ r
      ]

  -- Whatever state a client is in, also after `stop` or an error, `shutdown` and one attempt to
  -- connect for which lwIP has a control block and which it accepts give the client a context that
  -- works and has that control block, registered for every event.
  pub shutdown-connects :
      (fresh ip port : ℕ)
      → next_pcb ≢ null
      → is_ok (
          verdict l fresh next_pcb ip port m.statics cleared.client
            (log (new_pcb next_pcb) cleared.world))
        ≡ true
      → (m' : System) × (handle l shutting_down m ≡ some cleared)
        × (handle l (connecting fresh ip port) cleared ≡ some m')
        × (phase m' ≡ linked)
        × ((c : Context Closure) × (m'.client.ctx ≡ some c) × Works c m'.world × (c.pcb ≡ next_pcb))
        × (registration next_pcb m'.world.calls ≡ registered fresh)
  unfolding handle
  shutdown-connects fresh ip port some_pcb good =
      let w1 : World = log (new_pcb next_pcb) cleared.world in
      let (c, _, made, works, own, reg) =
        start-Works l fresh next_pcb ip port m.statics cleared.client w1 some_pcb good in
      rw (cleared-start fresh ip port some_pcb) (
        _,
        refl,
        refl,
        ap phase_of made ∙ phase-linked c (ground (arith, own)),
        (c, made, works, own),
        reg,
      )
