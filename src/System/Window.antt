-- ===== src/System/Window.antt =====
-- What a client gives back to the receive windows, over any sequence of events.
pub mod Runs
use async_tcp.Common.{
  ℕ, ◌+◌, ◌≤◌, ◌≡◌, refl, sym, ap, ◌∙◌, inl, inr, Bool, true, false, Option, some, List, [], arith,
  some-injective, length, length-append, length-drop, min, if◌then◌else◌, ◌==◌,
}
use async_tcp.Lwip.{Ptr, ErrT, null, World, Lwip}
use async_tcp.Lwip.Chains.{Cell, PbufLaws, addr}
use async_tcp.Lwip.Credit.{credited}
use async_tcp.RxBuffer.Ack.{total}
use async_tcp.RxBuffer.Window.{peek_consume-Consumed}
use async_tcp.Context.{Context}
use async_tcp.Context.Events.{receive}
use async_tcp.Client.{Statics, Closure, new_client}
use async_tcp.Client.Callbacks.{closures}
use async_tcp.System.{
  System, Event, connecting, stopping, shutting_down, configuring, consuming, writing, sending,
  queuing, setting_no_delay, keeping_alive, receiving, failing, polling, connected, sent,
  networking, handle, Legal,
}
use async_tcp.System.Valid.{IsValid, valid-Works}
use async_tcp.System.Told.{arriving}
use async_tcp.System.Receiving.{receive-Works}
use async_tcp.System.Quiet.{quiet-Passes, via, after}
use async_tcp.System.Trace.{Trace, empty, step, events, initial}
use async_tcp.System.Unread.{delivered, all_delivered}
use async_tcp.System.Outgoing.Ending.{
  ts_connect-Untold, stop-Untold, shutdown-Untold, after_acks-credited,
}
use async_tcp.System.Spec.{
  View, absent, session, next, accepts, answered, replay, Shows, shows_absent, shows_session,
}
use async_tcp.System.Spec.Refines.{handle-Follows}

abbrev pub unread_count : View → ℕ
unread_count absent = 0
unread_count (session b xs) = length xs

-- At most this much is given back.
abbrev pub gained : Event → View → ℕ
gained (consuming n) v = min n (unread_count v)
gained _ v = 0

-- What lwIP does by itself gives nothing back for the client.
abbrev pub LeavesWindow : Event → System → Type 0
LeavesWindow (networking w) m = credited w.calls ≡ credited m.world.calls
LeavesWindow _ m = Unit {0}

abbrev pub AllLeaveWindow : {l : Lwip} {m0 m : System} → Trace l m0 m → Type 0
AllLeaveWindow empty = Unit {0}
AllLeaveWindow (step {m} run ev legal returns) = LeavesWindow ev m × AllLeaveWindow run

-- What the account keeps and what is given back come from what was there and what arrives.
pub next-count :
    (accepted : Bool) (ev : Event) (v : View)
    → unread_count (next accepted ev v) + gained ev v ≤ unread_count v + length (delivered ev)
unfolding next
next-count true (connecting fresh ip port) absent = omega arith
next-count false (connecting fresh ip port) absent = omega arith
next-count accepted (connecting fresh ip port) (session b xs) = omega arith
next-count accepted stopping absent = omega arith
next-count accepted stopping (session true xs) = omega arith
next-count accepted stopping (session false xs) = omega arith
next-count accepted shutting_down v = omega arith
next-count accepted (consuming n) absent = omega arith
next-count accepted (consuming n) (session b xs) = omega (arith, length-drop n xs)
next-count accepted (receiving tpcb ds err) absent = omega arith
next-count accepted (receiving tpcb ds err) (session b xs) =
    omega (arith, length-append xs (arriving err ds))
next-count accepted (configuring set) v = omega arith
next-count accepted (networking w) v = omega arith
next-count accepted (writing bytes) v = omega arith
next-count accepted (queuing bytes) v = omega arith
next-count accepted (sending bytes) v = omega arith
next-count accepted (setting_no_delay no_delay) v = omega arith
next-count accepted (keeping_alive idle_sec intv_sec count) v = omega arith
next-count accepted (failing err) v = omega arith
next-count accepted polling v = omega arith
next-count accepted (connected pcb err) v = omega arith
next-count accepted (sent tpcb len) v = omega arith

acks_le : (no_pcb : Bool) (acks n : ℕ) → acks ≡ (if no_pcb then 0 else n) → acks ≤ n
acks_le true acks n e = omega (arith, e)
acks_le false acks n e = omega (arith, e)

Shows-IsValid : {m : System} {v : View} {cs : List Cell} → Shows m v cs → IsValid m
Shows-IsValid (shows_absent e) = inl e
Shows-IsValid (shows_session h at) = inr (h.context, h.here, h.works)

module _ {l : Lwip} (laws : PbufLaws l) where
  -- An event that gives nothing back.
  kept :
      (m m1 m' : System) (n : ℕ)
      → some m1 ≡ some m'
      → credited m1.world.calls ≡ credited m.world.calls
      → credited m'.world.calls ≤ credited m.world.calls + n
  kept m m1 m' n e same =
      omega (arith, same, ap (λ (u : System). credited u.world.calls) (some-injective _ _ e))

  consuming-credited :
      (n : ℕ) (m m' : System) {v : View} {cs : List Cell}
      → Shows m v cs
      → Legal (consuming n) m
      → handle l (consuming n) m ≡ some m'
      → credited m'.world.calls ≤ credited m.world.calls + min n (unread_count v)
  unfolding handle
  consuming-credited n m m' (shows_absent none_c) (small, (c, e)) returns =
      absurd (ground (arith, none_c, e))
  consuming-credited n m m' (shows_session {b} {xs} h at) (small, _) returns =
      let w = h.works in
      let (r, consumes, done) =
        peek_consume-Consumed laws n w.buffer m.world w.cells small w.holds in
      let c' : Context Closure = record h.context { rx = some r.0 } in
      let m1 : System = record m { client = record m.client { ctx = some c' }; world = r.1 } in
      let gives : handle l (consuming n) m ≡ some m1 = rw (h.here, w.here, consumes) refl in
      let more : credited r.1.calls ≡ total done.acks + credited m.world.calls =
        ap credited done.calls ∙ after_acks-credited l w.buffer.pcb done.acks m.world.calls in
      let size = ap (λ (ys : List ℕ). length ys) h.same in
      let same =
        ap (λ (u : System). credited u.world.calls) (some-injective _ _ (sym gives ∙ returns)) in
      let at_most = acks_le (w.buffer.pcb == null) _ _ done.sum in
      omega (arith, more, same, at_most, size)

  receiving-credited :
      (tpcb : Ptr) (ds : List Cell) (err : ErrT) (m m' : System)
      → IsValid m
      → Legal (receiving tpcb ds err) m
      → handle l (receiving tpcb ds err) m ≡ some m'
      → credited m'.world.calls ≤ credited m.world.calls + 0
  unfolding handle
  receiving-credited tpcb ds err m m' v (c, e, apart) returns =
      let h = valid-Works m v c e in
      let (res, c', w', gives, (_, _, _, says)) =
        receive-Works l m.client c e h.wired laws h.buffer h.here m.world tpcb h.cells ds err
          h.holds h.listens (apart h.buffer h.cells h.here h.holds) in
      let m1 : System = record m { client = record m.client { ctx = some c' }; world = w' } in
      let handled : handle l (receiving tpcb ds err) m ≡ some m1 =
        via
          (λ (o : Option (Context Closure)).
            receive (closures l m.client) l tpcb (addr ds) err o m.world)
          (after m) m.client.ctx c (res, c', w') e gives in
      kept m m1 m' 0 (sym handled ∙ returns) says.1

  pub handle-credited :
      (ev : Event) (m m' : System) {v : View} {cs : List Cell}
      → Shows m v cs
      → Legal ev m
      → LeavesWindow ev m
      → handle l ev m ≡ some m'
      → credited m'.world.calls ≤ credited m.world.calls + gained ev v
  unfolding handle
  handle-credited (connecting fresh ip port) m m' shows legal leaves returns =
      kept m _ m' 0 returns (ts_connect-Untold l fresh ip port m.statics m.client m.world).1
  handle-credited stopping m m' shows legal leaves returns =
      kept m _ m' 0 returns (stop-Untold l m.client m.world).1
  handle-credited shutting_down m m' shows legal leaves returns =
      kept m _ m' 0 returns (shutdown-Untold l m.client m.world).1
  handle-credited (configuring set) m m' shows legal leaves returns = kept m _ m' 0 returns refl
  handle-credited (networking w) m m' shows legal leaves returns = kept m _ m' 0 returns leaves
  handle-credited (consuming n) m m' shows legal leaves returns =
      consuming-credited n m m' shows legal returns
  handle-credited (receiving tpcb ds err) m m' shows legal leaves returns =
      receiving-credited tpcb ds err m m' (Shows-IsValid shows) legal returns
  handle-credited (queuing bytes) m m' shows legal leaves returns =
      let (w', gives, (_, says)) =
        quiet-Passes l (queuing bytes) m refl (Shows-IsValid shows) legal in
      kept m _ m' 0 (sym gives ∙ returns) says
  handle-credited (writing bytes) m m' shows legal leaves returns =
      let (w', gives, (_, says)) =
        quiet-Passes l (writing bytes) m refl (Shows-IsValid shows) legal in
      kept m _ m' 0 (sym gives ∙ returns) says.1
  handle-credited (sending bytes) m m' shows legal leaves returns =
      let (w', gives, (_, says)) =
        quiet-Passes l (sending bytes) m refl (Shows-IsValid shows) legal in
      kept m _ m' 0 (sym gives ∙ returns) says.1
  handle-credited (setting_no_delay no_delay) m m' shows legal leaves returns =
      let (w', gives, (_, says)) =
        quiet-Passes l (setting_no_delay no_delay) m refl (Shows-IsValid shows) legal in
      kept m _ m' 0 (sym gives ∙ returns) says.1
  handle-credited (keeping_alive idle_sec intv_sec count) m m' shows legal leaves returns =
      let (w', gives, (_, says)) =
        quiet-Passes l (keeping_alive idle_sec intv_sec count) m refl (Shows-IsValid shows) legal in
      kept m _ m' 0 (sym gives ∙ returns) says.1
  handle-credited (failing err) m m' shows legal leaves returns =
      let (w', gives, (_, says)) =
        quiet-Passes l (failing err) m refl (Shows-IsValid shows) legal in
      kept m _ m' 0 (sym gives ∙ returns) says.1
  handle-credited polling m m' shows legal leaves returns =
      let (w', gives, (_, says)) = quiet-Passes l polling m refl (Shows-IsValid shows) legal in
      kept m _ m' 0 (sym gives ∙ returns) says.1
  handle-credited (connected pcb err) m m' shows legal leaves returns =
      let (w', gives, (_, says)) =
        quiet-Passes l (connected pcb err) m refl (Shows-IsValid shows) legal in
      kept m _ m' 0 (sym gives ∙ returns) says.1
  handle-credited (sent tpcb len) m m' shows legal leaves returns =
      let (w', gives, (_, says)) =
        quiet-Passes l (sent tpcb len) m refl (Shows-IsValid shows) legal in
      kept m _ m' 0 (sym gives ∙ returns) says.1
