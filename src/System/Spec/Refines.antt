-- ===== src/System/Spec/Refines.antt =====
-- Runs of a client against the account kept of them.
use async_tcp.Common.{
  ℕ, ap, sym, ◌∙◌, ◌≡◌, refl, Bool, true, false, not, none, some, List, head?, if◌then◌else◌, ◌==◌,
  some-injective,
}
use async_tcp.Lwip.{null, closed, World, Lwip}
use async_tcp.Lwip.Chains.{Cell, PbufLaws}
use async_tcp.RxBuffer.{RxBuffer, peek}
use async_tcp.RxBuffer.Stream.{peek-head?}
use async_tcp.Context.{Context, RxClosure}
use async_tcp.Context.Options
use async_tcp.Client.{Statics, Closure, new_client}
use async_tcp.Client.Connection.{ts_status}
use async_tcp.System.{
  System, Event, connecting, stopping, shutting_down, configuring, consuming, writing, sending,
  queuing, setting_no_delay, keeping_alive, receiving, failing, polling, connected, sent,
  networking, Legal,
}
use async_tcp.System.Phases.{phase}
use async_tcp.System.Trace.{Trace, empty, step, initial}
use async_tcp.System.Unread.{Carries}
use async_tcp.System.Spec.{
  View, absent, session, answered, replay, view_phase, Shows, shows_absent, shows_session, Follows,
}
use async_tcp.System.Spec.Absent.{absent-Follows}
use async_tcp.System.Spec.Session.{
  staying-Follows, stopping-Follows, shutting_down-Follows, session-pcb,
}

module _ {l : Lwip} (laws : PbufLaws l) where
  session-Follows :
      (ev : Event) (m : System) (b : Bool) (xs : List ℕ) (h : Carries m xs)
      → phase m ≡ view_phase (session b xs)
      → Legal ev m
      → Follows l ev m (session b xs) h.works.cells
  session-Follows stopping m b xs h at legal = stopping-Follows laws m b xs h at
  session-Follows shutting_down m b xs h at legal = shutting_down-Follows laws m b xs h
  session-Follows (connecting fresh ip port) m b xs h at legal =
      staying-Follows laws (connecting fresh ip port) m b xs h at (λ e. cc, λ e. cc) legal
  session-Follows (configuring set) m b xs h at legal =
      staying-Follows laws (configuring set) m b xs h at (λ e. cc, λ e. cc) legal
  session-Follows (consuming n) m b xs h at legal =
      staying-Follows laws (consuming n) m b xs h at (λ e. cc, λ e. cc) legal
  session-Follows (receiving tpcb ds err) m b xs h at legal =
      staying-Follows laws (receiving tpcb ds err) m b xs h at (λ e. cc, λ e. cc) legal
  session-Follows (networking w) m b xs h at legal =
      staying-Follows laws (networking w) m b xs h at (λ e. cc, λ e. cc) legal
  session-Follows (writing bytes) m b xs h at legal =
      staying-Follows laws (writing bytes) m b xs h at (λ e. cc, λ e. cc) legal
  session-Follows (sending bytes) m b xs h at legal =
      staying-Follows laws (sending bytes) m b xs h at (λ e. cc, λ e. cc) legal
  session-Follows (queuing bytes) m b xs h at legal =
      staying-Follows laws (queuing bytes) m b xs h at (λ e. cc, λ e. cc) legal
  session-Follows (setting_no_delay no_delay) m b xs h at legal =
      staying-Follows laws (setting_no_delay no_delay) m b xs h at (λ e. cc, λ e. cc) legal
  session-Follows (keeping_alive idle_sec intv_sec count) m b xs h at legal =
      staying-Follows laws (keeping_alive idle_sec intv_sec count) m b xs h at (λ e. cc, λ e. cc)
        legal
  session-Follows (failing err) m b xs h at legal =
      staying-Follows laws (failing err) m b xs h at (λ e. cc, λ e. cc) legal
  session-Follows polling m b xs h at legal =
      staying-Follows laws polling m b xs h at (λ e. cc, λ e. cc) legal
  session-Follows (connected pcb err) m b xs h at legal =
      staying-Follows laws (connected pcb err) m b xs h at (λ e. cc, λ e. cc) legal
  session-Follows (sent tpcb len) m b xs h at legal =
      staying-Follows laws (sent tpcb len) m b xs h at (λ e. cc, λ e. cc) legal

  -- A legal event on a client in the state of an account returns, and the account follows it.
  pub handle-Follows :
      (ev : Event) (m : System) {v : View} {cs : List Cell}
      → Shows m v cs
      → Legal ev m
      → Follows l ev m v cs
  handle-Follows ev m (shows_absent e) legal = absent-Follows laws ev m e legal
  handle-Follows ev m (shows_session {b} {xs} h at) legal = session-Follows ev m b xs h at legal

  pub trace-Shows :
      {m0 m : System} {v : View} {cs0 : List Cell}
      → Shows m0 v cs0
      → (run : Trace l m0 m) → (cs : List Cell) × Shows m (replay (answered run) v) cs
  trace-Shows {cs0} h empty = (cs0, h)
  trace-Shows {m} h (step run ev legal returns) =
      let (cs, shows) = trace-Shows h run in
      let (m', gives, (cs', shows', _)) = handle-Follows ev _ shows legal in
      (cs', rw⁻¹ (some-injective _ _ (sym gives ∙ returns)) shows')

-- What the application sees of a client: whether it is closed, and the next byte.
abbrev pub Seen : View → System → Type 0
Seen absent m = (m.client.ctx ≡ none) × (ts_status m.client m.world ≡ closed)
Seen (session b xs) m =
    (c : Context Closure) × (r : RxBuffer RxClosure) × (m.client.ctx ≡ some c)
    × (c.rx ≡ some r)
    × (peek r m.world.mem ≡ some (elim (head? xs) [ none ↦ 0 | some x ↦ x ]))
    × (ts_status m.client m.world ≡ (if b then Options.state c m.world else closed))
    × ((c.pcb == null) ≡ not b)

session-status :
    (m : System) (b : Bool) {xs : List ℕ} (h : Carries m xs)
    → (h.context.pcb == null) ≡ not b
    → ts_status m.client m.world ≡ (if b then Options.state h.context m.world else closed)
unfolding ts_status Options.state
session-status m true h here = rw h.here refl
session-status m false h here = rw h.here (rw here refl)

pub Shows-Seen : (m : System) (v : View) (cs : List Cell) → Shows m v cs → Seen v m
unfolding ts_status Options.state
Shows-Seen m _ _ (shows_absent e) = (e, rw e refl)
Shows-Seen m _ _ (shows_session {b} {xs} h at) = (
  h.context,
  h.works.buffer,
  h.here,
  h.works.here,
  peek-head? h.works.buffer m.world.mem h.works.cells h.works.holds
      ∙ ap (λ (ys : List ℕ). some (elim (head? ys) [ none ↦ 0 | some x ↦ x ])) h.same,
  session-status m b h (session-pcb m b h at),
  session-pcb m b h at,
)

-- Over any run of legal events of a new client, with any number of connections, the account that is
-- kept of the events and of lwIP's answers to attempts to connect tells what the application sees
-- at the end. A client that is absent has no context and says that it is closed. One with a session
-- has a context, of which `peek` shows the first of the unread bytes, 0 if there are none; it has a
-- control block and says its state if the session is linked, and has none and says that it is
-- closed otherwise.
pub trace-Seen :
    {l : Lwip} (laws : PbufLaws l) (s : Statics) (w : World) (m : System)
    → (run : Trace l (initial s w) m) → Seen (replay (answered run) absent) m
unfolding new_client
trace-Seen laws s w m run =
    let (cs, shows) = trace-Shows laws (shows_absent refl) run in Shows-Seen m _ cs shows
