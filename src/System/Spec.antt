-- ===== src/System/Spec.antt =====
-- A client as its user sees it: an account of the connection and of the unread bytes that is kept
-- from the events and from lwIP's answers to attempts to connect, without segments, memory or
-- callbacks.

pub mod Absent
pub mod Session
pub mod Refines
use async_tcp.Common.{
  ℕ, some, Bool, true, false, not, ◌&&◌, none, List, [], ◌∷◌, ◌++◌, drop, ◌≡◌, ◌==◌, if◌then◌else◌,
}
use async_tcp.Lwip.{null, is_ok, log, new_pcb, World, Store, Lwip}
use async_tcp.Lwip.Chains.{Cell, erase_all}
use async_tcp.Client.Connecting.{verdict}
use async_tcp.System.{
  System, Event, connecting, stopping, shutting_down, configuring, consuming, writing, sending,
  queuing, setting_no_delay, keeping_alive, receiving, failing, polling, connected, sent,
  networking, handle, Legal,
}
use async_tcp.System.Told.{arriving}
use async_tcp.System.Phases.{Phase, idle, linked, parted, phase}
use async_tcp.System.Unread.{Carries, Beside}
use async_tcp.System.Trace.{Trace, empty, step}

-- No context, or one with these unread bytes, which is connected or was stopped.
pub data View : Type 0 where
  absent : View
  session : (is_linked : Bool) → (unread : List ℕ) → View

abbrev pub connect_view : (accepted : Bool) → View → View
connect_view accepted absent = if accepted then session true [] else absent
connect_view accepted (session b xs) = session b xs

abbrev pub stop_view : View → View
stop_view absent = absent
stop_view (session true xs) = session false []
stop_view (session false xs) = session false xs

abbrev pub on_unread : (List ℕ → List ℕ) → View → View
on_unread f absent = absent
on_unread f (session b xs) = session b (f xs)

-- What an event makes of the account; every event that is not named leaves it.
unfoldable pub next : (accepted : Bool) → Event → View → View
next accepted (connecting fresh ip port) v = connect_view accepted v
next accepted stopping v = stop_view v
next accepted shutting_down v = absent
next accepted (consuming n) v = on_unread (drop n) v
next accepted (receiving tpcb ds err) v = on_unread (λ xs. xs ++ arriving err ds) v
next accepted _ v = v

-- Whether lwIP has a control block for an attempt and accepts the connection.
abbrev pub accepts : Lwip → Event → System → Bool
accepts l (connecting fresh ip port) m =
    let pcb = l.tcp_new m.world.calls in
    not (pcb == null)
    && is_ok (verdict l fresh pcb ip port m.statics m.client (log (new_pcb pcb) m.world))
accepts l _ m = false

-- The events of a run with those answers, the last first, and the account kept of them.
abbrev pub answered : {l : Lwip} {m0 m : System} → Trace l m0 m → List (Event × Bool)
answered empty = []
answered {l} (step {m} run ev legal returns) = (ev, accepts l ev m) ∷ answered run

abbrev pub replay : List (Event × Bool) → View → View
replay [] v = v
replay ((ev, accepted) ∷ evs) v = next accepted ev (replay evs v)

abbrev pub view_phase : View → Phase
view_phase absent = idle
view_phase (session b xs) = if b then linked else parted

-- A client that is in the state of an account, with the segments that it holds.
pub data Shows (m : System) : View → List Cell → Type 0 where
  shows_absent : m.client.ctx ≡ none → Shows m absent []
  shows_session :
      {b : Bool} {xs : List ℕ}
      → (h : Carries m xs) → phase m ≡ view_phase (session b xs)
      → Shows m (session b xs) h.works.cells

-- An event that returns, with the account and the memory beside the client's segments.
abbrev pub Follows : Lwip → Event → System → View → List Cell → Type 0
Follows l ev m v cs =
    (m' : System) × (handle l ev m ≡ some m')
    × ((cs' : List Cell) × Shows m' (next (accepts l ev m) ev v) cs'
        × Beside ev (erase_all cs m.world.mem) (erase_all cs' m'.world.mem))
