-- ===== src/System/Phases.antt =====
-- The life of a client as a diagram of three phases, and the events as its edges.
pub mod Refines
pub mod Stopped
pub mod Result
use async_tcp.Common.{
  ℕ, Bool, true, false, Option, none, some, List, [], ◌∷◌, ◌≡◌, ◌==◌, if◌then◌else◌,
}
use async_tcp.Lwip.{Ptr, null, ErrT, World}
use async_tcp.Lwip.Chains.{Cell}
use async_tcp.Context.{Context}
use async_tcp.Client.{Closure}
use async_tcp.System.{
  System, Event, connecting, stopping, shutting_down, configuring, consuming, writing, receiving,
  failing, polling, connected, sent, networking,
}

-- Without a context; with a control block; with a context that gave its control block up.
pub data Phase : Type 0 where
  idle linked parted : Phase

abbrev pub phase_of : Option (Context Closure) → Phase
phase_of none = idle
phase_of (some c) = if c.pcb == null then parted else linked

abbrev pub phase : System → Phase
phase m = phase_of m.client.ctx

-- Connecting, stopping and shutting down.
abbrev pub is_change : Event → Bool
is_change (connecting fresh ip port) = true
is_change stopping = true
is_change shutting_down = true
is_change _ = false

-- The edges of the diagram: only connecting makes a link, and only without a context; only stopping
-- parts, and only shutting down removes a context.
pub data Edge : Event → Phase → Phase → Type 0 where
  accept : {fresh : Ptr} {ip port : ℕ} → Edge (connecting fresh ip port) idle linked
  refuse : {fresh : Ptr} {ip port : ℕ} {p : Phase} → Edge (connecting fresh ip port) p p
  part : Edge stopping linked parted
  stop_idle : Edge stopping idle idle
  stop_parted : Edge stopping parted parted
  clear : {p : Phase} → Edge shutting_down p idle
  keep : {ev : Event} {p : Phase} → is_change ev ≡ false → Edge ev p p

-- Sequences of edges, the last event first.
pub data Route : List Event → Phase → Phase → Type 0 where
  here : {p : Phase} → Route [] p p
  later :
      {evs : List Event} {p q r : Phase}
      → Route evs p q
      → {ev : Event} → Edge ev q r
      → Route (ev ∷ evs) p r
