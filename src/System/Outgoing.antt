-- ===== src/System/Outgoing.antt =====
-- What a client has lwIP send: over any sequence of events, what the application asked for.
pub mod Ending
pub mod Single
pub mod Runs
use async_tcp.Common.{
  ℕ, ◌<◌, ◌≡◌, refl, sym, ap, ◌∙◌, ◌≢◌, inl, inr, Bool, true, false, Option, none, some, List, [],
  ◌∷◌, ◌++◌, append-nil, append_assoc, arith, ◌==◌, Bool-cases, Option-cases, some-injective,
  bind-some, length, All, ◌>>=◌, ltb,
}
use mathlib.Core.Path.{subst}
use async_tcp.Lwip.{Ptr, ErrT, null, is_ok, World, Call, log, new_pcb, recved, Lwip}
use async_tcp.Lwip.Chains.{Cell, PbufLaws, addr}
use async_tcp.RxBuffer.Ack.{after_acks}
use async_tcp.RxBuffer.Window.{peek_consume-Consumed}
use async_tcp.Writer.{write_data}
use async_tcp.Writer.Chunks.{flatten}
use async_tcp.Writer.Queued.{queued, Adds, queued-Adds}
use async_tcp.Writer.Adds.{write_data-Adds}
use async_tcp.Context.{Context}
use async_tcp.Context.Events.{receive}
use async_tcp.Context.Lifecycle
use async_tcp.Context.Lifecycle.{new_context, unregister, close, reset_rx}
use async_tcp.Context.Lifecycle.Closing.{destroy-calls}
use async_tcp.Client.{Client, Statics, Closure}
use async_tcp.Client.Callbacks.{closures}
use async_tcp.Client.Connection.{start, opened, stop, shutdown, ts_connect}
use async_tcp.Client.Connecting.{ts_connect-cases, start-calls}
use async_tcp.System.{
  System, Event, connecting, stopping, shutting_down, configuring, consuming, writing, sending,
  queuing, setting_no_delay, keeping_alive, receiving, failing, polling, connected, sent,
  networking, handle, Legal,
}
use async_tcp.System.Valid.{IsValid, valid-Works}
use async_tcp.System.Receiving.{receive-Works}
use async_tcp.System.Quiet.{quiet-Passes, is_quiet, via, after}
use async_tcp.System.Writing.{given_bytes}
use async_tcp.System.Trace.{Trace, empty, step, events, trace-IsValid, initial}

-- The data that an event asks lwIP to send.
abbrev pub asks : Event → List ℕ
asks (writing bytes) = given_bytes bytes
asks (queuing bytes) = bytes
asks _ = []

-- An event that adds the front of its data to what every control block has queued.
abbrev pub Sends : Lwip → Event → System → System → Type 0
Sends l ev m m' = (q : Ptr) → Adds l q (asks ev) m.world.calls m'.world.calls

-- What lwIP does by itself has nothing more queued.
abbrev pub Leaves : Lwip → Event → System → Type 0
Leaves l (networking w) m = (q : Ptr) → queued l q w.calls ≡ queued l q m.world.calls
Leaves l _ m = Unit {0}

-- The events of a run leave it at that.
abbrev pub AllLeave : {l : Lwip} {m0 m : System} → Trace l m0 m → Type 0
AllLeave empty = Unit {0}
AllLeave {l} (step {m} run ev legal returns) = Leaves l ev m × AllLeave run

-- Data that consists of the front of what each event asks for, in order; the events come the last
-- first.
abbrev pub Sent : List Event → List ℕ → Type 0
Sent [] bytes = bytes ≡ []
Sent (ev ∷ evs) bytes =
    (before part unsent : List ℕ) × (bytes ≡ before ++ part)
    × (asks ev ≡ part ++ unsent)
    × Sent evs before
