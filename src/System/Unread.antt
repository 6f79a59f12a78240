-- ===== src/System/Unread.antt =====
-- The bytes that the application has not read, over any sequence of events on an open client.
pub mod Single
pub mod Runs
pub mod Reopened
use async_tcp.Common.{
  ℕ, ◌+◌, ◌≤◌, ◌<◌, ◌≡◌, refl, sym, ap, ◌∙◌, ◌≢◌, inl, inr, Bool, true, false, Option, none, some,
  List, [], ◌∷◌, ◌++◌, append_assoc, append-nil, arith, length, take, drop, length-take,
  length-append, take-append-drop, All, some-injective, size_mod, ◌>>=◌,
}
use async_tcp.Lwip.{Ptr, ErrT, Store, World, Lwip}
use async_tcp.Lwip.Chains.{Cell, addr, erase_all, PbufLaws}
use async_tcp.RxBuffer.{RxBuffer, peek_consume}
use async_tcp.RxBuffer.Stream.{bytes, Holds, stream}
use async_tcp.RxBuffer.Window.{peek_consume-Consumed}
use async_tcp.Context.{Context, RxClosure}
use async_tcp.Context.Events.{receive}
use async_tcp.Client.{Client, Closure}
use async_tcp.Client.Callbacks.{closures}
use async_tcp.Client.Connection.{ts_connect}
use async_tcp.Client.Connecting.{ts_connect-cases}
use async_tcp.System.{
  System, Event, connecting, stopping, shutting_down, configuring, consuming, writing, sending,
  queuing, setting_no_delay, keeping_alive, receiving, failing, polling, connected, sent,
  networking, handle, Legal,
}
use async_tcp.System.Valid.{Works, with_buffer-Wired}
use async_tcp.System.Told.{arriving}
use async_tcp.System.Receiving.{receive-Works}
use async_tcp.System.Quiet.{quiet-Passes, is_quiet, via, after}
use async_tcp.System.Trace.{Trace, empty, step, events}

-- The client has a context that works, and these bytes are unread.
pub record Carries (m : System) (unread : List ℕ) : Type 0 where
  pub context : Context Closure
  pub here : m.client.ctx ≡ some context
  pub works : Works context m.world
  pub same : stream works.buffer works.cells ≡ unread

-- What an event delivers, and how much it asks to consume.
abbrev pub delivered : Event → List ℕ
delivered (receiving tpcb ds err) = arriving err ds
delivered _ = []

abbrev pub asked : Event → ℕ
asked (consuming n) = n
asked _ = 0

-- Every event but stopping and shutting down.
abbrev pub StaysOpen : Event → Type 0
StaysOpen ev = (ev ≢ stopping) × (ev ≢ shutting_down)

-- The same over a run, whose events come the last first.
abbrev pub all_delivered : List Event → List ℕ
all_delivered [] = []
all_delivered (ev ∷ evs) = all_delivered evs ++ delivered ev

abbrev pub all_asked : List Event → ℕ
all_asked [] = 0
all_asked (ev ∷ evs) = all_asked evs + asked ev

-- What is read and what is left.
abbrev pub Left : List ℕ → ℕ → System → Type 0
Left bytes_in n m =
    (outs rest : List ℕ) × (bytes_in ≡ outs ++ rest) × (length outs ≤ n) × Carries m rest

-- The segments that lwIP hands over, whether or not they are kept.
abbrev pub handed : Event → List Cell
handed (receiving tpcb ds err) = ds
handed _ = []

-- What lwIP does by itself.
abbrev pub by_itself : Event → Bool
by_itself (networking w) = true
by_itself _ = false

-- What an event does to the memory beside the client's own segments: it takes out what was handed
-- over, and only lwIP by itself does anything else.
abbrev pub TakesOut : Bool → List Cell → Store → Store → Type 0
TakesOut true ds r r' = Unit {0}
TakesOut false ds r r' = r' ≡ erase_all ds r

abbrev pub Beside : Event → Store → Store → Type 0
Beside ev = TakesOut (by_itself ev) (handed ev)

abbrev pub beside : {m : System} {unread : List ℕ} → Carries m unread → Store
beside {m} h = erase_all h.works.cells m.world.mem

-- An event that returns, with the bytes that it leaves.
abbrev pub Becomes : Lwip → Event → (m : System) {unread : List ℕ} → Carries m unread → Type 0
Becomes l ev m {unread} h =
    (m' : System) × (handle l ev m ≡ some m')
    × ((h' : Carries m' (drop (asked ev) (unread ++ delivered ev))) × Beside ev (beside h)
          (beside h'))
