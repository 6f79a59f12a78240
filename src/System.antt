-- ===== src/System.antt =====
-- The client as a whole (src/TcpClient.cpp over the other files): what the application does and what
-- lwIP calls, as events on the client, its static members and the world.
pub mod Valid
pub mod Traffic
pub mod Calling
pub mod Told
pub mod Receiving
pub mod Writing
pub mod Operations
pub mod Quiet
pub mod Unread
pub mod Cores
pub mod Reported
pub mod Handling
pub mod Trace
pub mod Stale
pub mod Notified
pub mod Phases
pub mod Spec
pub mod Pair
pub mod Outgoing
pub mod Window
pub mod Freed
pub mod Delivery
use async_tcp.Common.{ℕ, ◌≡◌, ◌≢◌, ◌<◌, Bool, Option, none, some, List, length, size_mod, ◌>>=◌}
use async_tcp.Lwip.{Ptr, null, ErrT, World, Lwip}
use async_tcp.Lwip.Chains.{Cell, addr, Chain, erase_all}
use async_tcp.RxBuffer.{RxBuffer, peek_consume}
use async_tcp.RxBuffer.Stream.{Holds}
use async_tcp.Context.{Context, RxClosure}
use async_tcp.Context.Events.{receive, s_error, s_poll, s_connected, lwip_sent_cb}
use async_tcp.Client.{Client, Statics, Closure}
use async_tcp.Writer.{write_data}
use async_tcp.Client.Connection.{ts_connect, set_no_delay, stop, shutdown}
use async_tcp.Client.Callbacks.{closures}
use async_tcp.Client.Access.{write, write_chunk, keep_alive}

pub record System : Type 0 where
  pub statics : Statics
  pub client : Client
  pub world : World

-- What the application does on the core of the network stack (`sending` is `write`, through the write
-- callback, and `queuing` is `writeData` on the writer that the callback is handed), the calls of lwIP with the client's
-- context as their argument, and what lwIP does by itself.
pub data Event : Type 0 where
  connecting : (fresh : Ptr) → (ip port : ℕ) → Event
  stopping shutting_down : Event
  configuring : (Client → Client) → Event
  consuming : ℕ → Event
  writing : Option (List ℕ) → Event
  sending queuing : List ℕ → Event
  setting_no_delay : Bool → Event
  keeping_alive : (idle_sec intv_sec count : ℕ) → Event
  receiving : Ptr → List Cell → ErrT → Event
  failing : ErrT → Event
  polling : Event
  connected : Ptr → ErrT → Event
  sent : Ptr → ℕ → Event
  networking : World → Event

module _ (l : Lwip) where
  -- `none` is a fault. What an operation returns is left out.
  unfoldable pub handle : Event → System → Option System
  handle (connecting fresh ip port) m =
      let (_, s, t, w) = ts_connect l fresh ip port m.statics m.client m.world in
      some (record { statics = s; client = t; world = w })
  handle stopping m =
      let (_, t, w) = stop l m.client m.world in some (record m { client = t; world = w })
  handle shutting_down m =
      let (_, t, w) = shutdown l m.client m.world in some (record m { client = t; world = w })
  handle (configuring set) m = some (record m { client = set m.client })
  handle (consuming n) m = do
    c ← m.client.ctx
    b ← c.rx
    (b', w) ← peek_consume l n b m.world
    some (record m {
      client = record m.client { ctx = some (record c { rx = some b' }) };
      world = w;
    })
  handle (writing bytes) m = do
    w ← write_chunk l bytes m.client m.world
    some (record m { world = w })
  handle (sending bytes) m = do
    w ← write (some bytes) m.client m.world
    some (record m { world = w })
  handle (queuing bytes) m = do
    c ← m.client.ctx
    x ← c.tx
    (_, w) ← write_data l x (some bytes) m.world
    some (record m { world = w })
  handle (setting_no_delay no_delay) m =
      some (record m { world = set_no_delay no_delay m.client m.world })
  handle (keeping_alive idle_sec intv_sec count) m = do
    w ← keep_alive idle_sec intv_sec count m.client m.world
    some (record m { world = w })
  handle (receiving tpcb ds err) m = do
    (_, c, w) ← receive (closures l m.client) l tpcb (addr ds) err m.client.ctx m.world
    some (record m { client = record m.client { ctx = some c }; world = w })
  handle (failing err) m = do
    w ← s_error (closures l m.client) m.client.ctx err m.world
    some (record m { world = w })
  handle polling m = do
    (_, w) ← s_poll (closures l m.client) m.client.ctx m.world
    some (record m { world = w })
  handle (connected pcb err) m = do
    (_, w) ← s_connected (closures l m.client) m.client.ctx pcb err m.world
    some (record m { world = w })
  handle (sent tpcb len) m = do
    (_, w) ← lwip_sent_cb m.client.ctx tpcb len m.world
    some (record m { world = w })
  handle (networking w) m = some (record m { world = w })

-- What lwIP and the application keep to: a context is called only while the client has it and with
-- its control block, what is delivered is apart from what the buffer holds, lwIP leaves that alone,
-- and setters do not touch the context. A write is not empty and has a write callback, the writer is
-- asked only while there is one, and keep-alive is set only on a control block.
abbrev pub Legal : Event → System → Type 0
Legal (connecting fresh ip port) m = Unit {0}
Legal stopping m = Unit {0}
Legal shutting_down m = Unit {0}
Legal (configuring set) m = (set m.client).ctx ≡ m.client.ctx
Legal (consuming n) m = (n < size_mod) × ((c : Context Closure) × (m.client.ctx ≡ some c))
Legal (writing bytes) m = Unit {0}
Legal (sending bytes) m =
    (0 < length bytes)
    × ((c : Context Closure)
        → m.client.ctx ≡ some c
        → (cb : ℕ) × (m.client.write_callback ≡ some cb))
Legal (queuing bytes) m =
    (length bytes < size_mod) × ((c : Context Closure) × (m.client.ctx ≡ some c))
Legal (setting_no_delay no_delay) m = Unit {0}
Legal (keeping_alive idle_sec intv_sec count) m =
    (c : Context Closure) × (m.client.ctx ≡ some c) × (c.pcb ≢ null)
Legal (receiving tpcb ds err) m =
    (c : Context Closure) × (m.client.ctx ≡ some c)
    × ((b : RxBuffer RxClosure) (cs : List Cell)
        → c.rx ≡ some b
        → Holds b m.world.mem cs
        → Chain (erase_all cs m.world.mem) ds)
Legal (failing err) m = Unit {0}
Legal polling m = Unit {0}
Legal (connected pcb err) m = (c : Context Closure) → m.client.ctx ≡ some c → pcb ≡ c.pcb
Legal (sent tpcb len) m = (c : Context Closure) × (m.client.ctx ≡ some c)
Legal (networking w) m =
    (c : Context Closure) (b : RxBuffer RxClosure) (cs : List Cell)
    → m.client.ctx ≡ some c
    → c.rx ≡ some b
    → Holds b m.world.mem cs
    → Chain w.mem cs
