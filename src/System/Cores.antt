-- ===== src/System/Cores.antt =====
-- The client on both cores: calls through the sync accessor, in any order with the events of the
-- core of the network stack.
use async_tcp.Common.{ℕ, ◌≡◌, ◌≢◌, arith, Option, none, some, List, ◌>>=◌, some-injective}
use async_tcp.Lwip.{Ptr, null, Call, Lwip}
use async_tcp.Client.{Client}
use async_tcp.Accessor.{Machine, Bridge}
use async_tcp.Accessor
use async_tcp.Accessor.Entry
use async_tcp.System.{System, Event, handle, Legal}
use async_tcp.System.Trace.{Trace}

-- `TcpClient::connect`, by address and by name, and `TcpClient::status`; `fresh` and `result` are
-- the addresses of a new context and of the local variable for the result.
pub data Request : Type 0 where
  connect_to : (fresh result : Ptr) (ip port : ℕ) → Request
  connect_by_name : (fresh result : Ptr) (host : List ℕ) (port : ℕ) → Request
  ask_status : (fresh result : Ptr) → Request

abbrev pub result_of : Request → Ptr
result_of (connect_to fresh result ip port) = result
result_of (connect_by_name fresh result host port) = result
result_of (ask_status fresh result) = result

abbrev pub system : Machine → System
system m = record { statics = m.statics; client = m.client; world = m.world }

abbrev pub with_system : Machine → System → Machine
with_system m s = record m { statics = s.statics; client = s.client; world = s.world }

-- What an accessor that is set returns.
pub entry-inv :
    (o : Option ℕ) {A : Type 0} (x r : A)
    → (elim o as (λ _. Option A) [ none ↦ none | some _ ↦ some x ]) ≡ some r
    → x ≡ r
entry-inv none x r e = absurd (ground (arith, e))
entry-inv (some _) x r e = some-injective _ _ e

module _ (l : Lwip) (b : Bridge) (host_by_name : List Call → List ℕ → ℕ → Option ℕ) where
  -- What is shared after a request; `none` is a failed assertion.
  unfoldable pub answer : Request → Machine → Option Machine
  answer (connect_to fresh result ip port) m = do
    (_, m') ← Entry.connect l b fresh result ip port m
    some m'
  answer (connect_by_name fresh result host port) m = do
    (_, m') ← Entry.connect_host l b fresh result host_by_name host port m
    some m'
  answer (ask_status fresh result) m = do (_, m') ← Entry.status l b fresh result m; some m'

  -- Requests and legal events, in any order.
  pub data Life (m0 : Machine) : Machine → Type 0 where
    begin : Life m0 m0
    request :
        {m m' : Machine}
        → Life m0 m
        → (q : Request) → result_of q ≢ null
        → answer q m ≡ some m'
        → Life m0 m'
    event :
        {m : Machine} {s : System}
        → Life m0 m
        → (ev : Event) → Legal ev (system m)
        → handle l ev (system m) ≡ some s
        → Life m0 (with_system m s)
