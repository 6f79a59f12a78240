-- ===== src/System/Reported.antt =====
-- The client on both cores against an account that is kept from what its requests return.
pub mod Requests
pub mod Lives
use async_tcp.Common.{
  ℕ, ◌≡◌, ◌≢◌, refl, sym, ap, ◌∙◌, inl, inr, arith, Bool, true, false, Option, none, some, List, [],
  bind-some, some-injective, Bool-cases, ◌==◌,
}
use mathlib.Core.Path.{subst}
use async_tcp.Lwip.{Ptr, null, ErrT, is_ok, TcpState, Call, World, log, lock, new_pcb, Lwip}
use async_tcp.Lwip.Chains.{Cell, PbufLaws}
use async_tcp.Client.{Client, Statics}
use async_tcp.Client.Connection.{ts_connect}
use async_tcp.Client.Connecting.{ts_connect-cases, start-leak, start-Wired, verdict}
use async_tcp.Accessor.{Machine, Bridge, BridgeLaws}
use async_tcp.Accessor
use async_tcp.Accessor.Outcome.{locked, remote, failed, connect-Connected, status-ts_status}
use async_tcp.Accessor.Entry
use async_tcp.System.{System, Event, connecting, networking, handle, Legal}
use async_tcp.System.Cores.{
  Request, connect_to, connect_by_name, ask_status, result_of, system, entry-inv, answer, Life,
  begin, request, event,
}
use async_tcp.System.Unread.Reopened.{left_by}
use async_tcp.System.Spec.{
  View, absent, session, connect_view, next, accepts, Shows, shows_absent, shows_session,
}
use async_tcp.System.Spec.Refines.{Seen, handle-Follows, Shows-Seen}

abbrev pub done : Option (ErrT × Machine) → Bool
done none = false
done (some r) = is_ok r.0

-- Whether a request to connect returns 0.
abbrev pub succeeded :
    (l : Lwip) (b : Bridge) (host_by_name : List Call → List ℕ → ℕ → Option ℕ)
    → Request
    → Machine
    → Bool
succeeded l b host_by_name (connect_to fresh result ip port) m =
    done (Entry.connect l b fresh result ip port m)
succeeded l b host_by_name (connect_by_name fresh result host port) m =
    done (Entry.connect_host l b fresh result host_by_name host port m)
succeeded l b host_by_name (ask_status fresh result) m = false

-- The account: a request that succeeds starts a session if there is none, and events are followed
-- as in a run.
abbrev pub told :
    {l : Lwip} {b : Bridge} {host_by_name : List Call → List ℕ → ℕ → Option ℕ} {m0 m : Machine}
    → Life l b host_by_name m0 m
    → View
    → View
told begin v = v
told {l} {b} {host_by_name} (request {m} life q some_result e) v =
    connect_view (succeeded l b host_by_name q m) (told life v)
told {l} (event {m} life ev legal e) v = next (accepts l ev (system m)) ev (told life v)

-- A client in the state of an account, whatever segments it holds.
abbrev pub Showing : System → View → Type 0
Showing m v = (cs : List Cell) × Shows m v cs

pub unsuccessful : (v : View) → v ≡ connect_view false v
unsuccessful absent = refl
unsuccessful (session b xs) = refl
