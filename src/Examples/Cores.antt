-- ===== src/Examples/Cores.antt =====
-- A client that is connected and asked for its status from the other core, with a poll in between.
use async_tcp.Common.{ℕ, List, Option, none, some, refl, arith}
use async_tcp.Lwip.{Call}
use async_tcp.Lwip.Refcount.{sample}
use async_tcp.Context.Events.{s_poll}
use async_tcp.Context.Lifecycle
use async_tcp.Context.Options
use async_tcp.Client.{new_client}
use async_tcp.Client.Callbacks.{closures}
use async_tcp.Client.Connection.{ts_connect, ts_status, start, opened}
use async_tcp.Accessor.{Machine, status, connect, on_execute, local_connect, new_payload}
use async_tcp.Accessor.Entry
use async_tcp.System.{polling, handle}
use async_tcp.System.Trace.{Trace}
use async_tcp.System.Cores.{Life, begin, request, event, connect_to, ask_status, answer}
use async_tcp.Examples.{lwip}
use async_tcp.Examples.Remote.{bridge, machine}

abbrev pub ready : Machine
ready = record machine { client = record new_client { sync_accessor = some 3 } }

-- No name is known.
abbrev no_name : List Call → List ℕ → ℕ → Option ℕ
no_name calls host timeout = none

life : (m : Machine) × Life lwip bridge no_name ready m
unfolding answer Entry.connect Entry.status connect status on_execute local_connect new_payload
    handle ts_connect ts_status start opened Lifecycle.connect Options.set_no_delay s_poll closures
    sample new_client
life = (
  _,
  request (event (request begin (connect_to 100 50 2 17) (λ e. omega arith) refl) polling tt refl)
      (ask_status 100 60) (λ e. omega arith) refl,
)
