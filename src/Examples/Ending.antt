-- ===== src/Examples/Ending.antt =====
-- The theorems on the end of a client's connection, at a client with unread data.
use async_tcp.Common.{◌≡◌, refl, none, some, true, arith}
use async_tcp.Lwip.{closed}
use async_tcp.Lwip.Chains.{erase_all}
use async_tcp.Lwip.Refcount.{sample}
use async_tcp.Lwip.Registered.{registration, withdrawn}
use async_tcp.Context.{Context}
use async_tcp.Context.Lifecycle.{blank}
use async_tcp.Client.{Client, Statics, Closure, new_client}
use async_tcp.Client.Connection.{ts_status, shutdown}
use async_tcp.Client.Ending.{shutdown-withdrawn}
use async_tcp.Examples.{lwip, laws, cells, store, world, buffer, buffer-Holds}

abbrev context : Context Closure
context = record (blank 100 7) { rx = some buffer }

abbrev client : Client
client = record new_client { ctx = some context }

abbrev statics : Statics
statics = record { local_port = 0; default_no_delay = true }

shutdown-withdrawn_example :
    let r = shutdown lwip client world in
    (r.0 ≡ true)
    × (r.1 ≡ record client { ctx = none })
    × (r.2.mem ≡ erase_all cells store)
    × (registration 7 r.2.calls ≡ withdrawn)
    × (ts_status r.1 r.2 ≡ closed)
unfolding sample
shutdown-withdrawn_example =
    shutdown-withdrawn laws client world context buffer cells refl refl (λ e. omega arith) refl
      buffer-Holds
