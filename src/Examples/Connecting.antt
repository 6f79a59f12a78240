-- ===== src/Examples/Connecting.antt =====
-- The theorems on `_ts_connect` at a fresh client, with an lwIP that accepts and one that refuses.
use async_tcp.Common.{◌≡◌, refl, true, none, [], ◌∷◌, arith}
use async_tcp.Lwip.{negsuc, connect, Lwip}
use async_tcp.Lwip.Registered.{registration, registered}
use async_tcp.RxBuffer.{RxBuffer}
use async_tcp.Context.{Context}
use async_tcp.Client.{Statics, new_client}
use async_tcp.Client.Connection.{start, opened, take_port}
use async_tcp.Client.Ports.{after_attempts, take_port-after_attempts}
use async_tcp.Client.Connecting.{start-leak}
use async_tcp.Examples.{lwip, world}

abbrev statics : Statics
statics = record { local_port = 65535; default_no_delay = true }

-- No route to the host.
abbrev unreachable : Lwip
unreachable = record lwip { tcp_connect = λ _ _ _ _. negsuc 3 }

start-leak_example :
    let r = start unreachable 100 7 2 17 statics new_client world in
    (r.0 ≡ negsuc 3)
    × (r.2.ctx ≡ none)
    × (r.3.calls ≡ connect 7 2 17 ∷ (opened 100 7 statics new_client world).1.calls)
    × (registration 7 r.3.calls ≡ registered 100)
start-leak_example = start-leak unreachable 100 7 2 17 statics new_client world refl

-- The first attempt takes port 65535, the second leaves the port of its control block.
take_port-after_attempts_example :
    let (s', w') = after_attempts (7 ∷ []) statics world in
    ((take_port 8 s' w').1.pcbs 8).local_port ≡ 49152
take_port-after_attempts_example =
    take_port-after_attempts (7 ∷ []) 8 statics world (omega arith) (omega arith)
