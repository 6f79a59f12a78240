-- ===== src/Examples/Reported.antt =====
-- A client that is connected from the other core, gets a delivery, is asked to connect again, and is
-- asked for its status.
use async_tcp.Common.{ℕ, List, Option, some, true, [], ◌∷◌, refl, arith}
use async_tcp.Lwip.{ok, Call}
use async_tcp.Lwip.Refcount.{sample}
use async_tcp.RxBuffer.{lwip_receive_callback, received, on_callback}
use async_tcp.Context.Events.{receive}
use async_tcp.Context.Lifecycle
use async_tcp.Context.Lifecycle.{new_context, init_rx_buffer}
use async_tcp.Context.Options
use async_tcp.Client.{new_client}
use async_tcp.Client.Callbacks.{closures, on_receive_callback}
use async_tcp.Client.Connection.{ts_connect, ts_status, start, opened}
use async_tcp.Accessor.{Machine, status, connect, on_execute, local_connect, new_payload}
use async_tcp.Accessor.Entry
use async_tcp.System.{receiving, handle, Legal}
use async_tcp.System.Cores.{
  system, Life, begin, request, event, connect_to, connect_by_name, ask_status, answer,
}
use async_tcp.System.Spec.{session, next}
use async_tcp.System.Spec.Refines.{Seen}
use async_tcp.System.Reported.Lives.{life-Seen}
use async_tcp.Examples.{lwip, laws, arrived}
use async_tcp.Examples.Remote.{bridge, bridge_laws}
use async_tcp.Examples.Session.{arriving-Legal}
use async_tcp.Examples.Cores.{ready}

-- Every name has the address 2.
abbrev known : List Call → List ℕ → ℕ → Option ℕ
known calls host timeout = some 2

unfoldable linked : (m : Machine) × Life lwip bridge known ready m
unfolding answer Entry.connect Entry.connect_host connect on_execute local_connect new_payload
    ts_connect start opened Lifecycle.connect Options.set_no_delay sample new_client
linked = (_, request begin (connect_by_name 100 50 (104 ∷ []) 17) (λ e. omega arith) refl)

delivered : Legal (receiving 7 arrived ok) (system linked.0)
unfolding linked opened new_context init_rx_buffer
delivered = arriving-Legal (system linked.0) _ _ refl refl refl refl

life : (m : Machine) × Life lwip bridge known ready m
unfolding linked answer Entry.connect Entry.status connect status on_execute local_connect
    new_payload handle ts_connect ts_status start opened new_context init_rx_buffer sample
    new_client receive received on_callback closures lwip_receive_callback on_receive_callback
life = (
  _,
  request
      (request (event linked.1 (receiving 7 arrived ok) delivered refl) (connect_to 200 50 2 17)
        (λ e. omega arith) refl)
      (ask_status 100 60) (λ e. omega arith) refl,
)

life-Seen_example : Seen (session true (15 ∷ [])) (system life.0)
unfolding life linked answer Entry.connect Entry.connect_host Entry.status connect status on_execute
    local_connect new_payload handle ts_connect ts_status start opened new_context init_rx_buffer
    sample new_client next receive received on_callback closures lwip_receive_callback
    on_receive_callback Lifecycle.connect Options.set_no_delay
life-Seen_example = life-Seen laws refl refl refl bridge_laws known ready life.0 refl life.1
