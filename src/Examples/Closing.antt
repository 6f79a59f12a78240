-- ===== src/Examples/Closing.antt =====
-- The theorems on the end of a connection and on its options, at a context with unread data.
use async_tcp.Common.{◌≡◌, refl, true, none, some, List, ◌∷◌, arith}
use async_tcp.Lwip.{World, Call, null, abort as abort_call}
use async_tcp.Lwip.Chains.{erase_all}
use async_tcp.Lwip.Registered.{registration, registered, withdrawn}
use async_tcp.Writer.{Writer, available_for_write}
use async_tcp.Writer
use async_tcp.Context.{Context}
use async_tcp.Context.Lifecycle.{blank, new_context, unregister, abort, close, destroy}
use async_tcp.Context.Lifecycle.Closing.{
  Closed, close-Closed, abort-withdrawn, close-stale_writer, destroy-registered,
}
use async_tcp.Context.Options.{state, is_connection_valid}
use async_tcp.Context.KeepAlive.{
  keep_alive, is_keep_alive_enabled, get_keep_alive_idle, get_keep_alive_interval,
  get_keep_alive_count, keep_alive-getters,
}
use async_tcp.Examples.{lwip, laws, cells, store, world, buffer, buffer-Holds}

abbrev writer : Writer (Unit {0})
writer = record {
  pcb = 7;
  data_copy = none;
  acked_bytes = 0;
  queued_bytes = 0;
  total_size = 0;
  write_start_time = 0;
  last_progress_time = 0;
  mode = Writer.acked;
  ack_cb = none;
}

abbrev context : Context (Unit {0})
context = record (blank 100 7) { rx = some buffer; tx = some writer }

abbrev opened_world : World
opened_world = (new_context {K = Unit {0}} 100 7 world).1

close-Closed_example : Closed laws context world cells (close lwip context world)
close-Closed_example =
    close-Closed laws context world buffer cells (λ e. omega arith) refl buffer-Holds

abort_closing :
    let r = abort lwip context world in
    (r.0 ≡ lwip.err_abrt)
    × (r.1.pcb ≡ null)
    × (r.2.mem ≡ erase_all cells store)
    × (registration 7 r.2.calls ≡ withdrawn)
    × (r.2.calls ≡ abort_call 7 ∷ (unregister 7 world).calls)
abort_closing = abort-withdrawn laws context world buffer cells (λ e. omega arith) refl buffer-Holds

close-stale_writer_example :
    let r = close lwip context world in
    (r.1.pcb ≡ null)
    × (r.1.tx ≡ some writer)
    × ((calls : List Call) → available_for_write lwip writer calls ≡ lwip.tcp_sndbuf calls 7)
close-stale_writer_example =
    close-stale_writer lwip context world writer (λ e. omega arith) refl refl

destroy-registered_example :
    ((destroy lwip context opened_world).calls ≡ opened_world.calls)
    × (registration 7 (destroy lwip context opened_world).calls ≡ registered 100)
unfolding new_context
destroy-registered_example = destroy-registered lwip context opened_world refl

valid_established : is_connection_valid context world ≡ true
unfolding is_connection_valid state
valid_established = refl

keep_alive-getters_example :
    (w' : World) × (keep_alive 7200 75 9 context world ≡ some w')
    × (is_keep_alive_enabled context w' ≡ some true)
    × (get_keep_alive_idle context w' ≡ some 7200)
    × (get_keep_alive_interval context w' ≡ some 75)
    × (get_keep_alive_count context w' ≡ some 9)
keep_alive-getters_example =
    keep_alive-getters context world (λ e. omega arith) (omega arith) 7200 75 9 (omega arith)
      (omega arith)
