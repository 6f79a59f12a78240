-- ===== src/Examples/Session.antt =====
-- A client that connects, and a delivery to it.
use async_tcp.Common.{
  none, List, ◌++◌, ◌≡◌, refl, some, [], ◌∷◌, arith, sym, ap, ◌∙◌, some-injective, true,
}
use async_tcp.Lwip.{ok, null, negsuc, run, workload, rx_buffer, error_code}
use async_tcp.Lwip.Chains.{Cell, Chain, Chain-unique}
use async_tcp.Lwip.Refcount.{sample}
use async_tcp.RxBuffer.{RxBuffer}
use async_tcp.RxBuffer.Stream.{Holds, stream}
use async_tcp.System.Notified.{receiving-told, calls-told, given, signalled}
use async_tcp.Context.{Context, RxClosure, calls_receive_cb, calls_fin_cb}
use async_tcp.Context.Lifecycle
use async_tcp.Context.Lifecycle.{new_context, init_rx_buffer}
use async_tcp.Context.Options
use async_tcp.Client.{Statics, Closure, new_client}
use async_tcp.Client.Connection.{ts_connect, start, opened}
use async_tcp.Client.Connecting.{opened-Opened}
use async_tcp.System.Valid.{Works}
use async_tcp.System.{
  System, connecting, receiving, failing, polling, connected, sent, handle, Legal,
}
use async_tcp.System.Trace.{Trace, empty, step, initial, trace-IsHandled}
use async_tcp.System.Operations.{IsHandled}
use async_tcp.Examples.{lwip, laws, arrived, world, store}

abbrev pub statics : Statics
statics = record { local_port = 49152; default_no_delay = true }

unfoldable pub session : (m : System) × Trace lwip (initial statics world) m
unfolding handle ts_connect start opened Lifecycle.connect Options.set_no_delay sample new_client
session = (_, step empty (connecting 100 2 17) tt refl)

pub arrived-Chain : Chain store arrived
arrived-Chain = (omega arith, omega arith, refl, omega arith, omega arith, tt)

-- The new buffer is empty, and the segment at 3 is anywhere but in it.
-- Delivering the segment is legal while nothing is held.
pub arriving-Legal :
    (m : System) (c : Context Closure) (r : RxBuffer RxClosure)
    → m.client.ctx ≡ some c
    → c.rx ≡ some r
    → r.head ≡ null
    → m.world.mem ≡ store
    → Legal (receiving 7 arrived ok) m
arriving-Legal m c r here rx none_held same = (
  c,
  here,
  λ b cs rx_b held.
      let head : b.head ≡ null =
        ap (λ (x : RxBuffer RxClosure). x.head) (some-injective _ _ (sym rx_b ∙ rx)) ∙ none_held in
      rw (Chain-unique m.world.mem cs [] held.chain tt (sym held.head ∙ head), same) arrived-Chain,
)

pub delivery : Legal (receiving 7 arrived ok) session.0
unfolding session opened new_context init_rx_buffer
delivery = arriving-Legal session.0 _ _ refl refl refl refl

trace-IsHandled_example : IsHandled lwip (receiving 7 arrived ok) session.0
trace-IsHandled_example =
    trace-IsHandled laws statics world session.0 session.1 (receiving 7 arrived ok) delivery

-- The context that `_ts_connect` makes.
abbrev pub context : Context Closure
context = (opened 100 7 statics new_client world).0

unfoldable pub context-Works : Works context world
unfolding opened new_context init_rx_buffer
context-Works = record {
  wired = (opened-Opened 100 7 statics new_client world).wired;
  buffer = record {
    pcb = null;
    head = null;
    offset = 0;
    received_cb = some calls_receive_cb;
    fin_cb = some calls_fin_cb;
  };
  here = refl;
  cells = [];
  holds = record { head = refl; chain = tt; cursor = refl };
  listens = (refl, refl);
}

abbrev pub online : System
online = record {
  statics = statics;
  client = record new_client { ctx = some context; received_bridge = some 4 };
  world = world;
}

receiving-told_example :
    (m' : System) × (handle lwip (receiving 7 arrived ok) online ≡ some m')
    × (m'.world.calls ≡ run 4 ∷ workload 4 rx_buffer ∷ [])
    × ((c' : Context Closure) × (b' : RxBuffer RxClosure) × (cs' : List Cell) × (m'.client.ctx
          ≡ some c')
        × (c'.rx ≡ some b')
        × Holds b' m'.world.mem cs'
        × (stream b' cs' ≡ [] ++ 15 ∷ []))
unfolding context-Works opened new_client
receiving-told_example =
    receiving-told laws online context 7 arrived refl context-Works arrived-Chain

abbrev listening : System
listening = record online {
  client = record online.client {
    ack_bridge = some 5;
    error_bridge = some 6;
    connected_bridge = some 8;
  };
}

-- An error, a poll, a connection and an acknowledgement, with three bridges set.
calls-told_example :
    (handle lwip (failing (negsuc 13)) listening
      ≡ some (record listening { world = given (error_code (negsuc 13)) (some 6) world }))
    × (handle lwip polling listening ≡ some (record listening { world = signalled none world }))
    × (handle lwip (connected 7 ok) listening
        ≡ some (record listening { world = signalled (some 8) world }))
    × (handle lwip (sent 7 1460) listening ≡ some listening)
unfolding opened new_client new_context
calls-told_example = calls-told lwip listening context refl context-Works (negsuc 13) ok 7 1460
