-- ===== src/Examples.antt =====
-- Concrete inputs: a reference-counting pbuf memory with two segments in a buffer and one beside
-- them, an lwIP that has room for four bytes, and one that refuses.
mod Reading
mod Class
mod Writing
mod Retrying
mod Closing
mod Connecting
mod Remote
mod Streaming
mod Session
mod Phases
mod Unread
mod Window
mod Spec
mod Pair
mod Outgoing
mod Cores
mod Reported
mod Ending
use async_tcp.Common.{
  ℕ, Bool, true, false, Option, none, some, List, [], ◌∷◌, ◌==◌, if◌then◌else◌, ◌≡◌, refl, ◌≢◌,
  arith,
}
use async_tcp.Lwip.{
  Ptr, ErrT, ok, negsuc, TcpState, established, Pbuf, Store, Pcb, World, Lwip, Call,
}
use async_tcp.Lwip.Chains.{Cell, node, Chain, PbufLaws}
use async_tcp.Lwip.Separate.{Separate}
use async_tcp.Lwip.Refcount.{sample, sample-PbufLaws}
use async_tcp.RxBuffer.{RxBuffer}
use async_tcp.RxBuffer.Stream.{Holds}
use async_tcp.Writer.{Writer}
use async_tcp.Context.{Context, RxClosure, calls_fin_cb, calls_receive_cb}

abbrev pub lwip : Lwip
lwip = sample 4

abbrev pub laws : PbufLaws lwip
laws = sample-PbufLaws 4

abbrev pub cells : List Cell
cells = (1, 10 ∷ 11 ∷ 12 ∷ []) ∷ (2, 13 ∷ 14 ∷ []) ∷ []

abbrev pub arrived : List Cell
arrived = (3, 15 ∷ []) ∷ []

abbrev pub store : Store
store = record {
  live = 3;
  cell = λ q.
      if q == 1
      then some (node (10 ∷ 11 ∷ 12 ∷ []) 2 1)
      else if q == 2
      then some (node (13 ∷ 14 ∷ []) 0 1)
      else if q == 3
      then some (node (15 ∷ []) 0 1)
      else none;
}

abbrev pub fields : Pcb
fields = record {
  state = established;
  local_ip = 1;
  local_port = 49152;
  remote_ip = 2;
  remote_port = 17;
  so_options = 4;
  keep_idle = 0;
  keep_intvl = 0;
  keep_cnt = 0;
  nodelay = false;
}

abbrev pub world : World
world = record { mem = store; pcbs = λ _. fields; calls = [] }

abbrev pub buffer : RxBuffer RxClosure
buffer = record {
  pcb = 7;
  head = 1;
  offset = 1;
  received_cb = some calls_receive_cb;
  fin_cb = some calls_fin_cb;
}

pub store-Separate : Separate store cells arrived
store-Separate = (
  (
    omega arith,
    omega arith,
    refl,
    omega arith,
    omega arith,
    (omega arith, omega arith, refl, omega arith, omega arith, tt),
  ),
  (omega arith, omega arith, refl, omega arith, omega arith, tt),
)

pub buffer-Holds : Holds buffer store cells
buffer-Holds = record { head = refl; chain = store-Separate.0; cursor = omega arith }
