-- ===== src/Examples/Streaming.antt =====
-- A delivery to the buffer of `Examples` and a read across it.
use async_tcp.Common.{
  ℕ, ◌+◌, length, ◌≡◌, refl, some, Option, List, [], ◌∷◌, ◌++◌, arith, sym, ap, some-injective,
}
use async_tcp.Lwip.{World, ok}
use async_tcp.Lwip.Chains.{Cell, Chain, Chain-unique, erase_all}
use async_tcp.Lwip.Refcount.{sample}
use async_tcp.RxBuffer.{
  RxBuffer, ack_loop, to_ack, peek_consume, lwip_receive_callback, peek_buffer, received,
  on_callback, fast_path, free, slow_path, slow_loop,
}
use async_tcp.RxBuffer.Stream.{Holds, stream}
use async_tcp.RxBuffer.Fifo.{Run, start, deliver, read, run-stream}
use async_tcp.RxBuffer.Flow.{acked, Flow, start, deliver, consume}
use async_tcp.RxBuffer.Balance.{flow-balance}
use async_tcp.RxBuffer.Drain.{drain, Drained, drain-Drained}
use async_tcp.Context.{RxClosure}
use async_tcp.Examples.{
  lwip, laws, cells, arrived, store, world, buffer, store-Separate, buffer-Holds,
}

abbrev quiet : RxClosure → World → Option World
quiet k w = some w

apart : (cs : List Cell) → Holds buffer store cs → Chain (erase_all cs store) arrived
apart cs h =
    rw (Chain-unique store cs cells h.chain buffer-Holds.chain (rw h.head refl)) store-Separate.1

session :
    (b : RxBuffer RxClosure) × (w : World) × Run lwip quiet buffer world
      (15 ∷ [])
      (11 ∷ 12 ∷ [])
      b
      w
unfolding peek_buffer received on_callback lwip_receive_callback peek_consume fast_path free to_ack
    ack_loop slow_path slow_loop sample
session = (
  _,
  _,
  read (deliver start 7 (3, 15 ∷ []) [] ok apart refl) 2 (11 ∷ 12 ∷ []) (omega arith) refl
      (omega arith) refl,
)

run-stream_example :
    (cs : List Cell) × Holds session.0 session.1.mem cs
    × ((11 ∷ 12 ∷ 13 ∷ 14 ∷ []) ++ 15 ∷ [] ≡ (11 ∷ 12 ∷ []) ++ stream session.0 cs)
run-stream_example =
    run-stream laws quiet (λ k w w' e. sym (ap (λ (v : World). v.mem) (some-injective _ _ e))) cells
      buffer-Holds session.2

-- The reader on two segments of which one byte was read.
drain-Drained_example :
    (r : List ℕ × RxBuffer RxClosure × World) × (drain lwip 3 buffer world ≡ some r)
    × Drained buffer world cells r
drain-Drained_example = drain-Drained laws 3 buffer world cells (omega arith) buffer-Holds

-- The same delivery, and three bytes consumed.
flow : (b : RxBuffer RxClosure) × (w : World) × Flow lwip quiet 7 buffer world 1 b w
unfolding received on_callback lwip_receive_callback peek_consume fast_path free to_ack ack_loop
    slow_path slow_loop sample
flow = (_, _, consume (deliver start (3, 15 ∷ []) [] ok apart refl) 3 (omega arith) refl)

flow-balance_example :
    (cs : List Cell) × Holds flow.0 flow.1.mem cs
    × (flow.0.pcb ≡ 7)
    × (acked 7 flow.1.calls + length (stream flow.0 cs)
        ≡ acked 7 [] + length {A = ℕ} (11 ∷ 12 ∷ 13 ∷ 14 ∷ []) + 1)
    × (flow.1.mem.live + (2 + 1) ≡ 3 + length cs)
unfolding flow
flow-balance_example =
    flow-balance laws quiet 7
      (λ k w w' e. (
        ap (λ (v : World). v.mem) (sym (some-injective _ _ e)),
        ap (λ (v : World). acked 7 v.calls) (sym (some-injective _ _ e)),
      ))
      cells (λ e. omega arith) buffer-Holds refl flow.2
