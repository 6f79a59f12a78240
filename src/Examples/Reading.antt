-- ===== src/Examples/Reading.antt =====
-- The theorems on receive buffers at the buffer of `Examples`, and tests of its operations.
use async_tcp.Common.{ℕ, ◌≡◌, refl, some, List, [], ◌∷◌, arith}
use async_tcp.Lwip.{Call, Pbuf, ErrT, World, ok, negsuc, recved, null, Store}
use async_tcp.Lwip.Chains.{node, erase_all}
use mathlib.Core.Option
use mathlib.Core.Option.{Option}
use async_tcp.Lwip.Refcount.{sample}
use async_tcp.RxBuffer
use async_tcp.RxBuffer.{
  to_ack, ack_loop, slow_loop, RxBuffer, peek, peek_available, peek_buffer, peek_consume, fast_path,
  slow_path, lwip_receive_callback, reset,
}
use async_tcp.RxBuffer.Stream.{Holds}
use async_tcp.RxBuffer.Consume.{fast_path-slow_path}
use async_tcp.RxBuffer.Window.{Consumed, peek_consume-Consumed}
use async_tcp.RxBuffer.Receive.{
  Appended, notified, lwip_receive_callback-append, lwip_receive_callback-error, reset-empty,
}
use async_tcp.Context.{RxClosure}
use async_tcp.Examples.{
  lwip, laws, cells, arrived, store, world, buffer, store-Separate, buffer-Holds,
}

fast_path-slow_path_example : fast_path lwip 2 buffer store ≡ slow_path lwip 2 buffer store
fast_path-slow_path_example =
    fast_path-slow_path laws 2 buffer store 1 (10 ∷ 11 ∷ 12 ∷ []) ((2, 13 ∷ 14 ∷ []) ∷ [])
      buffer-Holds (omega arith) (omega arith)

peek_consume-Consumed_example :
    (r : RxBuffer RxClosure × World) × (peek_consume lwip 3 buffer world ≡ some r)
    × Consumed 3 buffer world cells r
peek_consume-Consumed_example =
    peek_consume-Consumed laws 3 buffer world cells (omega arith) buffer-Holds

-- Three bytes: the first segment is freed, the second begun.
consume_three :
    Option.map {B = ℕ × ℕ × ℕ × List Call}
      (λ r. (r.0.head, r.0.offset, r.1.mem.live, r.1.calls))
      (peek_consume lwip 3 buffer world)
    ≡ some (2, 1, 2, recved 7 3 ∷ [])
unfolding peek_consume fast_path slow_path slow_loop RxBuffer.free to_ack ack_loop sample
consume_three = refl

-- The closures do nothing.
abbrev quiet : RxClosure → World → Option World
quiet k w = some w

lwip_receive_callback-append_example :
    (b' : RxBuffer RxClosure) × (s' : Store) × (lwip_receive_callback lwip quiet 7 3 ok buffer world
      ≡ notified quiet ok b' s' buffer.received_cb world)
    × Appended laws 7 buffer store cells arrived b' s'
lwip_receive_callback-append_example =
    lwip_receive_callback-append laws quiet 7 buffer world cells (3, 15 ∷ []) [] buffer-Holds
      store-Separate.1

lwip_receive_callback-error_example :
    (lwip_receive_callback lwip quiet 7 3 (negsuc 0) buffer world
      ≡ some (negsuc 0, record buffer { pcb = 7 }, record world { mem = erase_all arrived store }))
    × Holds (record buffer { pcb = 7 }) (erase_all arrived store) cells
lwip_receive_callback-error_example =
    lwip_receive_callback-error laws quiet 7 buffer world (negsuc 0) cells arrived refl buffer-Holds
      store-Separate.1

reset-empty_example :
    ((reset lwip buffer store).1 ≡ erase_all cells store)
    × Holds (reset lwip buffer store).0 (reset lwip buffer store).1 []
    × ((reset lwip buffer store).0.pcb ≡ null)
reset-empty_example = reset-empty laws buffer store cells buffer-Holds

-- The third segment is linked behind the second, and one byte more can be read.
receive_third :
    Option.map {B = ErrT × ℕ × Option ℕ × Option Pbuf}
      (λ r. (r.0, r.1.head, peek_available r.1 r.2.mem, (r.2.mem.cell 2)))
      (lwip_receive_callback lwip quiet 7 3 ok buffer world)
    ≡ some (ok, 1, some 2, some (node (13 ∷ 14 ∷ []) 3 1))
unfolding lwip_receive_callback peek_available sample
receive_third = refl
