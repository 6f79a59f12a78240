-- ===== src/RxBuffer.antt =====
-- src/IoRxBuffer.cpp and include/IoRxBuffer.hpp: the receive buffer over a chain of pbufs.
-- `K` is the type of the closures that a callback can hold; an unset callback is `none`.
pub mod Stream
pub mod Ack
pub mod Took
pub mod Consume
pub mod Window
pub mod Fifo
pub mod Drain
pub mod Class
pub mod Flow
pub mod Balance
pub mod Receive
use async_tcp.Common.{
  ℕ, zero, suc, ◌+◌, ◌%◌, ◌<◌, Bool, Option, none, some, List, [], ◌∷◌, ◌==◌, ltb, leb,
  if◌then◌else◌, not, ◌||◌, ◌&&◌, ◌>>=◌, get_elem?, drop, length, add_size, sub_size, min, is_some,
}
use async_tcp.Lwip.{Ptr, null, ErrT, ok, is_ok, Store, World, log, Call, recved, Lwip}

pub record RxBuffer (K : Type 0) : Type 0 where
  pub pcb : Ptr
  pub head : Ptr
  pub offset : ℕ
  pub received_cb : Option K
  pub fin_cb : Option K

-- `size` is a placeholder in the source.
pub size : ℕ
size = 0

-- The loop of `_toAck`, on fuel.
unfoldable pub ack_loop : ℕ → ℕ → Ptr → World → Option World
ack_loop zero to_ack pcb w = if to_ack == 0 then some w else none
ack_loop (suc fuel) to_ack pcb w =
    let chunk = min to_ack 65535 % 65536 in
    let rest = ack_loop fuel (sub_size to_ack chunk) pcb (log (recved pcb chunk) w) in
    if to_ack == 0 then some w else rest

module _ {K : Type 0} where
  unfoldable pub new : Ptr → RxBuffer K
  new chain = record { pcb = null; head = chain; offset = 0; received_cb = none; fin_cb = none }

  unfoldable pub set_on_fin_callback : K → RxBuffer K → RxBuffer K
  set_on_fin_callback cb b = record b { fin_cb = some cb }

  unfoldable pub set_on_received_callback : K → RxBuffer K → RxBuffer K
  set_on_received_callback cb b = record b { received_cb = some cb }

  -- Reading: `none` is a read through a dangling pointer or past a segment's end.
  pub peek : RxBuffer K → Store → Option ℕ
  peek b s =
      if b.head == null then some 0 else do old ← s.cell b.head; get_elem? old.payload b.offset

  unfoldable pub peek_available : RxBuffer K → Store → Option ℕ
  peek_available b s =
      if b.head == null
      then some 0
      else do old ← s.cell b.head; some (sub_size (length old.payload) b.offset)

  -- The bytes from the returned pointer to the segment's end; the outer `none` is a fault, the
  -- inner one the null pointer.
  unfoldable pub peek_buffer : RxBuffer K → Store → Option (Option (List ℕ))
  peek_buffer b s =
      if b.head == null
      then some none
      else do old ← s.cell b.head; some (some (drop b.offset old.payload))

  unfoldable pub to_ack : ℕ → RxBuffer K → World → Option World
  to_ack consumed b w = ack_loop consumed consumed b.pcb w

  -- `_onReceivedCallback` and `_onFinCallback`: an unset callback is skipped.
  unfoldable pub on_callback : (K → World → Option World) → Option K → World → Option World
  on_callback invoke none w = some w
  on_callback invoke (some k) w = invoke k w

  module _ (l : Lwip) where
    unfoldable pub free : RxBuffer K → Store → Option (RxBuffer K × Store)
    free b s = do
      old ← s.cell b.head
      let next = old.next
      let s' = if next == null then s else l.pbuf_ref next s
      some (record b { head = next; offset = 0 }, l.pbuf_free b.head s')

    unfoldable pub fast_path : ℕ → RxBuffer K → Store → Option (ℕ × RxBuffer K × Store)
    fast_path remaining b s = do
      let b' = record b { offset = add_size b.offset remaining }
      old ← s.cell b'.head
      if b'.offset == length old.payload
          then (do (b'', s') ← free b' s; some (remaining, b'', s'))
          else some (remaining, b', s)

    -- The loop of `_slowPath`, on fuel.
    unfoldable pub slow_loop : ℕ → ℕ → ℕ → RxBuffer K → Store → Option (ℕ × RxBuffer K × Store)
    slow_loop zero remaining consumed b s = none
    slow_loop (suc fuel) remaining consumed b s =
        if ltb 0 remaining && not (b.head == null)
        then (do
          old ← s.cell b.head
          let available = sub_size (length old.payload) b.offset
          if ltb remaining available
              then some (
                add_size consumed remaining,
                record b { offset = add_size b.offset remaining },
                s,
              )
              else (do
                (b', s') ← free b s
                slow_loop fuel (sub_size remaining available) (add_size consumed available) b' s'))
        else some (consumed, b, s)

    -- Each round but the last frees a pbuf.
    unfoldable pub slow_path : ℕ → RxBuffer K → Store → Option (ℕ × RxBuffer K × Store)
    slow_path remaining b s = slow_loop (suc s.live) remaining 0 b s

    unfoldable pub peek_consume : ℕ → RxBuffer K → World → Option (RxBuffer K × World)
    peek_consume n b w = if n == 0 || b.head == null then some (b, w) else do
      old ← w.mem.cell b.head
      let available = sub_size (length old.payload) b.offset
      (consumed, b', s) ← if leb n available then fast_path n b w.mem else slow_path n b w.mem
      let w' = record w { mem = s }
      if not (b'.pcb == null) && ltb 0 consumed
          then (do w'' ← to_ack consumed b' w'; some (b', w''))
          else some (b', w')

    unfoldable pub reset : RxBuffer K → Store → RxBuffer K × Store
    reset b s =
        if b.head == null
        then (b, s)
        else (record b { head = null; offset = 0; pcb = null }, l.pbuf_free b.head s)

    -- The destructor.
    pub destroy : RxBuffer K → Store → Store
    unfolding reset
    destroy b s = (reset b s).1

    -- `lwip_receive_callback` on the buffer of the context `arg`, up to the notification: the result,
    -- the buffer, the memory and the callback that is notified.
    unfoldable pub received :
        Ptr → Ptr → ErrT → RxBuffer K → Store → ErrT × RxBuffer K × Store × Option K
    received tpcb p err b s =
        let b' = record b { pcb = tpcb } in
        if not (is_ok err)
        then (err, b', (if p == null then s else l.pbuf_free p s), none)
        else if p == null
        then (l.err_abrt, b', s, b'.fin_cb)
        else if not (b'.head == null)
        then (ok, b', l.pbuf_cat b'.head p s, b'.received_cb)
        else (ok, record b' { head = p; offset = 0 }, s, b'.received_cb)

    -- The whole of `lwip_receive_callback`; `invoke` runs a closure.
    unfoldable pub lwip_receive_callback :
        (K → World → Option World)
        → Ptr
        → Ptr
        → ErrT
        → RxBuffer K
        → World
        → Option (ErrT × RxBuffer K × World)
    unfolding on_callback received
    lwip_receive_callback invoke tpcb p err b w = do
      let (result, b', s, cb) = received tpcb p err b w.mem
      w' ← on_callback invoke cb (record w { mem = s })
      some (result, b', w')
