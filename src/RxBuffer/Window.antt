-- ===== src/RxBuffer/Window.antt =====
-- `peekConsume` as a whole: the bytes taken, the pbufs freed, and the receive window updates.
use async_tcp.Common.{
  ℕ, zero, suc, ◌+◌, ◌-◌, ◌/◌, ◌<◌, ◌≡◌, refl, ap, ◌⊎◌, true, false, inl, inr, Option, some, List,
  [], ◌∷◌, arith, ◌==◌, ltb, leb, if◌then◌else◌, length, sub_size, size_mod, ◌>>=◌, min, Bool-cases,
  not, ◌&&◌, ◌||◌, All,
}
use async_tcp.Lwip.{Ptr, null, Store, World, Lwip}
use async_tcp.Lwip.Chains.{Cell, PbufLaws}
use async_tcp.RxBuffer.{RxBuffer, to_ack, peek_consume}
use async_tcp.RxBuffer.Stream.{Holds, stream, head-ne-null}
use async_tcp.RxBuffer.Ack.{
  total, after_acks, IsChunk, chunks, chunks-total, chunks-IsChunk, length-chunks, to_ack-chunks,
}
use async_tcp.RxBuffer.Took.{Took, Took-zero, Took-end}
use async_tcp.RxBuffer.Consume.{slow_path-Took, fast_path-slow_path}

module _ {K : Type 0} where
  -- The outcome of `peekConsume n`: `acks` are the arguments of the calls of `tcp_recved`.
  pub record Consumed (n : ℕ) (b : RxBuffer K) (w : World) (cs : List Cell) (r : RxBuffer K × World)
      : Type 0 where
    pub took : Took n b w.mem cs (min n (length (stream b cs)), r.0, r.1.mem)
    pub acks : List ℕ
    pub pcbs : r.1.pcbs ≡ w.pcbs
    pub calls : r.1.calls ≡ after_acks b.pcb acks w.calls
    pub chunked : All IsChunk acks
    pub sum : total acks ≡ (if b.pcb == null then 0 else min n (length (stream b cs)))
    pub fewest : length acks ≡ (total acks + 65534) / 65535

  counted :
      {n : ℕ} {b b' : RxBuffer K} {s s' : Store} {cs : List Cell} {k : ℕ}
      → Took n b s cs (k, b', s')
      → Took n b s cs (min n (length (stream b cs)), b', s')
  counted t = record {
    freed = t.freed;
    left = t.left;
    split = t.split;
    mem = t.mem;
    holds = t.holds;
    count = refl;
    rest = t.rest;
    kept = t.kept;
  }

  -- Nothing to acknowledge: no control block, or nothing taken.
  silent :
      (n : ℕ) (b : RxBuffer K) (w : World) (cs : List Cell) (k : ℕ) (b' : RxBuffer K) (s : Store)
      → Took n b w.mem cs (k, b', s)
      → (b.pcb ≡ null) ⊎ (k ≡ 0)
      → Consumed n b w cs (b', record w { mem = s })
  silent n b w cs k b' s t why = record {
    took = counted t;
    acks = [];
    pcbs = refl;
    calls = refl;
    chunked = tt;
    sum = ground (arith, t.count, why);
    fewest = omega arith;
  }

  -- The tail of `peekConsume`, after the bytes are taken.
  pub acknowledge : Lwip → ℕ × RxBuffer K × Store → World → Option (RxBuffer K × World)
  acknowledge l (k, b', s) w =
      let w' = record w { mem = s } in
      if not (b'.pcb == null) && ltb 0 k
      then (to_ack k b' w' >>= λ w''. some (b', w''))
      else some (b', w')

  acknowledge-Consumed :
      (l : Lwip) (n : ℕ) (b : RxBuffer K) (w : World) (cs : List Cell) (k : ℕ) (b' : RxBuffer K)
      (s : Store)
      → n < size_mod
      → Took n b w.mem cs (k, b', s)
      → (r : RxBuffer K × World) × (acknowledge l (k, b', s) w ≡ some r) × Consumed n b w cs r
  unfolding acknowledge
  acknowledge-Consumed l n b w cs k b' s small t =
      let pcb : b'.pcb ≡ b.pcb = ap (λ (x : RxBuffer K). x.pcb) t.kept in
      elim (Bool-cases (not (b'.pcb == null) && ltb 0 k)) [
        | inr quiet ↦
            ((b', record w { mem = s }), rw quiet, silent n b w cs k b' s t (ground arith))
        | inl loud ↦
            let w' : World = record w { mem = s } in
            (
              (b', record w' { calls = after_acks b'.pcb (chunks k k) w.calls }),
              rw loud (rw (to_ack-chunks k b' w' (omega (arith, t.count)))),
              record {
                took = counted t;
                acks = chunks k k;
                pcbs = refl;
                calls = ap (λ (p : Ptr). after_acks p (chunks k k) w.calls) pcb;
                chunked = chunks-IsChunk k k;
                sum = ground (arith, chunks-total k k, t.count);
                fewest = omega (arith, chunks-total k k, length-chunks k k);
              },
            )
      ]

  module _ {l : Lwip} (laws : PbufLaws l) where
    -- On a buffer that holds the chain `cs`, `peekConsume n` with n < 2^32 does not fault, its loops
    -- end, and it takes the next `n` bytes off the stream, or all there are. The segments that are
    -- used up are out of the memory, the others stay as they are, and `tcp_recved` is called, if
    -- there is a control block, for exactly the bytes taken, by as few 16-bit chunks as hold them.
    pub peek_consume-Consumed :
        (n : ℕ) (b : RxBuffer K) (w : World) (cs : List Cell)
        → n < size_mod
        → Holds b w.mem cs
        → (r : RxBuffer K × World) × (peek_consume l n b w ≡ some r) × Consumed n b w cs r
    unfolding peek_consume acknowledge
    peek_consume-Consumed n b w [] small h =
        let stop : (n == 0 || b.head == null) ≡ true = ground (arith, h.head) in
        ((b, w), rw stop, silent n b w [] 0 b w.mem (Took-end n b w.mem h) (inr refl))
    peek_consume-Consumed zero b w (c ∷ cs) small h =
        ((b, w), refl, silent 0 b w (c ∷ cs) 0 b w.mem (Took-zero b w.mem (c ∷ cs) h) (inr refl))
    peek_consume-Consumed (suc n) b w ((a, bs) ∷ cs) small h =
        let (ne, e) = head-ne-null b w.mem a bs cs h in
        let go : (suc n == 0 || b.head == null) ≡ false = ground arith in
        let (_, _, _, _, short, _) = h.chain in
        let fits : sub_size (length bs) b.offset ≡ length bs - b.offset = omega (arith, h.cursor) in
        let (t, run, took) = slow_path-Took laws (suc n) b w.mem ((a, bs) ∷ cs) small h in
        let (r, ack, done) =
          acknowledge-Consumed l (suc n) b w ((a, bs) ∷ cs) t.0 t.1 t.2 small took in
        elim (Bool-cases (leb (suc n) (length bs - b.offset))) [
          | inl near ↦
              let same =
                fast_path-slow_path laws (suc n) b w.mem a bs cs h (omega arith)
                  (ground (arith, h.cursor)) in
              (r, rw (go, e) (rw (fits, near) (rw (same, run) ack)), done)
          | inr far ↦ (r, rw (go, e) (rw (fits, far) (rw run ack)), done)
        ]
