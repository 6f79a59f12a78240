-- ===== src/RxBuffer/Took.antt =====
-- What `_fastPath` and `_slowPath` come to.
use async_tcp.Common.{
  ℕ, ◌+◌, ◌-◌, ◌<◌, ◌≤◌, ◌≡◌, refl, sym, ap, ◌∙◌, List, [], ◌∷◌, ◌++◌, arith, length, drop,
  drop-drop, drop-nil, drop-append_ge, length-append, length-drop, min,
}
use async_tcp.Lwip.{Ptr, Store, erase}
use async_tcp.Lwip.Chains.{Cell, addr, erase_all}
use async_tcp.RxBuffer.{RxBuffer}
use async_tcp.RxBuffer.Stream.{bytes, Holds, stream}

module _ {K : Type 0} where
  -- `_fastPath` and `_slowPath` end with `consumed` bytes taken off the stream: the segments
  -- `freed` are out of the memory and the buffer holds the ones `left`.
  pub record Took (n : ℕ) (b : RxBuffer K) (s : Store) (cs : List Cell) (r : ℕ × RxBuffer K × Store)
      : Type 0 where
    pub freed : List Cell
    pub left : List Cell
    pub split : cs ≡ freed ++ left
    pub mem : r.2 ≡ erase_all freed s
    pub holds : Holds r.1 r.2 left
    pub count : r.0 ≡ min n (length (stream b cs))
    pub rest : stream r.1 left ≡ drop n (stream b cs)
    pub kept : r.1 ≡ record b { head = r.1.head; offset = r.1.offset }

  pub Took-zero :
      (b : RxBuffer K) (s : Store) (cs : List Cell) → Holds b s cs → Took 0 b s cs (0, b, s)
  Took-zero b s cs h = record {
    freed = [];
    left = cs;
    split = refl;
    mem = refl;
    holds = h;
    count = omega arith;
    rest = refl;
    kept = refl;
  }

  pub Took-end : (n : ℕ) (b : RxBuffer K) (s : Store) → Holds b s [] → Took n b s [] (0, b, s)
  Took-end n b s h = record {
    freed = [];
    left = [];
    split = refl;
    mem = refl;
    holds = h;
    count = rw drop-nil (omega arith);
    rest = rw drop-nil (sym (drop-nil n));
    kept = refl;
  }

  -- A request inside the current segment.
  pub Took-part :
      (n : ℕ) (b : RxBuffer K) (s : Store) (a : Ptr) (bs : List ℕ) (cs : List Cell)
      → Holds b s ((a, bs) ∷ cs)
      → b.offset + n < length bs
      → Took n b s ((a, bs) ∷ cs) (n, record b { offset = b.offset + n }, s)
  Took-part n b s a bs cs h lt = record {
    freed = [];
    left = (a, bs) ∷ cs;
    split = refl;
    mem = refl;
    holds = record { head = h.head; chain = h.chain; cursor = lt };
    count = omega (arith, length-drop b.offset (bs ++ bytes cs), length-append bs (bytes cs));
    rest = sym (drop-drop n b.offset (bs ++ bytes cs));
    kept = refl;
  }

  -- A request for the current segment and `m` bytes more.
  pub Took-segment :
      (n m : ℕ) (b : RxBuffer K) (s : Store) (a : Ptr) (bs : List ℕ) (cs : List Cell)
      (r : ℕ × RxBuffer K × Store)
      → b.offset ≤ length bs
      → n ≡ (length bs - b.offset) + m
      → Took m (record b { head = addr cs; offset = 0 }) (erase a s) cs r
      → Took n b s ((a, bs) ∷ cs) ((length bs - b.offset) + r.0, r.1, r.2)
  Took-segment n m b s a bs cs r off e t = record {
    freed = (a, bs) ∷ t.freed;
    left = t.left;
    split = ap (◌∷◌ (a, bs)) t.split;
    mem = t.mem;
    holds = t.holds;
    count =
        omega (arith, t.count, length-drop b.offset (bs ++ bytes cs), length-append bs (bytes cs));
    rest = t.rest ∙ skip;
    kept = t.kept;
  }
    where
      skip : drop m (bytes cs) ≡ drop n (drop b.offset (bs ++ bytes cs))
      skip = sym (
          drop-drop n b.offset (bs ++ bytes cs)
          ∙ drop-append_ge (b.offset + n) bs (bytes cs) (omega arith)
          ∙ ap (λ (k : ℕ). drop k (bytes cs)) (omega arith))
