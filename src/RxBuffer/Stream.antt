-- ===== src/RxBuffer/Stream.antt =====
-- The bytes that a receive buffer still has to deliver, and what reading shows of them.
use async_tcp.Common.{
  ℕ, ◌<◌, ◌≡◌, refl, ap, false, none, some, List, [], ◌∷◌, ◌++◌, arith, ◌==◌, if◌then◌else◌, length,
  drop, head?, head?-drop, get_elem?-append, drop-append, length-drop,
}
use async_tcp.Lwip.{Ptr, null, Store, erase, Lwip}
use async_tcp.Lwip.Chains.{Cell, addr, node, Chain, PbufLaws, free_first}
use async_tcp.RxBuffer.{RxBuffer, new, peek, peek_available, peek_buffer, free}

abbrev pub bytes : List Cell → List ℕ
bytes [] = []
bytes ((a, bs) ∷ cs) = bs ++ bytes cs

-- The cursor is inside the first segment, and at 0 if there is none.
abbrev pub IsCursor : ℕ → List Cell → Type 0
IsCursor off [] = off ≡ 0
IsCursor off ((a, bs) ∷ cs) = off < length bs

pub record Holds {K : Type 0} (b : RxBuffer K) (s : Store) (cs : List Cell) : Type 0 where
  pub head : b.head ≡ addr cs
  pub chain : Chain s cs
  pub cursor : IsCursor b.offset cs

pub IsCursor-zero : (s : Store) (cs : List Cell) → Chain s cs → IsCursor 0 cs
IsCursor-zero s [] h = refl
IsCursor-zero s (c ∷ cs) (_, _, _, full, _, _) = full

-- The bytes behind a cursor.
abbrev pub from : ℕ → List Cell → List ℕ
from off cs = drop off (bytes cs)

-- The segment under the cursor, from the cursor on.
abbrev pub view : ℕ → List Cell → List ℕ
view off [] = []
view off ((a, bs) ∷ cs) = drop off bs

abbrev pub behind : List Cell → List Cell
behind [] = []
behind (c ∷ cs) = cs

module _ {K : Type 0} where
  -- What is still to be read.
  abbrev pub stream : RxBuffer K → List Cell → List ℕ
  stream b cs = from b.offset cs

  pub stream-empty : (b : RxBuffer K) (s : Store) → Holds b s [] → stream b [] ≡ []
  stream-empty b s h = rw h.cursor refl

  pub head-ne-null :
      (b : RxBuffer K) (s : Store) (a : Ptr) (bs : List ℕ) (cs : List Cell)
      → Holds b s ((a, bs) ∷ cs)
      → ((b.head == null) ≡ false) × (s.cell b.head ≡ some (node bs (addr cs) 1))
  head-ne-null b s a bs cs h =
      let (ne, live, e, _, _, _) = h.chain in (ground (arith, h.head), rw h.head e)

  pub stream-view :
      (b : RxBuffer K) (s : Store) (cs : List Cell)
      → Holds b s cs
      → stream b cs ≡ view b.offset cs ++ bytes (behind cs)
  stream-view b s [] h = rw h.cursor
  stream-view b s ((a, bs) ∷ cs) h = drop-append b.offset bs (bytes cs) (omega (arith, h.cursor))

  -- On a buffer that holds the chain `cs`, `peek` does not fault and is the next byte of the stream,
  -- 0 at its end.
  pub peek-head? :
      (b : RxBuffer K) (s : Store) (cs : List Cell)
      → Holds b s cs
      → peek b s ≡ some (elim (head? (stream b cs)) [ none ↦ 0 | some x ↦ x ])
  unfolding peek
  peek-head? b s [] h = rw (h.head, h.cursor)
  peek-head? b s ((a, bs) ∷ cs) h =
      let (ne, e) = head-ne-null b s a bs cs h in
      let (x, here, there) = get_elem?-append bs (bytes cs) b.offset h.cursor in
      rw (ne, e, head?-drop b.offset (bs ++ bytes cs), there) here

  -- On a buffer that holds the chain `cs`, the pointer of `peekBuffer` shows the rest of the current
  -- segment and `peekAvailable` is its length; the stream goes on with the segments behind it. An
  -- empty buffer gives the null pointer and 0.
  pub peek_available-view :
      (b : RxBuffer K) (s : Store) (cs : List Cell)
      → Holds b s cs
      → (peek_available b s ≡ some (length (view b.offset cs)))
        × (peek_buffer b s ≡ some (if b.head == null then none else some (view b.offset cs)))
        × (stream b cs ≡ view b.offset cs ++ bytes (behind cs))
  unfolding peek_available peek_buffer
  peek_available-view b s [] h = (rw h.head, rw h.head, stream-view b s [] h)
  peek_available-view b s ((a, bs) ∷ cs) h =
      let (ne, e) = head-ne-null b s a bs cs h in
      let (_, _, _, _, short, _) = h.chain in
      (
        rw (ne, e)
            (ap (λ (n : ℕ). some n) (omega (arith, length-drop b.offset bs, h.cursor, short))),
        rw (ne, e),
        stream-view b s ((a, bs) ∷ cs) h,
      )

  -- A buffer that was just made from a chain holds it from its first byte.
  pub new-Holds : (s : Store) (cs : List Cell) → Chain s cs → Holds {K = K} (new (addr cs)) s cs
  unfolding new
  new-Holds s cs h = record { head = refl; chain = h; cursor = IsCursor-zero s cs h }

  module _ {l : Lwip} (laws : PbufLaws l) where
    -- `_free` takes the first segment out of the memory and moves to the next one's start.
    pub free_lem :
        (b : RxBuffer K) (s : Store) (a : Ptr) (bs : List ℕ) (cs : List Cell)
        → b.head ≡ a
        → Chain s ((a, bs) ∷ cs)
        → free l b s ≡ some (record b { head = addr cs; offset = 0 }, erase a s)
    unfolding free
    free_lem b s a bs cs hd ch =
        let (_, _, e, _, _, _) = ch in rw (hd, e) (rw (free_first laws s a bs cs ch))
