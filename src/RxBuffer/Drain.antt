-- ===== src/RxBuffer/Drain.antt =====
-- A reader that goes through a receive buffer as include/IoRxBuffer.hpp documents it: it copies what
-- `peekBuffer` shows, as many bytes as `peekAvailable` says, consumes them with `peekConsume`, and
-- stops where `peekAvailable` is 0.
use async_tcp.Common.{
  ℕ, zero, suc, ◌+◌, ◌<◌, ◌≡◌, refl, sym, ap, ◌∙◌, false, Option, none, some, List, [], ◌∷◌, ◌++◌,
  arith, ◌==◌, if◌then◌else◌, ◌>>=◌, length, take, drop, length-append, length-drop, drop-nil,
  take-append, take-append-drop,
}
use async_tcp.Lwip.{Ptr, null, World, Store, erase, Call, Lwip}
use async_tcp.Lwip.Chains.{Cell, PbufLaws, erase_all}
use async_tcp.RxBuffer.{RxBuffer, peek_available, peek_buffer, peek_consume}
use async_tcp.RxBuffer.Stream.{
  bytes, Holds, stream, behind, IsCursor, from, peek_available-view, head-ne-null,
}
use async_tcp.RxBuffer.Ack.{total, after_acks}
use async_tcp.RxBuffer.Took.{Took}
use async_tcp.RxBuffer.Window.{Consumed, peek_consume-Consumed}

abbrev pub or_empty : Option (List ℕ) → List ℕ
or_empty none = []
or_empty (some bs) = bs

-- What is left of a chain is shorter if fewer bytes are behind the cursor.
shorter :
    (freed left : List Cell) (c : Cell) (cs : List Cell) (off : ℕ)
    → c ∷ cs ≡ freed ++ left
    → IsCursor off left
    → length (from off left) ≡ length (bytes cs)
    → length left < suc (length cs)
shorter [] [] c cs off e cursor same = omega arith
shorter [] ((a, bs) ∷ left) c cs off e cursor same =
    let tails : length (bytes cs) ≡ length (bytes left) =
      ap (λ (xs : List Cell). length (bytes (behind xs))) e in
    absurd (
      omega (
        arith,
        tails,
        same,
        cursor,
        length-drop off (bs ++ bytes left),
        length-append bs (bytes left),
      ))
shorter (d ∷ freed) left c cs off e cursor same =
    omega (arith, ap (λ (xs : List Cell). length xs) e, length-append freed left)

module _ {K : Type 0} where
  -- The reader, on fuel: the bytes that it copied, the buffer and the world.
  unfoldable pub drain : Lwip → ℕ → RxBuffer K → World → Option (List ℕ × RxBuffer K × World)
  drain l zero b w = none
  drain l (suc fuel) b w = do
    n ← peek_available b w.mem
    shown ← peek_buffer b w.mem
    if n == 0 then some ([], b, w) else do
      (b', w') ← peek_consume l n b w
      (outs, b'', w'') ← drain l fuel b' w'
      some (take n (or_empty shown) ++ outs, b'', w'')

  -- Everything is read, freed and acknowledged.
  pub record Drained (b : RxBuffer K) (w : World) (cs : List Cell) (r : List ℕ × RxBuffer K × World)
      : Type 0 where
    pub outs : r.0 ≡ stream b cs
    pub empty : Holds r.1 r.2.mem []
    pub mem : r.2.mem ≡ erase_all cs w.mem
    pub acks : List ℕ
    pub calls : r.2.calls ≡ after_acks b.pcb acks w.calls
    pub sum : total acks ≡ (if b.pcb == null then 0 else length (stream b cs))

  -- A request for all of the current segment uses it up.
  used_up :
      (b : RxBuffer K) (w : World) (a : Ptr) (bs : List ℕ) (cs : List Cell)
      (r : ℕ × RxBuffer K × World)
      → Holds b w.mem ((a, bs) ∷ cs)
      → (t : Took (length (drop b.offset bs)) b w.mem ((a, bs) ∷ cs) (r.0, r.1, r.2.mem))
      → length t.left < suc (length cs)
  used_up b w a bs cs r h t =
      shorter t.freed t.left (a, bs) cs r.1.offset t.split t.holds.cursor
        (ap (λ (xs : List ℕ). length xs) t.rest
          ∙ omega (
            arith,
            length-drop (length (drop b.offset bs)) (drop b.offset (bs ++ bytes cs)),
            length-drop b.offset (bs ++ bytes cs),
            length-append bs (bytes cs),
            length-drop b.offset bs,
            h.cursor,
          ))

erase_all-append :
    (xs ys : List Cell) (s : Store) → erase_all (xs ++ ys) s ≡ erase_all ys (erase_all xs s)
erase_all-append [] ys s = refl
erase_all-append ((a, bs) ∷ xs) ys s = erase_all-append xs ys (erase a s)

after_acks-append :
    (p : Ptr) (ms ns : List ℕ) (calls : List Call)
    → after_acks p (ms ++ ns) calls ≡ after_acks p ns (after_acks p ms calls)
after_acks-append p [] ns calls = refl
after_acks-append p (m ∷ ms) ns calls = after_acks-append p ms ns _

total-append : (ms ns : List ℕ) → total (ms ++ ns) ≡ total ms + total ns
total-append [] ns = omega arith
total-append (m ∷ ms) ns = omega (arith, total-append ms ns)

module _ {K : Type 0} (b : RxBuffer K) (w : World) (c : Cell) (cs : List Cell)
    (shown later : List ℕ) (r : RxBuffer K × World) (r' : List ℕ × RxBuffer K × World)
    (front : stream b (c ∷ cs) ≡ shown ++ later) (done : Consumed (length shown) b w (c ∷ cs) r)
    (rest : Drained r.0 r.1 done.took.left r') where
  pcb-kept : r.0.pcb ≡ b.pcb
  pcb-kept = ap (λ (x : RxBuffer K). x.pcb) done.took.kept

  counted :
      length (stream b (c ∷ cs)) ≡ length shown + length later
      → total (done.acks ++ rest.acks) ≡ (if b.pcb == null then 0 else length (stream b (c ∷ cs)))
  counted longer =
      let left : length (stream r.0 done.took.left) ≡ length later =
        ap (λ (xs : List ℕ). length xs) done.took.rest
        ∙ omega (arith, length-drop (length shown) (stream b (c ∷ cs)), longer) in
      ground (arith, total-append done.acks rest.acks, done.sum, rest.sum, pcb-kept, left, longer)

  -- A round and the rounds after it.
  Drained-round : Drained b w (c ∷ cs) (take (length shown) shown ++ r'.0, r'.1, r'.2)
  Drained-round =
      let n : ℕ = length shown in
      let all : List ℕ = stream b (c ∷ cs) in
      let cut : take n shown ≡ take n all =
        sym (take-append n shown later (omega arith)) ∙ ap (take n) (sym front) in
      let longer : length all ≡ n + length later =
        ap (λ (xs : List ℕ). length xs) front ∙ length-append shown later in
      record {
        outs = rw (cut, rest.outs, done.took.rest) (take-append-drop n all);
        empty = rest.empty;
        mem =
            rest.mem
            ∙ ap (erase_all done.took.left) done.took.mem
            ∙ sym (erase_all-append done.took.freed done.took.left w.mem)
            ∙ ap (λ (xs : List Cell). erase_all xs w.mem) (sym done.took.split);
        acks = done.acks ++ rest.acks;
        calls =
            rest.calls
            ∙ rw (pcb-kept, done.calls) (sym (after_acks-append b.pcb done.acks rest.acks w.calls));
        sum = counted longer;
      }

module _ {K : Type 0} {l : Lwip} (laws : PbufLaws l) where
  -- On a buffer that holds the chain `cs`, the reader ends after as many rounds as there are segments
  -- and one. What it copied are the unread bytes, in order; the buffer is empty, every segment is
  -- freed, and each byte is acknowledged once, if there is a control block.
  pub drain-Drained :
      (fuel : ℕ) (b : RxBuffer K) (w : World) (cs : List Cell)
      → length cs < fuel
      → Holds b w.mem cs
      → (r : List ℕ × RxBuffer K × World) × (drain l fuel b w ≡ some r) × Drained b w cs r
  unfolding drain
  drain-Drained zero b w cs enough h = absurd (omega arith)
  drain-Drained (suc fuel) b w [] enough h =
      let (avail, pointer, _) = peek_available-view b w.mem [] h in
      (
        ([], b, w),
        rw (avail, pointer) refl,
        record {
          outs = sym (drop-nil b.offset);
          empty = h;
          mem = refl;
          acks = [];
          calls = refl;
          sum = ground (arith, drop-nil {A = ℕ} b.offset);
        },
      )
  drain-Drained (suc fuel) b w ((a, bs) ∷ cs) enough h =
      let (avail, pointer, front) = peek_available-view b w.mem ((a, bs) ∷ cs) h in
      let (ne, _) = head-ne-null b w.mem a bs cs h in
      let (_, _, _, _, short, _) = h.chain in
      let shown : List ℕ = drop b.offset bs in
      let some_bytes : (length shown == 0) ≡ false =
        ground (arith, length-drop b.offset bs, h.cursor) in
      let (r, run, done) =
        peek_consume-Consumed laws (length shown) b w ((a, bs) ∷ cs)
          (omega (arith, length-drop b.offset bs)) h in
      let (r', run', rest) =
        drain-Drained fuel r.0 r.1 done.took.left
          (omega (arith, used_up b w a bs cs (_, r.0, r.1) h done.took)) done.took.holds in
      (
        (take (length shown) shown ++ r'.0, r'.1, r'.2),
        rw (avail, pointer, ne, some_bytes) (rw (run, run') refl),
        Drained-round b w (a, bs) cs shown (bytes cs) r r' front done rest,
      )
