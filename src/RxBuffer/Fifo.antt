-- ===== src/RxBuffer/Fifo.antt =====
-- A receive buffer over its life: deliveries, reads through `peekBuffer` and `peekConsume`, and what
-- goes on elsewhere in the memory, in any order.
use async_tcp.Common.{
  ℕ, ◌≡◌, refl, sym, ap, ◌∙◌, ◌≤◌, ◌<◌, true, false, Option, none, some, List, [], ◌∷◌, ◌++◌,
  append_assoc, append-nil, arith, take, length, size_mod, take-append, take-append-drop,
  some-injective, ◌==◌,
}
use async_tcp.Lwip.{Ptr, null, ErrT, ok, is_ok, Store, World, Lwip}
use async_tcp.Lwip.Chains.{Cell, addr, Chain, erase_all, PbufLaws}
use async_tcp.RxBuffer.{RxBuffer, on_callback, lwip_receive_callback, peek_buffer, peek_consume}
use async_tcp.RxBuffer.Stream.{
  bytes, Holds, stream, view, behind, peek_available-view, head-ne-null,
}
use async_tcp.RxBuffer.Window.{peek_consume-Consumed}
use async_tcp.RxBuffer.Receive.{
  notified, notified-inv, lwip_receive_callback-append, lwip_receive_callback-error,
  lwip_receive_callback-fin,
}

module _ {K : Type 0} (l : Lwip) (invoke : K → World → Option World) where
  -- Runs from a buffer `b0` in a world `w0`, with the bytes delivered and the bytes read on the way.
  -- What lwIP delivers is apart from what the buffer holds, and nobody else touches that.
  pub data Run (b0 : RxBuffer K) (w0 : World) : List ℕ → List ℕ → RxBuffer K → World → Type 0 where
    start : Run b0 w0 [] [] b0 w0
    deliver :
        {ins outs : List ℕ} {b b' : RxBuffer K} {w w' : World}
        → Run b0 w0 ins outs b w
        → (tpcb : Ptr) (d : Cell) (ds : List Cell) (r : ErrT)
        → ((cs : List Cell) → Holds b w.mem cs → Chain (erase_all cs w.mem) (d ∷ ds))
        → lwip_receive_callback l invoke tpcb d.0 ok b w ≡ some (r, b', w')
        → Run b0 w0 (ins ++ bytes (d ∷ ds)) outs b' w'
    fail :
        {ins outs : List ℕ} {b b' : RxBuffer K} {w w' : World}
        → Run b0 w0 ins outs b w
        → (tpcb : Ptr) (ds : List Cell) (err r : ErrT) → is_ok err ≡ false
        → ((cs : List Cell) → Holds b w.mem cs → Chain (erase_all cs w.mem) ds)
        → lwip_receive_callback l invoke tpcb (addr ds) err b w ≡ some (r, b', w')
        → Run b0 w0 ins outs b' w'
    fin :
        {ins outs : List ℕ} {b b' : RxBuffer K} {w w' : World}
        → Run b0 w0 ins outs b w
        → (tpcb : Ptr) (r : ErrT)
        → lwip_receive_callback l invoke tpcb null ok b w ≡ some (r, b', w')
        → Run b0 w0 ins outs b' w'
    read :
        {ins outs : List ℕ} {b b' : RxBuffer K} {w w' : World}
        → Run b0 w0 ins outs b w
        → (n : ℕ) (shown : List ℕ) → n < size_mod
        → peek_buffer b w.mem ≡ some (some shown)
        → n ≤ length shown
        → peek_consume l n b w ≡ some (b', w')
        → Run b0 w0 ins (outs ++ take n shown) b' w'
    elsewhere :
        {ins outs : List ℕ} {b : RxBuffer K} {w w' : World}
        → Run b0 w0 ins outs b w
        → ((cs : List Cell) → Holds b w.mem cs → Chain w'.mem cs)
        → Run b0 w0 ins outs b w'

joined :
    (before ins held held' new outs : List ℕ)
    → before ++ ins ≡ outs ++ held
    → held' ≡ held ++ new
    → before ++ (ins ++ new) ≡ outs ++ held'
joined before ins held held' new outs e left =
    sym (append_assoc before ins new)
    ∙ ap (λ (xs : List ℕ). xs ++ new) e
    ∙ append_assoc outs held new
    ∙ ap (λ (xs : List ℕ). outs ++ xs) (sym left)

-- What `peekBuffer` points to is the rest of the current segment.
shown-view :
    {K : Type 0} (b : RxBuffer K) (s : Store) (cs : List Cell) (shown : List ℕ)
    → Holds b s cs
    → peek_buffer b s ≡ some (some shown)
    → view b.offset cs ≡ shown
shown-view b s [] shown h seen =
    let none_b : (b.head == null) ≡ true = ground (arith, h.head) in
    let (_, pointer, _) = peek_available-view b s [] h in
    absurd (ground (arith, none_b, pointer, seen))
shown-view b s ((a, bs) ∷ cs) shown h seen =
    let (ne, _) = head-ne-null b s a bs cs h in
    let (_, pointer, _) = peek_available-view b s ((a, bs) ∷ cs) h in
    ground (arith, ne, pointer, seen)

module _ {K : Type 0} {l : Lwip} (laws : PbufLaws l) (invoke : K → World → Option World)
    (quiet : (k : K) (w w' : World) → invoke k w ≡ some w' → w'.mem ≡ w.mem) where
  -- A notification that leaves the memory alone ends with the buffer and the memory it began with.
  notified-quiet :
      (r0 r : ErrT) (b b' : RxBuffer K) (s : Store) (cb : Option K) (w w' : World)
      → notified invoke r0 b s cb w ≡ some (r, b', w')
      → (b' ≡ b) × (w'.mem ≡ s)
  unfolding on_callback
  notified-quiet r0 r b b' s cb w w' e =
      let (eb, called) = notified-inv invoke r0 r b b' s cb w w' e in (eb, kept cb called)
    where
      kept : (cb : Option K) → on_callback invoke cb (record w { mem = s }) ≡ some w' → w'.mem ≡ s
      kept none e = ap (λ (v : World). v.mem) (sym (some-injective _ _ e))
      kept (some k) e = quiet k (record w { mem = s }) w' e

  -- What a step leaves: some chain in the buffer, whose stream is as the step says.
  abbrev Left : RxBuffer K → World → List ℕ → Type 0
  Left b w bytes_left = (cs : List Cell) × Holds b w.mem cs × (stream b cs ≡ bytes_left)

  module _ {b b' : RxBuffer K} (w : World) {w' : World} (cs : List Cell)
      (h : Holds b w.mem cs) where
    delivered :
        (tpcb : Ptr) (d : Cell) (ds : List Cell) (r : ErrT)
        → Chain (erase_all cs w.mem) (d ∷ ds)
        → lwip_receive_callback l invoke tpcb d.0 ok b w ≡ some (r, b', w')
        → Left b' w' (stream b cs ++ bytes (d ∷ ds))
    delivered tpcb d ds r apart e =
        let (b1, s1, run, app) =
          lwip_receive_callback-append laws invoke tpcb b w cs d ds h apart in
        let (eb, em) = notified-quiet ok r b1 b' s1 b.received_cb w w' (sym run ∙ e) in
        (cs ++ d ∷ ds, rw (eb, em) app.holds, rw eb app.stream)

    failed :
        (tpcb : Ptr) (ds : List Cell) (err r : ErrT)
        → is_ok err ≡ false
        → Chain (erase_all cs w.mem) ds
        → lwip_receive_callback l invoke tpcb (addr ds) err b w ≡ some (r, b', w')
        → Left b' w' (stream b cs)
    failed tpcb ds err r bad apart e =
        let (run, held) = lwip_receive_callback-error laws invoke tpcb b w err cs ds bad h apart in
        let same : (r, b', w')
            ≡ (err, record b { pcb = tpcb }, record w { mem = erase_all ds w.mem }) =
          sym (some-injective _ _ (sym run ∙ e)) in
        let eb = ap (λ (q : ErrT × RxBuffer K × World). q.1) same in
        let ew = ap (λ (q : ErrT × RxBuffer K × World). q.2) same in
        (cs, rw (eb, ew) held, rw eb refl)

    finished :
        (tpcb : Ptr) (r : ErrT)
        → lwip_receive_callback l invoke tpcb null ok b w ≡ some (r, b', w')
        → Left b' w' (stream b cs)
    finished tpcb r e =
        let (run, held) = lwip_receive_callback-fin laws invoke tpcb b w cs h in
        let (eb, em) =
          notified-quiet l.err_abrt r (record b { pcb = tpcb }) b' w.mem b.fin_cb w w'
            (sym run ∙ e) in
        (cs, rw (eb, em) held, rw eb refl)

    consumed :
        (n : ℕ) (shown : List ℕ)
        → n < size_mod
        → peek_buffer b w.mem ≡ some (some shown)
        → n ≤ length shown
        → peek_consume l n b w ≡ some (b', w')
        → (cs' : List Cell) × Holds b' w'.mem cs' × (stream b cs ≡ take n shown ++ stream b' cs')
    consumed n shown small seen le e =
        let ((b1, w1), run, done) = peek_consume-Consumed laws n b w cs small h in
        let same : (b', w') ≡ (b1, w1) = sym (some-injective _ _ (sym run ∙ e)) in
        let eb = ap (λ (q : RxBuffer K × World). q.0) same in
        let ew = ap (λ (q : RxBuffer K × World). q.1) same in
        let (_, _, front) = peek_available-view b w.mem cs h in
        let same_shown : view b.offset cs ≡ shown = shown-view b w.mem cs shown h seen in
        let cut : take n (stream b cs) ≡ take n shown =
          rw (front, same_shown) (take-append n shown (bytes (behind cs)) le) in
        (
          done.took.left,
          rw (eb, ew) done.took.holds,
          sym (take-append-drop n (stream b cs)) ∙ rw (cut, eb, done.took.rest) refl,
        )

  -- Over any sequence of deliveries, failed deliveries, FINs, reads and changes elsewhere in the
  -- memory, from a buffer that holds a chain: the bytes read through `peekBuffer` and `peekConsume`,
  -- followed by those still in the buffer, are the bytes that it held at first, followed by those
  -- delivered; none is lost, repeated or out of order. Deliveries are apart from what the buffer
  -- holds, nothing else touches that, reads stay within what `peekBuffer` shows, and callbacks leave
  -- the pbufs alone.
  pub run-stream :
      {b0 : RxBuffer K} {w0 : World} {b : RxBuffer K} {w : World} {ins outs : List ℕ}
      → (cs0 : List Cell) → Holds b0 w0.mem cs0
      → Run l invoke b0 w0 ins outs b w
      → (cs : List Cell) × Holds b w.mem cs × (stream b0 cs0 ++ ins ≡ outs ++ stream b cs)
  run-stream cs0 h start = (cs0, h, append-nil _)
  run-stream {outs} cs0 h (deliver run tpcb d ds r apart e) =
      let (cs, held, eq) = run-stream cs0 h run in
      let (cs', held', left) = delivered _ cs held tpcb d ds r (apart cs held) e in
      (cs', held', joined _ _ _ _ _ outs eq left)
  run-stream cs0 h (fail run tpcb ds err r bad apart e) =
      let (cs, held, eq) = run-stream cs0 h run in
      let (cs', held', left) = failed _ cs held tpcb ds err r bad (apart cs held) e in
      (cs', held', rw left eq)
  run-stream cs0 h (fin run tpcb r e) =
      let (cs, held, eq) = run-stream cs0 h run in
      let (cs', held', left) = finished _ cs held tpcb r e in (cs', held', rw left eq)
  run-stream cs0 h (read run n shown small seen le e) =
      let (cs, held, eq) = run-stream cs0 h run in
      let (cs', held', left) = consumed _ cs held n shown small seen le e in
      (cs', held', rw (append_assoc, ← left) eq)
  run-stream cs0 h (elsewhere run kept) =
      let (cs, held, eq) = run-stream cs0 h run in
      (cs, record { head = held.head; chain = kept cs held; cursor = held.cursor }, eq)
