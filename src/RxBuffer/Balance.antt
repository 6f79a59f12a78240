-- ===== src/RxBuffer/Balance.antt =====
-- The receive window over the life of a buffer: what is acknowledged against what is delivered.
use async_tcp.Common.{
  ℕ, suc, append-nil, ◌+◌, ◌-◌, ◌<◌, ◌≡◌, refl, sym, ap, ◌∙◌, ◌≢◌, false, Option, none, some, List,
  [], ◌∷◌, ◌++◌, arith, ◌==◌, length, length-append, length-drop, min, size_mod, some-injective,
}
use async_tcp.Lwip.{Ptr, null, ErrT, ok, is_ok, Store, World, Call, recved, Lwip}
use async_tcp.Lwip.Chains.{Cell, addr, Chain, erase_all, PbufLaws, erase_all-live}
use async_tcp.Lwip.Separate.{Chain-erase_all}
use async_tcp.RxBuffer.{RxBuffer, on_callback, lwip_receive_callback, peek_consume}
use async_tcp.RxBuffer.Stream.{bytes, Holds, stream}
use async_tcp.RxBuffer.Ack.{total, after_acks}
use async_tcp.RxBuffer.Window.{peek_consume-Consumed}
use async_tcp.RxBuffer.Receive.{
  notified, notified-inv, lwip_receive_callback-append, lwip_receive_callback-error,
  lwip_receive_callback-fin,
}
use async_tcp.RxBuffer.Flow.{acked, Flow, start, deliver, fail, fin, consume, segments, IsSilent}

acked-after_acks :
    (p : Ptr) (ns : List ℕ) (calls : List Call)
    → acked p (after_acks p ns calls) ≡ total ns + acked p calls
acked-after_acks p [] calls = omega arith
acked-after_acks p (n ∷ ns) calls = ground (arith, acked-after_acks p ns (recved p n ∷ calls))

module _ {K : Type 0} {l : Lwip} (laws : PbufLaws l) (invoke : K → World → Option World) (p : Ptr)
    (silent : IsSilent p invoke) where
  -- What is acknowledged and what is unread add up, and so do the live pbufs and the segments.
  abbrev Balanced : ℕ → ℕ → ℕ → RxBuffer K → World → Type 0
  Balanced n k live b w =
      (cs : List Cell) × Holds b w.mem cs
      × (b.pcb ≡ p)
      × (acked p w.calls + length (stream b cs) ≡ n)
      × (w.mem.live + k ≡ live + length cs)

  callback-silent :
      (cb : Option K) (w w' : World)
      → on_callback invoke cb w ≡ some w'
      → (w'.mem ≡ w.mem) × (acked p w'.calls ≡ acked p w.calls)
  unfolding on_callback
  callback-silent none w w' e =
      let same = some-injective _ _ e in
      (ap (λ (v : World). v.mem) (sym same), ap (λ (v : World). acked p v.calls) (sym same))
  callback-silent (some k) w w' e = silent k w w' e

  -- A notified delivery, by what it leaves.
  notified-Balanced :
      (n k live : ℕ) (r0 r : ErrT) (b b' : RxBuffer K) (s : Store) (cb : Option K) (w w' : World)
      (cs : List Cell)
      → notified invoke r0 b s cb w ≡ some (r, b', w')
      → Holds b s cs
      → b.pcb ≡ p
      → acked p w.calls + length (stream b cs) ≡ n
      → s.live + k ≡ live + length cs
      → Balanced n k live b' w'
  notified-Balanced n k live r0 r b b' s cb w w' cs e held own sum segs =
      let (eb, called) = notified-inv invoke r0 r b b' s cb w w' e in
      let (mem, count) = callback-silent cb (record w { mem = s }) w' called in
      (cs, rw (eb, mem) held, rw eb own, rw (eb, count) sum, rw mem segs)

  delivered-Balanced :
      (n k live : ℕ) (b b' : RxBuffer K) (w w' : World) (d : Cell) (ds : List Cell) (r : ErrT)
      → Balanced n k live b w
      → ((cs : List Cell) → Holds b w.mem cs → Chain (erase_all cs w.mem) (d ∷ ds))
      → lwip_receive_callback l invoke p d.0 ok b w ≡ some (r, b', w')
      → Balanced (n + length (bytes (d ∷ ds))) (k + suc (length ds)) live b' w'
  delivered-Balanced n k live b b' w w' d ds r (cs, held, own, sum, segs) apart e =
      let (b1, s1, run, app) =
        lwip_receive_callback-append laws invoke p b w cs d ds held (apart cs held) in
      let more : length (stream b1 (cs ++ d ∷ ds))
          ≡ length (stream b cs) + length (bytes (d ∷ ds)) =
        ap (λ (xs : List ℕ). length xs) app.stream ∙ length-append (stream b cs) (bytes (d ∷ ds)) in
      notified-Balanced _ _ live ok r b1 b' s1 b.received_cb w w' (cs ++ d ∷ ds) (sym run ∙ e)
        app.holds (ap (λ (x : RxBuffer K). x.pcb) app.kept) (omega (arith, more, sum))
        (omega (arith, app.live, segs, length-append cs (d ∷ ds)))

  failed-Balanced :
      (n k live : ℕ) (b b' : RxBuffer K) (w w' : World) (ds : List Cell) (err r : ErrT)
      → is_ok err ≡ false
      → Balanced n k live b w
      → ((cs : List Cell) → Holds b w.mem cs → Chain (erase_all cs w.mem) ds)
      → lwip_receive_callback l invoke p (addr ds) err b w ≡ some (r, b', w')
      → Balanced n (k + length ds) live b' w'
  failed-Balanced n k live b b' w w' ds err r bad (cs, held, own, sum, segs) apart e =
      let (run, kept) =
        lwip_receive_callback-error laws invoke p b w err cs ds bad held (apart cs held) in
      let same = some-injective _ _ (sym e ∙ run) in
      let eb = ap (λ (q : ErrT × RxBuffer K × World). q.1) same in
      let ew = ap (λ (q : ErrT × RxBuffer K × World). q.2) same in
      let chain : Chain w.mem (ds ++ []) =
        rw (append-nil ds) (Chain-erase_all w.mem cs ds (apart cs held)) in
      (
        cs,
        rw (eb, ew) kept,
        rw eb refl,
        rw (eb, ew) sum,
        rw ew (omega (arith, segs, erase_all-live w.mem ds [] chain)),
      )

  finished-Balanced :
      (n k live : ℕ) (b b' : RxBuffer K) (w w' : World) (r : ErrT)
      → Balanced n k live b w
      → lwip_receive_callback l invoke p null ok b w ≡ some (r, b', w')
      → Balanced n k live b' w'
  finished-Balanced n k live b b' w w' r (cs, held, own, sum, segs) e =
      let (gave, kept) = lwip_receive_callback-fin laws invoke p b w cs held in
      notified-Balanced n k live l.err_abrt r (record b { pcb = p }) b' w.mem b.fin_cb w w' cs
        (sym gave ∙ e) kept refl sum segs

  consumed-Balanced :
      (n j live : ℕ) (b b' : RxBuffer K) (w w' : World) (k : ℕ)
      → p ≢ null
      → k < size_mod
      → Balanced n j live b w
      → peek_consume l k b w ≡ some (b', w')
      → Balanced n j live b' w'
  consumed-Balanced n j live b b' w w' k some_p small (cs, held, own, sum, segs) e =
      let (r, run, done) = peek_consume-Consumed laws k b w cs small held in
      let same = some-injective _ _ (sym e ∙ run) in
      let eb = ap (λ (q : RxBuffer K × World). q.0) same in
      let ew = ap (λ (q : RxBuffer K × World). q.1) same in
      let all : ℕ = length (stream b cs) in
      let left : length (stream r.0 done.took.left) ≡ all - k =
        ap (λ (xs : List ℕ). length xs) done.took.rest ∙ length-drop k (stream b cs) in
      let here : (b.pcb == null) ≡ false = ground (arith, own) in
      let given : total done.acks ≡ min k all = done.sum ∙ rw here refl in
      let count : acked p r.1.calls ≡ total done.acks + acked p w.calls =
        ap (acked p) (done.calls ∙ ap (λ (q : Ptr). after_acks q done.acks w.calls) own)
        ∙ acked-after_acks p done.acks w.calls in
      (
        done.took.left,
        rw (eb, ew) done.took.holds,
        rw eb (ap (λ (x : RxBuffer K). x.pcb) done.took.kept ∙ own),
        rw (eb, ew) (omega (arith, left, given, count, sum)),
        rw ew (
            freed-live done.took.freed done.took.left cs w.mem r.1.mem done.took.split done.took.mem
              held.chain segs),
      )
    where
      freed-live :
          (freed left cs : List Cell) (s s' : Store)
          → cs ≡ freed ++ left
          → s' ≡ erase_all freed s
          → Chain s cs
          → s.live + j ≡ live + length cs
          → s'.live + j ≡ live + length left
      freed-live freed left cs s s' split mem chain segs =
          let all : Chain s (freed ++ left) = rw⁻¹ split chain in
          let long : length cs ≡ length freed + length left =
            ap (λ (xs : List Cell). length xs) split ∙ length-append freed left in
          rw mem (omega (arith, segs, long, erase_all-live s freed left all))

  -- Over any sequence of deliveries for one control block, failed deliveries, FINs and calls of
  -- `peekConsume` with less than 2^32 bytes, from a buffer that holds a chain and has that control
  -- block: the bytes acknowledged with `tcp_recved` and the bytes still unread are together those
  -- acknowledged and unread at first and those delivered since. Of the segments held at first and
  -- those delivered since, also with an error, every one that is no longer held is a pbuf less that
  -- is live. Deliveries are apart from what the buffer holds, and callbacks leave the pbufs alone and
  -- acknowledge nothing.
  pub flow-balance :
      {b0 : RxBuffer K} {w0 : World} {b : RxBuffer K} {w : World} {n : ℕ} (cs0 : List Cell)
      → p ≢ null
      → Holds b0 w0.mem cs0
      → b0.pcb ≡ p
      → (run : Flow l invoke p b0 w0 n b w)
      → (cs : List Cell) × Holds b w.mem cs
        × (b.pcb ≡ p)
        × (acked p w.calls + length (stream b cs) ≡ acked p w0.calls + length (stream b0 cs0) + n)
        × (w.mem.live + (length cs0 + segments l invoke p run) ≡ w0.mem.live + length cs)
  flow-balance cs0 some_p h own start = (cs0, h, own, omega arith, omega arith)
  flow-balance cs0 some_p h own (deliver run d ds r apart e) =
      let (cs, held, own', sum, segs) =
        delivered-Balanced _ _ _ _ _ _ _ d ds r (flow-balance cs0 some_p h own run) apart e in
      (cs, held, own', omega (arith, sum), omega (arith, segs))
  flow-balance cs0 some_p h own (fail run ds err r bad apart e) =
      let (cs, held, own', sum, segs) =
        failed-Balanced _ _ _ _ _ _ _ ds err r bad (flow-balance cs0 some_p h own run) apart e in
      (cs, held, own', sum, omega (arith, segs))
  flow-balance cs0 some_p h own (fin run r e) =
      finished-Balanced _ _ _ _ _ _ _ r (flow-balance cs0 some_p h own run) e
  flow-balance cs0 some_p h own (consume run k small e) =
      consumed-Balanced _ _ _ _ _ _ _ k some_p small (flow-balance cs0 some_p h own run) e
