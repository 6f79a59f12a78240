-- ===== src/System/Receiving.antt =====
-- Deliveries to a context that works: `lwip_receive_callback` on its buffer, and the bridges.
use async_tcp.Common.{
  append-nil, sym, ℕ, ◌≡◌, refl, ap, ◌∙◌, inl, inr, Option, some, List, [], ◌∷◌, Bool-cases,
  Option-cases, ◌++◌,
}
use async_tcp.Lwip.{Ptr, ErrT, ok, is_ok, World, Store, Lwip}
use async_tcp.Lwip.Chains.{Cell, addr, Chain, erase_all, PbufLaws}
use async_tcp.Lwip.Separate.{erase_all-append, erase_all_comm}
use async_tcp.RxBuffer.{RxBuffer, on_callback}
use async_tcp.RxBuffer
use async_tcp.RxBuffer.Stream.{Holds, bytes, stream}
use async_tcp.RxBuffer.Receive.{
  notified, lwip_receive_callback-append, lwip_receive_callback-error, lwip_receive_callback-fin,
}
use async_tcp.Writer.{on_error}
use async_tcp.System.Traffic.{Untold}
use async_tcp.Context.{Context, RxClosure, calls_fin_cb, calls_receive_cb}
use async_tcp.Context.Events.{receive, rx_closure}
use async_tcp.Client.{Client, Closure}
use async_tcp.Client.Callbacks.{closures, on_fin_callback, on_receive_callback}
use async_tcp.Client.Connecting.{Wired, Listens}
use async_tcp.System.Told.{
  is_ok-ok, told, told-mem, told-calls, told-Untold, notice, kind, arriving,
}
use async_tcp.System.Valid.{Works, with_rx}

module _ (l : Lwip) (t : Client) (c : Context Closure) (e : t.ctx ≡ some c) (h : Wired c) where
  fin-told : (w : World) → on_fin_callback l t w ≡ some (told t.fin_bridge w)
  unfolding on_fin_callback on_error
  fin-told w =
      let (x, ex) = h.tx in
      elim (Option-cases t.fin_bridge) [
        | inl eb ↦ rw (eb, e, ex) refl
        | inr (b, eb) ↦ rw (eb, e, ex) refl
      ]

  receive-told : (w : World) → on_receive_callback t w ≡ some (told t.received_bridge w)
  unfolding on_receive_callback
  receive-told w = elim (Option-cases t.received_bridge) [
    | inl eb ↦ rw eb refl
    | inr (b, eb) ↦ rw (eb, e) refl
  ]

  -- The closures of the receive buffer.
  rx_closure-told :
      (k : RxClosure) (w : World) → rx_closure (closures l t) c k w ≡ some (told (notice t k) w)
  unfolding closures
  rx_closure-told calls_fin_cb w = rw h.fin (fin-told w)
  rx_closure-told calls_receive_cb w = rw h.receive (receive-told w)

  -- A notified delivery returns, with the buffer and the memory that it was notified with.
  returned :
      (res : ErrT) (b : RxBuffer RxClosure) (s : Store) (cb : Option RxClosure) (k : RxClosure)
      (w : World)
      → cb ≡ some k
      → notified (rx_closure (closures l t) c) res b s cb w
        ≡ some (res, b, told (notice t k) (record w { mem = s }))
  unfolding on_callback
  returned res b s cb k w some_cb = rw (some_cb, rx_closure-told k (record w { mem = s })) refl

  -- What `lwip_receive_callback` leaves of a context, with the unread bytes and the memory beside
  -- them.
  abbrev pub Returned : Ptr → Ptr → ErrT → World → List ℕ → Store → Type 0
  Returned tpcb p err w unread rest =
      (res : ErrT) × (c' : Context Closure) × (w' : World) × (receive (closures l t) l tpcb p err
          (some c) w
        ≡ some (res, c', w'))
      × ((h' : Works c' w') × (stream h'.buffer h'.cells ≡ unread)
          × (erase_all h'.cells w'.mem ≡ rest)
          × Untold l w.calls w'.calls)

  module _ (laws : PbufLaws l) (b : RxBuffer RxClosure) (eb : c.rx ≡ some b) (w : World)
      (tpcb : Ptr) where
    -- From a buffer that holds a chain after the delivery.
    left :
        (p : Ptr) (err res : ErrT) (b' : RxBuffer RxClosure) (w' : World) (cs : List Cell)
        → RxBuffer.lwip_receive_callback l (rx_closure (closures l t) c) tpcb p err b w
          ≡ some (res, b', w')
        → Holds b' w'.mem cs
        → Listens b'
        → Untold l w.calls w'.calls
        → Returned tpcb p err w (stream b' cs) (erase_all cs w'.mem)
    unfolding receive
    left p err res b' w' cs returns held listens silent = (
      res,
      record c { rx = some b' },
      w',
      rw (eb, returns) refl,
      (with_rx c h b' cs held listens, refl, refl, silent),
    )

    -- What a delivery without an error leaves: the bytes are in the stream, and the bridge ran.
    abbrev pub Taken : List Cell → List Cell → Type 0
    Taken cs ds =
        (res : ErrT) × (b' : RxBuffer RxClosure) × (w' : World) × (cs' : List Cell)
        × (RxBuffer.lwip_receive_callback l (rx_closure (closures l t) c) tpcb (addr ds) ok b w
            ≡ some (res, b', w'))
        × Holds b' w'.mem cs'
        × Listens b'
        × (stream b' cs' ≡ stream b cs ++ bytes ds)
        × (w'.calls ≡ (told (notice t (kind ds)) w).calls)
        × (erase_all cs' w'.mem ≡ erase_all ds (erase_all cs w.mem))

    pub taken :
        (cs ds : List Cell)
        → Holds b w.mem cs
        → Listens b
        → Chain (erase_all cs w.mem) ds
        → Taken cs ds
    taken cs [] held (received, fin) apart =
        let (gave, held') =
          lwip_receive_callback-fin laws (rx_closure (closures l t) c) tpcb b w cs held in
        let b' : RxBuffer RxClosure = record b { pcb = tpcb } in
        (
          l.err_abrt,
          b',
          told t.fin_bridge (record w { mem = w.mem }),
          cs,
          gave ∙ returned l.err_abrt b' w.mem b.fin_cb calls_fin_cb w fin,
          rw (told-mem t.fin_bridge w) held',
          (received, fin),
          sym (append-nil (stream b cs)),
          told-calls t.fin_bridge w w.mem,
          ap (erase_all cs) (told-mem t.fin_bridge w),
        )
    taken cs (d ∷ ds) held (received, fin) apart =
        let (b', s', gave, app) =
          lwip_receive_callback-append laws (rx_closure (closures l t) c) tpcb b w cs d ds held
            apart in
        (
          ok,
          b',
          told t.received_bridge (record w { mem = s' }),
          cs ++ d ∷ ds,
          gave ∙ returned ok b' s' b.received_cb calls_receive_cb w received,
          rw (told-mem t.received_bridge (record w { mem = s' })) app.holds,
          rw app.kept (received, fin),
          app.stream,
          told-calls t.received_bridge w s',
          ap (erase_all (cs ++ d ∷ ds)) (told-mem t.received_bridge (record w { mem = s' }))
              ∙ erase_all-append cs (d ∷ ds) s'
              ∙ ap (erase_all (d ∷ ds)) app.beside,
        )

    accept :
        (cs ds : List Cell)
        → Holds b w.mem cs
        → Listens b
        → Chain (erase_all cs w.mem) ds
        → Returned tpcb (addr ds) ok w (stream b cs ++ bytes ds) (erase_all ds (erase_all cs w.mem))
    accept cs ds held listens apart =
        let (res, b', w', cs', returns, held', listens', follows, calls, beside) =
          taken cs ds held listens apart in
        rw⁻¹ (follows, beside)
          (left (addr ds) ok res b' w' cs' returns held' listens'
            (rw calls (told-Untold l (notice t (kind ds)) w)))

    pub receive-Works :
        (cs ds : List Cell) (err : ErrT)
        → Holds b w.mem cs
        → Listens b
        → Chain (erase_all cs w.mem) ds
        → Returned tpcb
            (addr ds)
            err
            w
            (stream b cs ++ arriving err ds)
            (erase_all ds (erase_all cs w.mem))
    receive-Works cs ds err held listens apart = elim (Bool-cases (is_ok err)) [
      | inr bad ↦
          let (returns, held') =
            lwip_receive_callback-error laws (rx_closure (closures l t) c) tpcb b w err cs ds bad
              held apart in
          rw (bad, append-nil (stream b cs), ← erase_all_comm cs ds w.mem)
            (left (addr ds) err err _ _ cs returns held' listens (λ q. refl, refl))
      | inl good ↦ rw (is_ok-ok err good) (accept cs ds held listens apart)
    ]
