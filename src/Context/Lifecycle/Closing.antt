-- ===== src/Context/Lifecycle/Closing.antt =====
-- What a context registers with lwIP, and what it leaves behind when it is closed or destroyed.
use async_tcp.Common.{
  ◌≡◌, refl, ap, ◌≢◌, true, false, none, some, List, [], ◌∷◌, arith, ◌==◌, if◌then◌else◌,
  Bool-cases, Option-cases, inl, inr,
}
use async_tcp.Lwip.{
  Ptr, null, ErrT, ok, is_ok, World, Call, close as close_call, abort as abort_call, Lwip,
}
use async_tcp.Lwip.Chains.{Cell, erase_all, PbufLaws}
use async_tcp.Lwip.Registered.{registration, registered, withdrawn}
use async_tcp.RxBuffer.{RxBuffer, reset}
use async_tcp.RxBuffer.Stream.{Holds}
use async_tcp.RxBuffer.Receive.{reset-empty}
use async_tcp.Writer.{Writer, available_for_write}
use async_tcp.Context.{Context, RxClosure}
use async_tcp.Context.Lifecycle.{new_context, unregister, abort, close, destroy}

module _ {K : Type 0} where
  -- A new context is registered for every event of its control block, and its receive buffer holds
  -- nothing.
  pub new_context-registered :
      (self pcb : Ptr) (w : World)
      → let r = new_context {K = K} self pcb w in
        (registration pcb r.1.calls ≡ registered self)
        × (r.1.mem ≡ w.mem)
        × ((b : RxBuffer RxClosure) × (r.0.rx ≡ some b) × Holds b w.mem [])
        × ((t : Writer K) × (r.0.tx ≡ some t) × (t.pcb ≡ pcb) × (t.ack_cb ≡ none))
  unfolding new_context
  new_context-registered self pcb w = (
    ground arith,
    refl,
    (_, refl, record { head = refl; chain = tt; cursor = refl }),
    (_, refl, refl, refl),
  )

  module _ {l : Lwip} (laws : PbufLaws l) where
    -- lwIP's answer to `tcp_close`, after the callbacks are withdrawn.
    abbrev pub answer : Context K → World → ErrT
    answer c w = l.tcp_close (unregister c.pcb w).calls c.pcb

    pub record Closed (c : Context K) (w : World) (cs : List Cell) (r : ErrT × Context K × World)
        : Type 0 where
      pub pcb : r.1.pcb ≡ null
      pub mem : r.2.mem ≡ erase_all cs w.mem
      pub rx : (b : RxBuffer RxClosure) × (r.1.rx ≡ some b) × Holds b r.2.mem []
      pub silent : registration c.pcb r.2.calls ≡ withdrawn
      pub result : r.0 ≡ (if is_ok (answer c w) then answer c w else l.err_abrt)
      pub calls : r.2.calls ≡ (
          if is_ok (answer c w)
          then close_call c.pcb ∷ (unregister c.pcb w).calls
          else abort_call c.pcb ∷ close_call c.pcb ∷ (unregister c.pcb w).calls)

    -- On a context with a control block whose buffer holds the chain `cs`, `close` withdraws every
    -- callback, frees the chain, gives the control block to `tcp_close` and, if that fails, to
    -- `tcp_abort`, and forgets it. The result is ERR_ABRT in that case and ERR_OK otherwise.
    pub close-Closed :
        (c : Context K) (w : World) (b : RxBuffer RxClosure) (cs : List Cell)
        → c.pcb ≢ null
        → c.rx ≡ some b
        → Holds b w.mem cs
        → Closed c w cs (close l c w)
    unfolding close
    close-Closed c w b cs some_pcb e h =
        let here : (c.pcb == null) ≡ false = ground arith in
        let (mem, empty, _) = reset-empty laws b w.mem cs h in
        elim (Bool-cases (is_ok (answer c w))) [
          | inl good ↦
              rw (here, e)
                (rw good (record {
                  pcb = refl;
                  mem = mem;
                  rx = ((reset l b w.mem).0, refl, empty);
                  silent = ground arith;
                  result = rw good;
                  calls = rw good;
                }))
          | inr bad ↦
              rw (here, e)
                (rw bad (record {
                  pcb = refl;
                  mem = mem;
                  rx = ((reset l b w.mem).0, refl, empty);
                  silent = ground arith;
                  result = rw bad;
                  calls = rw bad;
                }))
        ]

    -- On a context with a control block whose buffer holds the chain `cs`, `abort` withdraws every
    -- callback, frees the chain, aborts the control block, forgets it and returns ERR_ABRT.
    pub abort-withdrawn :
        (c : Context K) (w : World) (b : RxBuffer RxClosure) (cs : List Cell)
        → c.pcb ≢ null
        → c.rx ≡ some b
        → Holds b w.mem cs
        → let r = abort l c w in
          (r.0 ≡ l.err_abrt)
          × (r.1.pcb ≡ null)
          × (r.2.mem ≡ erase_all cs w.mem)
          × (registration c.pcb r.2.calls ≡ withdrawn)
          × (r.2.calls ≡ abort_call c.pcb ∷ (unregister c.pcb w).calls)
    unfolding abort
    abort-withdrawn c w b cs some_pcb e h =
        let here : (c.pcb == null) ≡ false = ground arith in
        let (mem, _, _) = reset-empty laws b w.mem cs h in
        rw (here, e) (refl, refl, mem, ground arith, refl)

  module _ (l : Lwip) where
    pub close-pcb : (c : Context K) (w : World) → (close l c w).1.pcb ≡ null
    unfolding close
    close-pcb c w = ground arith

    -- A second `close`, directly after a first one, reports success and changes nothing.
    pub close-close :
        (c : Context K) (w : World) → let (_, c', w') = close l c w in close l c' w' ≡ (ok, c', w')
    unfolding close
    close-close c w =
        let gone : ((close l c w).1.pcb == null) ≡ true = ground (arith, close-pcb c w) in rw gone

    -- If the writer of a context has the context's control block, then after `close` the context has
    -- none, but the writer is unchanged and goes on asking lwIP for the send buffer of the one that
    -- was given up.
    pub close-stale_writer :
        (c : Context K) (w : World) (t : Writer K)
        → c.pcb ≢ null
        → c.tx ≡ some t
        → t.pcb ≡ c.pcb
        → let r = close l c w in
          (r.1.pcb ≡ null)
          × (r.1.tx ≡ some t)
          × ((calls : List Call) → available_for_write l t calls ≡ l.tcp_sndbuf calls c.pcb)
    unfolding close available_for_write
    close-stale_writer c w t some_pcb e same =
        let here : (t.pcb == null) ≡ false = ground arith in
        (ground arith, ground arith, λ calls. rw here (ap (l.tcp_sndbuf calls) same))

    pub destroy-calls : (c : Context K) (w : World) → (destroy l c w).calls ≡ w.calls
    unfolding destroy
    destroy-calls c w = elim (Option-cases c.rx) [ inl e ↦ rw e | inr (b, e) ↦ rw e ]

    -- Destroying a context that is registered with its control block makes no call of lwIP's TCP: the
    -- control block keeps every callback, with the destroyed object as their argument.
    pub destroy-registered :
        (c : Context K) (w : World)
        → registration c.pcb w.calls ≡ registered c.self
        → ((destroy l c w).calls ≡ w.calls)
          × (registration c.pcb (destroy l c w).calls ≡ registered c.self)
    destroy-registered c w h = (destroy-calls c w, rw (destroy-calls c w) h)
