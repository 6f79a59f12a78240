-- ===== src/System/Unread/Single.antt =====
-- What single events on an open client leave unread, and of the memory beside it.
use async_tcp.Common.{
  ℕ, ◌<◌, ◌≡◌, refl, sym, ap, ◌∙◌, inl, inr, true, Option, some, List, [], ◌++◌, append-nil, arith,
  drop, some-injective, size_mod,
}
use async_tcp.Lwip.{Ptr, ErrT, Store, World, Lwip}
use async_tcp.Lwip.Chains.{Cell, addr, Chain, erase_all, PbufLaws}
use async_tcp.Lwip.Separate.{erase_all-append}
use async_tcp.RxBuffer.Stream.{bytes, stream}
use async_tcp.RxBuffer.Window.{peek_consume-Consumed}
use async_tcp.Context.{Context}
use async_tcp.Context.Events.{receive}
use async_tcp.Client.{Closure}
use async_tcp.Client.Callbacks.{closures}
use async_tcp.Client.Connecting.{ts_connect-cases}
use async_tcp.System.{
  System, Event, connecting, stopping, shutting_down, configuring, consuming, writing, sending,
  queuing, setting_no_delay, keeping_alive, receiving, failing, polling, connected, sent,
  networking, handle, Legal,
}
use async_tcp.System.Valid.{in_world, with_rx}
use async_tcp.System.Told.{arriving}
use async_tcp.System.Receiving.{receive-Works}
use async_tcp.System.Quiet.{quiet-Passes, is_quiet, via, after}
use async_tcp.System.Unread.{Carries, StaysOpen, beside, Becomes}

-- Parts of a chain taken out one after the other.
in_parts :
    (cs freed left : List Cell) (s s' : Store)
    → cs ≡ freed ++ left
    → s' ≡ erase_all freed s
    → erase_all left s' ≡ erase_all cs s
in_parts cs freed left s s' split mem = rw (split, mem) (sym (erase_all-append freed left s))

module _ {l : Lwip} (laws : PbufLaws l) where
  consuming-Becomes :
      (n : ℕ) (m : System) {unread : List ℕ}
      → n < size_mod
      → (h : Carries m unread) → Becomes l (consuming n) m h
  unfolding handle
  consuming-Becomes n m {unread} small h =
      let c = h.context in
      let b = h.works.buffer in
      let (r, consumes, done) =
        peek_consume-Consumed laws n b m.world h.works.cells small h.works.holds in
      let t = done.took in
      let c' : Context Closure = record c { rx = some r.0 } in
      let rest : stream r.0 t.left ≡ drop n (unread ++ []) =
        t.rest ∙ ap (drop n) (h.same ∙ sym (append-nil unread)) in
      (
        record m { client = record m.client { ctx = some c' }; world = r.1 },
        rw (h.here, h.works.here, consumes) refl,
        (
          record {
            context = c';
            here = refl;
            works = with_rx c h.works.wired r.0 t.left t.holds (rw t.kept h.works.listens);
            same = rest;
          },
          in_parts h.works.cells t.freed t.left m.world.mem r.1.mem t.split t.mem,
        ),
      )

  receiving-Becomes :
      (tpcb : Ptr) (ds : List Cell) (err : ErrT) (m : System) {unread : List ℕ}
      → Legal (receiving tpcb ds err) m
      → (h : Carries m unread) → Becomes l (receiving tpcb ds err) m h
  unfolding handle
  receiving-Becomes tpcb ds err m {unread} (c1, e1, apart) h =
      let c = h.context in
      let w = h.works in
      let own : c1.rx ≡ c.rx =
        ap (λ (x : Context Closure). x.rx) (some-injective _ _ (sym e1 ∙ h.here)) in
      let (res, c', w', returns, (works, follows, rest, _)) =
        receive-Works l m.client c h.here w.wired laws w.buffer w.here m.world tpcb w.cells ds err
          w.holds w.listens (apart w.buffer w.cells (own ∙ w.here) w.holds) in
      (
        record m { client = record m.client { ctx = some c' }; world = w' },
        via
            (λ (o : Option (Context Closure)).
              receive (closures l m.client) l tpcb (addr ds) err o m.world)
            (after m) m.client.ctx c (res, c', w') h.here returns,
        (
          record {
            context = c';
            here = refl;
            works = works;
            same = follows ∙ ap (λ (xs : List ℕ). xs ++ arriving err ds) h.same;
          },
          rest,
        ),
      )

  -- The same context in another world where its buffer holds the same chain.
  abbrev pub carried :
      (m : System) {unread : List ℕ} (w : World) (h : Carries m unread)
      → Chain w.mem h.works.cells
      → Carries (record m { world = w }) (unread ++ [])
  carried m {unread} w h chain = record {
    context = h.context;
    here = h.here;
    works =
        in_world w h.works
          (record { head = h.works.holds.head; chain = chain; cursor = h.works.holds.cursor });
    same = h.same ∙ sym (append-nil unread);
  }

  -- A client that has a context is refused another one.
  connecting-Becomes :
      (fresh : Ptr) (ip port : ℕ) (m : System) {unread : List ℕ} (h : Carries m unread)
      → Becomes l (connecting fresh ip port) m h
  unfolding handle
  connecting-Becomes fresh ip port m {unread} h =
      elim (ts_connect-cases l fresh ip port m.statics m.client m.world) [
        | inl (c, e, r) ↦ (m, rw r refl, (carried m m.world h h.works.holds.chain, refl))
        | inr (inl (e, _, _)) ↦ absurd (ground (arith, e, h.here))
        | inr (inr (e, _, _)) ↦ absurd (ground (arith, e, h.here))
      ]

  quiet-Becomes :
      (ev : Event) (m : System) {unread : List ℕ}
      → is_quiet ev ≡ true
      → Legal ev m
      → (h : Carries m unread)
      → (m' : System) × (handle l ev m ≡ some m')
        × ((h' : Carries m' (unread ++ [])) × (beside h' ≡ beside h))
  quiet-Becomes ev m quiet legal h =
      let (w', returns, (mem, _)) =
        quiet-Passes l ev m quiet (inr (h.context, h.here, h.works)) legal in
      (
        record m { world = w' },
        returns,
        (carried m w' h (rw mem h.works.holds.chain), ap (erase_all h.works.cells) mem),
      )

  -- Every event but stopping and shutting down.
  pub handle-Becomes :
      (ev : Event) (m : System) {unread : List ℕ}
      → StaysOpen ev
      → Legal ev m
      → (h : Carries m unread) → Becomes l ev m h
  unfolding handle
  handle-Becomes (connecting fresh ip port) m stays legal h = connecting-Becomes fresh ip port m h
  handle-Becomes stopping m (stays, _) legal h = absurd (stays refl)
  handle-Becomes shutting_down m (_, stays) legal h = absurd (stays refl)
  handle-Becomes (configuring set) m {unread} stays legal h = (
    record m { client = set m.client },
    refl,
    (
      record {
        context = h.context;
        here = legal ∙ h.here;
        works = h.works;
        same = h.same ∙ sym (append-nil unread);
      },
      refl,
    ),
  )
  handle-Becomes (consuming n) m stays (small, _) h = consuming-Becomes n m small h
  handle-Becomes (receiving tpcb ds err) m stays legal h = receiving-Becomes tpcb ds err m legal h
  handle-Becomes (networking w) m stays legal h = (
    record m { world = w },
    refl,
    (
      carried m w h
          (legal h.context h.works.buffer h.works.cells h.here h.works.here h.works.holds),
      tt,
    ),
  )
  handle-Becomes (writing bytes) m stays legal h = quiet-Becomes (writing bytes) m refl legal h
  handle-Becomes (sending bytes) m stays legal h = quiet-Becomes (sending bytes) m refl legal h
  handle-Becomes (queuing bytes) m stays legal h = quiet-Becomes (queuing bytes) m refl legal h
  handle-Becomes (setting_no_delay no_delay) m stays legal h =
      quiet-Becomes (setting_no_delay no_delay) m refl legal h
  handle-Becomes (keeping_alive idle_sec intv_sec count) m stays legal h =
      quiet-Becomes (keeping_alive idle_sec intv_sec count) m refl legal h
  handle-Becomes (failing err) m stays legal h = quiet-Becomes (failing err) m refl legal h
  handle-Becomes polling m stays legal h = quiet-Becomes polling m refl legal h
  handle-Becomes (connected pcb err) m stays legal h =
      quiet-Becomes (connected pcb err) m refl legal h
  handle-Becomes (sent tpcb len) m stays legal h = quiet-Becomes (sent tpcb len) m refl legal h
