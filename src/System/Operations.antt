-- ===== src/System/Operations.antt =====
-- Connecting, stopping and consuming on a client in a valid state.
use async_tcp.Common.{
  ℕ, ◌≡◌, refl, ap, ◌≢◌, inl, inr, true, some, Bool-cases, Option-cases, ◌<◌, size_mod,
}
use async_tcp.Lwip.{Ptr, null, ok, is_ok, World, log, new_pcb, Lwip}
use async_tcp.Lwip.Registered.{registration, registered}
use async_tcp.Lwip.Chains.{PbufLaws}
use async_tcp.RxBuffer.Window.{peek_consume-Consumed}
use async_tcp.Context.{Context}
use async_tcp.Client.{Client, Statics, Closure}
use async_tcp.Client.Connection.{ts_connect, start, stop}
use async_tcp.Client.Connecting.{ts_connect-cases, start-leak, start-Wired, verdict}
use async_tcp.System.{System, Event, consuming, handle}
use async_tcp.System.Valid.{Works, IsValid, valid-Works, in_world, with_rx, with_empty, close-Works}

-- An event returns, and what it leaves is valid again.
abbrev pub IsHandled : Lwip → Event → System → Type 0
IsHandled l ev m = (m' : System) × (handle l ev m ≡ some m') × IsValid m'

-- An attempt that lwIP accepts gives a context that works and is registered with its control block.
pub start-Works :
    (l : Lwip) (fresh pcb ip port : ℕ) (s : Statics) (t : Client) (w : World)
    → pcb ≢ null
    → is_ok (verdict l fresh pcb ip port s t w) ≡ true
    → let r = start l fresh pcb ip port s t w in
      (c : Context Closure) × (r.0 ≡ ok)
      × (r.2.ctx ≡ some c)
      × Works c r.3
      × (c.pcb ≡ pcb)
      × (registration pcb r.3.calls ≡ registered fresh)
start-Works l fresh pcb ip port s t w some_pcb good =
    let (c, res, made, wired, (_, own), (b, here, held, listens), reg, _) =
      start-Wired l fresh pcb ip port s t w some_pcb good in
    (c, res, ap (λ (u : Client). u.ctx) made, with_empty wired b here held listens, own, reg)

module _ {l : Lwip} (laws : PbufLaws l) where
  pub ts_connect-IsValid :
      (fresh : Ptr) (ip port : ℕ) (s : Statics) (t : Client) (w : World)
      → IsValid (record { statics = s; client = t; world = w })
      → let r = ts_connect l fresh ip port s t w in
        IsValid (record { statics = r.1; client = r.2; world = r.3 })
  ts_connect-IsValid fresh ip port s t w v = elim (ts_connect-cases l fresh ip port s t w) [
    | inl (c, e, r) ↦ rw r v
    | inr (inl (e, n, r)) ↦ rw r (inl e)
    | inr (inr (e, n, r)) ↦
        rw r (started (l.tcp_new w.calls) n (log (new_pcb (l.tcp_new w.calls)) w))
  ]
    where
      started :
          (pcb : Ptr)
          → pcb ≢ null
          → (w1 : World)
          → let r = start l fresh pcb ip port s t w1 in
            IsValid (record { statics = r.1; client = r.2; world = r.3 })
      started pcb some_pcb w1 = elim (Bool-cases (is_ok (verdict l fresh pcb ip port s t w1))) [
        | inr bad ↦ let (_, gone, _, _) = start-leak l fresh pcb ip port s t w1 bad in inl gone
        | inl good ↦
            let (c, _, made, works, _, _) = start-Works l fresh pcb ip port s t w1 some_pcb good in
            inr (c, made, works)
      ]

  pub stop-IsValid :
      (m : System)
      → IsValid m
      → let r = stop l m.client m.world in
        IsValid (record { statics = m.statics; client = r.1; world = r.2 })
  unfolding stop
  stop-IsValid m v = elim (Option-cases m.client.ctx) [
    | inl e ↦ rw e (inl refl)
    | inr (c, e) ↦ rw e (inr (_, refl, close-Works laws c m.world (valid-Works m v c e)))
  ]

  pub consume-IsHandled :
      (n : ℕ) (m : System) (c : Context Closure)
      → n < size_mod
      → m.client.ctx ≡ some c
      → Works c m.world
      → IsHandled l (consuming n) m
  unfolding handle
  consume-IsHandled n m c small e h =
      let (r, consumes, done) =
        peek_consume-Consumed laws n h.buffer m.world h.cells small h.holds in
      (
        record m {
          client = record m.client { ctx = some (record c { rx = some r.0 }) };
          world = r.1;
        },
        rw (e, h.here, consumes) refl,
        inr (
          record c { rx = some r.0 },
          refl,
          with_rx c h.wired r.0 done.took.left done.took.holds (rw done.took.kept h.listens),
        ),
      )

  -- A call that leaves the pbufs alone.
  pub quiet-IsValid :
      (m : System) (w : World) → IsValid m → w.mem ≡ m.world.mem → IsValid (record m { world = w })
  quiet-IsValid m w (inl e) same = inl e
  quiet-IsValid m w (inr (c, e, h)) same = inr (c, e, in_world w h (rw same h.holds))
