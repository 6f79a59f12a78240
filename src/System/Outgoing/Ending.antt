-- ===== src/System/Outgoing/Ending.antt =====
-- Connecting, stopping and consuming have no data sent.
use async_tcp.Common.{
  ◌+◌, arith, ℕ, ◌≡◌, refl, inl, inr, List, [], ◌∷◌, ◌==◌, Bool-cases, Option-cases, ltb,
}
use async_tcp.Lwip.{Ptr, null, is_ok, World, Call, log, new_pcb, recved, Lwip}
use async_tcp.RxBuffer.Ack.{after_acks, total}
use async_tcp.Lwip.Credit.{credited}
use async_tcp.System.Traffic.{Untold}
use async_tcp.Writer.Queued.{queued}
use async_tcp.Context.{Context}
use async_tcp.Context.Lifecycle.{new_context, unregister, close, reset_rx}
use async_tcp.Context.Lifecycle.Closing.{destroy-calls}
use async_tcp.Client.{Client, Statics, Closure}
use async_tcp.Client.Connection.{start, opened, stop, shutdown, ts_connect}
use async_tcp.Client.Connecting.{ts_connect-cases, start-calls}

module _ (l : Lwip) where
  reset_rx-calls : (c : Context Closure) (w : World) → (reset_rx l c w).1.calls ≡ w.calls
  reset_rx-calls c w = elim (Option-cases c.rx) [ inl e ↦ rw e refl | inr (b, e) ↦ rw e refl ]

  close-Untold : (c : Context Closure) (w : World) → Untold l w.calls (close l c w).2.calls
  unfolding close
  close-Untold c w =
      let (c', w') = reset_rx l c w in
      elim (Bool-cases (c.pcb == null)) [
        | inl gone ↦ rw gone (λ q. refl, refl)
        | inr here ↦ elim (Bool-cases (is_ok (l.tcp_close (unregister c.pcb w').calls c.pcb))) [
          | inl good ↦ rw (here, good) (rw (reset_rx-calls c w) (λ q. refl, refl))
          | inr bad ↦ rw (here, bad) (rw (reset_rx-calls c w) (λ q. refl, refl))
        ]
      ]

  opened-Untold :
      (fresh pcb : Ptr) (s : Statics) (t : Client) (w : World)
      → Untold l w.calls (opened fresh pcb s t w).1.calls
  unfolding opened new_context
  opened-Untold fresh pcb s t w = elim (Bool-cases (ltb 0 s.local_port)) [
    | inl port ↦ rw port (λ q. refl, refl)
    | inr no_port ↦ rw no_port (λ q. refl, refl)
  ]

  start-Untold :
      (fresh pcb ip port : ℕ) (s : Statics) (t : Client) (w : World)
      → Untold l w.calls (start l fresh pcb ip port s t w).3.calls
  start-Untold fresh pcb ip port s t w =
      rw (start-calls l fresh pcb ip port s t w) (opened-Untold fresh pcb s t w)

  pub ts_connect-Untold :
      (fresh : Ptr) (ip port : ℕ) (s : Statics) (t : Client) (w : World)
      → Untold l w.calls (ts_connect l fresh ip port s t w).3.calls
  ts_connect-Untold fresh ip port s t w = elim (ts_connect-cases l fresh ip port s t w) [
    | inl (c, e, r) ↦ rw r (λ q. refl, refl)
    | inr (inl (e, n, r)) ↦ rw r (λ q. refl, refl)
    | inr (inr (e, n, r)) ↦
        rw r
          (start-Untold fresh (l.tcp_new w.calls) ip port s t (log (new_pcb (l.tcp_new w.calls)) w))
  ]

  pub stop-Untold : (t : Client) (w : World) → Untold l w.calls (stop l t w).2.calls
  unfolding stop
  stop-Untold t w = elim (Option-cases t.ctx) [
    | inl e ↦ rw e (λ q. refl, refl)
    | inr (c, e) ↦ rw e (close-Untold c w)
  ]

  pub shutdown-Untold : (t : Client) (w : World) → Untold l w.calls (shutdown l t w).2.calls
  unfolding shutdown stop
  shutdown-Untold t w = elim (Option-cases t.ctx) [
    | inl e ↦ rw e (λ q. refl, refl)
    | inr (c, e) ↦ rw e (rw (destroy-calls l (close l c w).1 (close l c w).2) (close-Untold c w))
  ]

  pub after_acks-queued :
      (q p : Ptr) (ns : List ℕ) (calls : List Call)
      → queued l q (after_acks p ns calls) ≡ queued l q calls
  after_acks-queued q p [] calls = refl
  after_acks-queued q p (n ∷ ns) calls = after_acks-queued q p ns (recved p n ∷ calls)

  pub after_acks-credited :
      (p : Ptr) (ns : List ℕ) (calls : List Call)
      → credited (after_acks p ns calls) ≡ total ns + credited calls
  after_acks-credited p [] calls = omega arith
  after_acks-credited p (n ∷ ns) calls =
      omega (arith, after_acks-credited p ns (recved p n ∷ calls))
