-- ===== src/Client/Memory.antt =====
-- src/TcpClient.cpp: what connecting, stopping and shutting down do to the memory of pbufs.
use async_tcp.Common.{ℕ, ◌≡◌, ◌∙◌, ◌≢◌, inl, inr, false, some, List, [], arith, ◌==◌, Bool-cases}
use async_tcp.Lwip.{null, is_ok, World, Lwip}
use async_tcp.Lwip.Chains.{Cell, erase_all, PbufLaws}
use async_tcp.RxBuffer.{RxBuffer}
use async_tcp.RxBuffer.Stream.{Holds}
use async_tcp.Context.{Context, RxClosure}
use async_tcp.Context.Options
use async_tcp.Context.Lifecycle.{close}
use async_tcp.Context.Lifecycle.Closing.{close-Closed}
use async_tcp.Client.{Client, Statics, Closure}
use async_tcp.Client.Connection.{start, shutdown, stop}
use async_tcp.Client.Connecting.{
  attempt, after, verdict, opened-Opened, start-refused, start-accepted,
}
use async_tcp.Client.Ending.{destroy-mem}

module _ {l : Lwip} (laws : PbufLaws l) where
  -- An attempt to connect, accepted or not, leaves the pbufs as they are.
  pub start-mem :
      (fresh pcb ip port : ℕ) (s : Statics) (t : Client) (w : World)
      → pcb ≢ null
      → (start l fresh pcb ip port s t w).3.mem ≡ w.mem
  unfolding Options.set_no_delay
  start-mem fresh pcb ip port s t w some_pcb =
      let o = opened-Opened fresh pcb s t w in
      let (b, here, held, _) = o.empty in
      let c : Context Closure = (attempt l fresh pcb ip port s t w).0 in
      elim (Bool-cases (is_ok (verdict l fresh pcb ip port s t w))) [
        | inr bad ↦
            rw (start-refused l fresh pcb ip port s t w bad)
              (destroy-mem laws c (after l fresh pcb ip port s t w) b [] here held ∙ o.mem)
        | inl good ↦
            let some_c : (c.pcb == null) ≡ false = ground (arith, o.pcb_lem) in
            rw (start-accepted l fresh pcb ip port s t w good some_c) (rw some_c o.mem)
      ]

  -- `shutdown` frees what the buffer holds, also after `stop`.
  pub shutdown-mem :
      (t : Client) (w : World) (c : Context Closure) (b : RxBuffer RxClosure) (cs : List Cell)
      → t.ctx ≡ some c
      → c.rx ≡ some b
      → Holds b w.mem cs
      → (shutdown l t w).2.mem ≡ erase_all cs w.mem
  unfolding shutdown stop close
  shutdown-mem t w c b cs e here h = elim (Bool-cases (c.pcb == null)) [
    | inl gone ↦ rw e (rw gone (destroy-mem laws c w b cs here h))
    | inr some_pcb ↦
        let done = close-Closed laws c w b cs (ground arith) here h in
        let (b', here', empty) = done.rx in
        rw e (destroy-mem laws (close l c w).1 (close l c w).2 b' [] here' empty ∙ done.mem)
  ]
