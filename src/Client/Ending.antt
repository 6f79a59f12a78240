-- ===== src/Client/Ending.antt =====
-- What `stop` and `shutdown` leave of a client.
use async_tcp.Common.{
  ℕ, ◌≡◌, refl, ◌∙◌, ◌≢◌, inl, inr, true, false, none, some, List, [], arith, ◌==◌, Bool-cases,
  Option-cases, if◌then◌else◌,
}
use async_tcp.Lwip.{Ptr, null, ErrT, is_ok, closed, World, Lwip}
use async_tcp.Lwip.Chains.{Cell, erase_all, PbufLaws}
use async_tcp.Lwip.Registered.{registration, withdrawn}
use async_tcp.RxBuffer.{RxBuffer}
use async_tcp.RxBuffer.Stream.{Holds}
use async_tcp.RxBuffer.Receive.{reset-empty}
use async_tcp.Context.{Context, RxClosure}
use async_tcp.Context.Options
use async_tcp.Context.Lifecycle
use async_tcp.Context.Lifecycle.{close}
use async_tcp.Context.Lifecycle.Closing.{answer, close-Closed, close-pcb, destroy-calls}
use async_tcp.Client.{Client, Statics, Closure}
use async_tcp.Client.Connection.{ts_connect, ts_status, stop, shutdown}

module _ (l : Lwip) where
  -- After `stop` the client says that it is closed, and yet it refuses to connect, with
  -- PICO_ERROR_RESOURCE_IN_USE and no effect, as it did before: the context stays.
  pub connect-stop :
      (fresh : Ptr) (ip port : ℕ) (s : Statics) (t : Client) (w : World) (c : Context Closure)
      → t.ctx ≡ some c
      → let (_, t', w') = stop l t w in
        (ts_status t' w' ≡ closed)
        × (ts_connect l fresh ip port s t' w' ≡ (l.pico_error_resource_in_use, s, t', w'))
        × (ts_connect l fresh ip port s t w ≡ (l.pico_error_resource_in_use, s, t, w))
  unfolding stop ts_status ts_connect Options.state
  connect-stop fresh ip port s t w c e =
      let gone : ((close l c w).1.pcb == null) ≡ true = ground (arith, close-pcb l c w) in
      (rw e (rw gone refl), rw e refl, rw e refl)

pub shutdown-ctx : (l : Lwip) (t : Client) (w : World) → (shutdown l t w).1.ctx ≡ none
unfolding shutdown stop
shutdown-ctx l t w = elim (Option-cases t.ctx) [ inl e ↦ rw e refl | inr (c, e) ↦ rw e refl ]

-- The destructor of a context frees what its buffer holds.
pub destroy-mem :
    {l : Lwip}
    → PbufLaws l
    → (c : Context Closure) (w : World) (b : RxBuffer RxClosure) (cs : List Cell) → c.rx ≡ some b
    → Holds b w.mem cs
    → (Lifecycle.destroy l c w).mem ≡ erase_all cs w.mem
unfolding Lifecycle.destroy
destroy-mem laws c w b cs e h = let (mem, _, _) = reset-empty laws b w.mem cs h in rw e mem

reported :
    (err abrt : ErrT) → is_ok abrt ≡ false → is_ok (if is_ok err then err else abrt) ≡ is_ok err
reported err abrt bad = elim (Bool-cases (is_ok err)) [
  | inl good ↦ rw good good
  | inr refused ↦ rw refused bad
]

module _ {l : Lwip} (laws : PbufLaws l) where
  -- On a client whose context has a control block and a buffer that holds the chain `cs`, where
  -- ERR_ABRT is not ERR_OK, `shutdown` returns whether `tcp_close` succeeded. Either way no callback
  -- of the control block is left, the chain is freed, and the client has no context and is closed.
  pub shutdown-withdrawn :
      (t : Client) (w : World) (c : Context Closure) (b : RxBuffer RxClosure) (cs : List Cell)
      → is_ok l.err_abrt ≡ false
      → t.ctx ≡ some c
      → c.pcb ≢ null
      → c.rx ≡ some b
      → Holds b w.mem cs
      → let r = shutdown l t w in
        (r.0 ≡ is_ok (answer laws c w))
        × (r.1 ≡ record t { ctx = none })
        × (r.2.mem ≡ erase_all cs w.mem)
        × (registration c.pcb r.2.calls ≡ withdrawn)
        × (ts_status r.1 r.2 ≡ closed)
  unfolding shutdown stop ts_status
  shutdown-withdrawn t w c b cs abrt e some_pcb here h =
      let done = close-Closed laws c w b cs some_pcb here h in
      let (b', here', empty) = done.rx in
      let r = close l c w in
      let mem : (Lifecycle.destroy l r.1 r.2).mem ≡ erase_all cs w.mem =
        destroy-mem laws r.1 r.2 b' [] here' empty ∙ done.mem in
      let silent : registration c.pcb (Lifecycle.destroy l r.1 r.2).calls ≡ withdrawn =
        rw (destroy-calls l r.1 r.2) done.silent in
      let verdict : is_ok r.0 ≡ is_ok (answer laws c w) =
        rw done.result (reported (answer laws c w) l.err_abrt abrt) in
      rw e (verdict, refl, mem, silent, refl)
