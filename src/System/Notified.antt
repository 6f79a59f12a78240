-- ===== src/System/Notified.antt =====
-- What the calls of lwIP tell the application.
use async_tcp.Common.{
  ℕ, ◌≡◌, refl, ap, inl, inr, none, some, true, arith, Option, List, ◌++◌, ◌==◌, Option-cases,
}
use async_tcp.Lwip.{Ptr, ErrT, ok, World, log, run, workload, Load, error_code, Lwip}
use async_tcp.Lwip.Chains.{Cell, addr, Chain, erase_all, PbufLaws}
use async_tcp.RxBuffer.{RxBuffer}
use async_tcp.RxBuffer.Stream.{Holds, bytes, stream}
use async_tcp.Context.{Context, RxClosure}
use async_tcp.Context.Events.{receive, s_error, s_poll, s_connected, lwip_sent_cb}
use async_tcp.Writer.{on_ack_callback}
use async_tcp.Client.{Client, Closure}
use async_tcp.Client.Callbacks.{closures, on_error_callback, on_poll_callback, on_connect_callback}
use async_tcp.System.{System, receiving, failing, polling, connected, sent, handle}
use async_tcp.System.Valid.{Works}
use async_tcp.System.Told.{told, notice, kind}
use async_tcp.System.Receiving.{taken}
use async_tcp.System.Quiet.{via, after, with_world}

module _ {l : Lwip} (laws : PbufLaws l) where
  -- A delivery with ERR_OK of segments apart from what the buffer holds, to a client whose context
  -- works, returns. The delivered bytes follow those that were unread, and of the bridges only the
  -- one for received data, or for FIN if there are no segments, is handed the buffer and told to run,
  -- once, if it is set; lwIP's TCP is not called.
  pub receiving-told :
      (m : System) (c : Context Closure) (tpcb : Ptr) (ds : List Cell)
      → m.client.ctx ≡ some c
      → (h : Works c m.world) → Chain (erase_all h.cells m.world.mem) ds
      → (m' : System) × (handle l (receiving tpcb ds ok) m ≡ some m')
        × (m'.world.calls ≡ (told (notice m.client (kind ds)) m.world).calls)
        × ((c' : Context Closure) × (b' : RxBuffer RxClosure) × (cs' : List Cell) × (m'.client.ctx
              ≡ some c')
            × (c'.rx ≡ some b')
            × Holds b' m'.world.mem cs'
            × (stream b' cs' ≡ stream h.buffer h.cells ++ bytes ds))
  unfolding handle receive
  receiving-told m c tpcb ds e h apart =
      let (res, b', w', cs', returns, held, listens, follows, calls, _) =
        taken l m.client c e h.wired laws h.buffer h.here m.world tpcb h.cells ds h.holds h.listens
          apart in
      let c' : Context Closure = record c { rx = some b' } in
      (
        record m { client = record m.client { ctx = some c' }; world = w' },
        via
            (λ (o : Option (Context Closure)).
              receive (closures l m.client) l tpcb (addr ds) ok o m.world)
            (after m) m.client.ctx c (res, c', w') e (rw (h.here, returns) refl),
        calls,
        (c', b', cs', refl, refl, held, follows),
      )

-- A bridge that is set is told to run, after it got a payload or without one.
abbrev pub signalled : Option ℕ → World → World
signalled none w = w
signalled (some b) w = log (run b) w

abbrev pub given : Load → Option ℕ → World → World
given x none w = w
given x (some b) w = log (run b) (log (workload b x) w)

-- An acknowledgement that lwIP reports to a client whose context works changes nothing: no bridge is
-- run, the ACK bridge no more than another.
pub sent-unnoticed :
    (l : Lwip) (m : System) (c : Context Closure) (tpcb : Ptr) (len : ℕ)
    → m.client.ctx ≡ some c
    → Works c m.world
    → handle l (sent tpcb len) m ≡ some m
unfolding handle lwip_sent_cb on_ack_callback
sent-unnoticed l m c tpcb len e h =
    let (x, ex) = h.wired.tx in
    via (λ (o : Option (Context Closure)). lwip_sent_cb o tpcb len m.world) (with_world m)
      m.client.ctx c (ok, m.world) e (rw ex refl)

on_error-given :
    (t : Client) (err : ErrT) (w : World)
    → on_error_callback t err w ≡ given (error_code err) t.error_bridge w
unfolding on_error_callback
on_error-given t err w = elim (Option-cases t.error_bridge) [
  | inl e ↦ rw e refl
  | inr (b, e) ↦ rw e refl
]

on_poll-signalled : (t : Client) (w : World) → on_poll_callback t w ≡ signalled t.poll_bridge w
unfolding on_poll_callback
on_poll-signalled t w = elim (Option-cases t.poll_bridge) [
  | inl e ↦ rw e refl
  | inr (b, e) ↦ rw e refl
]

on_connect-signalled :
    (t : Client) (w : World) → on_connect_callback t w ≡ signalled t.connected_bridge w
unfolding on_connect_callback
on_connect-signalled t w = elim (Option-cases t.connected_bridge) [
  | inl e ↦ rw e refl
  | inr (b, e) ↦ rw e refl
]

-- To a client whose context works, the other calls of lwIP return and do no more than this: an error
-- runs the error bridge once, if it is set, with the code as its payload; a poll runs the poll
-- bridge, and a connection the connected bridge, once, if they are set; an acknowledgement does
-- nothing, and the ACK bridge is not run.
pub calls-told :
    (l : Lwip) (m : System) (c : Context Closure)
    → m.client.ctx ≡ some c
    → Works c m.world
    → (err res : ErrT) (tpcb : Ptr) (len : ℕ)
    → let t = m.client in
      (handle l (failing err) m
        ≡ some (record m { world = given (error_code err) t.error_bridge m.world }))
      × (handle l polling m ≡ some (record m { world = signalled t.poll_bridge m.world }))
      × (handle l (connected c.pcb res) m
          ≡ some (record m { world = signalled t.connected_bridge m.world }))
      × (handle l (sent tpcb len) m ≡ some m)
unfolding handle lwip_sent_cb on_ack_callback s_error s_poll s_connected closures
calls-told l m c e h err res tpcb len =
    let k = closures l m.client in
    let self : (c.pcb == c.pcb) ≡ true = ground arith in
    (
      via (λ (o : Option (Context Closure)). s_error k o err m.world)
          (λ (v : World). some (record m { world = v })) m.client.ctx c
          (given (error_code err) m.client.error_bridge m.world) e
          (rw h.wired.error (ap (λ (v : World). some v) (on_error-given m.client err m.world))),
      via (λ (o : Option (Context Closure)). s_poll k o m.world) (with_world m) m.client.ctx c
          (ok, signalled m.client.poll_bridge m.world) e
          (rw h.wired.poll (ap (λ (v : World). some (ok, v)) (on_poll-signalled m.client m.world))),
      via (λ (o : Option (Context Closure)). s_connected k o c.pcb res m.world) (with_world m)
          m.client.ctx c (ok, signalled m.client.connected_bridge m.world) e
          (rw (self, h.wired.connect)
            (ap (λ (v : World). some (ok, v)) (on_connect-signalled m.client m.world))),
      sent-unnoticed l m c tpcb len e h,
    )
