-- ===== src/Client/Connecting.antt =====
-- What `_ts_connect` (src/TcpClient.cpp) comes to, by the answers of lwIP.
use async_tcp.Common.{
  ℕ, ◌≡◌, refl, ap, ◌≢◌, ◌⊎◌, Bool, true, false, inl, inr, none, some, [], ◌∷◌, arith, ◌==◌,
  Bool-cases, Option-cases, ◌∙◌,
}
use async_tcp.Lwip.{Ptr, null, ErrT, ok, is_ok, World, log, new_pcb, connect, Lwip}
use async_tcp.Lwip.Registered.{registration, registered}
use async_tcp.RxBuffer.{RxBuffer}
use async_tcp.RxBuffer.Stream.{Holds}
use async_tcp.Writer.{Writer}
use async_tcp.Context.{Context, RxClosure, calls_fin_cb, calls_receive_cb}
use async_tcp.Context.Lifecycle
use async_tcp.Context.Options
use async_tcp.Context.Lifecycle.{new_context}
use async_tcp.Context.Lifecycle.Closing.{destroy-calls}
use async_tcp.Client.{Client, Statics, Closure, on_connect, on_error, on_fin, on_receive, on_poll}
use async_tcp.Client.Connection.{ts_connect, start, opened, take_port, set_no_delay}

-- A context with its buffer, its writer and every closure that is called unchecked.
pub record Wired (c : Context Closure) : Type 0 where
  pub rx : (b : RxBuffer RxClosure) × (c.rx ≡ some b)
  pub tx : (x : Writer Closure) × (c.tx ≡ some x)
  pub fin : c.fin_cb ≡ some on_fin
  pub receive : c.receive_cb ≡ some on_receive
  pub connect : c.connect_cb ≡ some on_connect
  pub error : c.error_cb ≡ some on_error
  pub poll : c.poll_cb ≡ some on_poll

-- The three ways through `_ts_connect`: a context exists and nothing is changed; lwIP has no control
-- block to give and PICO_ERROR_IO is returned; or an attempt is made with the one that it gives.
pub ts_connect-cases :
    (l : Lwip) (fresh : Ptr) (ip port : ℕ) (s : Statics) (t : Client) (w : World)
    → let pcb = l.tcp_new w.calls in
      let w' = log (new_pcb pcb) w in
      let r = ts_connect l fresh ip port s t w in
      ((c : Context Closure) × (t.ctx ≡ some c) × (r ≡ (l.pico_error_resource_in_use, s, t, w)))
      ⊎ ((t.ctx ≡ none) × (pcb ≡ null) × (r ≡ (l.pico_error_io, s, t, w')))
      ⊎ ((t.ctx ≡ none) × (pcb ≢ null) × (r ≡ start l fresh pcb ip port s t w'))
unfolding ts_connect
ts_connect-cases l fresh ip port s t w = elim (Option-cases t.ctx) [
  | inr (c, e) ↦ inl (c, e, ground arith)
  | inl e ↦ elim (Bool-cases (l.tcp_new w.calls == null)) [
    | inl gone ↦ inr (inl (e, ground arith, ground arith))
    | inr here ↦ inr (inr (e, ground arith, ground arith))
  ]
]

-- The closures through which a receive buffer notifies its context.
abbrev pub Listens : RxBuffer RxClosure → Type 0
Listens b = (b.received_cb ≡ some calls_receive_cb) × (b.fin_cb ≡ some calls_fin_cb)

-- The context that an attempt is made with.
pub record Opened (fresh pcb : Ptr) (w : World) (r : Context Closure × World) : Type 0 where
  pub wired : Wired r.0
  pub self : r.0.self ≡ fresh
  pub pcb_lem : r.0.pcb ≡ pcb
  pub empty : (b : RxBuffer RxClosure) × (r.0.rx ≡ some b) × Holds b r.1.mem [] × Listens b
  pub mem : r.1.mem ≡ w.mem
  pub registers : registration pcb r.1.calls ≡ registered fresh

pub opened-Opened :
    (fresh pcb : Ptr) (s : Statics) (t : Client) (w : World)
    → Opened fresh pcb w (opened fresh pcb s t w)
unfolding opened
opened-Opened fresh pcb s t w = record {
  wired = record {
    rx = (_, refl);
    tx = (_, refl);
    fin = refl;
    receive = refl;
    connect = refl;
    error = refl;
    poll = refl;
  };
  self = refl;
  pcb_lem = refl;
  empty = (_, refl, record { head = refl; chain = tt; cursor = refl }, (refl, refl));
  mem = ground arith;
  registers = ground arith;
}

connect-calls :
    (l : Lwip) (ip port : ℕ) (c : Context Closure) (w : World)
    → (Lifecycle.connect l ip port c w).1.calls ≡ connect c.pcb ip port ∷ w.calls
unfolding Lifecycle.connect
connect-calls l ip port c w = ground arith

pub set_no_delay-calls : (b : Bool) (t : Client) (w : World) → (set_no_delay b t w).calls ≡ w.calls
unfolding set_no_delay Options.set_no_delay
set_no_delay-calls b t w = elim (Option-cases t.ctx) [
  | inl e ↦ rw e refl
  | inr (c, e) ↦ elim (Bool-cases (c.pcb == null)) [
    | inl n ↦ rw (e, n) refl
    | inr n ↦ rw (e, n) refl
  ]
]

module _ (l : Lwip) (fresh pcb ip port : ℕ) (s : Statics) (t : Client) (w : World) where
  -- The context and the world at the call of `tcp_connect`, and lwIP's answer.
  abbrev pub attempt : Context Closure × World
  attempt = opened fresh pcb s t w

  abbrev pub verdict : ErrT
  verdict = l.tcp_connect attempt.1.calls attempt.0.pcb ip port

  -- The world after it.
  abbrev pub after : World
  after = log (connect attempt.0.pcb ip port) attempt.1

  -- Whatever lwIP answers, `tcp_connect` is the last call of an attempt.
  pub start-calls :
      (start l fresh pcb ip port s t w).3.calls ≡ connect attempt.0.pcb ip port ∷ attempt.1.calls
  unfolding start
  start-calls =
      let (c, w1) = attempt in
      let called = connect-calls l ip port c w1 in
      elim (Bool-cases (is_ok (Lifecycle.connect l ip port c w1).0)) [
        | inr bad ↦ rw bad (destroy-calls l c (Lifecycle.connect l ip port c w1).1 ∙ called)
        | inl good ↦ rw good (
            set_no_delay-calls (take_port pcb s w).0.default_no_delay (record t { ctx = some c })
              (Lifecycle.connect l ip port c w1).1
            ∙ called)
      ]

  pub start-refused :
      is_ok verdict ≡ false
      → start l fresh pcb ip port s t w ≡ (
        verdict,
        (take_port pcb s w).0,
        record t { ctx = none },
        Lifecycle.destroy l attempt.0 after,
      )
  unfolding start Lifecycle.connect
  start-refused bad = rw bad (rw bad)

  pub start-accepted :
      is_ok verdict ≡ true
      → (attempt.0.pcb == null) ≡ false
      → let t' = record t { ctx = some attempt.0 } in
        let s' = (take_port pcb s w).0 in
        start l fresh pcb ip port s t w
        ≡ (ok, s', t', Options.set_no_delay s'.default_no_delay attempt.0 after)
  unfolding start Lifecycle.connect
  start-accepted good here = rw (good, here)

  -- If lwIP refuses the connection of an attempt, its error is returned and the context is deleted,
  -- but the control block is neither closed nor aborted: lwIP keeps it, with the deleted context as
  -- the argument of every callback.
  pub start-leak :
      is_ok verdict ≡ false
      → let r = start l fresh pcb ip port s t w in
        (r.0 ≡ verdict)
        × (r.2.ctx ≡ none)
        × (r.3.calls ≡ connect pcb ip port ∷ attempt.1.calls)
        × (registration pcb r.3.calls ≡ registered fresh)
  start-leak bad =
      let o = opened-Opened fresh pcb s t w in
      let made : (Lifecycle.destroy l attempt.0 after).calls
          ≡ connect pcb ip port ∷ attempt.1.calls =
        destroy-calls l attempt.0 after
        ∙ ap (λ (p : Ptr). connect p ip port ∷ attempt.1.calls) o.pcb_lem in
      rw (start-refused bad) (refl, refl, made, rw made o.registers)

  pub start-Wired :
      pcb ≢ null
      → is_ok verdict ≡ true
      → let r = start l fresh pcb ip port s t w in
        (c : Context Closure) × (r.0 ≡ ok)
        × (r.2 ≡ record t { ctx = some c })
        × Wired c
        × ((c.self ≡ fresh) × (c.pcb ≡ pcb))
        × ((b : RxBuffer RxClosure) × (c.rx ≡ some b) × Holds b r.3.mem [] × Listens b)
        × (registration pcb r.3.calls ≡ registered fresh)
        × ((r.3.pcbs pcb).nodelay ≡ s.default_no_delay)
  unfolding Options.set_no_delay
  start-Wired some_pcb good =
      let o = opened-Opened fresh pcb s t w in
      let here : (attempt.0.pcb == null) ≡ false = ground (arith, o.pcb_lem) in
      let default : (take_port pcb s w).0.default_no_delay ≡ s.default_no_delay = ground arith in
      rw (start-accepted good here) (
        rw here (
          attempt.0,
          refl,
          refl,
          o.wired,
          (o.self, o.pcb_lem),
          o.empty,
          o.registers,
          ground (arith, o.pcb_lem, default),
        ))
