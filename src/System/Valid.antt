-- ===== src/System/Valid.antt =====
-- The invariant of the client, and what closing, calling back and consuming do to it.
use async_tcp.Common.{
  sym, ap, ◌∙◌, some-injective, ◌≡◌, refl, ◌⊎◌, inl, inr, false, none, some, List, [], arith, ◌==◌,
  Bool-cases,
}
use async_tcp.Lwip.{Ptr, null, World, Store, Lwip}
use async_tcp.Lwip.Chains.{Cell, PbufLaws}
use async_tcp.RxBuffer.{RxBuffer, reset}
use async_tcp.RxBuffer.Stream.{Holds, stream, stream-empty}
use async_tcp.Context.{Context, RxClosure}
use async_tcp.Context.Lifecycle.{close}
use async_tcp.Context.Lifecycle.Closing.{close-Closed}
use async_tcp.Client.{Closure}
use async_tcp.Client.Connecting.{Wired, Listens}
use async_tcp.System.{System}

-- A context that works: every part is there, and its buffer holds a chain.
pub record Works (c : Context Closure) (w : World) : Type 0 where
  pub wired : Wired c
  pub buffer : RxBuffer RxClosure
  pub here : c.rx ≡ some buffer
  pub cells : List Cell
  pub holds : Holds buffer w.mem cells
  pub listens : Listens buffer

reset-Listens :
    (l : Lwip) (b : RxBuffer RxClosure) (s : Store) → Listens b → Listens (reset l b s).0
unfolding reset
reset-Listens l b s h = elim (Bool-cases (b.head == null)) [
  | inl gone ↦ rw gone h
  | inr some_head ↦ rw some_head h
]

-- The client has no context, or one that works.
abbrev pub IsValid : System → Type 0
IsValid m =
    (m.client.ctx ≡ none) ⊎ ((c : Context Closure) × (m.client.ctx ≡ some c) × Works c m.world)

pub valid-Works :
    (m : System) → IsValid m → (c : Context Closure) → m.client.ctx ≡ some c → Works c m.world
valid-Works m (inl n) c e = absurd (ground (arith, n, e))
valid-Works m (inr (c', e', h)) c e = rw (some-injective _ _ (sym e ∙ e')) h

-- Another buffer and another control block in a wired context.
pub with_buffer-Wired :
    (c : Context Closure) (b : RxBuffer RxClosure) (p : Ptr)
    → Wired c
    → Wired (record c { rx = some b; pcb = p })
with_buffer-Wired c b p h = record {
  rx = (b, refl);
  tx = h.tx;
  fin = h.fin;
  receive = h.receive;
  connect = h.connect;
  error = h.error;
  poll = h.poll;
}

-- A context that works, in another world where its buffer holds the same chain, or with another
-- buffer.
abbrev pub in_world :
    {c : Context Closure} {w : World} (w' : World) (h : Works c w)
    → Holds h.buffer w'.mem h.cells
    → Works c w'
in_world w' h held = record {
  wired = h.wired;
  buffer = h.buffer;
  here = h.here;
  cells = h.cells;
  holds = held;
  listens = h.listens;
}

abbrev pub with_rx :
    {w : World} (c : Context Closure)
    → Wired c
    → (b : RxBuffer RxClosure) (cs : List Cell) → Holds b w.mem cs
    → Listens b
    → Works (record c { rx = some b }) w
with_rx c wired b cs held listens = record {
  wired = with_buffer-Wired c b c.pcb wired;
  buffer = b;
  here = refl;
  cells = cs;
  holds = held;
  listens = listens;
}

-- One whose buffer is empty.
abbrev pub with_empty :
    {c : Context Closure} {w : World}
    → Wired c
    → (b : RxBuffer RxClosure) → c.rx ≡ some b
    → Holds b w.mem []
    → Listens b
    → Works c w
with_empty wired b here held listens = record {
  wired = wired;
  buffer = b;
  here = here;
  cells = [];
  holds = held;
  listens = listens;
}

close-context :
    (l : Lwip) (c : Context Closure) (w : World) (b : RxBuffer RxClosure)
    → (c.pcb == null) ≡ false
    → c.rx ≡ some b
    → (close l c w).1 ≡ record c { rx = some (reset l b w.mem).0; pcb = null }
unfolding close
close-context l c w b some_pcb e = rw (some_pcb, e) (ground arith)

module _ {l : Lwip} (laws : PbufLaws l) where
  -- Closing a control block leaves a context that works, with an empty buffer.
  pub close-empty :
      (c : Context Closure) (w : World)
      → (c.pcb == null) ≡ false
      → Works c w
      → (h' : Works (close l c w).1 (close l c w).2) × (h'.cells ≡ [])
        × (stream h'.buffer h'.cells ≡ [])
  close-empty c w some_pcb h =
      let done = close-Closed laws c w h.buffer h.cells (ground arith) h.here h.holds in
      let (b, e, held) = done.rx in
      let made = close-context l c w h.buffer some_pcb h.here in
      let b' : RxBuffer RxClosure = (reset l h.buffer w.mem).0 in
      let here : (close l c w).1.rx ≡ some b' = ap (λ (x : Context Closure). x.rx) made in
      let same : b' ≡ b = some-injective _ _ (sym here ∙ e) in
      let held' : Holds b' (close l c w).2.mem [] = rw same held in
      (
        with_empty (rw made (with_buffer-Wired c b' null h.wired)) b' here held'
            (reset-Listens l h.buffer w.mem h.listens),
        refl,
        stream-empty b' (close l c w).2.mem held',
      )

  pub close-Works :
      (c : Context Closure) (w : World) → Works c w → Works (close l c w).1 (close l c w).2
  unfolding close
  close-Works c w h = elim (Bool-cases (c.pcb == null)) [
    | inl gone ↦ rw gone h
    | inr some_pcb ↦ (close-empty c w some_pcb h).0
  ]
