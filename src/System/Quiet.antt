-- ===== src/System/Quiet.antt =====
-- The events that change nothing but the world, and leave the pbufs alone.
use async_tcp.Common.{
  List, arith, Bool, true, false, ◌≡◌, refl, ap, ◌∙◌, inl, inr, Option, none, some, ◌>>=◌,
}
use async_tcp.Lwip.{Call, ErrT, ok, World, Lwip}
use async_tcp.Context.{Context}
use async_tcp.Context.Events.{s_error, s_poll, s_connected, lwip_sent_cb}
use async_tcp.Client.{Closure}
use async_tcp.Client.Callbacks.{closures}
use async_tcp.Client.Connecting.{Wired, set_no_delay-calls}
use async_tcp.System.{
  System, Event, connecting, stopping, shutting_down, configuring, consuming, writing, sending,
  queuing, setting_no_delay, keeping_alive, receiving, failing, polling, connected, sent,
  networking, handle, Legal,
}
use async_tcp.System.Valid.{Works, IsValid, valid-Works}
use async_tcp.Writer.Queued.{queued}
use async_tcp.Writer.Returns.{write_data-Returns}
use async_tcp.System.Writing.{
  given_bytes, write_chunk-IsOffering, write-IsQuiet, set_no_delay-mem, keep_alive-IsQuiet,
}
use async_tcp.System.Traffic.{Untold, Offers}
use async_tcp.Lwip.Credit.{credited}
use async_tcp.System.Calling.{Keeps, s_error-IsQuiet, poll-IsQuiet, connected-IsQuiet, sent-IsQuiet}

abbrev pub is_quiet : Event → Bool
is_quiet (connecting fresh ip port) = false
is_quiet stopping = false
is_quiet shutting_down = false
is_quiet (configuring set) = false
is_quiet (consuming n) = false
is_quiet (receiving tpcb ds err) = false
is_quiet (networking w) = false
is_quiet _ = true

-- A call with the client's context, and what is done with its outcome.
pub via :
    {A : Type 0} (call : Option (Context Closure) → Option A) (f : A → Option System)
    (o : Option (Context Closure)) (c : Context Closure) (r : A)
    → o ≡ some c
    → call (some c) ≡ some r
    → (call o >>= f) ≡ f r
via {A} call f o c r e returns =
    ap (λ (u : Option (Context Closure)). call u >>= f) e ∙ ap (λ (q : Option A). q >>= f) returns

abbrev pub with_world : System → ErrT × World → Option System
with_world m (res, w) = some (record m { world = w })

abbrev pub after : System → ErrT × Context Closure × World → Option System
after m (res, c, w) = some (record m { client = record m.client { ctx = some c }; world = w })

-- What an event may have lwIP send, and that it gives nothing back to a receive window. What a call
-- of `writeData` has sent is left out: it depends on the size of a segment.
abbrev pub Says : Lwip → Event → List Call → List Call → Type 0
Says l (queuing bytes) calls calls' = credited calls' ≡ credited calls
Says l (writing bytes) calls calls' = Offers l (given_bytes bytes) calls calls'
Says l _ calls calls' = Untold l calls calls'

-- An event that returns with another world, in which the pbufs are the same.
abbrev pub Passes : Lwip → Event → System → Type 0
Passes l ev m =
    (w' : World) × (handle l ev m ≡ some (record m { world = w' }))
    × ((w'.mem ≡ m.world.mem) × Says l ev m.world.calls w'.calls)

then_world :
    (m : System) {o : Option World} {w' : World}
    → o ≡ some w'
    → (o >>= λ w. some (record m { world = w })) ≡ some (record m { world = w' })
then_world m returns = ap (λ (q : Option World). q >>= λ w. some (record m { world = w })) returns

-- A call with a context that works, or with none.
called :
    (l : Lwip) {A : Type 0} (m : System) (f : A → Option System) (g : World → A)
    (call : Option (Context Closure) → Option A)
    → ((w : World) → f (g w) ≡ some (record m { world = w }))
    → IsValid m
    → call none ≡ some (g m.world)
    → ((c : Context Closure)
        → m.client.ctx ≡ some c
        → Works c m.world
        → (w' : World) × (call (some c) ≡ some (g w')) × Keeps l m.world w')
    → (w' : World) × ((call m.client.ctx >>= f) ≡ some (record m { world = w' }))
      × Keeps l m.world w'
called l {A} m f g call fg (inl n) absent present = (
  m.world,
  ap (λ (o : Option (Context Closure)). call o >>= f) n
      ∙ ap (λ (q : Option A). q >>= f) absent
      ∙ fg m.world,
  (refl, (λ p. refl, refl)),
)
called l m f g call fg (inr (c, e, h)) absent present =
    let (w', returns, same) = present c e h in
    (w', via call f m.client.ctx c (g w') e returns ∙ fg w', same)

module _ (l : Lwip) where
  -- An error is reported to the client, which only passes it on.
  pub failing-returns :
      (m : System) (c : Context Closure) (err : ErrT)
      → m.client.ctx ≡ some c
      → Wired c
      → Passes l (failing err) m
  unfolding handle
  failing-returns m c err e h =
      let (w', returns, keeps) = s_error-IsQuiet l m.client c e h err m.world in
      (
        w',
        via (λ (o : Option (Context Closure)). s_error (closures l m.client) o err m.world)
            (λ (v : World). some (record m { world = v })) m.client.ctx c w' e returns,
        keeps,
      )

  pub quiet-Passes :
      (ev : Event) (m : System) → is_quiet ev ≡ true → IsValid m → Legal ev m → Passes l ev m
  unfolding handle s_error s_poll s_connected
  quiet-Passes (connecting fresh ip port) m q v legal = absurd (ground (arith, q))
  quiet-Passes stopping m q v legal = absurd (ground (arith, q))
  quiet-Passes shutting_down m q v legal = absurd (ground (arith, q))
  quiet-Passes (configuring set) m q v legal = absurd (ground (arith, q))
  quiet-Passes (consuming n) m q v legal = absurd (ground (arith, q))
  quiet-Passes (receiving tpcb ds err) m q v legal = absurd (ground (arith, q))
  quiet-Passes (networking w) m q v legal = absurd (ground (arith, q))
  quiet-Passes (writing bytes) m q v legal =
      let (w', returns, mem, says) =
        write_chunk-IsOffering l m.client bytes m.world (λ c e. (valid-Works m v c e).wired) in
      (w', then_world m returns, (mem, says))
  quiet-Passes (sending bytes) m q v (pos, has_callback) =
      let (w', returns, keeps) = write-IsQuiet l m.client bytes m.world pos has_callback in
      (w', then_world m returns, keeps)
  quiet-Passes (queuing bytes) m q v (small, (c, e)) =
      let (x, has_writer) = (valid-Works m v c e).wired.tx in
      let ((n, w'), returns, same, _, kept) = write_data-Returns l x bytes small m.world in
      (w', rw (e, has_writer, returns) refl, (same, kept))
  quiet-Passes (setting_no_delay no_delay) m q v legal = (
    _,
    refl,
    (
      set_no_delay-mem no_delay m.client m.world,
      (
        λ p. ap (queued l p) (set_no_delay-calls no_delay m.client m.world),
        ap credited (set_no_delay-calls no_delay m.client m.world),
      ),
    ),
  )
  quiet-Passes (keeping_alive idle_sec intv_sec count) m q v (c, e, some_pcb) =
      let (w', returns, keeps) =
        keep_alive-IsQuiet l idle_sec intv_sec count m.client m.world c e some_pcb in
      (w', then_world m returns, keeps)
  quiet-Passes (failing err) m q v legal =
      called l m (λ (w : World). some (record m { world = w })) (λ w. w)
        (λ o. s_error (closures l m.client) o err m.world) (λ w. refl) v refl
        (λ c e h. s_error-IsQuiet l m.client c e h.wired err m.world)
  quiet-Passes polling m q v legal =
      called l m (with_world m) (λ w. (ok, w)) (λ o. s_poll (closures l m.client) o m.world)
        (λ w. refl) v refl (λ c e h. poll-IsQuiet l m.client c e h.wired m.world)
  quiet-Passes (connected pcb err) m q v own =
      called l m (with_world m) (λ w. (ok, w))
        (λ o. s_connected (closures l m.client) o pcb err m.world) (λ w. refl) v refl
        (λ c e h. rw (own c e) (connected-IsQuiet l m.client c e h.wired err m.world))
  quiet-Passes (sent tpcb len) m q v (c, e) =
      let h = valid-Works m v c e in
      let (w', returns, keeps) = sent-IsQuiet l m.client c e h.wired tpcb len m.world in
      (
        w',
        via (λ (o : Option (Context Closure)). lwip_sent_cb o tpcb len m.world) (with_world m)
            m.client.ctx c (ok, w') e returns,
        keeps,
      )
