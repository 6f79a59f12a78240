-- ===== src/System/Writing.antt =====
-- `writeChunk` on a client whose context is wired.
use async_tcp.Common.{
  ℕ, ◌&&◌, sym, ◌∙◌, take-append-drop, drop, [], ◌∷◌, ◌<◌, ◌≡◌, ◌≢◌, refl, arith, inl, inr, Bool,
  false, Option, none, some, List, ◌==◌, Bool-cases, Option-cases, length, take, ◌%◌, min,
}
use async_tcp.Lwip.{
  Ptr, Call, null, ErrT, is_ok, World, log, write, output, write_callback, set_pcb, Lwip,
}
use async_tcp.Context.{Context}
use async_tcp.Context.Events.{call_error}
use async_tcp.Context.Chunk
use async_tcp.Context.Options
use async_tcp.Context.KeepAlive
use async_tcp.Client.{Client, Closure}
use async_tcp.Client.Access
use async_tcp.Client.Connection.{set_no_delay}
use async_tcp.Client.Callbacks.{closures, on_error_callback}
use async_tcp.Client.Connecting.{Wired}
use async_tcp.Writer.Queued.{Adds, queued-Adds}
use async_tcp.System.Traffic.{Offers, Untold-Offers}
use async_tcp.System.Calling.{IsQuiet, on_error-Keeps}

-- A call that returns and leaves the pbufs alone, and that queues nothing but the front of `bytes`.
abbrev pub IsOffering : Lwip → List ℕ → World → Option World → Type 0
IsOffering l bytes w r =
    (w' : World) × (r ≡ some w') × (w'.mem ≡ w.mem) × Offers l bytes w.calls w'.calls

offers_nothing :
    (l : Lwip) (bytes : List ℕ) (w : World) {r : Option World}
    → IsQuiet l w r
    → IsOffering l bytes w r
offers_nothing l bytes w (w', returns, keeps) =
    (w', returns, keeps.0, Untold-Offers l bytes w.calls w'.calls keeps.1)

-- The given bytes of a control context.
abbrev pub given_bytes : Option (List ℕ) → List ℕ
given_bytes none = []
given_bytes (some bs) = bs

-- One call of `tcp_write` with the front of the data, for this control block or another.
write-Adds :
    (l : Lwip) (p q : Ptr) (bs : List ℕ) (k f : ℕ) (calls : List Call)
    → Adds l p bs calls (write q (take k bs) f ∷ calls)
write-Adds l p q bs k f calls =
    elim (Bool-cases (q == p && is_ok (l.tcp_write calls q (take k bs) f))) [
      | inl hit ↦ (take k bs, drop k bs, sym (take-append-drop k bs), rw hit refl)
      | inr miss ↦ queued-Adds l p bs calls (write q (take k bs) f ∷ calls) (rw miss refl)
    ]

module _ (l : Lwip) (t : Client) (c : Context Closure) (h : Wired c) where
  report-IsQuiet :
      (err : ErrT) (w : World) → IsQuiet l w (call_error (closures l t) c.error_cb err w)
  unfolding closures
  report-IsQuiet err w = rw h.error (on_error_callback t err w, refl, on_error-Keeps l t err w)

  -- A refused chunk is reported.
  refused-IsOffering :
      (bs : List ℕ) (k : ℕ) (err : ErrT) (w : World)
      → IsOffering l bs w
          (call_error (closures l t) c.error_cb err (log (write c.pcb (take k bs) 0) w))
  refused-IsOffering bs k err w =
      let (w', returns, keeps) = report-IsQuiet err (log (write c.pcb (take k bs) 0) w) in
      (
        w',
        returns,
        keeps.0,
        (
          λ p.
              let (sent, unsent, split, grown) = write-Adds l p c.pcb bs k 0 w.calls in
              (sent, unsent, split, keeps.1.0 p ∙ grown),
          keeps.1.1,
        ),
      )

  offer-IsOffering :
      (bs : List ℕ) (w : World)
      → (length bs == 0) ≡ false
      → (c.pcb == null) ≡ false
      → IsOffering l bs w (Chunk.write_chunk l (closures l t) (some bs) c w)
  unfolding Chunk.write_chunk
  offer-IsOffering bs w some_bytes here =
      let n : ℕ = min (l.tcp_sndbuf w.calls c.pcb) (length bs) in
      let chunk : List ℕ = take (n % 65536) bs in
      let w' : World = log (write c.pcb chunk 0) w in
      let err : ErrT = l.tcp_write w.calls c.pcb chunk 0 in
      elim (Bool-cases (n == 0)) [
        | inl full ↦
            rw (here, some_bytes, full) (offers_nothing l bs w (report-IsQuiet l.err_mem w))
        | inr room ↦ elim (Bool-cases (is_ok err)) [
          | inl good ↦
              rw (here, some_bytes, room, good)
                (
                  log (output c.pcb) w',
                  refl,
                  refl,
                  (λ p. write-Adds l p c.pcb bs (n % 65536) 0 w.calls, refl),
                )
          | inr bad ↦ rw (here, some_bytes, room, bad) (refused-IsOffering bs (n % 65536) err w)
        ]
      ]

  chunk-IsOffering :
      (bytes : Option (List ℕ)) (w : World)
      → IsOffering l (given_bytes bytes) w (Chunk.write_chunk l (closures l t) bytes c w)
  unfolding Chunk.write_chunk
  chunk-IsOffering bytes w = elim (Bool-cases (c.pcb == null)) [
    | inl gone ↦ rw gone (offers_nothing l (given_bytes bytes) w (report-IsQuiet l.err_conn w))
    | inr here ↦ with_pcb here bytes
  ]
    where
      with_pcb :
          (c.pcb == null) ≡ false
          → (bytes : Option (List ℕ))
          → IsOffering l (given_bytes bytes) w (Chunk.write_chunk l (closures l t) bytes c w)
      with_pcb here none =
          rw here (offers_nothing l [] w (report-IsQuiet l.pico_error_invalid_arg w))
      with_pcb here (some bs) = elim (Bool-cases (length bs == 0)) [
        | inl no_bytes ↦
            rw (here, no_bytes) (offers_nothing l bs w (report-IsQuiet l.pico_error_invalid_arg w))
        | inr some_bytes ↦ offer-IsOffering bs w some_bytes here
      ]

-- Without a context, data or bytes nothing is done.
pub write_chunk-IsOffering :
    (l : Lwip) (t : Client) (bytes : Option (List ℕ)) (w : World)
    → ((c : Context Closure) → t.ctx ≡ some c → Wired c)
    → IsOffering l (given_bytes bytes) w (Access.write_chunk l bytes t w)
unfolding Access.write_chunk
write_chunk-IsOffering l t bytes w h = elim (Option-cases t.ctx) [
  | inl e ↦
      (w, rw e refl, refl, Untold-Offers l (given_bytes bytes) w.calls w.calls (λ p. refl, refl))
  | inr (c, e) ↦ with_context c e bytes
]
  where
    with_context :
        (c : Context Closure)
        → t.ctx ≡ some c
        → (bytes : Option (List ℕ))
        → IsOffering l (given_bytes bytes) w (Access.write_chunk l bytes t w)
    with_context c e none =
        (w, rw e refl, refl, Untold-Offers l [] w.calls w.calls (λ p. refl, refl))
    with_context c e (some bs) = elim (Bool-cases (length bs == 0)) [
      | inl no_bytes ↦
          (w, rw (e, no_bytes) refl, refl, Untold-Offers l bs w.calls w.calls (λ p. refl, refl))
      | inr some_bytes ↦
          rw (e, some_bytes) (chunk-IsOffering l (record t { ctx = some c }) c (h c e) (some bs) w)
    ]

-- A write that is not empty is handed to the write callback, if there is a context.
pub write-IsQuiet :
    (l : Lwip) (t : Client) (bytes : List ℕ) (w : World)
    → 0 < length bytes
    → ((c : Context Closure) → t.ctx ≡ some c → (cb : ℕ) × (t.write_callback ≡ some cb))
    → IsQuiet l w (Access.write (some bytes) t w)
unfolding Access.write
write-IsQuiet l t bytes w pos has_callback =
    let some_bytes : (length bytes == 0) ≡ false = ground arith in
    elim (Option-cases t.ctx) [
      | inl e ↦ (w, rw (some_bytes, e) refl, (refl, (λ p. refl, refl)))
      | inr (c, e) ↦
          let (cb, e') = has_callback c e in
          (
            log (write_callback cb (Access.writer_pcb c.tx) bytes) w,
            rw (some_bytes, e) (rw e' refl),
            (refl, (λ p. refl, refl)),
          )
    ]

pub set_no_delay-mem :
    (no_delay : Bool) (t : Client) (w : World) → (set_no_delay no_delay t w).mem ≡ w.mem
unfolding set_no_delay Options.set_no_delay
set_no_delay-mem no_delay t w = elim (Option-cases t.ctx) [
  | inl e ↦ rw e refl
  | inr (c, e) ↦ elim (Bool-cases (c.pcb == null)) [
    | inl gone ↦ rw (e, gone) refl
    | inr here ↦ rw (e, here) refl
  ]
]

pub keep_alive-IsQuiet :
    (l : Lwip) (idle_sec intv_sec count : ℕ) (t : Client) (w : World) (c : Context Closure)
    → t.ctx ≡ some c
    → c.pcb ≢ null
    → IsQuiet l w (Access.keep_alive idle_sec intv_sec count t w)
unfolding Access.keep_alive KeepAlive.keep_alive
keep_alive-IsQuiet l idle_sec intv_sec count t w c e some_pcb =
    let here : (c.pcb == null) ≡ false = ground arith in
    (
      set_pcb c.pcb (KeepAlive.options idle_sec intv_sec count (w.pcbs c.pcb)) w,
      rw e (rw here refl),
      (refl, (λ p. refl, refl)),
    )
