-- ===== src/System/Calling.antt =====
-- The calls of lwIP on a context that works, other than deliveries.
use async_tcp.Common.{ℕ, ◌≡◌, refl, inl, inr, true, Option, some, arith, ◌==◌, Option-cases}
use async_tcp.Lwip.{Ptr, ErrT, ok, World, Lwip}
use async_tcp.Writer.{on_ack_callback}
use async_tcp.Context.{Context}
use async_tcp.Context.Events.{s_error, s_poll, s_connected, lwip_sent_cb}
use async_tcp.Client.{Client, Closure}
use async_tcp.Client.Callbacks.{closures, on_connect_callback, on_error_callback, on_poll_callback}
use async_tcp.Client.Connecting.{Wired}
use async_tcp.System.Traffic.{Untold}

-- The pbufs are left alone, nothing is queued for any control block and nothing given back to a
-- receive window.
abbrev pub Keeps : Lwip → World → World → Type 0
Keeps l w w' = (w'.mem ≡ w.mem) × Untold l w.calls w'.calls

-- A callback that returns and does so.
abbrev pub IsQuiet : Lwip → World → Option World → Type 0
IsQuiet l w r = (w' : World) × (r ≡ some w') × Keeps l w w'

on_poll-Keeps : (l : Lwip) (t : Client) (w : World) → Keeps l w (on_poll_callback t w)
unfolding on_poll_callback
on_poll-Keeps l t w = elim (Option-cases t.poll_bridge) [
  | inl e ↦ rw e (refl, (λ p. refl, refl))
  | inr (b, e) ↦ rw e (refl, (λ p. refl, refl))
]

on_connect-Keeps : (l : Lwip) (t : Client) (w : World) → Keeps l w (on_connect_callback t w)
unfolding on_connect_callback
on_connect-Keeps l t w = elim (Option-cases t.connected_bridge) [
  | inl e ↦ rw e (refl, (λ p. refl, refl))
  | inr (b, e) ↦ rw e (refl, (λ p. refl, refl))
]

pub on_error-Keeps :
    (l : Lwip) (t : Client) (err : ErrT) (w : World) → Keeps l w (on_error_callback t err w)
unfolding on_error_callback
on_error-Keeps l t err w = elim (Option-cases t.error_bridge) [
  | inl e ↦ rw e (refl, (λ p. refl, refl))
  | inr (b, e) ↦ rw e (refl, (λ p. refl, refl))
]

module _ (l : Lwip) (t : Client) (c : Context Closure) (e : t.ctx ≡ some c) (h : Wired c) where
  -- The other calls change nothing but the record of calls.
  pub s_error-IsQuiet :
      (err : ErrT) (w : World) → IsQuiet l w (s_error (closures l t) (some c) err w)
  unfolding s_error closures
  s_error-IsQuiet err w = rw h.error (on_error_callback t err w, refl, on_error-Keeps l t err w)

  pub poll-IsQuiet :
      (w : World) → (w' : World) × (s_poll (closures l t) (some c) w ≡ some (ok, w')) × Keeps l w w'
  unfolding s_poll closures
  poll-IsQuiet w = (on_poll_callback t w, rw h.poll refl, on_poll-Keeps l t w)

  pub connected-IsQuiet :
      (err : ErrT) (w : World)
      → (w' : World) × (s_connected (closures l t) (some c) c.pcb err w ≡ some (ok, w'))
        × Keeps l w w'
  unfolding s_connected closures
  connected-IsQuiet err w =
      let self : (c.pcb == c.pcb) ≡ true = ground arith in
      (on_connect_callback t w, rw (self, h.connect) refl, on_connect-Keeps l t w)

  pub sent-IsQuiet :
      (tpcb : Ptr) (len : ℕ) (w : World)
      → (w' : World) × (lwip_sent_cb (some c) tpcb len w ≡ some (ok, w')) × Keeps l w w'
  unfolding lwip_sent_cb on_ack_callback
  sent-IsQuiet tpcb len w = let (x, e') = h.tx in (w, rw e' refl, (refl, (λ p. refl, refl)))
