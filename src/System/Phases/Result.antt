-- ===== src/System/Phases/Result.antt =====
-- What the result of `_ts_connect` says of the client.
use async_tcp.Common.{
  ℕ, ◌≡◌, ◌≢◌, ◌↔◌, refl, ap, ◌∙◌, inl, inr, ◌⊎◌, sym, Bool, true, false, some, arith, Bool-cases,
  ◌==◌,
}
use async_tcp.Lwip.{Ptr, null, is_ok, World, log, new_pcb, Lwip}
use async_tcp.Context.{Context}
use async_tcp.Client.{Client, Statics, Closure}
use async_tcp.Client.Connection.{ts_connect, start}
use async_tcp.Client.Connecting.{ts_connect-cases, start-leak, start-Wired, verdict}
use async_tcp.System.Phases.{Phase, idle, linked, phase_of}
use async_tcp.System.Phases.Refines.{phase-linked}

-- A code of success, where the phase goes from `idle` to `linked`, and in no other case.
abbrev Says : Bool → Phase → Phase → Type 0
Says done p q = (done ≡ true) ↔ ((p ≡ idle) × (q ≡ linked))

phase-some : (c : Context Closure) → phase_of (some c) ≢ idle
phase-some c e = elim (Bool-cases (c.pcb == null)) [
  | inl gone ↦ absurd (ground (arith, e, gone))
  | inr some_pcb ↦ absurd (ground (arith, e, some_pcb))
]

-- Without success: the client was not idle, or it is not linked.
refused-Says :
    (done : Bool) (p q : Phase) → done ≡ false → (p ≢ idle) ⊎ (q ≢ linked) → Says done p q
refused-Says done p q e (inl ne) = (λ y. absurd (ground (arith, e, y)), λ (f, g). absurd (ne f))
refused-Says done p q e (inr ne) = (λ y. absurd (ground (arith, e, y)), λ (f, g). absurd (ne g))

idle-ne-linked : idle ≢ linked
idle-ne-linked e = absurd (ground (arith, e))

module _ (l : Lwip) (fresh ip port : ℕ) (s : Statics) (t : Client) where
  start-Says :
      (pcb : Ptr) (w : World)
      → pcb ≢ null
      → let r = start l fresh pcb ip port s t w in Says (is_ok r.0) idle (phase_of r.2.ctx)
  start-Says pcb w some_pcb = elim (Bool-cases (is_ok (verdict l fresh pcb ip port s t w))) [
    | inr bad ↦
        let (res, gone, _, _) = start-leak l fresh pcb ip port s t w bad in
        refused-Says _ idle _ (rw res bad) (inr (rw gone idle-ne-linked))
    | inl good ↦
        let (c, res, made, _, (_, own), _, _, _) =
          start-Wired l fresh pcb ip port s t w some_pcb good in
        let there =
          ap (λ (u : Client). phase_of u.ctx) made ∙ phase-linked c (ground (arith, own)) in
        (λ _. (refl, there), λ _. rw res refl)
  ]

  -- If PICO_ERROR_IO and PICO_ERROR_RESOURCE_IN_USE are not 0, then `_ts_connect` returns 0 exactly
  -- if it takes the client from having no context to having one with a control block.
  pub ts_connect-Says :
      (w : World)
      → is_ok l.pico_error_io ≡ false
      → is_ok l.pico_error_resource_in_use ≡ false
      → let r = ts_connect l fresh ip port s t w in
        (is_ok r.0 ≡ true) ↔ ((phase_of t.ctx ≡ idle) × (phase_of r.2.ctx ≡ linked))
  ts_connect-Says w io in_use = elim (ts_connect-cases l fresh ip port s t w) [
    | inl (c, e, r) ↦
        rw r (refused-Says _ _ _ in_use (inl (λ f. phase-some c (ap phase_of (sym e) ∙ f))))
    | inr (inl (e, _, r)) ↦ rw r (refused-Says _ _ _ io (inr (rw (ap phase_of e) idle-ne-linked)))
    | inr (inr (e, n, r)) ↦
        rw (r, ap phase_of e)
          (start-Says (l.tcp_new w.calls) (log (new_pcb (l.tcp_new w.calls)) w) n)
  ]
