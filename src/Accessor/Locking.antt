-- ===== src/Accessor/Locking.antt =====
-- The lock of the async context.
use async_tcp.Common.{
  ℕ, ◌+◌, ◌-◌, ◌≡◌, refl, ◌≢◌, ◌⊎◌, inl, inr, true, false, some, none, arith, ◌==◌, Bool-cases, ap,
  ◌∙◌, List, [], ◌∷◌, ◌%◌, ◌^◌,
}
use async_tcp.Lwip.{Ptr, null, ErrT, Call, World, log, lock, unlock, new_pcb, Lwip}
use async_tcp.Client.{Client, Statics}
use async_tcp.Client.Connection.{ts_connect, start, opened}
use async_tcp.Client.Connecting.{ts_connect-cases, start-calls}
use async_tcp.Accessor.{Machine, Bridge, BridgeLaws, connect, run_local, with_call}
use async_tcp.Accessor.Outcome.{locked, remote, failed, connect-Connected}

-- How many times the lock is held, after calls of which the newest stands first.
abbrev pub held : List Call → ℕ
held [] = 0
held (lock ∷ cs) = held cs + 1
held (unlock ∷ cs) = held cs - 1
held (c ∷ cs) = held cs

module _ (l : Lwip) (fresh ip port : ℕ) where
  opened-held :
      (pcb : Ptr) (s : Statics) (t : Client) (w : World)
      → held (opened fresh pcb s t w).1.calls ≡ held w.calls
  unfolding opened
  opened-held pcb s t w = ground arith

  start-held :
      (pcb : Ptr) (s : Statics) (t : Client) (w : World)
      → held (start l fresh pcb ip port s t w).3.calls ≡ held w.calls
  start-held pcb s t w = ap held (start-calls l fresh pcb ip port s t w) ∙ opened-held pcb s t w

  ts_connect-held :
      (s : Statics) (t : Client) (w : World)
      → held (ts_connect l fresh ip port s t w).3.calls ≡ held w.calls
  ts_connect-held s t w = elim (ts_connect-cases l fresh ip port s t w) [
    | inl (c, e, r) ↦ ap (λ (q : ErrT × Statics × Client × World). held q.3.calls) r
    | inr (inl (e, n, r)) ↦ ap (λ (q : ErrT × Statics × Client × World). held q.3.calls) r
    | inr (inr (e, n, r)) ↦
        ap (λ (q : ErrT × Statics × Client × World). held q.3.calls) r
        ∙ start-held (l.tcp_new w.calls) s t (log (new_pcb (l.tcp_new w.calls)) w)
  ]

module _ (l : Lwip) (fresh : Ptr) {b : Bridge} (laws : BridgeLaws b) where
  -- If the bridge's `execute` either runs its handler or fails without running it, and the result has
  -- an address, `connect` returns with the lock held as often as before: whatever `_ts_connect` does,
  -- on either core, with an error or without, each lock that is taken is released.
  pub connect-held :
      (result : Ptr) (ip port : ℕ) (m : Machine)
      → result ≢ null
      → held (connect l b fresh result ip port m).1.world.calls ≡ held m.world.calls
  connect-held result ip port m some_result =
      elim (connect-Connected l fresh laws result ip port m some_result) [
        | locked same r ↦
            ap (λ (q : ErrT × Statics × Client × World). held q.3.calls) r
            ∙ ap (λ (n : ℕ). n - 1)
                (ts_connect-held l fresh ip port m.statics m.client (log lock m.world))
            ∙ omega arith
        | remote cross r ↦
            ap (λ (q : ErrT × Statics × Client × World). held q.3.calls) r
            ∙ ts_connect-held l fresh ip port m.statics m.client m.world
        | failed cross bad r ↦ ap (λ (q : Statics × Client × World). held q.2.calls) r
      ]

-- If the function that `run_local` is given leaves the lock as it finds it, then `run_local` fails an
-- assertion, on the other core or in an interrupt, or it returns the function's result, in 32 bits,
-- and has released the lock that it took.
pub run_local-held :
    (b : Bridge) (call_me : Machine → ℕ × Machine) (m : Machine)
    → held (call_me (with_call lock m)).1.world.calls ≡ held m.world.calls + 1
    → (((b.is_cross_core m.world.calls ≡ true) ⊎ (b.read_ipsr m.world.calls ≢ 0))
        × (run_local b call_me m ≡ none))
      ⊎ ((b.is_cross_core m.world.calls ≡ false)
          × (b.read_ipsr m.world.calls ≡ 0)
          × ((m' : Machine) × (run_local b call_me m
                ≡ some ((call_me (with_call lock m)).0 % 2 ^ 32, m'))
              × (held m'.world.calls ≡ held m.world.calls)))
unfolding run_local
run_local-held b call_me m e = elim (Bool-cases (b.is_cross_core m.world.calls)) [
  | inl cross ↦ inl (inl cross, rw cross refl)
  | inr same ↦ elim (Bool-cases (b.read_ipsr m.world.calls == 0)) [
    | inr isr ↦ inl (inr (ground arith), rw (same, isr) refl)
    | inl thread ↦ inr (
      same,
      ground arith,
      (with_call unlock (call_me (with_call lock m)).1, rw (same, thread) refl, omega (arith, e)),
    )
  ]
]
