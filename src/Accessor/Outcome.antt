-- ===== src/Accessor/Outcome.antt =====
-- What `status` and `connect` of the sync accessor come to, on either core.
use async_tcp.Common.{
  ℕ, ◌≡◌, refl, ◌≢◌, ◌⊎◌, inl, inr, Bool, true, false, some, arith, ◌==◌, Bool-cases, Option-cases,
}
use async_tcp.Lwip.{Ptr, null, ErrT, is_ok, closed, World, log, lock, unlock, Lwip}
use async_tcp.Client.{Client, Statics}
use async_tcp.Client.Connection.{ts_connect, ts_status}
use async_tcp.Accessor.{
  op_status, op_connect, new_payload, Machine, Bridge, BridgeLaws, status, connect, on_execute,
  put_connect, put_status,
}

-- The client, its static members and the world.
abbrev pub shared : Machine → Statics × Client × World
shared m = (m.statics, m.client, m.world)

-- A result with them.
abbrev pub with_shared : ErrT → Machine → ErrT × Statics × Client × World
with_shared res m = (res, m.statics, m.client, m.world)

under : (t : Client) (v w : World) → v.pcbs ≡ w.pcbs → ts_status t v ≡ ts_status t w
unfolding ts_status
under t v w e = elim (Option-cases t.ctx) [ inl n ↦ rw n refl | inr (c, n) ↦ rw n (rw e refl) ]

module _ (l : Lwip) (fresh : Ptr) where
  abbrev pub under_lock : ℕ → ℕ → Machine → ErrT × Statics × Client × World
  under_lock ip port m =
      let (res, s, t, w) = ts_connect l fresh ip port m.statics m.client (log lock m.world) in
      (res, s, t, log unlock w)

  -- How a call of `connect` ends: with what `_ts_connect` did under the lock, with what it did where
  -- the network stack runs, or with the bridge's error and nothing done.
  pub data Connected (cross : Bool) (ip port : ℕ) (m : Machine) (r : ErrT × Machine) : Type 0 where
    locked :
        cross ≡ false → with_shared r.0 r.1 ≡ under_lock ip port m → Connected cross ip port m r
    remote :
        cross ≡ true
        → with_shared r.0 r.1 ≡ ts_connect l fresh ip port m.statics m.client m.world
        → Connected cross ip port m r
    failed : cross ≡ true → is_ok r.0 ≡ false → shared r.1 ≡ shared m → Connected cross ip port m r

  module _ {b : Bridge} (laws : BridgeLaws b) where
    -- If the bridge's `execute` either runs its handler or fails without running it, and the result
    -- has an address, then `connect` on the core of the network stack does `_ts_connect` between
    -- taking and releasing the lock; on the other core it does what `_ts_connect` does there and
    -- returns its result, or it returns the bridge's error and nothing was done.
    pub connect-Connected :
        (result : Ptr) (ip port : ℕ) (m : Machine)
        → result ≢ null
        → Connected (b.is_cross_core m.world.calls) ip port m (connect l b fresh result ip port m)
    unfolding connect
    connect-Connected result ip port m some_result =
        let here : (result == null) ≡ false = ground arith in
        let self : (result == result) ≡ true = ground arith in
        let p = record new_payload {
          op = op_connect;
          ip_ptr = some ip;
          port = port;
          connect_result = result;
        } in
        elim (Bool-cases (b.is_cross_core m.world.calls)) [
          | inr same ↦ locked same (rw same refl)
          | inl cross ↦
              elim (laws.execute_lem (on_execute l fresh) p
                (put_connect result l.pico_error_generic m)) [
                  | inl run ↦ remote cross (rw (cross, run) (rw (here, self) refl))
                  | inr (e, bad, run) ↦
                      failed cross (rw (cross, run) (rw bad bad)) (rw (cross, run) (rw bad refl))
                ]
        ]

    -- If the bridge's `execute` either runs its handler or fails without running it, and the result
    -- has an address, then `status` is the state of the client, or CLOSED if the caller is on the
    -- other core and the bridge fails; the client, its static members, the pbufs and the control
    -- blocks stay as they were.
    pub status-ts_status :
        (result : Ptr) (m : Machine)
        → result ≢ null
        → let r = status l b fresh result m in
          ((r.0 ≡ ts_status m.client m.world)
            ⊎ ((b.is_cross_core m.world.calls ≡ true) × (r.0 ≡ closed)))
          × (r.1.client ≡ m.client)
          × (r.1.statics ≡ m.statics)
          × (r.1.world.mem ≡ m.world.mem)
          × (r.1.world.pcbs ≡ m.world.pcbs)
    unfolding status
    status-ts_status result m some_result =
        let here : (result == null) ≡ false = ground arith in
        let self : (result == result) ≡ true = ground arith in
        let p = record new_payload { op = op_status; result_ptr = result } in
        elim (Bool-cases (b.is_cross_core m.world.calls)) [
          | inr same ↦
              rw same (inl (under m.client (log lock m.world) m.world refl), refl, refl, refl, refl)
          | inl cross ↦
              elim (laws.execute_lem (on_execute l fresh) p (put_status result closed m)) [
                | inl run ↦ rw (cross, run) (rw (here, self) (inl refl, refl, refl, refl, refl))
                | inr (e, bad, run) ↦
                    rw (cross, run) (rw self (inr (refl, refl), refl, refl, refl, refl))
              ]
        ]
