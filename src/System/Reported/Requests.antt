-- ===== src/System/Reported/Requests.antt =====
-- Requests that go through the sync accessor, against the account.
use async_tcp.Common.{
  ℕ, ◌≡◌, ◌≢◌, refl, sym, inl, inr, arith, false, Option, none, some, some-injective, Bool-cases,
  ◌==◌,
}
use mathlib.Core.Path.{subst}
use async_tcp.Lwip.{Ptr, null, ErrT, is_ok, World, log, lock, new_pcb, Lwip}
use async_tcp.Lwip.Chains.{PbufLaws}
use async_tcp.Client.{Client, Statics}
use async_tcp.Client.Connection.{ts_connect}
use async_tcp.Client.Connecting.{ts_connect-cases, start-leak, start-Wired, verdict}
use async_tcp.Accessor.{Machine, Bridge, BridgeLaws}
use async_tcp.Accessor
use async_tcp.Accessor.Outcome.{locked, remote, failed, connect-Connected, status-ts_status}
use async_tcp.Accessor.Entry
use async_tcp.System.{System, connecting, networking, handle}
use async_tcp.System.Cores.{system, entry-inv}
use async_tcp.System.Unread.Reopened.{left_by}
use async_tcp.System.Spec.{View, connect_view, next, accepts, shows_absent, shows_session}
use async_tcp.System.Spec.Refines.{handle-Follows}
use async_tcp.System.Reported.{Showing, unsuccessful}

module _ {l : Lwip} (laws : PbufLaws l) (io : is_ok l.pico_error_io ≡ false)
    (in_use : is_ok l.pico_error_resource_in_use ≡ false)
    (timeout : is_ok l.pico_error_timeout ≡ false) where
  logged-Showing :
      {m : System} {v : View} (w : World)
      → w.mem ≡ m.world.mem
      → Showing m v
      → Showing (record m { world = w }) v
  unfolding handle next
  logged-Showing {m} {v} w same (cs, shows) =
      let (m', gives, (cs', shows', _)) =
        handle-Follows laws (networking w) m shows (λ c x ds e here held. rw same held.chain) in
      (cs', rw (some-injective _ _ gives) shows')

  -- On a client without a context the result of `_ts_connect` is 0 if lwIP accepts the attempt.
  accepted_lem :
      (fresh ip port : ℕ) (m : System)
      → m.client.ctx ≡ none
      → accepts l (connecting fresh ip port) m
        ≡ is_ok (ts_connect l fresh ip port m.statics m.client m.world).0
  accepted_lem fresh ip port m e =
      elim (ts_connect-cases l fresh ip port m.statics m.client m.world) [
        | inl (c, here, _) ↦ absurd (ground (arith, e, here))
        | inr (inl (_, no_pcb, r)) ↦ rw (r, no_pcb) (sym io)
        | inr (inr (_, some_pcb, r)) ↦
            let pcb = l.tcp_new m.world.calls in
            let w = log (new_pcb pcb) m.world in
            let here : (pcb == null) ≡ false = ground (arith, some_pcb) in
            elim (Bool-cases (is_ok (verdict l fresh pcb ip port m.statics m.client w))) [
              | inr bad ↦
                  let (res, _, _, _) = start-leak l fresh pcb ip port m.statics m.client w bad in
                  rw (r, here, res) refl
              | inl good ↦
                  let (_, res, _, _, _, _, _, _) =
                    start-Wired l fresh pcb ip port m.statics m.client w some_pcb good in
                  rw (r, here, res) good
            ]
      ]

  ts_connect-Showing :
      (fresh ip port : ℕ) (m : System) {v : View}
      → Showing m v
      → let r = ts_connect l fresh ip port m.statics m.client m.world in
        Showing (left_by r) (connect_view (is_ok r.0) v)
  unfolding handle next
  ts_connect-Showing fresh ip port m (cs, shows_absent e) =
      let (m', gives, (cs', shows', _)) =
        handle-Follows laws (connecting fresh ip port) m (shows_absent e) tt in
      (cs', rw (some-injective _ _ gives, sym (accepted_lem fresh ip port m e)) shows')
  ts_connect-Showing fresh ip port m (cs, shows_session h at) =
      let (m', gives, (cs', shows', _)) =
        handle-Follows laws (connecting fresh ip port) m (shows_session h at) tt in
      (cs', rw (some-injective _ _ gives) shows')

  connect-Showing :
      (fresh result : Ptr) (ip port : ℕ) {b : Bridge}
      → BridgeLaws b
      → (m : Machine) {v : View} → result ≢ null
      → Showing (system m) v
      → let r = Accessor.connect l b fresh result ip port m in
        Showing (system r.1) (connect_view (is_ok r.0) v)
  connect-Showing fresh result ip port bridge m {v} some_result shows =
      elim (connect-Connected l fresh bridge result ip port m some_result) [
        | locked _ e ↦
            subst
              (λ (q : ErrT × Statics × Client × World).
                Showing (left_by q) (connect_view (is_ok q.0) v))
              (sym e)
              (logged-Showing _ refl (
                ts_connect-Showing fresh ip port (record (system m) { world = log lock m.world })
                  (logged-Showing (log lock m.world) refl shows)))
        | remote _ e ↦
            subst
              (λ (q : ErrT × Statics × Client × World).
                Showing (left_by q) (connect_view (is_ok q.0) v))
              (sym e) (ts_connect-Showing fresh ip port (system m) shows)
        | failed _ bad e ↦
            rw (bad, sym (unsuccessful v))
              (subst
                (λ (q : Statics × Client × World).
                  Showing (record { statics = q.0; client = q.1; world = q.2 }) v)
                (sym e) shows)
      ]

  pub status-Showing :
      (fresh result : Ptr) {b : Bridge}
      → BridgeLaws b
      → (m : Machine) {v : View} → result ≢ null
      → Showing (system m) v
      → Showing (system (Accessor.status l b fresh result m).1) v
  status-Showing fresh result {b} bridge m some_result shows =
      let (_, client, statics, mem, _) = status-ts_status l fresh bridge result m some_result in
      rw (client, statics) (logged-Showing (Accessor.status l b fresh result m).1.world mem shows)

  pub entry_connect-Showing :
      (fresh result : Ptr) (ip port : ℕ) {b : Bridge}
      → BridgeLaws b
      → (m : Machine) (r : ErrT × Machine) {v : View} → result ≢ null
      → Showing (system m) v
      → Entry.connect l b fresh result ip port m ≡ some r
      → Showing (system r.1) (connect_view (is_ok r.0) v)
  unfolding Entry.connect
  entry_connect-Showing fresh result ip port {b} bridge m r {v} some_result shows e =
      subst (λ (x : ErrT × Machine). Showing (system x.1) (connect_view (is_ok x.0) v))
        (entry-inv m.client.sync_accessor (Accessor.connect l b fresh result ip port m) r e)
        (connect-Showing fresh result ip port bridge m some_result shows)

  -- With the answer of the resolver.
  pub resolved-Showing :
      (fresh result : Ptr) (port : ℕ) {b : Bridge}
      → BridgeLaws b
      → (m : Machine) (r : ErrT × Machine) (o : Option ℕ) {v : View} → result ≢ null
      → Showing (system m) v
      → (elim o as (λ _. Option (ErrT × Machine)) [
        | none ↦ some (l.pico_error_timeout, m)
        | some ip ↦ Entry.connect l b fresh result ip port m
      ])
        ≡ some r
      → Showing (system r.1) (connect_view (is_ok r.0) v)
  resolved-Showing fresh result port bridge m r none {v} some_result shows e =
      subst (λ (x : ErrT × Machine). Showing (system x.1) (connect_view (is_ok x.0) v))
        (some-injective _ _ e) (rw (timeout, sym (unsuccessful v)) shows)
  resolved-Showing fresh result port bridge m r (some ip) some_result shows e =
      entry_connect-Showing fresh result ip port bridge m r some_result shows e
