-- ===== src/System/Reported/Lives.antt =====
-- A client's life on both cores, with requests and events, against the account.
use async_tcp.Common.{
  ℕ, ◌≡◌, ◌≢◌, sym, ap, ◌∙◌, false, Option, none, some, List, [], bind-some, some-injective,
}
use mathlib.Core.Path.{subst}
use async_tcp.Lwip.{null, ErrT, is_ok, TcpState, Call, Lwip}
use async_tcp.Lwip.Chains.{PbufLaws}
use async_tcp.Accessor.{Machine, Bridge, BridgeLaws}
use async_tcp.Accessor
use async_tcp.Accessor.Entry
use async_tcp.System.Cores.{
  Request, connect_to, connect_by_name, ask_status, result_of, system, entry-inv, answer, Life,
  begin, request, event,
}
use async_tcp.System.Spec.{View, absent, connect_view, shows_absent}
use async_tcp.System.Spec.Refines.{Seen, handle-Follows, Shows-Seen}
use async_tcp.System.Reported.{done, succeeded, told, Showing, unsuccessful}
use async_tcp.System.Reported.Requests.{entry_connect-Showing, resolved-Showing, status-Showing}

module _ {l : Lwip} (laws : PbufLaws l) (io : is_ok l.pico_error_io ≡ false)
    (in_use : is_ok l.pico_error_resource_in_use ≡ false)
    (timeout : is_ok l.pico_error_timeout ≡ false) {b : Bridge} (bridge : BridgeLaws b)
    (host_by_name : List Call → List ℕ → ℕ → Option ℕ) where
  -- A request that connected, with what the account makes of its result.
  reported :
      (o : Option (ErrT × Machine)) (r : ErrT × Machine) (m' : Machine) (v : View)
      → o ≡ some r
      → some r.1 ≡ some m'
      → Showing (system r.1) (connect_view (is_ok r.0) v)
      → Showing (system m') (connect_view (done o) v)
  reported o r m' v e same shows = rw (ap done e) (
      subst (λ (x : Machine). Showing (system x) (connect_view (is_ok r.0) v))
        (some-injective _ _ same) shows)

  answer-Showing :
      (q : Request) (m m' : Machine) {v : View}
      → result_of q ≢ null
      → Showing (system m) v
      → answer l b host_by_name q m ≡ some m'
      → Showing (system m') (connect_view (succeeded l b host_by_name q m) v)
  unfolding answer Entry.connect_host Entry.status
  answer-Showing (connect_to fresh result ip port) m m' some_result shows e =
      let (r, connects, same) = bind-some (Entry.connect l b fresh result ip port m) _ _ e in
      reported _ r m' _ connects same (
        entry_connect-Showing laws io in_use timeout fresh result ip port bridge m r some_result
          shows connects)
  answer-Showing (connect_by_name fresh result host port) m m' some_result shows e =
      let (r, connects, same) =
        bind-some (Entry.connect_host l b fresh result host_by_name host port m) _ _ e in
      reported _ r m' _ connects same (
        resolved-Showing laws io in_use timeout fresh result port bridge m r
          (host_by_name m.world.calls host m.client.timeout) some_result shows connects)
  answer-Showing (ask_status fresh result) m m' {v} some_result shows e =
      let (r, asks, e') = bind-some (Entry.status l b fresh result m) _ _ e in
      let same = entry-inv m.client.sync_accessor (Accessor.status l b fresh result m) r asks in
      rw (sym (unsuccessful v)) (
        subst (λ (x : Machine). Showing (system x) v)
          (ap (λ (x : TcpState × Machine). x.1) same ∙ some-injective _ _ e')
          (status-Showing laws io in_use timeout fresh result bridge m some_result shows))

  life-Showing :
      {m0 m : Machine} {v : View}
      → Showing (system m0) v
      → (life : Life l b host_by_name m0 m) → Showing (system m) (told life v)
  life-Showing shows begin = shows
  life-Showing shows (request life q some_result e) =
      answer-Showing q _ _ some_result (life-Showing shows life) e
  life-Showing shows (event {m} life ev legal e) =
      let (cs, here) = life-Showing shows life in
      let (m', gives, (cs', after, _)) = handle-Follows laws ev (system m) here legal in
      (cs', rw⁻¹ (some-injective _ _ (sym gives ∙ e)) after)

  -- If the bridge's `execute` either runs its handler or fails without running it, and
  -- PICO_ERROR_IO, PICO_ERROR_RESOURCE_IN_USE and PICO_ERROR_TIMEOUT are not 0: over any life of a
  -- client that starts without a context, with requests from either core in any order with legal
  -- events, the account that starts a session whenever `connect`, by address or by name, returns
  -- 0, and that follows the events as in a run, tells what the application sees at the end. A client that is absent has no context and says
  -- that it is closed. One with a session has a context, of which `peek` shows the first of the
  -- unread bytes, 0 if there are none; it has a control block and says its state if the session
  -- is linked, and has none and says that it is closed otherwise.
  pub life-Seen :
      (m0 m : Machine)
      → m0.client.ctx ≡ none
      → (life : Life l b host_by_name m0 m) → Seen (told life absent) (system m)
  life-Seen m0 m start life =
      let (cs, shows) = life-Showing ([], shows_absent start) life in
      Shows-Seen (system m) _ cs shows
