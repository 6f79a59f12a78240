-- ===== src/System/Spec/Absent.antt =====
-- Events on a client without a context, against the account kept of it.
use async_tcp.Common.{
  ℕ, arith, ◌∙◌, ◌≢◌, ◌≡◌, refl, inl, inr, true, false, none, some, List, [], Bool-cases, ◌==◌,
}
use async_tcp.Lwip.{Ptr, null, is_ok, World, log, new_pcb, Lwip}
use async_tcp.Lwip.Chains.{Cell, PbufLaws, erase_all}
use async_tcp.Client.{Client, Statics}
use async_tcp.Client.Connection.{ts_connect, start, stop, shutdown}
use async_tcp.Client.Connecting.{ts_connect-cases, start-leak, verdict}
use async_tcp.Client.Memory.{start-mem}
use async_tcp.System.{
  System, Event, connecting, stopping, shutting_down, configuring, consuming, writing, sending,
  queuing, setting_no_delay, keeping_alive, receiving, failing, polling, connected, sent,
  networking, handle, Legal,
}
use async_tcp.System.Quiet.{quiet-Passes, is_quiet}
use async_tcp.System.Unread.Reopened.{left_by, accepted-Carries}
use async_tcp.System.Spec.{absent, next, connect_view, Shows, shows_absent, shows_session, Follows}

module _ {l : Lwip} (laws : PbufLaws l) where
  -- An attempt with a control block.
  start-Shows :
      (fresh pcb ip port : ℕ) (s : Statics) (t : Client) (w : World)
      → pcb ≢ null
      → let m' = left_by (start l fresh pcb ip port s t w) in
        (cs' : List Cell) × Shows m'
          (connect_view (is_ok (verdict l fresh pcb ip port s t w)) absent)
          cs'
        × (erase_all cs' m'.world.mem ≡ w.mem)
  start-Shows fresh pcb ip port s t w some_pcb =
      let same = start-mem laws fresh pcb ip port s t w some_pcb in
      elim (Bool-cases (is_ok (verdict l fresh pcb ip port s t w))) [
        | inr bad ↦
            let (_, gone, _, _) = start-leak l fresh pcb ip port s t w bad in
            ([], rw bad (shows_absent gone), same)
        | inl good ↦
            let (h, none_held, at) = accepted-Carries l fresh pcb ip port s t w some_pcb good in
            (h.works.cells, rw good (shows_session h at), rw none_held same)
      ]

  connecting-Follows :
      (fresh : Ptr) (ip port : ℕ) (m : System)
      → m.client.ctx ≡ none
      → Follows l (connecting fresh ip port) m absent []
  unfolding handle next
  connecting-Follows fresh ip port m e =
      elim (ts_connect-cases l fresh ip port m.statics m.client m.world) [
        | inl (c, here, _) ↦ absurd (ground (arith, e, here))
        | inr (inl (_, no_pcb, r)) ↦ (
          left_by (ts_connect l fresh ip port m.statics m.client m.world),
          refl,
          ([], rw (r, no_pcb) (shows_absent e), rw r refl),
        )
        | inr (inr (_, some_pcb, r)) ↦
            let w = log (new_pcb (l.tcp_new m.world.calls)) m.world in
            let here : (l.tcp_new m.world.calls == null) ≡ false = ground (arith, some_pcb) in
            let (cs', shows, same) = start-Shows fresh _ ip port m.statics m.client w some_pcb in
            (
              left_by (start l fresh _ ip port m.statics m.client w),
              rw r refl,
              (cs', rw here shows, same),
            )
      ]

  quiet-Follows :
      (ev : Event) (m : System)
      → is_quiet ev ≡ true
      → Legal ev m
      → m.client.ctx ≡ none
      → (m' : System) × (handle l ev m ≡ some m')
        × ((cs' : List Cell) × Shows m' absent cs' × (erase_all cs' m'.world.mem ≡ m.world.mem))
  quiet-Follows ev m quiet legal e =
      let (w', returns, (mem, _)) = quiet-Passes l ev m quiet (inl e) legal in
      (record m { world = w' }, returns, ([], shows_absent e, mem))

  pub absent-Follows :
      (ev : Event) (m : System) → m.client.ctx ≡ none → Legal ev m → Follows l ev m absent []
  unfolding handle stop shutdown next
  absent-Follows (connecting fresh ip port) m e legal = connecting-Follows fresh ip port m e
  absent-Follows stopping m e legal = (m, rw e refl, ([], shows_absent e, refl))
  absent-Follows shutting_down m e legal = (m, rw e refl, ([], shows_absent e, refl))
  absent-Follows (configuring set) m e legal =
      (record m { client = set m.client }, refl, ([], shows_absent (legal ∙ e), refl))
  absent-Follows (consuming n) m e (_, (c, here)) = absurd (ground (arith, e, here))
  absent-Follows (receiving tpcb ds err) m e (c, here, _) = absurd (ground (arith, e, here))
  absent-Follows (networking w) m e legal = (record m { world = w }, refl, ([], shows_absent e, tt))
  absent-Follows (writing bytes) m e legal = quiet-Follows (writing bytes) m refl legal e
  absent-Follows (sending bytes) m e legal = quiet-Follows (sending bytes) m refl legal e
  absent-Follows (queuing bytes) m e legal = quiet-Follows (queuing bytes) m refl legal e
  absent-Follows (setting_no_delay no_delay) m e legal =
      quiet-Follows (setting_no_delay no_delay) m refl legal e
  absent-Follows (keeping_alive idle_sec intv_sec count) m e legal =
      quiet-Follows (keeping_alive idle_sec intv_sec count) m refl legal e
  absent-Follows (failing err) m e legal = quiet-Follows (failing err) m refl legal e
  absent-Follows polling m e legal = quiet-Follows polling m refl legal e
  absent-Follows (connected pcb err) m e legal = quiet-Follows (connected pcb err) m refl legal e
  absent-Follows (sent tpcb len) m e legal = quiet-Follows (sent tpcb len) m refl legal e
