-- ===== src/System/Window/Runs.antt =====
-- The receive windows over a run, against what was delivered in it.
use async_tcp.Common.{
  ◌+◌, ◌≤◌, refl, sym, ◌∙◌, List, [], arith, some-injective, length, length-append,
}
use async_tcp.Lwip.{World, Lwip}
use async_tcp.Lwip.Chains.{Cell, PbufLaws}
use async_tcp.Lwip.Credit.{credited}
use async_tcp.Client.{Statics, new_client}
use async_tcp.System.{System}
use async_tcp.System.Trace.{Trace, empty, step, events, initial}
use async_tcp.System.Unread.{delivered, all_delivered}
use async_tcp.System.Spec.{absent, accepts, answered, replay, Shows, shows_absent}
use async_tcp.System.Spec.Refines.{handle-Follows}
use async_tcp.System.Window.{unread_count, AllLeaveWindow, next-count, handle-credited}

module _ {l : Lwip} (laws : PbufLaws l) where
  credits :
      (s : Statics) (w : World) (m : System) (run : Trace l (initial s w) m)
      → AllLeaveWindow run
      → ((cs : List Cell) × Shows m (replay (answered run) absent) cs)
        × (credited m.world.calls + unread_count (replay (answered run) absent)
            ≤ credited w.calls + length (all_delivered (events run)))
  unfolding new_client
  credits s w m empty leave = (([], shows_absent refl), omega arith)
  credits s w m' (step {m} run ev legal returns) (leaves, leave) =
      let ((cs, shows), few) = credits s w m run leave in
      let (m1, gives, (cs1, shows1, _)) = handle-Follows laws ev m shows legal in
      let some_more = handle-credited laws ev m m' shows legal leaves returns in
      let v = replay (answered run) absent in
      (
        (cs1, rw⁻¹ (some-injective _ _ (sym gives ∙ returns)) shows1),
        omega (
          arith,
          few,
          some_more,
          next-count (accepts l ev m) ev v,
          length-append (all_delivered (events run)) (delivered ev),
        ),
      )

  -- Over any run of legal events of a new client, with any number of connections: what is given back
  -- to the receive windows with `tcp_recved` and what the account of the run says is unread are
  -- together at most what was given back at first and what was delivered since. The peers are never
  -- told of more room than reading made. What lwIP does by itself gives nothing back.
  pub trace-credited :
      (s : Statics) (w : World) (m : System) (run : Trace l (initial s w) m)
      → AllLeaveWindow run
      → credited m.world.calls + unread_count (replay (answered run) absent)
        ≤ credited w.calls + length (all_delivered (events run))
  trace-credited s w m run leave = (credits s w m run leave).1
