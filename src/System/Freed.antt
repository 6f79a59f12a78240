-- ===== src/System/Freed.antt =====
-- The pbufs at the end: what a client that is destroyed has freed.
use async_tcp.Common.{
  ◌≡◌, refl, sym, ap, ◌∙◌, ◌⊎◌, inl, inr, Bool, false, some, List, [], ◌∷◌, ◌++◌, some-injective,
}
use mathlib.Core.Path.{subst}
use async_tcp.Lwip.{Store, World, Lwip}
use async_tcp.Lwip.Chains.{Cell, PbufLaws, erase_all}
use async_tcp.Lwip.Separate.{erase_all-append}
use async_tcp.Client.{Statics, new_client}
use async_tcp.Client.Connection.{destroy}
use async_tcp.Client.Ending.{destroy-mem}
use async_tcp.System.{
  System, Event, connecting, stopping, shutting_down, configuring, consuming, writing, sending,
  queuing, setting_no_delay, keeping_alive, receiving, failing, polling, connected, sent,
  networking, handle, Legal,
}
use async_tcp.System.Trace.{Trace, empty, step, events, initial}
use async_tcp.System.Unread.{handed, by_itself, TakesOut}
use async_tcp.System.Spec.{
  View, absent, next, accepts, answered, replay, Shows, shows_absent, shows_session,
}
use async_tcp.System.Spec.Refines.{handle-Follows}
use async_tcp.System.Pair.Acting.{Shows-Chain, Shows-elsewhere}

-- What lwIP does by itself leaves the pbufs.
abbrev pub LeavesPbufs : Event → System → Type 0
LeavesPbufs (networking w) m = w.mem ≡ m.world.mem
LeavesPbufs _ m = Unit {0}

abbrev pub AllLeavePbufs : {l : Lwip} {m0 m : System} → Trace l m0 m → Type 0
AllLeavePbufs empty = Unit {0}
AllLeavePbufs (step {m} run ev legal returns) = LeavesPbufs ev m × AllLeavePbufs run

-- The segments that were handed over in a run, whether or not they were kept.
abbrev pub all_handed : List Event → List Cell
all_handed [] = []
all_handed (ev ∷ evs) = all_handed evs ++ handed ev

by_itself-cases : (ev : Event) → ((w : World) × (ev ≡ networking w)) ⊎ (by_itself ev ≡ false)
by_itself-cases (networking w) = inl (w, refl)
by_itself-cases (connecting fresh ip port) = inr refl
by_itself-cases stopping = inr refl
by_itself-cases shutting_down = inr refl
by_itself-cases (configuring set) = inr refl
by_itself-cases (consuming n) = inr refl
by_itself-cases (writing bytes) = inr refl
by_itself-cases (sending bytes) = inr refl
by_itself-cases (queuing bytes) = inr refl
by_itself-cases (setting_no_delay no_delay) = inr refl
by_itself-cases (keeping_alive idle_sec intv_sec count) = inr refl
by_itself-cases (receiving tpcb ds err) = inr refl
by_itself-cases (failing err) = inr refl
by_itself-cases polling = inr refl
by_itself-cases (connected pcb err) = inr refl
by_itself-cases (sent tpcb len) = inr refl

-- A client in the state of an account, whose memory without its segments is what is left of `s`
-- without those that were handed over.
abbrev Rests : Lwip → Event → System → List Cell → System → View → Type 0
Rests l ev m cs m' v =
    (cs' : List Cell) × Shows m' v cs'
    × (erase_all cs' m'.world.mem ≡ erase_all (handed ev) (erase_all cs m.world.mem))

apart :
    (b : Bool) (ds : List Cell) (r r' : Store)
    → b ≡ false
    → TakesOut b ds r r'
    → r' ≡ erase_all ds r
apart b ds r r' e takes = subst (λ (x : Bool). TakesOut x ds r r') e takes

module _ {l : Lwip} (laws : PbufLaws l) where
  networking-Rests :
      (w : World) (m m' : System) {v : View} {cs : List Cell}
      → Shows m v cs
      → w.mem ≡ m.world.mem
      → handle l (networking w) m ≡ some m'
      → Rests l (networking w) m cs m' (next (accepts l (networking w) m) (networking w) v)
  unfolding handle next
  networking-Rests w m m' {v} {cs} shows same returns =
      let there : Shows (record m { world = w }) v cs =
        Shows-elsewhere m.statics w shows (rw same (Shows-Chain shows)) in
      rw (sym (some-injective _ _ returns)) (cs, there, rw same refl)

  handle-Rests :
      (ev : Event) (m m' : System) {v : View} {cs : List Cell}
      → Shows m v cs
      → Legal ev m
      → LeavesPbufs ev m
      → handle l ev m ≡ some m'
      → Rests l ev m cs m' (next (accepts l ev m) ev v)
  handle-Rests ev m m' {v} {cs} shows legal leaves returns = elim (by_itself-cases ev) [
    | inl (w, e) ↦
        subst
          (λ (x : Event).
            LeavesPbufs x m → handle l x m ≡ some m' → Rests l x m cs m' (next (accepts l x m) x v))
          (sym e) (networking-Rests w m m' shows) leaves returns
    | inr not_alone ↦
        let (m1, gives, (cs1, shows1, beside)) = handle-Follows laws ev m shows legal in
        rw⁻¹ (some-injective _ _ (sym gives ∙ returns))
          (cs1, shows1, apart _ _ _ _ not_alone beside)
  ]

  trace-Rests :
      (s : Statics) (w : World) (m : System) (run : Trace l (initial s w) m)
      → AllLeavePbufs run
      → (cs : List Cell) × Shows m (replay (answered run) absent) cs
        × (erase_all cs m.world.mem ≡ erase_all (all_handed (events run)) w.mem)
  unfolding new_client
  trace-Rests s w m empty leave = ([], shows_absent refl, refl)
  trace-Rests s w m' (step {m} run ev legal returns) (leaves, leave) =
      let (cs, shows, same) = trace-Rests s w m run leave in
      let (cs', shows', beside) = handle-Rests ev m m' shows legal leaves returns in
      (
        cs',
        shows',
        beside
            ∙ ap (erase_all (handed ev)) same
            ∙ sym (erase_all-append (all_handed (events run)) (handed ev) w.mem),
      )

  destroy-Shows :
      (m : System) {v : View} {cs : List Cell}
      → Shows m v cs
      → (destroy l m.client m.world).1.mem ≡ erase_all cs m.world.mem
  unfolding destroy
  destroy-Shows m (shows_absent e) = rw e refl
  destroy-Shows m (shows_session h at) =
      rw h.here
        (destroy-mem laws h.context m.world h.works.buffer h.works.cells h.works.here h.works.holds)

  -- Over any run of legal events of a new client, with any number of connections, in which lwIP by
  -- itself leaves the pbufs: if the client is then destroyed, the memory is the one from before the
  -- run without the segments that were handed over, and no other. Each of them is freed, whether or not
  -- it was read, and also when it came with an error.
  pub trace-destroy :
      (s : Statics) (w : World) (m : System) (run : Trace l (initial s w) m)
      → AllLeavePbufs run
      → (destroy l m.client m.world).1.mem ≡ erase_all (all_handed (events run)) w.mem
  trace-destroy s w m run leave =
      let (cs, shows, same) = trace-Rests s w m run leave in destroy-Shows m shows ∙ same
