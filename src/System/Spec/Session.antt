-- ===== src/System/Spec/Session.antt =====
-- Events on a client that has a context, against the account kept of it.
use async_tcp.Common.{
  ℕ, arith, ap, sym, ◌∙◌, ◌≢◌, ◌≡◌, refl, inl, inr, Bool, true, false, not, some, List, [], ◌++◌,
  append-nil, drop, Bool-cases, ◌==◌,
}
use async_tcp.Lwip.{null, Lwip}
use async_tcp.Lwip.Chains.{PbufLaws}
use async_tcp.Client.Connection.{stop}
use async_tcp.Client.Ending.{shutdown-ctx}
use async_tcp.Client.Memory.{shutdown-mem}
use async_tcp.Context.Lifecycle.{close}
use async_tcp.Context.Lifecycle.Closing.{close-Closed, close-pcb}
use async_tcp.System.{
  System, Event, connecting, stopping, shutting_down, configuring, consuming, writing, sending,
  queuing, setting_no_delay, keeping_alive, receiving, failing, polling, connected, sent,
  networking, handle, Legal,
}
use async_tcp.System.Valid.{close-empty}
use async_tcp.System.Phases.{
  Phase, idle, linked, parted, phase, phase_of, Edge, accept, refuse, part, stop_idle, stop_parted,
  clear, keep,
}
use async_tcp.System.Phases.Refines.{handle-Edge}
use async_tcp.System.Unread.{Carries, delivered, asked, StaysOpen}
use async_tcp.System.Unread.Single.{handle-Becomes}
use async_tcp.System.Spec.{session, next, accepts, view_phase, shows_absent, shows_session, Follows}

-- Only stopping and shutting down move a client that has a context.
Edge-stays : {ev : Event} {p q : Phase} → Edge ev p q → StaysOpen ev → p ≢ idle → q ≡ p
Edge-stays accept stays some_p = absurd (some_p refl)
Edge-stays refuse stays some_p = refl
Edge-stays part (stays, _) some_p = absurd (stays refl)
Edge-stays stop_idle stays some_p = refl
Edge-stays stop_parted stays some_p = refl
Edge-stays clear (_, stays) some_p = absurd (stays refl)
Edge-stays (keep _) stays some_p = refl

view_phase-ne-idle : (b : Bool) (xs : List ℕ) → view_phase (session b xs) ≢ idle
view_phase-ne-idle true xs e = cc
view_phase-ne-idle false xs e = cc

next-session :
    (ev : Event) (b accepted : Bool) (xs : List ℕ)
    → StaysOpen ev
    → next accepted ev (session b xs) ≡ session b (drop (asked ev) (xs ++ delivered ev))
unfolding next
next-session (connecting fresh ip port) b accepted xs stays = rw append-nil refl
next-session stopping b accepted xs (stays, _) = absurd (stays refl)
next-session shutting_down b accepted xs (_, stays) = absurd (stays refl)
next-session (configuring set) b accepted xs stays = rw append-nil refl
next-session (consuming n) b accepted xs stays = rw append-nil refl
next-session (writing bytes) b accepted xs stays = rw append-nil refl
next-session (sending bytes) b accepted xs stays = rw append-nil refl
next-session (queuing bytes) b accepted xs stays = rw append-nil refl
next-session (setting_no_delay no_delay) b accepted xs stays = rw append-nil refl
next-session (keeping_alive idle_sec intv_sec count) b accepted xs stays = rw append-nil refl
next-session (receiving tpcb ds err) b accepted xs stays = refl
next-session (failing err) b accepted xs stays = rw append-nil refl
next-session polling b accepted xs stays = rw append-nil refl
next-session (connected pcb err) b accepted xs stays = rw append-nil refl
next-session (sent tpcb len) b accepted xs stays = rw append-nil refl
next-session (networking w) b accepted xs stays = rw append-nil refl

linked-some :
    (m : System) {xs : List ℕ} (h : Carries m xs)
    → phase m ≡ linked
    → (h.context.pcb == null) ≡ false
linked-some m h at = elim (Bool-cases (h.context.pcb == null)) [
  | inl gone ↦ absurd (ground (arith, sym (ap phase_of h.here) ∙ at, gone))
  | inr some_pcb ↦ some_pcb
]

parted-null :
    (m : System) {xs : List ℕ} (h : Carries m xs)
    → phase m ≡ parted
    → (h.context.pcb == null) ≡ true
parted-null m h at = elim (Bool-cases (h.context.pcb == null)) [
  | inl gone ↦ gone
  | inr some_pcb ↦ absurd (ground (arith, sym (ap phase_of h.here) ∙ at, some_pcb))
]

pub session-pcb :
    (m : System) (b : Bool) {xs : List ℕ} (h : Carries m xs)
    → phase m ≡ view_phase (session b xs)
    → (h.context.pcb == null) ≡ not b
session-pcb m true h at = linked-some m h at
session-pcb m false h at = parted-null m h at

module _ {l : Lwip} (laws : PbufLaws l) where
  pub staying-Follows :
      (ev : Event) (m : System) (b : Bool) (xs : List ℕ) (h : Carries m xs)
      → phase m ≡ view_phase (session b xs)
      → StaysOpen ev
      → Legal ev m
      → Follows l ev m (session b xs) h.works.cells
  staying-Follows ev m b xs h at stays legal =
      let (m', returns, (h', bes)) = handle-Becomes laws ev m stays legal h in
      let edge = handle-Edge l ev m m' legal returns in
      let kept : phase m' ≡ phase m =
        Edge-stays edge stays (λ e. view_phase-ne-idle b xs (sym at ∙ e)) in
      (
        m',
        returns,
        (
          h'.works.cells,
          rw (next-session ev b (accepts l ev m) xs stays) (shows_session h' (kept ∙ at)),
          bes,
        ),
      )

  pub stopping-Follows :
      (m : System) (b : Bool) (xs : List ℕ) (h : Carries m xs)
      → phase m ≡ view_phase (session b xs)
      → Follows l stopping m (session b xs) h.works.cells
  unfolding handle stop next close
  stopping-Follows m true xs h at =
      let c = h.context in
      let some_pcb = linked-some m h at in
      let (works, none_left, none_unread) = close-empty laws c m.world some_pcb h.works in
      let done =
        close-Closed laws c m.world h.works.buffer h.works.cells (ground (arith, some_pcb))
          h.works.here h.works.holds in
      let client' = record m.client { ctx = some (close l c m.world).1 } in
      (
        record m { client = client'; world = (close l c m.world).2 },
        rw h.here refl,
        (
          works.cells,
          shows_session
              (record {
                context = (close l c m.world).1;
                here = refl;
                works = works;
                same = none_unread;
              })
              (rw (close-pcb l c m.world) refl),
          rw none_left done.mem,
        ),
      )
  stopping-Follows m false xs h at =
      let gone = parted-null m h at in
      (
        record m { client = record m.client { ctx = some h.context } },
        rw h.here (rw gone refl),
        (
          h.works.cells,
          shows_session
              (record { context = h.context; here = refl; works = h.works; same = h.same })
              (rw gone refl),
          refl,
        ),
      )

  pub shutting_down-Follows :
      (m : System) (b : Bool) (xs : List ℕ) (h : Carries m xs)
      → Follows l shutting_down m (session b xs) h.works.cells
  unfolding handle next
  shutting_down-Follows m b xs h = (
    _,
    refl,
    (
      [],
      shows_absent (shutdown-ctx l m.client m.world),
      shutdown-mem laws m.client m.world h.context h.works.buffer h.works.cells h.here h.works.here
          h.works.holds,
    ),
  )
