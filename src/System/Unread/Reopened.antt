-- ===== src/System/Unread/Reopened.antt =====
-- What a connection lets the application read when the client has had another one before.
use async_tcp.Common.{
  true, ℕ, ◌≡◌, refl, ap, sym, ◌∙◌, ◌≢◌, inl, inr, Bool-cases, none, some, [], All, arith, Option,
  ◌==◌, some-injective,
}
use async_tcp.Lwip.{Ptr, null, ErrT, is_ok, World, Lwip}
use async_tcp.Lwip.Chains.{PbufLaws}
use async_tcp.RxBuffer.Stream.{stream-empty}
use async_tcp.Context.{Context}
use async_tcp.Client.{Client, Statics, Closure}
use async_tcp.Client.Connection.{ts_connect, start}
use async_tcp.Client.Connecting.{ts_connect-cases, start-leak, start-Wired, verdict}
use async_tcp.System.{System, connecting, handle}
use async_tcp.System.Valid.{with_empty}
use async_tcp.System.Trace.{Trace, events}
use async_tcp.System.Phases.{phase, phase_of, idle, linked}
use async_tcp.System.Phases.Refines.{phase-linked}
use async_tcp.System.Unread.{Carries, all_delivered, all_asked, StaysOpen, Left}
use async_tcp.System.Unread.Runs.{trace-Left}

pub idle-none : (o : Option (Context Closure)) → phase_of o ≡ idle → o ≡ none
idle-none none e = refl
idle-none (some c) e = elim (Bool-cases (c.pcb == null)) [
  | inl gone ↦ absurd (ground (arith, e, gone))
  | inr here ↦ absurd (ground (arith, e, here))
]

-- What an attempt to connect leaves.
abbrev pub left_by : ErrT × Statics × Client × World → System
left_by (res, s, t, w) = record { statics = s; client = t; world = w }

module _ (l : Lwip) where
  -- An accepted attempt gives a context with a control block, and with nothing to read.
  pub accepted-Carries :
      (fresh pcb ip port : ℕ) (s : Statics) (t : Client) (w : World)
      → pcb ≢ null
      → is_ok (verdict l fresh pcb ip port s t w) ≡ true
      → let m = left_by (start l fresh pcb ip port s t w) in
        (h : Carries m []) × (h.works.cells ≡ []) × (phase m ≡ linked)
  accepted-Carries fresh pcb ip port s t w some_pcb good =
      let (c, _, made, wired, (_, own), (b, here, held, listens), _, _) =
        start-Wired l fresh pcb ip port s t w some_pcb good in
      let here' = ap (λ (u : Client). u.ctx) made in
      (
        record {
          context = c;
          here = here';
          works = with_empty wired b here held listens;
          same = stream-empty b _ held;
        },
        refl,
        ap phase_of here' ∙ phase-linked c (ground (arith, own)),
      )

  start-Carries :
      (fresh pcb ip port : ℕ) (s : Statics) (t : Client) (w : World)
      → pcb ≢ null
      → let r = start l fresh pcb ip port s t w in
        phase (left_by r) ≡ linked → Carries (left_by r) []
  start-Carries fresh pcb ip port s t w some_pcb e =
      elim (Bool-cases (is_ok (verdict l fresh pcb ip port s t w))) [
        | inr bad ↦
            let (_, gone, _, _) = start-leak l fresh pcb ip port s t w bad in
            absurd (ground (arith, sym (ap phase_of gone) ∙ e))
        | inl good ↦ (accepted-Carries fresh pcb ip port s t w some_pcb good).0
      ]

  connecting-Carries :
      (fresh : Ptr) (ip port : ℕ) (m m' : System)
      → phase m ≡ idle
      → handle l (connecting fresh ip port) m ≡ some m'
      → phase m' ≡ linked
      → Carries m' []
  unfolding handle
  connecting-Carries fresh ip port m m' free returns joins =
      let same : left_by (ts_connect l fresh ip port m.statics m.client m.world) ≡ m' =
        some-injective _ _ returns in
      elim (ts_connect-cases l fresh ip port m.statics m.client m.world) [
        | inl (c, e, r) ↦ absurd (ground (arith, e, idle-none m.client.ctx free))
        | inr (inl (e, _, r)) ↦
            absurd (ground (arith, ap phase (sym (ap left_by r) ∙ same) ∙ joins, e))
        | inr (inr (_, some_pcb, r)) ↦
            let made = sym (ap left_by r) ∙ same in
            rw⁻¹ made
              (start-Carries fresh _ ip port m.statics m.client _ some_pcb (ap phase made ∙ joins))
      ]

  -- Let a client without a context be connected, and let the attempt give it a context with a control
  -- block. Over any run of legal events from there, other than stopping and shutting down, what the
  -- application consumes and what is still unread are, in order, the bytes delivered in this run: no
  -- byte of an earlier connection is among them, and no more is consumed than was asked for.
  pub reopened-Left :
      (laws : PbufLaws l) (fresh : Ptr) (ip port : ℕ) (m m' : System) {m2 : System}
      → phase m ≡ idle
      → handle l (connecting fresh ip port) m ≡ some m'
      → phase m' ≡ linked
      → (run : Trace l m' m2) → All StaysOpen (events run)
      → Left (all_delivered (events run)) (all_asked (events run)) m2
  reopened-Left laws fresh ip port m m' free returns joins run stays =
      trace-Left laws (connecting-Carries fresh ip port m m' free returns joins) run stays
