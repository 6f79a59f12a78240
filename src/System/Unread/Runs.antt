-- ===== src/System/Unread/Runs.antt =====
-- What a run leaves unread.
use async_tcp.Common.{
  ℕ, sym, ap, ◌∙◌, List, [], ◌++◌, append_assoc, append-nil, arith, take, drop, length, length-take,
  take-append-drop, ◌≤◌, ◌≡◌, length-append, All, some-injective,
}
use async_tcp.Lwip.{Lwip}
use async_tcp.Lwip.Chains.{PbufLaws}
use async_tcp.System.{System}
use async_tcp.System.Trace.{Trace, empty, step, events}
use async_tcp.System.Unread.{Carries, delivered, asked, all_delivered, all_asked, StaysOpen, Left}
use async_tcp.System.Unread.Single.{handle-Becomes}

module _ {l : Lwip} (laws : PbufLaws l) where
  -- Over any run of legal events other than stopping and shutting down, from a client whose context
  -- works: the bytes that were unread at first and those delivered since, in order, are the bytes
  -- consumed, at most as many as was asked for, followed by those that are unread now. Whatever else
  -- goes on in between (failed deliveries, errors, polls, acknowledgements, writes, options, refused
  -- attempts to connect, what lwIP does by itself) takes none, adds none and changes no order.
  pub trace-Left :
      {m0 m : System} {unread : List ℕ}
      → Carries m0 unread
      → (run : Trace l m0 m) → All StaysOpen (events run)
      → Left (unread ++ all_delivered (events run)) (all_asked (events run)) m
  trace-Left {unread} h empty stays = ([], unread, append-nil unread, omega arith, h)
  trace-Left {m} {unread} h (step run ev legal returns) (stays, all_stay) =
      let (outs, rest, split, few, h') = trace-Left h run all_stay in
      let (m', moves, (h'', _)) = handle-Becomes laws ev _ stays legal h' in
      let all : List ℕ = rest ++ delivered ev in
      let outs' : List ℕ = take (asked ev) all in
      let rest' : List ℕ = drop (asked ev) all in
      let split' : all ≡ outs' ++ rest' = sym (take-append-drop (asked ev) all) in
      let few' : length outs' ≤ asked ev = omega (arith, length-take (asked ev) all) in
      (
        outs ++ outs',
        rest',
        sym (append_assoc unread (all_delivered (events run)) (delivered ev))
            ∙ ap (λ (xs : List ℕ). xs ++ delivered ev) split
            ∙ append_assoc outs rest (delivered ev)
            ∙ ap (λ (xs : List ℕ). outs ++ xs) split'
            ∙ sym (append_assoc outs outs' rest'),
        omega (arith, few, few', length-append outs outs'),
        rw⁻¹ (some-injective _ _ (sym moves ∙ returns)) h'',
      )
