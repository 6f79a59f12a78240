-- ===== src/System/Delivery.antt =====
-- From one client's writes to another's reads, over a network that keeps the order.
use async_tcp.Common.{ℕ, ◌<◌, ◌≤◌, ◌≡◌, sym, ap, ◌∙◌, List, [], ◌++◌, append_assoc, length, All}
use async_tcp.Lwip.{Ptr, World, Lwip}
use async_tcp.Lwip.Chains.{PbufLaws}
use async_tcp.Writer.Queued.{queued}
use async_tcp.Client.{Statics}
use async_tcp.System.{System}
use async_tcp.System.Trace.{Trace, events, initial}
use async_tcp.System.Unread.{Carries, all_delivered, all_asked, StaysOpen}
use async_tcp.System.Unread.Runs.{trace-Left}
use async_tcp.System.Outgoing.{AllLeave, Sent}
use async_tcp.System.Outgoing.Runs.{trace-Sent}

-- What was read, what is unread and what is under way, of what was sent.
abbrev pub Delivers : List ℕ → List ℕ → ℕ → System → Type 0
Delivers sent in_flight n m =
    (read unread : List ℕ) × (sent ≡ read ++ (unread ++ in_flight))
    × (length read ≤ n)
    × Carries m unread

module _ {l1 l2 : Lwip} (laws1 : PbufLaws l1) (laws2 : PbufLaws l2) (mss_pos : 0 < l1.tcp_mss)
    (mss : l1.tcp_mss < 65536) where
  -- Let a new client write over a run of legal events, in which what lwIP does by itself has nothing
  -- more queued, with segments of 1 to 65535 bytes, and a control block that had nothing queued; and
  -- let another client, in a memory and over an lwIP of its own, go through a run of legal events
  -- other than stopping and shutting down, from a context that works and has nothing to read. If what
  -- was delivered to it is the front of what the first one's lwIP has queued for the control block,
  -- then what its application has read, at most what it asked for, what is unread, and what is still
  -- under way are together, in order, the fronts of the data that the first application wrote, event
  -- by event.
  pub written-read :
      (s : Statics) (w : World) (m1 : System) (q : Ptr)
      → (writes : Trace l1 (initial s w) m1) → AllLeave writes
      → queued l1 q w.calls ≡ []
      → {m0 m2 : System} → Carries m0 []
      → (reads : Trace l2 m0 m2) → All StaysOpen (events reads)
      → (in_flight : List ℕ)
      → queued l1 q m1.world.calls ≡ all_delivered (events reads) ++ in_flight
      → (sent : List ℕ) × Sent (events writes) sent
        × Delivers sent in_flight (all_asked (events reads)) m2
  written-read s w m1 q writes leave none_queued h reads stays in_flight network =
      let (sent, grown, was_sent) = trace-Sent laws1 mss_pos mss s w m1 q writes leave in
      let (read, unread, split, few, h') = trace-Left laws2 h reads stays in
      let all : sent ≡ all_delivered (events reads) ++ in_flight =
        ap (λ (xs : List ℕ). xs ++ sent) (sym none_queued) ∙ sym grown ∙ network in
      (
        sent,
        was_sent,
        (
          read,
          unread,
          all ∙ ap (λ (xs : List ℕ). xs ++ in_flight) split ∙ append_assoc read unread in_flight,
          few,
          h',
        ),
      )
