-- ===== src/System/Outgoing/Runs.antt =====
-- What runs of a client have lwIP send.
use async_tcp.Common.{
  ℕ, ◌<◌, ◌≡◌, refl, sym, ap, ◌∙◌, inl, List, [], ◌++◌, append-nil, append_assoc,
}
use async_tcp.Lwip.{Ptr, World, Lwip}
use async_tcp.Lwip.Chains.{PbufLaws}
use async_tcp.Writer.Queued.{queued}
use async_tcp.Client.{Statics, new_client}
use async_tcp.System.{System}
use async_tcp.System.Trace.{Trace, empty, step, events, trace-IsValid, initial}
use async_tcp.System.Outgoing.{AllLeave, Sent}
use async_tcp.System.Outgoing.Single.{handle-Sends}

module _ {l : Lwip} (laws : PbufLaws l) (mss_pos : 0 < l.tcp_mss) (mss : l.tcp_mss < 65536) where
  -- Let a segment have between 1 and 65535 bytes. Over any run of legal events of a new client, with
  -- any number of connections, what lwIP has queued for a control block, on top of what it had, is,
  -- event by event and in order, the front of the data that `writeChunk` or `writeData` was given;
  -- every other event adds nothing. What lwIP does by itself has nothing more queued.
  pub trace-Sent :
      (s : Statics) (w : World) (m : System) (q : Ptr)
      → (run : Trace l (initial s w) m) → AllLeave run
      → (sent : List ℕ) × (queued l q m.world.calls ≡ queued l q w.calls ++ sent)
        × Sent (events run) sent
  unfolding new_client
  trace-Sent s w m q empty leave = ([], sym (append-nil (queued l q w.calls)), refl)
  trace-Sent s w m' q (step {m} run ev legal returns) (leaves, leave) =
      let (before, grown, was_sent) = trace-Sent s w m q run leave in
      let v = trace-IsValid laws (inl refl) run in
      let (part, unsent, split, more) =
        handle-Sends laws mss_pos mss ev m m' v legal leaves returns q in
      (
        before ++ part,
        more
            ∙ ap (λ (xs : List ℕ). xs ++ part) grown
            ∙ append_assoc (queued l q w.calls) before part,
        (before, part, unsent, refl, split, was_sent),
      )
