-- ===== src/Examples/Pair.antt =====
-- Two clients that connect; one gets a delivery, and then the other.
use async_tcp.Common.{Bool, ◌≡◌, refl, true, false, some, inr, [], ◌∷◌, arith}
use async_tcp.Lwip.{ok}
use async_tcp.Lwip.Separate.{Separate-Chain}
use async_tcp.Lwip.Refcount.{sample}
use async_tcp.RxBuffer.{lwip_receive_callback, received, on_callback}
use async_tcp.Context.Lifecycle
use async_tcp.Context.Lifecycle.{new_context, init_rx_buffer}
use async_tcp.Context.Options
use async_tcp.Context.Events.{receive}
use async_tcp.Client.{new_client}
use async_tcp.Client.Callbacks.{closures, on_receive_callback}
use async_tcp.Client.Connection.{ts_connect, start, opened}
use async_tcp.System.{connecting, receiving, handle}
use async_tcp.System.Spec.{session, next}
use async_tcp.System.Spec.Refines.{Seen}
use async_tcp.System.Pair.{
  Pair, new_pair, side, own, handle_pair, LegalMove, Held, PairTrace, empty, step,
}
use async_tcp.System.Pair.Acting.{Held-unique}
use async_tcp.System.Pair.Runs.{pair-Seen}
use async_tcp.Examples.{lwip, laws, arrived, cells, world, store, store-Separate}
use async_tcp.Examples.Session.{statics, arrived-Chain}

connected_pair : (p : Pair) × PairTrace lwip (new_pair statics world) p
unfolding handle_pair handle ts_connect start opened Lifecycle.connect Options.set_no_delay sample
    new_client
connected_pair = (
  _,
  step (step empty (own true (connecting 100 2 17)) (refl, tt, λ cs cs' h h'. tt) refl)
      (own false (connecting 200 2 17)) (refl, tt, λ cs cs' h h'. tt) refl,
)

holds_none : (is_first : Bool) → Held (side is_first connected_pair.0) []
unfolding connected_pair opened new_context init_rx_buffer
holds_none true = inr (_, _, refl, refl, record { head = refl; chain = tt; cursor = refl })
holds_none false = inr (_, _, refl, refl, record { head = refl; chain = tt; cursor = refl })

-- The first client gets the segment at 3.
first_delivery : LegalMove (own true (receiving 7 arrived ok)) connected_pair.0
unfolding connected_pair opened new_context init_rx_buffer
first_delivery =
    let m = side true connected_pair.0 in
    let m' = side false connected_pair.0 in
    (
      refl,
      (
        _,
        refl,
        λ b cs here held.
            rw (Held-unique m cs [] (inr (_, b, refl, here, held)) (holds_none true)) arrived-Chain,
      ),
      λ cs cs' h h'.
          rw (Held-unique m cs [] h (holds_none true), Held-unique m' cs' [] h' (holds_none false))
            arrived-Chain,
    )

delivered_pair : (p : Pair) × PairTrace lwip (new_pair statics world) p
unfolding connected_pair handle_pair handle opened new_client new_context init_rx_buffer receive
    received on_callback closures lwip_receive_callback on_receive_callback sample
delivered_pair = (_, step connected_pair.1 (own true (receiving 7 arrived ok)) first_delivery refl)

first_holds : Held (side true delivered_pair.0) arrived
unfolding delivered_pair connected_pair opened new_context init_rx_buffer new_client
first_holds =
    inr (_, _, refl, refl, record { head = refl; chain = arrived-Chain; cursor = omega arith })

second_holds : Held (side false delivered_pair.0) []
unfolding delivered_pair connected_pair opened new_context init_rx_buffer new_client
second_holds = inr (_, _, refl, refl, record { head = refl; chain = tt; cursor = refl })

-- Then the second gets the two segments of `cells`.
second_delivery : LegalMove (own false (receiving 7 cells ok)) delivered_pair.0
unfolding delivered_pair connected_pair opened new_context init_rx_buffer new_client
second_delivery =
    let m = side false delivered_pair.0 in
    let m' = side true delivered_pair.0 in
    (
      refl,
      (
        _,
        refl,
        λ b cs here held.
            rw (Held-unique m cs [] (inr (_, b, refl, here, held)) second_holds) store-Separate.0,
      ),
      λ cs cs' h h'.
          rw (Held-unique m cs [] h second_holds, Held-unique m' cs' arrived h' first_holds)
            (Separate-Chain store cells arrived store-Separate),
    )

pair-Seen_example :
    Seen (session true (15 ∷ [])) (side true delivered_pair.0)
    × Seen (session true []) (side false delivered_pair.0)
    × ((p' : Pair) × (handle_pair lwip (own false (receiving 7 cells ok)) delivered_pair.0
          ≡ some p'))
unfolding delivered_pair connected_pair next sample opened new_context init_rx_buffer new_client
pair-Seen_example =
    pair-Seen laws statics world delivered_pair.0 delivered_pair.1
      (own false (receiving 7 cells ok)) second_delivery
