-- ===== src/Examples/Retrying.antt =====
-- A caller that repeats its request after the send buffer filled up.
use async_tcp.Common.{ℕ, ◌≡◌, refl, List, [], ◌∷◌}
use async_tcp.Lwip.{World, Call, write, run, log, flag_more, Lwip}
use async_tcp.Lwip.Refcount.{sample}
use async_tcp.Writer.{write_data, write_loop, get_optimal_chunk_size, available_for_write}
use async_tcp.Writer.Queued.{queued, Repeated, returns, again}
use async_tcp.Examples.{lwip, world}
use async_tcp.Examples.Writing.{writer, six}

-- The send buffer has room for four bytes, then for none, and for more after the next event.
abbrev draining : Lwip
draining = record lwip { tcp_sndbuf = room }
  where
    room : List Call → ℕ → ℕ
    room [] p = 4
    room (write q c f ∷ calls) p = 0
    room (_ ∷ calls) p = 100

attempts : (w' : World) × Repeated draining writer six 1 world w'
unfolding write_data write_loop get_optimal_chunk_size available_for_write sample
attempts = (
  _,
  again {w2 = log (run 4) (log (write 7 (1 ∷ 2 ∷ 3 ∷ 4 ∷ []) flag_more) world)} refl refl
      (returns refl),
)

twice : queued draining 7 attempts.0.calls ≡ 1 ∷ 2 ∷ 3 ∷ 4 ∷ 1 ∷ 2 ∷ 3 ∷ 4 ∷ 5 ∷ 6 ∷ []
unfolding attempts write_data write_loop get_optimal_chunk_size available_for_write sample
twice = refl
