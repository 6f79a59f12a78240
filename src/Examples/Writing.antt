-- ===== src/Examples/Writing.antt =====
-- The theorems on writers and on `writeChunk` at concrete data, and tests.
use mathlib.Core.Option
use async_tcp.Common.{
  ℕ, ◌≡◌, refl, inl, Bool, false, none, some, List, [], ◌∷◌, arith, if◌then◌else◌,
}
use async_tcp.Lwip.{World, Call, write, output, log, flag_more, Lwip}
use async_tcp.Lwip.Refcount.{sample}
use async_tcp.Writer
use async_tcp.Writer.{Writer, write_loop, write_data}
use async_tcp.Writer.Chunks.{Offered}
use async_tcp.Writer.Send.{write_data-Offered}
use async_tcp.Writer.Partial.{write_data-refused, write_data-zero_after_part}
use async_tcp.Context.{Context}
use async_tcp.Context.{is_timeout}
use async_tcp.Context.Lifecycle.{blank}
use async_tcp.Context.Events.{Closures}
use async_tcp.Examples.{lwip, world}

abbrev pub writer : Writer (Unit {0})
writer = record {
  pcb = 7;
  data_copy = none;
  acked_bytes = 0;
  queued_bytes = 0;
  total_size = 0;
  write_start_time = 0;
  last_progress_time = 0;
  mode = Writer.acked;
  ack_cb = none;
}

abbrev pub six : List ℕ
six = 1 ∷ 2 ∷ 3 ∷ 4 ∷ 5 ∷ 6 ∷ []

write_data-Offered_example :
    (done : Bool) × (w' : World) × (write_data lwip writer (some six) world
      ≡ some ((if done then 6 else 0), (if done then log (output 7) w' else w')))
    × Offered lwip 7 six [] done w'.calls
    × (w'.mem ≡ world.mem)
    × (w'.pcbs ≡ world.pcbs)
unfolding sample
write_data-Offered_example =
    write_data-Offered lwip writer six (omega arith) (omega arith) (omega arith) (λ e. omega arith)
      world (omega arith)

-- Two chunks of four and two bytes.
queued_six :
    Option.map {B = ℕ × List Call} (λ r. (r.0, r.1.calls)) (write_data lwip writer (some six) world)
    ≡ some (6, output 7 ∷ write 7 (5 ∷ 6 ∷ []) 0 ∷ write 7 (1 ∷ 2 ∷ 3 ∷ 4 ∷ []) flag_more ∷ [])
unfolding write_data write_loop Writer.get_optimal_chunk_size Writer.available_for_write sample
queued_six = refl

-- The send buffer takes four bytes, once.
abbrev narrow : Lwip
narrow = record lwip { tcp_sndbuf = room }
  where
    room : List Call → ℕ → ℕ
    room [] p = 4
    room (c ∷ cs) p = 0

-- Four of the six bytes are queued.
zero_after_four :
    write_data narrow writer (some six) world
    ≡ some (0, log (write 7 (1 ∷ 2 ∷ 3 ∷ 4 ∷ []) flag_more) world)
unfolding sample
zero_after_four =
    write_data-zero_after_part narrow writer six (omega arith) (omega arith) (omega arith)
      (λ e. omega arith) world (omega arith) (omega arith) (omega arith) refl refl

none_written : write_data lwip writer none world ≡ some (0, world)
none_written = write_data-refused lwip writer none world (inl refl)

abbrev context : Context (Unit {0})
context = record (blank 100 7) { error_cb = some tt }

abbrev closures : Closures (Unit {0})
closures = record { plain = λ k w. some w; with_error = λ k e w. some w }

-- 4000 ms have passed, over the wrap of the clock.
timeout_wrapped : is_timeout 3000 4294966296 context ≡ false
unfolding is_timeout
timeout_wrapped = refl
