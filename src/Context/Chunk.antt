-- ===== src/Context/Chunk.antt =====
-- include/TcpClientContext.hpp: `writeChunk`, `_calculate_chunk_size` and `_get_write_flags`.
use Prim.Native.Nat.{bit_or}
use native.Mathlib.Nat.{one-le-pow}
use async_tcp.Common.{
  ℕ, ◌+◌, ◌/◌, ◌%◌, ◌^◌, ◌<◌, ◌≤◌, ◌≡◌, ◌⊎◌, ◌↔◌, true, false, not, Option, none, some, List, arith,
  ltb, ◌==◌, if◌then◌else◌, length, take, ◌++◌, min,
}
use async_tcp.Lwip.{null, ErrT, is_ok, World, log, write, output, flag_copy, flag_more, Lwip}
use async_tcp.Context.{Context}
use async_tcp.Context.Events.{Closures, call_error}

-- The shift is one of a signed 32-bit word: `scale` is below 31.
unfoldable pub calculate_chunk_size : {K : Type 0} → Lwip → ℕ → ℕ → Context K → World → ℕ
calculate_chunk_size l remaining scale c w =
    let chunk_size = min (l.tcp_sndbuf w.calls c.pcb) remaining in
    if ltb (2 ^ scale) chunk_size then chunk_size / 2 ^ scale else chunk_size

unfoldable pub get_write_flags : ℕ → ℕ → ℕ
get_write_flags chunk_size remaining =
    if ltb chunk_size remaining then bit_or flag_copy flag_more else flag_copy

module _ {K : Type 0} (l : Lwip) (k : Closures K) where
  -- `none` for the data is the null pointer; `tcp_write` takes the length as a `u16_t`.
  unfoldable pub write_chunk : Option (List ℕ) → Context K → World → Option World
  write_chunk bytes c w =
      if c.pcb == null then call_error k c.error_cb l.err_conn w else elim bytes [
        | none ↦ call_error k c.error_cb l.pico_error_invalid_arg w
        | some bs ↦
            if length bs == 0
            then call_error k c.error_cb l.pico_error_invalid_arg w
            else (let chunk_size = min (l.tcp_sndbuf w.calls c.pcb) (length bs) in
                let chunk = take (chunk_size % 65536) bs in
                let err = l.tcp_write w.calls c.pcb chunk 0 in
                let w' = log (write c.pcb chunk 0) w in
                if chunk_size == 0
                then call_error k c.error_cb l.err_mem w
                else if not (is_ok err)
                then call_error k c.error_cb err w'
                else some (log (output c.pcb) w'))
      ]

  -- What a call of `writeChunk` comes to.
  pub data ChunkResult (bytes : Option (List ℕ)) (c : Context K) (w : World) (cb : K)
      (r : Option World) : Type 0 where
    flushed :
        (chunk rest : List ℕ)
        → bytes ≡ some (chunk ++ rest)
        → length chunk ≡ min (l.tcp_sndbuf w.calls c.pcb) (length (chunk ++ rest))
        → 0 < length chunk
        → is_ok (l.tcp_write w.calls c.pcb chunk 0) ≡ true
        → r ≡ some (log (output c.pcb) (log (write c.pcb chunk 0) w))
        → ChunkResult bytes c w cb r
    reported :
        (e : ErrT) (w' : World)
        → is_ok e ≡ false
        → (w' ≡ w) ⊎ ((chunk : List ℕ) × (w' ≡ log (write c.pcb chunk 0) w))
        → r ≡ k.with_error cb e w'
        → ChunkResult bytes c w cb r

shrink_bounds :
    (p m : ℕ) → 0 < p → let n = if ltb p m then m / p else m in (n ≤ m) × ((n ≡ 0) ↔ (m ≡ 0))
shrink_bounds p m pos = grind arith

-- A chunk fits what is left and the send buffer, and is empty only if one of them is.
pub calculate_chunk_size_bounds :
    {K : Type 0} (l : Lwip) (remaining scale : ℕ) (c : Context K) (w : World)
    → let n = calculate_chunk_size l remaining scale c w in
      (n ≤ remaining)
      × (n ≤ l.tcp_sndbuf w.calls c.pcb)
      × ((n ≡ 0) ↔ ((remaining ≡ 0) ⊎ (l.tcp_sndbuf w.calls c.pcb ≡ 0)))
unfolding calculate_chunk_size
calculate_chunk_size_bounds l remaining scale c w =
    let m : ℕ = min (l.tcp_sndbuf w.calls c.pcb) remaining in
    let (le, (there, back)) = shrink_bounds (2 ^ scale) m (one-le-pow scale 2 (omega arith)) in
    (omega (arith, le), omega (arith, le), (λ e. ground (arith, there e), λ e. back (ground arith)))

-- The data is always copied, and MORE is set exactly if the chunk is not the last.
pub get_write_flags-copy :
    (chunk_size remaining : ℕ)
    → get_write_flags chunk_size remaining
      ≡ flag_copy + (if ltb chunk_size remaining then flag_more else 0)
unfolding get_write_flags
get_write_flags-copy chunk_size remaining = ground arith
