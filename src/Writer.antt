-- ===== src/Writer.antt =====
-- src/TcpWriter.cpp and include/TcpWriter.hpp: the writer that hands data to lwIP in chunks.
-- `K` is the type of the closures that the ACK observer can hold.
pub mod Chunks
pub mod Send
pub mod Partial
pub mod Queued
pub mod Adds
pub mod Returns
use async_tcp.Common.{
  ℕ, zero, suc, ◌+◌, ◌%◌, ◌<◌, arith, Bool, Option, none, some, List, [], ◌∷◌, ◌==◌, ltb,
  if◌then◌else◌, not, length, take, drop, add_size, sub_size, min, ◌>>=◌,
}
use async_tcp.Lwip.{Ptr, null, ErrT, is_ok, World, log, Call, write, output, flag_more, Lwip}

pub data CompletionMode : Type 0 where
  acked enqueued : CompletionMode

-- Times are microseconds since boot; `nil_time` is 0.
pub record Writer (K : Type 0) : Type 0 where
  pub pcb : Ptr
  pub data_copy : Option (List ℕ)
  pub acked_bytes : ℕ
  pub queued_bytes : ℕ
  pub total_size : ℕ
  pub write_start_time : ℕ
  pub last_progress_time : ℕ
  pub mode : CompletionMode
  pub ack_cb : Option K

-- Limits that the writer declares; no code uses them.
abbrev pub stall_timeout_us : ℕ
stall_timeout_us = 2000000

abbrev pub high_watermark_pct : ℕ
high_watermark_pct = 70

abbrev pub low_watermark_pct : ℕ
low_watermark_pct = 50

-- The `static_assert` on the watermarks.
watermarks : low_watermark_pct < high_watermark_pct
watermarks = omega arith

abbrev pub max_fragments_per_call : ℕ
max_fragments_per_call = 1

pub get_chunk_size : Lwip → ℕ → ℕ → ℕ
get_chunk_size l remaining send_buffer_free = min (min remaining send_buffer_free) l.tcp_mss

module _ {K : Type 0} where
  unfoldable pub new : Ptr → Writer K
  new pcb = record {
    pcb = pcb;
    data_copy = none;
    acked_bytes = 0;
    queued_bytes = 0;
    total_size = 0;
    write_start_time = 0;
    last_progress_time = 0;
    mode = acked;
    ack_cb = none;
  }

  -- The bytes from the pointer on; `none` is an offset from the null pointer.
  pub get_chunk_data : ℕ → Writer K → Option (List ℕ)
  get_chunk_data size t = t.data_copy >>= λ bytes. some (drop size bytes)

  unfoldable pub set_on_ack_callback : Option K → Writer K → Writer K
  set_on_ack_callback cb t = record t { ack_cb = cb }

  -- `onAckCallback` and `onError` have empty bodies: the observer is not called.
  unfoldable pub on_ack_callback : Writer K → Ptr → ℕ → World → World
  on_ack_callback t pcb len w = w

  unfoldable pub on_error : Writer K → ErrT → World → World
  on_error t error w = w

  module _ (l : Lwip) where
    unfoldable pub available_for_write : Writer K → List Call → ℕ
    available_for_write t calls = if t.pcb == null then 0 else l.tcp_sndbuf calls t.pcb

    unfoldable pub get_optimal_chunk_size : Writer K → ℕ → List Call → ℕ
    unfolding available_for_write
    get_optimal_chunk_size t data_size calls =
        min (min data_size (available_for_write t calls)) l.tcp_mss

    pub can_write_now : Writer K → List Call → Bool
    unfolding available_for_write
    can_write_now t calls = ltb 0 (available_for_write t calls)

    -- The loop of `writeData`, on fuel: the bytes queued, and the world. `tcp_write` takes the
    -- length as a `u16_t`.
    unfoldable pub write_loop : ℕ → Writer K → List ℕ → ℕ → World → Option (ℕ × World)
    write_loop zero t bytes total_queued w = none
    write_loop (suc fuel) t bytes total_queued w =
        let size = length bytes in
        let remaining = sub_size size total_queued in
        let chunk_size = get_optimal_chunk_size t remaining w.calls in
        let chunk = take (chunk_size % 65536) (drop total_queued bytes) in
        let flags = if ltb (add_size total_queued chunk_size) size then flag_more else 0 in
        let err = l.tcp_write w.calls t.pcb chunk flags in
        let w' = log (write t.pcb chunk flags) w in
        let rest = write_loop fuel t bytes (add_size total_queued chunk_size) w' in
        if ltb total_queued size
        then (if chunk_size == 0
            then some (0, w)
            else if not (is_ok err)
            then some (0, w')
            else rest)
        else some (total_queued, w)

    -- `none` is the null pointer. Each round queues a byte at least.
    unfoldable pub write_data : Writer K → Option (List ℕ) → World → Option (ℕ × World)
    write_data t none w = some (0, w)
    write_data t (some bytes) w =
        if t.pcb == null then some (0, w) else if length bytes == 0 then some (0, w) else (do
          (total_queued, w') ← write_loop (suc (length bytes)) t bytes 0 w
          some (total_queued, if ltb 0 total_queued then log (output t.pcb) w' else w'))
