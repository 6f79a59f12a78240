-- ===== src/Writer/Returns.antt =====
-- `writeData` ends, whatever lwIP answers and whatever its limits are.
use async_tcp.Common.{
  ℕ, zero, suc, ◌+◌, ◌<◌, ◌≤◌, ◌≡◌, refl, inl, inr, false, Option, some, List, arith, ltb, ltb→lt,
  ◌==◌, length, take, drop, ◌%◌, Bool-cases, sub_size, add_size, size_mod, if◌then◌else◌,
}
use async_tcp.Lwip.{null, World, log, write, output, is_ok, flag_more, Lwip}
use async_tcp.Lwip.Credit.{credited}
use async_tcp.Writer.{Writer, get_optimal_chunk_size, write_loop, write_data}

module _ {K : Type 0} (l : Lwip) (t : Writer K) where
  -- A call that returns and leaves the pbufs, the control blocks and the receive windows alone.
  abbrev pub Returns : World → Option (ℕ × World) → Type 0
  Returns w o =
      (r : ℕ × World) × (o ≡ some r)
      × (r.1.mem ≡ w.mem)
      × (r.1.pcbs ≡ w.pcbs)
      × (credited r.1.calls ≡ credited w.calls)

  optimal-fits : (n : ℕ) (w : World) → get_optimal_chunk_size l t n w.calls ≤ n
  unfolding get_optimal_chunk_size
  optimal-fits n w = omega arith

  some_room : (k : ℕ) → (k == 0) ≡ false → 0 < k
  some_room k e = ground arith

  module _ (bytes : List ℕ) (small : length bytes < size_mod) where
    write_loop-Returns :
        (fuel total : ℕ) (w : World)
        → total ≤ length bytes
        → length bytes < total + fuel
        → Returns w (write_loop l fuel t bytes total w)
    unfolding write_loop
    write_loop-Returns zero total w le enough = absurd (omega arith)
    write_loop-Returns (suc fuel) total w le enough =
        let size : ℕ = length bytes in
        let left : ℕ = sub_size size total in
        let k : ℕ = get_optimal_chunk_size l t left w.calls in
        let c : List ℕ = take (k % 65536) (drop total bytes) in
        let f : ℕ = if ltb (add_size total k) size then flag_more else 0 in
        let w1 : World = log (write t.pcb c f) w in
        elim (Bool-cases (ltb total size)) [
          | inr over ↦ rw over ((total, w), refl, refl, refl, refl)
          | inl lt ↦ elim (Bool-cases (k == 0)) [
            | inl none_fit ↦ rw (lt, none_fit) ((0, w), refl, refl, refl, refl)
            | inr fit ↦ elim (Bool-cases (is_ok (l.tcp_write w.calls t.pcb c f))) [
              | inr bad ↦ rw (lt, fit, bad) ((0, w1), refl, refl, refl, refl)
              | inl good ↦
                  rw (lt, fit, good)
                    (write_loop-Returns fuel (add_size total k) w1
                      (omega (arith, optimal-fits left w, ltb→lt _ _ lt))
                      (omega (arith, optimal-fits left w, ltb→lt _ _ lt, some_room k fit)))
            ]
          ]
        ]

    -- On any writer, with data of less than 2^32 bytes, `writeData` returns.
    pub write_data-Returns : (w : World) → Returns w (write_data l t (some bytes) w)
    unfolding write_data
    write_data-Returns w = elim (Bool-cases (t.pcb == null)) [
      | inl gone ↦ rw gone ((0, w), refl, refl, refl, refl)
      | inr here ↦ elim (Bool-cases (length bytes == 0)) [
        | inl no_bytes ↦ rw (here, no_bytes) ((0, w), refl, refl, refl, refl)
        | inr some_bytes ↦
            let ((n, w1), run, mem, pcbs, kept) =
              write_loop-Returns (suc (length bytes)) 0 w (omega arith) (omega arith) in
            rw (here, some_bytes)
              (rw run (_, refl, flush-mem n w1 mem, flush-pcbs n w1 pcbs, flush-credited n w1 kept))
      ]
    ]
      where
        flush-mem :
            (n : ℕ) (w1 : World)
            → w1.mem ≡ w.mem
            → (if ltb 0 n then log (output t.pcb) w1 else w1).mem ≡ w.mem
        flush-mem n w1 e = ground (arith, e)

        flush-pcbs :
            (n : ℕ) (w1 : World)
            → w1.pcbs ≡ w.pcbs
            → (if ltb 0 n then log (output t.pcb) w1 else w1).pcbs ≡ w.pcbs
        flush-pcbs n w1 e = ground (arith, e)

        flush-credited :
            (n : ℕ) (w1 : World)
            → credited w1.calls ≡ credited w.calls
            → credited (if ltb 0 n then log (output t.pcb) w1 else w1).calls ≡ credited w.calls
        flush-credited n w1 e = elim (Bool-cases (ltb 0 n)) [
          | inl some_n ↦ rw some_n e
          | inr none_n ↦ rw none_n e
        ]
