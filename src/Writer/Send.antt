-- ===== src/Writer/Send.antt =====
-- `writeData` round by round, and as a whole.
use async_tcp.Common.{
  ℕ, zero, suc, ◌+◌, ◌-◌, ◌%◌, ◌<◌, ◌≤◌, ◌≡◌, refl, sym, ap, ◌∙◌, ◌≢◌, inl, inr, Bool, true, false,
  not, Option, some, List, [], ◌∷◌, arith, ltb, ltb→lt, lt→ltb, ◌==◌, if◌then◌else◌, length, take,
  drop, length-take, length-drop, drop-drop, drop-length, take-append-drop, Bool-cases, min,
  sub_size, add_size, size_mod,
}
use mathlib.Core.Path.{subst}
use async_tcp.Lwip.{null, World, log, Call, write, output, is_ok, Lwip}
use async_tcp.Writer.{Writer, get_optimal_chunk_size, available_for_write, write_loop, write_data}
use async_tcp.Writer.Chunks.{flag, End, all, full, refused, Offered, Offered-cons, take-IsChunk}

module _ {K : Type 0} (l : Lwip) (t : Writer K) (bytes : List ℕ) where
  -- The size of the next chunk.
  abbrev pub next : ℕ → World → ℕ
  next total w = min (min (length bytes - total) (l.tcp_sndbuf w.calls t.pcb)) l.tcp_mss

  pub write_loop-step :
      (fuel total : ℕ) (w : World)
      → length bytes < size_mod
      → l.tcp_mss < 65536
      → t.pcb ≢ null
      → total < length bytes
      → let k = next total w in
        let rest = drop total bytes in
        let c = take k rest in
        let w' = log (write t.pcb c (flag rest c)) w in
        write_loop l (suc fuel) t bytes total w ≡ (
          if k == 0
          then some (0, w)
          else if not (is_ok (l.tcp_write w.calls t.pcb c (flag rest c)))
          then some (0, w')
          else write_loop l fuel t bytes (total + k) w')
  unfolding write_loop get_optimal_chunk_size available_for_write
  write_loop-step fuel total w small mss some_pcb lt =
      let rest : List ℕ = drop total bytes in
      let k : ℕ = next total w in
      let c : List ℕ = take k rest in
      let here : (t.pcb == null) ≡ false = ground arith in
      let go : ltb total (length bytes) ≡ true = lt→ltb _ _ lt in
      let left : sub_size (length bytes) total ≡ length bytes - total = omega arith in
      let short : k % 65536 ≡ k = omega arith in
      let sum : add_size total k ≡ total + k = omega arith in
      let more : ltb (total + k) (length bytes) ≡ ltb (length c) (length rest) =
        ground (arith, length-take k rest, length-drop total bytes) in
      rw (here, go) (rw left (rw (short, sum) (rw more)))

  -- The loop and the world that it leaves.
  record Sent (total fuel : ℕ) (w : World) : Type 0 where
    done : Bool
    w' : World
    run : write_loop l fuel t bytes total w ≡ some ((if done then length bytes else 0), w')
    offered : Offered l t.pcb (drop total bytes) w.calls done w'.calls
    mem : w'.mem ≡ w.mem
    pcbs : w'.pcbs ≡ w.pcbs

  finished :
      (fuel total : ℕ) (w : World)
      → total ≡ length bytes
      → ltb total (length bytes) ≡ false
      → Sent total (suc fuel) w
  unfolding write_loop
  finished fuel total w e over = record {
    done = true;
    w' = w;
    run = rw over (ap (λ (n : ℕ). some (n, w)) e);
    offered = record {
      chunks = [];
      unsent = drop total bytes;
      split = refl;
      sized = tt;
      accepted = tt;
      ends = all refl (drop-length total bytes (omega arith)) refl;
    };
    mem = refl;
    pcbs = refl;
  }

  -- An offer that ends at once: nothing fits, or lwIP refuses the chunk.
  stopped :
      (fuel total : ℕ) (w w' : World)
      → write_loop l fuel t bytes total w ≡ some (0, w')
      → w'.mem ≡ w.mem
      → w'.pcbs ≡ w.pcbs
      → End l t.pcb (drop total bytes) w.calls false w'.calls
      → Sent total fuel w
  stopped fuel total w w' e mem pcbs end = record {
    done = false;
    w' = w';
    run = e;
    offered = record {
      chunks = [];
      unsent = drop total bytes;
      split = refl;
      sized = tt;
      accepted = tt;
      ends = end;
    };
    mem = mem;
    pcbs = pcbs;
  }

  -- One more accepted chunk in front.
  continued :
      (fuel total : ℕ) (w : World)
      → let k = next total w in
        let rest = drop total bytes in
        let c = take k rest in
        let w' = log (write t.pcb c (flag rest c)) w in
        is_ok (l.tcp_write w.calls t.pcb c (flag rest c)) ≡ true
        → 0 < k
        → total < length bytes
        → write_loop l (suc fuel) t bytes total w ≡ write_loop l fuel t bytes (total + k) w'
        → Sent (total + k) fuel w'
        → Sent total (suc fuel) w
  continued fuel total w good pos lt step r =
      let k : ℕ = next total w in
      let rest : List ℕ = drop total bytes in
      let c : List ℕ = take k rest in
      let made : List Call = write t.pcb c (flag rest c) ∷ w.calls in
      record {
        done = r.done;
        w' = r.w';
        run = step ∙ r.run;
        offered =
            Offered-cons l t.pcb rest k w.calls r.done r.w'.calls pos
              (omega (arith, length-drop total bytes)) (omega arith) good
              (subst (λ (d : List ℕ). Offered l t.pcb d made r.done r.w'.calls)
                (sym (drop-drop k total bytes)) r.offered);
        mem = r.mem;
        pcbs = r.pcbs;
      }

  flush :
      (done : Bool) (w : World)
      → 0 < length bytes
      → let n = if done then length bytes else 0 in
        ◌≡◌ {A = Option (ℕ × World)}
          (some (n, if ltb 0 n then log (output t.pcb) w else w))
          (some (n, if done then log (output t.pcb) w else w))
  flush true w pos = rw (lt→ltb 0 (length bytes) pos)
  flush false w pos = refl

  module _ (small : length bytes < size_mod) (mss_pos : 0 < l.tcp_mss) (mss : l.tcp_mss < 65536)
      (some_pcb : t.pcb ≢ null) where
    write_loop-Sent :
        (fuel total : ℕ) (w : World)
        → total ≤ length bytes
        → length bytes < total + fuel
        → Sent total fuel w
    write_loop-Sent zero total w le enough = absurd (omega arith)
    write_loop-Sent (suc fuel) total w le enough = elim (Bool-cases (ltb total (length bytes))) [
      | inr over ↦ finished fuel total w (ground arith) over
      | inl lt ↦
          let lt' : total < length bytes = ltb→lt _ _ lt in
          let rest : List ℕ = drop total bytes in
          let k : ℕ = next total w in
          let c : List ℕ = take k rest in
          let w1 : World = log (write t.pcb c (flag rest c)) w in
          let long : length rest ≡ length bytes - total = length-drop total bytes in
          let step = write_loop-step fuel total w small mss some_pcb lt' in
          elim (Bool-cases (k == 0)) [
            | inl none_fit ↦
                stopped (suc fuel) total w w (step ∙ rw none_fit) refl refl
                  (full refl (omega arith) (ground arith) refl)
            | inr fit ↦ elim (Bool-cases (is_ok (l.tcp_write w.calls t.pcb c (flag rest c)))) [
              | inr bad ↦ stopped (suc fuel) total w w1 (step ∙ rw (fit, bad)) refl refl (
                  refused c (drop k rest) refl (sym (take-append-drop k rest))
                    (take-IsChunk l rest k (ground arith) (omega (arith, long)) (omega arith)) bad
                    refl)
              | inl good ↦
                  let pos : 0 < k = ground arith in
                  let r : Sent (total + k) fuel w1 =
                    write_loop-Sent fuel (total + k) w1 (omega arith) (omega arith) in
                  continued fuel total w good pos lt' (step ∙ rw (fit, good)) r
            ]
          ]
    ]

    -- With a control block, a segment size between 1 and 65535 and data of 1 to 2^32 - 1 bytes,
    -- `writeData` terminates. It offers lwIP the data in order, in non-empty chunks of at most a
    -- segment, each announced as followed by more exactly if data is left. Either all are accepted,
    -- and it flushes and returns the size; or it stops at a full send buffer or a refused chunk, does not
    -- flush and returns 0, whatever was accepted before.
    pub write_data-Offered :
        (w : World)
        → 0 < length bytes
        → (done : Bool) × (w' : World) × (write_data l t (some bytes) w
            ≡ some
                ((if done then length bytes else 0), (if done then log (output t.pcb) w' else w')))
          × Offered l t.pcb bytes w.calls done w'.calls
          × (w'.mem ≡ w.mem)
          × (w'.pcbs ≡ w.pcbs)
    unfolding write_data
    write_data-Offered w pos =
        let r : Sent 0 (suc (length bytes)) w =
          write_loop-Sent (suc (length bytes)) 0 w (omega arith) (omega arith) in
        let here : (t.pcb == null) ≡ false = ground arith in
        let some_bytes : (length bytes == 0) ≡ false = ground arith in
        (
          r.done,
          r.w',
          rw (here, some_bytes) (rw r.run (flush r.done r.w' pos)),
          r.offered,
          r.mem,
          r.pcbs,
        )
