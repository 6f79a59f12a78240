-- ===== src/RxBuffer/Consume.antt =====
-- `_fastPath` and `_slowPath`: the loop, and how the two agree.
use async_tcp.Common.{
  ℕ, zero, suc, ◌+◌, ◌-◌, ◌<◌, ◌≤◌, ◌≡◌, refl, ap, ◌∙◌, true, false, inl, inr, some, List, [], ◌∷◌,
  arith, ◌==◌, ltb, ltb→lt, lt→ltb, length, sub_size, add_size, size_mod, Bool-cases, not, ◌&&◌,
}
use native.Mathlib.Nat.{add_assoc, zero-add}
use async_tcp.Lwip.{Ptr, null, Store, erase, Lwip}
use async_tcp.Lwip.Chains.{Cell, addr, node, PbufLaws, length-le-live}
use async_tcp.RxBuffer.{RxBuffer, fast_path, slow_loop, slow_path}
use async_tcp.RxBuffer.Stream.{IsCursor-zero, Holds, head-ne-null, free_lem}
use async_tcp.RxBuffer.Took.{Took, Took-zero, Took-end, Took-part, Took-segment}

module _ {K : Type 0} where
  -- The lengths and sums on the way do not wrap.
  segment_facts :
      (b : RxBuffer K) (s : Store) (a : Ptr) (bs : List ℕ) (cs : List Cell) (n acc : ℕ)
      → Holds b s ((a, bs) ∷ cs)
      → 0 < n
      → acc + n < size_mod
      → ((ltb 0 n && not (b.head == null)) ≡ true)
        × (s.cell b.head ≡ some (node bs (addr cs) 1))
        × (sub_size (length bs) b.offset ≡ length bs - b.offset)
        × (add_size acc n ≡ acc + n)
  segment_facts b s a bs cs n acc h pos small =
      let (ne, e) = head-ne-null b s a bs cs h in
      let (_, _, _, _, short, _) = h.chain in
      (ground arith, e, omega (arith, h.cursor), omega arith)

  slow_loop-stop :
      (l : Lwip) (fuel n acc : ℕ) (b : RxBuffer K) (s : Store)
      → 0 < fuel
      → (ltb 0 n && not (b.head == null)) ≡ false
      → slow_loop l fuel n acc b s ≡ some (acc + 0, b, s)
  unfolding slow_loop
  slow_loop-stop l zero n acc b s f stop = absurd (omega arith)
  slow_loop-stop l (suc fuel) n acc b s f stop =
      rw stop (ap (λ (k : ℕ). some (k, b, s)) (omega arith))

  module _ {l : Lwip} (laws : PbufLaws l) where
    -- One round of the loop: a request inside the segment, and one that takes its rest.
    module _ (b : RxBuffer K) (s : Store) (a : Ptr) (bs : List ℕ) (cs : List Cell) (fuel n acc : ℕ)
        (h : Holds b s ((a, bs) ∷ cs)) (pos : 0 < n) (small : acc + n < size_mod) where
      slow_loop-part :
          b.offset + n < length bs
          → slow_loop l (suc fuel) n acc b s ≡ some (acc + n, record b { offset = b.offset + n }, s)
      unfolding slow_loop
      slow_loop-part lt =
          let (go, e, fits, sum) = segment_facts b s a bs cs n acc h pos small in
          let (_, _, _, _, short, _) = h.chain in
          let part : ltb n (length bs - b.offset) ≡ true = lt→ltb _ _ (omega arith) in
          let off : add_size b.offset n ≡ b.offset + n = omega arith in
          rw (go, e) (rw (fits, part, sum, off))

      slow_loop-segment :
          length bs ≤ b.offset + n
          → slow_loop l (suc fuel) n acc b s
            ≡ slow_loop l fuel
                (n - (length bs - b.offset))
                (acc + (length bs - b.offset))
                (record b { head = addr cs; offset = 0 })
                (erase a s)
      unfolding slow_loop
      slow_loop-segment ge =
          let (go, e, fits, _) = segment_facts b s a bs cs n acc h pos small in
          let (_, _, _, _, short, _) = h.chain in
          let avail : ℕ = length bs - b.offset in
          let all : ltb n avail ≡ false = ground (arith, h.cursor) in
          let less : sub_size n avail ≡ n - avail = omega (arith, h.cursor) in
          let more : add_size acc avail ≡ acc + avail = omega (arith, h.cursor) in
          rw (go, e) (rw (fits, all) (rw (free_lem laws b s a bs cs h.head h.chain, less, more)))

    -- The state after the segment under the cursor is used up.
    Holds-next :
        (b : RxBuffer K) (s : Store) (a : Ptr) (bs : List ℕ) (cs : List Cell)
        → Holds b s ((a, bs) ∷ cs)
        → Holds (record b { head = addr cs; offset = 0 }) (erase a s) cs
    Holds-next b s a bs cs h =
        let (_, _, _, _, _, rest) = h.chain in
        record { head = refl; chain = rest; cursor = IsCursor-zero (erase a s) cs rest }

    slow_loop-Took :
        (fuel n acc : ℕ) (b : RxBuffer K) (s : Store) (cs : List Cell)
        → length cs < fuel
        → acc + n < size_mod
        → Holds b s cs
        → (r : ℕ × RxBuffer K × Store) × (slow_loop l fuel n acc b s ≡ some (acc + r.0, r.1, r.2))
          × Took n b s cs r
    slow_loop-Took zero n acc b s cs f small h = absurd (omega arith)
    slow_loop-Took (suc fuel) n acc b s [] f small h =
        let stop : (ltb 0 n && not (b.head == null)) ≡ false = ground (arith, h.head) in
        ((0, b, s), slow_loop-stop l (suc fuel) n acc b s (omega arith) stop, Took-end n b s h)
    slow_loop-Took (suc fuel) zero acc b s (c ∷ cs) f small h = (
      (0, b, s),
      slow_loop-stop l (suc fuel) 0 acc b s (omega arith) refl,
      Took-zero b s (c ∷ cs) h,
    )
    slow_loop-Took (suc fuel) (suc n) acc b s ((a, bs) ∷ cs) f small h =
        elim (Bool-cases (ltb (b.offset + suc n) (length bs))) [
          | inl part ↦
              let lt : b.offset + suc n < length bs = ltb→lt _ _ part in
              (
                (suc n, record b { offset = b.offset + suc n }, s),
                slow_loop-part b s a bs cs fuel (suc n) acc h (omega arith) small lt,
                Took-part (suc n) b s a bs cs h lt,
              )
          | inr all ↦
              let ge : length bs ≤ b.offset + suc n = ground arith in
              let avail : ℕ = length bs - b.offset in
              let (r, run, took) =
                slow_loop-Took fuel (suc n - avail) (acc + avail)
                  (record b { head = addr cs; offset = 0 }) (erase a s) cs (omega arith)
                  (omega (arith, h.cursor)) (Holds-next b s a bs cs h) in
              (
                (avail + r.0, r.1, r.2),
                slow_loop-segment b s a bs cs fuel (suc n) acc h (omega arith) small ge
                    ∙ run
                    ∙ ap (λ (k : ℕ). some (k, r.1, r.2)) (add_assoc acc avail r.0),
                Took-segment (suc n) (suc n - avail) b s a bs cs r (omega (arith, h.cursor))
                    (omega (arith, h.cursor)) took,
              )
        ]

    -- `_slowPath` takes the requested bytes, or all there are, and its loop ends.
    pub slow_path-Took :
        (n : ℕ) (b : RxBuffer K) (s : Store) (cs : List Cell)
        → n < size_mod
        → Holds b s cs
        → (r : ℕ × RxBuffer K × Store) × (slow_path l n b s ≡ some r) × Took n b s cs r
    unfolding slow_path
    slow_path-Took n b s cs small h =
        let (r, run, took) =
          slow_loop-Took (suc s.live) n 0 b s cs (omega (arith, length-le-live s cs h.chain))
            (omega arith) h in
        (r, run ∙ ap (λ (k : ℕ). some (k, r.1, r.2)) (omega arith), took)

    -- On a buffer that holds a chain whose first segment has `n` bytes or more to be read, with
    -- 0 < n, `_fastPath n` and `_slowPath n` have the same outcome.
    pub fast_path-slow_path :
        (n : ℕ) (b : RxBuffer K) (s : Store) (a : Ptr) (bs : List ℕ) (cs : List Cell)
        → Holds b s ((a, bs) ∷ cs)
        → 0 < n
        → b.offset + n ≤ length bs
        → fast_path l n b s ≡ slow_path l n b s
    unfolding fast_path slow_path
    fast_path-slow_path n b s a bs cs h pos le =
        let (ne, e) = head-ne-null b s a bs cs h in
        let (_, live, _, _, short, rest) = h.chain in
        let off : add_size b.offset n ≡ b.offset + n = omega (arith, h.cursor) in
        elim (Bool-cases (b.offset + n == length bs)) [
          | inr part ↦
              rw (slow_loop-part b s a bs cs s.live n 0 h pos (omega arith) (ground arith))
                (rw (e, off) (rw (part, zero-add)))
          | inl all ↦
              let avail : ℕ = length bs - b.offset in
              let same : n ≡ avail = ground (arith, h.cursor) in
              let stop : (ltb 0 (n - avail) && not (addr cs == null)) ≡ false = ground arith in
              rw (slow_loop-segment b s a bs cs s.live n 0 h pos (omega arith) (ground arith)) (
                rw (e, off)
                  (rw
                    (
                      all,
                      free_lem laws (record b { offset = b.offset + n }) s a bs cs h.head h.chain,
                    )
                    (rw
                      (slow_loop-stop l s.live (n - avail) (0 + avail)
                        (record b { head = addr cs; offset = 0 }) (erase a s) live stop)
                      (ap (λ (k : ℕ). some (k, record b { head = addr cs; offset = 0 }, erase a s))
                        (omega (arith, same))))))
        ]
