-- ===== src/RxBuffer/Ack.antt =====
-- `_toAck`: the window updates that `tcp_recved` is given.
use async_tcp.Common.{
  ℕ, zero, suc, ◌+◌, ◌-◌, ◌/◌, ◌%◌, ◌<◌, ◌≤◌, ◌≡◌, inl, inr, some, List, [], ◌∷◌, arith, ◌==◌,
  if◌then◌else◌, length, All, Bool-cases, min, sub_size, size_mod,
}
use async_tcp.Lwip.{Ptr, Call, recved, World, log}
use async_tcp.RxBuffer.{RxBuffer, ack_loop, to_ack}

abbrev pub total : List ℕ → ℕ
total [] = 0
total (n ∷ ns) = n + total ns

-- The calls that acknowledge the chunks `ns`, the newest first, on top of earlier calls.
abbrev pub after_acks : Ptr → List ℕ → List Call → List Call
after_acks pcb [] calls = calls
after_acks pcb (n ∷ ns) calls = after_acks pcb ns (recved pcb n ∷ calls)

-- A chunk fits a `u16_t` and acknowledges something.
abbrev pub IsChunk : ℕ → Type 0
IsChunk n = (0 < n) × (n < 65536)

-- The chunks in order: full ones, and what is left.
pub chunks : ℕ → ℕ → List ℕ
chunks zero n = []
chunks (suc fuel) n =
    let rest = chunks fuel (n - min n 65535) in if n == 0 then [] else min n 65535 ∷ rest

pub chunks-total : (fuel n : ℕ) → n ≤ fuel → total (chunks fuel n) ≡ n
unfolding chunks
chunks-total zero n h = omega arith
chunks-total (suc fuel) n h = ground (arith, chunks-total fuel (n - min n 65535))

pub chunks-IsChunk : (fuel n : ℕ) → All IsChunk (chunks fuel n)
unfolding chunks
chunks-IsChunk zero n = tt
chunks-IsChunk (suc fuel) n = ground (arith, chunks-IsChunk fuel (n - min n 65535))

pub length-chunks : (fuel n : ℕ) → n ≤ fuel → length (chunks fuel n) ≡ (n + 65534) / 65535
unfolding chunks
length-chunks zero n h = omega arith
length-chunks (suc fuel) n h = ground (arith, length-chunks fuel (n - min n 65535))

ack_loop-chunks :
    (fuel n : ℕ) (pcb : Ptr) (w : World)
    → n ≤ fuel
    → n < size_mod
    → ack_loop fuel n pcb w ≡ some (record w { calls = after_acks pcb (chunks fuel n) w.calls })
unfolding ack_loop chunks
ack_loop-chunks zero n pcb w h small = ground arith
ack_loop-chunks (suc fuel) n pcb w h small = elim (Bool-cases (n == 0)) [
  | inl done ↦ rw done
  | inr more ↦
      let c : ℕ = min n 65535 in
      let fits : c % 65536 ≡ c = omega arith in
      let less : sub_size n c ≡ n - c = omega arith in
      rw more (
        rw (fits, less)
          (ack_loop-chunks fuel (n - c) pcb (log (recved pcb c) w) (ground arith) (omega arith)))
]

-- `_toAck` makes exactly the calls for these chunks, and its loop ends.
pub to_ack-chunks :
    {K : Type 0} (n : ℕ) (b : RxBuffer K) (w : World)
    → n < size_mod
    → to_ack n b w ≡ some (record w { calls = after_acks b.pcb (chunks n n) w.calls })
unfolding to_ack
to_ack-chunks n b w small = ack_loop-chunks n n b.pcb w (omega arith) small
