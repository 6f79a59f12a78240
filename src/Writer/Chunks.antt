-- ===== src/Writer/Chunks.antt =====
-- A description of what `writeData` offers to lwIP, independent of its loop.
use async_tcp.Common.{
  ℕ, ◌<◌, ◌≤◌, ◌≡◌, sym, ap, ◌∙◌, Bool, true, false, List, [], ◌∷◌, ◌++◌, append_assoc, arith, ltb,
  if◌then◌else◌, length, take, drop, length-take, take-append-drop, All,
}
use mathlib.Core.Path.{subst}
use async_tcp.Lwip.{Ptr, Call, write, is_ok, flag_more, Lwip}

-- The flag of a chunk at the front of the data `rest`.
abbrev pub flag : List ℕ → List ℕ → ℕ
flag rest c = if ltb (length c) (length rest) then flag_more else 0

abbrev pub flatten : List (List ℕ) → List ℕ
flatten [] = []
flatten (c ∷ cs) = c ++ flatten cs

-- The calls that offer the chunks `cs` of `rest`, the newest first, on top of earlier calls.
abbrev pub after_writes : Ptr → List ℕ → List (List ℕ) → List Call → List Call
after_writes pcb rest [] calls = calls
after_writes pcb rest (c ∷ cs) calls =
    after_writes pcb (drop (length c) rest) cs (write pcb c (flag rest c) ∷ calls)

-- lwIP accepts each of them.
abbrev pub Accepted : Lwip → Ptr → List ℕ → List (List ℕ) → List Call → Type 0
Accepted l pcb rest [] calls = Unit {0}
Accepted l pcb rest (c ∷ cs) calls =
    (is_ok (l.tcp_write calls pcb c (flag rest c)) ≡ true)
    × Accepted l pcb (drop (length c) rest) cs (write pcb c (flag rest c) ∷ calls)

-- A chunk is not empty and fits a segment.
abbrev pub IsChunk : Lwip → List ℕ → Type 0
IsChunk l c = (0 < length c) × (length c ≤ l.tcp_mss)

-- How the offering of data ends, with `calls` made and `unsent` left: with nothing left, with a
-- full send buffer, or with a chunk that lwIP refuses.
pub data End (l : Lwip) (pcb : Ptr) (unsent : List ℕ) (calls : List Call) (done : Bool)
    (calls' : List Call) : Type 0 where
  all : done ≡ true → unsent ≡ [] → calls' ≡ calls → End l pcb unsent calls done calls'
  full :
      done ≡ false
      → 0 < length unsent
      → l.tcp_sndbuf calls pcb ≡ 0
      → calls' ≡ calls
      → End l pcb unsent calls done calls'
  refused :
      (c more : List ℕ)
      → done ≡ false
      → unsent ≡ c ++ more
      → IsChunk l c
      → is_ok (l.tcp_write calls pcb c (flag unsent c)) ≡ false
      → calls' ≡ write pcb c (flag unsent c) ∷ calls
      → End l pcb unsent calls done calls'

-- The chunks that lwIP accepted, and the end.
pub record Offered (l : Lwip) (pcb : Ptr) (rest : List ℕ) (calls : List Call) (done : Bool)
    (calls' : List Call) : Type 0 where
  pub chunks : List (List ℕ)
  pub unsent : List ℕ
  pub split : rest ≡ flatten chunks ++ unsent
  pub sized : All (IsChunk l) chunks
  pub accepted : Accepted l pcb rest chunks calls
  pub ends : End l pcb unsent (after_writes pcb rest chunks calls) done calls'

-- One more accepted chunk in front.
pub Offered-cons :
    (l : Lwip) (pcb : Ptr) (rest : List ℕ) (k : ℕ) (calls : List Call) (done : Bool)
    (calls' : List Call)
    → let c = take k rest in
      0 < k
      → k ≤ length rest
      → k ≤ l.tcp_mss
      → is_ok (l.tcp_write calls pcb c (flag rest c)) ≡ true
      → Offered l pcb (drop k rest) (write pcb c (flag rest c) ∷ calls) done calls'
      → Offered l pcb rest calls done calls'
Offered-cons l pcb rest k calls done calls' pos fits mss good o =
    let c : List ℕ = take k rest in
    let size : length c ≡ k = omega (arith, length-take k rest) in
    let made : List Call = write pcb c (flag rest c) ∷ calls in
    let same : drop k rest ≡ drop (length c) rest = ap (λ (n : ℕ). drop n rest) (sym size) in
    record {
      chunks = c ∷ o.chunks;
      unsent = o.unsent;
      split = sym (
          append_assoc c (flatten o.chunks) o.unsent
          ∙ ap (◌++◌ c) (sym o.split)
          ∙ take-append-drop k rest);
      sized = ((omega arith, omega arith), o.sized);
      accepted = (good, subst (λ (d : List ℕ). Accepted l pcb d o.chunks made) same o.accepted);
      ends =
          subst (λ (d : List ℕ). End l pcb o.unsent (after_writes pcb d o.chunks made) done calls')
            same o.ends;
    }

pub take-IsChunk :
    (l : Lwip) (rest : List ℕ) (k : ℕ)
    → 0 < k
    → k ≤ length rest
    → k ≤ l.tcp_mss
    → IsChunk l (take k rest)
take-IsChunk l rest k pos fits mss =
    (omega (arith, length-take k rest), omega (arith, length-take k rest))
