-- ===== src/Writer/Adds.antt =====
-- What `writeData` adds to the bytes that lwIP has queued, for its control block and for others.
use async_tcp.Common.{
  ℕ, ◌<◌, ◌≡◌, refl, sym, ap, ◌∙◌, some-injective, ◌≢◌, inl, inr, Bool, true, false, some, List, [],
  ◌∷◌, append-nil, arith, ◌==◌, length, size_mod, drop, Bool-cases, if◌then◌else◌,
}
use mathlib.Core.Path.{subst}
use async_tcp.Lwip.{Ptr, null, World, log, Call, write, output, Lwip}
use async_tcp.Writer.{Writer, write_data}
use async_tcp.Writer.Chunks.{flag, after_writes, End, all, full, refused}
use async_tcp.Writer.Send.{write_data-Offered}
use async_tcp.Writer.Queued.{queued, Queues, Adds, queued-Adds, write_data-Queues}

module _ (l : Lwip) (pcb q : Ptr) (other : (pcb == q) ≡ false) where
  queued-other :
      (c : List ℕ) (f : ℕ) (calls : List Call)
      → queued l q (write pcb c f ∷ calls) ≡ queued l q calls
  queued-other c f calls = rw other refl

  after_writes-other :
      (chunks : List (List ℕ)) (rest : List ℕ) (calls : List Call)
      → queued l q (after_writes pcb rest chunks calls) ≡ queued l q calls
  after_writes-other [] rest calls = refl
  after_writes-other (c ∷ chunks) rest calls =
      after_writes-other chunks (drop (length c) rest) (write pcb c (flag rest c) ∷ calls)
      ∙ queued-other c (flag rest c) calls

  End-other :
      (unsent : List ℕ) (calls calls' : List Call) (done : Bool)
      → End l pcb unsent calls done calls'
      → queued l q calls' ≡ queued l q calls
  End-other unsent calls calls' done (all d u c) = ap (queued l q) c
  End-other unsent calls calls' done (full d u e c) = ap (queued l q) c
  End-other unsent calls calls' done (refused c more d u sized bad e) =
      ap (queued l q) e ∙ queued-other c (flag unsent c) calls

  flushed-other :
      (done : Bool) (w : World)
      → queued l q (if done then log (output pcb) w else w).calls ≡ queued l q w.calls
  flushed-other true w = refl
  flushed-other false w = refl

Queues-Adds :
    (l : Lwip) (pcb : Ptr) (bytes : List ℕ) (w : World) (r : ℕ × World)
    → Queues l pcb bytes w r
    → Adds l pcb bytes w.calls r.1.calls
Queues-Adds l pcb bytes w (n, w') (sent, grown, inl (_, whole)) =
    (sent, [], sym (append-nil sent ∙ whole), grown)
Queues-Adds l pcb bytes w (n, w') (sent, grown, inr (_, (unsent, split, _))) =
    (sent, unsent, split, grown)

module _ {K : Type 0} (l : Lwip) (t : Writer K) (bytes : List ℕ) (small : length bytes < size_mod)
    (mss_pos : 0 < l.tcp_mss) (mss : l.tcp_mss < 65536) where
  -- With a control block and data.
  offered-Adds :
      (w : World)
      → t.pcb ≢ null
      → 0 < length bytes
      → (r : ℕ × World) × (write_data l t (some bytes) w ≡ some r)
        × ((q : Ptr) → Adds l q bytes w.calls r.1.calls)
  offered-Adds w some_pcb pos =
      let (r, run, queues) = write_data-Queues l t bytes small mss_pos mss some_pcb pos w in
      let (done, w', run', o, _, _) =
        write_data-Offered l t bytes small mss_pos mss some_pcb w pos in
      let same = some-injective _ _ (sym run ∙ run') in
      (
        r,
        run,
        λ q. elim (Bool-cases (t.pcb == q)) [
          | inl own ↦
              let it : t.pcb ≡ q = ground (arith, own) in
              subst (λ (p : Ptr). Adds l p bytes w.calls r.1.calls) it
                (Queues-Adds l t.pcb bytes w r queues)
          | inr other ↦ queued-Adds l q bytes w.calls r.1.calls (
              ap (λ (v : ℕ × World). queued l q v.1.calls) same
              ∙ flushed-other l t.pcb q other done w'
              ∙ End-other l t.pcb q other o.unsent _ w'.calls done o.ends
              ∙ after_writes-other l t.pcb q other o.chunks bytes w.calls)
        ],
      )

  -- A call of `writeData` that returns adds the front of its data to what its control block has
  -- queued, and nothing to any other.
  pub write_data-Adds :
      (w w' : World) (n : ℕ)
      → write_data l t (some bytes) w ≡ some (n, w')
      → (q : Ptr) → Adds l q bytes w.calls w'.calls
  unfolding write_data
  write_data-Adds w w' n returns q = elim (Bool-cases (t.pcb == null)) [
    | inl gone ↦ nothing w w' n (rw gone refl) returns q
    | inr here ↦ elim (Bool-cases (length bytes == 0)) [
      | inl no_bytes ↦ nothing w w' n (rw (here, no_bytes) refl) returns q
      | inr some_bytes ↦
          let (r, run, adds) = offered-Adds w (ground (arith, here)) (ground (arith, some_bytes)) in
          let same = ap (λ (v : ℕ × World). v.1.calls) (some-injective _ _ (sym run ∙ returns)) in
          subst (λ (c : List Call). Adds l q bytes w.calls c) same (adds q)
    ]
  ]
    where
      nothing :
          (w w' : World) (n : ℕ)
          → write_data l t (some bytes) w ≡ some (0, w)
          → write_data l t (some bytes) w ≡ some (n, w')
          → (q : Ptr) → Adds l q bytes w.calls w'.calls
      nothing w w' n none_done returns q = queued-Adds l q bytes w.calls w'.calls (
          ap (λ (v : ℕ × World). queued l q v.1.calls)
            (some-injective _ _ (sym returns ∙ none_done)))
