-- ===== src/Writer/Queued.antt =====
-- The bytes that lwIP has queued for a control block, over calls of `writeData`.
use async_tcp.Common.{
  ℕ, suc, ◌<◌, ◌≡◌, refl, sym, ap, ◌∙◌, ◌≢◌, ◌⊎◌, inl, inr, Bool, true, false, some, List, [], ◌∷◌,
  ◌++◌, append_assoc, append-nil, arith, ◌==◌, ◌&&◌, if◌then◌else◌, length, drop, length-append,
  size_mod,
}
use async_tcp.Lwip.{Ptr, null, World, log, Call, write, output, is_ok, Lwip}
use async_tcp.Writer.{Writer, write_data}
use async_tcp.Writer.Chunks.{flag, flatten, after_writes, Accepted, End, all, full, refused}
use async_tcp.Writer.Send.{write_data-Offered}

module _ (l : Lwip) (pcb : Ptr) where
  -- The chunks offered for the control block that lwIP accepted.
  abbrev pub queued : List Call → List ℕ
  queued [] = []
  queued (write p c f ∷ calls) =
      if p == pcb && is_ok (l.tcp_write calls p c f) then queued calls ++ c else queued calls
  queued (_ ∷ calls) = queued calls

  queued-write :
      (c : List ℕ) (f : ℕ) (calls : List Call)
      → queued (write pcb c f ∷ calls)
        ≡ (if is_ok (l.tcp_write calls pcb c f) then queued calls ++ c else queued calls)
  queued-write c f calls = ground arith

  queued-after_writes :
      (chunks : List (List ℕ)) (rest : List ℕ) (calls : List Call)
      → Accepted l pcb rest chunks calls
      → queued (after_writes pcb rest chunks calls) ≡ queued calls ++ flatten chunks
  queued-after_writes [] rest calls h = sym (append-nil (queued calls))
  queued-after_writes (c ∷ chunks) rest calls (good, h) =
      queued-after_writes chunks (drop (length c) rest) (write pcb c (flag rest c) ∷ calls) h
      ∙ ap (λ (q : List ℕ). q ++ flatten chunks) (queued-write c (flag rest c) calls ∙ rw good)
      ∙ append_assoc (queued calls) c (flatten chunks)

  -- How an offer ends, by what is queued: nothing is left, or something is.
  End-queued :
      (unsent : List ℕ) (calls calls' : List Call) (done : Bool)
      → End l pcb unsent calls done calls'
      → (queued calls' ≡ queued calls)
        × (((done ≡ true) × (unsent ≡ [])) ⊎ ((done ≡ false) × (0 < length unsent)))
  End-queued unsent calls calls' done (all d u c) = (ap queued c, inl (d, u))
  End-queued unsent calls calls' done (full d u e c) = (ap queued c, inr (d, u))
  End-queued unsent calls calls' done (refused c more d u (some_bytes, _) bad e) = (
    ap queued e ∙ queued-write c (flag unsent c) calls ∙ rw bad,
    inr (d, omega (arith, ap (λ (xs : List ℕ). length xs) u, length-append c more)),
  )

-- The data, or the front of it, is queued on top of what was.
abbrev pub Adds : Lwip → Ptr → List ℕ → List Call → List Call → Type 0
Adds l pcb bytes calls calls' =
    (sent unsent : List ℕ) × (bytes ≡ sent ++ unsent)
    × (queued l pcb calls' ≡ queued l pcb calls ++ sent)

pub queued-Adds :
    (l : Lwip) (pcb : Ptr) (bytes : List ℕ) (calls calls' : List Call)
    → queued l pcb calls' ≡ queued l pcb calls
    → Adds l pcb bytes calls calls'
queued-Adds l pcb bytes calls calls' e =
    ([], bytes, refl, e ∙ sym (append-nil (queued l pcb calls)))

-- A part of the data, not all of it.
abbrev pub IsPart : List ℕ → List ℕ → Type 0
IsPart bytes sent = (unsent : List ℕ) × (bytes ≡ sent ++ unsent) × (0 < length unsent)

-- What one call of `writeData` queues, with its result.
abbrev pub Queues : Lwip → Ptr → List ℕ → World → ℕ × World → Type 0
Queues l pcb bytes w (n, w') =
    (sent : List ℕ) × (queued l pcb w'.calls ≡ queued l pcb w.calls ++ sent)
    × (((n ≡ length bytes) × (sent ≡ bytes)) ⊎ ((n ≡ 0) × IsPart bytes sent))

module _ {K : Type 0} (l : Lwip) (t : Writer K) (bytes : List ℕ) where
  -- A caller that repeats its request, `k` times in vain, until `writeData` returns its size. Between
  -- two attempts nothing else is queued for the control block.
  pub data Repeated : ℕ → World → World → Type 0 where
    returns :
        {w w' : World} → write_data l t (some bytes) w ≡ some (length bytes, w') → Repeated 0 w w'
    again :
        {k : ℕ} {w w1 w2 w' : World}
        → write_data l t (some bytes) w ≡ some (0, w1)
        → queued l t.pcb w2.calls ≡ queued l t.pcb w1.calls
        → Repeated k w2 w'
        → Repeated (suc k) w w'

  module _ (small : length bytes < size_mod) (mss_pos : 0 < l.tcp_mss) (mss : l.tcp_mss < 65536)
      (some_pcb : t.pcb ≢ null) (pos : 0 < length bytes) where
    -- With a control block, a segment size between 1 and 65535 and data of 1 to 2^32 - 1 bytes, each
    -- call of `writeData` returns, and appends to what lwIP has queued either all of the data, and
    -- then its result is the size, or a part of it that is not all, and then its result is 0.
    pub write_data-Queues :
        (w : World)
        → (r : ℕ × World) × (write_data l t (some bytes) w ≡ some r) × Queues l t.pcb bytes w r
    write_data-Queues w =
        let (done, w', run, o, _, _) =
          write_data-Offered l t bytes small mss_pos mss some_pcb w pos in
        let (same, how) = End-queued l t.pcb o.unsent _ w'.calls done o.ends in
        let grown = same ∙ queued-after_writes l t.pcb o.chunks bytes w.calls o.accepted in
        elim how [
          | inl (d, u) ↦ (
            (length bytes, log (output t.pcb) w'),
            run ∙ rw d refl,
            (
              flatten o.chunks,
              grown,
              inl (refl, sym (o.split ∙ rw u (append-nil (flatten o.chunks)))),
            ),
          )
          | inr (d, more) ↦ (
            (0, w'),
            run ∙ rw d refl,
            (flatten o.chunks, grown, inr (refl, (o.unsent, o.split, more))),
          )
        ]
