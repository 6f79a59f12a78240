-- ===== src/Writer/Partial.antt =====
-- `writeData` over a willing lwIP, and over a send buffer that fills up on the way.
use async_tcp.Common.{
  ℕ, zero, suc, ◌<◌, ◌≤◌, ◌≡◌, refl, ap, ◌∙◌, ◌≢◌, ◌⊎◌, Bool, true, false, Option, none, some, List,
  [], ◌∷◌, append-nil, arith, ◌==◌, length, take, length-take, size_mod,
}
use native.Mathlib.Nat.{zero-add}
use async_tcp.Lwip.{null, World, log, Call, write, output, is_ok, flag_more, Lwip}
use async_tcp.Writer.{Writer, write_loop, write_data}
use async_tcp.Writer.Chunks.{flag, flatten, after_writes, End, all, full, refused}
use async_tcp.Writer.Send.{next, write_loop-step, write_data-Offered}

-- A null pointer, a missing control block and an empty request are refused without any call.
pub write_data-refused :
    {K : Type 0} (l : Lwip) (t : Writer K) (bytes : Option (List ℕ)) (w : World)
    → (bytes ≡ none) ⊎ (t.pcb ≡ null) ⊎ (bytes ≡ some [])
    → write_data l t bytes w ≡ some (0, w)
unfolding write_data
write_data-refused l t none w h = refl
write_data-refused l t (some bytes) w h = ground arith

module _ {K : Type 0} (l : Lwip) (t : Writer K) (bytes : List ℕ) (small : length bytes < size_mod)
    (mss_pos : 0 < l.tcp_mss) (mss : l.tcp_mss < 65536) (some_pcb : t.pcb ≢ null) where
  no_stop :
      (unsent : List ℕ) (calls calls' : List Call) (done : Bool)
      → ((h : List Call) → 0 < l.tcp_sndbuf h t.pcb)
      → ((h : List Call) (c : List ℕ) (f : ℕ) → is_ok (l.tcp_write h t.pcb c f) ≡ true)
      → End l t.pcb unsent calls done calls'
      → (done ≡ true) × (unsent ≡ []) × (calls' ≡ calls)
  no_stop unsent calls calls' done room good (all d u c) = (d, u, c)
  no_stop unsent calls calls' done room good (full d u e c) = absurd (omega (arith, room calls))
  no_stop unsent calls calls' done room good (refused c more d u fits e k) =
      absurd (ground (arith, good calls c (flag unsent c)))

  -- With a control block, a segment size between 1 and 65535 and data of 1 to 2^32 - 1 bytes, if
  -- lwIP always has room and accepts every chunk, all of the data is queued, in order, and flushed,
  -- and `writeData` returns the size.
  pub write_data-all :
      (w : World)
      → 0 < length bytes
      → ((h : List Call) → 0 < l.tcp_sndbuf h t.pcb)
      → ((h : List Call) (c : List ℕ) (f : ℕ) → is_ok (l.tcp_write h t.pcb c f) ≡ true)
      → (chunks : List (List ℕ)) × (w' : World) × (write_data l t (some bytes) w
          ≡ some (length bytes, w'))
        × (bytes ≡ flatten chunks)
        × (w'.calls ≡ output t.pcb ∷ after_writes t.pcb bytes chunks w.calls)
  write_data-all w pos room good =
      let (done, w', run, o, _, _) =
        write_data-Offered l t bytes small mss_pos mss some_pcb w pos in
      let (d, u, c) = no_stop o.unsent _ w'.calls done room good o.ends in
      (
        o.chunks,
        log (output t.pcb) w',
        run ∙ rw d,
        o.split ∙ rw u (append-nil (flatten o.chunks)),
        ap (◌∷◌ (output t.pcb)) c,
      )

  module _ (w : World) (pos : 0 < l.tcp_sndbuf w.calls t.pcb)
      (part : l.tcp_sndbuf w.calls t.pcb < length bytes) where
    -- The bytes that fit, and the world after lwIP was offered them.
    abbrev pub room : ℕ
    room = l.tcp_sndbuf w.calls t.pcb

    abbrev pub offered : World
    offered = log (write t.pcb (take room bytes) flag_more) w

    first_round :
        (fuel : ℕ)
        → room ≤ l.tcp_mss
        → is_ok (l.tcp_write w.calls t.pcb (take room bytes) flag_more) ≡ true
        → write_loop l (suc fuel) t bytes 0 w ≡ write_loop l fuel t bytes room offered
    first_round fuel fits good =
        let k : next l t bytes 0 w ≡ room = omega arith in
        let more : flag bytes (take room bytes) ≡ flag_more =
          ground (arith, length-take room bytes) in
        let go : (room == 0) ≡ false = ground arith in
        write_loop-step l t bytes fuel 0 w small mss some_pcb (omega arith)
        ∙ rw (k, more, go, good, zero-add)

    last_round :
        (fuel : ℕ)
        → 0 < fuel
        → l.tcp_sndbuf offered.calls t.pcb ≡ 0
        → write_loop l fuel t bytes room offered ≡ some (0, offered)
    last_round zero f now_full = absurd (omega arith)
    last_round (suc fuel) f now_full =
        let k : next l t bytes room offered ≡ 0 = omega arith in
        write_loop-step l t bytes fuel room offered small mss some_pcb part ∙ rw k

    -- With a control block and data of less than 2^32 bytes, if the send buffer has room for a part
    -- of the data, of at most a segment, and is full once lwIP accepted that part, the part stays
    -- queued, is not flushed, and `writeData` returns 0.
    pub write_data-zero_after_part :
        room ≤ l.tcp_mss
        → is_ok (l.tcp_write w.calls t.pcb (take room bytes) flag_more) ≡ true
        → l.tcp_sndbuf offered.calls t.pcb ≡ 0
        → write_data l t (some bytes) w ≡ some (0, offered)
    unfolding write_data
    write_data-zero_after_part fits good now_full =
        let here : (t.pcb == null) ≡ false = ground arith in
        let some_bytes : (length bytes == 0) ≡ false = ground arith in
        let run =
          first_round (length bytes) fits good ∙ last_round (length bytes) (omega arith) now_full in
        rw (here, some_bytes) (rw run)
