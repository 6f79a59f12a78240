-- ===== src/RxBuffer/Flow.antt =====
-- A receive buffer over one connection, with what is acknowledged and what is delivered.
use async_tcp.Common.{
  ℕ, suc, ◌+◌, ◌<◌, ◌≡◌, false, Option, some, List, [], ◌∷◌, ◌==◌, if◌then◌else◌, length, size_mod,
}
use async_tcp.Lwip.{Ptr, null, ErrT, ok, is_ok, World, Call, recved, Lwip}
use async_tcp.Lwip.Chains.{Cell, addr, Chain, erase_all}
use async_tcp.RxBuffer.{RxBuffer, lwip_receive_callback, peek_consume}
use async_tcp.RxBuffer.Stream.{bytes, Holds}

-- The bytes acknowledged with `tcp_recved` for a control block.
abbrev pub acked : Ptr → List Call → ℕ
acked p [] = 0
acked p (recved q n ∷ calls) = if q == p then n + acked p calls else acked p calls
acked p (_ ∷ calls) = acked p calls

module _ {K : Type 0} (l : Lwip) (invoke : K → World → Option World) (p : Ptr) where
  -- Runs of one connection, with the number of bytes delivered on the way.
  pub data Flow (b0 : RxBuffer K) (w0 : World) : ℕ → RxBuffer K → World → Type 0 where
    start : Flow b0 w0 0 b0 w0
    deliver :
        {n : ℕ} {b b' : RxBuffer K} {w w' : World}
        → Flow b0 w0 n b w
        → (d : Cell) (ds : List Cell) (r : ErrT)
        → ((cs : List Cell) → Holds b w.mem cs → Chain (erase_all cs w.mem) (d ∷ ds))
        → lwip_receive_callback l invoke p d.0 ok b w ≡ some (r, b', w')
        → Flow b0 w0 (n + length (bytes (d ∷ ds))) b' w'
    fail :
        {n : ℕ} {b b' : RxBuffer K} {w w' : World}
        → Flow b0 w0 n b w
        → (ds : List Cell) (err r : ErrT) → is_ok err ≡ false
        → ((cs : List Cell) → Holds b w.mem cs → Chain (erase_all cs w.mem) ds)
        → lwip_receive_callback l invoke p (addr ds) err b w ≡ some (r, b', w')
        → Flow b0 w0 n b' w'
    fin :
        {n : ℕ} {b b' : RxBuffer K} {w w' : World}
        → Flow b0 w0 n b w
        → (r : ErrT) → lwip_receive_callback l invoke p null ok b w ≡ some (r, b', w')
        → Flow b0 w0 n b' w'
    consume :
        {n : ℕ} {b b' : RxBuffer K} {w w' : World}
        → Flow b0 w0 n b w
        → (k : ℕ) → k < size_mod
        → peek_consume l k b w ≡ some (b', w')
        → Flow b0 w0 n b' w'

  -- The segments delivered on the way, also those with an error.
  abbrev pub segments :
      {b0 : RxBuffer K} {w0 : World} {n : ℕ} {b : RxBuffer K} {w : World} → Flow b0 w0 n b w → ℕ
  segments start = 0
  segments (deliver run d ds r apart e) = segments run + suc (length ds)
  segments (fail run ds err r bad apart e) = segments run + length ds
  segments (fin run r e) = segments run
  segments (consume run k small e) = segments run

-- A callback that leaves the pbufs alone and acknowledges nothing.
abbrev pub IsSilent : {K : Type 0} → Ptr → (K → World → Option World) → Type 0
IsSilent {K} p invoke =
    (k : K) (w w' : World)
    → invoke k w ≡ some w'
    → (w'.mem ≡ w.mem) × (acked p w'.calls ≡ acked p w.calls)
