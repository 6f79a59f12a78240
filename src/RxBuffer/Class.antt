-- ===== src/RxBuffer/Class.antt =====
-- Receive buffers up to the way their unread bytes are cut into segments.
use async_tcp.Common.{ℕ, ◌<◌, ◌≡◌, some, List, drop, size_mod}
use mathlib.Core.Quot
use mathlib.Core.Quot.{Quot, Quot-set}
use async_tcp.Lwip.{World, Lwip}
use async_tcp.Lwip.Chains.{Cell, PbufLaws}
use async_tcp.RxBuffer.{RxBuffer, peek_consume}
use async_tcp.RxBuffer.Stream.{Holds, stream}

-- A buffer with the chain that it holds in a world.
pub record Reading (K : Type 0) : Type 0 where
  pub buffer : RxBuffer K
  pub world : World
  pub cells : List Cell
  pub holds : Holds buffer world.mem cells

module _ {K : Type 0} where
  abbrev pub unread : Reading K → List ℕ
  unread x = stream x.buffer x.cells

  abbrev pub SameUnread : Reading K → Reading K → Type 0
  SameUnread x y = unread x ≡ unread y

-- What is left when the segments are forgotten.
abbrev pub Class : Type 0 → Type 0
Class K = Quot (SameUnread {K = K})

module _ {K : Type 0} where
  abbrev pub class : Reading K → Class K
  class x = Quot.mk x

  class_unread : Class K → List ℕ
  class_unread = Quot.lift (hlevel) unread (λ x y h. h)

  module _ {l : Lwip} (laws : PbufLaws l) (n : ℕ) (small : n < size_mod) where
    -- What `peekConsume n` leaves.
    abbrev pub Leaves : Reading K → Reading K → Type 0
    Leaves x x' =
        (peek_consume l n x.buffer x.world ≡ some (x'.buffer, x'.world))
        × (unread x' ≡ drop n (unread x))
