-- ===== src/System/Pair.antt =====
-- Two clients of one network stack, which share the static members, lwIP and the memory of pbufs.
pub mod Acting
pub mod Runs
use async_tcp.Common.{ℕ, ◌≡◌, ◌⊎◌, Bool, true, false, not, Option, none, some, List, [], ◌∷◌, ◌>>=◌}
use async_tcp.Lwip.{World, Lwip}
use async_tcp.Lwip.Chains.{Cell, Chain, erase_all}
use async_tcp.Lwip.Separate.{Separate}
use async_tcp.RxBuffer.{RxBuffer}
use async_tcp.RxBuffer.Stream.{Holds}
use async_tcp.Context.{Context, RxClosure}
use async_tcp.Client.{Client, Statics, Closure, new_client}
use async_tcp.System.{System, Event, handle, Legal}
use async_tcp.System.Unread.{handed, by_itself}
use async_tcp.System.Spec.{accepts}

pub record Pair : Type 0 where
  pub statics : Statics
  pub first : Client
  pub second : Client
  pub world : World

abbrev pub new_pair : Statics → World → Pair
new_pair s w = record { statics = s; first = new_client; second = new_client; world = w }

abbrev pub side : (is_first : Bool) → Pair → System
side true p = record { statics = p.statics; client = p.first; world = p.world }
side false p = record { statics = p.statics; client = p.second; world = p.world }

abbrev pub with_side : (is_first : Bool) → System → Pair → Pair
with_side true m p = record p { statics = m.statics; first = m.client; world = m.world }
with_side false m p = record p { statics = m.statics; second = m.client; world = m.world }

-- An event of one of the clients, or what lwIP does by itself.
pub data Move : Type 0 where
  own : (is_first : Bool) → Event → Move
  outside : World → Move

unfoldable pub handle_pair : Lwip → Move → Pair → Option Pair
handle_pair l (own who ev) p = do m ← handle l ev (side who p); some (with_side who m p)
handle_pair l (outside w) p = some (record p { world = w })

-- The segments that a client holds.
abbrev pub Held : System → List Cell → Type 0
Held m cs =
    ((m.client.ctx ≡ none) × (cs ≡ []))
    ⊎ ((c : Context Closure) × (b : RxBuffer RxClosure) × (m.client.ctx ≡ some c)
        × (c.rx ≡ some b)
        × Holds b m.world.mem cs)

-- What lwIP hands to one client is apart from what both hold, and by itself it leaves both chains
-- alone.
abbrev pub LegalMove : Move → Pair → Type 0
LegalMove (own who ev) p =
    (by_itself ev ≡ false)
    × Legal ev (side who p)
    × ((cs cs' : List Cell)
        → Held (side who p) cs
        → Held (side (not who) p) cs'
        → Chain (erase_all cs' (erase_all cs p.world.mem)) (handed ev))
LegalMove (outside w) p =
    (cs cs' : List Cell) → Held (side true p) cs → Held (side false p) cs' → Separate w.mem cs cs'

-- Sequences of legal moves that returned.
pub data PairTrace (l : Lwip) (p0 : Pair) : Pair → Type 0 where
  empty : PairTrace l p0 p0
  step :
      {p p' : Pair}
      → PairTrace l p0 p
      → (mv : Move) → LegalMove mv p
      → handle_pair l mv p ≡ some p'
      → PairTrace l p0 p'

-- One client's events of a run, with lwIP's answers to it.
abbrev pub note : Lwip → (is_first : Bool) → Move → Pair → List (Event × Bool)
note l true (own true ev) p = (ev, accepts l ev (side true p)) ∷ []
note l false (own false ev) p = (ev, accepts l ev (side false p)) ∷ []
note l _ _ p = []
