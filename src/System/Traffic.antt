-- ===== src/System/Traffic.antt =====
-- What the calls of lwIP tell of the data that goes out and of the window for the data that comes in.
use async_tcp.Common.{ℕ, ◌≡◌, List}
use async_tcp.Lwip.{Ptr, Call, Lwip}
use async_tcp.Lwip.Credit.{credited}
use async_tcp.Writer.Queued.{queued, Adds, queued-Adds}

-- Nothing is queued for any control block, and nothing given back.
abbrev pub Untold : Lwip → List Call → List Call → Type 0
Untold l calls calls' =
    ((p : Ptr) → queued l p calls' ≡ queued l p calls) × (credited calls' ≡ credited calls)

-- Nothing is given back, and nothing queued but the front of `bytes`.
abbrev pub Offers : Lwip → List ℕ → List Call → List Call → Type 0
Offers l bytes calls calls' =
    ((p : Ptr) → Adds l p bytes calls calls') × (credited calls' ≡ credited calls)

pub Untold-Offers :
    (l : Lwip) (bytes : List ℕ) (calls calls' : List Call)
    → Untold l calls calls'
    → Offers l bytes calls calls'
Untold-Offers l bytes calls calls' (same, kept) =
    (λ p. queued-Adds l p bytes calls calls' (same p), kept)
