-- ===== src/Lwip/Credit.antt =====
-- The receive windows, read off the calls made so far.
use async_tcp.Common.{ℕ, ◌+◌, List, [], ◌∷◌}
use async_tcp.Lwip.{Call, recved}

-- The bytes given back to them with `tcp_recved`.
abbrev pub credited : List Call → ℕ
credited [] = 0
credited (recved q n ∷ calls) = n + credited calls
credited (_ ∷ calls) = credited calls
