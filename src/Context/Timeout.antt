-- ===== src/Context/Timeout.antt =====
-- include/TcpClientContext.hpp: `_is_timeout` over a clock that wraps.
use async_tcp.Common.{ℕ, ◌+◌, ◌%◌, ◌^◌, ◌<◌, ◌≡◌, ltb, ap, arith}
use async_tcp.Context.{Context, is_timeout}

-- However long ago the start was, and however often the 32-bit clock wrapped in between, the test
-- says whether the time that has passed, modulo 2^32 ms, is more than the timeout.
pub is_timeout-ltb :
    {K : Type 0} (start passed : ℕ) (c : Context K)
    → start < 2 ^ 32
    → is_timeout ((start + passed) % 2 ^ 32) start c ≡ ltb c.timeout_ms (passed % 2 ^ 32)
unfolding is_timeout
is_timeout-ltb start passed c hs = ap (ltb c.timeout_ms) (omega arith)
