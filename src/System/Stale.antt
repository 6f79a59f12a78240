-- ===== src/System/Stale.antt =====
-- What a client does with a control block that lwIP has freed.
use async_tcp.Lwip.{close as close_call, abort as abort_call, Lwip}
use async_tcp.Context.{Context}
use async_tcp.Client.{Client}
use async_tcp.System.{System}
