-- ===== src/Context.antt =====
-- include/TcpClientContext.hpp: the state of one connection. Its operations are in the modules below.
-- `K` is the type of the closures that a client installs.
pub mod Lifecycle
pub mod Options
pub mod KeepAlive
pub mod Chunk
pub mod Events
pub mod Timeout
use async_tcp.Common.{ℕ, ◌+◌, ◌-◌, ◌%◌, ◌^◌, Bool, Option, none, some, ltb}
use async_tcp.Lwip.{Ptr, ErrT}
use async_tcp.RxBuffer.{RxBuffer}
use async_tcp.Writer.{Writer}

-- The two closures that the context gives to its receive buffer.
pub data RxClosure : Type 0 where
  calls_fin_cb calls_receive_cb : RxClosure

-- `self` is the object's address.
pub record Context (K : Type 0) : Type 0 where
  pub self : Ptr
  pub pcb : Ptr
  pub rx : Option (RxBuffer RxClosure)
  pub tx : Option (Writer K)
  pub timeout_ms : ℕ
  pub fin_cb : Option K
  pub connect_cb : Option K
  pub error_cb : Option K
  pub receive_cb : Option K
  pub ack_cb : Option K
  pub close_cb : Option K
  pub written_cb : Option K
  pub poll_cb : Option K
  pub client_id : ℕ

module _ {K : Type 0} where
  unfoldable pub set_on_connect_callback : Option K → Context K → Context K
  set_on_connect_callback cb c = record c { connect_cb = cb }

  unfoldable pub set_on_error_callback : Option K → Context K → Context K
  set_on_error_callback cb c = record c { error_cb = cb }

  unfoldable pub set_on_ack_callback : Option K → Context K → Context K
  set_on_ack_callback cb c = record c { ack_cb = cb }

  pub set_on_written_callback : Option K → Context K → Context K
  set_on_written_callback cb c = record c { written_cb = cb }

  unfoldable pub set_on_poll_callback : Option K → Context K → Context K
  set_on_poll_callback cb c = record c { poll_cb = cb }

  unfoldable pub set_on_fin_callback : Option K → Context K → Context K
  set_on_fin_callback cb c = record c { fin_cb = cb }

  unfoldable pub set_on_received_callback : Option K → Context K → Context K
  set_on_received_callback cb c = record c { receive_cb = cb }

  unfoldable pub set_client_id : ℕ → Context K → Context K
  set_client_id id c = record c { client_id = id }

  unfoldable pub set_timeout : ℕ → Context K → Context K
  set_timeout timeout_ms c = record c { timeout_ms = timeout_ms }

  pub get_timeout : Context K → ℕ
  get_timeout c = c.timeout_ms

  pub get_rx_buffer : Context K → Option (RxBuffer RxClosure)
  get_rx_buffer c = c.rx

  pub get_tx_writer : Context K → Option (Writer K)
  get_tx_writer c = c.tx

  pub get_client_id : Context K → ℕ
  get_client_id c = c.client_id

  -- `millis()` is `now`; the difference is taken in 32 bits.
  unfoldable pub is_timeout : ℕ → ℕ → Context K → Bool
  is_timeout now start_time c = ltb c.timeout_ms ((now + 2 ^ 32 - start_time) % 2 ^ 32)
