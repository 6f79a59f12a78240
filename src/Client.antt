-- ===== src/Client.antt =====
-- src/TcpClient.cpp and include/TcpClient.hpp: the client, its bridges and its static members.
pub mod Connection
pub mod Callbacks
pub mod Access
pub mod Connecting
pub mod Ending
pub mod Memory
pub mod Ports
use async_tcp.Common.{ℕ, Bool, true, false, Option, none, some}
use async_tcp.Context.{Context}

-- The closures that `_ts_connect` gives to its context, each of them over `this`.
pub data Closure : Type 0 where
  on_connect on_error on_fin on_receive on_poll on_ack : Closure

-- Bridges and write callbacks are named by numbers; an unset one is `none`.
pub record Client : Type 0 where
  pub ctx : Option (Context Closure)
  pub received_bridge : Option ℕ
  pub connected_bridge : Option ℕ
  pub fin_bridge : Option ℕ
  pub error_bridge : Option ℕ
  pub poll_bridge : Option ℕ
  pub ack_bridge : Option ℕ
  pub sync_accessor : Option ℕ
  pub client_id : ℕ
  pub timeout : ℕ
  pub write_callback : Option ℕ

-- `_localPort` and `defaultNoDelay`.
pub record Statics : Type 0 where
  pub local_port : ℕ
  pub default_no_delay : Bool

pub initial_statics : Statics
initial_statics = record { local_port = 0; default_no_delay = true }

pub set_local_port_start : ℕ → Statics → Statics
set_local_port_start port s = record s { local_port = port }

pub set_default_no_delay : Bool → Statics → Statics
set_default_no_delay no_delay s = record s { default_no_delay = no_delay }

pub get_default_no_delay : Statics → Bool
get_default_no_delay s = s.default_no_delay

unfoldable pub new_client : Client
new_client = record {
  ctx = none;
  received_bridge = none;
  connected_bridge = none;
  fin_bridge = none;
  error_bridge = none;
  poll_bridge = none;
  ack_bridge = none;
  sync_accessor = none;
  client_id = 0;
  timeout = 5000;
  write_callback = none;
}

pub set_on_received_callback : Option ℕ → Client → Client
set_on_received_callback bridge t = record t { received_bridge = bridge }

pub set_on_connected_callback : Option ℕ → Client → Client
set_on_connected_callback bridge t = record t { connected_bridge = bridge }

pub set_on_fin_callback : Option ℕ → Client → Client
set_on_fin_callback bridge t = record t { fin_bridge = bridge }

pub set_on_error_callback : Option ℕ → Client → Client
set_on_error_callback bridge t = record t { error_bridge = bridge }

pub set_on_poll_callback : Option ℕ → Client → Client
set_on_poll_callback bridge t = record t { poll_bridge = bridge }

pub set_on_ack_callback : Option ℕ → Client → Client
set_on_ack_callback bridge t = record t { ack_bridge = bridge }

pub set_write_callback : Option ℕ → Client → Client
set_write_callback callback t = record t { write_callback = callback }

pub get_context : Client → Option (Context Closure)
get_context t = t.ctx

pub get_sync_accessor : Client → Option ℕ
get_sync_accessor t = t.sync_accessor

pub get_client_id : Client → ℕ
get_client_id t = t.client_id

pub set_client_id : ℕ → Client → Client
set_client_id id t = record t { client_id = id }

-- The accessor is set at most once.
pub set_sync_accessor : Option ℕ → Client → Option Client
set_sync_accessor accessor t = elim t.sync_accessor [
  | none ↦ some (record t { sync_accessor = accessor })
  | some _ ↦ none
]
