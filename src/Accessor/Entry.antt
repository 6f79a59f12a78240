-- ===== src/Accessor/Entry.antt =====
-- src/TcpClient.cpp: `connect` and `status`, which go through the sync accessor. `none` is a failed
-- assertion or a null dereference.
use async_tcp.Common.{ℕ, Option, none, some, List}
use async_tcp.Lwip.{Ptr, ErrT, TcpState, Call, Lwip}
use async_tcp.Accessor.{Machine, Bridge}
use async_tcp.Accessor

module _ (l : Lwip) (b : Bridge) (fresh result : Ptr) where
  unfoldable pub connect : ℕ → ℕ → Machine → Option (ErrT × Machine)
  connect ip port m = elim m.client.sync_accessor [
    | none ↦ none
    | some _ ↦ some (Accessor.connect l b fresh result ip port m)
  ]

  -- `connect` by name; `host_by_name` is the resolver of the WiFi library, given the timeout.
  unfoldable pub connect_host :
      (List Call → List ℕ → ℕ → Option ℕ) → List ℕ → ℕ → Machine → Option (ErrT × Machine)
  unfolding connect
  connect_host host_by_name host port m = elim (host_by_name m.world.calls host m.client.timeout) [
    | none ↦ some (l.pico_error_timeout, m)
    | some ip ↦ connect ip port m
  ]

  -- `connect` by a name in an `AString`, whose `c_str` is the name as a C string.
  pub connect_name :
      (List Call → List ℕ → ℕ → Option ℕ)
      → (List ℕ → List ℕ)
      → List ℕ
      → ℕ
      → Machine
      → Option (ErrT × Machine)
  unfolding connect_host
  connect_name host_by_name c_str host port m = connect_host host_by_name (c_str host) port m

  unfoldable pub status : Machine → Option (TcpState × Machine)
  status m = elim m.client.sync_accessor [
    | none ↦ none
    | some _ ↦ some (Accessor.status l b fresh result m)
  ]
