-- ===== src/Context/Options.antt =====
-- include/TcpClientContext.hpp: Nagle's algorithm, addresses, ports and the state.
use async_tcp.Common.{
  ℕ, ◌≡◌, ◌≢◌, ◌↔◌, Bool, true, false, Option, none, some, arith, ◌==◌, if◌then◌else◌, not, ◌&&◌,
}
use async_tcp.Lwip.{Ptr, null, World, set_pcb, TcpState, closed, close_wait, closing}
use async_tcp.Context.{Context}

-- The states in which nothing more can be written.
abbrev pub write_closed : TcpState → Bool
write_closed close_wait = true
write_closed closing = true
write_closed s = false

abbrev pub is_closed : TcpState → Bool
is_closed closed = true
is_closed s = false

module _ {K : Type 0} where
  -- `tcp_nagle_disable`, `tcp_nagle_enable` and `tcp_nagle_disabled` are macros over TF_NODELAY.
  unfoldable pub set_no_delay : Bool → Context K → World → World
  set_no_delay no_delay c w =
      if c.pcb == null then w else set_pcb c.pcb (record (w.pcbs c.pcb) { nodelay = no_delay }) w

  unfoldable pub get_no_delay : Context K → World → Bool
  get_no_delay c w = if c.pcb == null then false else (w.pcbs c.pcb).nodelay

  -- A pointer to the address in the control block, or the null pointer.
  unfoldable pub get_remote_address : Context K → World → Option ℕ
  get_remote_address c w = if c.pcb == null then none else some (w.pcbs c.pcb).remote_ip

  unfoldable pub get_remote_port : Context K → World → ℕ
  get_remote_port c w = if c.pcb == null then 0 else (w.pcbs c.pcb).remote_port

  unfoldable pub get_local_address : Context K → World → Option ℕ
  get_local_address c w = if c.pcb == null then none else some (w.pcbs c.pcb).local_ip

  unfoldable pub get_local_port : Context K → World → ℕ
  get_local_port c w = if c.pcb == null then 0 else (w.pcbs c.pcb).local_port

  unfoldable pub state : Context K → World → TcpState
  state c w =
      if c.pcb == null
      then closed
      else if write_closed (w.pcbs c.pcb).state
      then closed
      else (w.pcbs c.pcb).state

  unfoldable pub is_connection_valid : Context K → World → Bool
  unfolding state
  is_connection_valid c w = not (c.pcb == null) && not (is_closed (state c w))

  -- The connection is valid exactly if there is a control block, in a state other than CLOSED,
  -- CLOSE_WAIT and CLOSING; `state` then reports that state, and CLOSED otherwise.
  pub is_connection_valid-state :
      (c : Context K) (w : World)
      → let s = (w.pcbs c.pcb).state in
        ((is_connection_valid c w ≡ true)
          ↔ ((c.pcb ≢ null) × (s ≢ closed) × (s ≢ close_wait) × (s ≢ closing)))
        × (state c w ≡ (if is_connection_valid c w then s else closed))
  unfolding is_connection_valid
  is_connection_valid-state c w = ground arith

  -- What is set is read back, if there is a control block, and false otherwise; any other control
  -- block `q` stays as it was.
  pub get_no_delay-set_no_delay :
      (c : Context K) (w : World) (b : Bool) (q : Ptr)
      → c.pcb ≢ q
      → (get_no_delay c (set_no_delay b c w) ≡ (if c.pcb == null then false else b))
        × ((set_no_delay b c w).pcbs q ≡ w.pcbs q)
  unfolding get_no_delay set_no_delay
  get_no_delay-set_no_delay c w b q ne = (ground arith, ground arith)
