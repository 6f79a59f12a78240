-- ===== src/Context/Lifecycle.antt =====
-- include/TcpClientContext.hpp: constructor, destructor, `abort`, `close` and `connect`.
pub mod Closing
use async_tcp.Common.{ℕ, Bool, true, false, Option, none, some, ◌==◌, if◌then◌else◌, not, ◌&&◌}
use async_tcp.Lwip.{
  Ptr, null, ErrT, ok, is_ok, World, log, set_prio, set_arg, set_recv, set_sent, set_err, set_poll,
  connect as connect_call, close as close_call, abort as abort_call, Lwip,
}
use async_tcp.RxBuffer.{RxBuffer, new, reset, set_on_fin_callback, set_on_received_callback}
use async_tcp.Writer
use async_tcp.Context.{Context, RxClosure, calls_fin_cb, calls_receive_cb}

-- The registrations that `abort` and `close` withdraw.
abbrev pub unregister : Ptr → World → World
unregister pcb w =
    let w1 = log (set_recv pcb false) (log (set_sent pcb false) (log (set_arg pcb null) w)) in
    log (set_poll pcb false 0) (log (set_err pcb false) w1)

-- lwIP's tests of an IPv6 address and of its zone, and the address with the zone of `netif_default`.
pub record Zones : Type 0 where
  pub is_v6 : ℕ → Bool
  pub lacks_zone : ℕ → Bool
  pub assign_zone : ℕ → ℕ

pub with_zone : Zones → ℕ → ℕ
with_zone z addr = if z.is_v6 addr && z.lacks_zone addr then z.assign_zone addr else addr

module _ {K : Type 0} where
  unfoldable pub init_rx_buffer : Context K → Context K
  unfolding new set_on_fin_callback set_on_received_callback
  init_rx_buffer c = elim c.rx [
    | some _ ↦ c
    | none ↦ record c {
      rx =
          some (
            set_on_received_callback calls_receive_cb
              (set_on_fin_callback calls_fin_cb (new null)));
    }
  ]

  unfoldable pub init_tx_writer : Ptr → Context K → Context K
  unfolding Writer.new Writer.set_on_ack_callback
  init_tx_writer pcb c = record c {
    tx = some (Writer.set_on_ack_callback c.ack_cb (Writer.new pcb));
  }

  -- The members before the constructor's body.
  abbrev pub blank : Ptr → Ptr → Context K
  blank self pcb = record {
    self = self;
    pcb = pcb;
    rx = none;
    tx = none;
    timeout_ms = 5000;
    fin_cb = none;
    connect_cb = none;
    error_cb = none;
    receive_cb = none;
    ack_cb = none;
    close_cb = none;
    written_cb = none;
    poll_cb = none;
    client_id = 0;
  }

  unfoldable pub new_context : Ptr → Ptr → World → Context K × World
  unfolding init_rx_buffer init_tx_writer
  new_context self pcb w =
      let w1 = log (set_recv pcb true) (log (set_arg pcb self) (log (set_prio pcb) w)) in
      let w2 = log (set_poll pcb true 1) (log (set_err pcb true) (log (set_sent pcb true) w1)) in
      (init_tx_writer pcb (init_rx_buffer (blank self pcb)), w2)

  -- `if (_rx) { _rx->reset(); }`
  abbrev pub reset_rx : Lwip → Context K → World → Context K × World
  reset_rx l c w = elim c.rx [
    | none ↦ (c, w)
    | some b ↦ (record c { rx = some (reset l b w.mem).0 }, record w { mem = (reset l b w.mem).1 })
  ]

  module _ (l : Lwip) where
    unfoldable pub abort : Context K → World → ErrT × Context K × World
    unfolding reset
    abort c w =
        if c.pcb == null
        then (l.err_abrt, c, w)
        else (let (c', w') = reset_rx l c w in
            (l.err_abrt, record c' { pcb = null }, log (abort_call c.pcb) (unregister c.pcb w')))

    unfoldable pub close : Context K → World → ErrT × Context K × World
    unfolding reset
    close c w =
        if c.pcb == null
        then (ok, c, w)
        else (let (c', w') = reset_rx l c w in
            let w1 = unregister c.pcb w' in
            let err = l.tcp_close w1.calls c.pcb in
            let w2 = log (close_call c.pcb) w1 in
            if is_ok err
            then (err, record c' { pcb = null }, w2)
            else (l.err_abrt, record c' { pcb = null }, log (abort_call c.pcb) w2))

    pub cleanup_rx_buffer : Context K → World → Context K × World
    unfolding reset
    cleanup_rx_buffer c w = let (c', w') = reset_rx l c w in (record c' { rx = none }, w')

    pub cleanup_tx_writer : Context K → Context K
    cleanup_tx_writer c = record c { tx = none }

    -- The destructor; what is left of the object is gone with it.
    unfoldable pub destroy : Context K → World → World
    unfolding cleanup_rx_buffer cleanup_tx_writer
    destroy c w = (cleanup_rx_buffer c w).1

    -- `addr` is the address with its zone.
    unfoldable pub connect : ℕ → ℕ → Context K → World → ErrT × World
    connect addr port c w =
        let err = l.tcp_connect w.calls c.pcb addr port in
        let w' = log (connect_call c.pcb addr port) w in
        if not (is_ok err) then (err, w') else if c.pcb == null then (l.err_abrt, w') else (ok, w')

    -- With LWIP_IPV6: a link-local address without a zone gets the one of the default interface.
    pub connect_v6 : Zones → ℕ → ℕ → Context K → World → ErrT × World
    unfolding connect
    connect_v6 z addr port c w = connect (with_zone z addr) port c w
