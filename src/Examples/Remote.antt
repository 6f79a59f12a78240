-- ===== src/Examples/Remote.antt =====
-- The theorems on the sync accessor, with a bridge that runs its handler at once.
use async_tcp.Common.{ℕ, ◌≡◌, refl, ◌⊎◌, inl, ◌≢◌, true, false, none, some, [], arith, ◌%◌, ◌^◌}
use async_tcp.Lwip.{ok, closed}
use async_tcp.Client.{new_client}
use async_tcp.Client.Connection.{ts_status}
use async_tcp.Accessor.{Machine, Bridge, BridgeLaws, connect, status, run_local}
use async_tcp.Accessor.Outcome.{Connected, connect-Connected, status-ts_status}
use async_tcp.Accessor.Locking.{held, connect-held, run_local-held}
use async_tcp.Examples.{lwip, world}

abbrev pub bridge : Bridge
bridge = record {
  is_cross_core = λ _. true;
  execute = λ handler p m. handler p m;
  read_ipsr = λ _. 0;
}

pub bridge_laws : BridgeLaws bridge
bridge_laws = record { execute_lem = λ handler p m. inl refl }

abbrev near : Bridge
near = record bridge { is_cross_core = λ _. false }

abbrev pub machine : Machine
machine = record {
  statics = record { local_port = 0; default_no_delay = true };
  client = new_client;
  world = world;
  status_at = λ _. closed;
  connect_at = λ _. ok;
}

connect-Connected_example :
    Connected lwip 100 true 2 17 machine (connect lwip bridge 100 50 2 17 machine)
connect-Connected_example =
    connect-Connected lwip 100 bridge_laws 50 2 17 machine (λ e. omega arith)

connect-held_example :
    held (connect lwip bridge 100 50 2 17 machine).1.world.calls ≡ held world.calls
connect-held_example = connect-held lwip 100 bridge_laws 50 2 17 machine (λ e. omega arith)

remote_status :
    let r = status lwip bridge 100 50 machine in
    ((r.0 ≡ ts_status new_client world) ⊎ ((true ≡ true) × (r.0 ≡ closed)))
    × (r.1.client ≡ new_client)
    × (r.1.statics ≡ machine.statics)
    × (r.1.world.mem ≡ world.mem)
    × (r.1.world.pcbs ≡ world.pcbs)
remote_status = status-ts_status lwip 100 bridge_laws 50 machine (λ e. omega arith)

abbrev call_me : Machine → ℕ × Machine
call_me m = (4294967297, m)

run_near :
    (((false ≡ true) ⊎ (near.read_ipsr [] ≢ 0)) × (run_local near call_me machine ≡ none))
    ⊎ ((false ≡ false)
        × (near.read_ipsr [] ≡ 0)
        × ((m' : Machine) × (run_local near call_me machine ≡ some (4294967297 % 2 ^ 32, m'))
            × (held m'.world.calls ≡ 0)))
run_near = run_local-held near call_me machine refl
