-- ===== src/Accessor.antt =====
-- src/TcpClientSyncAccessor.cpp, include/TcpClientSyncAccessor.hpp and include/iprs_util.hpp: calls of
-- the client from either core. The bridge's base class `SyncBridge` is not part of the repository.
pub mod Outcome
pub mod Locking
pub mod Entry
use async_tcp.Common.{
  ℕ, ◌%◌, ◌^◌, ◌≡◌, ◌⊎◌, Bool, true, false, Option, none, some, List, ◌==◌, if◌then◌else◌, not,
}
use async_tcp.Lwip.{
  Ptr, null, ErrT, ok, is_ok, TcpState, closed, Call, World, log, lock, unlock, Lwip,
}
use async_tcp.Client.{Client, Statics}
use async_tcp.Client.Connection.{ts_connect, ts_status}

-- `AccessorPayload`; the pointers are null or address a result, `ip_ptr` an address to connect to.
pub record Payload : Type 0 where
  pub op : ℕ
  pub result_ptr : Ptr
  pub ip_ptr : Option ℕ
  pub port : ℕ
  pub connect_result : Ptr

-- `enum Operation`
abbrev pub op_status : ℕ
op_status = 0

abbrev pub op_connect : ℕ
op_connect = 1

unfoldable pub new_payload : Payload
new_payload = record {
  op = op_status;
  result_ptr = null;
  ip_ptr = none;
  port = 0;
  connect_result = null;
}

-- What both cores share: the client, its static members, the world, and the results that a payload
-- points to.
pub record Machine : Type 0 where
  pub statics : Statics
  pub client : Client
  pub world : World
  pub status_at : Ptr → TcpState
  pub connect_at : Ptr → ErrT

-- `*p = v` for either kind of result.
abbrev pub put_status : Ptr → TcpState → Machine → Machine
put_status p v m = record m { status_at = λ q. if p == q then v else m.status_at q }

abbrev pub put_connect : Ptr → ErrT → Machine → Machine
put_connect p v m = record m { connect_at = λ q. if p == q then v else m.connect_at q }

-- What `SyncBridge` and the processor give: whether the caller is on the other core, `execute`, which
-- runs a handler on a payload where the network stack runs, and the number of the running interrupt.
pub record Bridge : Type 0 where
  pub is_cross_core : List Call → Bool
  pub execute : (Payload → Machine → ErrT × Machine) → Payload → Machine → ErrT × Machine
  pub read_ipsr : List Call → ℕ

-- `execute` runs the handler once and returns its result, or it fails and has not run it.
pub record BridgeLaws (b : Bridge) : Type 0 where
  pub execute_lem :
      (handler : Payload → Machine → ErrT × Machine) (p : Payload) (m : Machine)
      → (b.execute handler p m ≡ handler p m)
        ⊎ ((e : ErrT) × (is_ok e ≡ false) × (b.execute handler p m ≡ (e, m)))

-- `_ts_connect` on the shared state; `fresh` is the address of a new context.
unfoldable pub local_connect : Lwip → Ptr → ℕ → ℕ → Machine → ErrT × Machine
local_connect l fresh ip port m =
    let (res, s, t, w) = ts_connect l fresh ip port m.statics m.client m.world in
    (res, record m { statics = s; client = t; world = w })

abbrev pub with_call : Call → Machine → Machine
with_call c m = record m { world = log c m.world }

-- The fallback of a host build, which has no interrupts.
pub host_read_ipsr : List Call → ℕ
host_read_ipsr calls = 0

unfoldable pub is_in_isr : Bridge → World → Bool
is_in_isr b w = not (b.read_ipsr w.calls == 0)

-- `onWork` and `workload` do nothing.
pub on_work : Machine → Machine
on_work m = m

pub workload : Ptr → Machine → Machine
workload p m = m

module _ (l : Lwip) where
  -- Results of `onExecute` are a `uint32_t` that its callers read as an `int`; nothing is lost.
  unfoldable pub on_execute : Ptr → Payload → Machine → ErrT × Machine
  unfolding local_connect
  on_execute fresh p m =
      if p.op == op_status
      then (if p.result_ptr == null
          then (l.pico_error_no_data, m)
          else (ok, put_status p.result_ptr (ts_status m.client m.world) m))
      else if p.op == op_connect
      then elim p.ip_ptr [
        | none ↦ (l.pico_error_no_data, m)
        | some ip ↦
            let (res, m') = local_connect l fresh ip p.port m in
            if p.connect_result == null
            then (l.pico_error_no_data, m)
            else (ok, put_connect p.connect_result res m')
      ]
      else (l.pico_error_invalid_arg, m)

  module _ (b : Bridge) where
    -- `result` is the address of the local variable of that name.
    unfoldable pub status : (fresh result : Ptr) → Machine → TcpState × Machine
    unfolding on_execute new_payload
    status fresh result m =
        if not (b.is_cross_core m.world.calls)
        then (let m1 = with_call lock m in (ts_status m1.client m1.world, with_call unlock m1))
        else (let m1 = put_status result closed m in
            let p = record new_payload { op = op_status; result_ptr = result } in
            let (res, m2) = b.execute (on_execute fresh) p m1 in (m2.status_at result, m2))

    unfoldable pub connect : (fresh result : Ptr) → ℕ → ℕ → Machine → ErrT × Machine
    unfolding on_execute new_payload local_connect
    connect fresh result ip port m =
        if not (b.is_cross_core m.world.calls)
        then (let (res, m1) = local_connect l fresh ip port (with_call lock m) in
            (res, with_call unlock m1))
        else (let m1 = put_connect result l.pico_error_generic m in
            let p = record new_payload {
              op = op_connect;
              ip_ptr = some ip;
              port = port;
              connect_result = result;
            } in
            let (res, m2) = b.execute (on_execute fresh) p m1 in
            if not (is_ok res) then (res, m2) else (m2.connect_at result, m2))

-- `verify_execution_context` and `run_local`: `none` is a failed assertion.
unfoldable pub verify_execution_context : Bridge → World → Bool
unfolding is_in_isr
verify_execution_context b w = if b.is_cross_core w.calls then false else not (is_in_isr b w)

unfoldable pub run_local : Bridge → (Machine → ℕ × Machine) → Machine → Option (ℕ × Machine)
unfolding verify_execution_context
run_local b call_me m =
    if verify_execution_context b m.world
    then (let (v, m1) = call_me (with_call lock m) in some (v % 2 ^ 32, with_call unlock m1))
    else none
