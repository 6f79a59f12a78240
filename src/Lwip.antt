-- ===== src/Lwip.antt =====
-- What the code reads, writes and calls of lwIP (lwip/pbuf.h, lwip/tcp.h) and of its other
-- neighbours: the memory of packet buffers and control blocks, the calls made so far, and the
-- interface `Lwip` of the functions that this repository does not define.
pub mod Chains
pub mod Separate
pub mod Registered
pub mod Credit
pub mod Refcount
use async_tcp.Common.{ℕ, ◌+◌, ◌-◌, ◌≡◌, Bool, Option, none, some, List, ◌∷◌, ◌==◌, if◌then◌else◌}

-- `negsuc n` is -(n + 1).
pub data ℤ : Type 0 where
  pos : ℕ → ℤ
  negsuc : ℕ → ℤ

-- The address of an object; 0 is the null pointer.
abbrev pub Ptr : Type 0
Ptr = ℕ

abbrev pub null : Ptr
null = 0

-- `err_t` and the Pico SDK's codes. ERR_OK and PICO_OK are 0.
abbrev pub ErrT : Type 0
ErrT = ℤ

abbrev pub ok : ErrT
ok = pos 0

abbrev pub is_ok : ErrT → Bool
is_ok (pos n) = n == 0
is_ok (negsuc n) = Bool.false

-- A packet buffer: `payload` with `len` bytes, the next buffer of the chain, the reference count.
pub record Pbuf : Type 0 where
  pub next : Ptr
  pub payload : List ℕ
  pub ref : ℕ

-- The pbuf memory, with the number of allocated pbufs.
pub record Store : Type 0 where
  pub live : ℕ
  pub cell : Ptr → Option Pbuf

abbrev pub update : (Ptr → Option Pbuf) → Ptr → Option Pbuf → Ptr → Option Pbuf
update f a v q = if a == q then v else f q

abbrev pub put : Ptr → Pbuf → Store → Store
put a b s = record s { cell = update s.cell a (some b) }

abbrev pub erase : Ptr → Store → Store
erase a s = record { live = s.live - 1; cell = update s.cell a none }

-- `enum tcp_state`, in its order: `closed` is 0.
pub data TcpState : Type 0 where
  closed listen syn_sent syn_rcvd established fin_wait_1 fin_wait_2 close_wait closing : TcpState
  last_ack time_wait : TcpState

-- The fields of a `tcp_pcb` that the code reads or writes; `nodelay` is the TF_NODELAY flag.
pub record Pcb : Type 0 where
  pub state : TcpState
  pub local_ip : ℕ
  pub local_port : ℕ
  pub remote_ip : ℕ
  pub remote_port : ℕ
  pub so_options : ℕ
  pub keep_idle : ℕ
  pub keep_intvl : ℕ
  pub keep_cnt : ℕ
  pub nodelay : Bool

-- What is handed to a bridge's `workload`.
pub data Load : Type 0 where
  rx_buffer : Load
  error_code : ErrT → Load
  acked : ℕ → Load

-- A call of code outside the repository, with its arguments.
pub data Call : Type 0 where
  set_prio : Ptr → Call
  set_arg : Ptr → Ptr → Call
  set_recv : Ptr → Bool → Call
  set_sent : Ptr → Bool → Call
  set_err : Ptr → Bool → Call
  set_poll : Ptr → Bool → ℕ → Call
  new_pcb : Ptr → Call
  connect : Ptr → ℕ → ℕ → Call
  write : Ptr → List ℕ → ℕ → Call
  output : Ptr → Call
  recved : Ptr → ℕ → Call
  close : Ptr → Call
  abort : Ptr → Call
  workload : ℕ → Load → Call
  run : ℕ → Call
  write_callback : ℕ → Ptr → List ℕ → Call
  lock : Call
  unlock : Call

-- Memory and the calls made so far, the newest first.
pub record World : Type 0 where
  pub mem : Store
  pub pcbs : Ptr → Pcb
  pub calls : List Call

abbrev pub log : Call → World → World
log c w = record w { calls = c ∷ w.calls }

-- Error codes of lwIP and of the Pico SDK, other than 0.
pub record Codes : Type 0 where
  pub err_mem : ErrT
  pub err_abrt : ErrT
  pub err_clsd : ErrT
  pub err_conn : ErrT
  pub pico_error_generic : ErrT
  pub pico_error_timeout : ErrT
  pub pico_error_no_data : ErrT
  pub pico_error_invalid_arg : ErrT
  pub pico_error_io : ErrT
  pub pico_error_resource_in_use : ErrT

-- The functions of lwIP. An answer depends on the calls made before, and on nothing else.
pub record Lwip : Type 0 where
  pub codes : Codes
  pub open codes use *
  pub tcp_mss : ℕ
  pub pbuf_ref : Ptr → Store → Store
  pub pbuf_free : Ptr → Store → Store
  pub pbuf_cat : Ptr → Ptr → Store → Store
  pub tcp_new : List Call → Ptr
  pub tcp_sndbuf : List Call → Ptr → ℕ
  pub tcp_write : List Call → Ptr → List ℕ → ℕ → ErrT
  pub tcp_connect : List Call → Ptr → ℕ → ℕ → ErrT
  pub tcp_close : List Call → Ptr → ErrT

-- The flags of `tcp_write`.
abbrev pub flag_copy : ℕ
flag_copy = 1

abbrev pub flag_more : ℕ
flag_more = 2

abbrev pub set_pcb : Ptr → Pcb → World → World
set_pcb p fields w = record w { pcbs = λ q. if p == q then fields else w.pcbs q }
