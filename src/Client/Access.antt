-- ===== src/Client/Access.antt =====
-- src/TcpClient.cpp: writing and the accessors that pass on to the context. `none` is a null
-- dereference or a failed assertion.
use async_tcp.Common.{
  ℕ, Bool, false, Option, none, some, List, [], ◌∷◌, ◌==◌, if◌then◌else◌, length, ◌>>=◌,
}
use async_tcp.Lwip.{Ptr, null, World, log, Lwip}
use async_tcp.Lwip
use async_tcp.Writer.{Writer}
use async_tcp.Context.Options
use async_tcp.Context.KeepAlive
use async_tcp.Context.Chunk
use async_tcp.Client.{Client, Closure}
use async_tcp.Client.Callbacks.{closures}

-- The control block that identifies the writer handed to the write callback; 0 for no writer.
abbrev pub writer_pcb : Option (Writer Closure) → Ptr
writer_pcb none = null
writer_pcb (some x) = x.pcb

unfoldable pub write : Option (List ℕ) → Client → World → Option World
write none t w = none
write (some bytes) t w = if length bytes == 0 then none else elim t.ctx [
  | none ↦ some w
  | some c ↦ do cb ← t.write_callback; some (log (Lwip.write_callback cb (writer_pcb c.tx) bytes) w)
]

unfoldable pub write_byte : ℕ → Client → World → Option World
unfolding write
write_byte b t w = write (some (b ∷ [])) t w

unfoldable pub write_chunk : Lwip → Option (List ℕ) → Client → World → Option World
write_chunk l bytes t w = elim t.ctx [
  | none ↦ some w
  | some c ↦ elim bytes [
    | none ↦ some w
    | some bs ↦ if length bs == 0 then some w else Chunk.write_chunk l (closures l t) (some bs) c w
  ]
]

unfoldable pub get_no_delay : Client → World → Bool
get_no_delay t w = elim t.ctx [ none ↦ false | some c ↦ Options.get_no_delay c w ]

-- An address of 0 is no address.
abbrev pub or_zero : Option ℕ → ℕ
or_zero none = 0
or_zero (some a) = a

unfoldable pub remote_ip : Client → World → ℕ
remote_ip t w = elim t.ctx [ none ↦ 0 | some c ↦ or_zero (Options.get_remote_address c w) ]

unfoldable pub remote_port : Client → World → ℕ
remote_port t w = elim t.ctx [ none ↦ 0 | some c ↦ Options.get_remote_port c w ]

unfoldable pub local_ip : Client → World → ℕ
local_ip t w = elim t.ctx [ none ↦ 0 | some c ↦ or_zero (Options.get_local_address c w) ]

unfoldable pub local_port : Client → World → ℕ
local_port t w = elim t.ctx [ none ↦ 0 | some c ↦ Options.get_local_port c w ]

unfoldable pub keep_alive : ℕ → ℕ → ℕ → Client → World → Option World
keep_alive idle_sec intv_sec count t w =
    t.ctx >>= λ c. KeepAlive.keep_alive idle_sec intv_sec count c w

unfoldable pub disable_keep_alive : Client → World → Option World
unfolding keep_alive
disable_keep_alive = keep_alive 0 0 0

unfoldable pub is_keep_alive_enabled : Client → World → Option Bool
is_keep_alive_enabled t w = t.ctx >>= λ c. KeepAlive.is_keep_alive_enabled c w

unfoldable pub get_keep_alive_idle : Client → World → Option ℕ
get_keep_alive_idle t w = t.ctx >>= λ c. KeepAlive.get_keep_alive_idle c w

unfoldable pub get_keep_alive_interval : Client → World → Option ℕ
get_keep_alive_interval t w = t.ctx >>= λ c. KeepAlive.get_keep_alive_interval c w

unfoldable pub get_keep_alive_count : Client → World → Option ℕ
get_keep_alive_count t w = t.ctx >>= λ c. KeepAlive.get_keep_alive_count c w
