-- ===== src/Context/KeepAlive.antt =====
-- include/TcpClientContext.hpp: the keep-alive options. `none` is a null dereference: these
-- functions do not check for a control block.
use async_tcp.Common.{
  ℕ, ◌+◌, ◌*◌, ◌/◌, ◌%◌, ◌<◌, ◌≡◌, ◌≢◌, inl, inr, Bool, true, false, Option, none, some, arith,
  ◌==◌, if◌then◌else◌, not, ◌&&◌, ◌>>=◌, size_mod, Bool-cases, bit_set, bit_clear,
}
use Prim.Native.Nat.{bit_and, bit_or}
use async_tcp.Lwip.{null, World, set_pcb, Pcb}
use async_tcp.Context.{Context}

-- SOF_KEEPALIVE and its complement in the `u8_t` that holds the options.
abbrev pub sof_keepalive : ℕ
sof_keepalive = 8

abbrev pub not_keepalive : ℕ
not_keepalive = 247

-- The test of `keepAlive`, and the control block after it.
abbrev pub wanted : ℕ → ℕ → ℕ → Bool
wanted idle_sec intv_sec count = not (idle_sec == 0) && not (intv_sec == 0) && not (count == 0)

abbrev pub options : ℕ → ℕ → ℕ → Pcb → Pcb
options idle_sec intv_sec count p =
    if wanted idle_sec intv_sec count
    then record p {
      so_options = bit_or p.so_options sof_keepalive;
      keep_idle = 1000 * idle_sec % size_mod;
      keep_intvl = 1000 * intv_sec % size_mod;
      keep_cnt = count;
    }
    else record p { so_options = bit_and p.so_options not_keepalive }

module _ {K : Type 0} where
  -- A dereference of `_pcb`.
  abbrev pub deref : Context K → World → Option Pcb
  deref c w = if c.pcb == null then none else some (w.pcbs c.pcb)

  unfoldable pub keep_alive : ℕ → ℕ → ℕ → Context K → World → Option World
  keep_alive idle_sec intv_sec count c w = do
    p ← deref c w
    some (set_pcb c.pcb (options idle_sec intv_sec count p) w)

  unfoldable pub is_keep_alive_enabled : Context K → World → Option Bool
  is_keep_alive_enabled c w = do p ← deref c w; some (not (bit_and p.so_options sof_keepalive == 0))

  -- The times are rounded to seconds in 32 bits and cut to a `uint16_t`.
  unfoldable pub get_keep_alive_idle : Context K → World → Option ℕ
  unfolding is_keep_alive_enabled
  get_keep_alive_idle c w = do
    on ← is_keep_alive_enabled c w
    p ← deref c w
    some (if on then (p.keep_idle + 500) % size_mod / 1000 % 65536 else 0)

  unfoldable pub get_keep_alive_interval : Context K → World → Option ℕ
  unfolding is_keep_alive_enabled
  get_keep_alive_interval c w = do
    on ← is_keep_alive_enabled c w
    p ← deref c w
    some (if on then (p.keep_intvl + 500) % size_mod / 1000 % 65536 else 0)

  unfoldable pub get_keep_alive_count : Context K → World → Option ℕ
  unfolding is_keep_alive_enabled
  get_keep_alive_count c w = do
    on ← is_keep_alive_enabled c w
    p ← deref c w
    some (if on then p.keep_cnt else 0)

  -- The default arguments of `keepAlive`.
  unfoldable pub keep_alive_default : Context K → World → Option World
  unfolding keep_alive
  keep_alive_default = keep_alive 7200 75 9

  module _ (c : Context K) (w : World) (some_pcb : c.pcb ≢ null)
      (byte : (w.pcbs c.pcb).so_options < 256) where
    enabled-options :
        (idle intv count : ℕ)
        → not (bit_and (options idle intv count (w.pcbs c.pcb)).so_options sof_keepalive == 0)
          ≡ wanted idle intv count
    enabled-options idle intv count = elim (Bool-cases (wanted idle intv count)) [
      | inl on ↦ rw on (bit_set (w.pcbs c.pcb).so_options byte)
      | inr off ↦ rw off (rw (bit_clear (w.pcbs c.pcb).so_options byte))
    ]

    -- With a control block whose options fit a byte, and times below 2^16: after `keepAlive` with three
    -- positive arguments keep-alive is on and the getters return them; with a zero among them it is
    -- off, and the getters return 0.
    pub keep_alive-getters :
        (idle_sec intv_sec count : ℕ)
        → idle_sec < 65536
        → intv_sec < 65536
        → let on = wanted idle_sec intv_sec count in
          (w' : World) × (keep_alive idle_sec intv_sec count c w ≡ some w')
          × (is_keep_alive_enabled c w' ≡ some on)
          × (get_keep_alive_idle c w' ≡ some (if on then idle_sec else 0))
          × (get_keep_alive_interval c w' ≡ some (if on then intv_sec else 0))
          × (get_keep_alive_count c w' ≡ some (if on then count else 0))
    unfolding keep_alive get_keep_alive_idle get_keep_alive_interval get_keep_alive_count
    keep_alive-getters idle intv count hi hv =
        let here : (c.pcb == null) ≡ false = ground arith in
        let self : (c.pcb == c.pcb) ≡ true = ground arith in
        let on = enabled-options idle intv count in
        (
          set_pcb c.pcb (options idle intv count (w.pcbs c.pcb)) w,
          rw here,
          rw (here, self) (rw on),
          rw (here, self) (rw on (ground arith)),
          rw (here, self) (rw on (ground arith)),
          rw (here, self) (rw on (ground arith)),
        )

  -- Without a control block `keepAlive` and its four getters dereference the null pointer.
  pub keep_alive-fault :
      (idle_sec intv_sec count : ℕ) (c : Context K) (w : World)
      → c.pcb ≡ null
      → (keep_alive idle_sec intv_sec count c w ≡ none)
        × (is_keep_alive_enabled c w ≡ none)
        × (get_keep_alive_idle c w ≡ none)
        × (get_keep_alive_interval c w ≡ none)
        × (get_keep_alive_count c w ≡ none)
  unfolding keep_alive get_keep_alive_idle get_keep_alive_interval get_keep_alive_count
  keep_alive-fault idle intv count c w e =
      let gone : (c.pcb == null) ≡ true = ground arith in
      (rw gone, rw gone, rw gone, rw gone, rw gone)
