-- ===== src/System/Told.antt =====
-- What a delivery brings, and which bridge is told of it.
use async_tcp.Common.{
  ℕ, ◌≡◌, refl, ap, true, Option, none, some, List, [], ◌∷◌, arith, if◌then◌else◌,
}
use async_tcp.Lwip.{pos, negsuc, ErrT, ok, is_ok, World, log, Store, run, workload, rx_buffer, Lwip}
use async_tcp.Lwip.Chains.{Cell}
use async_tcp.RxBuffer.Stream.{bytes}
use async_tcp.System.Traffic.{Untold}
use async_tcp.Context.{RxClosure, calls_fin_cb, calls_receive_cb}
use async_tcp.Client.{Client}

pub is_ok-ok : (err : ErrT) → is_ok err ≡ true → err ≡ ok
is_ok-ok (pos n) e = ap (λ (k : ℕ). pos k) (ground arith)
is_ok-ok (negsuc n) e = absurd (ground arith)

-- The world after a bridge, if it is set, got the receive buffer and was told to run.
abbrev pub told : Option ℕ → World → World
told none w = w
told (some b) w = log (run b) (log (workload b rx_buffer) w)

pub told-mem : (o : Option ℕ) (w : World) → (told o w).mem ≡ w.mem
told-mem none w = refl
told-mem (some b) w = refl

pub told-calls :
    (o : Option ℕ) (w : World) (s : Store)
    → (told o (record w { mem = s })).calls ≡ (told o w).calls
told-calls none w s = refl
told-calls (some b) w s = refl

pub told-Untold : (l : Lwip) (o : Option ℕ) (w : World) → Untold l w.calls (told o w).calls
told-Untold l none w = (λ q. refl, refl)
told-Untold l (some b) w = (λ q. refl, refl)

abbrev pub notice : Client → RxClosure → Option ℕ
notice t calls_fin_cb = t.fin_bridge
notice t calls_receive_cb = t.received_bridge

-- An empty delivery is a FIN.
abbrev pub kind : List Cell → RxClosure
kind [] = calls_fin_cb
kind (d ∷ ds) = calls_receive_cb

-- The bytes of a delivery; with an error it brings none.
abbrev pub arriving : ErrT → List Cell → List ℕ
arriving err ds = if is_ok err then bytes ds else []
