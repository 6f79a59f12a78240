-- ===== src/Client/Ports.antt =====
-- The local ports of successive attempts to connect (`_localPort` in src/TcpClient.cpp).
use async_tcp.Common.{
  ℕ, ◌+◌, ◌<◌, ◌≡◌, ◌∙◌, ap, List, [], ◌∷◌, arith, ltb, if◌then◌else◌, length, Bool-cases, inl, inr,
  ◌==◌,
}
use async_tcp.Lwip.{Ptr, World}
use async_tcp.Client.{Statics}
use async_tcp.Client.Connection.{take_port}

-- Attempts with the control blocks `pcbs`, one after the other.
abbrev pub after_attempts : List Ptr → Statics → World → Statics × World
after_attempts [] s w = (s, w)
after_attempts (p ∷ pcbs) s w = after_attempts pcbs (take_port p s w).0 (take_port p s w).1

stays_unset :
    (pcbs : List Ptr) (s : Statics) (w : World)
    → s.local_port ≡ 0
    → (after_attempts pcbs s w).0.local_port ≡ 0
stays_unset [] s w e = e
stays_unset (p ∷ pcbs) s w e =
    stays_unset pcbs (take_port p s w).0 (take_port p s w).1 (ground arith)

next_port :
    (pcbs : List Ptr) (s : Statics) (w : World)
    → 0 < s.local_port
    → s.local_port < 65536
    → (after_attempts pcbs s w).0.local_port
      ≡ (if ltb (s.local_port + length pcbs) 65536 then s.local_port + length pcbs else 0)
next_port [] s w pos small = ground arith
next_port (p ∷ pcbs) s w pos small = elim (Bool-cases (s.local_port == 65535)) [
  | inl last ↦
      stays_unset pcbs (take_port p s w).0 (take_port p s w).1 (ground arith) ∙ ground (arith, last)
  | inr before ↦
      let one_up : (take_port p s w).0.local_port ≡ s.local_port + 1 = ground (arith, before) in
      let same : (take_port p s w).0.local_port + length pcbs ≡ s.local_port + length (p ∷ pcbs) =
        omega (arith, one_up) in
      next_port pcbs (take_port p s w).0 (take_port p s w).1 (omega (arith, one_up))
        (ground (arith, before, one_up))
      ∙ ap (λ (n : ℕ). if ltb n 65536 then n else 0) same
]

-- If the start is set to a port, successive attempts are given that port and the ones after it, up to
-- 65535. Then the counter is 0, which is no port, and every later attempt keeps the port that its
-- control block has.
pub take_port-after_attempts :
    (pcbs : List Ptr) (pcb : Ptr) (s : Statics) (w : World)
    → 0 < s.local_port
    → s.local_port < 65536
    → let (s', w') = after_attempts pcbs s w in
      let port = s.local_port + length pcbs in
      ((take_port pcb s' w').1.pcbs pcb).local_port
      ≡ (if ltb port 65536 then port else (w'.pcbs pcb).local_port)
take_port-after_attempts pcbs pcb s w pos small =
    let e = next_port pcbs s w pos small in ground (arith, e)
