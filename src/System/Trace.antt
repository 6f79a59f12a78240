-- ===== src/System/Trace.antt =====
-- Sequences of events on a client.
use async_tcp.Common.{List, [], ◌∷◌, ◌≡◌, refl, sym, ◌∙◌, inl, some, some-injective}
use async_tcp.Lwip.{World, Lwip}
use async_tcp.Lwip.Chains.{PbufLaws}
use async_tcp.Client.{Statics, new_client}
use async_tcp.System.{System, Event, handle, Legal}
use async_tcp.System.Valid.{IsValid}
use async_tcp.System.Handling.{handle-IsHandled}
use async_tcp.System.Operations.{IsHandled}

-- Sequences of legal events that returned.
pub data Trace (l : Lwip) (m0 : System) : System → Type 0 where
  empty : Trace l m0 m0
  step :
      {m m' : System}
      → Trace l m0 m
      → (ev : Event) → Legal ev m
      → handle l ev m ≡ some m'
      → Trace l m0 m'

-- The events of a run, the last first.
abbrev pub events : {l : Lwip} {m0 m : System} → Trace l m0 m → List Event
events empty = []
events (step run ev legal returns) = ev ∷ events run

pub trace-IsValid :
    {l : Lwip} → PbufLaws l → {m0 : System} {m : System} → IsValid m0 → Trace l m0 m → IsValid m
trace-IsValid laws v empty = v
trace-IsValid laws v (step run ev legal e) =
    let (m1, returns, v') = handle-IsHandled laws ev _ (trace-IsValid laws v run) legal in
    rw (some-injective _ _ (sym e ∙ returns)) v'

abbrev pub initial : Statics → World → System
initial s w = record { statics = s; client = new_client; world = w }

-- After any sequence of legal events on a new client, whatever connections were made and given up,
-- failed or refused, any further legal event returns: no null pointer or dangling segment is met, no
-- assertion fails, no unset callback is called and no loop goes on forever. The client again has no
-- context, or one with all its parts whose buffer holds a chain. Events are connecting, stopping,
-- shutting down, setters and options, consuming, `write`, `writeChunk` and `writeData`, the five
-- kinds of call of lwIP, and what lwIP does by itself.
pub trace-IsHandled :
    {l : Lwip}
    → PbufLaws l
    → (s : Statics) (w : World) (m : System) → Trace l (initial s w) m
    → (ev : Event) → Legal ev m
    → IsHandled l ev m
unfolding new_client
trace-IsHandled laws s w m run ev legal =
    handle-IsHandled laws ev m (trace-IsValid laws (inl refl) run) legal
