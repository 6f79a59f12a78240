-- ===== src/Lwip/Registered.antt =====
-- The callbacks that lwIP has for a control block, read off the calls made so far.
use async_tcp.Common.{Bool, true, false, List, [], ◌∷◌, ◌==◌, if◌then◌else◌}
use async_tcp.Lwip.{Ptr, null, Call, set_arg, set_recv, set_sent, set_err, set_poll}

-- The latest `tcp_arg` counts; a fresh control block has none.
abbrev pub arg_of : Ptr → List Call → Ptr
arg_of p [] = null
arg_of p (set_arg q a ∷ cs) = if q == p then a else arg_of p cs
arg_of p (c ∷ cs) = arg_of p cs

abbrev pub recv_of : Ptr → List Call → Bool
recv_of p [] = false
recv_of p (set_recv q b ∷ cs) = if q == p then b else recv_of p cs
recv_of p (c ∷ cs) = recv_of p cs

abbrev pub sent_of : Ptr → List Call → Bool
sent_of p [] = false
sent_of p (set_sent q b ∷ cs) = if q == p then b else sent_of p cs
sent_of p (c ∷ cs) = sent_of p cs

abbrev pub err_of : Ptr → List Call → Bool
err_of p [] = false
err_of p (set_err q b ∷ cs) = if q == p then b else err_of p cs
err_of p (c ∷ cs) = err_of p cs

abbrev pub poll_of : Ptr → List Call → Bool
poll_of p [] = false
poll_of p (set_poll q b n ∷ cs) = if q == p then b else poll_of p cs
poll_of p (c ∷ cs) = poll_of p cs

pub record Registration : Type 0 where
  pub arg : Ptr
  pub recv : Bool
  pub sent : Bool
  pub err : Bool
  pub poll : Bool

abbrev pub registration : Ptr → List Call → Registration
registration p cs = record {
  arg = arg_of p cs;
  recv = recv_of p cs;
  sent = sent_of p cs;
  err = err_of p cs;
  poll = poll_of p cs;
}

-- Every callback, with the object `self` as their argument.
abbrev pub registered : Ptr → Registration
registered self = record { arg = self; recv = true; sent = true; err = true; poll = true }

-- No callback.
abbrev pub withdrawn : Registration
withdrawn = record { arg = null; recv = false; sent = false; err = false; poll = false }
