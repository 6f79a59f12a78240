-- ===== src/Examples/Class.antt =====
-- Two buffers with the same unread bytes, in two segments and in one.
use async_tcp.Common.{refl, some, none, List, [], ◌∷◌, arith, ◌==◌, if◌then◌else◌}
use mathlib.Core.Quot
use async_tcp.Lwip.{Store}
use async_tcp.Lwip.Chains.{node, Cell}
use async_tcp.RxBuffer.Class.{Reading}
use async_tcp.Context.{RxClosure}
use async_tcp.Examples.{cells, world, buffer, buffer-Holds}

-- The bytes 11 to 14 in a single segment, of which nothing has been read.
abbrev joined_store : Store
joined_store = record {
  live = 1;
  cell = λ q. if q == 4 then some (node (11 ∷ 12 ∷ 13 ∷ 14 ∷ []) 0 1) else none;
}

abbrev joined_cells : List Cell
joined_cells = (4, 11 ∷ 12 ∷ 13 ∷ 14 ∷ []) ∷ []

abbrev split : Reading RxClosure
split = record { buffer = buffer; world = world; cells = cells; holds = buffer-Holds }

abbrev joined : Reading RxClosure
joined = record {
  buffer = record buffer { head = 4; offset = 0 };
  world = record world { mem = joined_store };
  cells = joined_cells;
  holds = record {
    head = refl;
    chain = (omega arith, omega arith, refl, omega arith, omega arith, tt);
    cursor = omega arith;
  };
}
