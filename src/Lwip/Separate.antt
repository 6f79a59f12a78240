-- ===== src/Lwip/Separate.antt =====
-- Two chains side by side: joining them, and freeing one of them.
use async_tcp.Common.{
  ◌-◌, ◌≡◌, refl, sym, ◌∙◌, ap, fun_ext, false, List, [], ◌∷◌, ◌++◌, arith, ◌==◌, length, All,
}
use mathlib.Core.Path.{subst}
use async_tcp.Lwip.{Ptr, Store, Pbuf, put, erase}
use async_tcp.Lwip.Chains.{
  Cell, addr, node, Chain, erase_all, link_last, Linked, Chain-Linked, length-le-live, store_path,
}

-- The chain `cs`, and beside it the chain `ds`.
abbrev pub Separate : Store → List Cell → List Cell → Type 0
Separate s cs ds = Chain s cs × Chain (erase_all cs s) ds

abbrev Avoids : Ptr → List Cell → Type 0
Avoids a = All (λ c. (a == c.0) ≡ false)

erase_comm : (a c : Ptr) (s : Store) → erase a (erase c s) ≡ erase c (erase a s)
erase_comm a c s = store_path refl (fun_ext λ q. ground arith)

erase-erase_all :
    (a : Ptr) (cs : List Cell) (s : Store) → erase a (erase_all cs s) ≡ erase_all cs (erase a s)
erase-erase_all a [] s = refl
erase-erase_all a ((c, bs) ∷ cs) s =
    erase-erase_all a cs (erase c s) ∙ ap (erase_all cs) (erase_comm a c s)

-- What is found after `a` is taken out is not `a`.
Linked-Avoids : (a : Ptr) (s : Store) (cs : List Cell) → Linked (erase a s) cs → Avoids a cs
Linked-Avoids a s [] h = tt
Linked-Avoids a s ((c, bs) ∷ cs) (_, e, rest) = (ground arith, Linked-Avoids a s cs rest)

Chain-erase : (a : Ptr) (s : Store) (cs : List Cell) → Chain (erase a s) cs → Chain s cs
Chain-erase a s [] h = tt
Chain-erase a s ((c, bs) ∷ cs) (ne, live, e, full, short, rest) = (
  ne,
  omega arith,
  ground arith,
  full,
  short,
  Chain-erase a (erase c s) cs (rw (erase_comm a c s) rest),
)

pub Chain-erase_all : (s : Store) (cs ds : List Cell) → Chain (erase_all cs s) ds → Chain s ds
Chain-erase_all s [] ds h = h
Chain-erase_all s ((a, bs) ∷ cs) ds h = Chain-erase a s ds (Chain-erase_all (erase a s) cs ds h)

cell-erase_all :
    (a : Ptr) (cs : List Cell) (s : Store) → Avoids a cs → (erase_all cs s).cell a ≡ s.cell a
cell-erase_all a [] s h = refl
cell-erase_all a ((c, bs) ∷ cs) s (ne, rest) = cell-erase_all a cs (erase c s) rest ∙ ground arith

live-erase_all : (cs : List Cell) (s : Store) → (erase_all cs s).live ≡ s.live - length cs
live-erase_all [] s = omega arith
live-erase_all ((c, bs) ∷ cs) s = live-erase_all cs (erase c s) ∙ omega arith

-- Two chains side by side may be taken in either order.
pub Separate-Chain : (s : Store) (cs ds : List Cell) → Separate s cs ds → Chain (erase_all ds s) cs
Separate-Chain s [] ds h = tt
Separate-Chain s ((a, bs) ∷ cs) ds ((ne, live, e, full, short, rest), beside) =
    let apart : Avoids a ds =
      Linked-Avoids a s ds
        (Chain-Linked (erase a s) ds (Chain-erase_all (erase a s) cs ds beside)) in
    (
      ne,
      omega (
        arith,
        live-erase_all ds s,
        live-erase_all cs (erase a s),
        length-le-live (erase_all cs (erase a s)) ds beside,
      ),
      cell-erase_all a ds s apart ∙ e,
      full,
      short,
      rw (erase-erase_all a ds s) (Separate-Chain (erase a s) cs ds (rest, beside)),
    )

erase-link_last :
    (a : Ptr) (cs : List Cell) (t : Ptr) (s : Store)
    → Avoids a cs
    → erase a (link_last cs t s) ≡ link_last cs t (erase a s)
erase-link_last a [] t s h = refl
erase-link_last a ((c, bs) ∷ []) t s (ne, _) = store_path refl (fun_ext λ q. ground arith)
erase-link_last a ((c, bs) ∷ d ∷ cs) t s (_, rest) = erase-link_last a (d ∷ cs) t s rest

cell-link_last :
    (a : Ptr) (cs : List Cell) (t : Ptr) (s : Store)
    → Avoids a cs
    → ((link_last cs t s).cell a ≡ s.cell a) × ((link_last cs t s).live ≡ s.live)
cell-link_last a [] t s h = (refl, refl)
cell-link_last a ((c, bs) ∷ []) t s (ne, _) = (ground arith, refl)
cell-link_last a ((c, bs) ∷ d ∷ cs) t s (_, rest) = cell-link_last a (d ∷ cs) t s rest

erase-put : (a : Ptr) (b : Pbuf) (s : Store) → erase a (put a b s) ≡ erase a s
erase-put a b s = store_path refl (fun_ext λ q. ground arith)

-- Linking the last segment of one chain to the other makes one chain of both.
pub Chain-link_last :
    (s : Store) (c : Cell) (cs ds : List Cell)
    → Separate s (c ∷ cs) ds
    → Chain (link_last (c ∷ cs) (addr ds) s) (c ∷ cs ++ ds)
Chain-link_last s (a, bs) [] ds ((ne, live, e, full, short, _), beside) =
    (ne, live, ground arith, full, short, rw (erase-put a (node bs (addr ds) 1) s) beside)
Chain-link_last s (a, bs) (d ∷ cs) ds ((ne, live, e, full, short, rest), beside) =
    let apart : Avoids a (d ∷ cs) =
      Linked-Avoids a s (d ∷ cs) (Chain-Linked (erase a s) (d ∷ cs) rest) in
    let (same, count) = cell-link_last a (d ∷ cs) (addr ds) s apart in
    (
      ne,
      omega (arith, count),
      same ∙ e,
      full,
      short,
      subst (λ (x : Store). Chain x (d ∷ cs ++ ds))
          (sym (erase-link_last a (d ∷ cs) (addr ds) s apart))
          (Chain-link_last (erase a s) d cs ds (rest, beside)),
    )

-- The segments of a chain are taken out one part after the other.
pub erase_all-append :
    (cs ds : List Cell) (s : Store) → erase_all (cs ++ ds) s ≡ erase_all ds (erase_all cs s)
erase_all-append [] ds s = refl
erase_all-append ((a, bs) ∷ cs) ds s = erase_all-append cs ds (erase a s)

pub erase_all_comm :
    (cs ds : List Cell) (s : Store) → erase_all cs (erase_all ds s) ≡ erase_all ds (erase_all cs s)
erase_all_comm [] ds s = refl
erase_all_comm ((a, bs) ∷ cs) ds s =
    ap (erase_all cs) (erase-erase_all a ds s) ∙ erase_all_comm cs ds (erase a s)

-- A chain taken out leaves the same memory whatever its last segment pointed to.
pub erase_all-link_last :
    (s : Store) (cs : List Cell) (t : Ptr)
    → Chain s cs
    → erase_all cs (link_last cs t s) ≡ erase_all cs s
erase_all-link_last s [] t h = refl
erase_all-link_last s ((a, bs) ∷ []) t h = erase-put a (node bs t 1) s
erase_all-link_last s ((a, bs) ∷ d ∷ cs) t (_, _, _, _, _, rest) =
    let apart : Avoids a (d ∷ cs) =
      Linked-Avoids a s (d ∷ cs) (Chain-Linked (erase a s) (d ∷ cs) rest) in
    ap (erase_all (d ∷ cs)) (erase-link_last a (d ∷ cs) t s apart)
    ∙ erase_all-link_last (erase a s) (d ∷ cs) t rest
