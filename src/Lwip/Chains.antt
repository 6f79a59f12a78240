-- ===== src/Lwip/Chains.antt =====
-- Chains of pbufs, and what lwIP documents of `pbuf_ref`, `pbuf_free` and `pbuf_cat`.
use async_tcp.Common.{
  ℕ, sym, ap, some-injective, suc, ◌+◌, ◌≤◌, ◌<◌, ◌≡◌, refl, ◌∙◌, fun_ext, ◌≢◌, false, some, List,
  [], ◌∷◌, ◌++◌, arith, ◌==◌, if◌then◌else◌, length,
}
use async_tcp.Lwip.{Ptr, null, Pbuf, Store, put, erase, Lwip}

-- A segment: its address and its bytes.
abbrev pub Cell : Type 0
Cell = Ptr × List ℕ

abbrev pub addr : List Cell → Ptr
addr [] = null
addr ((a, bs) ∷ cs) = a

abbrev pub node : List ℕ → Ptr → ℕ → Pbuf
node bs n r = record { next = n; payload = bs; ref = r }

-- The chain at `addr cs` holds the segments `cs`, each of 1 to 65535 bytes (`len` is a `u16_t`) and
-- with one reference. A segment is looked for in the memory that the ones before it leave, so all
-- are distinct.
abbrev pub Chain : Store → List Cell → Type 0
Chain s [] = Unit {0}
Chain s ((a, bs) ∷ cs) =
    (a ≢ null)
    × (0 < s.live)
    × (s.cell a ≡ some (node bs (addr cs) 1))
    × (0 < length bs)
    × (length bs < 65536)
    × Chain (erase a s) cs

-- The memory without the segments of a chain.
abbrev pub erase_all : List Cell → Store → Store
erase_all [] s = s
erase_all ((a, bs) ∷ cs) s = erase_all cs (erase a s)

-- The memory in which the last segment of a chain is followed by `t`.
abbrev pub link_last : List Cell → Ptr → Store → Store
link_last [] t s = s
link_last ((a, bs) ∷ []) t s = put a (node bs t 1) s
link_last ((a, bs) ∷ c ∷ cs) t s = link_last (c ∷ cs) t s

pub record PbufLaws (l : Lwip) : Type 0 where
  -- `pbuf_ref` increments the reference count.
  pub ref_lem :
      (s : Store) (a : Ptr) (b : Pbuf)
      → s.cell a ≡ some b
      → l.pbuf_ref a s ≡ put a (record b { ref = b.ref + 1 }) s
  -- `pbuf_free` decrements the count, and stops there if other references remain.
  pub free_shared :
      (s : Store) (a : Ptr) (b : Pbuf) (k : ℕ)
      → a ≢ null
      → 0 < s.live
      → s.cell a ≡ some b
      → b.ref ≡ suc (suc k)
      → l.pbuf_free a s ≡ put a (record b { ref = suc k }) s
  -- At the last reference it deallocates the pbuf and goes on with the next of the chain.
  pub free_last :
      (s : Store) (a : Ptr) (b : Pbuf)
      → a ≢ null
      → 0 < s.live
      → s.cell a ≡ some b
      → b.ref ≡ 1
      → l.pbuf_free a s ≡ l.pbuf_free b.next (erase a s)
  pub free_null : (s : Store) → l.pbuf_free null s ≡ s
  -- `pbuf_cat` links the second chain behind the last pbuf of the first.
  pub cat_lem :
      (s : Store) (c : Cell) (cs : List Cell) (t : Ptr)
      → Chain s (c ∷ cs)
      → l.pbuf_cat c.0 t s ≡ link_last (c ∷ cs) t s

pub store_path : {s t : Store} → s.live ≡ t.live → s.cell ≡ t.cell → s ≡ t
store_path p q = λ i. record { live = p i; cell = q i }

-- A write to a segment that lies behind a freed one, undone.
put-erase-put :
    (s : Store) (a c : Ptr) (b d : Pbuf)
    → (erase a s).cell c ≡ some b
    → put c b (erase a (put c d s)) ≡ erase a s
put-erase-put s a c b d h = store_path refl (fun_ext λ q. ground arith)

cell_behind :
    (s : Store) (a c : Ptr) (b : Pbuf)
    → (erase a s).cell c ≡ some b
    → (s.cell c ≡ some b) × ((a == c) ≡ false)
cell_behind s a c b h = ground arith

-- The same without the separation: each segment is where the one before it points.
abbrev pub Linked : Store → List Cell → Type 0
Linked s [] = Unit {0}
Linked s ((a, bs) ∷ cs) = (a ≢ null) × (s.cell a ≡ some (node bs (addr cs) 1)) × Linked s cs

Linked-erase : (s : Store) (a : Ptr) (cs : List Cell) → Linked (erase a s) cs → Linked s cs
Linked-erase s a [] h = tt
Linked-erase s a ((c, bs) ∷ cs) (ne, e, rest) =
    (ne, (cell_behind s a c _ e).0, Linked-erase s a cs rest)

pub Chain-Linked : (s : Store) (cs : List Cell) → Chain s cs → Linked s cs
Chain-Linked s [] h = tt
Chain-Linked s ((a, bs) ∷ cs) (ne, _, e, _, _, rest) =
    (ne, e, Linked-erase s a cs (Chain-Linked (erase a s) cs rest))

-- There are at least as many pbufs as segments.
pub length-le-live : (s : Store) (cs : List Cell) → Chain s cs → length cs ≤ s.live
length-le-live s [] h = omega arith
length-le-live s ((a, bs) ∷ cs) (_, live, _, _, _, rest) =
    omega (arith, length-le-live (erase a s) cs rest)

-- Each freed segment is one pbuf less.
pub erase_all-live :
    (s : Store) (cs ds : List Cell)
    → Chain s (cs ++ ds)
    → (erase_all cs s).live + length cs ≡ s.live
erase_all-live s [] ds h = omega arith
erase_all-live s ((a, bs) ∷ cs) ds (_, live, _, _, _, rest) =
    omega (arith, live, erase_all-live (erase a s) cs ds rest)

pub link_last-live : (cs : List Cell) (t : Ptr) (s : Store) → (link_last cs t s).live ≡ s.live
link_last-live [] t s = refl
link_last-live (c ∷ []) t s = refl
link_last-live (c ∷ d ∷ cs) t s = link_last-live (d ∷ cs) t s

module _ {l : Lwip} (laws : PbufLaws l) where
  open laws use {ref_lem, free_shared, free_last, free_null}

  -- Freeing the first segment, with a reference taken on the second, takes the first out.
  pub free_first :
      (s : Store) (a : Ptr) (bs : List ℕ) (cs : List Cell)
      → Chain s ((a, bs) ∷ cs)
      → l.pbuf_free a (if addr cs == null then s else l.pbuf_ref (addr cs) s) ≡ erase a s
  free_first s a bs [] (ne, live, e, _, _, _) =
      free_last s a _ ne live e refl ∙ free_null (erase a s)
  free_first s a bs ((c, ds) ∷ cs) (ne, live, e, _, _, (ne', live', e', _, _, _)) =
      let (here, apart) = cell_behind s a c (node ds (addr cs) 1) e' in
      let some_c : (c == null) ≡ false = ground arith in
      let s' : Store = put c (node ds (addr cs) 2) s in
      let step : l.pbuf_free a s' ≡ l.pbuf_free c (erase a s') =
        free_last s' a (node bs c 1) ne live (ground arith) refl in
      let stop : l.pbuf_free c (erase a s') ≡ put c (node ds (addr cs) 1) (erase a s') =
        free_shared (erase a s') c (node ds (addr cs) 2) 0 ne' live' (ground arith) refl in
      rw (some_c, ref_lem s c _ here) (step ∙ stop ∙ put-erase-put s a c _ (node ds (addr cs) 2) e')

  -- Freeing a chain takes all of it out.
  pub pbuf_free-erase_all :
      (s : Store) (cs : List Cell) → Chain s cs → l.pbuf_free (addr cs) s ≡ erase_all cs s
  pbuf_free-erase_all s [] h = free_null s
  pbuf_free-erase_all s ((a, bs) ∷ cs) (ne, live, e, _, _, rest) =
      free_last s a _ ne live e refl ∙ pbuf_free-erase_all (erase a s) cs rest

-- A memory has at most one chain at an address.
pub Chain-unique :
    (s : Store) (cs ds : List Cell) → Chain s cs → Chain s ds → addr cs ≡ addr ds → cs ≡ ds
Chain-unique s [] [] h k e = refl
Chain-unique s [] (d ∷ ds) h (ne, _, _, _, _, _) e = absurd (ne (sym e))
Chain-unique s (c ∷ cs) [] (ne, _, _, _, _, _) k e = absurd (ne e)
Chain-unique s ((a, bs) ∷ cs) ((b, bs') ∷ ds) (_, _, cell, _, _, h) (_, _, cell', _, _, k) e =
    let same : node bs (addr cs) 1 ≡ node bs' (addr ds) 1 =
      some-injective _ _ (sym cell ∙ ap s.cell e ∙ cell') in
    let next = ap (λ (p : Pbuf). p.next) same in
    let payload = ap (λ (p : Pbuf). p.payload) same in
    let rest = Chain-unique (erase a s) cs ds h (rw e k) next in rw (e, payload, rest) refl
