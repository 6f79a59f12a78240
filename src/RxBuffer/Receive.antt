-- ===== src/RxBuffer/Receive.antt =====
-- `lwip_receive_callback` and `reset`: how segments enter the buffer and leave it unread.
use async_tcp.Common.{
  ℕ, ◌≡◌, refl, sym, ap, ◌∙◌, some-injective, bind-some, true, false, Option, some, List, [], ◌∷◌,
  ◌++◌, append_assoc, arith, ◌==◌, if◌then◌else◌, drop-append, length-append, ◌>>=◌,
}
use async_tcp.Lwip.{Ptr, null, ErrT, ok, is_ok, Store, World, Lwip}
use async_tcp.Lwip.Chains.{
  Cell, addr, Chain, erase_all, link_last, link_last-live, PbufLaws, pbuf_free-erase_all,
}
use async_tcp.Lwip.Separate.{Separate-Chain, Chain-erase_all, Chain-link_last, erase_all-link_last}
use async_tcp.RxBuffer.{RxBuffer, on_callback, lwip_receive_callback, reset}
use async_tcp.RxBuffer.Stream.{bytes, from, IsCursor, Holds, stream, head-ne-null}

bytes-append : (cs ds : List Cell) → bytes (cs ++ ds) ≡ bytes cs ++ bytes ds
bytes-append [] ds = refl
bytes-append ((a, bs) ∷ cs) ds =
    rw (bytes-append cs ds) (sym (append_assoc bs (bytes cs) (bytes ds)))

-- A cursor inside a chain reads on into what is appended.
from-append :
    (off : ℕ) (cs ds : List Cell) → IsCursor off cs → from off (cs ++ ds) ≡ from off cs ++ bytes ds
from-append off [] ds h = rw h
from-append off ((a, bs) ∷ cs) ds h =
    rw (bytes-append cs ds, ← append_assoc)
      (drop-append off (bs ++ bytes cs) (bytes ds) (omega (arith, length-append bs (bytes cs))))

-- The notification that a delivery ends with.
abbrev pub notified :
    {K : Type 0} (invoke : K → World → Option World)
    → ErrT
    → RxBuffer K
    → Store
    → Option K
    → World
    → Option (ErrT × RxBuffer K × World)
notified invoke result b s cb w =
    on_callback invoke cb (record w { mem = s }) >>= λ w'. some (result, b, w')

-- If it returns, the callback did, and the buffer is the one it was notified with.
pub notified-inv :
    {K : Type 0} (invoke : K → World → Option World) (r0 r : ErrT) (b b' : RxBuffer K) (s : Store)
    (cb : Option K) (w w' : World)
    → notified invoke r0 b s cb w ≡ some (r, b', w')
    → (b' ≡ b) × (on_callback invoke cb (record w { mem = s }) ≡ some w')
notified-inv {K} invoke r0 r b b' s cb w w' e =
    let (w1, called, e') = bind-some (on_callback invoke cb (record w { mem = s })) _ _ e in
    let same = some-injective _ _ e' in
    (
      ap (λ (q : ErrT × RxBuffer K × World). q.1) (sym same),
      called ∙ ap (λ (q : ErrT × RxBuffer K × World). some q.2) same,
    )

module _ {l : Lwip} (laws : PbufLaws l) where
  free_given :
      (s : Store) (ds : List Cell)
      → Chain s ds
      → (if addr ds == null then s else l.pbuf_free (addr ds) s) ≡ erase_all ds s
  free_given s [] h = refl
  free_given s ((a, bs) ∷ ds) h =
      let (ne, _, _, _, _, _) = h in
      let some_a : (a == null) ≡ false = ground arith in
      rw some_a (pbuf_free-erase_all laws s ((a, bs) ∷ ds) h)

module _ {K : Type 0} {l : Lwip} (laws : PbufLaws l) where
  open laws use {cat_lem}

  -- The buffer and the memory after the chain `ds` was delivered.
  pub record Appended (tpcb : Ptr) (b : RxBuffer K) (s : Store) (cs ds : List Cell)
      (b' : RxBuffer K) (s' : Store) : Type 0 where
    pub holds : Holds b' s' (cs ++ ds)
    pub stream : stream b' (cs ++ ds) ≡ stream b cs ++ bytes ds
    pub kept : b' ≡ record b { pcb = tpcb; head = addr (cs ++ ds) }
    pub live : s'.live ≡ s.live
    pub beside : erase_all cs s' ≡ erase_all cs s

  module _ (invoke : K → World → Option World) (tpcb : Ptr) (b : RxBuffer K) (w : World) where
    -- To a buffer that holds the chain `cs`, the delivery with ERR_OK of a chain `d ∷ ds` apart from
    -- it appends the new bytes to the stream, the buffer owns both chains, and the receive callback
    -- is notified; unless the callback faults, ERR_OK is returned.
    pub lwip_receive_callback-append :
        (cs : List Cell) (d : Cell) (ds : List Cell)
        → Holds b w.mem cs
        → Chain (erase_all cs w.mem) (d ∷ ds)
        → (b' : RxBuffer K) × (s' : Store) × (lwip_receive_callback l invoke tpcb d.0 ok b w
            ≡ notified invoke ok b' s' b.received_cb w)
          × Appended tpcb b w.mem cs (d ∷ ds) b' s'
    unfolding lwip_receive_callback
    lwip_receive_callback-append [] d ds h new =
        let (ne, _, _, full, _, _) = new in
        let some_d : (d.0 == null) ≡ false = ground arith in
        let none_b : (b.head == null) ≡ true = ground (arith, h.head) in
        (
          record b { pcb = tpcb; head = d.0; offset = 0 },
          w.mem,
          rw (some_d, none_b),
          record {
            holds = record { head = refl; chain = new; cursor = full };
            stream = rw h.cursor;
            kept = ap (λ (o : ℕ). record b { pcb = tpcb; head = d.0; offset = o }) (sym h.cursor);
            live = refl;
            beside = refl;
          },
        )
    lwip_receive_callback-append (c ∷ cs) d ds h new =
        let (ne, _, _, _, _, _) = new in
        let (ne_c, _, _, _, _, _) = h.chain in
        let some_d : (d.0 == null) ≡ false = ground arith in
        let some_c : (c.0 == null) ≡ false = ground arith in
        (
          record b { pcb = tpcb },
          link_last (c ∷ cs) d.0 w.mem,
          rw (some_d, h.head, some_c, cat_lem w.mem c cs d.0 h.chain),
          record {
            holds = record {
              head = h.head;
              chain = Chain-link_last w.mem c cs (d ∷ ds) (h.chain, new);
              cursor = h.cursor;
            };
            stream = from-append b.offset (c ∷ cs) (d ∷ ds) h.cursor;
            kept = ap (λ (p : Ptr). record b { pcb = tpcb; head = p }) h.head;
            live = link_last-live (c ∷ cs) d.0 w.mem;
            beside = erase_all-link_last w.mem (c ∷ cs) d.0 h.chain;
          },
        )

    -- To a buffer that holds the chain `cs`, a delivery with an error frees the delivered chain, if
    -- there is one, leaves the buffer's chain and cursor as they were, notifies nobody and returns
    -- the error.
    pub lwip_receive_callback-error :
        (err : ErrT) (cs ds : List Cell)
        → is_ok err ≡ false
        → Holds b w.mem cs
        → Chain (erase_all cs w.mem) ds
        → (lwip_receive_callback l invoke tpcb (addr ds) err b w
            ≡ some (err, record b { pcb = tpcb }, record w { mem = erase_all ds w.mem }))
          × Holds (record b { pcb = tpcb }) (erase_all ds w.mem) cs
    unfolding lwip_receive_callback
    lwip_receive_callback-error err cs ds bad h beside =
        let freed : (if addr ds == null then w.mem else l.pbuf_free (addr ds) w.mem)
            ≡ erase_all ds w.mem =
          free_given laws w.mem ds (Chain-erase_all w.mem cs ds beside) in
        (
          rw (bad, freed),
          record {
            head = h.head;
            chain = Separate-Chain w.mem cs ds (h.chain, beside);
            cursor = h.cursor;
          },
        )

    pub lwip_receive_callback-fin :
        (cs : List Cell)
        → Holds b w.mem cs
        → (lwip_receive_callback l invoke tpcb null ok b w
            ≡ notified invoke l.err_abrt (record b { pcb = tpcb }) w.mem b.fin_cb w)
          × Holds (record b { pcb = tpcb }) w.mem cs
    unfolding lwip_receive_callback
    lwip_receive_callback-fin cs h =
        (refl, record { head = h.head; chain = h.chain; cursor = h.cursor })

  -- On a buffer that holds the chain `cs`, `reset` frees every segment, and an empty buffer remains.
  -- The control block is forgotten only if the buffer held something.
  pub reset-empty :
      (b : RxBuffer K) (s : Store) (cs : List Cell)
      → Holds b s cs
      → ((reset l b s).1 ≡ erase_all cs s)
        × Holds (reset l b s).0 (reset l b s).1 []
        × ((reset l b s).0.pcb ≡ (if b.head == null then b.pcb else null))
  unfolding reset
  reset-empty b s [] h =
      let none_b : (b.head == null) ≡ true = ground (arith, h.head) in
      rw none_b (refl, record { head = h.head; chain = tt; cursor = h.cursor }, refl)
  reset-empty b s ((a, bs) ∷ cs) h =
      let (ne, _) = head-ne-null b s a bs cs h in
      rw ne (
        rw h.head (pbuf_free-erase_all laws s ((a, bs) ∷ cs) h.chain),
        record { head = refl; chain = tt; cursor = refl },
        refl,
      )
