-- ===== src/Lwip/Refcount.antt =====
-- A reference-counting pbuf memory, with answers for the other functions of lwIP.
use async_tcp.Common.{
  ℕ, zero, suc, ◌+◌, ◌-◌, ◌<◌, ◌≡◌, refl, ap, ◌≢◌, true, false, none, some, List, [], ◌∷◌, arith,
  ◌==◌, if◌then◌else◌, length,
}
use async_tcp.Lwip.{negsuc, Ptr, null, ok, Pbuf, Store, put, erase, Codes, Lwip}
use async_tcp.Lwip.Chains.{Cell, link_last, Linked, Chain-Linked, length-le-live, PbufLaws}

ref : Ptr → Store → Store
ref a s = elim (s.cell a) [ none ↦ s | some b ↦ put a (record b { ref = b.ref + 1 }) s ]

drop_ref : ℕ → Ptr → Store → Store
drop_ref zero a s = s
drop_ref (suc k) a s = if a == null then s else elim (s.cell a) [
  | none ↦ s
  | some b ↦
      if b.ref == 1 then drop_ref k b.next (erase a s) else put a (record b { ref = b.ref - 1 }) s
]

free : Ptr → Store → Store
unfolding drop_ref
free a s = drop_ref s.live a s

link : ℕ → Ptr → Ptr → Store → Store
link zero a t s = s
link (suc k) a t s = elim (s.cell a) [
  | none ↦ s
  | some b ↦ if b.next == null then put a (record b { next = t }) s else link k b.next t s
]

cat : Ptr → Ptr → Store → Store
unfolding link
cat a t s = link s.live a t s

drop_ref-shared :
    (n : ℕ) (s : Store) (a : Ptr) (b : Pbuf) (k : ℕ)
    → a ≢ null
    → 0 < n
    → s.cell a ≡ some b
    → b.ref ≡ suc (suc k)
    → drop_ref n a s ≡ put a (record b { ref = suc k }) s
unfolding drop_ref
drop_ref-shared zero s a b k ne live e r = absurd (omega arith)
drop_ref-shared (suc n) s a b k ne live e r =
    let some_a : (a == null) ≡ false = ground arith in
    let many : (b.ref == 1) ≡ false = ground arith in
    let less : b.ref - 1 ≡ suc k = omega arith in
    rw (some_a, e, drop_ref) (rw many (ap (λ (m : ℕ). put a (record b { ref = m }) s) less))

drop_ref-last :
    (n : ℕ) (s : Store) (a : Ptr) (b : Pbuf)
    → a ≢ null
    → 0 < n
    → s.cell a ≡ some b
    → b.ref ≡ 1
    → drop_ref n a s ≡ drop_ref (n - 1) b.next (erase a s)
unfolding drop_ref
drop_ref-last zero s a b ne live e r = absurd (omega arith)
drop_ref-last (suc n) s a b ne live e r =
    let some_a : (a == null) ≡ false = ground arith in
    let one : (b.ref == 1) ≡ true = ground arith in
    let less : n ≡ suc n - 1 = omega arith in
    rw (some_a, e, drop_ref) (rw one (ap (λ (m : ℕ). drop_ref m b.next (erase a s)) less))

drop_ref-null : (n : ℕ) (s : Store) → drop_ref n null s ≡ s
unfolding drop_ref
drop_ref-null zero s = refl
drop_ref-null (suc n) s = refl

link-link_last :
    (k : ℕ) (s : Store) (c : Cell) (cs : List Cell) (t : Ptr)
    → length cs < k
    → Linked s (c ∷ cs)
    → link k c.0 t s ≡ link_last (c ∷ cs) t s
unfolding link
link-link_last zero s c cs t h ch = absurd (omega arith)
link-link_last (suc k) s (a, bs) [] t h (ne, e, _) = rw (e, link)
link-link_last (suc k) s (a, bs) ((d, ds) ∷ cs) t h (ne, e, rest) =
    let more : (d == null) ≡ false = ground arith in
    rw (e, link) (rw more (link-link_last k s (d, ds) cs t (omega arith) rest))

-- Ample answers: every call succeeds, and the send buffer has room for `room` bytes at any time.
abbrev pub sample_codes : Codes
sample_codes = record {
  err_mem = negsuc 0;
  err_abrt = negsuc 12;
  err_clsd = negsuc 14;
  err_conn = negsuc 10;
  pico_error_generic = negsuc 0;
  pico_error_timeout = negsuc 1;
  pico_error_no_data = negsuc 2;
  pico_error_invalid_arg = negsuc 4;
  pico_error_io = negsuc 5;
  pico_error_resource_in_use = negsuc 17;
}

unfoldable pub sample : ℕ → Lwip
unfolding ref free cat
sample room = record {
  codes = sample_codes;
  tcp_mss = 1460;
  pbuf_ref = ref;
  pbuf_free = free;
  pbuf_cat = cat;
  tcp_new = λ _. 7;
  tcp_sndbuf = λ _ _. room;
  tcp_write = λ _ _ _ _. ok;
  tcp_connect = λ _ _ _ _. ok;
  tcp_close = λ _ _. ok;
}

pub sample-PbufLaws : (room : ℕ) → PbufLaws (sample room)
unfolding sample
sample-PbufLaws room = record {
  ref_lem = λ s a b e. rw (e, ref);
  free_shared = λ s a b k ne live e r. drop_ref-shared s.live s a b k ne live e r;
  free_last = λ s a b ne live e r. drop_ref-last s.live s a b ne live e r;
  free_null = λ s. drop_ref-null s.live s;
  cat_lem = λ s c cs t ch.
      link-link_last s.live s c cs t (length-le-live s (c ∷ cs) ch) (Chain-Linked s (c ∷ cs) ch);
}
