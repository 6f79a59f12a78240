-- ===== src/System/Pair/Acting.antt =====
-- An event of one client beside another.
use async_tcp.Common.{
  arith, some-injective, ◌≡◌, refl, sym, ap, ◌∙◌, inl, inr, Bool, false, some, List,
}
use mathlib.Core.Path.{subst}
use async_tcp.Lwip.{World, Store, Lwip}
use async_tcp.Lwip.Chains.{Cell, Chain, Chain-unique, PbufLaws, erase_all}
use async_tcp.Lwip.Separate.{Separate, Separate-Chain, Chain-erase_all}
use async_tcp.RxBuffer.{RxBuffer}
use async_tcp.Context.{Context, RxClosure}
use async_tcp.Client.{Client, Statics, Closure}
use async_tcp.System.{System, Event, handle, Legal}
use async_tcp.System.Valid.{in_world}
use async_tcp.System.Unread.{handed, by_itself, TakesOut}
use async_tcp.System.Spec.{View, next, accepts, Shows, shows_absent, shows_session}
use async_tcp.System.Spec.Refines.{handle-Follows}
use async_tcp.System.Pair.{Held}

abbrev pub system : Statics → Client → World → System
system s t w = record { statics = s; client = t; world = w }

pub Shows-Held : {m : System} {v : View} {cs : List Cell} → Shows m v cs → Held m cs
Shows-Held (shows_absent e) = inl (e, refl)
Shows-Held (shows_session h at) =
    inr (h.context, h.works.buffer, h.here, h.works.here, h.works.holds)

-- The segments that a client holds are determined.
pub Held-unique : (m : System) (cs ds : List Cell) → Held m cs → Held m ds → cs ≡ ds
Held-unique m cs ds (inl (_, e)) (inl (_, e')) = e ∙ sym e'
Held-unique m cs ds (inl (none_c, _)) (inr (c, b, some_c, _, _)) =
    absurd (ground (arith, none_c, some_c))
Held-unique m cs ds (inr (c, b, some_c, _, _)) (inl (none_c, _)) =
    absurd (ground (arith, none_c, some_c))
Held-unique m cs ds (inr (c, b, ec, eb, h)) (inr (c', b', ec', eb', h')) =
    let same_c = some-injective _ _ (sym ec ∙ ec') in
    let same_rx = ap (λ (x : Context Closure). x.rx) same_c in
    let same_b = some-injective _ _ (sym eb ∙ same_rx ∙ eb') in
    Chain-unique m.world.mem cs ds h.chain h'.chain
      (sym h.head ∙ ap (λ (x : RxBuffer RxClosure). x.head) same_b ∙ h'.head)

pub Shows-Chain : {m : System} {v : View} {cs : List Cell} → Shows m v cs → Chain m.world.mem cs
Shows-Chain (shows_absent e) = tt
Shows-Chain (shows_session h at) = h.works.holds.chain

-- What a client shows depends on its context and its segments alone.
pub Shows-elsewhere :
    {s : Statics} {t : Client} {w : World} {v : View} {cs : List Cell} (s' : Statics) (w' : World)
    → Shows (system s t w) v cs
    → Chain w'.mem cs
    → Shows (system s' t w') v cs
Shows-elsewhere s' w' (shows_absent e) chain = shows_absent e
Shows-elsewhere s' w' (shows_session h at) chain =
    shows_session
      (record {
        context = h.context;
        here = h.here;
        works =
            in_world w' h.works
              (record { head = h.works.holds.head; chain = chain; cursor = h.works.holds.cursor });
        same = h.same;
      })
      at

pub Separate-sym : (s : Store) (cs ds : List Cell) → Separate s cs ds → Separate s ds cs
Separate-sym s cs ds h = (Chain-erase_all s cs ds h.1, Separate-Chain s cs ds h)

-- What is taken out beside a chain leaves it alone.
Chain-beside :
    (r r' : Store) (cs ds : List Cell)
    → r' ≡ erase_all ds r
    → Chain r cs
    → Chain (erase_all cs r) ds
    → Chain r' cs
Chain-beside r r' cs ds e chain apart = rw e (Separate-Chain r cs ds (chain, apart))

module _ {l : Lwip} (laws : PbufLaws l) where
  -- A client acts; the other shows what it showed, and the segments stay apart.
  pub acting :
      (ev : Event) (s : Statics) (t t' : Client) (w : World) {v v' : View} {cs cs' : List Cell}
      → Shows (system s t w) v cs
      → Shows (system s t' w) v' cs'
      → Separate w.mem cs cs'
      → by_itself ev ≡ false
      → Legal ev (system s t w)
      → Chain (erase_all cs' (erase_all cs w.mem)) (handed ev)
      → (m' : System) × (handle l ev (system s t w) ≡ some m')
        × ((cs1 : List Cell) × Shows m' (next (accepts l ev (system s t w)) ev v) cs1
            × Shows (system m'.statics t' m'.world) v' cs'
            × Separate m'.world.mem cs1 cs')
  acting ev s t t' w {v} {v'} {cs} {cs'} shows shows' separate others legal apart =
      let (m', returns, (cs1, shows1, bes)) = handle-Follows laws ev (system s t w) shows legal in
      let taken : erase_all cs1 m'.world.mem ≡ erase_all (handed ev) (erase_all cs w.mem) =
        subst
          (λ (b : Bool). TakesOut b (handed ev) (erase_all cs w.mem) (erase_all cs1 m'.world.mem))
          others bes in
      let beside : Chain (erase_all cs1 m'.world.mem) cs' =
        Chain-beside (erase_all cs w.mem) _ cs' (handed ev) taken separate.1 apart in
      (
        m',
        returns,
        (
          cs1,
          shows1,
          Shows-elsewhere m'.statics m'.world shows' (Chain-erase_all m'.world.mem cs1 cs' beside),
          (Shows-Chain shows1, beside),
        ),
      )
