-- ===== src/System/Pair/Runs.antt =====
-- Runs of two clients: neither disturbs the other.
use async_tcp.Common.{
  ◌≡◌, refl, sym, ap, ◌∙◌, Bool, true, false, Option, some, List, [], ◌∷◌, ◌++◌, some-injective,
  ◌>>=◌,
}
use async_tcp.Lwip.{World, Lwip}
use async_tcp.Lwip.Chains.{Cell, PbufLaws}
use async_tcp.Lwip.Separate.{Separate}
use async_tcp.Client.{Statics, new_client}
use async_tcp.System.{System, Event, handle}
use async_tcp.System.Spec.{View, absent, next, replay, Shows, shows_absent}
use async_tcp.System.Spec.Refines.{Seen, Shows-Seen}
use async_tcp.System.Pair.{
  Pair, new_pair, side, with_side, Move, own, outside, handle_pair, LegalMove, PairTrace, empty,
  step, note,
}
use async_tcp.System.Pair.Acting.{acting, Shows-Held, Shows-elsewhere, Separate-sym}

-- Both clients are in the state of an account, and their segments are apart.
abbrev Both : Pair → View → View → Type 0
Both p v1 v2 =
    (cs1 cs2 : List Cell) × Shows (side true p) v1 cs1
    × Shows (side false p) v2 cs2
    × Separate p.world.mem cs1 cs2

-- The events of one client in a run, the last first.
abbrev pub noted :
    {l : Lwip} {p0 p : Pair} → (is_first : Bool) → PairTrace l p0 p → List (Event × Bool)
noted who empty = []
noted {l} who (step {p} run mv legal returns) = note l who mv p ++ noted who run

module _ {l : Lwip} (laws : PbufLaws l) where
  then_side :
      (who : Bool) (ev : Event) (p : Pair) {m' : System}
      → handle l ev (side who p) ≡ some m'
      → (handle l ev (side who p) >>= λ m. some (with_side who m p)) ≡ some (with_side who m' p)
  then_side who ev p returns =
      ap (λ (o : Option System). o >>= λ m. some (with_side who m p)) returns

  move-Both :
      (mv : Move) (p : Pair) (v1 v2 : View)
      → Both p v1 v2
      → LegalMove mv p
      → (p' : Pair) × (handle_pair l mv p ≡ some p')
        × Both p' (replay (note l true mv p) v1) (replay (note l false mv p) v2)
  unfolding handle_pair
  move-Both (own true ev) p v1 v2 (cs1, cs2, h1, h2, apart) (others, legal, new) =
      let (m', returns, (cs1', h1', h2', apart')) =
        acting laws ev p.statics p.first p.second p.world h1 h2 apart others legal
          (new cs1 cs2 (Shows-Held h1) (Shows-Held h2)) in
      (with_side true m' p, then_side true ev p returns, (cs1', cs2, h1', h2', apart'))
  move-Both (own false ev) p v1 v2 (cs1, cs2, h1, h2, apart) (others, legal, new) =
      let (m', returns, (cs2', h2', h1', apart')) =
        acting laws ev p.statics p.second p.first p.world h2 h1
          (Separate-sym p.world.mem cs1 cs2 apart) others legal
          (new cs2 cs1 (Shows-Held h2) (Shows-Held h1)) in
      (
        with_side false m' p,
        then_side false ev p returns,
        (cs1, cs2', h1', h2', Separate-sym m'.world.mem cs2' cs1 apart'),
      )
  move-Both (outside w) p v1 v2 (cs1, cs2, h1, h2, apart) legal =
      let apart' = legal cs1 cs2 (Shows-Held h1) (Shows-Held h2) in
      let (_, chain2) = Separate-sym w.mem cs1 cs2 apart' in
      (
        record p { world = w },
        refl,
        (
          cs1,
          cs2,
          Shows-elsewhere p.statics w h1 apart'.0,
          Shows-elsewhere p.statics w h2 (Separate-sym w.mem cs1 cs2 apart').0,
          apart',
        ),
      )

  replay-append :
      (xs ys : List (Event × Bool)) (v : View) → replay (xs ++ ys) v ≡ replay xs (replay ys v)
  replay-append [] ys v = refl
  replay-append ((ev, b) ∷ xs) ys v = ap (next b ev) (replay-append xs ys v)

  trace-Both :
      {p0 p : Pair} {v1 v2 : View}
      → Both p0 v1 v2
      → (run : PairTrace l p0 p) → Both p (replay (noted true run) v1) (replay (noted false run) v2)
  trace-Both h empty = h
  trace-Both {v1} {v2} h (step {p} run mv legal returns) =
      let (p', gives, both) = move-Both mv p _ _ (trace-Both h run) legal in
      rw
        (
          replay-append (note l true mv p) (noted true run) v1,
          replay-append (note l false mv p) (noted false run) v2,
        )
        (rw⁻¹ (some-injective _ _ (sym gives ∙ returns)) both)

  -- Let two new clients share the static members, lwIP and the memory of pbufs. Over any interleaving
  -- of their events and of what lwIP does by itself, what the application sees of each client is what
  -- the account of that client's own events and answers tells, whatever the other one did; and any
  -- further move returns. Moves are legal: what lwIP hands to one client is apart from what both
  -- hold, and by itself it leaves what they hold alone.
  pub pair-Seen :
      (s : Statics) (w : World) (p : Pair) (run : PairTrace l (new_pair s w) p)
      → (mv : Move) → LegalMove mv p
      → Seen (replay (noted true run) absent) (side true p)
        × Seen (replay (noted false run) absent) (side false p)
        × ((p' : Pair) × (handle_pair l mv p ≡ some p'))
  unfolding new_client
  pair-Seen s w p run mv legal =
      let (cs1, cs2, h1, h2, apart) =
        trace-Both ([], [], shows_absent refl, shows_absent refl, (tt, tt)) run in
      let (p', returns, _) = move-Both mv p _ _ (cs1, cs2, h1, h2, apart) legal in
      (Shows-Seen (side true p) _ cs1 h1, Shows-Seen (side false p) _ cs2 h2, (p', returns))
