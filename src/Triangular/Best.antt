-- ===== src/Triangular/Best.antt =====
-- The choice among the sized routes (bot/crates/strategies/triangular/src/executor.rs: `max_by`).
use skua.Prelude.{
  ◌≡◌, ap, subst, sym, ◌∙◌, true, Option, some, List, [], ◌∷◌, ◌⊎◌, inl, inr, arith, All, In,
  Bool-cases, Option-cases,
}
use mathlib.Core.Option.{some-injective}
use skua.Float.{Float}
use skua.Float.Laws.{IsOrdered}
use skua.Core.Types.{SizingResult}
use skua.World.{ok}
use skua.Triangular.Graph.{ArbRoute, ArbGraph}
use skua.Triangular.BellmanFord.{find_cycles}
use skua.Triangular.Executor.{sized_routes, max_from, best_of, choose_route}

pub All-In : {A : Type 0} (P : A → Type 0) (l : List A) → All P l → (x : A) → In x l → P x
All-In P [] h x m = absurd m
All-In P (z ∷ zs) (p, ps) x (inl e) = subst P (sym e) p
All-In P (z ∷ zs) (p, ps) x (inr m) = All-In P zs ps x m

module _ {F : Type 0} where
  In-sized_routes :
      (evaluate : ArbRoute → Option (SizingResult F)) (rs : List ArbRoute) (r : ArbRoute)
      (z : SizingResult F)
      → In r rs
      → evaluate r ≡ some z
      → In (r, z) (sized_routes evaluate rs)
  unfolding sized_routes
  In-sized_routes evaluate [] r z m e = absurd m
  In-sized_routes evaluate (s ∷ rs) r z (inl same) e =
      rw (ap evaluate (sym same) ∙ e, sized_routes) (inl (ap (λ (t : ArbRoute). (t, z)) same))
  In-sized_routes evaluate (s ∷ rs) r z (inr m) e =
      let rest = In-sized_routes evaluate rs r z m e in
      elim (Option-cases (evaluate s)) [
        | inl out ↦ rw (out, sized_routes) rest
        | inr (y, sized) ↦ rw (sized, sized_routes) (inr rest)
      ]

module _ {F : Type 0} ⦃fl : Float F⦄ (ord : IsOrdered F) where
  open fl use {le, lt}

  abbrev Candidate : Type 0
  Candidate = ArbRoute × SizingResult F

  -- The candidate is the one chosen, or its expected profit is at most that one's.
  abbrev AtMost : Candidate → Candidate → Type 0
  AtMost best c = (c ≡ best) ⊎ (le c.1.expected_profit_usd best.1.expected_profit_usd ≡ true)

  AtMost-trans :
      (best c d : Candidate)
      → le d.1.expected_profit_usd c.1.expected_profit_usd ≡ true
      → AtMost best c
      → AtMost best d
  AtMost-trans best c d low (inl same) = inr (
      subst (λ (x : Candidate). le d.1.expected_profit_usd x.1.expected_profit_usd ≡ true) same low)
  AtMost-trans best c d low (inr high) = inr (ord.le_trans _ _ _ low high)

  max_from-AtMost :
      (start : Candidate) (cs : List Candidate) {best : Candidate}
      → max_from start cs ≡ some best
      → All (AtMost best) (start ∷ cs)
  unfolding max_from
  max_from-AtMost start [] e = (inl (some-injective _ _ e), tt)
  max_from-AtMost start (c ∷ cs) {best} e =
      let p = start.1.expected_profit_usd in
      let q = c.1.expected_profit_usd in
      elim (Bool-cases (le p q)) [
        | inl up ↦
            let (first, rest) = max_from-AtMost c cs (rw up at e) in
            (AtMost-trans best c start up first, (first, rest))
        | inr not_up ↦ elim (Bool-cases (lt q p)) [
          | inl down ↦
              let (first, rest) = max_from-AtMost start cs (rw (not_up, down) at e) in
              (first, (AtMost-trans best start c (ord.lt-le q p down) first, rest))
          | inr nan ↦ absurd (ground arith)
        ]
      ]

  best_of-AtMost :
      (cs : List Candidate) {best : Candidate} → best_of cs ≡ ok (some best) → All (AtMost best) cs
  unfolding best_of
  best_of-AtMost [] e = tt
  best_of-AtMost (c ∷ cs) {best} e = elim (Option-cases (max_from c cs)) [
    | inl nan ↦ absurd (ground arith)
    | inr (m, found) ↦ max_from-AtMost c cs (found ∙ ground arith)
  ]

  -- The route that is traded is the best one: every other route found that has a size has an expected
  -- profit that is not above that of the route chosen.
  pub choose_route_best :
      (evaluate : ArbRoute → Option (SizingResult F)) (g : ArbGraph F) {routes : List ArbRoute}
      {best : ArbRoute × SizingResult F} (r : ArbRoute) (z : SizingResult F)
      → find_cycles g ≡ some routes
      → choose_route evaluate g ≡ ok (some best)
      → In r routes
      → evaluate r ≡ some z
      → ((r, z) ≡ best) ⊎ (le z.expected_profit_usd best.1.expected_profit_usd ≡ true)
  unfolding choose_route
  choose_route_best evaluate g {routes} {best} r z found chosen m sized =
      All-In (AtMost best) (sized_routes evaluate routes)
        (best_of-AtMost (sized_routes evaluate routes) (rw (found, choose_route) at chosen)) (r, z)
        (In-sized_routes evaluate routes r z m sized)
