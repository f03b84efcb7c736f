-- ===== src/Triangular/Justified.antt =====
-- When `try_execute_best_route` sends a transaction
-- (bot/crates/strategies/triangular/src/executor.rs).
use skua.Prelude.{
  ℕ, Bool, ◌≡◌, refl, ap, subst, ◌∙◌, true, false, Option, none, some, List, [], ◌∷◌, ◌⊎◌, inl, inr,
  All, Bool-cases, Option-cases, length, if◌then◌else◌, arith,
}
use mathlib.Core.Option.{some-injective}
use skua.Float.{Float}
use skua.Core.Config.{SkuaConfig}
use skua.Core.State.{is_halted}
use skua.Core.Types.{SizingResult, SimulationResult}
use skua.World
use skua.World.{World, Outcome, Error, ok, err, Receipt, s3, sizing, sim_passed, opp_detected}
use skua.Dispatch.{Env, dispatch}
use skua.Dispatch.Guards.{planned, after_keep, dispatch-AtMostOne}
use skua.World.{Outcome-cases}
use skua.Triangular.Graph.{ArbRoute, ArbGraph, build}
use skua.Triangular.Sound.{IsCycle}
use skua.Triangular.BellmanFord.{find_cycles}
use skua.Triangular.Found.{find_cycles-All}
use skua.Triangular.Executor.{
  sized_routes, max_from, best_of, triangular_plan, triangular_call, triangular_profitable,
  landed_hash, triangular_sim, execute_route, choose_route, trade, try_execute_best_route,
}

content : {A : Type 0} → A → Outcome (Option A) → A
content d (ok (some a)) = a
content d _ = d

ok_some : {A : Type 0} (a b : A) → ok (some a) ≡ ok (some b) → a ≡ b
unfolding content
ok_some a b e = ap (content a) e

module _ {F : Type 0} where
  -- A route that is sized, with a property of all routes.
  abbrev IsSizedRoute :
      (ArbRoute → Type 0)
      → (ArbRoute → Option (SizingResult F))
      → ArbRoute × SizingResult F
      → Type 0
  IsSizedRoute P evaluate c = P c.0 × (evaluate c.0 ≡ some c.1)

  sized_routes-All :
      (P : ArbRoute → Type 0) (evaluate : ArbRoute → Option (SizingResult F)) (rs : List ArbRoute)
      → All P rs
      → All (IsSizedRoute P evaluate) (sized_routes evaluate rs)
  unfolding sized_routes
  sized_routes-All P evaluate [] v = tt
  sized_routes-All P evaluate (r ∷ rs) (p, v) = elim (Option-cases (evaluate r)) [
    | inl no_size ↦ rw (no_size, sized_routes) (sized_routes-All P evaluate rs v)
    | inr (z, sized) ↦ rw (sized, sized_routes) ((p, sized), sized_routes-All P evaluate rs v)
  ]

module _ {F : Type 0} ⦃fl : Float F⦄ where
  open fl use {lt, le}

  max_from-All :
      (P : ArbRoute × SizingResult F → Type 0) (best : ArbRoute × SizingResult F)
      (cs : List (ArbRoute × SizingResult F)) (found : ArbRoute × SizingResult F)
      → max_from best cs ≡ some found
      → P best
      → All P cs
      → P found
  unfolding max_from
  max_from-All P best [] found e p v = subst P (some-injective _ _ e) p
  max_from-All P best (c ∷ cs) found e p (q, v) =
      elim (Bool-cases (le best.1.expected_profit_usd c.1.expected_profit_usd)) [
        | inl over ↦ max_from-All P c cs found (rw (over, max_from) at e) q v
        | inr under ↦ elim (Bool-cases (lt c.1.expected_profit_usd best.1.expected_profit_usd)) [
          | inl less ↦ max_from-All P best cs found (rw (under, less, max_from) at e) p v
          | inr odd ↦ absurd (ground arith)
        ]
      ]

  abbrev pub IsThreeHops : ArbGraph F → ArbRoute → Type 0
  IsThreeHops g r = IsCycle g 3 r.start_token r × (length r.hops ≡ 3)

  -- The transaction that trades along a route, and what was checked before it.
  pub record IsTriangularArb (config : SkuaConfig F) (env : Env) (price : F) (route : ArbRoute)
      (z : SizingResult F) (w v : World F) : Type 0 where
    pub wallet_idx : ℕ
    pub nonce : ℕ
    pub sim : SimulationResult F
    pub profit_checked : triangular_profitable config w.bot z ≡ true
    pub simulated : triangular_sim config env price route z ≡ ok sim
    pub free : is_halted config.max_consecutive_reverts w.bot ≡ false
    pub one_more :
        v.sent
        ≡ planned config (triangular_plan config) (triangular_call price route z) w wallet_idx nonce
          ∷ w.sent

  execute_route-sent :
      (config : SkuaConfig F) (env : Env) (price : F) (route : ArbRoute) (z : SizingResult F)
      (w : World F)
      → let v = (execute_route config env price route z w).1 in
        (v.sent ≡ w.sent) ⊎ IsTriangularArb config env price route z w v
  unfolding execute_route
  execute_route-sent config env price route z w =
      elim (Bool-cases (triangular_profitable config w.bot z)) [
        | inr poor ↦ rw (poor, execute_route) (inl refl)
        | inl gain ↦ elim (Outcome-cases (triangular_sim config env price route z)) [
          | inl (e, failed) ↦ rw (gain, failed, execute_route) (inl refl)
          | inr (sim, passed) ↦
              let u = record w {
                metrics = (s3, sim_passed) ∷ (s3, sizing) ∷ (s3, opp_detected) ∷ w.metrics;
              } in
              let input = triangular_call price route z in
              let sent = dispatch config env (triangular_plan config) input u in
              let go_on = λ (o : Option Receipt). World.pure {S = World F} (landed_hash o) in
              let same = after_keep sent go_on (λ o v. refl) in
              rw (gain, passed, execute_route)
                (elim (dispatch-AtMostOne config env (triangular_plan config) input u) [
                  | inl e ↦ inl (same ∙ e)
                  | inr (i, n, e, open_still) ↦ inr (record {
                    wallet_idx = i;
                    nonce = n;
                    sim = sim;
                    profit_checked = gain;
                    simulated = passed;
                    free = open_still;
                    one_more = same ∙ e;
                  })
                ])
        ]
      ]

  best_of-All :
      (P : ArbRoute × SizingResult F → Type 0) (cs : List (ArbRoute × SizingResult F))
      (best : ArbRoute × SizingResult F)
      → best_of cs ≡ ok (some best)
      → All P cs
      → P best
  unfolding best_of
  best_of-All P [] best e v = absurd (ground arith)
  best_of-All P (c ∷ cs) best e (p, v) = elim (Option-cases (max_from c cs)) [
    | inl bad ↦ absurd (ground arith)
    | inr (found, most) ↦
        subst P (ok_some found best (rw (most, best_of) at e)) (max_from-All P c cs found most p v)
  ]

  choose_route-IsThreeHops :
      (evaluate : ArbRoute → Option (SizingResult F)) (g : ArbGraph F)
      (best : ArbRoute × SizingResult F)
      → choose_route evaluate g ≡ ok (some best)
      → IsSizedRoute (IsThreeHops g) evaluate best
  unfolding choose_route
  choose_route-IsThreeHops evaluate g best e = elim (Option-cases (find_cycles g)) [
    | inl bad ↦ absurd (ground arith)
    | inr (routes, found) ↦
        best_of-All (IsSizedRoute (IsThreeHops g) evaluate) (sized_routes evaluate routes) best
          (rw (found, choose_route) at e)
          (sized_routes-All (IsThreeHops g) evaluate routes (find_cycles-All g routes found))
  ]

  trade-sent :
      (config : SkuaConfig F) (env : Env) (evaluate : ArbRoute → Option (SizingResult F))
      (price : F) (w : World F)
      → let v = (trade config env price (choose_route evaluate (build w.bot.pool_states)) w).1 in
        (v.sent ≡ w.sent)
        ⊎ (route : ArbRoute) × (z : SizingResult F) × IsThreeHops (build w.bot.pool_states) route
          × (evaluate route ≡ some z)
          × IsTriangularArb config env price route z w v
  unfolding trade
  trade-sent config env evaluate price w =
      elim (Outcome-cases (choose_route evaluate (build w.bot.pool_states))) [
        | inl (e, bad) ↦ rw (bad, trade) (inl refl)
        | inr (none, nothing) ↦ rw (nothing, trade) (inl refl)
        | inr (some (route, z), chosen) ↦
            let (hops, sized) =
              choose_route-IsThreeHops evaluate (build w.bot.pool_states) (route, z) chosen in
            rw (chosen, trade)
              (elim (execute_route-sent config env price route z w) [
                | inl e ↦ inl e
                | inr arb ↦ inr (route, z, hops, sized, arb)
              ])
      ]

  -- The transactions are as before, or one more that trades along a cycle of the graph.
  abbrev pub TradesCycleOnly :
      SkuaConfig F
      → Env
      → (ArbRoute → Option (SizingResult F))
      → F
      → (before after : World F) → Type 0
  TradesCycleOnly config env evaluate price w v =
      (v.sent ≡ w.sent)
      ⊎ (route : ArbRoute) × (z : SizingResult F) × (w.bot.s3_enabled ≡ true)
        × IsThreeHops (build w.bot.pool_states) route
        × (evaluate route ≡ some z)
        × IsTriangularArb config env price route z w v

  -- `try_execute_best_route` sends at most one transaction, whatever the node answers. It sends one only
  -- if the strategy is enabled and the bot is not halted, for a profitable cycle of three hops in the
  -- graph of the pools known, with the size that its evaluation gives, a profit over the minimum and a
  -- simulation that passed.
  pub try_execute_best_route-sent :
      (config : SkuaConfig F) (env : Env) (evaluate : ArbRoute → Option (SizingResult F))
      (price : F) (w : World F)
      → TradesCycleOnly config env evaluate price w
          (try_execute_best_route config env evaluate price w).1
  unfolding try_execute_best_route
  try_execute_best_route-sent config env evaluate price w = elim (Bool-cases w.bot.s3_enabled) [
    | inr off ↦ rw (off, try_execute_best_route) (inl refl)
    | inl on ↦
        let chosen = choose_route evaluate (build w.bot.pool_states) in
        let same : try_execute_best_route config env evaluate price w
            ≡ trade config env price chosen w =
          ap (λ (b : Bool). if b then trade config env price chosen w else (ok none, w)) on in
        rw same (elim (trade-sent config env evaluate price w) [
          | inl e ↦ inl e
          | inr (route, z, hops, sized, arb) ↦ inr (route, z, on, hops, sized, arb)
        ])
  ]
