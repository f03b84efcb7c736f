-- ===== src/Main/Executors.antt =====
-- The executors of S2, S3 and S4 keep what every submission keeps
-- (bot/crates/strategies/*/src/executor.rs).
use skua.Prelude.{
  ℕ, refl, List, [], ◌∷◌, Option, none, some, inl, inr, Bool-cases, Option-cases, lookup, if_keep,
}
use skua.Float.{Float}
use skua.Core.Config.{SkuaConfig}
use skua.Core.State.{BotState}
use skua.Core.Types.{PriceMap, SizingResult, BorrowerPosition}
use skua.Scanner.Signals.{DepegSignal, check_depeg}
use skua.HyperCore.Precompile.{read_price}
use skua.World
use skua.World.{
  World, Outcome, ok, err, Call, Tx, Receipt, s2, s3, s4, opp_detected, sizing, sim_passed,
}
use skua.World.{Outcome-cases}
use skua.Dispatch.{Env, dispatch}
use skua.Liquidation.Monitor.{compute_health_factor, hf_presimulate, hf_submit}
use skua.Liquidation.Sizing.{LiquidationParams, compute_liquidation_params}
use skua.Liquidation.Executor.{
  liquidation_call, liquidation_sim, liquidation_plan, simulate_and_dispatch, profitable,
  liquidate_with, try_liquidate,
}
use skua.Triangular.Graph.{ArbRoute, build}
use skua.Triangular.Executor.{
  triangular_plan, triangular_call, triangular_sim, triangular_profitable, landed_hash,
  execute_route, choose_route, trade, try_execute_best_route,
}
use skua.StableDepeg.{
  StableToken, Sides, depeg_plan, depeg_call, depeg_sim, depeg_profitable, depeg_sizing,
  choose_sides, arb_with, signal_with, check_stable, check_all, scan_and_execute,
}
use skua.Main.Keeps.{Kept, Holds, after-Holds, dispatch-Holds}

module _ {F : Type 0} ⦃fl : Float F⦄ (config : SkuaConfig F) (P : BotState F → List Tx → Type 0)
    (kept : Kept config P) where
  open fl use {le, cast, dec, ◌⊘◌}

  simulate_and_dispatch-Holds :
      (env : Env) (pos : BorrowerPosition F) (prices : PriceMap F) (market : ℕ)
      (params : LiquidationParams F) (w : World F)
      → Holds P w
      → Holds P (simulate_and_dispatch config env pos prices market params w).1
  unfolding simulate_and_dispatch
  simulate_and_dispatch-Holds env pos prices market params w h =
      elim (Outcome-cases (liquidation_sim config env pos prices params)) [
        | inl (e, failed) ↦ rw (failed, simulate_and_dispatch) h
        | inr (sim, passed) ↦
            let u = record w { metrics = (s2, sim_passed) ∷ w.metrics } in
            let input = liquidation_call pos prices market params in
            rw (passed, simulate_and_dispatch)
              (after-Holds P (dispatch config env (liquidation_plan config) input u)
                (λ (o : Option Receipt). World.pure (elim o [ none ↦ none | some r ↦ some sim ]))
                (dispatch-Holds config P kept env (liquidation_plan config) input u (inr (inl refl))
                  h)
                (λ o v g. g))
      ]

  liquidate_with-Holds :
      (env : Env) (pos : BorrowerPosition F) (prices : PriceMap F) (market : ℕ)
      (params : LiquidationParams F) (w : World F)
      → Holds P w
      → Holds P (liquidate_with config env pos prices market params w).1
  unfolding liquidate_with
  liquidate_with-Holds env pos prices market params w h =
      elim (Bool-cases (profitable config w.bot params)) [
        | inr poor ↦ rw (poor, liquidate_with) h
        | inl gain ↦ elim (Bool-cases (le hf_submit (compute_health_factor pos prices))) [
          | inl healthy ↦ rw (gain, healthy, liquidate_with) h
          | inr low ↦
              rw (gain, low, liquidate_with)
                (simulate_and_dispatch-Holds env pos prices market params w h)
        ]
      ]

  pub try_liquidate-Holds :
      (env : Env) (bonus : Option ℕ) (borrower market : ℕ) (prices : PriceMap F) (w : World F)
      → Holds P w
      → Holds P (try_liquidate config env bonus borrower market prices w).1
  unfolding try_liquidate
  try_liquidate-Holds env bonus borrower market prices w h =
      elim (Option-cases (lookup borrower w.bot.hyperlend_positions)) [
        | inl unknown ↦ rw (unknown, try_liquidate) h
        | inr (pos, known) ↦
            elim (Bool-cases (le hf_presimulate (compute_health_factor pos prices))) [
              | inl safe ↦ rw (known, safe, try_liquidate) h
              | inr risky ↦
                  elim (Outcome-cases (compute_liquidation_params bonus pos prices w.bot none)) [
                    | inl (e, failed) ↦ rw (known, risky, failed, try_liquidate) h
                    | inr (none, nothing) ↦ rw (known, risky, nothing, try_liquidate) h
                    | inr (some params, sized) ↦
                        rw (known, risky, sized, try_liquidate)
                          (liquidate_with-Holds env pos prices market params
                            (record w { metrics = (s2, opp_detected) ∷ w.metrics }) h)
                  ]
            ]
      ]

  execute_route-Holds :
      (env : Env) (price : F) (route : ArbRoute) (z : SizingResult F) (w : World F)
      → Holds P w
      → Holds P (execute_route config env price route z w).1
  unfolding execute_route
  execute_route-Holds env price route z w h =
      elim (Bool-cases (triangular_profitable config w.bot z)) [
        | inr poor ↦ rw (poor, execute_route) h
        | inl gain ↦ elim (Outcome-cases (triangular_sim config env price route z)) [
          | inl (e, failed) ↦ rw (gain, failed, execute_route) h
          | inr (sim, passed) ↦
              let u = record w {
                metrics = (s3, sim_passed) ∷ (s3, sizing) ∷ (s3, opp_detected) ∷ w.metrics;
              } in
              let input = triangular_call price route z in
              rw (gain, passed, execute_route)
                (after-Holds P (dispatch config env (triangular_plan config) input u)
                  (λ (o : Option Receipt). World.pure (landed_hash o))
                  (dispatch-Holds config P kept env (triangular_plan config) input u
                    (inr (inr (inl refl))) h)
                  (λ o v g. g))
        ]
      ]

  trade-Holds :
      (env : Env) (price : F) (choice : Outcome (Option (ArbRoute × SizingResult F))) (w : World F)
      → Holds P w
      → Holds P (trade config env price choice w).1
  unfolding trade
  trade-Holds env price (err e) w h = h
  trade-Holds env price (ok none) w h = h
  trade-Holds env price (ok (some best)) w h = execute_route-Holds env price best.0 best.1 w h

  pub try_execute_best_route-Holds :
      (env : Env) (evaluate : ArbRoute → Option (SizingResult F)) (price : F) (w : World F)
      → Holds P w
      → Holds P (try_execute_best_route config env evaluate price w).1
  unfolding try_execute_best_route
  try_execute_best_route-Holds env evaluate price w h =
      let choice = choose_route evaluate (build w.bot.pool_states) in
      if_keep (λ (r : Outcome (Option ℕ) × World F). Holds P r.1) w.bot.s3_enabled
        (trade config env price choice w) (ok none, w) (trade-Holds env price choice w h) h

  arb_with-Holds :
      (env : Env) (stable : StableToken) (price : F) (sides : Sides F) (z : SizingResult F)
      (w : World F)
      → Holds P w
      → Holds P (arb_with config env stable price sides z w).1
  unfolding arb_with
  arb_with-Holds env stable price sides z w h =
      elim (Bool-cases (depeg_profitable config w.bot z)) [
        | inr poor ↦ rw (poor, arb_with) h
        | inl gain ↦ elim (Outcome-cases (depeg_sim config env stable price z)) [
          | inl (e, failed) ↦ rw (gain, failed, arb_with) h
          | inr (sim, passed) ↦
              let u = record w { metrics = (s4, sim_passed) ∷ (s4, sizing) ∷ w.metrics } in
              let input = depeg_call stable price sides z in
              rw (gain, passed, arb_with)
                (after-Holds P (dispatch config env (depeg_plan config) input u)
                  (λ (o : Option Receipt). World.pure tt)
                  (dispatch-Holds config P kept env (depeg_plan config) input u
                    (inr (inr (inr (inl refl)))) h)
                  (λ o v g. g))
        ]
      ]

  signal_with-Holds :
      (fuel : ℕ) (env : Env) (stable : StableToken) (price : F) (sides : Sides F)
      (signal : DepegSignal F) (w : World F)
      → Holds P w
      → Holds P (signal_with fuel config env stable price sides signal w).1
  unfolding signal_with
  signal_with-Holds fuel env stable price sides signal w h =
      let u = record w { metrics = (s4, opp_detected) ∷ w.metrics } in
      elim (Bool-cases signal.depegged_lower) [
        | inr up ↦ rw (up, signal_with) h
        | inl low ↦ elim (Option-cases (depeg_sizing fuel config stable price sides w.bot)) [
          | inl out ↦ rw (low, out, signal_with) h
          | inr (none, nothing) ↦ rw (low, nothing, signal_with) h
          | inr (some z, sized) ↦
              rw (low, sized, signal_with) (arb_with-Holds env stable price sides z u h)
        ]
      ]

  check_stable-Holds :
      (fuel : ℕ) (env : Env) (oracle : Option ℕ) (stable : StableToken) (w : World F)
      → Holds P w
      → Holds P (check_stable fuel config env oracle stable w).1
  unfolding check_stable
  check_stable-Holds fuel env oracle stable w h = elim (Outcome-cases (read_price oracle)) [
    | inl (e, failed) ↦ rw (failed, check_stable) h
    | inr (raw, priced) ↦
        let price = ◌⊘◌ (cast raw) (dec 100_000_000 0) in
        elim (Option-cases (lookup stable.pool_a w.bot.pool_states)) [
          | inl unknown ↦ rw (priced, unknown, check_stable) h
          | inr (a, known_a) ↦ elim (Option-cases (lookup stable.pool_b w.bot.pool_states)) [
            | inl unknown ↦ rw (priced, known_a, unknown, check_stable) h
            | inr (b, known_b) ↦
                let sides = choose_sides stable price a b in
                elim (Option-cases
                  (check_depeg sides.amm_price price config.s4_depeg_threshold_bps stable.token)) [
                    | inl calm ↦ rw (priced, known_a, known_b, calm, check_stable) h
                    | inr (signal, found) ↦
                        rw (priced, known_a, known_b, found, check_stable)
                          (signal_with-Holds fuel env stable price sides signal w h)
                  ]
          ]
        ]
  ]

  check_all-Holds :
      (fuel : ℕ) (rounds : List (Env × Option ℕ × StableToken)) (w : World F)
      → Holds P w
      → Holds P (check_all fuel config rounds w)
  unfolding check_all
  check_all-Holds fuel [] w h = h
  check_all-Holds fuel ((env, oracle, stable) ∷ rest) w h =
      check_all-Holds fuel rest (check_stable fuel config env oracle stable w).1
        (check_stable-Holds fuel env oracle stable w h)

  pub scan_and_execute-Holds :
      (fuel : ℕ) (rounds : List (Env × Option ℕ × StableToken)) (w : World F)
      → Holds P w
      → Holds P (scan_and_execute fuel config rounds w).1
  unfolding scan_and_execute
  scan_and_execute-Holds fuel rounds w h =
      if_keep (λ (r : Outcome (Unit {0}) × World F). Holds P r.1) w.bot.s4_enabled
        (ok tt, check_all fuel config rounds w) (ok tt, w) (check_all-Holds fuel rounds w h) h
