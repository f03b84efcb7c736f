-- ===== src/Triangular/Executor.antt =====
-- bot/crates/strategies/triangular/src/executor.rs. `evaluate_route` of graph.rs names a variable that
-- is not declared, so it does not compile: what it answers for a route is an argument.
use skua.Prelude.{ℕ, ◌%◌, ◌^◌, Bool, Option, none, some, List, [], ◌∷◌, if◌then◌else◌}
use skua.Float.{Float, nought}
use skua.Core.Config.{SkuaConfig}
use skua.Core.State.{BotState, base_fee_wei, hype_price_f64}
use skua.Core.Types.{SizingResult, SimulationResult}
use skua.Core.Gas.{s3_tri_arb_3hop_gas_estimate}
use skua.Scanner.Pipeline.{layer4_profit_check, layer5_eth_call_sim}
use skua.World.{
  World, M, Outcome, ok, err, panicked, Call, Receipt, execute_tri_arb, s3, opp_detected, sizing,
  sim_passed, count_metric, ◌>>=◌, ◌>>◌, pure,
}
use skua.Dispatch.{Env, Plan, dispatch}
use skua.Triangular.Graph.{ArbRoute, ArbGraph, build}
use skua.Triangular.BellmanFord.{find_cycles}

unfoldable pub encode_tri_arb_calldata : (flash_asset flash_amount_wei : ℕ) → ArbRoute → ℕ → Call
encode_tri_arb_calldata flash_asset flash_amount_wei route min_profit_wei =
    execute_tri_arb flash_asset flash_amount_wei route.hops min_profit_wei

-- the hash of the transaction, if it landed
abbrev pub landed_hash : Option Receipt → Option ℕ
landed_hash none = none
landed_hash (some r) = if r.status then some r.transaction_hash else none

module _ {F : Type 0} where
  -- `filter_map` with the sizes.
  unfoldable pub sized_routes :
      (ArbRoute → Option (SizingResult F)) → List ArbRoute → List (ArbRoute × SizingResult F)
  sized_routes evaluate [] = []
  sized_routes evaluate (r ∷ rs) = elim (evaluate r) [
    | none ↦ sized_routes evaluate rs
    | some z ↦ (r, z) ∷ sized_routes evaluate rs
  ]

module _ {F : Type 0} ⦃fl : Float F⦄ where
  open fl use {dec, cast, ◌⊗◌, ◌⊘◌, lt, le, trunc}

  infixl 70 ◌⊗◌ ◌⊘◌
  -- `max_by` from the best so far, which keeps the last of equal ones; `none` is the panic of a
  -- comparison with NaN.
  unfoldable pub max_from :
      ArbRoute × SizingResult F
      → List (ArbRoute × SizingResult F)
      → Option (ArbRoute × SizingResult F)
  max_from best [] = some best
  max_from best (c ∷ cs) =
      let keep = max_from best cs in
      let take = max_from c cs in
      if le best.1.expected_profit_usd c.1.expected_profit_usd
      then take
      else if lt c.1.expected_profit_usd best.1.expected_profit_usd
      then keep
      else none

  unfoldable pub best_of :
      List (ArbRoute × SizingResult F) → Outcome (Option (ArbRoute × SizingResult F))
  unfolding max_from
  best_of [] = ok none
  best_of (c ∷ cs) = elim (max_from c cs) [ none ↦ err panicked | some best ↦ ok (some best) ]

  abbrev pub triangular_plan : SkuaConfig F → Plan
  triangular_plan config = record {
    strategy = s3;
    contract = config.contract_tri_arb;
    gas_estimate = s3_tri_arb_3hop_gas_estimate;
    multiplier = config.gasprice_multiplier_arb;
  }

  unfoldable pub triangular_call : F → ArbRoute → SizingResult F → Call
  unfolding encode_tri_arb_calldata
  triangular_call token_price_usd route z =
      let min_profit_wei =
        if lt nought token_price_usd
        then trunc 128 (
            z.expected_profit_usd
            ⊗ dec 8 1
            ⊘ token_price_usd
            ⊗ cast (10 ^ route.start_token_decimals % 2 ^ 128))
        else 0 in
      encode_tri_arb_calldata route.start_token z.optimal_amount_wei route min_profit_wei

  abbrev pub triangular_profitable : SkuaConfig F → BotState F → SizingResult F → Bool
  triangular_profitable config bot z =
      layer4_profit_check z.expected_profit_usd config.s3_min_profit_usd config.gas_roi_multiplier
        s3_tri_arb_3hop_gas_estimate (base_fee_wei bot) (hype_price_f64 bot)

  abbrev pub triangular_sim :
      SkuaConfig F → Env → F → ArbRoute → SizingResult F → Outcome (SimulationResult F)
  triangular_sim config env token_price_usd route z =
      layer5_eth_call_sim env.sim_answer z.expected_profit_usd token_price_usd
        route.start_token_decimals config.s3_min_profit_usd

  -- What follows the choice of the route.
  unfoldable pub execute_route :
      SkuaConfig F → Env → F → ArbRoute → SizingResult F → M (World F) (Option ℕ)
  unfolding dispatch triangular_call
  execute_route config env token_price_usd route z w =
      (do
        count_metric s3 opp_detected
        count_metric s3 sizing
        if triangular_profitable config w.bot z
            then (elim (triangular_sim config env token_price_usd route z) [
              | err e ↦ pure none
              | ok sim ↦ do
                count_metric s3 sim_passed
                receipt ←
                    dispatch config env (triangular_plan config)
                      (triangular_call token_price_usd route z)
                pure (landed_hash receipt)
            ])
            else pure none)
        w

  -- The candidates and the best of them.
  unfoldable pub choose_route :
      (ArbRoute → Option (SizingResult F))
      → ArbGraph F
      → Outcome (Option (ArbRoute × SizingResult F))
  unfolding find_cycles sized_routes best_of
  choose_route evaluate graph = elim (find_cycles graph) [
    | none ↦ err panicked
    | some routes ↦ best_of (sized_routes evaluate routes)
  ]

  -- Trades along the route that is chosen, if there is one.
  unfoldable pub trade :
      SkuaConfig F
      → Env
      → (token_price_usd : F) → Outcome (Option (ArbRoute × SizingResult F))
      → M (World F) (Option ℕ)
  unfolding execute_route
  trade config env token_price_usd (err e) w = (err e, w)
  trade config env token_price_usd (ok none) w = (ok none, w)
  trade config env token_price_usd (ok (some best)) w =
      execute_route config env token_price_usd best.0 best.1 w

  unfoldable pub try_execute_best_route :
      SkuaConfig F
      → Env
      → (ArbRoute → Option (SizingResult F))
      → (token_price_usd : F) → M (World F) (Option ℕ)
  unfolding choose_route trade build
  try_execute_best_route config env evaluate token_price_usd w =
      if w.bot.s3_enabled
      then trade config env token_price_usd (choose_route evaluate (build w.bot.pool_states)) w
      else (ok none, w)
