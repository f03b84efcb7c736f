-- ===== src/Liquidation/Executor.antt =====
-- bot/crates/strategies/liquidation/src/executor.rs
use skua.Prelude.{ℕ, Bool, ◌%◌, ◌^◌, Option, none, some, List, [], ◌∷◌, if◌then◌else◌, lookup}
use skua.Float.{Float, nought, one}
use skua.Core.Config.{SkuaConfig}
use skua.Core.State.{BotState, base_fee_wei, hype_price_f64}
use skua.Core.Types.{PriceMap, BorrowerPosition, DebtAsset, SimulationResult}
use skua.Core.Gas.{s2_liquidation_gas_estimate}
use skua.Scanner.Pipeline.{layer4_profit_check, layer5_eth_call_sim}
use skua.World.{
  World, M, Outcome, ok, err, Call, execute_liquidation, s2, opp_detected, sim_passed, count_metric,
  ◌>>=◌, ◌>>◌, pure, throw,
}
use skua.Dispatch.{Env, Plan, dispatch}
use skua.Liquidation.Monitor.{compute_health_factor, hf_presimulate, hf_submit}
use skua.Liquidation.Sizing.{LiquidationParams, compute_liquidation_params}

module _ {F : Type 0} where
  unfoldable pub encode_liquidation_calldata : LiquidationParams F → ℕ → ℕ → Call
  encode_liquidation_calldata p collateral_market_index min_profit_wei =
      execute_liquidation p.debt_asset p.collateral_asset p.borrower p.debt_to_repay
        collateral_market_index min_profit_wei

-- `first().map(|d| d.decimals).unwrap_or(6)`
abbrev pub first_decimals : List DebtAsset → ℕ
first_decimals [] = 6
first_decimals (d ∷ ds) = d.decimals

module _ {F : Type 0} ⦃fl : Float F⦄ where
  open fl use {dec, cast, ◌⊗◌, ◌⊘◌, le, trunc}

  infixl 70 ◌⊗◌ ◌⊘◌
  -- the power in u128 wraps
  unfoldable pub profit_usd_to_wei : F → F → ℕ → ℕ
  profit_usd_to_wei profit_usd token_price decimals =
      if le token_price nought
      then 0
      else trunc 128 (profit_usd ⊘ token_price ⊗ cast (10 ^ decimals % 2 ^ 128))

  -- `prices.get(token).copied().unwrap_or(1.0)`
  abbrev pub price_or_one : PriceMap F → ℕ → F
  price_or_one prices token = elim (lookup token prices) [ none ↦ one | some p ↦ p ]

  unfoldable pub liquidation_call : BorrowerPosition F → PriceMap F → ℕ → LiquidationParams F → Call
  unfolding encode_liquidation_calldata profit_usd_to_wei
  liquidation_call pos prices collateral_market_index params =
      let min_profit_wei =
        profit_usd_to_wei (params.expected_profit ⊗ dec 8 1) (price_or_one prices params.debt_asset)
          (first_decimals pos.debt_assets) in
      encode_liquidation_calldata params collateral_market_index min_profit_wei

  abbrev pub liquidation_sim :
      SkuaConfig F
      → Env
      → BorrowerPosition F
      → PriceMap F
      → LiquidationParams F
      → Outcome (SimulationResult F)
  liquidation_sim config env pos prices params =
      layer5_eth_call_sim env.sim_answer params.expected_profit
        (price_or_one prices params.debt_asset) (first_decimals pos.debt_assets)
        config.s2_min_profit_usd

  abbrev pub liquidation_plan : SkuaConfig F → Plan
  liquidation_plan config = record {
    strategy = s2;
    contract = config.contract_liquidation;
    gas_estimate = s2_liquidation_gas_estimate;
    multiplier = config.gasprice_multiplier_liquidation;
  }

  -- From the simulation on.
  unfoldable pub simulate_and_dispatch :
      SkuaConfig F
      → Env
      → BorrowerPosition F
      → PriceMap F
      → ℕ
      → LiquidationParams F
      → M (World F) (Option (SimulationResult F))
  unfolding dispatch liquidation_call
  simulate_and_dispatch config env pos prices market params =
      elim (liquidation_sim config env pos prices params) [
        | err e ↦ pure none
        | ok sim ↦ do
          count_metric s2 sim_passed
          receipt ←
              dispatch config env (liquidation_plan config)
                (liquidation_call pos prices market params)
          pure (elim receipt [ none ↦ none | some r ↦ some sim ])
      ]

  abbrev pub profitable : SkuaConfig F → BotState F → LiquidationParams F → Bool
  profitable config s params =
      layer4_profit_check params.expected_profit config.s2_min_profit_usd config.gas_roi_multiplier
        s2_liquidation_gas_estimate (base_fee_wei s) (hype_price_f64 s)

  -- The two checks on the parameters, in their order.
  unfoldable pub liquidate_with :
      SkuaConfig F
      → Env
      → BorrowerPosition F
      → PriceMap F
      → ℕ
      → LiquidationParams F
      → M (World F) (Option (SimulationResult F))
  unfolding simulate_and_dispatch
  liquidate_with config env pos prices market params w =
      if profitable config w.bot params
      then (if le hf_submit (compute_health_factor pos prices)
          then (ok none, w)
          else simulate_and_dispatch config env pos prices market params w)
      else (ok none, w)

  -- `bonus` answers `getReserveConfigurationData`.
  unfoldable pub try_liquidate :
      SkuaConfig F
      → Env
      → (bonus : Option ℕ) → (borrower collateral_market_index : ℕ) → PriceMap F
      → M (World F) (Option (SimulationResult F))
  unfolding compute_health_factor compute_liquidation_params liquidate_with
  try_liquidate config env bonus borrower market prices w =
      elim (lookup borrower w.bot.hyperlend_positions) [
        | none ↦ (ok none, w)
        | some pos ↦
            if le hf_presimulate (compute_health_factor pos prices)
            then (ok none, w)
            else (do
              count_metric s2 opp_detected
              elim (compute_liquidation_params bonus pos prices w.bot none) [
                | err e ↦ throw e
                | ok none ↦ pure none
                | ok (some params) ↦ liquidate_with config env pos prices market params
              ])
                w
      ]
