-- ===== src/Scanner/Pipeline.antt =====
-- bot/crates/scanner/src/pipeline.rs
use skua.Prelude.{ℕ, Bool, Option, List}
use skua.Float.{Float}
use skua.Core.Types.{FlashProvider, SizingResult, SimulationResult}
use skua.World.{Outcome}
use skua.Simulation.Profit.{effective_min_profit_usd}
use skua.Simulation.Sizing.{optimal_borrow_size}
use skua.Simulation.EthCall.{simulate_and_validate}

module _ {F : Type 0} ⦃fl : Float F⦄ where
  open fl use {lt}

  unfoldable pub layer1_delta_filter : F → F → Bool
  layer1_delta_filter signal_delta_bps min_delta_bps = lt min_delta_bps signal_delta_bps

  unfoldable pub layer2_liquidity_gate : F → F → Bool
  layer2_liquidity_gate pool_reserve_usd min_pool_usd = lt min_pool_usd pool_reserve_usd

  unfoldable pub layer3_sizing :
      ℕ
      → (F → F)
      → (flash_available hard_cap token_price : F) → ℕ
      → FlashProvider
      → (reserve_in reserve_out amp_entry amp_exit : F) → Option (Option (SizingResult F))
  layer3_sizing = optimal_borrow_size

  unfoldable pub layer4_profit_check : (expected strategy_min roi : F) → ℕ → ℕ → F → Bool
  layer4_profit_check expected strategy_min roi_multiplier gas_units base_fee_wei hype_price_usd =
      lt
        (effective_min_profit_usd strategy_min roi_multiplier gas_units base_fee_wei hype_price_usd)
        expected

  unfoldable pub layer5_eth_call_sim :
      Option (List ℕ) → (expected price : F) → ℕ → (minimum : F) → Outcome (SimulationResult F)
  layer5_eth_call_sim = simulate_and_validate
