-- ===== src/Liquidation/Sizing.antt =====
-- bot/crates/strategies/liquidation/src/sizing.rs. The liquidation bonus that the pool contract answers
-- is an argument, none for an error; the sum and the product in u128 wrap.
use skua.Prelude.{
  ℕ, ◌+◌, ◌*◌, ◌/◌, ◌%◌, ◌^◌, Bool, true, Option, none, some, List, [], ◌∷◌, ◌==◌, if◌then◌else◌,
  lookup,
}
use skua.Float.{Float, nought}
use skua.Core.State.{BotState, base_fee_wei, hype_price_f64}
use skua.Core.Types.{PriceMap, BorrowerPosition, CollateralAsset, DebtAsset}
use skua.Core.Gas.{gas_cost_usd, s2_liquidation_gas_estimate}
use skua.Simulation.Amm.{AmmPool, get_output}
use skua.World.{Outcome, ok, err, rpc_failed, price_missing, price_zero}

pub record LiquidationParams (F : Type 0) : Type 0 where
  pub borrower : ℕ
  pub debt_asset : ℕ
  pub collateral_asset : ℕ
  pub debt_to_repay : ℕ
  pub collateral_bonus : F
  pub expected_profit : F
  pub use_hyperlend_flash : Bool

-- the reserves and the fee of the pool for the swap
pub record SwapPool (F : Type 0) : Type 0 where
  pub r_in : F
  pub r_out : F
  pub fee_bps : F

unfoldable pub total_debt_units : ℕ → List DebtAsset → ℕ
total_debt_units acc [] = acc
total_debt_units acc (d ∷ ds) = total_debt_units ((acc + d.amount) % 2 ^ 128) ds

module _ {F : Type 0} ⦃fl : Float F⦄ where
  open fl use {dec, cast, ◌⊖◌, ◌⊗◌, ◌⊘◌, lt, le, maximum, powi}

  infixl 65 ◌⊖◌
  infixl 70 ◌⊗◌ ◌⊘◌
  unfoldable pub dynamic_close_factor_bps : F → ℕ
  dynamic_close_factor_bps health_factor = if lt health_factor (dec 95 2) then 10_000 else 5_000

  unfoldable pub max_liquidatable : F → List DebtAsset → ℕ
  unfolding dynamic_close_factor_bps total_debt_units
  max_liquidatable health_factor debts =
      (total_debt_units 0 debts * dynamic_close_factor_bps health_factor) % 2 ^ 128 / 10_000

  unfoldable pub swap_slippage_usd :
      Option (SwapPool F)
      → (received debt_price collateral_price : F) → (debt_decimals collateral_decimals : ℕ) → F
  swap_slippage_usd none received debt_price collateral_price dd cd = received ⊗ dec 5 3
  swap_slippage_usd (some p) received debt_price collateral_price dd cd =
      let amm : AmmPool F = record {
        reserve_in = p.r_in;
        reserve_out = p.r_out;
        fee_bps = p.fee_bps;
        amp = nought;
        n_tokens = 2;
      } in
      let collateral_amount = received ⊘ collateral_price ⊗ powi (dec 10 0) cd in
      let debt_received = get_output amm collateral_amount in
      let debt_received_usd = debt_received ⊘ powi (dec 10 0) dd ⊗ debt_price in
      maximum (received ⊖ debt_received_usd) nought

  -- What follows the checks, with the first debt, the first collateral and their prices.
  unfoldable pub priced_params :
      F
      → BorrowerPosition F
      → DebtAsset
      → CollateralAsset F
      → BotState F
      → Option (SwapPool F)
      → (debt_price collateral_price : F) → (repay : ℕ) → LiquidationParams F
  unfolding swap_slippage_usd
  priced_params liq_bonus pos debt collateral s swap_pool debt_price collateral_price repay =
      let debt_usd = cast repay ⊘ powi (dec 10 0) debt.decimals ⊗ debt_price in
      let flash_fee = debt_usd ⊗ cast s.hyperlend_fee_bps ⊘ dec 10_000 0 in
      let received = debt_usd ⊗ liq_bonus in
      let slippage =
        swap_slippage_usd swap_pool received debt_price collateral_price debt.decimals
          collateral.decimals in
      let gas_usd = gas_cost_usd (base_fee_wei s) s2_liquidation_gas_estimate (hype_price_f64 s) in
      record {
        borrower = pos.address;
        debt_asset = debt.token;
        collateral_asset = collateral.token;
        debt_to_repay = repay;
        collateral_bonus = liq_bonus;
        expected_profit = received ⊖ debt_usd ⊖ flash_fee ⊖ slippage ⊖ gas_usd;
        use_hyperlend_flash = true;
      }

  -- The lookups of the prices and their checks.
  unfoldable pub with_prices :
      PriceMap F
      → (debt collateral : ℕ) → (F → F → LiquidationParams F)
      → Outcome (Option (LiquidationParams F))
  with_prices prices debt collateral k = elim (lookup debt prices) [
    | none ↦ err price_missing
    | some debt_price ↦ elim (lookup collateral prices) [
      | none ↦ err price_missing
      | some collateral_price ↦
          if le debt_price nought
          then err price_zero
          else if le collateral_price nought
          then err price_zero
          else ok (some (k debt_price collateral_price))
    ]
  ]

  unfoldable pub compute_liquidation_params :
      Option ℕ
      → BorrowerPosition F
      → PriceMap F
      → BotState F
      → Option (SwapPool F)
      → Outcome (Option (LiquidationParams F))
  unfolding max_liquidatable priced_params with_prices
  compute_liquidation_params bonus pos prices s swap_pool = elim pos.debt_assets [
    | [] ↦ ok none
    | debt ∷ _ ↦ elim pos.collateral_assets [
      | [] ↦ ok none
      | collateral ∷ _ ↦
          let repay = max_liquidatable pos.computed_hf pos.debt_assets in
          if repay == 0 then ok none else elim bonus [
            | none ↦ err rpc_failed
            | some raw ↦
                with_prices prices debt.token collateral.token (λ debt_price collateral_price.
                  priced_params (cast raw ⊘ dec 10_000 0) pos debt collateral s swap_pool debt_price
                    collateral_price repay)
          ]
    ]
  ]
