-- ===== src/Simulation/Profit.antt =====
-- bot/crates/simulation/src/profit.rs
use skua.Prelude.{ℕ, if◌then◌else◌}
use skua.Float.{Float, nought}
use skua.Core.Gas.{gas_cost_usd}
use skua.Simulation.Amm.{AmmPool, get_output, get_output_stable}

module _ {F : Type 0} ⦃fl : Float F⦄ where
  open fl use {dec, ◌⊖◌, ◌⊗◌, ◌⊘◌, le, neg, infinity, maximum}

  infixl 65 ◌⊖◌
  infixl 70 ◌⊗◌ ◌⊘◌
  unfoldable pub net_profit_two_leg : AmmPool F → AmmPool F → F → F → ℕ → ℕ → F → F
  net_profit_two_leg pool_a pool_b x flash_fee_bps gas_units base_fee_wei hype_price_usd =
      if le x nought
      then neg infinity
      else let mid = get_output pool_a x in
        if le mid nought
        then neg infinity
        else let out = get_output pool_b mid in
          if le out nought
          then neg infinity
          else let flash_fee = x ⊗ flash_fee_bps ⊘ dec 10_000 0 in
            let gas_usd = gas_cost_usd base_fee_wei gas_units hype_price_usd in
            out ⊖ x ⊖ flash_fee ⊖ gas_usd

  unfoldable pub net_profit_three_leg : (ab bc ca : AmmPool F) → F → F → ℕ → ℕ → F → F
  net_profit_three_leg pool_ab pool_bc pool_ca x flash_fee_bps gas_units base_fee_wei
        hype_price_usd =
      if le x nought
      then neg infinity
      else let ab = get_output pool_ab x in
        if le ab nought
        then neg infinity
        else let bc = get_output pool_bc ab in
          if le bc nought
          then neg infinity
          else let ca = get_output pool_ca bc in
            if le ca nought
            then neg infinity
            else let flash_fee = x ⊗ flash_fee_bps ⊘ dec 10_000 0 in
              let gas_usd = gas_cost_usd base_fee_wei gas_units hype_price_usd in
              ca ⊖ x ⊖ flash_fee ⊖ gas_usd

  unfoldable pub net_profit_stable_depeg : AmmPool F → AmmPool F → F → F → ℕ → ℕ → F → F
  net_profit_stable_depeg pool_buy pool_sell x flash_fee_bps gas_units base_fee_wei hype_price_usd =
      if le x nought
      then neg infinity
      else let bought = get_output_stable pool_buy x in
        if le bought nought
        then neg infinity
        else let out = get_output_stable pool_sell bought in
          if le out nought
          then neg infinity
          else let flash_fee = x ⊗ flash_fee_bps ⊘ dec 10_000 0 in
            let gas_usd = gas_cost_usd base_fee_wei gas_units hype_price_usd in
            out ⊖ x ⊖ flash_fee ⊖ gas_usd

  unfoldable pub effective_min_profit_usd : F → F → ℕ → ℕ → F → F
  effective_min_profit_usd strategy_min roi_multiplier gas_units base_fee_wei hype_price_usd =
      let gas_usd = gas_cost_usd base_fee_wei gas_units hype_price_usd in
      maximum strategy_min (roi_multiplier ⊗ gas_usd)
