-- ===== src/Examples/Strategies.antt =====
-- Worked examples of the strategies: a liquidation, a cycle and a depeg.
use skua.Prelude.{ℕ, ◌≡◌, ◌≢◌, refl, true, false, Option, some, List, [], ◌∷◌, lookup}
use skua.Float.Grid.{Grid, num, grid_float, Grid-IsOrdered, Grid-IsRounded, Grid-IsSigned}
use skua.Core.State.{BotState}
use skua.Core.Types.{BorrowerPosition, PriceMap}
use skua.World.{World}
use skua.Liquidation.Monitor.{
  UserReserve, RegisteredAsset, refresh_borrower_position, read_reserves, push_reserve, total_debt,
}
use skua.Liquidation.Sizing.{LiquidationParams, dynamic_close_factor_bps}
use skua.Liquidation.Repay.{refresh-close_factor}
use skua.Liquidation.Executor.{try_liquidate}
use skua.Liquidation.Justified.{LiquidatesOnly, try_liquidate-sent}
use skua.Triangular.Executor.{try_execute_best_route}
use skua.StableDepeg.{StableToken, check_stable}
use skua.StableDepeg.Justified.{TradesDepegOnly, check_stable-sent}
use skua.Triangular.Whole.{evaluation, TradesWithinCaps, try_execute_best_route_within_caps}
use skua.Examples.Data.{config, bot, world, env}

-- A borrower with 100 of token 2 as collateral and debts of 80 of token 1.
abbrev reserves : ℕ → Option UserReserve
reserves token = lookup token (
    (
      1,
      record {
        current_a_token_balance = 0;
        current_stable_debt = 30_000_000;
        current_variable_debt = 50_000_000;
        usage_as_collateral_enabled = false;
      },
    )
    ∷ (
      2,
      record {
        current_a_token_balance = 100_000_000;
        current_stable_debt = 0;
        current_variable_debt = 0;
        usage_as_collateral_enabled = true;
      },
    )
    ∷ [])

abbrev asset : ℕ → RegisteredAsset Grid
asset token = record {
  token = token;
  decimals = 6;
  liquidation_threshold = num 800_000;
  liquidation_bonus = num 1_050_000;
}

abbrev assets : List (RegisteredAsset Grid)
assets = asset 1 ∷ asset 2 ∷ []

refresh-close_factor_example :
    let r = refresh_borrower_position reserves 42 assets bot in
    (pos : BorrowerPosition Grid) × (lookup 42 r.1.hyperlend_positions ≡ some pos)
    × (pos.debt_assets ≢ [] → dynamic_close_factor_bps pos.computed_hf ≡ 10_000)
unfolding refresh_borrower_position read_reserves push_reserve total_debt
refresh-close_factor_example = refresh-close_factor reserves 42 assets bot refl refl

abbrev position : BorrowerPosition Grid
position = record {
  address = 42;
  collateral_assets =
      record {
        token = 2;
        amount = 100_000_000;
        ltv = num 800_000;
        liq_bonus = num 1_050_000;
        decimals = 6;
      }
      ∷ [];
  debt_assets = record { token = 1; amount = 80_000_000; decimals = 6 } ∷ [];
  computed_hf = num 0;
  last_block = 100;
}

abbrev prices : PriceMap Grid
prices = (1, num 1_000_000) ∷ (2, num 900_000) ∷ []

abbrev indebted : World Grid
indebted = record world { bot = record bot { hyperlend_positions = (42, position) ∷ [] } }

try_liquidate-sent_example :
    LiquidatesOnly config
      (env true)
      (some 10_500)
      42
      8
      prices
      indebted
      (try_liquidate config (env true) (some 10_500) 42 8 prices indebted).1
try_liquidate-sent_example = try_liquidate-sent config (env true) (some 10_500) 42 8 prices indebted

-- What the parameters of this liquidation are.
abbrev params : LiquidationParams Grid
params = record {
  borrower = 42;
  debt_asset = 1;
  collateral_asset = 2;
  debt_to_repay = 80_000_000;
  collateral_bonus = num 1_050_000;
  expected_profit = num 3_558_750;
  use_hyperlend_flash = true;
}

try_execute_best_route_within_caps_example :
    TradesWithinCaps 40 [] config
      (num 1_000_000_000_000)
      (num 1_000_000)
      Grid-IsOrdered
      Grid-IsRounded
      Grid-IsSigned
      (env true)
      world
      (try_execute_best_route config
        (env true)
        (evaluation 40 [] config (num 1_000_000_000_000) (num 1_000_000) bot)
        (num 1_000_000)
        world).1
try_execute_best_route_within_caps_example =
    try_execute_best_route_within_caps 40 [] config (num 1_000_000_000_000) (num 1_000_000)
      Grid-IsOrdered Grid-IsRounded Grid-IsSigned (env true) world refl refl refl

abbrev stable : StableToken
stable = record {
  token = 1;
  symbol = "USDC";
  oracle_token_index = 4;
  decimals = 6;
  pool_a = 10;
  pool_b = 12;
}

check_stable-sent_example :
    TradesDepegOnly 50 config
      (env true)
      (some 100_000_000)
      stable
      world
      (check_stable 50 config (env true) (some 100_000_000) stable world).1
check_stable-sent_example = check_stable-sent 50 config (env true) (some 100_000_000) stable world
