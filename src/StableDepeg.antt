-- ===== src/StableDepeg.antt =====
-- bot/crates/strategies/stable_depeg/src/executor.rs: strategy S4.
use Prim.Native.String.{String}
use skua.Prelude.{
  ℕ, ◌%◌, ◌^◌, Bool, not, Option, none, some, List, [], ◌∷◌, ◌==◌, if◌then◌else◌, lookup,
}
use skua.Float.{Float, nought}
use skua.Core.Config.{SkuaConfig}
use skua.Core.State.{BotState, base_fee_wei, hype_price_f64}
use skua.Core.Types.{PoolState, SizingResult, SimulationResult, balancer}
use skua.Core.Gas.{s4_depeg_gas_estimate}
use skua.Simulation.Amm.{AmmPool}
use skua.Simulation.Profit.{net_profit_stable_depeg}
use skua.Simulation.Sizing.{optimal_borrow_size}
use skua.Scanner.Signals.{DepegSignal, check_depeg}
use skua.Scanner.Pipeline.{layer4_profit_check, layer5_eth_call_sim}
use skua.HyperCore.Precompile.{read_price}
use skua.World.{
  World, M, Outcome, ok, err, Error, out_of_fuel, Call, execute_depeg_arb, s4, opp_detected, sizing,
  sim_passed, count_metric, ◌>>=◌, ◌>>◌, pure, throw,
}
use skua.Dispatch.{Env, Plan, dispatch}
pub mod Justified

pub record StableToken : Type 0 where
  pub token : ℕ
  pub symbol : String
  pub oracle_token_index : ℕ
  pub decimals : ℕ
  pub pool_a : ℕ
  pub pool_b : ℕ

unfoldable pub encode_depeg_calldata :
    (flash_asset flash_amount_wei pool_buy pool_sell oracle_index min_profit_wei : ℕ) → Call
encode_depeg_calldata = execute_depeg_arb

-- The pool to buy from and the one to sell to, with their addresses and the price in the first.
pub record Sides (F : Type 0) : Type 0 where
  pub buy : PoolState F
  pub sell : PoolState F
  pub buy_addr : ℕ
  pub sell_addr : ℕ
  pub amm_price : F

module _ {F : Type 0} ⦃fl : Float F⦄ where
  open fl use {dec, cast, ◌⊖◌, ◌⊗◌, ◌⊘◌, lt, le, eqf, abs, minimum, powi, trunc}

  infixl 65 ◌⊖◌
  infixl 70 ◌⊗◌ ◌⊘◌
  unfoldable pub stable_pool_price : PoolState F → ℕ → F
  stable_pool_price ps stable_token =
      let r_stable = cast (if ps.token_a == stable_token then ps.reserve_a else ps.reserve_b) in
      let r_other = cast (if ps.token_a == stable_token then ps.reserve_b else ps.reserve_a) in
      if eqf r_stable nought then nought else r_other ⊘ r_stable

  -- The pool whose price is further from the oracle's is the one to buy from.
  unfoldable pub choose_sides : StableToken → F → PoolState F → PoolState F → Sides F
  unfolding stable_pool_price
  choose_sides stable oracle_price a b =
      let price_a = stable_pool_price a stable.token in
      let price_b = stable_pool_price b stable.token in
      if le (abs (price_b ⊖ oracle_price)) (abs (price_a ⊖ oracle_price))
      then record {
        buy = a;
        sell = b;
        buy_addr = stable.pool_a;
        sell_addr = stable.pool_b;
        amm_price = price_a;
      }
      else record {
        buy = b;
        sell = a;
        buy_addr = stable.pool_b;
        sell_addr = stable.pool_a;
        amm_price = price_b;
      }

  unfoldable pub make_amm : PoolState F → ℕ → AmmPool F
  make_amm ps token_in = record {
    reserve_in = cast (if ps.token_a == token_in then ps.reserve_a else ps.reserve_b);
    reserve_out = cast (if ps.token_a == token_in then ps.reserve_b else ps.reserve_a);
    fee_bps = cast ps.fee_bps;
    amp = ps.amp;
    n_tokens = 2;
  }

  unfoldable pub depeg_sizing :
      ℕ → SkuaConfig F → StableToken → F → Sides F → BotState F → Option (Option (SizingResult F))
  unfolding make_amm
  depeg_sizing fuel config stable oracle_price sides bot =
      let unit = powi (dec 10 0) stable.decimals in
      let amm_buy = make_amm sides.buy stable.token in
      let amm_sell = make_amm sides.sell stable.token in
      let profit_fn = λ (x : F).
        net_profit_stable_depeg amm_buy amm_sell x (cast bot.balancer_fee_bps) s4_depeg_gas_estimate
          (base_fee_wei bot) (hype_price_f64 bot) in
      let flash_available_usd =
        minimum (cast sides.buy.reserve_a) (cast sides.buy.reserve_b) ⊘ unit ⊗ oracle_price in
      optimal_borrow_size fuel profit_fn flash_available_usd config.hard_cap_usd oracle_price
        stable.decimals balancer (cast sides.buy.reserve_a ⊘ unit ⊗ oracle_price)
        (cast sides.buy.reserve_b ⊘ unit ⊗ oracle_price) sides.buy.amp sides.sell.amp

  -- the power in u128 wraps
  unfoldable pub depeg_call : StableToken → F → Sides F → SizingResult F → Call
  unfolding encode_depeg_calldata
  depeg_call stable oracle_price sides z =
      let min_profit_wei =
        if lt nought oracle_price
        then trunc 128
            (z.expected_profit_usd ⊗ dec 8 1 ⊘ oracle_price ⊗ cast (10 ^ stable.decimals % 2 ^ 128))
        else 0 in
      encode_depeg_calldata stable.token z.optimal_amount_wei sides.buy_addr sides.sell_addr
        stable.oracle_token_index min_profit_wei

  abbrev pub depeg_plan : SkuaConfig F → Plan
  depeg_plan config = record {
    strategy = s4;
    contract = config.contract_stable_depeg;
    gas_estimate = s4_depeg_gas_estimate;
    multiplier = config.gasprice_multiplier_depeg;
  }

  abbrev pub depeg_sim :
      SkuaConfig F → Env → StableToken → F → SizingResult F → Outcome (SimulationResult F)
  depeg_sim config env stable oracle_price z =
      layer5_eth_call_sim env.sim_answer z.expected_profit_usd oracle_price stable.decimals
        config.s4_min_profit_usd

  abbrev pub depeg_profitable : SkuaConfig F → BotState F → SizingResult F → Bool
  depeg_profitable config bot z =
      layer4_profit_check z.expected_profit_usd config.s4_min_profit_usd config.gas_roi_multiplier
        s4_depeg_gas_estimate (base_fee_wei bot) (hype_price_f64 bot)

  -- From the sizing's result on.
  unfoldable pub arb_with :
      SkuaConfig F → Env → StableToken → F → Sides F → SizingResult F → M (World F) (Unit {0})
  unfolding depeg_call dispatch
  arb_with config env stable oracle_price sides z w =
      (do
        count_metric s4 sizing
        if depeg_profitable config w.bot z
            then (elim (depeg_sim config env stable oracle_price z) [
              | err e ↦ pure tt
              | ok sim ↦ do
                count_metric s4 sim_passed
                receipt ←
                    dispatch config env (depeg_plan config) (depeg_call stable oracle_price sides z)
                pure tt
            ])
            else pure tt)
        w

  -- From the signal on; only a token under its peg is traded.
  unfoldable pub signal_with :
      ℕ → SkuaConfig F → Env → StableToken → F → Sides F → DepegSignal F → M (World F) (Unit {0})
  unfolding depeg_sizing arb_with
  signal_with fuel config env stable oracle_price sides signal w =
      (do
        count_metric s4 opp_detected
        if signal.depegged_lower
            then (elim (depeg_sizing fuel config stable oracle_price sides w.bot) [
              | none ↦ throw out_of_fuel
              | some none ↦ pure tt
              | some (some z) ↦ arb_with config env stable oracle_price sides z
            ])
            else pure tt)
        w

  -- `oracle` is the answer of the oracle's precompile.
  unfoldable pub check_stable :
      ℕ → SkuaConfig F → Env → (oracle : Option ℕ) → StableToken → M (World F) (Unit {0})
  unfolding read_price choose_sides signal_with
  check_stable fuel config env oracle stable w = elim (read_price oracle) [
    | err e ↦ (ok tt, w)
    | ok raw ↦
        let oracle_price = cast raw ⊘ dec 100_000_000 0 in
        elim (lookup stable.pool_a w.bot.pool_states) [
          | none ↦ (ok tt, w)
          | some a ↦ elim (lookup stable.pool_b w.bot.pool_states) [
            | none ↦ (ok tt, w)
            | some b ↦
                let sides = choose_sides stable oracle_price a b in
                elim (check_depeg sides.amm_price oracle_price config.s4_depeg_threshold_bps
                  stable.token) [
                    | none ↦ (ok tt, w)
                    | some signal ↦ signal_with fuel config env stable oracle_price sides signal w
                  ]
          ]
        ]
  ]

  -- The loop of `scan_and_execute`, with the answers of each round; an error ends its own round only.
  unfoldable pub check_all :
      ℕ → SkuaConfig F → List (Env × Option ℕ × StableToken) → World F → World F
  unfolding check_stable
  check_all fuel config [] w = w
  check_all fuel config ((env, oracle, stable) ∷ rest) w =
      check_all fuel config rest (check_stable fuel config env oracle stable w).1

  unfoldable pub scan_and_execute :
      ℕ → SkuaConfig F → List (Env × Option ℕ × StableToken) → M (World F) (Unit {0})
  unfolding check_all
  scan_and_execute fuel config rounds w =
      if w.bot.s4_enabled then (ok tt, check_all fuel config rounds w) else (ok tt, w)
