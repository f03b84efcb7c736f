-- ===== src/EvmArb/Executor.antt =====
-- The phases' handlers of `S1Executor` (bot/crates/strategies/evm_arb/src/executor.rs).
use skua.Prelude.{ℕ, ◌+◌, ◌-◌, ◌&&◌, Bool, Option, none, some, ◌==◌, leb, if◌then◌else◌, lookup}
use skua.Float.{Float, nought}
use skua.Core.Config.{SkuaConfig}
use skua.Core.Types.{PoolState, SizingResult, balancer}
use skua.Core.State.{base_fee_wei, hype_price_f64}
use skua.Core.Gas.{s1_phase1_gas_estimate}
use skua.Simulation.Amm.{AmmPool}
use skua.Simulation.Profit.{net_profit_two_leg}
use skua.Simulation.Sizing.{optimal_borrow_size}
use skua.Scanner.Signals.{evaluate}
use skua.Scanner.Pipeline.{layer4_profit_check, layer5_eth_call_sim}
use skua.HyperCore.CoreWriter.{build_s1_sell_order, calldata, corewriter_address}
use skua.World.{M, ok, err, out_of_fuel, emergency_exit, Receipt, pure}
use skua.EvmArb.Phase.{
  S1Phase, idle, phase1_complete, phase2_pending, phase2_complete, emergency_exited, push,
  vol_per_second, should_emergency_exit, s1_risk_check, phase2_timeout,
}
use skua.EvmArb.Sending.{
  S1World, Env, Market, build_univ2_swap_calldata, encode_phase1_calldata, or_no_bytes, is_ok,
  set_phase, with_wallet,
}

module _ {F : Type 0} ⦃fl : Float F⦄ where
  open fl use {dec, cast, ◌⊗◌, ◌⊘◌, le, trunc}

  infixl 70 ◌⊗◌ ◌⊘◌
  abbrev pub core_bid : S1World F → F
  core_bid s = cast s.executor.detector.core_bid ⊘ dec 100_000_000 0

  -- The pool as phase 1 trades through it.
  unfoldable pub oriented : PoolState F → ℕ → AmmPool F
  oriented ps token_in = record {
    reserve_in = cast (if ps.token_a == token_in then ps.reserve_a else ps.reserve_b);
    reserve_out = cast (if ps.token_a == token_in then ps.reserve_b else ps.reserve_a);
    fee_bps = cast ps.fee_bps;
    amp = ps.amp;
    n_tokens = 2;
  }

  unfoldable pub phase1_sizing :
      ℕ → SkuaConfig F → Market F → PoolState F → S1World F → Option (Option (SizingResult F))
  unfolding oriented
  phase1_sizing fuel config market ps s =
      let bot = s.world.bot in
      let pool = oriented ps market.flash_asset in
      let sell_proxy : AmmPool F = record {
        reserve_in = dec 1_000_000 0 ⊗ core_bid s;
        reserve_out = dec 1_000_000 0;
        fee_bps = nought;
        amp = nought;
        n_tokens = 2;
      } in
      let profit_fn = λ (x : F).
        net_profit_two_leg pool sell_proxy x (cast bot.balancer_fee_bps) s1_phase1_gas_estimate
          (base_fee_wei bot) (hype_price_f64 bot) in
      optimal_borrow_size fuel profit_fn market.flash_available_usd config.hard_cap_usd
        market.token_price_usd 8 balancer (pool.reserve_in ⊘ dec 1_000_000 0)
        (pool.reserve_out ⊘ dec 1_000_000 0) nought nought

  abbrev pub min_escrow : SizingResult F → ℕ
  min_escrow sizing = trunc 128 (cast sizing.optimal_amount_wei ⊗ dec 95 2)

  -- The checks between the sizing and the transaction of phase 1.
  unfoldable pub phase1_checks : SkuaConfig F → Env → Market F → SizingResult F → S1World F → Bool
  phase1_checks config env market sizing s =
      let bot = s.world.bot in
      layer4_profit_check sizing.expected_profit_usd config.s1_min_profit_usd
        config.gas_roi_multiplier s1_phase1_gas_estimate (base_fee_wei bot) (hype_price_f64 bot)
      && (s1_risk_check sizing.expected_profit_usd sizing.optimal_amount_usd
            (vol_per_second s.executor.vol_estimator) (dec 4 0)
          && is_ok (
              layer5_eth_call_sim env.sim_answer sizing.expected_profit_usd market.token_price_usd 8
                config.s1_min_profit_usd))

  -- What the receipt of phase 1 does.
  unfoldable pub record_phase1 :
      Env → Market F → SizingResult F → Receipt → M (S1World F) (Unit {0})
  record_phase1 env market sizing receipt =
      if receipt.status
      then set_phase (
          phase1_complete (record {
            held_token = market.bought_token;
            held_amount = sizing.optimal_amount_wei;
            min_phase2_proceeds = min_escrow sizing;
            expected_profit_usd = sizing.expected_profit_usd;
            entered_at = env.now;
            phase1_tx = receipt.transaction_hash;
          }))
      else pure tt

  -- What follows the checks.
  unfoldable pub enter_phase1 :
      SkuaConfig F → Env → Market F → PoolState F → SizingResult F → M (S1World F) (Unit {0})
  unfolding with_wallet record_phase1 encode_phase1_calldata
  enter_phase1 config env market ps sizing s =
      let min_bid = trunc 64 (core_bid s ⊗ dec 99 2 ⊗ dec 100_000_000 0) in
      let input =
        encode_phase1_calldata sizing.optimal_amount_wei market.evm_pool
          (ps.token_a == market.flash_asset) market.core_market_index min_bid (min_escrow sizing) in
      with_wallet config env config.contract_evm_arb input (s1_phase1_gas_estimate + 50_000)
        (record_phase1 env market sizing) s

  unfoldable pub try_phase1 : ℕ → SkuaConfig F → Env → Market F → M (S1World F) (Unit {0})
  unfolding phase1_sizing phase1_checks enter_phase1
  try_phase1 fuel config env market s = elim (evaluate s.executor.detector) [
    | none ↦ (ok tt, s)
    | some signal ↦ elim (lookup market.evm_pool s.world.bot.pool_states) [
      | none ↦ (ok tt, s)
      | some ps ↦ elim (phase1_sizing fuel config market ps s) [
        | none ↦ (err out_of_fuel, s)
        | some none ↦ (ok tt, s)
        | some (some sizing) ↦
            if phase1_checks config env market sizing s
            then enter_phase1 config env market ps sizing s
            else (ok tt, s)
      ]
    ]
  ]

  unfoldable pub execute_phase2 :
      SkuaConfig F → Env → Market F → (held_token held_amount : ℕ) → M (S1World F) (Unit {0})
  unfolding with_wallet
  execute_phase2 config env market held_token held_amount s =
      if le (core_bid s) nought
      then (ok tt, s)
      else let size_human = cast held_amount ⊘ dec 100_000_000 0 in
        let limit_px = core_bid s ⊗ dec 995 3 in
        let order = build_s1_sell_order market.core_market_index size_human limit_px 0 in
        with_wallet config env corewriter_address (calldata order) 150_000
          (λ (receipt : Receipt). set_phase (phase2_pending held_token held_amount 0 env.now)) s

  unfoldable pub trigger_emergency_exit :
      SkuaConfig F → Env → Market F → (held_token held_amount : ℕ) → M (S1World F) (Unit {0})
  unfolding with_wallet build_univ2_swap_calldata
  trigger_emergency_exit config env market held_token held_amount =
      let input = emergency_exit market.evm_pool (
        or_no_bytes (
          build_univ2_swap_calldata env.token0 env.reserves held_token held_amount
            config.contract_evm_arb)) in
      with_wallet config env config.contract_evm_arb input 400_000
        (λ (receipt : Receipt). set_phase (emergency_exited held_amount))

  -- What a tick does in each phase.
  unfoldable pub tick_phase :
      ℕ → SkuaConfig F → Env → Market F → S1Phase F → M (S1World F) (Unit {0})
  unfolding try_phase1 execute_phase2 trigger_emergency_exit should_emergency_exit
  tick_phase fuel config env market idle = try_phase1 fuel config env market
  tick_phase fuel config env market (phase1_complete h) =
      let expected_price = cast h.min_phase2_proceeds ⊘ cast h.held_amount in
      if should_emergency_exit env.now (phase1_complete h) market.token_price_usd expected_price
      then trigger_emergency_exit config env market h.held_token h.held_amount
      else execute_phase2 config env market h.held_token h.held_amount
  tick_phase fuel config env market (phase2_pending held_token held_amount cloid placed_at) =
      if leb phase2_timeout (env.now - placed_at)
      then trigger_emergency_exit config env market held_token held_amount
      else pure tt
  tick_phase fuel config env market (phase2_complete proceeds) = set_phase idle
  tick_phase fuel config env market (emergency_exited swapped) = set_phase idle

  unfoldable pub tick : ℕ → SkuaConfig F → Env → Market F → M (S1World F) (Unit {0})
  unfolding tick_phase push
  tick fuel config env market s =
      if s.world.bot.s1_enabled
      then (let price = hype_price_f64 s.world.bot in
          let watching = record s.executor {
            vol_estimator = push price s.executor.vol_estimator;
          } in
          tick_phase fuel config env market s.executor.state_machine
            (record s { executor = watching }))
      else (ok tt, s)
