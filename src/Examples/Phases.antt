-- ===== src/Examples/Phases.antt =====
-- Worked examples of strategy S1: its price window and its phases.
use skua.Prelude.{◌%◌, All, ◌≡◌, true, none, some, [], ◌∷◌, arith, get_elem?}
use skua.Float.Grid.{Grid, num, grid_float}
use skua.World.{request_failed}
use skua.EvmArb.Phase.{S1Phase, phase1_complete, Held}
use skua.EvmArb.Window.{watched, push-last}
use skua.EvmArb.Sending.{S1World, Env, Market, new_executor}
use skua.EvmArb.Executor.{tick}
use skua.EvmArb.Leak.{tick_stuck}
use skua.Executor.Selection.{IsBusy}
use skua.EvmArb.Machine.{Step, phase, ticks, IsSold, tick-Step, ticks-IsSold}
use skua.Examples.Data.{config, world, env}

push-last_example :
    get_elem? (watched 3 (num 4 ∷ num 3 ∷ num 2 ∷ num 1 ∷ [])).prices (2 % 3) ≡ some (num 3)
push-last_example = push-last 3 (num 4 ∷ num 3 ∷ num 2 ∷ num 1 ∷ []) 1 2 (omega arith) (omega arith)

abbrev s1_world : S1Phase Grid → S1World Grid
s1_world p = record {
  executor = record (new_executor (num 30_000_000)) { state_machine = p };
  world = world;
}

abbrev held : Held Grid
held = record {
  held_token = 1;
  held_amount = 100_000_000;
  min_phase2_proceeds = 95_000_000;
  expected_profit_usd = num 50_000_000;
  entered_at = 1_000;
  phase1_tx = 77;
}

abbrev late : Env
late = record {
  signed = true;
  send_answer = (env true).send_answer;
  sim_answer = none;
  token0 = some 1;
  reserves = some (1_000_000_000, 2_000_000_000);
  now = 40_000;
  released_at = 40_001;
}

abbrev market : Market Grid
market = record {
  evm_pool = 10;
  bought_token = 1;
  flash_asset = 2;
  core_market_index = 8;
  token_price_usd = num 1_000_000;
  flash_available_usd = num 50_000_000;
}

tick-Step_example :
    Step Grid
      (phase1_complete held)
      (phase (tick 50 config late market (s1_world (phase1_complete held))).1)
unfolding new_executor
tick-Step_example = tick-Step 50 config late market (s1_world (phase1_complete held))

ticks-IsSold_example : ¬ (
    IsSold (
      phase
        (ticks 50 config ((late, market) ∷ (late, market) ∷ []) (s1_world (phase1_complete held)))))
unfolding new_executor
ticks-IsSold_example =
    ticks-IsSold 50 config ((late, market) ∷ (late, market) ∷ []) (s1_world (phase1_complete held))
      (λ v. v)

-- The node does not take the transaction.
abbrev refused : Env
refused = record late { send_answer = request_failed }

tick_stuck_example :
    let t = (tick 50 config refused market (s1_world (phase1_complete held))).1 in
    All IsBusy t.world.wallets × (phase t ≡ phase1_complete held)
unfolding new_executor tick skua.Executor.WalletPool.acquire skua.Executor.WalletPool.next_nonce
tick_stuck_example = tick_stuck 50 config refused market (s1_world (phase1_complete held)) tt tt
