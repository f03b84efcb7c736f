-- ===== src/Main/Tasks.antt =====
-- `spawn_strategies` of bot/src/main.rs: the tasks that a block spawns, and what each does when it runs.
use skua.Prelude.{ℕ, List, [], ◌∷◌, ◌++◌, Option, Bool, true, false, ◌&&◌, not, map, if◌then◌else◌}
use skua.Float.{Float}
use skua.Core.Config.{SkuaConfig}
use skua.Core.State.{BotState, hype_price_f64}
use skua.Core.Types.{SizingResult, BorrowerPosition}
use skua.World.{World}
use skua.Dispatch
use skua.Liquidation.Monitor.{hf_presimulate}
use skua.Liquidation.Executor.{try_liquidate}
use skua.Triangular.Graph.{ArbRoute}
use skua.Triangular.Executor.{try_execute_best_route}
use skua.StableDepeg.{StableToken, scan_and_execute}
use skua.EvmArb.Sending
use skua.EvmArb.Sending.{S1World, Market}
use skua.EvmArb.Executor.{tick}

-- A spawned task, with what its closure has moved in.
pub data Task : Type 0 where
  liquidations : (borrowers : List ℕ) → Task
  triangular : Task
  depeg : (stables : List StableToken) → Task
  evm_arb : Task

abbrev pub is_empty {ℓ} : {A : Type ℓ} → List A → Bool
is_empty [] = true
is_empty (x ∷ xs) = false

-- What the outside answers to a task while it runs: to S2 by borrower and to S4 by token, with the
-- liquidation bonus and the price of the oracle that they read.
pub record Answers (F : Type 0) : Type 0 where
  pub liquidation : ℕ → Dispatch.Env × Option ℕ
  pub arb : Dispatch.Env
  pub evaluate : ArbRoute → Option (SizingResult F)
  pub stable : StableToken → Dispatch.Env × Option ℕ
  pub s1 : Sending.Env

module _ {F : Type 0} ⦃fl : Float F⦄ where
  open fl use {dec, lt}

  -- The keys of the positions whose stored health factor is under the threshold.
  unfoldable pub borrowers_at_risk : List (ℕ × BorrowerPosition F) → List ℕ
  borrowers_at_risk [] = []
  borrowers_at_risk ((addr, pos) ∷ rest) =
      if lt pos.computed_hf hf_presimulate
      then addr ∷ borrowers_at_risk rest
      else borrowers_at_risk rest

  -- The tasks in the order in which they are spawned: S2, S3, S4, S1.
  unfoldable pub spawn_strategies : BotState F → List StableToken → List Task
  unfolding borrowers_at_risk
  spawn_strategies s s4_stables =
      let borrowers = borrowers_at_risk s.hyperlend_positions in
      (if s.s2_enabled && not (is_empty borrowers) then liquidations borrowers ∷ [] else [])
      ++ ((if s.s3_enabled then triangular ∷ [] else [])
          ++ ((if s.s4_enabled && not (is_empty s4_stables) then depeg s4_stables ∷ [] else [])
              ++ (if s.s1_enabled then evm_arb ∷ [] else [])))

  -- The loop of the S2 task, with the empty map of prices that it is given; a failure is only logged.
  unfoldable pub liquidate_all :
      SkuaConfig F → (ℕ → Dispatch.Env × Option ℕ) → List ℕ → World F → World F
  unfolding try_liquidate
  liquidate_all config answers [] w = w
  liquidate_all config answers (borrower ∷ rest) w =
      let (env, bonus) = answers borrower in
      liquidate_all config answers rest
        (try_liquidate config env bonus borrower config.usdc_token_index [] w).1

  -- What S1 is told to trade: no pool and no tokens yet.
  abbrev pub s1_market : SkuaConfig F → BotState F → Market F
  s1_market config s = record {
    evm_pool = 0;
    bought_token = 0;
    flash_asset = 0;
    core_market_index = config.hype_market_index;
    token_price_usd = hype_price_f64 s;
    flash_available_usd = dec 1_000_000 0;
  }

  -- The tokens that S4 goes through, each with what it is answered.
  abbrev pub depeg_rounds :
      Answers F → List StableToken → List (Dispatch.Env × Option ℕ × StableToken)
  depeg_rounds answers = map (λ (t : StableToken). ((answers.stable t).0, (answers.stable t).1, t))

  -- The body of a task.
  unfoldable pub run_task : ℕ → SkuaConfig F → Answers F → Task → S1World F → S1World F
  unfolding liquidate_all try_execute_best_route scan_and_execute tick
  run_task fuel config answers (liquidations borrowers) s = record s {
    world = liquidate_all config answers.liquidation borrowers s.world;
  }
  run_task fuel config answers triangular s = record s {
    world =
        (try_execute_best_route config answers.arb answers.evaluate (hype_price_f64 s.world.bot)
          s.world).1;
  }
  run_task fuel config answers (depeg stables) s = record s {
    world = (scan_and_execute fuel config (depeg_rounds answers stables) s.world).1;
  }
  run_task fuel config answers evm_arb s =
      (tick fuel config answers.s1 (s1_market config s.world.bot) s).1
