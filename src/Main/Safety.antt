-- ===== src/Main/Safety.antt =====
-- What holds of the running program (bot/src/main.rs), whatever happens to it and in whatever order.
use skua.Prelude.{ℕ, List, [], ◌∷◌, Option, inl, inr, All, Option-cases, if_keep}
use skua.Float.{Float}
use skua.Core.Config.{SkuaConfig}
use skua.Core.State.{BotState, is_halted}
use skua.Core.Types.{BlockEvent, new_block, pool_updated, position_updated}
use skua.Api.{Request, handle}
use skua.HyperCore.Precompile.{refresh_hype_price}
use skua.Liquidation.Monitor.{RegisteredAsset}
use skua.StableDepeg.{StableToken}
use skua.EvmArb.Sending.{S1World}
use skua.World.{World, Outcome-cases, Tx}
use skua.Dispatch
use skua.Main.Keeps.{Kept, Holds}
use skua.Main.Executors.{try_liquidate-Holds, try_execute_best_route-Holds, scan_and_execute-Holds}
use skua.Main.Ticks.{HoldsAt, tick-HoldsAt}
use skua.Main.Tasks.{
  Task, liquidations, triangular, depeg, evm_arb, Answers, liquidate_all, s1_market, depeg_rounds,
  run_task,
}
use skua.Main.Program.{
  Bot, Action, header, fees, indexer, l2_book, request, receive, run_task_at, state_of, pop_oldest,
  pick, evaluate_block, evaluate_event, step, run,
}
use skua.Main.Background.{
  Untouched, process_block_header-Untouched, refresh_round-Untouched, refresh_hype_price-Untouched,
  handle_l2_message-Untouched, indexer_round-Untouched,
}

module _ {F : Type 0} ⦃fl : Float F⦄ (config : SkuaConfig F) (P : BotState F → List Tx → Type 0)
    (kept : Kept config P) where
  liquidate_all-Holds :
      (answers : ℕ → Dispatch.Env × Option ℕ) (borrowers : List ℕ) (w : World F)
      → Holds P w
      → Holds P (liquidate_all config answers borrowers w)
  unfolding liquidate_all
  liquidate_all-Holds answers [] w h = h
  liquidate_all-Holds answers (b ∷ rest) w h = liquidate_all-Holds answers rest _ (
      try_liquidate-Holds config P kept (answers b).0 (answers b).1 b config.usdc_token_index [] w
        h)

  run_task-Holds :
      (fuel : ℕ) (answers : Answers F) (task : Task) (s : S1World F)
      → HoldsAt P s
      → HoldsAt P (run_task fuel config answers task s)
  unfolding run_task
  run_task-Holds fuel answers (liquidations borrowers) s h =
      liquidate_all-Holds answers.liquidation borrowers s.world h
  run_task-Holds fuel answers triangular s h =
      try_execute_best_route-Holds config P kept answers.arb answers.evaluate _ s.world h
  run_task-Holds fuel answers (depeg stables) s h =
      scan_and_execute-Holds config P kept fuel (depeg_rounds answers stables) s.world h
  run_task-Holds fuel answers evm_arb s h =
      tick-HoldsAt config P kept fuel answers.s1 (s1_market config s.world.bot) s h

-- A property that the background loops keep, and the handlers of the requests allowed.
pub record Steady {F : Type 0} (config : SkuaConfig F) (Allowed : Request → Type 0)
    (P : BotState F → List Tx → Type 0) : Type 0 where
  pub steady : (s t : BotState F) (sent : List Tx) → Untouched s t → P s sent → P t sent
  pub handled :
      (r : Request) (s : BotState F) (sent : List Tx)
      → Allowed r
      → P s sent
      → P (handle r (record { bot_state = s; api_key = config.api_key })).1.bot_state sent

abbrev pub IsAllowed : {F : Type 0} → (Request → Type 0) → Action F → Type 0
IsAllowed Allowed (request r) = Allowed r
IsAllowed Allowed _ = Unit

module _ {F : Type 0} ⦃fl : Float F⦄ (config : SkuaConfig F) (P : BotState F → List Tx → Type 0)
    (kept : Kept config P) (Allowed : Request → Type 0) (quiet : Steady config Allowed P) where
  abbrev pub HoldsOf : Bot F → Type 0
  HoldsOf b = HoldsAt P b.s1

  evaluate_block-Holds :
      (stables : List StableToken) (price : Option ℕ) (b : Bot F)
      → HoldsOf b
      → HoldsOf (evaluate_block config stables price b)
  unfolding evaluate_block
  evaluate_block-Holds stables price b h =
      elim (Outcome-cases (refresh_hype_price price (state_of b)).0) [
        | inl (e, failed) ↦ rw (failed, evaluate_block) h
        | inr (u, done) ↦
            rw (done, evaluate_block)
              (quiet.steady (state_of b) _ _ (refresh_hype_price-Untouched price (state_of b)) h)
      ]

  evaluate_event-Holds :
      (stables : List StableToken) (price : Option ℕ) (event : BlockEvent) (b : Bot F)
      → HoldsOf b
      → HoldsOf (evaluate_event config stables price event b)
  unfolding evaluate_event
  evaluate_event-Holds stables price (new_block n) b h =
      if_keep HoldsOf (is_halted config.max_consecutive_reverts (state_of b)) _ _ h
        (evaluate_block-Holds stables price b h)
  evaluate_event-Holds stables price (pool_updated p) b h =
      if_keep HoldsOf (is_halted config.max_consecutive_reverts (state_of b)) _ _ h h
  evaluate_event-Holds stables price (position_updated p) b h =
      if_keep HoldsOf (is_halted config.max_consecutive_reverts (state_of b)) _ _ h h

  step-Holds :
      (fuel : ℕ) (assets : List (RegisteredAsset F)) (stables : List StableToken) (a : Action F)
      (b : Bot F)
      → IsAllowed Allowed a
      → HoldsOf b
      → HoldsOf (step fuel config assets stables a b)
  unfolding step
  step-Holds fuel assets stables (header x now) b _ h =
      quiet.steady (state_of b) _ _
        (process_block_header-Untouched x now (state_of b) b.block_channel) h
  step-Holds fuel assets stables (fees hl bal) b _ h =
      quiet.steady (state_of b) _ _
        (refresh_round-Untouched hl bal b.last_refresh_block (state_of b)) h
  step-Holds fuel assets stables (indexer query event) b _ h =
      quiet.steady (state_of b) _ _
        (indexer_round-Untouched query assets event b.last_reconcile (state_of b)) h
  step-Holds fuel assets stables (l2_book parse now message) b _ h =
      quiet.steady (state_of b) _ _ (handle_l2_message-Untouched parse now message (state_of b)) h
  step-Holds fuel assets stables (request r) b allowed h = quiet.handled r (state_of b) _ allowed h
  step-Holds fuel assets stables (receive price) b _ h =
      elim (Option-cases (pop_oldest b.block_channel.events)) [
        | inl empty ↦ rw (empty, step) h
        | inr ((event, rest), some_event) ↦
            rw (some_event, step) (evaluate_event-Holds stables price event _ h)
      ]
  step-Holds fuel assets stables (run_task_at i answers) b _ h =
      elim (Option-cases (pick i b.tasks)) [
        | inl no_task ↦ rw (no_task, step) h
        | inr ((task, rest), some_task) ↦
            rw (some_task, step) (run_task-Holds config P kept fuel answers task b.s1 h)
      ]

  pub run-Holds :
      (fuel : ℕ) (assets : List (RegisteredAsset F)) (stables : List StableToken)
      (actions : List (Action F)) (b : Bot F)
      → All (IsAllowed Allowed) actions
      → HoldsOf b
      → HoldsOf (run fuel config assets stables actions b)
  unfolding run
  run-Holds fuel assets stables [] b _ h = h
  run-Holds fuel assets stables (a ∷ rest) b (first, more) h =
      run-Holds fuel assets stables rest (step fuel config assets stables a b) more
        (step-Holds fuel assets stables a b first h)
