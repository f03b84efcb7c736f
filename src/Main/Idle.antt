-- ===== src/Main/Idle.antt =====
-- What the program as bot/src/main.rs puts it together can do. No task fills `pool_states`: the loop of
-- bot/crates/chain/src/pool_monitor.rs is imported and not spawned. S2 is given no prices.
use skua.Main.Wiring.{SameBot, liquidate_all-SameBot, triangular-SameBot, scan-SameBot}
use Prim.Native.String.{String}
use skua.Prelude.{
  ℕ, ◌≡◌, ◌∙◌, ap, sym, subst, List, [], ◌∷◌, Option, none, inl, inr, Option-cases, if_keep, arith,
  lookup,
}
use skua.Float.{Float}
use skua.Core.Config.{SkuaConfig}
use skua.Core.State.{BotState, is_halted, halt, hype_price_f64}
use skua.Core.Types.{BlockEvent, new_block, pool_updated, position_updated}
use skua.World.{World, Outcome, ok, Outcome-cases, Tx}
use skua.HyperCore.Precompile.{refresh_hype_price}
use skua.Liquidation.Monitor.{RegisteredAsset}
use skua.StableDepeg.{StableToken}
use skua.Scanner.Signals.{evaluate}
use skua.EvmArb.Phase.{idle, push}
use skua.EvmArb.Sending.{S1World, Env, Market}
use skua.EvmArb.Executor.{try_phase1, tick_phase, tick}
use skua.EvmArb.Machine.{phase}
use skua.Api.{
  Request, handle, kill, resume, toggle, kill_handler, resume_handler, strategy_toggle_handler,
}
use skua.Main.Tasks.{
  Task, liquidations, triangular, depeg, evm_arb, Answers, s1_market, depeg_rounds, run_task,
}
use skua.Main.Program.{
  Bot, Action, header, fees, indexer, l2_book, request, receive, run_task_at, state_of, pop_oldest,
  pick, evaluate_block, evaluate_event, step, run,
}
use skua.Main.Background.{
  process_block_header-Untouched, refresh_round-Untouched, refresh_hype_price-Untouched,
  handle_l2_message-Untouched, indexer_round-Untouched,
}

module _ {F : Type 0} where
  -- S1 has not begun, no pool is known, and the transactions are those given.
  pub record IsIdle (before : List Tx) (s : S1World F) : Type 0 where
    pub waiting : phase s ≡ idle
    pub no_pools : s.world.bot.pool_states ≡ []
    pub nothing_sent : s.world.sent ≡ before

  IsIdle-world :
      (before : List Tx) (s : S1World F) (v : World F)
      → SameBot s.world v
      → IsIdle before s
      → IsIdle before (record s { world = v })
  IsIdle-world before s v same i = record {
    waiting = i.waiting;
    no_pools = ap (λ (b : BotState F). b.pool_states) same.bot ∙ i.no_pools;
    nothing_sent = same.sent ∙ i.nothing_sent;
  }

  IsIdle-state :
      (before : List Tx) (s : S1World F) (t : BotState F)
      → t.pool_states ≡ s.world.bot.pool_states
      → IsIdle before s
      → IsIdle before (record s { world = record s.world { bot = t } })
  IsIdle-state before s t pools i = record {
    waiting = i.waiting;
    no_pools = pools ∙ i.no_pools;
    nothing_sent = i.nothing_sent;
  }

  handle-pools :
      (r : Request) (s : BotState F) (key : String)
      → (handle r (record { bot_state = s; api_key = key })).1.bot_state.pool_states ≡ s.pool_states
  unfolding handle kill_handler resume_handler strategy_toggle_handler halt
  handle-pools (kill given) s key = ground arith
  handle-pools (resume given) s key = ground arith
  handle-pools (toggle body) s key = ground arith

module _ {F : Type 0} ⦃fl : Float F⦄ (config : SkuaConfig F) (before : List Tx) where
  try_phase1-IsIdle :
      (fuel : ℕ) (env : Env) (market : Market F) (s : S1World F)
      → IsIdle before s
      → IsIdle before (try_phase1 fuel config env market s).1
  unfolding try_phase1
  try_phase1-IsIdle fuel env market s i =
      let unknown : lookup market.evm_pool s.world.bot.pool_states ≡ none =
        ap (lookup market.evm_pool) i.no_pools in
      elim (Option-cases (evaluate s.executor.detector)) [
        | inl calm ↦ rw (calm, try_phase1) i
        | inr (signal, found) ↦ rw (found, unknown, try_phase1) i
      ]

  tick-IsIdle :
      (fuel : ℕ) (env : Env) (market : Market F) (s : S1World F)
      → IsIdle before s
      → IsIdle before (tick fuel config env market s).1
  unfolding tick tick_phase push
  tick-IsIdle fuel env market s i =
      let t = record s {
        executor = record s.executor {
          vol_estimator = push (hype_price_f64 s.world.bot) s.executor.vol_estimator;
        };
      } in
      let j : IsIdle before t = record {
        waiting = i.waiting;
        no_pools = i.no_pools;
        nothing_sent = i.nothing_sent;
      } in
      if_keep (λ (r : Outcome (Unit {0}) × S1World F). IsIdle before r.1) s.world.bot.s1_enabled
        (tick_phase fuel config env market (phase s) t) (ok tt, s)
        (subst (λ p. IsIdle before (tick_phase fuel config env market p t).1) (sym i.waiting)
          (try_phase1-IsIdle fuel env market t j))
        i

  run_task-IsIdle :
      (fuel : ℕ) (answers : Answers F) (task : Task) (s : S1World F)
      → IsIdle before s
      → IsIdle before (run_task fuel config answers task s)
  unfolding run_task
  run_task-IsIdle fuel answers (liquidations borrowers) s i =
      IsIdle-world before s _ (liquidate_all-SameBot config answers.liquidation borrowers s.world) i
  run_task-IsIdle fuel answers triangular s i =
      IsIdle-world before s _
        (triangular-SameBot config answers.arb answers.evaluate (hype_price_f64 s.world.bot) s.world
          i.no_pools)
        i
  run_task-IsIdle fuel answers (depeg stables) s i =
      IsIdle-world before s _
        (scan-SameBot fuel config (depeg_rounds answers stables) s.world i.no_pools) i
  run_task-IsIdle fuel answers evm_arb s i =
      tick-IsIdle fuel answers.s1 (s1_market config s.world.bot) s i

  abbrev IsIdleBot : Bot F → Type 0
  IsIdleBot b = IsIdle before b.s1

  evaluate_block-IsIdle :
      (stables : List StableToken) (price : Option ℕ) (b : Bot F)
      → IsIdleBot b
      → IsIdleBot (evaluate_block config stables price b)
  unfolding evaluate_block
  evaluate_block-IsIdle stables price b i =
      elim (Outcome-cases (refresh_hype_price price (state_of b)).0) [
        | inl (e, failed) ↦ rw (failed, evaluate_block) i
        | inr (u, done) ↦
            rw (done, evaluate_block)
              (IsIdle-state before b.s1 (refresh_hype_price price (state_of b)).1
                (refresh_hype_price-Untouched price (state_of b)).pools i)
      ]

  evaluate_event-IsIdle :
      (stables : List StableToken) (price : Option ℕ) (event : BlockEvent) (b : Bot F)
      → IsIdleBot b
      → IsIdleBot (evaluate_event config stables price event b)
  unfolding evaluate_event
  evaluate_event-IsIdle stables price event b i =
      if_keep IsIdleBot (is_halted config.max_consecutive_reverts (state_of b)) _ _ i
        (by_kind event)
    where
      by_kind :
          (e : BlockEvent)
          → IsIdleBot (elim e [
            | new_block n ↦ evaluate_block config stables price b
            | pool_updated p ↦ b
            | position_updated p ↦ b
          ])
      by_kind (new_block n) = evaluate_block-IsIdle stables price b i
      by_kind (pool_updated p) = i
      by_kind (position_updated p) = i

  step-IsIdle :
      (fuel : ℕ) (assets : List (RegisteredAsset F)) (stables : List StableToken) (a : Action F)
      (b : Bot F)
      → IsIdleBot b
      → IsIdleBot (step fuel config assets stables a b)
  unfolding step
  step-IsIdle fuel assets stables (header x now) b i =
      IsIdle-state before b.s1 _
        (process_block_header-Untouched x now (state_of b) b.block_channel).pools i
  step-IsIdle fuel assets stables (fees hl bal) b i =
      IsIdle-state before b.s1 _
        (refresh_round-Untouched hl bal b.last_refresh_block (state_of b)).pools i
  step-IsIdle fuel assets stables (indexer query event) b i =
      IsIdle-state before b.s1 _
        (indexer_round-Untouched query assets event b.last_reconcile (state_of b)).pools i
  step-IsIdle fuel assets stables (l2_book parse now message) b i =
      IsIdle-state before b.s1 _ (handle_l2_message-Untouched parse now message (state_of b)).pools
        i
  step-IsIdle fuel assets stables (request r) b i =
      IsIdle-state before b.s1 _ (handle-pools r (state_of b) config.api_key) i
  step-IsIdle fuel assets stables (receive price) b i =
      elim (Option-cases (pop_oldest b.block_channel.events)) [
        | inl empty ↦ rw (empty, step) i
        | inr ((event, rest), some_event) ↦
            rw (some_event, step) (evaluate_event-IsIdle stables price event _ i)
      ]
  step-IsIdle fuel assets stables (run_task_at k answers) b i =
      elim (Option-cases (pick k b.tasks)) [
        | inl no_task ↦ rw (no_task, step) i
        | inr ((task, rest), some_task) ↦
            rw (some_task, step) (run_task-IsIdle fuel answers task b.s1 i)
      ]

  -- From a state as the program starts, in which no pool is known and S1 has not begun, nothing that can
  -- happen makes the bot send a transaction, learn of a pool, or begin a trade of S1: whatever
  -- arrives from outside, whatever is enabled, and in whatever order the tasks run.
  pub run-IsIdle :
      (fuel : ℕ) (assets : List (RegisteredAsset F)) (stables : List StableToken)
      (actions : List (Action F)) (b : Bot F)
      → IsIdle before b.s1
      → IsIdle before (run fuel config assets stables actions b).s1
  unfolding run
  run-IsIdle fuel assets stables [] b i = i
  run-IsIdle fuel assets stables (a ∷ rest) b i =
      run-IsIdle fuel assets stables rest (step fuel config assets stables a b)
        (step-IsIdle fuel assets stables a b i)
