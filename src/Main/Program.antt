-- ===== src/Main/Program.antt =====
-- The running program of bot/src/main.rs: the state that its tasks share, and what can happen to it.
-- Every task runs as a whole between two other happenings.
use Prim.Native.String.{String}
use skua.Prelude.{ℕ, zero, suc, List, [], ◌∷◌, ◌++◌, Option, none, some, if◌then◌else◌}
use skua.Float.{Float}
use skua.Core.Config.{SkuaConfig}
use skua.Core.State.{BotState, is_halted}
use skua.Core.Types.{BlockEvent, new_block, pool_updated, position_updated}
use skua.World.{ok, err}
use skua.Chain.Blocks.{Header, Channel, process_block_header}
use skua.Chain.Fees.{refresh_round}
use skua.HyperCore.Precompile.{refresh_hype_price}
use skua.HyperCore.Book.{WsEnvelope, handle_l2_message}
use skua.Liquidation.Monitor.{RegisteredAsset, UserReserve, LogEvent, indexer_round}
use skua.Api.{Request, handle}
use skua.StableDepeg.{StableToken}
use skua.EvmArb.Sending.{S1World}
use skua.Main.Tasks.{Task, Answers, spawn_strategies, run_task}

pub data Alert : Type 0 where
  kill_switch_active zero_price : Alert

pub record Bot (F : Type 0) : Type 0 where
  pub s1 : S1World F
  -- the channel of block events, and the tasks that are spawned and have not run
  pub block_channel : Channel
  pub tasks : List Task
  -- newest first
  pub alerts : List Alert
  pub last_refresh_block : ℕ
  pub last_reconcile : ℕ

-- The oldest event, and the others.
abbrev pub pop_oldest : List BlockEvent → Option (BlockEvent × List BlockEvent)
pop_oldest [] = none
pop_oldest (e ∷ es) = elim (pop_oldest es) [ none ↦ some (e, []) | some r ↦ some (r.0, e ∷ r.1) ]

-- The i-th of a list, and the others.
abbrev pub pick : {A : Type 0} → ℕ → List A → Option (A × List A)
pick i [] = none
pick zero (x ∷ xs) = some (x, xs)
pick (suc i) (x ∷ xs) = elim (pick i xs) [ none ↦ none | some r ↦ some (r.0, x ∷ r.1) ]

-- What can happen, with what the outside contributes: to the background loops, to the API, to the
-- evaluation loop, and to a spawned task, which the scheduler chooses.
pub data Action (F : Type 0) : Type 0 where
  header : Header → (now_ms : ℕ) → Action F
  fees : (hl_raw bal_raw : Option ℕ) → Action F
  indexer : (ℕ → ℕ → Option UserReserve) → LogEvent → Action F
  l2_book : (String → Option F) → (now_ms : ℕ) → Option WsEnvelope → Action F
  request : Request → Action F
  receive : (price : Option ℕ) → Action F
  run_task_at : ℕ → Answers F → Action F

module _ {F : Type 0} where
  abbrev pub state_of : Bot F → BotState F
  state_of b = b.s1.world.bot

  abbrev pub with_state : BotState F → Bot F → Bot F
  with_state s b = record b { s1 = record b.s1 { world = record b.s1.world { bot = s } } }

module _ {F : Type 0} ⦃fl : Float F⦄ where
  -- What follows the check of the event's kind: the price, and the tasks of the block.
  unfoldable pub evaluate_block :
      SkuaConfig F → List StableToken → (price : Option ℕ) → Bot F → Bot F
  unfolding refresh_hype_price spawn_strategies
  evaluate_block config s4_stables price b =
      let r = refresh_hype_price price (state_of b) in
      elim r.0 [
        | err e ↦ record b { alerts = zero_price ∷ b.alerts }
        | ok _ ↦ record (with_state r.1 b) { tasks = b.tasks ++ spawn_strategies r.1 s4_stables }
      ]

  -- The body of the evaluation loop for one event.
  unfoldable pub evaluate_event :
      SkuaConfig F → List StableToken → (price : Option ℕ) → BlockEvent → Bot F → Bot F
  unfolding is_halted evaluate_block
  evaluate_event config s4_stables price event b =
      if is_halted config.max_consecutive_reverts (state_of b)
      then record b { alerts = kill_switch_active ∷ b.alerts }
      else elim event [
        | new_block block_num ↦ evaluate_block config s4_stables price b
        | pool_updated _ ↦ b
        | position_updated _ ↦ b
      ]

  -- One happening. An index of no task, and an empty channel, change nothing.
  unfoldable pub step :
      ℕ → SkuaConfig F → List (RegisteredAsset F) → List StableToken → Action F → Bot F → Bot F
  unfolding process_block_header refresh_round indexer_round handle_l2_message handle evaluate_event
      run_task
  step fuel config assets s4_stables (header h now_ms) b =
      let r = process_block_header h now_ms (state_of b, b.block_channel) in
      record (with_state r.0 b) { block_channel = r.1 }
  step fuel config assets s4_stables (fees hl_raw bal_raw) b =
      let r = refresh_round hl_raw bal_raw b.last_refresh_block (state_of b) in
      record (with_state r.1 b) { last_refresh_block = r.0 }
  step fuel config assets s4_stables (indexer query event) b =
      let r = indexer_round query assets event b.last_reconcile (state_of b) in
      record (with_state r.1 b) {
        last_reconcile = elim r.0 [ none ↦ b.last_reconcile | some last ↦ last ];
      }
  step fuel config assets s4_stables (l2_book parse now_ms message) b =
      with_state (handle_l2_message parse now_ms message (state_of b)).1 b
  step fuel config assets s4_stables (request r) b =
      let api = handle r (record { bot_state = state_of b; api_key = config.api_key }) in
      with_state api.1.bot_state b
  step fuel config assets s4_stables (receive price) b = elim (pop_oldest b.block_channel.events) [
    | none ↦ b
    | some (event, rest) ↦
        evaluate_event config s4_stables price event
          (record b { block_channel = record b.block_channel { events = rest } })
  ]
  step fuel config assets s4_stables (run_task_at i answers) b = elim (pick i b.tasks) [
    | none ↦ b
    | some (task, rest) ↦ record b { s1 = run_task fuel config answers task b.s1; tasks = rest }
  ]

  -- Happenings one after the other.
  unfoldable pub run :
      ℕ
      → SkuaConfig F
      → List (RegisteredAsset F)
      → List StableToken
      → List (Action F)
      → Bot F
      → Bot F
  unfolding step
  run fuel config assets s4_stables [] b = b
  run fuel config assets s4_stables (a ∷ rest) b =
      run fuel config assets s4_stables rest (step fuel config assets s4_stables a b)
