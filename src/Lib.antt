-- ===== src/Lib.antt =====
-- SKUA, an arbitrage and liquidation bot (bot/crates): a model of its pure code and of the control flow
-- around its node, and the theorems about them.
--
-- Parts, and how they interact. The chain loops (bot/crates/chain) keep the shared state of the bot
-- (bot/crates/core) in step with blocks, pool reserves and fees. The strategies S1 to S4
-- (bot/crates/strategies) read that state, size a trade with the pool mathematics and the four-stage
-- sizing of bot/crates/simulation, pass it through the layers of bot/crates/scanner, simulate it with an
-- eth_call, and send it with a wallet of the pool (bot/crates/executor), whose submission trips the
-- circuit breaker of the state. The API (bot/crates/api) turns the kill switch and the strategies on
-- and off.
--
-- Files, and what they model:
--   Core/Types, Core/State, Core/Gas, Core/Config: core/src/types.rs, state.rs, gas.rs and config.rs;
--     Core/Environment and Core/FromEnv: how config.rs reads the environment.
--     BotState is a record; an operation that takes `&self` gives a new record.
--   Executor/WalletPool: executor/src/wallet_pool.rs. Submit: executor/src/submit.rs.
--   Simulation/Amm, Profit, Sizing, EthCall: the files of simulation/src with these names.
--   Scanner/Signals, Scanner/Pipeline: scanner/src/s1_signal.rs, s4_signal.rs and pipeline.rs.
--   HyperCore/Precompile, CoreWriter, Book: hypercore/src/precompile.rs, corewriter.rs, orderbook.rs.
--   Triangular/Graph, Search, BellmanFord, Evaluate: strategies/triangular/src/graph.rs;
--     Triangular/Executor: its executor.rs.
--   Liquidation/Monitor, Sizing, Executor: the files of strategies/liquidation/src with these names.
--   EvmArb/Phase: strategies/evm_arb/src/phase.rs; EvmArb/Sending and EvmArb/Executor: its executor.rs.
--   StableDepeg: strategies/stable_depeg/src/executor.rs.
--   Dispatch: what the executors of S2, S3 and S4 do from the acquisition of a wallet to the metrics.
--   World: the state that an executor works on, and the monad of code that may fail and keeps what it
--     changed. A metric is counted by its name, without the value reported with it.
--   Chain/Blocks, Pools, Fees, Providers: chain/src/block_loop.rs, pool_monitor.rs, fee_refresh.rs and
--     providers.rs.
--   Api: api/src/lib.rs. Api/Metrics: api/src/metrics.rs, over a registry with the laws that the prometheus
--     library documents, and metrics_sync_loop of main.
--   Main/Startup, Main/Start: what bot/src/main.rs does before its loop. Main/Tasks: spawn_strategies, and
--     what each spawned task does. Main/Program: the evaluation loop, and the program as a sequence of
--     happenings: a block header, a round of a background loop, a request, an event received, a task
--     that runs. Each happens as a whole between two others, and the list of them is arbitrary.
--   Chain/Waits, Api/Rates and HyperCore/Latest describe what the code beside them should leave.
--   Submit/Abstract: the circuit breaker as an abstract machine, which submissions and requests refine.
-- The other modules of a folder hold the theorems about that part, by what they prove; Prelude holds
-- the shared names and lemmas; Examples runs the theorems on concrete numbers.
--
-- Numbers. An unsigned integer is a natural number, with the wrap-around of the code written out: a
-- counter that is added to with fetch_add is taken modulo 2^w, a saturating subtraction stops at 0. An
-- address is a number. An f64 is a value of a parameter F with the operations and comparisons of
-- Float.antt; a theorem that needs laws of them takes a record of Float/Laws.antt, each field of
-- which is documented behaviour of IEEE 754 numbers. Float/Grid.antt is an instance with finitely
-- many values, for which the laws are proved, and on which the examples are run.
--
-- Loops. A `while` or `loop` on f64 is a recursion on fuel: the doubling loop of the sizing runs out only
-- with less fuel than F has values, since each round makes its probe larger. The golden-section
-- search has its 128 rounds and the relaxation its n-1. The loops of the services are functions of
-- the list of what their stream delivers.
--
-- External code is an argument: the answers of the node (queries, signing, submission, simulation), the
-- clock, the streams and the ABI encoding, for which a call stands as a record of its arguments. A
-- hash map is an association list, whose order stands for the iteration order of the map.
--
-- Not modelled: what the tasks of main do between two of their own awaits (each runs as a whole), the
-- text of the metrics page, logs and alerts (an alert is recorded by its kind), serving HTTP, and
-- connecting, of which only the outcome counts. `evaluate_route` of S3 reads a vector `pools` that is
-- not declared: it is an argument of the model, and the executor takes the evaluation of a route as an
-- argument, which Triangular/Whole fills.
pub mod Prelude
pub mod Float
pub mod Core
pub mod Executor
pub mod World
pub mod Submit
pub mod Simulation
pub mod Scanner
pub mod HyperCore
pub mod Triangular
pub mod EvmArb
pub mod Dispatch
pub mod Liquidation
pub mod StableDepeg
pub mod Chain
pub mod Api
pub mod Main
pub mod Examples
