-- ===== src/Examples/Program.antt =====
-- Worked examples of the whole program: a block that arrives, its tasks, and requests.
use skua.Prelude.{length, ◌+◌, false, ◌≡◌, refl, true, none, some, List, [], ◌∷◌, All, arith}
use skua.Float.Grid.{Grid, num, grid_float}
use skua.Core.Types.{balancer}
use skua.EvmArb.Sending
use skua.EvmArb.Sending.{new_executor}
use skua.Submit.Breaker.{IsGuarded}
use skua.Api.{kill, resume}
use skua.Submit.Abstract.{
  Event, submit, call, breaker_run, detailed_run, abstract_of, detailed_run-breaker_run,
}
use skua.Main.Tasks.{Answers, triangular}
use skua.Main.Program.{Bot, Action, header, request, receive, run_task_at, fees, state_of, run}
use skua.Main.Keeps.{IsOurs}
use skua.Main.Guarantees.{run-IsOurs, run-IsGuarded, run_stopped}
use skua.World.{mined}
use skua.Examples.Data.{receipt, tx, config, bot, world, env}

-- The bot of the other examples, with a triangular task that has not run.
abbrev running : Bot Grid
running = record {
  s1 = record { executor = new_executor (num 30_000_000); world = world };
  block_channel = record { capacity = 256; events = [] };
  tasks = triangular ∷ [];
  alerts = [];
  last_refresh_block = 0;
  last_reconcile = 0;
}

abbrev pub s1_env : Sending.Env
s1_env = record {
  signed = true;
  send_answer = (env true).send_answer;
  sim_answer = none;
  token0 = some 1;
  reserves = some (1_000_000_000, 2_000_000_000);
  now = 40_000;
  released_at = 40_001;
}

abbrev pub answers : Answers Grid
answers = record {
  liquidation = λ borrower. (env true, none);
  arb = env true;
  evaluate = λ route. some (record {
    optimal_amount_wei = 3_000_000;
    optimal_amount_usd = num 3_000_000;
    expected_profit_usd = num 3_000_000;
    flash_provider = balancer;
  });
  stable = λ token. (env true, none);
  s1 = s1_env;
}

-- A block arrives and is evaluated, the fees are refreshed, and two tasks run.
abbrev pub a_block : List (Action Grid)
a_block =
    header (record { number = 101; base_fee_per_gas = some 1_000 }) 5
    ∷ receive (some 2_600_000_000)
    ∷ fees (some 4) (some 0)
    ∷ run_task_at 1 answers
    ∷ run_task_at 0 answers
    ∷ request (kill "key")
    ∷ []

run-IsOurs_example : All (IsOurs config) (run 5 config [] [] a_block running).s1.world.sent
run-IsOurs_example = run-IsOurs config 5 [] [] a_block running tt

run-IsGuarded_example : IsGuarded config (state_of (run 5 config [] [] a_block running))
run-IsGuarded_example =
    run-IsGuarded config 5 [] [] a_block running (ground arith) (omega arith)
      (record { bounded = omega arith; tripped = λ h. absurd (omega (arith, h)) })

abbrev stopped : Bot Grid
stopped = record running {
  s1 = record running.s1 { world = record world { bot = record bot { kill_switch = true } } };
}

run_stopped_example :
    let t = run 5 config [] [] a_block stopped in
    ((state_of t).kill_switch ≡ true) × (t.s1.world.sent ≡ [])
run_stopped_example =
    run_stopped config 5 [] [] a_block stopped (tt, (tt, (tt, (tt, (tt, (tt, tt)))))) refl

-- Two reverts, a kill, a submission that is refused, a resume, and a third revert.
abbrev events : List Event
events =
    submit (mined (receipt false)) tx
    ∷ submit (mined (receipt false)) tx
    ∷ call (kill "key")
    ∷ submit (mined (receipt true)) tx
    ∷ call (resume "key")
    ∷ submit (mined (receipt false)) tx
    ∷ []

detailed_run-breaker_run_example :
    let v = detailed_run config events world in
    let r = breaker_run config events (abstract_of config world.bot) in
    (abstract_of config v.bot ≡ r.1) × (length v.sent ≡ length world.sent + r.0)
detailed_run-breaker_run_example =
    detailed_run-breaker_run config (ground arith) (omega arith) events world
