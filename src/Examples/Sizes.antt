-- ===== src/Examples/Sizes.antt =====
-- Worked examples of the pools' mathematics, the sizing and the simulation gate.
use skua.Prelude.{ℕ, ◌+◌, ◌^◌, ◌%◌, ◌≡◌, refl, true, Option, some, List}
use skua.Float.Grid.{Grid, num, grid_float, Grid-IsOrdered, Grid-rank_bound, Grid-IsRounded}
use skua.Core.Types.{balancer, SizingResult, SimulationResult}
use skua.Simulation.Amm.{AmmPool}
use skua.Simulation.Sizing.{
  optimal_borrow_size, stage1_upper_bound, size_below, finish, golden_section, impact_gate,
  probe_loop, first_probe,
}
use skua.Simulation.Termination.{Returns, optimal_borrow_size_total}
use skua.Simulation.Bounds.{IsSized, optimal_borrow_size-IsSized}
use skua.Simulation.EthCall.{decode_sim_return, simulate_and_validate, validate, from_be_bytes}
use skua.Simulation.Gate.{
  encode_answer, IsValidated, decode_sim_return-encode_answer, simulate_and_validate_ok,
}

abbrev even_pool : AmmPool Grid
even_pool = record {
  reserve_in = num 1_000_000_000;
  reserve_out = num 2_000_000_000;
  fee_bps = num 30_000_000;
  amp = num 100_000_000;
  n_tokens = 2;
}

decode_sim_return-encode_answer_example :
    decode_sim_return (encode_answer true (2 ^ 128 + 5)) ≡ some (true, (2 ^ 128 + 5) % 2 ^ 128)
decode_sim_return-encode_answer_example = decode_sim_return-encode_answer true (2 ^ 128 + 5)

optimal_borrow_size_total_example : Returns (
    optimal_borrow_size
      (10 ^ 60 + 1)
      (λ x. x)
      (num 50_000_000)
      (num 80_000_000)
      (num 1_000_000)
      6
      balancer
      (num 40_000_000)
      (num 60_000_000)
      (num 0)
      (num 0))
optimal_borrow_size_total_example =
    optimal_borrow_size_total Grid-IsOrdered (10 ^ 60 + 1) (λ x. x) (num 50_000_000)
      (num 80_000_000) (num 1_000_000) 6 balancer (num 40_000_000) (num 60_000_000) (num 0) (num 0)
      Grid-rank_bound

-- What the four stages find for a profit that grows with the amount.
abbrev found : Option (Option (SizingResult Grid))
found =
    optimal_borrow_size 20 (λ x. x) (num 50_000_000) (num 80_000_000) (num 1_000_000) 6 balancer
      (num 40_000_000) (num 60_000_000) (num 0) (num 0)

abbrev best_size : SizingResult Grid
best_size = record {
  optimal_amount_wei = 37_999_994;
  optimal_amount_usd = num 37_999_994;
  expected_profit_usd = num 37_999_994;
  flash_provider = balancer;
}

optimal_borrow_size-IsSized_example :
    IsSized Grid-IsOrdered Grid-IsRounded (λ x. x) balancer (num 50_000_000) best_size
    × IsSized Grid-IsOrdered Grid-IsRounded (λ x. x) balancer (num 80_000_000) best_size
unfolding optimal_borrow_size stage1_upper_bound size_below finish golden_section impact_gate
    probe_loop first_probe
optimal_borrow_size-IsSized_example =
    optimal_borrow_size-IsSized Grid-IsOrdered Grid-IsRounded 20 (λ x. x) (num 50_000_000)
      (num 80_000_000) (num 1_000_000) 6 balancer (num 40_000_000) (num 60_000_000) (num 0) (num 0)
      {r = best_size} refl refl refl refl

-- The contract's answer: success, and 20 tokens of 6 decimals.
abbrev answer : List ℕ
answer = encode_answer true 20_000_000

abbrev passed : SimulationResult Grid
passed = record { success = true; profit_usd = num 20_000_000 }

simulate_and_validate_ok_example :
    (raw : List ℕ) × (wei : ℕ) × (some answer ≡ some raw)
    × (decode_sim_return raw ≡ some (true, wei))
    × IsValidated (num 20_000_000) (num 1_000_000) 6 (num 5_000_000) wei passed
unfolding simulate_and_validate validate decode_sim_return from_be_bytes
simulate_and_validate_ok_example =
    simulate_and_validate_ok (some answer) (num 20_000_000) (num 1_000_000) 6 (num 5_000_000)
      {r = passed} refl
