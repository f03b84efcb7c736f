-- ===== src/Examples/Routes.antt =====
-- Worked examples of the search for cycles.
use skua.Prelude.{
  ℕ, ◌↔◌, ◌≡◌, true, ◌⊎◌, ◌==◌, Option, if◌then◌else◌, refl, some, List, [], ◌∷◌, inl, All, In,
  length,
}
use skua.Float.Grid.{Grid, grid_float, num, Grid-IsOrdered, Grid-IsRounded, Grid-IsSigned}
use skua.Core.Types.{SizingResult, balancer}
use skua.World.{Hop}
use skua.Triangular.Graph.{
  ArbRoute, ArbGraph, build, build_from, push_edge, edge_a_to_b, edge_b_to_a, rates_product,
  product_from, find_edge, effective_rate_per_unit,
}
use skua.Triangular.Search.{route_of, dfs_cycles}
use skua.Triangular.Sound.{IsCycle}
use skua.Triangular.BellmanFord.{find_cycles}
use skua.Triangular.Found.{find_cycles-All, find_cycles_total}
use skua.Triangular.Reference.{IsReported, dfs_cycles-In_iff}
use skua.Triangular.Executor.{choose_route, sized_routes, best_of, max_from}
use skua.Triangular.Best.{choose_route_best}
use skua.Triangular.Evaluate.{evaluate_route}
use skua.Triangular.Sized.{IsEvaluated, evaluate_route-IsEvaluated}
use skua.Examples.Data.{pools, bot, config}

abbrev graph : ArbGraph Grid
graph = build pools

abbrev hop : ℕ → ℕ → ℕ → Hop
hop pool token_in token_out = record { pool = pool; token_in = token_in; token_out = token_out }

-- The way round the three pools that gains.
abbrev loop : List Hop
loop = hop 10 1 2 ∷ hop 11 2 3 ∷ hop 12 3 1 ∷ []

dfs_cycles-In_iff_example :
    In (route_of 1 loop) (dfs_cycles graph 3) ↔ IsReported graph 3 (route_of 1 loop)
dfs_cycles-In_iff_example = dfs_cycles-In_iff graph 3 (route_of 1 loop)

find_cycles-All_example :
    All
      (λ (r : ArbRoute). IsCycle graph 3 r.start_token r × (length r.hops ≡ 3))
      (dfs_cycles graph 3)
unfolding find_cycles build build_from push_edge edge_a_to_b edge_b_to_a
find_cycles-All_example = find_cycles-All graph (dfs_cycles graph 3) refl

find_cycles_total_example : (routes : List ArbRoute) × (find_cycles graph ≡ some routes)
find_cycles_total_example = find_cycles_total Grid-IsOrdered pools

abbrev result : ℕ → SizingResult Grid
result profit = record {
  optimal_amount_wei = 50_000_000;
  optimal_amount_usd = num 50_000_000;
  expected_profit_usd = num profit;
  flash_provider = balancer;
}

-- The way from token 2 is worth the most.
abbrev size_by_start : ArbRoute → Option (SizingResult Grid)
size_by_start route = some (result (if route.start_token == 2 then 9_000_000 else 5_000_000))

abbrev loop_from_two : List Hop
loop_from_two = hop 11 2 3 ∷ hop 12 3 1 ∷ hop 10 1 2 ∷ []

-- What is compared, and what is chosen.
abbrev candidate : ArbRoute × SizingResult Grid
candidate = (route_of 1 loop, result 5_000_000)

abbrev chosen : ArbRoute × SizingResult Grid
chosen = (route_of 2 loop_from_two, result 9_000_000)

choose_route_best_example :
    (candidate ≡ chosen) ⊎ (grid_float.le (num 5_000_000) (num 9_000_000) ≡ true)
unfolding find_cycles build build_from push_edge edge_a_to_b edge_b_to_a choose_route sized_routes
    best_of max_from skua.Triangular.Search.dfs_cycles skua.Triangular.Search.dfs_recurse
    skua.Triangular.Search.visit rates_product product_from find_edge effective_rate_per_unit
    skua.Simulation.Amm.get_output
choose_route_best_example =
    choose_route_best Grid-IsOrdered size_by_start graph (route_of 1 loop) (result 5_000_000) refl
      refl (inl refl) refl

abbrev evaluated : SizingResult Grid
evaluated = record {
  optimal_amount_wei = 138_079_643;
  optimal_amount_usd = num 138_079_643;
  expected_profit_usd = num 57_172_205;
  flash_provider = balancer;
}

evaluate_route-IsEvaluated_example :
    IsEvaluated Grid-IsOrdered Grid-IsRounded Grid-IsSigned bot config
      (num 1_000_000_000_000)
      (route_of 1 loop)
      evaluated
unfolding evaluate_route skua.Simulation.Sizing.optimal_borrow_size
    skua.Simulation.Sizing.stage1_upper_bound skua.Simulation.Sizing.probe_loop
    skua.Simulation.Profit.net_profit_three_leg skua.Simulation.Sizing.first_probe
    skua.Simulation.Amm.get_output skua.Core.Gas.gas_cost_usd skua.Core.State.hype_price_f64
    skua.Core.State.base_fee_wei skua.Simulation.Sizing.size_below
    skua.Simulation.Sizing.impact_gate skua.Simulation.Sizing.golden_section
evaluate_route-IsEvaluated_example =
    evaluate_route-IsEvaluated Grid-IsOrdered Grid-IsRounded Grid-IsSigned 40 [] (route_of 1 loop)
      bot config (num 1_000_000_000_000) (num 1_000_000) refl refl refl {r = evaluated} refl
