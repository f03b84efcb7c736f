-- ===== src/Triangular/Evaluate.antt =====
-- `evaluate_route` of bot/crates/strategies/triangular/src/graph.rs. It reads a vector `pools` that nothing
-- in it declares, so that the crate does not compile; here `pools` is an argument.
use skua.Prelude.{ℕ, Option, none, some, List, [], ◌∷◌, ◌==◌, if◌then◌else◌, lookup, get_elem?}
use skua.Float.{Float, nought}
use skua.Core.Config.{SkuaConfig}
use skua.Core.State.{BotState, base_fee_wei, hype_price_f64}
use skua.Core.Gas.{s3_tri_arb_3hop_gas_estimate}
use skua.Core.Types.{PoolState, SizingResult, balancer}
use skua.Simulation.Amm.{AmmPool}
use skua.Simulation.Profit.{net_profit_three_leg}
use skua.Simulation.Sizing.{optimal_borrow_size}
use skua.World.{Hop}
use skua.Triangular.Graph.{ArbRoute}

-- `hops[0]`, `hops[1]` and `hops[2]` of exactly three.
abbrev pub three : List Hop → Option (Hop × Hop × Hop)
three (a ∷ b ∷ c ∷ []) = some (a, b, c)
three _ = none

module _ {F : Type 0} ⦃fl : Float F⦄ where
  open fl use {cast, dec, ◌⊘◌}

  infixl 70 ◌⊘◌
  -- The pool of a hop, with the token that goes in first.
  unfoldable pub make_amm : List (ℕ × PoolState F) → Hop → Option (AmmPool F)
  make_amm pool_states hop = elim (lookup hop.pool pool_states) [
    | none ↦ none
    | some ps ↦ some (record {
      reserve_in = cast (if ps.token_a == hop.token_in then ps.reserve_a else ps.reserve_b);
      reserve_out = cast (if ps.token_a == hop.token_in then ps.reserve_b else ps.reserve_a);
      fee_bps = cast ps.fee_bps;
      amp = ps.amp;
      n_tokens = 2;
    })
  ]

  -- `pools.get(i).map(f).unwrap_or(default)`
  abbrev pub field_or : List (AmmPool F) → ℕ → (AmmPool F → F) → F → F
  field_or pools i f default = elim (get_elem? pools i) [ none ↦ default | some p ↦ f p ]

  abbrev pub route_profit : BotState F → (p_ab p_bc p_ca : AmmPool F) → F → F
  route_profit state p_ab p_bc p_ca x =
      net_profit_three_leg p_ab p_bc p_ca x (cast state.balancer_fee_bps)
        s3_tri_arb_3hop_gas_estimate (base_fee_wei state) (hype_price_f64 state)

  -- The size of the trade through three pools.
  unfoldable pub route_sizing :
      ℕ
      → (pools : List (AmmPool F)) → ArbRoute
      → BotState F
      → SkuaConfig F
      → (flash_available_usd token_price_usd : F) → (p_ab p_bc p_ca : AmmPool F)
      → Option (Option (SizingResult F))
  route_sizing fuel pools route state config flash_available_usd token_price_usd p_ab p_bc p_ca =
      optimal_borrow_size fuel (route_profit state p_ab p_bc p_ca) flash_available_usd
        config.hard_cap_usd token_price_usd route.start_token_decimals balancer
        (field_or pools 0 (λ p. p.reserve_in ⊘ dec 1_000_000 0) (dec 1_000_000 0))
        (field_or pools 0 (λ p. p.reserve_out ⊘ dec 1_000_000 0) (dec 1_000_000 0))
        (field_or pools 0 (λ p. p.amp) nought) (field_or pools 2 (λ p. p.amp) nought)

  -- The outer `none` is fuel that has run out in the sizing.
  unfoldable pub evaluate_route :
      ℕ
      → (pools : List (AmmPool F)) → ArbRoute
      → BotState F
      → SkuaConfig F
      → (flash_available_usd token_price_usd : F) → Option (Option (SizingResult F))
  unfolding make_amm route_sizing
  evaluate_route fuel pools route state config flash_available_usd token_price_usd =
      elim (three route.hops) [
        | none ↦ some none
        | some (a, b, c) ↦ elim (make_amm state.pool_states a) [
          | none ↦ some none
          | some p_ab ↦ elim (make_amm state.pool_states b) [
            | none ↦ some none
            | some p_bc ↦ elim (make_amm state.pool_states c) [
              | none ↦ some none
              | some p_ca ↦
                  route_sizing fuel pools route state config flash_available_usd token_price_usd
                    p_ab p_bc p_ca
            ]
          ]
        ]
      ]
