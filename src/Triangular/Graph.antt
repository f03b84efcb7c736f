-- ===== src/Triangular/Graph.antt =====
-- The graph of bot/crates/strategies/triangular/src/graph.rs: tokens, and the pools as edges. The hash
-- map from a token to its outbound edges is an association list in its order of iteration.
use skua.Prelude.{
  ℕ, ◌&&◌, Bool, Option, none, some, List, [], ◌∷◌, ◌++◌, ◌==◌, if◌then◌else◌, lookup,
}
use skua.Float.{Float, nought, one}
use skua.Core.Types.{PoolState}
use skua.World.{Hop}
use skua.Simulation.Amm.{AmmPool, get_output, get_output_stable}

pub record PoolEdge (F : Type 0) : Type 0 where
  pub pool : ℕ
  pub token_out : ℕ
  pub fee_bps : F
  pub reserve_in : F
  pub reserve_out : F
  pub amp : F
  pub is_stable : Bool

-- The hops of a route are `RouteHop`s, which have the fields of the `Hop` of the calldata.
pub record ArbRoute : Type 0 where
  pub start_token : ℕ
  pub start_token_decimals : ℕ
  pub hops : List Hop

abbrev pub ArbGraph : Type 0 → Type 0
ArbGraph F = List (ℕ × List (PoolEdge F))

module _ {F : Type 0} where
  -- `edges.entry(token).or_default().push(edge)`
  unfoldable pub push_edge : ℕ → PoolEdge F → ArbGraph F → ArbGraph F
  push_edge t e [] = (t, e ∷ []) ∷ []
  push_edge t e ((u, es) ∷ g) =
      if u == t then (u, es ++ (e ∷ [])) ∷ g else (u, es) ∷ push_edge t e g

  abbrev pub is_edge_of : Hop → PoolEdge F → Bool
  is_edge_of hop e = e.pool == hop.pool && e.token_out == hop.token_out

  -- `edges.iter().find(..)`
  unfoldable pub find_edge : Hop → List (PoolEdge F) → Option (PoolEdge F)
  find_edge hop [] = none
  find_edge hop (e ∷ es) = if is_edge_of hop e then some e else find_edge hop es

module _ {F : Type 0} ⦃fl : Float F⦄ where
  open fl use {dec, cast, ◌⊗◌, ◌⊘◌, lt, le}

  infixl 70 ◌⊗◌ ◌⊘◌
  unfoldable pub effective_rate_per_unit : PoolEdge F → F
  effective_rate_per_unit e =
      let pool : AmmPool F = record {
        reserve_in = e.reserve_in;
        reserve_out = e.reserve_out;
        fee_bps = e.fee_bps;
        amp = e.amp;
        n_tokens = 2;
      } in
      let unit = e.reserve_in ⊗ dec 1 4 in
      if le unit nought
      then nought
      else (if e.is_stable then get_output_stable pool unit else get_output pool unit) ⊘ unit

  unfoldable pub edge_a_to_b : ℕ → PoolState F → PoolEdge F
  edge_a_to_b pool_addr ps = record {
    pool = pool_addr;
    token_out = ps.token_b;
    fee_bps = cast ps.fee_bps;
    reserve_in = cast ps.reserve_a;
    reserve_out = cast ps.reserve_b;
    amp = ps.amp;
    is_stable = lt nought ps.amp;
  }

  unfoldable pub edge_b_to_a : ℕ → PoolState F → PoolEdge F
  edge_b_to_a pool_addr ps = record {
    pool = pool_addr;
    token_out = ps.token_a;
    fee_bps = cast ps.fee_bps;
    reserve_in = cast ps.reserve_b;
    reserve_out = cast ps.reserve_a;
    amp = ps.amp;
    is_stable = lt nought ps.amp;
  }

  -- Both directions of each pool, in the order of the pools.
  unfoldable pub build_from : ArbGraph F → List (ℕ × PoolState F) → ArbGraph F
  unfolding push_edge edge_a_to_b edge_b_to_a
  build_from g [] = g
  build_from g ((addr, ps) ∷ pools) =
      build_from
        (push_edge ps.token_b (edge_b_to_a addr ps) (push_edge ps.token_a (edge_a_to_b addr ps) g))
        pools

  unfoldable pub build : List (ℕ × PoolState F) → ArbGraph F
  unfolding build_from
  build = build_from []

  -- The loop of `rates_product`, with the product so far.
  unfoldable pub product_from : ArbGraph F → F → List Hop → F
  unfolding find_edge
  product_from g product [] = product
  product_from g product (hop ∷ hops) = elim (lookup hop.token_in g) [
    | none ↦ nought
    | some es ↦ elim (find_edge hop es) [
      | none ↦ nought
      | some e ↦
          let rest = product_from g (product ⊗ effective_rate_per_unit e) hops in
          if le (effective_rate_per_unit e) nought then nought else rest
    ]
  ]

  unfoldable pub rates_product : ArbGraph F → List Hop → F
  unfolding product_from
  rates_product g = product_from g one
