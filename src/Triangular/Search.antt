-- ===== src/Triangular/Search.antt =====
-- `dfs_cycles` and `dfs_recurse` of bot/crates/strategies/triangular/src/graph.rs. The path and the
-- visited tokens are passed on where the code pushes and pops, and the routes that a call pushes to
-- `out` are its result, in order.
use skua.Prelude.{
  ℕ, zero, suc, ◌&&◌, not, none, some, List, [], ◌∷◌, ◌++◌, ◌==◌, leb, ltb, if◌then◌else◌, lookup,
  contains, length, map, flat_map,
}
use skua.Float.{Float, one}
use skua.World.{Hop}
use skua.Triangular.Graph.{PoolEdge, ArbRoute, ArbGraph, rates_product}

abbrev pub hop_by : {F : Type 0} → PoolEdge F → ℕ → Hop
hop_by e current = record { pool = e.pool; token_in = current; token_out = e.token_out }

abbrev pub route_of : ℕ → List Hop → ArbRoute
route_of origin hops = record { start_token = origin; start_token_decimals = 6; hops = hops }

module _ {F : Type 0} ⦃fl : Float F⦄ where
  open fl use {lt}

  -- One round of the loop over the outbound edges; `recurse` is the recursive call.
  unfoldable pub visit :
      ArbGraph F
      → (origin current : ℕ) → List Hop
      → List ℕ
      → (remaining : ℕ) → (ℕ → List Hop → List ℕ → List ArbRoute)
      → PoolEdge F
      → List ArbRoute
  visit g origin current path visited remaining recurse edge =
      let next = edge.token_out in
      let hops = path ++ (hop_by edge current ∷ []) in
      if next == origin && leb 2 (length path)
      then (if lt one (rates_product g hops) then route_of origin hops ∷ [] else [])
      else if not (contains visited next) && ltb 1 remaining
      then recurse next hops (visited ++ (next ∷ []))
      else []

  unfoldable pub dfs_recurse :
      ArbGraph F → (remaining origin current : ℕ) → List Hop → List ℕ → List ArbRoute
  dfs_recurse g zero origin current path visited = []
  dfs_recurse g (suc r) origin current path visited = elim (lookup current g) [
    | none ↦ []
    | some outbound ↦
        flat_map (visit g origin current path visited (suc r) (dfs_recurse g r origin)) outbound
  ]

  unfoldable pub dfs_cycles : ArbGraph F → ℕ → List ArbRoute
  dfs_cycles g max_depth =
      flat_map (λ start. dfs_recurse g max_depth start start [] (start ∷ []))
        (map (λ entry. entry.0) g)
