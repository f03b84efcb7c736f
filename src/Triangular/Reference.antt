-- ===== src/Triangular/Reference.antt =====
-- The depth-first search against a description of what it looks for, and as the reference of
-- `find_cycles` (bot/crates/strategies/triangular/src/graph.rs).
use skua.Prelude.{
  ℕ, zero, suc, ◌≡◌, refl, sym, subst, ◌↔◌, List, [], ◌∷◌, ◌++◌, ◌==◌, ◌&&◌, not, inl, inr, All,
  All-flat_map, In, map, leb, ltb, contains, length, Option-cases, if_keep, lookup,
}
use skua.Float.{Float, one}
use skua.World.{Hop}
use skua.Triangular.Graph.{PoolEdge, ArbRoute, ArbGraph, rates_product}
use skua.Triangular.Search.{hop_by, route_of, visit, dfs_recurse, dfs_cycles}
use skua.Triangular.Sound.{IsCycle, dfs_from-All}
use skua.Triangular.Complete.{dfs_cycles-In}
use skua.Triangular.Found.{All-of}
use skua.Triangular.Best.{All-In}

-- A route as the search makes it: six decimals for every start token.
abbrev IsMade : ArbRoute → Type 0
IsMade r = r ≡ route_of r.start_token r.hops

module _ {F : Type 0} ⦃fl : Float F⦄ where
  open fl use {lt}

  visit-IsMade :
      (g : ArbGraph F) (r origin current : ℕ) (path : List Hop) (visited : List ℕ)
      (recurse : ℕ → List Hop → List ℕ → List ArbRoute) (e : PoolEdge F)
      → ((next : ℕ) (hops : List Hop) (seen : List ℕ) → All IsMade (recurse next hops seen))
      → All IsMade (visit g origin current path visited (suc r) recurse e)
  unfolding visit
  visit-IsMade g r origin current path visited recurse e h =
      let hops = path ++ (hop_by e current ∷ []) in
      let keep = if_keep (All IsMade) in
      keep ((e.token_out == origin) && leb 2 (length path)) _ _
        (keep (lt one (rates_product g hops)) _ _ (refl, tt) tt)
        (keep (not (contains visited e.token_out) && ltb 1 (suc r)) _ _
          (h e.token_out hops (visited ++ (e.token_out ∷ []))) tt)

  dfs_recurse-IsMade :
      (g : ArbGraph F) (r origin current : ℕ) (path : List Hop) (visited : List ℕ)
      → All IsMade (dfs_recurse g r origin current path visited)
  unfolding dfs_recurse visit
  dfs_recurse-IsMade g zero origin current path visited = tt
  dfs_recurse-IsMade g (suc r) origin current path visited =
      elim (Option-cases (lookup current g)) [
        | inl dead ↦ rw (dead, dfs_recurse) tt
        | inr (es, out) ↦
            rw (out, dfs_recurse)
              (All-flat_map IsMade
                (visit g origin current path visited (suc r) (dfs_recurse g r origin)) es
                (λ e _.
                  visit-IsMade g r origin current path visited (dfs_recurse g r origin) e
                    (dfs_recurse-IsMade g r origin)))
      ]

  -- What the search looks for.
  pub record IsReported (g : ArbGraph F) (depth : ℕ) (r : ArbRoute) : Type 0 where
    pub cycle : IsCycle g depth r.start_token r
    pub made : r ≡ route_of r.start_token r.hops

  IsReported-In :
      (g : ArbGraph F) (depth : ℕ) (r : ArbRoute) → IsReported g depth r → In r (dfs_cycles g depth)
  IsReported-In g depth r v =
      let c = v.cycle in
      subst (λ x. In x (dfs_cycles g depth)) (sym v.made)
        (dfs_cycles-In g depth r.start_token r.hops c.closed c.distinct c.at_least c.at_most
          c.profitable)

  from_token-IsReported :
      (g : ArbGraph F) (depth start : ℕ)
      → All (IsReported g depth) (dfs_recurse g depth start start [] (start ∷ []))
  from_token-IsReported g depth start =
      let routes = dfs_recurse g depth start start [] (start ∷ []) in
      All-of (IsReported g depth) routes (λ r m.
        let c = All-In (IsCycle g depth start) routes (dfs_from-All g depth start) r m in
        record {
          cycle = subst (λ o. IsCycle g depth o r) (sym c.starts) c;
          made = All-In IsMade routes (dfs_recurse-IsMade g depth start start [] (start ∷ [])) r m;
        })

  -- The depth-first search reports a route exactly if it is made of a simple cycle of the graph in at
  -- least three hops and at most the depth, whose rates multiply to more than 1, with six decimals
  -- given for its start token.
  pub dfs_cycles-In_iff :
      (g : ArbGraph F) (depth : ℕ) (r : ArbRoute) → In r (dfs_cycles g depth) ↔ IsReported g depth r
  unfolding dfs_cycles
  dfs_cycles-In_iff g depth r = (
    All-In (IsReported g depth) (dfs_cycles g depth)
        (All-flat_map (IsReported g depth)
          (λ start. dfs_recurse g depth start start [] (start ∷ [])) (map (λ entry. entry.0) g)
          (λ start _. from_token-IsReported g depth start))
        r,
    IsReported-In g depth r,
  )
