-- ===== src/Triangular/Sound.antt =====
-- What the routes found by `dfs_cycles` are (bot/crates/strategies/triangular/src/graph.rs).
use skua.Prelude.{
  ℕ, zero, suc, ◌+◌, ◌≤◌, ◌≡◌, refl, sym, ap, subst, ◌∙◌, true, false, not, ◌&&◌, inl, inr, List,
  [], ◌∷◌, ◌++◌, ◌==◌, leb, ltb, arith, lookup, contains, length, length-append, map, All,
  All-flat_map, All-imp, Bool-cases, Option-cases,
}
use skua.Float.{Float, one}
use skua.World.{Hop}
use skua.Triangular.Graph.{PoolEdge, ArbRoute, ArbGraph, rates_product}
use skua.Triangular.Search.{hop_by, route_of, visit, dfs_recurse, dfs_cycles}
use skua.Triangular.Chains.{
  ins, outs, Distinct, IsHop, Chain, Chain-snoc, ins-end, ins-snoc, outs-snoc, Distinct-snoc,
}

module _ {F : Type 0} ⦃fl : Float F⦄ where
  open fl use {lt}

  -- A cycle of three hops up to the depth given: a chain of edges of the graph from the start token back
  -- to it, through distinct tokens, whose rates multiply to more than 1.
  pub record IsCycle (g : ArbGraph F) (depth origin : ℕ) (r : ArbRoute) : Type 0 where
    pub starts : r.start_token ≡ origin
    pub closed : Chain g origin r.hops origin
    pub distinct : Distinct (ins r.hops)
    pub at_least : 3 ≤ length r.hops
    pub at_most : length r.hops ≤ depth
    pub profitable : lt one (rates_product g r.hops) ≡ true

  module _ (g : ArbGraph F) (depth origin : ℕ) where
    -- What holds of the path and the visited tokens at each call.
    record IsPath (remaining current : ℕ) (path : List Hop) (visited : List ℕ) : Type 0 where
      chain : Chain g origin path current
      seen : visited ≡ origin ∷ outs path
      apart : Distinct visited
      used : length path + remaining ≡ depth

    extended :
        (r current : ℕ) (path : List Hop) (visited : List ℕ) (e : PoolEdge F)
        → IsPath (suc r) current path visited
        → Chain g origin (path ++ (hop_by e current ∷ [])) e.token_out
        → contains visited e.token_out ≡ false
        → IsPath r e.token_out (path ++ (hop_by e current ∷ [])) (visited ++ (e.token_out ∷ []))
    extended r current path visited e v c fresh = record {
      chain = c;
      seen =
          ap (λ (l : List ℕ). l ++ (e.token_out ∷ [])) v.seen
          ∙ ap (λ (l : List ℕ). origin ∷ l) (sym (outs-snoc path (hop_by e current)));
      apart = Distinct-snoc visited e.token_out v.apart fresh;
      used = omega (arith, length-append path (hop_by e current ∷ []), v.used);
    }

    found :
        {r : ℕ} (current : ℕ) (path : List Hop) (visited : List ℕ) (e : PoolEdge F)
        → IsPath (suc r) current path visited
        → Chain g origin (path ++ (hop_by e current ∷ [])) e.token_out
        → e.token_out ≡ origin
        → 2 ≤ length path
        → lt one (rates_product g (path ++ (hop_by e current ∷ []))) ≡ true
        → IsCycle g depth origin (route_of origin (path ++ (hop_by e current ∷ [])))
    found current path visited e v c back long pays =
        let h = hop_by e current in
        let tokens : ins (path ++ (h ∷ [])) ≡ visited =
          ins-snoc path h ∙ ins-end g origin path current v.chain ∙ sym v.seen in
        record {
          starts = refl;
          closed = subst (Chain g origin (path ++ (h ∷ []))) back c;
          distinct = subst Distinct (sym tokens) v.apart;
          at_least = omega (arith, length-append path (h ∷ []));
          at_most = omega (arith, length-append path (h ∷ []), v.used);
          profitable = pays;
        }

    visit-All :
        (r current : ℕ) (path : List Hop) (visited : List ℕ)
        (recurse : ℕ → List Hop → List ℕ → List ArbRoute) (e : PoolEdge F)
        → IsPath (suc r) current path visited
        → IsHop g (hop_by e current)
        → ((next : ℕ) (hops : List Hop) (seen : List ℕ)
            → IsPath r next hops seen
            → All (IsCycle g depth origin) (recurse next hops seen))
        → All (IsCycle g depth origin) (visit g origin current path visited (suc r) recurse e)
    unfolding visit
    visit-All r current path visited recurse e v hop rec =
        let h = hop_by e current in
        let hops = path ++ (h ∷ []) in
        let c = Chain-snoc g origin path h v.chain hop in
        elim (Bool-cases ((e.token_out == origin) && leb 2 (length path))) [
          | inl back ↦ rw back (elim (Bool-cases (lt one (rates_product g hops))) [
            | inl pays ↦
                rw pays (found current path visited e v c (ground arith) (ground arith) pays, tt)
            | inr dear ↦ rw dear tt
          ])
          | inr on ↦
              rw on (elim (Bool-cases (not (contains visited e.token_out) && ltb 1 (suc r))) [
                | inl fresh ↦ rw fresh (
                    rec e.token_out hops (visited ++ (e.token_out ∷ []))
                      (extended r current path visited e v c (ground arith)))
                | inr stale ↦ rw stale tt
              ])
        ]

    dfs_recurse-All :
        (r current : ℕ) (path : List Hop) (visited : List ℕ)
        → IsPath r current path visited
        → All (IsCycle g depth origin) (dfs_recurse g r origin current path visited)
    unfolding dfs_recurse
    dfs_recurse-All zero current path visited v = tt
    dfs_recurse-All (suc r) current path visited v = elim (Option-cases (lookup current g)) [
      | inl dead ↦ rw (dead, dfs_recurse) tt
      | inr (es, out) ↦
          rw (out, dfs_recurse)
            (All-flat_map (IsCycle g depth origin)
              (visit g origin current path visited (suc r) (dfs_recurse g r origin)) es
              (λ e m.
                visit-All r current path visited (dfs_recurse g r origin) e v (es, e, out, m, refl)
                  (dfs_recurse-All r)))
    ]

  pub dfs_from-All :
      (g : ArbGraph F) (depth origin : ℕ)
      → All (IsCycle g depth origin) (dfs_recurse g depth origin origin [] (origin ∷ []))
  dfs_from-All g depth origin =
      dfs_recurse-All g depth origin depth origin [] (origin ∷ [])
        (record { chain = refl; seen = refl; apart = (refl, tt); used = omega arith })

  -- Every route that the depth-first search reports is a profitable cycle: it starts at a token of the
  -- graph and comes back to it by edges of the graph, through distinct tokens, in at least three hops
  -- and at most the depth, and its rates multiply to more than 1.
  pub dfs_cycles-All :
      (g : ArbGraph F) (depth : ℕ)
      → All (λ (r : ArbRoute). IsCycle g depth r.start_token r) (dfs_cycles g depth)
  unfolding dfs_cycles
  dfs_cycles-All g depth =
      All-flat_map (λ (r : ArbRoute). IsCycle g depth r.start_token r)
        (λ start. dfs_recurse g depth start start [] (start ∷ [])) (map (λ entry. entry.0) g)
        (λ start _.
          All-imp (IsCycle g depth start) (λ (r : ArbRoute). IsCycle g depth r.start_token r)
            (dfs_recurse g depth start start [] (start ∷ []))
            (λ r v. subst (λ o. IsCycle g depth o r) (sym v.starts) v) (dfs_from-All g depth start))
