-- ===== src/Triangular/BellmanFord.antt =====
-- `bellman_ford_cycles` and `find_cycles` of bot/crates/strategies/triangular/src/graph.rs. `none` is a
-- panic: a token with no index, or a sort that compares a NaN.
use skua.Prelude.{
  ℕ, zero, suc, ◌+◌, ◌-◌, ◌&&◌, ◌||◌, Bool, false, not, Option, none, some, List, [], ◌∷◌, ◌++◌,
  ◌==◌, ltb, leb, if◌then◌else◌, length, get_elem?, set, replicate, map, flat_map,
}
use mathlib.Core.Option
use skua.Float.{Float, nought}
use skua.Triangular.Graph.{PoolEdge, ArbRoute, ArbGraph, effective_rate_per_unit, rates_product}
use skua.Triangular.Search.{dfs_recurse, dfs_cycles}

-- `idx`: the place of a token among the keys.
unfoldable pub index_of : ℕ → List ℕ → Option ℕ
index_of t [] = none
index_of t (u ∷ us) = if u == t then some 0 else Option.map (λ i. i + 1) (index_of t us)

abbrev pub tokens_of : {F : Type 0} → ArbGraph F → List ℕ
tokens_of g = map (λ entry. entry.0) g

-- The edges with the token that each leaves, in the order of the two loops.
unfoldable pub all_edges : {F : Type 0} → ArbGraph F → List (ℕ × PoolEdge F)
all_edges [] = []
all_edges ((t, es) ∷ g) = map (λ e. (t, e)) es ++ all_edges g

abbrev pub same_bucket : ArbRoute → ArbRoute → Bool
same_bucket a b = length a.hops == length b.hops && a.start_token == b.start_token

-- `dedup_by`, after the route kept last.
unfoldable pub dedup_after : ArbRoute → List ArbRoute → List ArbRoute
dedup_after kept [] = []
dedup_after kept (r ∷ rs) = if same_bucket r kept then dedup_after kept rs else r ∷ dedup_after r rs

unfoldable pub dedup : List ArbRoute → List ArbRoute
unfolding dedup_after
dedup [] = []
dedup (r ∷ rs) = r ∷ dedup_after r rs

module _ {F : Type 0} ⦃fl : Float F⦄ where
  open fl use {◌⊕◌, lt, le, ln, neg, infinity}

  abbrev pub dist_at : ℕ → List F → F
  dist_at i dist = elim (get_elem? dist i) [ none ↦ nought | some d ↦ d ]

  -- An edge with its ends' places: whether it improves the distance to its end, and the new distance.
  unfoldable pub improves : PoolEdge F → (u v : ℕ) → List F → Bool × F
  unfolding effective_rate_per_unit
  improves e u v dist =
      let rate = effective_rate_per_unit e in
      let through = ◌⊕◌ (dist_at u dist) (neg (ln rate)) in
      (not (le rate nought) && lt through (dist_at v dist), through)

  -- One relaxation of all edges.
  unfoldable pub relax : List ℕ → List (ℕ × PoolEdge F) → List F → Option (List F)
  unfolding index_of improves
  relax tokens [] dist = some dist
  relax tokens ((t, e) ∷ edges) dist = elim (index_of t tokens) [
    | none ↦ none
    | some u ↦ elim (index_of e.token_out tokens) [
      | none ↦ none
      | some v ↦
          let (better, through) = improves e u v dist in
          relax tokens edges (if better then set dist v through else dist)
    ]
  ]

  unfoldable pub relax_times : ℕ → List ℕ → List (ℕ × PoolEdge F) → List F → Option (List F)
  unfolding relax
  relax_times zero tokens edges dist = some dist
  relax_times (suc k) tokens edges dist = elim (relax tokens edges dist) [
    | none ↦ none
    | some next ↦ relax_times k tokens edges next
  ]

  -- The last pass: the tokens that an edge leaves which still improves a distance.
  unfoldable pub detect : List ℕ → List (ℕ × PoolEdge F) → List F → Option (List ℕ)
  unfolding index_of improves
  detect tokens [] dist = some []
  detect tokens ((t, e) ∷ edges) dist = elim (index_of t tokens) [
    | none ↦ none
    | some u ↦ elim (index_of e.token_out tokens) [
      | none ↦ none
      | some v ↦
          let more = (improves e u v dist).0 in
          Option.map (λ starts. if more then t ∷ starts else starts) (detect tokens edges dist)
    ]
  ]

  -- From one source: infinity everywhere but at the source.
  unfoldable pub starts_from : List ℕ → List (ℕ × PoolEdge F) → ℕ → Option (List ℕ)
  unfolding index_of relax_times detect
  starts_from tokens edges source =
      let n = length tokens in
      elim (index_of source tokens) [
        | none ↦ none
        | some i ↦ elim (relax_times (n - 1) tokens edges (set (replicate n infinity) i nought)) [
          | none ↦ none
          | some dist ↦ detect tokens edges dist
        ]
      ]

  -- The loop over the sources.
  unfoldable pub cycle_starts : List ℕ → List (ℕ × PoolEdge F) → List ℕ → Option (List ℕ)
  unfolding starts_from
  cycle_starts tokens edges [] = some []
  cycle_starts tokens edges (source ∷ sources) = elim (starts_from tokens edges source) [
    | none ↦ none
    | some here ↦ Option.map (λ rest. here ++ rest) (cycle_starts tokens edges sources)
  ]

  -- `sort_by`, which is stable: the highest product first.
  unfoldable pub insert_route : ArbGraph F → ArbRoute → List ArbRoute → List ArbRoute
  insert_route g r [] = r ∷ []
  insert_route g r (x ∷ xs) =
      if lt (rates_product g r.hops) (rates_product g x.hops)
      then x ∷ insert_route g r xs
      else r ∷ x ∷ xs

  unfoldable pub sort_routes : ArbGraph F → List ArbRoute → List ArbRoute
  unfolding insert_route
  sort_routes g [] = []
  sort_routes g (r ∷ rs) = insert_route g r (sort_routes g rs)

  unfoldable pub has_nan : ArbGraph F → List ArbRoute → Bool
  has_nan g [] = false
  has_nan g (r ∷ rs) = let p = rates_product g r.hops in not (le p p) || has_nan g rs

  -- A comparison with NaN panics, and a sort of two or more compares them all.
  unfoldable pub sort_by : ArbGraph F → List ArbRoute → Option (List ArbRoute)
  unfolding sort_routes has_nan
  sort_by g routes =
      if ltb 1 (length routes) && has_nan g routes then none else some (sort_routes g routes)

  unfoldable pub bellman_ford_cycles : ArbGraph F → Option (List ArbRoute)
  unfolding all_edges cycle_starts dfs_recurse sort_by dedup
  bellman_ford_cycles g =
      let tokens = tokens_of g in
      elim (cycle_starts tokens (all_edges g) tokens) [
        | none ↦ none
        | some starts ↦
            Option.map dedup
              (sort_by g (flat_map (λ start. dfs_recurse g 3 start start [] (start ∷ [])) starts))
      ]

  unfoldable pub find_cycles : ArbGraph F → Option (List ArbRoute)
  unfolding dfs_cycles bellman_ford_cycles
  find_cycles g = if leb (length g) 15 then some (dfs_cycles g 3) else bellman_ford_cycles g
