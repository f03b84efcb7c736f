-- ===== src/Triangular/Found.antt =====
-- What `find_cycles` returns, on both of its ways (bot/crates/strategies/triangular/src/graph.rs).
use skua.Prelude.{
  ℕ, zero, suc, ◌-◌, ◌&&◌, ◌≡◌, refl, sym, subst, false, some, List, [], ◌∷◌, ◌++◌, inl, inr, arith,
  All, All-imp, All-flat_map, In, length, set, replicate, flat_map, leb, ltb, Bool-cases,
  Option-cases, if◌then◌else◌, if_keep,
}
use mathlib.Core.Option.{some-injective}
use skua.Float.{Float, nought, one}
use skua.Float.Laws.{IsOrdered}
use skua.Core.Types.{PoolState}
use skua.Triangular.Graph.{PoolEdge, ArbRoute, ArbGraph, rates_product, build}
use skua.Triangular.Search.{dfs_recurse, dfs_cycles}
use skua.Triangular.Sound.{IsCycle, dfs_from-All, dfs_cycles-All}
use skua.Triangular.BellmanFord.{
  tokens_of, all_edges, improves, relax, relax_times, detect, starts_from, cycle_starts,
  insert_route, sort_routes, has_nan, sort_by, same_bucket, dedup_after, dedup, bellman_ford_cycles,
  find_cycles,
}
use skua.Triangular.Keys.{index_of-In, all_edges-All, build-Closed}

module _ (P : ArbRoute → Type 0) where
  dedup_after-All : (kept : ArbRoute) (rs : List ArbRoute) → All P rs → All P (dedup_after kept rs)
  unfolding dedup_after
  dedup_after-All kept [] v = tt
  dedup_after-All kept (r ∷ rs) (p, v) =
      if_keep (All P) (same_bucket r kept) _ _ (dedup_after-All kept rs v)
        (p, dedup_after-All r rs v)

  dedup-All : (rs : List ArbRoute) → All P rs → All P (dedup rs)
  unfolding dedup
  dedup-All [] v = tt
  dedup-All (r ∷ rs) (p, v) = (p, dedup_after-All r rs v)

  module _ {F : Type 0} ⦃fl : Float F⦄ (g : ArbGraph F) where
    insert_route-All :
        (r : ArbRoute) (rs : List ArbRoute) → P r → All P rs → All P (insert_route g r rs)
    unfolding insert_route
    insert_route-All r [] p v = (p, tt)
    insert_route-All r (x ∷ xs) p (q, v) =
        if_keep (All P) (fl.lt (rates_product g r.hops) (rates_product g x.hops)) _ _
          (q, insert_route-All r xs p v) (p, (q, v))

    sort_routes-All : (rs : List ArbRoute) → All P rs → All P (sort_routes g rs)
    unfolding sort_routes
    sort_routes-All [] v = tt
    sort_routes-All (r ∷ rs) (p, v) = insert_route-All r (sort_routes g rs) p (sort_routes-All rs v)

    sort_by-All : (rs sorted : List ArbRoute) → sort_by g rs ≡ some sorted → All P rs → All P sorted
    unfolding sort_by
    sort_by-All rs sorted e v = elim (Bool-cases (ltb 1 (length rs) && has_nan g rs)) [
      | inl bad ↦ absurd (ground arith)
      | inr good ↦
          subst (All P) (some-injective _ _ (rw (good, sort_by) at e)) (sort_routes-All rs v)
    ]

pub All-of : {A : Type 0} (P : A → Type 0) (xs : List A) → ((x : A) → In x xs → P x) → All P xs
All-of P [] h = tt
All-of P (x ∷ xs) h = (h x (inl refl), All-of P xs (λ y m. h y (inr m)))

module _ {F : Type 0} ⦃fl : Float F⦄ where
  open fl use {lt, le}

  abbrev IsRoute : ArbGraph F → ArbRoute → Type 0
  IsRoute g r = IsCycle g 3 r.start_token r

  abbrev pub found_from : ArbGraph F → List ℕ → List ArbRoute
  found_from g = flat_map (λ start. dfs_recurse g 3 start start [] (start ∷ []))

  found_from-All : (g : ArbGraph F) (starts : List ℕ) → All (IsRoute g) (found_from g starts)
  found_from-All g starts =
      All-flat_map (IsRoute g) (λ start. dfs_recurse g 3 start start [] (start ∷ [])) starts
        (λ start _.
          All-imp (IsCycle g 3 start) (IsRoute g) (dfs_recurse g 3 start start [] (start ∷ []))
            (λ r v. subst (λ o. IsCycle g 3 o r) (sym v.starts) v) (dfs_from-All g 3 start))

  -- What holds of all that the search from any tokens finds holds of the routes returned.
  bellman_ford_cycles-All :
      (P : ArbRoute → Type 0) (g : ArbGraph F) (routes : List ArbRoute)
      → ((starts : List ℕ) → All P (found_from g starts))
      → bellman_ford_cycles g ≡ some routes
      → All P routes
  unfolding bellman_ford_cycles
  bellman_ford_cycles-All P g routes h e =
      elim (Option-cases (cycle_starts (tokens_of g) (all_edges g) (tokens_of g))) [
        | inl bad ↦ absurd (ground arith)
        | inr (starts, found) ↦ elim (Option-cases (sort_by g (found_from g starts))) [
          | inl bad ↦ absurd (ground arith)
          | inr (sorted, done) ↦
              let same : dedup sorted ≡ routes =
                some-injective _ _ (rw (found, done, bellman_ford_cycles) at e) in
              subst (All P) same
                (dedup-All P sorted (sort_by-All P g (found_from g starts) sorted done (h starts)))
        ]
      ]

  -- The same of `find_cycles`, on both of its ways.
  pub find_cycles_keep :
      (P : ArbRoute → Type 0) (g : ArbGraph F) (routes : List ArbRoute)
      → All P (dfs_cycles g 3)
      → ((starts : List ℕ) → All P (found_from g starts))
      → find_cycles g ≡ some routes
      → All P routes
  unfolding find_cycles
  find_cycles_keep P g routes small large e = elim (Bool-cases (leb (length g) 15)) [
    | inl few ↦ subst (All P) (some-injective _ _ (rw (few, find_cycles) at e)) small
    | inr many ↦ bellman_ford_cycles-All P g routes large (rw (many, find_cycles) at e)
  ]

  -- On either of its ways, every route that `find_cycles` returns is a profitable cycle of exactly three
  -- hops: from a token back to it by edges of the graph, through distinct tokens, with rates that
  -- multiply to more than 1.
  pub find_cycles-All :
      (g : ArbGraph F) (routes : List ArbRoute)
      → find_cycles g ≡ some routes
      → All (λ (r : ArbRoute). IsCycle g 3 r.start_token r × (length r.hops ≡ 3)) routes
  find_cycles-All g routes e =
      All-imp (IsRoute g) _ routes
        (λ r v. (v, let low = v.at_least in let high = v.at_most in omega (arith, low, high)))
        (find_cycles_keep (IsRoute g) g routes (dfs_cycles-All g 3) (found_from-All g) e)

  module _ (ord : IsOrdered F) where
    has_nan-false :
        (g : ArbGraph F) (routes : List ArbRoute)
        → All (IsRoute g) routes
        → has_nan g routes ≡ false
    unfolding has_nan
    has_nan-false g [] v = refl
    has_nan-false g (r ∷ rs) (v, vs) =
        let p = rates_product g r.hops in
        rw (ord.le-refl_right one p (ord.lt-le one p v.profitable)) (has_nan-false g rs vs)

    sort_by-some :
        (g : ArbGraph F) (routes : List ArbRoute)
        → All (IsRoute g) routes
        → sort_by g routes ≡ some (sort_routes g routes)
    unfolding sort_by
    sort_by-some g routes v =
        let ordered : (ltb 1 (length routes) && has_nan g routes) ≡ false =
          elim (Bool-cases (ltb 1 (length routes))) [
            | inl several ↦ rw several (has_nan-false g routes v)
            | inr few ↦ rw few refl
          ] in
        rw ordered refl

  abbrev IsPlaced : List ℕ → ℕ × PoolEdge F → Type 0
  IsPlaced ks te = In te.0 ks × In te.1.token_out ks

  relax-some :
      (ks : List ℕ) (edges : List (ℕ × PoolEdge F)) (dist : List F)
      → All (IsPlaced ks) edges
      → (next : List F) × (relax ks edges dist ≡ some next)
  unfolding relax
  relax-some ks [] dist v = (dist, refl)
  relax-some ks ((t, e) ∷ edges) dist ((from, to), v) =
      let (i, at) = index_of-In t ks from in
      let (j, end) = index_of-In e.token_out ks to in
      let (better, through) = improves e i j dist in
      let (next, done) = relax-some ks edges (if better then set dist j through else dist) v in
      (next, rw (at, end, relax) done)

  relax_times-some :
      (k : ℕ) (ks : List ℕ) (edges : List (ℕ × PoolEdge F)) (dist : List F)
      → All (IsPlaced ks) edges
      → (next : List F) × (relax_times k ks edges dist ≡ some next)
  unfolding relax_times
  relax_times-some zero ks edges dist v = (dist, refl)
  relax_times-some (suc k) ks edges dist v =
      let (one_on, first) = relax-some ks edges dist v in
      let (next, rest) = relax_times-some k ks edges one_on v in
      (next, rw (first, relax_times) rest)

  detect-some :
      (ks : List ℕ) (edges : List (ℕ × PoolEdge F)) (dist : List F)
      → All (IsPlaced ks) edges
      → (starts : List ℕ) × (detect ks edges dist ≡ some starts)
  unfolding detect
  detect-some ks [] dist v = ([], refl)
  detect-some ks ((t, e) ∷ edges) dist ((from, to), v) =
      let (i, at) = index_of-In t ks from in
      let (j, end) = index_of-In e.token_out ks to in
      let (rest, done) = detect-some ks edges dist v in
      (if (improves e i j dist).0 then t ∷ rest else rest, rw (at, end, detect) (rw done refl))

  cycle_starts-some :
      (ks : List ℕ) (edges : List (ℕ × PoolEdge F)) (sources : List ℕ)
      → All (IsPlaced ks) edges
      → All (λ (s : ℕ). In s ks) sources
      → (starts : List ℕ) × (cycle_starts ks edges sources ≡ some starts)
  unfolding cycle_starts starts_from
  cycle_starts-some ks edges [] v m = ([], refl)
  cycle_starts-some ks edges (s ∷ ss) v (m, ms) =
      let (i, at) = index_of-In s ks m in
      let (dist, relaxed) =
        relax_times-some (length ks - 1) ks edges (set (replicate (length ks) fl.infinity) i nought)
          v in
      let (here, seen) = detect-some ks edges dist v in
      let (rest, done) = cycle_starts-some ks edges ss v ms in
      (here ++ rest, rw (at, relaxed, seen, done, cycle_starts) refl)

  -- On a graph built from pools, `find_cycles` does not panic: every token of an edge has an index, and
  -- no product that is compared is NaN.
  pub find_cycles_total :
      (ord : IsOrdered F) (pools : List (ℕ × PoolState F))
      → (routes : List ArbRoute) × (find_cycles (build pools) ≡ some routes)
  unfolding find_cycles bellman_ford_cycles
  find_cycles_total ord pools =
      let g = build pools in
      let ks = tokens_of g in
      let (starts, found) =
        cycle_starts-some ks (all_edges g) ks (all_edges-All ks g (build-Closed pools))
          (All-of (λ (s : ℕ). In s ks) ks (λ x m. m)) in
      let sorted = sort_by-some ord g (found_from g starts) (found_from-All g starts) in
      elim (Bool-cases (leb (length g) 15)) [
        | inl small ↦ (dfs_cycles g 3, rw (small, find_cycles) refl)
        | inr large ↦ (
          dedup (sort_routes g (found_from g starts)),
          rw (large, find_cycles) (rw (found, sorted, bellman_ford_cycles) refl),
        )
      ]
