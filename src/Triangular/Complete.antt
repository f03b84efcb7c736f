-- ===== src/Triangular/Complete.antt =====
-- The depth-first search misses no cycle (bot/crates/strategies/triangular/src/graph.rs).
use skua.Prelude.{
  ℕ, zero, suc, ◌+◌, ◌≤◌, ◌<◌, ◌≡◌, ◌≢◌, refl, sym, ap, subst, ◌∙◌, true, false, not, ◌&&◌, some,
  inl, inr, List, [], ◌∷◌, ◌++◌, ◌==◌, leb, ltb, arith, lookup, contains, length, length-append,
  map, All, In, In-flat_map, Bool-cases,
}
use mathlib.Core.List.{append_assoc}
use skua.Float.{Float, one}
use skua.World.{Hop}
use skua.Triangular.Graph.{PoolEdge, ArbRoute, ArbGraph, rates_product}
use skua.Triangular.Search.{hop_by, route_of, visit, dfs_recurse, dfs_cycles}
use skua.Triangular.Chains.{ins, Distinct, Chain, contains-snoc}

-- The rest of a cycle, seen from a call: its tokens before the last are none of those visited, nor one
-- another.
abbrev pub IsFresh : List ℕ → List Hop → Type 0
IsFresh seen [] = ⊥
IsFresh seen (h ∷ []) = Unit
IsFresh seen (h ∷ k ∷ hs) =
    (contains seen h.token_out ≡ false) × IsFresh (seen ++ (h.token_out ∷ [])) (k ∷ hs)

module _ {F : Type 0} ⦃fl : Float F⦄ where
  open fl use {lt}

  visit-last :
      (g : ArbGraph F) (r origin current : ℕ) (path : List Hop) (visited : List ℕ)
      (recurse : ℕ → List Hop → List ℕ → List ArbRoute) (e : PoolEdge F)
      → e.token_out ≡ origin
      → 2 ≤ length path
      → lt one (rates_product g (path ++ (hop_by e current ∷ []))) ≡ true
      → In
          (route_of origin (path ++ (hop_by e current ∷ [])))
          (visit g origin current path visited r recurse e)
  unfolding visit
  visit-last g r origin current path visited recurse e back long pays =
      let test : ((e.token_out == origin) && leb 2 (length path)) ≡ true = ground arith in
      rw test (rw pays (inl refl))

  visit-on :
      (g : ArbGraph F) (r origin current : ℕ) (path : List Hop) (visited : List ℕ)
      (recurse : ℕ → List Hop → List ℕ → List ArbRoute) (e : PoolEdge F) (route : ArbRoute)
      → e.token_out ≢ origin
      → contains visited e.token_out ≡ false
      → 1 < r
      → In route
          (recurse e.token_out (path ++ (hop_by e current ∷ [])) (visited ++ (e.token_out ∷ [])))
      → In route (visit g origin current path visited r recurse e)
  unfolding visit
  visit-on g r origin current path visited recurse e route away fresh more m =
      let test : ((e.token_out == origin) && leb 2 (length path)) ≡ false = ground arith in
      let next : (not (contains visited e.token_out) && ltb 1 r) ≡ true = ground arith in
      rw test (rw next m)

  dfs_recurse-In :
      (g : ArbGraph F) (r origin current : ℕ) (path : List Hop) (visited : List ℕ) (hs : List Hop)
      → contains visited origin ≡ true
      → Chain g current hs origin
      → IsFresh visited hs
      → length hs ≤ r
      → 3 ≤ length path + length hs
      → lt one (rates_product g (path ++ hs)) ≡ true
      → In (route_of origin (path ++ hs)) (dfs_recurse g r origin current path visited)
  unfolding dfs_recurse
  dfs_recurse-In g zero origin current path visited [] seen c f le long pays = absurd f
  dfs_recurse-In g zero origin current path visited (h ∷ hs) seen c f le long pays =
      absurd (omega arith)
  dfs_recurse-In g (suc r) origin current path visited [] seen c f le long pays = absurd f
  dfs_recurse-In g (suc r) origin current path visited (h ∷ []) seen
        (from, (es, e, out, m, same), back) f le long pays =
      let step : h ≡ hop_by e current = same ∙ ap (hop_by e) from in
      let found = subst (λ t. lookup t g ≡ some es) from out in
      let home : e.token_out ≡ origin = ap (λ (k : Hop). k.token_out) (sym step) ∙ back in
      let gain = subst (λ k. lt one (rates_product g (path ++ (k ∷ []))) ≡ true) step pays in
      let rec = dfs_recurse g r origin in
      subst
        (λ k.
          In (route_of origin (path ++ (k ∷ [])))
            (dfs_recurse g (suc r) origin current path visited))
        (sym step)
        (rw (found, dfs_recurse)
          (In-flat_map (visit g origin current path visited (suc r) rec) es e _ m
            (visit-last g (suc r) origin current path visited rec e home (omega arith) gain)))
  dfs_recurse-In g (suc r) origin current path visited (h ∷ k ∷ hs) seen
        (from, (es, e, out, m, same), c) (fresh, f) le long pays =
      let step : h ≡ hop_by e current = same ∙ ap (hop_by e) from in
      let found = subst (λ t. lookup t g ≡ some es) from out in
      let next : h.token_out ≡ e.token_out = ap (λ (k : Hop). k.token_out) step in
      let rec = dfs_recurse g r origin in
      let whole : (path ++ (h ∷ [])) ++ (k ∷ hs) ≡ path ++ (h ∷ k ∷ hs) =
        append_assoc path (h ∷ []) (k ∷ hs) in
      let inner =
        dfs_recurse-In g r origin h.token_out (path ++ (h ∷ [])) (visited ++ (h.token_out ∷ []))
          (k ∷ hs) (ground (arith, contains-snoc visited h.token_out origin)) c f (omega arith)
          (omega (arith, length-append path (h ∷ [])))
          (subst (λ (l : List Hop). lt one (rates_product g l) ≡ true) (sym whole) pays) in
      let deeper =
        subst
          (λ (q : Hop).
            In (route_of origin (path ++ (h ∷ k ∷ hs)))
              (rec q.token_out (path ++ (q ∷ [])) (visited ++ (q.token_out ∷ []))))
          step
          (subst
            (λ (l : List Hop).
              In (route_of origin l)
                (rec h.token_out (path ++ (h ∷ [])) (visited ++ (h.token_out ∷ []))))
            whole inner) in
      let away : e.token_out ≢ origin = λ same_token. cc (seen, fresh, next, same_token) in
      rw (found, dfs_recurse)
        (In-flat_map (visit g origin current path visited (suc r) rec) es e _ m (
          visit-on g (suc r) origin current path visited rec e _ away
            (subst (λ t. contains visited t ≡ false) next fresh) (omega arith) deeper))

-- None of the tokens is among those seen.
abbrev Apart : List ℕ → List ℕ → Type 0
Apart seen = All (λ x. contains seen x ≡ false)

Apart-snoc :
    (seen : List ℕ) (y : ℕ) (xs : List ℕ)
    → Apart seen xs
    → contains xs y ≡ false
    → Apart (seen ++ (y ∷ [])) xs
Apart-snoc seen y [] a n = tt
Apart-snoc seen y (x ∷ xs) (p, a) n =
    (ground (arith, contains-snoc seen y x), Apart-snoc seen y xs a (ground arith))

Apart-none : (xs : List ℕ) → Apart [] xs
Apart-none [] = tt
Apart-none (x ∷ xs) = (refl, Apart-none xs)

lookup-In :
    {V : Type 0} (k : ℕ) (m : List (ℕ × V)) (v : V)
    → lookup k m ≡ some v
    → In k (map (λ entry. entry.0) m)
lookup-In k [] v h = absurd (ground arith)
lookup-In k ((j, w) ∷ m) v h = elim (Bool-cases (j == k)) [
  | inl same ↦ inl (ground arith)
  | inr other ↦ inr (lookup-In k m v (ground arith))
]

module _ {F : Type 0} ⦃fl : Float F⦄ where
  open fl use {lt}

  Chain-IsFresh :
      (g : ArbGraph F) (a b : ℕ) (seen : List ℕ) (h : Hop) (hs : List Hop)
      → Chain g a (h ∷ hs) b
      → Apart seen (ins hs)
      → Distinct (ins hs)
      → IsFresh seen (h ∷ hs)
  Chain-IsFresh g a b seen h [] c apart d = tt
  Chain-IsFresh g a b seen h (k ∷ hs) (_, _, c) (p, apart) (n, d) =
      let from : k.token_in ≡ h.token_out = c.0 in
      (
        subst (λ t. contains seen t ≡ false) from p,
        Chain-IsFresh g h.token_out b (seen ++ (h.token_out ∷ [])) k hs c
            (Apart-snoc seen h.token_out (ins hs) apart
              (subst (λ t. contains (ins hs) t ≡ false) from n))
            d,
      )

  -- The search misses no cycle: every chain of edges of the graph from a token back to it, through
  -- distinct tokens, in at least three hops and at most the depth, whose rates multiply to more than
  -- 1, is among the routes reported.
  pub dfs_cycles-In :
      (g : ArbGraph F) (depth origin : ℕ) (hops : List Hop)
      → Chain g origin hops origin
      → Distinct (ins hops)
      → 3 ≤ length hops
      → length hops ≤ depth
      → lt one (rates_product g hops) ≡ true
      → In (route_of origin hops) (dfs_cycles g depth)
  unfolding dfs_cycles
  dfs_cycles-In g depth origin [] c d long le pays = absurd (omega arith)
  dfs_cycles-In g depth origin (h ∷ hs) (from, (es, e, out, m, same), c) (n, d) long le pays =
      let at : lookup origin g ≡ some es = subst (λ t. lookup t g ≡ some es) from out in
      let apart =
        Apart-snoc [] origin (ins hs) (Apart-none (ins hs))
          (subst (λ t. contains (ins hs) t ≡ false) from n) in
      let chain : Chain g origin (h ∷ hs) origin = (from, (es, e, out, m, same), c) in
      In-flat_map (λ start. dfs_recurse g depth start start [] (start ∷ []))
        (map (λ entry. entry.0) g) origin (route_of origin (h ∷ hs)) (lookup-In origin g es at)
        (dfs_recurse-In g depth origin origin [] (origin ∷ []) (h ∷ hs) (ground arith) chain
          (Chain-IsFresh g origin origin (origin ∷ []) h hs chain apart d) le (omega arith) pays)
