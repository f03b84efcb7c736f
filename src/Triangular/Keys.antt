-- ===== src/Triangular/Keys.antt =====
-- The graph that `ArbGraph::build` makes has every token of its edges as a key
-- (bot/crates/strategies/triangular/src/graph.rs), so that `idx[..]` finds them.
use skua.Prelude.{
  ℕ, ◌+◌, ◌≡◌, refl, sym, some, List, [], ◌∷◌, ◌==◌, ==_iff, inl, inr, arith, All, All-append,
  All-imp, In, map, Bool-cases,
}
use skua.Float.{Float}
use skua.Core.Types.{PoolState}
use skua.Triangular.Graph.{
  PoolEdge, ArbGraph, push_edge, edge_a_to_b, edge_b_to_a, build_from, build,
}
use skua.Triangular.BellmanFord.{index_of, tokens_of, all_edges}

pub index_of-In : (t : ℕ) (us : List ℕ) → In t us → (i : ℕ) × (index_of t us ≡ some i)
unfolding index_of
index_of-In t [] m = absurd m
index_of-In t (u ∷ us) m = elim (Bool-cases (u == t)) [
  | inl same ↦ (0, rw same refl)
  | inr other ↦
      let rest : In t us = elim m [ inl hit ↦ absurd (ground arith) | inr deeper ↦ deeper ] in
      let (i, e) = index_of-In t us rest in (i + 1, rw other (rw e refl))
]

module _ {F : Type 0} where
  -- Both ends of every edge are among the tokens given.
  abbrev pub Closed : List ℕ → ArbGraph F → Type 0
  Closed ks = All (λ (entry : ℕ × List (PoolEdge F)).
      In entry.0 ks × All (λ (e : PoolEdge F). In e.token_out ks) entry.1)

  Closed-more :
      (ks ls : List ℕ) (g : ArbGraph F) → ((x : ℕ) → In x ks → In x ls) → Closed ks g → Closed ls g
  Closed-more ks ls g more =
      All-imp _ _ g
        (λ (entry : ℕ × List (PoolEdge F))
            (c : In entry.0 ks × All (λ (e : PoolEdge F). In e.token_out ks) entry.1).
          (
            more entry.0 c.0,
            All-imp (λ (e : PoolEdge F). In e.token_out ks) (λ (e : PoolEdge F). In e.token_out ls)
                entry.1 (λ e m. more e.token_out m) c.1,
          ))

  push_edge-Closed :
      (ks : List ℕ) (t : ℕ) (e : PoolEdge F) (g : ArbGraph F)
      → In t ks
      → In e.token_out ks
      → Closed ks g
      → Closed ks (push_edge t e g)
  unfolding push_edge
  push_edge-Closed ks t e [] from out c = ((from, (out, tt)), tt)
  push_edge-Closed ks t e ((u, es) ∷ g) from out ((k, all), c) = elim (Bool-cases (u == t)) [
    | inl same ↦
        rw same
          ((k, All-append (λ (x : PoolEdge F). In x.token_out ks) es (e ∷ []) all (out, tt)), c)
    | inr other ↦ rw other ((k, all), push_edge-Closed ks t e g from out c)
  ]

  push_edge-key : (t : ℕ) (e : PoolEdge F) (g : ArbGraph F) → In t (tokens_of (push_edge t e g))
  unfolding push_edge
  push_edge-key t e [] = inl refl
  push_edge-key t e ((u, es) ∷ g) = elim (Bool-cases (u == t)) [
    | inl same ↦ rw same (inl (sym ((==_iff u t).0 same)))
    | inr other ↦ rw other (inr (push_edge-key t e g))
  ]

  push_edge-keys :
      (t : ℕ) (e : PoolEdge F) (g : ArbGraph F) (x : ℕ)
      → In x (tokens_of g)
      → In x (tokens_of (push_edge t e g))
  unfolding push_edge
  push_edge-keys t e [] x m = absurd m
  push_edge-keys t e ((u, es) ∷ g) x m = elim (Bool-cases (u == t)) [
    | inl same ↦ rw same m
    | inr other ↦
        rw other (elim m [ inl hit ↦ inl hit | inr deeper ↦ inr (push_edge-keys t e g x deeper) ])
  ]

  from_one :
      (ks : List ℕ) (t : ℕ) (es : List (PoolEdge F))
      → In t ks
      → All (λ (e : PoolEdge F). In e.token_out ks) es
      → All
          (λ (te : ℕ × PoolEdge F). In te.0 ks × In te.1.token_out ks)
          (map (λ (e : PoolEdge F). (t, e)) es)
  from_one ks t [] k all = tt
  from_one ks t (e ∷ es) k (m, all) = ((k, m), from_one ks t es k all)

  pub all_edges-All :
      (ks : List ℕ) (g : ArbGraph F)
      → Closed ks g
      → All (λ (te : ℕ × PoolEdge F). In te.0 ks × In te.1.token_out ks) (all_edges g)
  unfolding all_edges
  all_edges-All ks [] c = tt
  all_edges-All ks ((t, es) ∷ g) ((k, all), c) =
      All-append (λ (te : ℕ × PoolEdge F). In te.0 ks × In te.1.token_out ks)
        (map (λ (e : PoolEdge F). (t, e)) es) (all_edges g) (from_one ks t es k all)
        (all_edges-All ks g c)

module _ {F : Type 0} ⦃fl : Float F⦄ where
  build_from-Closed :
      (g : ArbGraph F) (pools : List (ℕ × PoolState F))
      → Closed (tokens_of g) g
      → Closed (tokens_of (build_from g pools)) (build_from g pools)
  unfolding build_from edge_a_to_b edge_b_to_a
  build_from-Closed g [] c = c
  build_from-Closed g ((addr, ps) ∷ pools) c =
      let ab = edge_a_to_b addr ps in
      let ba = edge_b_to_a addr ps in
      let h = push_edge ps.token_a ab g in
      let k = push_edge ps.token_b ba h in
      let a_in : In ps.token_a (tokens_of k) =
        push_edge-keys ps.token_b ba h ps.token_a (push_edge-key ps.token_a ab g) in
      let b_in : In ps.token_b (tokens_of k) = push_edge-key ps.token_b ba h in
      let old =
        Closed-more (tokens_of g) (tokens_of k) g
          (λ x m. push_edge-keys ps.token_b ba h x (push_edge-keys ps.token_a ab g x m)) c in
      build_from-Closed k pools (
        push_edge-Closed (tokens_of k) ps.token_b ba h b_in a_in
          (push_edge-Closed (tokens_of k) ps.token_a ab g a_in b_in old))

  pub build-Closed :
      (pools : List (ℕ × PoolState F)) → Closed (tokens_of (build pools)) (build pools)
  unfolding build
  build-Closed pools = build_from-Closed [] pools tt
