-- ===== src/Chain/Synced.antt =====
-- What the chain loops keep true of the state (bot/crates/chain/src).
use skua.Prelude.{
  ℕ, ◌≡◌, ◌≢◌, refl, sym, ap, ◌∙◌, Option, none, some, List, [], ◌∷◌, ◌==◌, ==_iff, inl, inr, arith,
  In, lookup, Bool-cases, Option-cases,
}
use mathlib.Core.Option.{some-injective}
use skua.Core.State.{BotState}
use skua.Core.Types.{PoolState}
use skua.Chain.Pools.{set_reserves, reconcile_pool, reconcile_pools}

module _ {F : Type 0} where
  abbrev pub synced : ℕ → ℕ → ℕ → PoolState F → PoolState F
  synced r0 r1 block ps = record ps { reserve_a = r0; reserve_b = r1; last_updated = block }

  lookup-set_reserves :
      (pool r0 r1 block : ℕ) (pools : List (ℕ × PoolState F)) (ps : PoolState F)
      → lookup pool pools ≡ some ps
      → lookup pool (set_reserves pool r0 r1 block pools) ≡ some (synced r0 r1 block ps)
  unfolding set_reserves
  lookup-set_reserves pool r0 r1 block [] ps e = absurd (ground arith)
  lookup-set_reserves pool r0 r1 block ((addr, qs) ∷ pools) ps e =
      elim (Bool-cases (addr == pool)) [
        | inl same ↦
            let found : qs ≡ ps = some-injective _ _ (rw (same, lookup) at e) in
            rw same (rw (same, found) refl)
        | inr other ↦
            rw other
              (rw other (lookup-set_reserves pool r0 r1 block pools ps (rw (other, lookup) at e)))
      ]

  lookup-set_reserves_other :
      (pool other r0 r1 block : ℕ) (pools : List (ℕ × PoolState F))
      → other ≢ pool
      → lookup other (set_reserves pool r0 r1 block pools) ≡ lookup other pools
  unfolding set_reserves
  lookup-set_reserves_other pool other r0 r1 block [] away = refl
  lookup-set_reserves_other pool other r0 r1 block ((addr, qs) ∷ pools) away =
      let rest = lookup-set_reserves_other pool other r0 r1 block pools away in ground arith

  reconcile_pools-step :
      (query : ℕ → Option (ℕ × ℕ)) (addr : ℕ) (rest : List ℕ) (s : BotState F) (pool : ℕ)
      (answer : Option (ℕ × ℕ))
      → query addr ≡ answer
      → lookup pool (reconcile_pools query (addr ∷ rest) s).pool_states
        ≡ lookup pool (reconcile_pools query rest (reconcile_pool addr answer s)).pool_states
  unfolding reconcile_pools
  reconcile_pools-step query addr rest s pool answer e =
      ap
        (λ (o : Option (ℕ × ℕ)).
          lookup pool (reconcile_pools query rest (reconcile_pool addr o s)).pool_states)
        e

  reconcile_pools-keep :
      (query : ℕ → Option (ℕ × ℕ)) (addrs : List ℕ) (s : BotState F) (pool r0 r1 : ℕ)
      (ps : PoolState F)
      → query pool ≡ some (r0, r1)
      → lookup pool s.pool_states ≡ some (synced r0 r1 s.current_block ps)
      → lookup pool (reconcile_pools query addrs s).pool_states
        ≡ some (synced r0 r1 s.current_block ps)
  unfolding reconcile_pools reconcile_pool
  reconcile_pools-keep query [] s pool r0 r1 ps answer e = e
  reconcile_pools-keep query (addr ∷ rest) s pool r0 r1 ps answer e =
      elim (Option-cases (query addr)) [
        | inl silent ↦
            (reconcile_pools-step query addr rest s pool none silent
              ∙ reconcile_pools-keep query rest s pool r0 r1 ps answer e)
        | inr ((q0, q1), given) ↦
            let pools = s.pool_states in
            let t = record s { pool_states = set_reserves addr q0 q1 s.current_block pools } in
            let still : lookup pool t.pool_states ≡ some (synced r0 r1 s.current_block ps) =
              elim (Bool-cases (pool == addr)) [
                | inl hit ↦
                    let same : pool ≡ addr = (==_iff pool addr).0 hit in
                    let reserves : (q0, q1) ≡ (r0, r1) =
                      some-injective _ _ (sym given ∙ ap query (sym same) ∙ answer) in
                    rw (← same, ap (λ (r : ℕ × ℕ). r.0) reserves, ap (λ (r : ℕ × ℕ). r.1) reserves)
                      (lookup-set_reserves pool r0 r1 s.current_block pools _ e)
                | inr miss ↦
                    lookup-set_reserves_other addr pool q0 q1 s.current_block pools (ground arith)
                    ∙ e
              ] in
            (reconcile_pools-step query addr rest s pool _ given
              ∙ reconcile_pools-keep query rest t pool r0 r1 ps answer still)
      ]

  -- A reconciliation brings every known pool of its list that answers to the reserves it answers, at the
  -- current block, whatever the state had before.
  pub reconcile_pools-synced :
      (query : ℕ → Option (ℕ × ℕ)) (addrs : List ℕ) (s : BotState F) (pool r0 r1 : ℕ)
      (ps : PoolState F)
      → In pool addrs
      → query pool ≡ some (r0, r1)
      → lookup pool s.pool_states ≡ some ps
      → lookup pool (reconcile_pools query addrs s).pool_states
        ≡ some (synced r0 r1 s.current_block ps)
  unfolding reconcile_pools reconcile_pool
  reconcile_pools-synced query [] s pool r0 r1 ps m answer e = absurd m
  reconcile_pools-synced query (addr ∷ rest) s pool r0 r1 ps (inl same) answer e =
      let given : query addr ≡ some (r0, r1) = ap query (sym same) ∙ answer in
      let pools = s.pool_states in
      let t = record s { pool_states = set_reserves addr r0 r1 s.current_block pools } in
      let hit : lookup pool t.pool_states ≡ some (synced r0 r1 s.current_block ps) =
        rw (← same) (lookup-set_reserves pool r0 r1 s.current_block pools ps e) in
      (reconcile_pools-step query addr rest s pool _ given
        ∙ reconcile_pools-keep query rest t pool r0 r1 ps answer hit)
  reconcile_pools-synced query (addr ∷ rest) s pool r0 r1 ps (inr m) answer e =
      elim (Option-cases (query addr)) [
        | inl silent ↦
            (reconcile_pools-step query addr rest s pool none silent
              ∙ reconcile_pools-synced query rest s pool r0 r1 ps m answer e)
        | inr ((q0, q1), given) ↦
            let pools = s.pool_states in
            let t = record s { pool_states = set_reserves addr q0 q1 s.current_block pools } in
            reconcile_pools-step query addr rest s pool _ given
            ∙ (elim (Bool-cases (pool == addr)) [
              | inl hit ↦
                  let same : pool ≡ addr = (==_iff pool addr).0 hit in
                  let at : lookup pool t.pool_states ≡ some (synced q0 q1 s.current_block ps) =
                    rw (← same) (lookup-set_reserves pool q0 q1 s.current_block pools ps e) in
                  reconcile_pools-synced query rest t pool r0 r1 _ m answer at
              | inr miss ↦ reconcile_pools-synced query rest t pool r0 r1 ps m answer (
                  lookup-set_reserves_other addr pool q0 q1 s.current_block pools (ground arith)
                  ∙ e)
            ])
      ]
