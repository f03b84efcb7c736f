-- ===== src/Main/Wiring.antt =====
-- What S2, S3 and S4 do as bot/src/main.rs spawns them, with no prices and with no pool known.
use skua.Prelude.{
  ℕ, ◌≡◌, refl, ◌∙◌, ap, sym, subst, List, [], ◌∷◌, Option, none, some, inl, inr, Bool-cases,
  Option-cases, if_keep, arith, lookup,
}
use skua.Float.{Float}
use skua.Core.Config.{SkuaConfig}
use skua.Core.State.{BotState}
use skua.Core.Types.{SizingResult, BorrowerPosition, PoolState}
use skua.World.{World, Outcome, ok, Outcome-cases}
use skua.Dispatch
use skua.HyperCore.Precompile.{read_price}
use skua.Liquidation.Monitor.{compute_health_factor, hf_presimulate}
use skua.Liquidation.Sizing.{LiquidationParams, compute_liquidation_params, with_prices}
use skua.Liquidation.Executor.{try_liquidate}
use skua.Triangular.Graph.{ArbRoute, build, build_from}
use skua.Triangular.Search.{dfs_cycles}
use skua.Triangular.BellmanFord.{find_cycles}
use skua.Triangular.Executor.{choose_route, sized_routes, best_of, trade, try_execute_best_route}
use skua.StableDepeg.{StableToken, check_stable, check_all, scan_and_execute}
use skua.Main.Tasks.{liquidate_all}

module _ {F : Type 0} where
  -- The bot's state and the transactions sent are as before.
  pub record SameBot (w v : World F) : Type 0 where
    pub bot : v.bot ≡ w.bot
    pub sent : v.sent ≡ w.sent

  pub SameBot-refl : (w : World F) → SameBot w w
  SameBot-refl w = record { bot = refl; sent = refl }

  SameBot-trans : (w v u : World F) → SameBot w v → SameBot v u → SameBot w u
  SameBot-trans w v u a b = record { bot = b.bot ∙ a.bot; sent = b.sent ∙ a.sent }

module _ {F : Type 0} ⦃fl : Float F⦄ where
  open fl use {le, dec, cast, ◌⊘◌}

  -- Without prices there are no parameters.
  unpriced :
      (bonus : Option ℕ) (pos : BorrowerPosition F) (s : BotState F) (p : LiquidationParams F)
      → ¬ (compute_liquidation_params bonus pos [] s none ≡ ok (some p))
  unfolding compute_liquidation_params with_prices
  unpriced bonus pos s p e = ground arith

  -- With no prices, as S2 is spawned, `try_liquidate` changes nothing and sends nothing.
  try_liquidate-unpriced :
      (config : SkuaConfig F) (env : Dispatch.Env) (bonus : Option ℕ) (borrower market : ℕ)
      (w : World F)
      → SameBot w (try_liquidate config env bonus borrower market [] w).1
  unfolding try_liquidate
  try_liquidate-unpriced config env bonus borrower market w =
      elim (Option-cases (lookup borrower w.bot.hyperlend_positions)) [
        | inl unknown ↦ rw (unknown, try_liquidate) (SameBot-refl w)
        | inr (pos, known) ↦ elim (Bool-cases (le hf_presimulate (compute_health_factor pos []))) [
          | inl safe ↦ rw (known, safe, try_liquidate) (SameBot-refl w)
          | inr risky ↦ elim (Outcome-cases (compute_liquidation_params bonus pos [] w.bot none)) [
            | inl (e, failed) ↦
                rw (known, risky, failed, try_liquidate) (record { bot = refl; sent = refl })
            | inr (none, nothing) ↦
                rw (known, risky, nothing, try_liquidate) (record { bot = refl; sent = refl })
            | inr (some p, sized) ↦ absurd (unpriced bonus pos w.bot p sized)
          ]
        ]
      ]

  pub liquidate_all-SameBot :
      (config : SkuaConfig F) (answers : ℕ → Dispatch.Env × Option ℕ) (borrowers : List ℕ)
      (w : World F)
      → SameBot w (liquidate_all config answers borrowers w)
  unfolding liquidate_all
  liquidate_all-SameBot config answers [] w = SameBot-refl w
  liquidate_all-SameBot config answers (b ∷ rest) w =
      let v = (try_liquidate config (answers b).0 (answers b).1 b config.usdc_token_index [] w).1 in
      SameBot-trans w v (liquidate_all config answers rest v)
        (try_liquidate-unpriced config (answers b).0 (answers b).1 b config.usdc_token_index w)
        (liquidate_all-SameBot config answers rest v)

  -- No pools, no cycles.
  choose_route-no_pools :
      (choice : ArbRoute → Option (SizingResult F)) → choose_route choice (build []) ≡ ok none
  unfolding choose_route find_cycles dfs_cycles build build_from sized_routes best_of
  choose_route-no_pools choice = refl

  pub triangular-SameBot :
      (config : SkuaConfig F) (env : Dispatch.Env) (choice : ArbRoute → Option (SizingResult F))
      (price : F) (w : World F)
      → w.bot.pool_states ≡ []
      → SameBot w (try_execute_best_route config env choice price w).1
  unfolding try_execute_best_route trade
  triangular-SameBot config env choice price w none_known =
      let routes = choose_route choice (build w.bot.pool_states) in
      let nothing : routes ≡ ok none =
        ap (λ (ps : List (ℕ × PoolState F)). choose_route choice (build ps)) none_known
        ∙ choose_route-no_pools choice in
      if_keep (λ (r : Outcome (Option ℕ) × World F). SameBot w r.1) w.bot.s3_enabled
        (trade config env price routes w) (ok none, w)
        (subst
          (λ (c : Outcome (Option (ArbRoute × SizingResult F))).
            SameBot w (trade config env price c w).1)
          (sym nothing) (SameBot-refl w))
        (SameBot-refl w)

  check_stable-SameBot :
      (fuel : ℕ) (config : SkuaConfig F) (env : Dispatch.Env) (oracle : Option ℕ)
      (stable : StableToken) (w : World F)
      → w.bot.pool_states ≡ []
      → SameBot w (check_stable fuel config env oracle stable w).1
  unfolding check_stable
  check_stable-SameBot fuel config env oracle stable w none_known =
      let unknown : lookup stable.pool_a w.bot.pool_states ≡ none =
        ap (lookup stable.pool_a) none_known in
      elim (Outcome-cases (read_price oracle)) [
        | inl (e, failed) ↦ rw (failed, check_stable) (SameBot-refl w)
        | inr (raw, priced) ↦ rw (priced, unknown, check_stable) (SameBot-refl w)
      ]

  check_all-SameBot :
      (fuel : ℕ) (config : SkuaConfig F) (rounds : List (Dispatch.Env × Option ℕ × StableToken))
      (w : World F)
      → w.bot.pool_states ≡ []
      → SameBot w (check_all fuel config rounds w)
  unfolding check_all
  check_all-SameBot fuel config [] w none_known = SameBot-refl w
  check_all-SameBot fuel config ((env, oracle, stable) ∷ rest) w none_known =
      let v = (check_stable fuel config env oracle stable w).1 in
      let same = check_stable-SameBot fuel config env oracle stable w none_known in
      SameBot-trans w v (check_all fuel config rest v) same (
        check_all-SameBot fuel config rest v
          (ap (λ (s : BotState F). s.pool_states) same.bot ∙ none_known))

  pub scan-SameBot :
      (fuel : ℕ) (config : SkuaConfig F) (rounds : List (Dispatch.Env × Option ℕ × StableToken))
      (w : World F)
      → w.bot.pool_states ≡ []
      → SameBot w (scan_and_execute fuel config rounds w).1
  unfolding scan_and_execute
  scan-SameBot fuel config rounds w none_known =
      if_keep (λ (r : Outcome (Unit {0}) × World F). SameBot w r.1) w.bot.s4_enabled
        (ok tt, check_all fuel config rounds w) (ok tt, w)
        (check_all-SameBot fuel config rounds w none_known) (SameBot-refl w)
