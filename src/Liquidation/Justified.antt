-- ===== src/Liquidation/Justified.antt =====
-- When `try_liquidate` sends a transaction (bot/crates/strategies/liquidation/src/executor.rs).
use skua.Prelude.{
  ℕ, ◌≡◌, refl, ◌∙◌, true, false, Option, none, some, ◌∷◌, ◌⊎◌, inl, inr, Bool-cases, Option-cases,
  lookup,
}
use skua.Float.{Float}
use skua.Core.Config.{SkuaConfig}
use skua.Core.State.{is_halted}
use skua.Core.Types.{PriceMap, BorrowerPosition, SimulationResult}
use skua.World
use skua.World.{
  Outcome-cases, World, Outcome, Error, ok, err, Call, Receipt, M, s2, sim_passed, opp_detected,
}
use skua.Dispatch.{Env, dispatch}
use skua.Dispatch.Guards.{planned, after_keep, dispatch-AtMostOne}
use skua.Liquidation.Monitor.{compute_health_factor, hf_presimulate, hf_submit}
use skua.Liquidation.Sizing.{LiquidationParams, compute_liquidation_params}
use skua.Liquidation.Executor.{
  liquidation_call, liquidation_sim, liquidation_plan, simulate_and_dispatch, profitable,
  liquidate_with, try_liquidate,
}

module _ {F : Type 0} ⦃fl : Float F⦄ where
  open fl use {le}

  -- The transaction that liquidates with the parameters given, and what was checked before it.
  pub record IsLiquidation (config : SkuaConfig F) (env : Env) (market : ℕ) (prices : PriceMap F)
      (pos : BorrowerPosition F) (params : LiquidationParams F) (w v : World F) : Type 0 where
    pub wallet_idx : ℕ
    pub nonce : ℕ
    pub sim : SimulationResult F
    pub profit_checked : profitable config w.bot params ≡ true
    pub unhealthy : le hf_submit (compute_health_factor pos prices) ≡ false
    pub simulated : liquidation_sim config env pos prices params ≡ ok sim
    pub free : is_halted config.max_consecutive_reverts w.bot ≡ false
    pub one_more :
        v.sent
        ≡ planned config
            (liquidation_plan config)
            (liquidation_call pos prices market params)
            w
            wallet_idx
            nonce
          ∷ w.sent

  simulate_and_dispatch-sent :
      (config : SkuaConfig F) (env : Env) (pos : BorrowerPosition F) (prices : PriceMap F)
      (market : ℕ) (params : LiquidationParams F) (w : World F)
      → profitable config w.bot params ≡ true
      → le hf_submit (compute_health_factor pos prices) ≡ false
      → let v = (simulate_and_dispatch config env pos prices market params w).1 in
        (v.sent ≡ w.sent) ⊎ IsLiquidation config env market prices pos params w v
  unfolding simulate_and_dispatch
  simulate_and_dispatch-sent config env pos prices market params w gain low =
      elim (Outcome-cases (liquidation_sim config env pos prices params)) [
        | inl (e, failed) ↦ rw (failed, simulate_and_dispatch) (inl refl)
        | inr (sim, passed) ↦
            let u = record w { metrics = (s2, sim_passed) ∷ w.metrics } in
            let input = liquidation_call pos prices market params in
            let sent = dispatch config env (liquidation_plan config) input u in
            let go_on = λ (o : Option Receipt).
              World.pure {S = World F} (elim o [ none ↦ none | some r ↦ some sim ]) in
            let same = after_keep sent go_on (λ o v. refl) in
            rw (passed, simulate_and_dispatch)
              (elim (dispatch-AtMostOne config env (liquidation_plan config) input u) [
                | inl e ↦ inl (same ∙ e)
                | inr (i, n, e, open_still) ↦ inr (record {
                  wallet_idx = i;
                  nonce = n;
                  sim = sim;
                  profit_checked = gain;
                  unhealthy = low;
                  simulated = passed;
                  free = open_still;
                  one_more = same ∙ e;
                })
              ])
      ]

  liquidate_with-sent :
      (config : SkuaConfig F) (env : Env) (pos : BorrowerPosition F) (prices : PriceMap F)
      (market : ℕ) (params : LiquidationParams F) (w : World F)
      → let v = (liquidate_with config env pos prices market params w).1 in
        (v.sent ≡ w.sent) ⊎ IsLiquidation config env market prices pos params w v
  unfolding liquidate_with
  liquidate_with-sent config env pos prices market params w =
      elim (Bool-cases (profitable config w.bot params)) [
        | inr poor ↦ rw (poor, liquidate_with) (inl refl)
        | inl gain ↦ elim (Bool-cases (le hf_submit (compute_health_factor pos prices))) [
          | inl healthy ↦ rw (gain, healthy, liquidate_with) (inl refl)
          | inr low ↦
              rw (gain, low, liquidate_with)
                (simulate_and_dispatch-sent config env pos prices market params w gain low)
        ]
      ]

  -- The transactions are as before, or one more that liquidates a known position.
  abbrev pub LiquidatesOnly :
      SkuaConfig F
      → Env
      → Option ℕ
      → (borrower market : ℕ) → PriceMap F
      → (before after : World F) → Type 0
  LiquidatesOnly config env bonus borrower market prices w v =
      (v.sent ≡ w.sent)
      ⊎ (pos : BorrowerPosition F) × (params : LiquidationParams F) × (lookup borrower
            w.bot.hyperlend_positions
          ≡ some pos)
        × (compute_liquidation_params bonus pos prices w.bot none ≡ ok (some params))
        × IsLiquidation config env market prices pos params w v

  -- `try_liquidate` sends at most one transaction, whatever the node answers. It sends one only for a
  -- position that it knows, with the health factor at the given prices not 1.05 or more, parameters
  -- computed from that position, a profit over the minimum, a simulation that passed and a bot that is
  -- not halted; the transaction is then the liquidation with these parameters, to the contract of the
  -- configuration.
  pub try_liquidate-sent :
      (config : SkuaConfig F) (env : Env) (bonus : Option ℕ) (borrower market : ℕ)
      (prices : PriceMap F) (w : World F)
      → LiquidatesOnly config env bonus borrower market prices w
          (try_liquidate config env bonus borrower market prices w).1
  unfolding try_liquidate
  try_liquidate-sent config env bonus borrower market prices w =
      elim (Option-cases (lookup borrower w.bot.hyperlend_positions)) [
        | inl unknown ↦ rw (unknown, try_liquidate) (inl refl)
        | inr (pos, known) ↦
            elim (Bool-cases (le hf_presimulate (compute_health_factor pos prices))) [
              | inl safe ↦ rw (known, safe, try_liquidate) (inl refl)
              | inr risky ↦
                  elim (Outcome-cases (compute_liquidation_params bonus pos prices w.bot none)) [
                    | inl (e, failed) ↦ rw (known, risky, failed, try_liquidate) (inl refl)
                    | inr (none, nothing) ↦ rw (known, risky, nothing, try_liquidate) (inl refl)
                    | inr (some params, sized) ↦
                        let u = record w { metrics = (s2, opp_detected) ∷ w.metrics } in
                        rw (known, risky, sized, try_liquidate)
                          (elim (liquidate_with-sent config env pos prices market params u) [
                            | inl e ↦ inl e
                            | inr l ↦ inr (
                              pos,
                              params,
                              refl,
                              sized,
                              record {
                                wallet_idx = l.wallet_idx;
                                nonce = l.nonce;
                                sim = l.sim;
                                profit_checked = l.profit_checked;
                                unhealthy = l.unhealthy;
                                simulated = l.simulated;
                                free = l.free;
                                one_more = l.one_more;
                              },
                            )
                          ])
                  ]
            ]
      ]
