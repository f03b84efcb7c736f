-- ===== src/StableDepeg/Justified.antt =====
-- When `check_stable` sends a transaction (bot/crates/strategies/stable_depeg/src/executor.rs).
use skua.Prelude.{
  ℕ, ◌≡◌, refl, ◌∙◌, true, false, Option, none, some, ◌∷◌, ◌⊎◌, inl, inr, Bool-cases, Option-cases,
  lookup,
}
use skua.Float.{Float}
use skua.Core.Config.{SkuaConfig}
use skua.Core.State.{is_halted}
use skua.Core.Types.{PoolState, SizingResult, SimulationResult}
use skua.Scanner.Signals.{DepegSignal, check_depeg}
use skua.HyperCore.Precompile.{read_price}
use skua.World
use skua.World.{World, Outcome, ok, err, Receipt, s4, sizing, sim_passed, opp_detected}
use skua.Dispatch.{Env, dispatch}
use skua.Dispatch.Guards.{planned, after_keep, dispatch-AtMostOne}
use skua.World.{Outcome-cases}
use skua.StableDepeg.{
  StableToken, Sides, choose_sides, depeg_sizing, depeg_call, depeg_plan, depeg_sim,
  depeg_profitable, arb_with, signal_with, check_stable,
}

module _ {F : Type 0} ⦃fl : Float F⦄ where
  open fl use {dec, cast, ◌⊘◌, lt}

  -- The transaction that trades on a depeg with the size given, and what was checked before it.
  pub record IsDepegArb (config : SkuaConfig F) (env : Env) (stable : StableToken)
      (oracle_price : F) (sides : Sides F) (z : SizingResult F) (w v : World F) : Type 0 where
    pub wallet_idx : ℕ
    pub nonce : ℕ
    pub sim : SimulationResult F
    pub profit_checked : depeg_profitable config w.bot z ≡ true
    pub simulated : depeg_sim config env stable oracle_price z ≡ ok sim
    pub free : is_halted config.max_consecutive_reverts w.bot ≡ false
    pub one_more :
        v.sent
        ≡ planned config
            (depeg_plan config)
            (depeg_call stable oracle_price sides z)
            w
            wallet_idx
            nonce
          ∷ w.sent

  arb_with-sent :
      (config : SkuaConfig F) (env : Env) (stable : StableToken) (price : F) (sides : Sides F)
      (z : SizingResult F) (w : World F)
      → let v = (arb_with config env stable price sides z w).1 in
        (v.sent ≡ w.sent) ⊎ IsDepegArb config env stable price sides z w v
  unfolding arb_with
  arb_with-sent config env stable price sides z w =
      elim (Bool-cases (depeg_profitable config w.bot z)) [
        | inr poor ↦ rw (poor, arb_with) (inl refl)
        | inl gain ↦ elim (Outcome-cases (depeg_sim config env stable price z)) [
          | inl (e, failed) ↦ rw (gain, failed, arb_with) (inl refl)
          | inr (sim, passed) ↦
              let u = record w { metrics = (s4, sim_passed) ∷ (s4, sizing) ∷ w.metrics } in
              let input = depeg_call stable price sides z in
              let sent = dispatch config env (depeg_plan config) input u in
              let go_on = λ (o : Option Receipt). World.pure {S = World F} tt in
              let same = after_keep sent go_on (λ o v. refl) in
              rw (gain, passed, arb_with)
                (elim (dispatch-AtMostOne config env (depeg_plan config) input u) [
                  | inl e ↦ inl (same ∙ e)
                  | inr (i, n, e, open_still) ↦ inr (record {
                    wallet_idx = i;
                    nonce = n;
                    sim = sim;
                    profit_checked = gain;
                    simulated = passed;
                    free = open_still;
                    one_more = same ∙ e;
                  })
                ])
        ]
      ]

  -- What is known when `check_stable` trades: the oracle's price, the two pools, and a signal for a token
  -- below its peg.
  pub record IsDepegged (fuel : ℕ) (config : SkuaConfig F) (oracle : Option ℕ)
      (stable : StableToken) (w : World F) (price : F) (sides : Sides F) (z : SizingResult F)
      : Type 0 where
    pub raw : ℕ
    pub pool_a : PoolState F
    pub pool_b : PoolState F
    pub signal : DepegSignal F
    pub priced : read_price oracle ≡ ok raw
    pub scaled : price ≡ ◌⊘◌ (cast raw) (dec 100_000_000 0)
    pub known_a : lookup stable.pool_a w.bot.pool_states ≡ some pool_a
    pub known_b : lookup stable.pool_b w.bot.pool_states ≡ some pool_b
    pub chosen : sides ≡ choose_sides stable price pool_a pool_b
    pub signalled :
        check_depeg sides.amm_price price config.s4_depeg_threshold_bps stable.token ≡ some signal
    pub lower : signal.depegged_lower ≡ true
    pub sized : depeg_sizing fuel config stable price sides w.bot ≡ some (some z)

  IsDepegArb-of :
      (config : SkuaConfig F) (env : Env) (stable : StableToken) (price : F) (sides : Sides F)
      (z : SizingResult F) (w v : World F)
      → IsDepegArb config env stable price sides z
          (record w { metrics = (s4, opp_detected) ∷ w.metrics })
          v
      → IsDepegArb config env stable price sides z w v
  IsDepegArb-of config env stable price sides z w v l = record {
    wallet_idx = l.wallet_idx;
    nonce = l.nonce;
    sim = l.sim;
    profit_checked = l.profit_checked;
    simulated = l.simulated;
    free = l.free;
    one_more = l.one_more;
  }

  signal_with-sent :
      (fuel : ℕ) (config : SkuaConfig F) (env : Env) (stable : StableToken) (price : F)
      (sides : Sides F) (signal : DepegSignal F) (w : World F)
      → let v = (signal_with fuel config env stable price sides signal w).1 in
        (v.sent ≡ w.sent)
        ⊎ (signal.depegged_lower ≡ true)
          × (z : SizingResult F) × (depeg_sizing fuel config stable price sides w.bot
              ≡ some (some z))
          × IsDepegArb config env stable price sides z w v
  unfolding signal_with
  signal_with-sent fuel config env stable price sides signal w =
      elim (Bool-cases signal.depegged_lower) [
        | inr higher ↦ rw (higher, signal_with) (inl refl)
        | inl lower ↦ elim (Option-cases (depeg_sizing fuel config stable price sides w.bot)) [
          | inl out ↦ rw (lower, out, signal_with) (inl refl)
          | inr (none, nothing) ↦ rw (lower, nothing, signal_with) (inl refl)
          | inr (some z, sized) ↦
              let u = record w { metrics = (s4, opp_detected) ∷ w.metrics } in
              rw (lower, sized, signal_with)
                (elim (arb_with-sent config env stable price sides z u) [
                  | inl e ↦ inl e
                  | inr l ↦ inr (refl, z, refl, IsDepegArb-of config env stable price sides z w _ l)
                ])
        ]
      ]

  -- The transactions are as before, or one more that trades on a depeg.
  abbrev pub TradesDepegOnly :
      ℕ → SkuaConfig F → Env → Option ℕ → StableToken → (before after : World F) → Type 0
  TradesDepegOnly fuel config env oracle stable w v =
      (v.sent ≡ w.sent)
      ⊎ (price : F) × (sides : Sides F) × (z : SizingResult F) × IsDepegged fuel config oracle
          stable w price sides z
        × IsDepegArb config env stable price sides z w v

  -- `check_stable` sends at most one transaction, whatever the node answers. It sends one only with a
  -- price of the oracle, both pools known, a signal that the token is below its peg in the pool whose
  -- price is further off, a size found, a profit over the minimum, a simulation that passed and a bot
  -- that is not halted.
  pub check_stable-sent :
      (fuel : ℕ) (config : SkuaConfig F) (env : Env) (oracle : Option ℕ) (stable : StableToken)
      (w : World F)
      → TradesDepegOnly fuel config env oracle stable w
          (check_stable fuel config env oracle stable w).1
  unfolding check_stable
  check_stable-sent fuel config env oracle stable w = elim (Outcome-cases (read_price oracle)) [
    | inl (e, failed) ↦ rw (failed, check_stable) (inl refl)
    | inr (raw, priced) ↦
        let price = ◌⊘◌ (cast raw) (dec 100_000_000 0) in
        elim (Option-cases (lookup stable.pool_a w.bot.pool_states)) [
          | inl unknown ↦ rw (priced, unknown, check_stable) (inl refl)
          | inr (a, known_a) ↦ elim (Option-cases (lookup stable.pool_b w.bot.pool_states)) [
            | inl unknown ↦ rw (priced, known_a, unknown, check_stable) (inl refl)
            | inr (b, known_b) ↦
                let sides = choose_sides stable price a b in
                elim (Option-cases
                  (check_depeg sides.amm_price price config.s4_depeg_threshold_bps stable.token)) [
                    | inl quiet ↦ rw (priced, known_a, known_b, quiet, check_stable) (inl refl)
                    | inr (signal, seen) ↦
                        let same : check_stable fuel config env oracle stable w
                            ≡ signal_with fuel config env stable price sides signal w =
                          rw (priced, known_a, known_b, seen, check_stable) refl in
                        rw same
                          (elim (signal_with-sent fuel config env stable price sides signal w) [
                            | inl e ↦ inl e
                            | inr (lower, z, sized, arb) ↦
                                let depegged : IsDepegged fuel config oracle stable w price sides
                                    z =
                                  record {
                                    raw = raw;
                                    pool_a = a;
                                    pool_b = b;
                                    signal = signal;
                                    priced = priced;
                                    scaled = refl;
                                    known_a = known_a;
                                    known_b = known_b;
                                    chosen = refl;
                                    signalled = seen;
                                    lower = lower;
                                    sized = sized;
                                  } in
                                inr (price, sides, z, depegged, arb)
                          ])
                  ]
          ]
        ]
  ]
