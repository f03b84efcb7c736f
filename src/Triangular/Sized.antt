-- ===== src/Triangular/Sized.antt =====
-- What a size that `evaluate_route` finds promises (bot/crates/strategies/triangular/src/graph.rs).
use skua.Prelude.{ℕ, ◌≡◌, refl, sym, true, false, Option, none, some, List, arith}
use mathlib.Core.Option.{some-injective, some-ne-none}
use skua.Float.{Float, nought}
use skua.Float.Laws.{IsOrdered, IsRounded, IsSigned, IsSmall}
use skua.Core.Config.{SkuaConfig}
use skua.Core.State.{BotState}
use skua.Core.Types.{SizingResult, balancer}
use skua.Simulation.Amm.{AmmPool, get_output}
use skua.Simulation.Profit.{net_profit_three_leg}
use skua.Simulation.Signs.{IsPositive}
use skua.Simulation.Bounds.{IsSized, optimal_borrow_size-IsSized}
use skua.World.{Hop}
use skua.Triangular.Graph.{ArbRoute}
use skua.Triangular.Evaluate.{three, make_amm, route_profit, route_sizing, evaluate_route}

given :
    {A R : Type 0} (o : Option A) (f : A → Option (Option R)) {r : R}
    → elim o [ none ↦ some none | some a ↦ f a ] ≡ some (some r)
    → (a : A) × (o ≡ some a) × (f a ≡ some (some r))
given none f e = absurd (some-ne-none _ (sym (some-injective _ _ e)))
given (some a) f e = (a, refl, e)

module _ {F : Type 0} ⦃fl : Float F⦄ (ord : IsOrdered F) (rnd : IsRounded F)
    (signs : IsSigned F) where
  open fl use {le}
  open signs use {neg_infinity-le}

  -- A profit that is not at most 0, so also NaN, comes from three legs that each gave something out.
  abbrev pub EveryLegPays : (ab bc ca : AmmPool F) → F → Type 0
  EveryLegPays ab bc ca x =
      let y = get_output ab x in
      let z = get_output bc y in
      IsPositive signs x
      × IsPositive signs y
      × IsPositive signs z
      × IsPositive signs (get_output ca z)

  legs_pay :
      (ab bc ca : AmmPool F) (x fee_bps : F) (gas base_fee : ℕ) (hype : F)
      → le (net_profit_three_leg ab bc ca x fee_bps gas base_fee hype) nought ≡ false
      → EveryLegPays ab bc ca x
  unfolding net_profit_three_leg
  legs_pay ab bc ca x fee_bps gas base_fee hype h = ground (arith, neg_infinity-le)

  -- The three hops and their pools, and what holds of the size.
  pub record IsEvaluated (state : BotState F) (config : SkuaConfig F) (flash : F) (route : ArbRoute)
      (r : SizingResult F) : Type 0 where
    pub hop_a : Hop
    pub hop_b : Hop
    pub hop_c : Hop
    pub pool_ab : AmmPool F
    pub pool_bc : AmmPool F
    pub pool_ca : AmmPool F
    pub three_hops : three route.hops ≡ some (hop_a, hop_b, hop_c)
    pub known_ab : make_amm state.pool_states hop_a ≡ some pool_ab
    pub known_bc : make_amm state.pool_states hop_b ≡ some pool_bc
    pub known_ca : make_amm state.pool_states hop_c ≡ some pool_ca
    pub within_flash : IsSized ord rnd (route_profit state pool_ab pool_bc pool_ca) balancer flash r
    pub within_cap :
        IsSized ord rnd (route_profit state pool_ab pool_bc pool_ca) balancer config.hard_cap_usd r
    pub every_leg : EveryLegPays pool_ab pool_bc pool_ca r.optimal_amount_usd

  module _ (fuel : ℕ) (pools : List (AmmPool F)) (route : ArbRoute) (state : BotState F)
      (config : SkuaConfig F) (flash price : F) (flash_number : le flash flash ≡ true)
      (cap_number : le config.hard_cap_usd config.hard_cap_usd ≡ true)
      (cap_small : IsSmall config.hard_cap_usd) where
    route_sizing_legs :
        (ab bc ca : AmmPool F) {r : SizingResult F}
        → route_sizing fuel pools route state config flash price ab bc ca ≡ some (some r)
        → IsSized ord rnd (route_profit state ab bc ca) balancer flash r
          × IsSized ord rnd (route_profit state ab bc ca) balancer config.hard_cap_usd r
          × EveryLegPays ab bc ca r.optimal_amount_usd
    unfolding route_sizing
    route_sizing_legs ab bc ca {r} e =
        let (v, w) =
          optimal_borrow_size-IsSized ord rnd fuel (route_profit state ab bc ca) flash
            config.hard_cap_usd price route.start_token_decimals balancer _ _ _ _ flash_number
            cap_number cap_small e in
        (
          v,
          w,
          legs_pay ab bc ca r.optimal_amount_usd _ _ _ _ (rw v.profit_of_amount at v.profitable),
        )

    -- A size is found for a route of exactly three hops whose pools are all known, and for no other. It
    -- is then at most the flash liquidity and at most the operator's cap, its amount in wei is not zero,
    -- its profit is not at most 0 and is that of the three pools at that amount, and at that amount the
    -- first pool, the second and the third each give something out. The flash liquidity and the cap are
    -- taken not to be NaN, and the cap not too large to be doubled.
    pub evaluate_route-IsEvaluated :
        {r : SizingResult F}
        → evaluate_route fuel pools route state config flash price ≡ some (some r)
        → IsEvaluated state config flash route r
    unfolding evaluate_route
    evaluate_route-IsEvaluated {r} e =
        let ((a, b, c), hops, past) = given (three route.hops) _ e in
        let (ab, ab_eq, ab_past) = given (make_amm state.pool_states a) _ past in
        let (bc, bc_eq, bc_past) = given (make_amm state.pool_states b) _ ab_past in
        let (ca, ca_eq, sizing) = given (make_amm state.pool_states c) _ bc_past in
        let (v, w, pays) = route_sizing_legs ab bc ca sizing in
        record {
          hop_a = a;
          hop_b = b;
          hop_c = c;
          pool_ab = ab;
          pool_bc = bc;
          pool_ca = ca;
          three_hops = hops;
          known_ab = ab_eq;
          known_bc = bc_eq;
          known_ca = ca_eq;
          within_flash = v;
          within_cap = w;
          every_leg = pays;
        }
