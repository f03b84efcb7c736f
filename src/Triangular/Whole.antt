-- ===== src/Triangular/Whole.antt =====
-- Strategy S3 from the pools to the transaction: `try_execute_best_route` of
-- bot/crates/strategies/triangular/src/executor.rs, with `evaluate_route` of graph.rs as its evaluation.
use skua.Prelude.{ℕ, ◌≡◌, ap, sym, true, ◌⊎◌, inl, inr, Option, none, some, List}
use mathlib.Core.Option.{some-ne-none}
use skua.Float.{Float}
use skua.Float.Laws.{IsOrdered, IsRounded, IsSigned, IsSmall}
use skua.Core.Config.{SkuaConfig}
use skua.Core.State.{BotState}
use skua.Core.Types.{SizingResult}
use skua.Simulation.Amm.{AmmPool}
use skua.World.{World}
use skua.Dispatch.{Env}
use skua.Triangular.Graph.{ArbRoute, build}
use skua.Triangular.Executor.{try_execute_best_route}
use skua.Triangular.Evaluate.{evaluate_route}
use skua.Triangular.Sized.{IsEvaluated, evaluate_route-IsEvaluated}
use skua.Triangular.Justified.{IsThreeHops, IsTriangularArb, try_execute_best_route-sent}

-- A size, unless there is none or the fuel has run out.
abbrev pub size_of : {A : Type 0} → Option (Option A) → Option A
size_of none = none
size_of (some r) = r

size_of-some : {A : Type 0} (o : Option (Option A)) {a : A} → size_of o ≡ some a → o ≡ some (some a)
size_of-some none e = absurd (some-ne-none _ (sym e))
size_of-some (some r) e = ap some e

module _ {F : Type 0} ⦃fl : Float F⦄ (fuel : ℕ) (pools : List (AmmPool F)) (config : SkuaConfig F)
    (flash price : F) where
  -- The evaluation that the executor hands to the graph, in a state of the bot.
  abbrev pub evaluation : BotState F → ArbRoute → Option (SizingResult F)
  evaluation state route = size_of (evaluate_route fuel pools route state config flash price)

  -- The transactions are as before, or one more: for a profitable cycle of three hops, of a size that
  -- keeps what a size promises.
  abbrev pub TradesWithinCaps :
      IsOrdered F → IsRounded F → IsSigned F → Env → (before after : World F) → Type 0
  TradesWithinCaps ord rnd signs env w v =
      (v.sent ≡ w.sent)
      ⊎ (route : ArbRoute) × (z : SizingResult F) × (w.bot.s3_enabled ≡ true)
        × IsThreeHops (build w.bot.pool_states) route
        × IsEvaluated ord rnd signs w.bot config flash route z
        × IsTriangularArb config env price route z w v

  -- Strategy S3 with the evaluation of routes as written sends at most one transaction, and only while it
  -- is enabled and the bot is not halted, for a profitable cycle of three hops through known pools. Its
  -- amount is at most the flash liquidity and at most the operator's cap and not zero, every pool gives
  -- something out at that amount, its profit is over the minimum, and its simulation has passed. The flash
  -- liquidity and the cap are taken not to be NaN, and the cap not too large to be doubled.
  pub try_execute_best_route_within_caps :
      (ord : IsOrdered F) (rnd : IsRounded F) (signs : IsSigned F) (env : Env) (w : World F)
      → fl.le flash flash ≡ true
      → fl.le config.hard_cap_usd config.hard_cap_usd ≡ true
      → IsSmall config.hard_cap_usd
      → TradesWithinCaps ord rnd signs env w
          (try_execute_best_route config env (evaluation w.bot) price w).1
  try_execute_best_route_within_caps ord rnd signs env w flash_number cap_number cap_small =
      elim (try_execute_best_route-sent config env (evaluation w.bot) price w) [
        | inl same ↦ inl same
        | inr (route, z, on, hops, sized, arb) ↦ inr (
          route,
          z,
          on,
          hops,
          evaluate_route-IsEvaluated ord rnd signs fuel pools route w.bot config flash price
              flash_number cap_number cap_small
              (size_of-some (evaluate_route fuel pools route w.bot config flash price) sized),
          arb,
        )
      ]
