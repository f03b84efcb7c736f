-- ===== src/HyperCore/Precompile.antt =====
-- bot/crates/hypercore/src/precompile.rs. What a read of the precompile answers is an argument, none
-- for an error.
use skua.Prelude.{ℕ, Option, none, some, ◌==◌, if◌then◌else◌}
use skua.Float.{Float}
use skua.Core.State.{BotState}
use skua.World.{Outcome, ok, err, rpc_failed, price_zero}

-- `spot_px` and `oracle_px`
unfoldable pub read_price : Option ℕ → Outcome ℕ
read_price none = err rpc_failed
read_price (some price) = if price == 0 then err price_zero else ok price

-- `spot_balance` and `funding_rate`
unfoldable pub read_value : Option ℕ → Outcome ℕ
read_value none = err rpc_failed
read_value (some value) = ok value

module _ {F : Type 0} where
  unfoldable pub refresh_hype_price : Option ℕ → BotState F → Outcome (Unit {0}) × BotState F
  unfolding read_price
  refresh_hype_price answer s = elim (read_price answer) [
    | err e ↦ (err e, s)
    | ok price_raw ↦ (ok tt, record s { hype_price_usd = price_raw })
  ]

module _ {F : Type 0} ⦃fl : Float F⦄ where
  unfoldable pub precompile_price_to_f64 : ℕ → F
  precompile_price_to_f64 raw = fl.◌⊘◌ (fl.cast raw) (fl.dec 100_000_000 0)
