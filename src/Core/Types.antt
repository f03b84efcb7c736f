-- ===== src/Core/Types.antt =====
-- bot/crates/core/src/types.rs and the structs of state.rs. An address is its number.
use Prim.Native.String.{String}
use skua.Prelude.{ℕ, Bool, List}

pub data FlashProvider : Type 0 where
  balancer hyper_lend : FlashProvider

pub data BlockEvent : Type 0 where
  new_block : ℕ → BlockEvent
  pool_updated : ℕ → BlockEvent
  position_updated : ℕ → BlockEvent

abbrev pub PriceMap : Type 0 → Type 0
PriceMap F = List (ℕ × F)

pub record SizingResult (F : Type 0) : Type 0 where
  pub optimal_amount_wei : ℕ
  pub optimal_amount_usd : F
  pub expected_profit_usd : F
  pub flash_provider : FlashProvider

pub record SimulationResult (F : Type 0) : Type 0 where
  pub success : Bool
  pub profit_usd : F

pub data PoolType : Type 0 where
  balancer_v3_stable_pool balancer_v3_weighted_pool uni_v3 constant_product : PoolType

pub record PoolState (F : Type 0) : Type 0 where
  pub reserve_a : ℕ
  pub reserve_b : ℕ
  pub token_a : ℕ
  pub token_b : ℕ
  pub fee_bps : ℕ
  pub pool_type : PoolType
  pub last_updated : ℕ
  pub amp : F

pub record CollateralAsset (F : Type 0) : Type 0 where
  pub token : ℕ
  pub amount : ℕ
  pub ltv : F
  pub liq_bonus : F
  pub decimals : ℕ

pub record DebtAsset : Type 0 where
  pub token : ℕ
  pub amount : ℕ
  pub decimals : ℕ

pub record BorrowerPosition (F : Type 0) : Type 0 where
  pub address : ℕ
  pub collateral_assets : List (CollateralAsset F)
  pub debt_assets : List DebtAsset
  pub computed_hf : F
  pub last_block : ℕ

pub record OrderBook (F : Type 0) : Type 0 where
  pub coin : String
  pub best_bid : F
  pub best_ask : F
  pub bid_depth : List (F × F)
  pub ask_depth : List (F × F)
  pub last_updated_ms : ℕ
