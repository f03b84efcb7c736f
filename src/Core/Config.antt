-- ===== src/Core/Config.antt =====
-- `SkuaConfig` of bot/crates/core/src/config.rs.
use Prim.Native.String.{String}
use skua.Prelude.{ℕ}

pub record SkuaConfig (F : Type 0) : Type 0 where
  pub chain_id : ℕ
  pub rpc_ws_url : String
  pub rpc_http_url : String
  pub rpc_fallback_url : String
  pub balancer_vault : ℕ
  pub hyperlend_pool : ℕ
  pub contract_evm_arb : ℕ
  pub contract_liquidation : ℕ
  pub contract_tri_arb : ℕ
  pub contract_stable_depeg : ℕ
  pub profit_wallet : ℕ
  pub hype_market_index : ℕ
  pub usdc_token_index : ℕ
  pub s1_min_profit_usd : F
  pub s2_min_profit_usd : F
  pub s3_min_profit_usd : F
  pub s4_min_profit_usd : F
  pub s1_signal_threshold_bps : F
  pub s4_depeg_threshold_bps : F
  pub hard_cap_usd : F
  pub gas_roi_multiplier : F
  pub gasprice_multiplier_arb : ℕ
  pub gasprice_multiplier_liquidation : ℕ
  pub gasprice_multiplier_depeg : ℕ
  pub max_consecutive_reverts : ℕ
  pub gas_kill_threshold_hype : F
  pub gas_kill_window_secs : ℕ
  pub api_port : ℕ
  pub api_key : String
  pub telegram_bot_token : String
  pub telegram_chat_id : String
