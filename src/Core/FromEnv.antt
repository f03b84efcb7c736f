-- ===== src/Core/FromEnv.antt =====
-- `SkuaConfig::from_env` of bot/crates/core/src/config.rs, read section by section as the struct groups
-- its fields. The first variable that is missing or malformed ends it.
use Prim.Native.String.{String}
use skua.Prelude.{ℕ, Option, some}
use skua.Core.Config.{SkuaConfig}
use skua.Core.Environment.{
  Environment, Parsers, Result, loaded, ◌>>=◌, parse_unsigned, req, req_addr,
}

-- `String::from_str`, which never fails
abbrev pub text : String → Option String
text raw = some raw

pub record Network : Type 0 where
  pub chain_id : ℕ
  pub rpc_ws_url : String
  pub rpc_http_url : String
  pub rpc_fallback_url : String

pub record Contracts : Type 0 where
  pub balancer_vault : ℕ
  pub hyperlend_pool : ℕ
  pub contract_evm_arb : ℕ
  pub contract_liquidation : ℕ
  pub contract_tri_arb : ℕ
  pub contract_stable_depeg : ℕ
  pub profit_wallet : ℕ

pub record Indices : Type 0 where
  pub hype_market_index : ℕ
  pub usdc_token_index : ℕ

pub record Amounts (F : Type 0) : Type 0 where
  pub s1_min_profit_usd : F
  pub s2_min_profit_usd : F
  pub s3_min_profit_usd : F
  pub s4_min_profit_usd : F
  pub s1_signal_threshold_bps : F
  pub s4_depeg_threshold_bps : F
  pub hard_cap_usd : F
  pub gas_roi_multiplier : F

pub record Multipliers : Type 0 where
  pub arb : ℕ
  pub liquidation : ℕ
  pub depeg : ℕ

pub record Breakers (F : Type 0) : Type 0 where
  pub max_consecutive_reverts : ℕ
  pub gas_kill_threshold_hype : F
  pub gas_kill_window_secs : ℕ

pub record Services : Type 0 where
  pub api_port : ℕ
  pub api_key : String
  pub telegram_bot_token : String
  pub telegram_chat_id : String

unfoldable pub read_network : Environment → Result Network
unfolding req parse_unsigned
read_network env = do
  chain_id ← req env (parse_unsigned 64) "SKUA_CHAIN_ID"
  ws ← req env text "SKUA_RPC_WS_URL"
  http ← req env text "SKUA_RPC_HTTP_URL"
  fallback ← req env text "SKUA_RPC_FALLBACK_URL"
  loaded (record {
    chain_id = chain_id;
    rpc_ws_url = ws;
    rpc_http_url = http;
    rpc_fallback_url = fallback;
  })

unfoldable pub read_contracts : Environment → (String → Option ℕ) → Result Contracts
unfolding req_addr
read_contracts env address = do
  vault ← req_addr env address "SKUA_BALANCER_VAULT"
  pool ← req_addr env address "SKUA_HYPERLEND_POOL"
  evm_arb ← req_addr env address "SKUA_CONTRACT_EVM_ARB"
  liquidation ← req_addr env address "SKUA_CONTRACT_LIQ"
  tri_arb ← req_addr env address "SKUA_CONTRACT_TRI"
  stable_depeg ← req_addr env address "SKUA_CONTRACT_DEPEG"
  profit_wallet ← req_addr env address "SKUA_PROFIT_WALLET"
  loaded (record {
    balancer_vault = vault;
    hyperlend_pool = pool;
    contract_evm_arb = evm_arb;
    contract_liquidation = liquidation;
    contract_tri_arb = tri_arb;
    contract_stable_depeg = stable_depeg;
    profit_wallet = profit_wallet;
  })

unfoldable pub read_indices : Environment → Result Indices
unfolding req parse_unsigned
read_indices env = do
  market ← req env (parse_unsigned 32) "SKUA_HYPE_MARKET_INDEX"
  token ← req env (parse_unsigned 32) "SKUA_USDC_TOKEN_INDEX"
  loaded (record { hype_market_index = market; usdc_token_index = token })

unfoldable pub read_multipliers : Environment → Result Multipliers
unfolding req parse_unsigned
read_multipliers env = do
  arb ← req env (parse_unsigned 64) "SKUA_GASPRICE_ARB"
  liquidation ← req env (parse_unsigned 64) "SKUA_GASPRICE_LIQ"
  depeg ← req env (parse_unsigned 64) "SKUA_GASPRICE_DEPEG"
  loaded (record { arb = arb; liquidation = liquidation; depeg = depeg })

unfoldable pub read_services : Environment → Result Services
unfolding req parse_unsigned
read_services env = do
  port ← req env (parse_unsigned 16) "SKUA_API_PORT"
  key ← req env text "SKUA_API_KEY"
  token ← req env text "SKUA_TELEGRAM_BOT_TOKEN"
  chat ← req env text "SKUA_TELEGRAM_CHAT_ID"
  loaded (record {
    api_port = port;
    api_key = key;
    telegram_bot_token = token;
    telegram_chat_id = chat;
  })

module _ {F : Type 0} where
  unfoldable pub read_amounts : Environment → (String → Option F) → Result (Amounts F)
  unfolding req
  read_amounts env float = do
    s1 ← req env float "SKUA_S1_MIN_PROFIT_USD"
    s2 ← req env float "SKUA_S2_MIN_PROFIT_USD"
    s3 ← req env float "SKUA_S3_MIN_PROFIT_USD"
    s4 ← req env float "SKUA_S4_MIN_PROFIT_USD"
    signal ← req env float "SKUA_S1_SIGNAL_BPS"
    depeg ← req env float "SKUA_S4_DEPEG_BPS"
    cap ← req env float "SKUA_HARD_CAP_USD"
    roi ← req env float "SKUA_GAS_ROI_MULTIPLIER"
    loaded (record {
      s1_min_profit_usd = s1;
      s2_min_profit_usd = s2;
      s3_min_profit_usd = s3;
      s4_min_profit_usd = s4;
      s1_signal_threshold_bps = signal;
      s4_depeg_threshold_bps = depeg;
      hard_cap_usd = cap;
      gas_roi_multiplier = roi;
    })

  unfoldable pub read_breakers : Environment → (String → Option F) → Result (Breakers F)
  unfolding req parse_unsigned
  read_breakers env float = do
    reverts ← req env (parse_unsigned 32) "SKUA_MAX_CONSECUTIVE_REVERTS"
    gas ← req env float "SKUA_GAS_KILL_HYPE"
    window ← req env (parse_unsigned 64) "SKUA_GAS_KILL_WINDOW_SECS"
    loaded (record {
      max_consecutive_reverts = reverts;
      gas_kill_threshold_hype = gas;
      gas_kill_window_secs = window;
    })

  unfoldable pub from_env : Environment → Parsers F → Result (SkuaConfig F)
  unfolding read_network read_contracts read_indices read_amounts read_multipliers read_breakers
      read_services
  from_env env parsers = do
    network ← read_network env
    contracts ← read_contracts env parsers.address
    indices ← read_indices env
    amounts ← read_amounts env parsers.float
    multipliers ← read_multipliers env
    breakers ← read_breakers env parsers.float
    services ← read_services env
    loaded (record {
      chain_id = network.chain_id;
      rpc_ws_url = network.rpc_ws_url;
      rpc_http_url = network.rpc_http_url;
      rpc_fallback_url = network.rpc_fallback_url;
      balancer_vault = contracts.balancer_vault;
      hyperlend_pool = contracts.hyperlend_pool;
      contract_evm_arb = contracts.contract_evm_arb;
      contract_liquidation = contracts.contract_liquidation;
      contract_tri_arb = contracts.contract_tri_arb;
      contract_stable_depeg = contracts.contract_stable_depeg;
      profit_wallet = contracts.profit_wallet;
      hype_market_index = indices.hype_market_index;
      usdc_token_index = indices.usdc_token_index;
      s1_min_profit_usd = amounts.s1_min_profit_usd;
      s2_min_profit_usd = amounts.s2_min_profit_usd;
      s3_min_profit_usd = amounts.s3_min_profit_usd;
      s4_min_profit_usd = amounts.s4_min_profit_usd;
      s1_signal_threshold_bps = amounts.s1_signal_threshold_bps;
      s4_depeg_threshold_bps = amounts.s4_depeg_threshold_bps;
      hard_cap_usd = amounts.hard_cap_usd;
      gas_roi_multiplier = amounts.gas_roi_multiplier;
      gasprice_multiplier_arb = multipliers.arb;
      gasprice_multiplier_liquidation = multipliers.liquidation;
      gasprice_multiplier_depeg = multipliers.depeg;
      max_consecutive_reverts = breakers.max_consecutive_reverts;
      gas_kill_threshold_hype = breakers.gas_kill_threshold_hype;
      gas_kill_window_secs = breakers.gas_kill_window_secs;
      api_port = services.api_port;
      api_key = services.api_key;
      telegram_bot_token = services.telegram_bot_token;
      telegram_chat_id = services.telegram_chat_id;
    })
