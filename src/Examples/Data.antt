-- ===== src/Examples/Data.antt =====
-- The data of the worked examples: a configuration, a state, pools and wallets.
use skua.Prelude.{ℕ, Bool, true, false, some, List, [], ◌∷◌}
use skua.Float.Grid.{Grid, num}
use skua.Core.Config.{SkuaConfig}
use skua.Core.State.{BotState, new_state}
use skua.Core.Types.{PoolState, constant_product}
use skua.Executor.WalletPool.{WalletSlot, WalletPool}
use skua.World.{World, Tx, place_order, Receipt, mined}
use skua.Simulation.Gate.{encode_answer}
use skua.Dispatch
use skua.Dispatch.{Plan}

abbrev pub usd : ℕ → Grid
usd n = num n

abbrev pub config : SkuaConfig Grid
config = record {
  chain_id = 999;
  rpc_ws_url = "ws";
  rpc_http_url = "http";
  rpc_fallback_url = "fallback";
  balancer_vault = 1;
  hyperlend_pool = 2;
  contract_evm_arb = 3;
  contract_liquidation = 4;
  contract_tri_arb = 5;
  contract_stable_depeg = 6;
  profit_wallet = 7;
  hype_market_index = 8;
  usdc_token_index = 9;
  s1_min_profit_usd = usd 5_000_000;
  s2_min_profit_usd = usd 1_000_000;
  s3_min_profit_usd = usd 1_000_000;
  s4_min_profit_usd = usd 5_000_000;
  s1_signal_threshold_bps = usd 30_000_000;
  s4_depeg_threshold_bps = usd 30_000_000;
  hard_cap_usd = usd 100_000_000_000;
  gas_roi_multiplier = usd 2_000_000;
  gasprice_multiplier_arb = 3;
  gasprice_multiplier_liquidation = 2;
  gasprice_multiplier_depeg = 2;
  max_consecutive_reverts = 3;
  gas_kill_threshold_hype = usd 50_000_000;
  gas_kill_window_secs = 3600;
  api_port = 8080;
  api_key = "key";
  telegram_bot_token = "bot";
  telegram_chat_id = "chat";
}

abbrev pub pool : ℕ → ℕ → ℕ → ℕ → PoolState Grid
pool token_a token_b reserve_a reserve_b = record {
  reserve_a = reserve_a;
  reserve_b = reserve_b;
  token_a = token_a;
  token_b = token_b;
  fee_bps = 0;
  pool_type = constant_product;
  last_updated = 0;
  amp = num 0;
}

-- Three pools of three tokens; the last one gives two for one.
abbrev pub pools : List (ℕ × PoolState Grid)
pools = (10, pool 1 2 1000 1000) ∷ (11, pool 2 3 1000 1000) ∷ (12, pool 3 1 1000 2000) ∷ []

abbrev pub bot : BotState Grid
bot = record new_state {
  current_block = 100;
  current_base_fee = 1_000_000_000;
  hype_price_usd = 2_500_000_000;
  pool_states = pools;
  s1_enabled = true;
  s2_enabled = true;
  s3_enabled = true;
  s4_enabled = true;
}

abbrev pub slot : ℕ → ℕ → Bool → WalletSlot
slot address last_used_ms in_use = record {
  address = address;
  nonce = 7;
  last_used_ms = last_used_ms;
  in_use = in_use;
}

abbrev pub five_wallets : WalletPool
five_wallets =
    slot 1 50 false ∷ slot 2 20 true ∷ slot 3 40 false ∷ slot 4 30 false ∷ slot 5 60 false ∷ []

abbrev pub claimed_wallets : WalletPool
claimed_wallets = slot 1 50 true ∷ slot 2 20 true ∷ slot 3 40 true ∷ []

abbrev pub world : World Grid
world = record { bot = bot; wallets = five_wallets; sent = []; metrics = [] }

abbrev pub halted_world : World Grid
halted_world = record world { bot = record bot { kill_switch = true } }

abbrev pub receipt : Bool → Receipt
receipt status = record { status = status; gas_used = 500_000; transaction_hash = 77 }

abbrev pub tx : Tx
tx = record {
  from = 3;
  to = 4;
  input = place_order 8 false 100 5 3 0;
  nonce = 7;
  gas_limit = 900_000;
  gas_price = 2_000_000_000;
  chain_id = 999;
}

-- Whether the transaction is signed; the simulation reports 3.55875 tokens of 6 decimals.
abbrev pub env : Bool → Dispatch.Env
env signed = record {
  signed = signed;
  send_answer = mined (receipt true);
  sim_answer = some (encode_answer true 3_558_750);
  released_at = 90;
}
