-- ===== src/Examples/Start.antt =====
-- A worked example of the start: an environment that is read, and what the program then does.
use Prim.Native.Char.{Char, code}
use Prim.Native.String.{String}
use skua.Prelude.{
  ◌↔◌, same_text, ℕ, ◌*◌, ◌≡◌, refl, true, none, some, List, [], ◌∷◌, All, if◌then◌else◌,
}
use mathlib.Core.Option
use skua.Float.Grid.{Grid, num, grid_float}
use skua.Core.Environment.{Environment, Parsers, parse_unsigned}
use skua.Core.FromEnv.{from_env}
use skua.Core.Loaded.{Given}
use skua.Core.Required.{required_keys, IsLoaded, from_env-IsLoaded}
use skua.Main.Start.{Node, Started, start, open_wallets}
use skua.Main.Ready.{OpensWell, open_wallets-OpensWell}
use skua.Core.Config.{SkuaConfig}
use skua.Core.State.{BotState, new_state}
use skua.Executor.WalletPool.{WalletPool, new_slot}
use skua.EvmArb.Sending.{new_executor}
use skua.StableDepeg.{StableToken}
use skua.Liquidation.Monitor.{RegisteredAsset}
use skua.Main.Program.{run}
use skua.Examples.Program.{a_block}
use skua.Main.Lines.{IsLineOf, parse_stable-IsLineOf_iff}
use skua.Main.Startup.{split, parse_stable}
use skua.Main.Begun.{IsReady, start-IsReady, start-run_sends_nothing}

abbrev variables : List (String × String)
variables =
    ("SKUA_CHAIN_ID", "999")
    ∷ ("SKUA_RPC_WS_URL", "ws")
    ∷ ("SKUA_RPC_HTTP_URL", "http")
    ∷ ("SKUA_RPC_FALLBACK_URL", "fallback")
    ∷ ("SKUA_BALANCER_VAULT", "1")
    ∷ ("SKUA_HYPERLEND_POOL", "2")
    ∷ ("SKUA_CONTRACT_EVM_ARB", "3")
    ∷ ("SKUA_CONTRACT_LIQ", "4")
    ∷ ("SKUA_CONTRACT_TRI", "5")
    ∷ ("SKUA_CONTRACT_DEPEG", "6")
    ∷ ("SKUA_PROFIT_WALLET", "7")
    ∷ ("SKUA_HYPE_MARKET_INDEX", "107")
    ∷ ("SKUA_USDC_TOKEN_INDEX", "0")
    ∷ ("SKUA_S1_MIN_PROFIT_USD", "5")
    ∷ ("SKUA_S2_MIN_PROFIT_USD", "5")
    ∷ ("SKUA_S3_MIN_PROFIT_USD", "5")
    ∷ ("SKUA_S4_MIN_PROFIT_USD", "5")
    ∷ ("SKUA_S1_SIGNAL_BPS", "30")
    ∷ ("SKUA_S4_DEPEG_BPS", "30")
    ∷ ("SKUA_HARD_CAP_USD", "1000")
    ∷ ("SKUA_GAS_ROI_MULTIPLIER", "2")
    ∷ ("SKUA_GASPRICE_ARB", "3")
    ∷ ("SKUA_GASPRICE_LIQ", "2")
    ∷ ("SKUA_GASPRICE_DEPEG", "2")
    ∷ ("SKUA_MAX_CONSECUTIVE_REVERTS", "3")
    ∷ ("SKUA_GAS_KILL_HYPE", "50")
    ∷ ("SKUA_GAS_KILL_WINDOW_SECS", "3600")
    ∷ ("SKUA_API_PORT", "8080")
    ∷ ("SKUA_API_KEY", "key")
    ∷ ("SKUA_TELEGRAM_BOT_TOKEN", "token")
    ∷ ("SKUA_TELEGRAM_CHAT_ID", "chat")
    ∷ ("SKUA_BOT_KEY_1", "0x11")
    ∷ ("SKUA_BOT_KEY_2", "12")
    ∷ ("SKUA_BOT_KEY_3", "13")
    ∷ ("SKUA_BOT_KEY_4", "0x14")
    ∷ ("SKUA_BOT_KEY_5", "15")
    ∷ ("SKUA_BOT_KEY_6", "16")
    ∷ ("SKUA_HYPERLEND_ASSETS", "21, 22,bad")
    ∷ ("SKUA_S4_STABLE_1", "USDC:31:0:6:41:42")
    ∷ []

abbrev find : List (String × String) → Environment
find [] key = none
find ((name, value) ∷ rest) key = if same_text name key then some value else find rest key

abbrev environment : Environment
environment = find variables

-- Addresses, amounts and keys as decimal numbers.
abbrev parsers : Parsers Grid
parsers = record {
  address = parse_unsigned 160;
  float = λ text. Option.map (λ n. num (n * 1_000_000)) (parse_unsigned 64 text);
  signer = parse_unsigned 256;
}

abbrev node : Node
node = record {
  connected = true;
  transaction_count = λ address. some 7;
  price = some 2_500_000_000;
  hl_raw = some 5;
  bal_raw = some 0;
  reserve_config = λ asset. some (record {
    decimals = 18;
    liquidation_threshold = 8_000;
    liquidation_bonus = 10_500;
    is_active = true;
  });
}

abbrev config : SkuaConfig Grid
config = record {
  chain_id = 999;
  rpc_ws_url = "ws";
  rpc_http_url = "http";
  rpc_fallback_url = "fallback";
  balancer_vault = 1;
  hyperlend_pool = 2;
  contract_evm_arb = 3;
  contract_liquidation = 4;
  contract_tri_arb = 5;
  contract_stable_depeg = 6;
  profit_wallet = 7;
  hype_market_index = 107;
  usdc_token_index = 0;
  s1_min_profit_usd = num 5_000_000;
  s2_min_profit_usd = num 5_000_000;
  s3_min_profit_usd = num 5_000_000;
  s4_min_profit_usd = num 5_000_000;
  s1_signal_threshold_bps = num 30_000_000;
  s4_depeg_threshold_bps = num 30_000_000;
  hard_cap_usd = num 1_000_000_000;
  gas_roi_multiplier = num 2_000_000;
  gasprice_multiplier_arb = 3;
  gasprice_multiplier_liquidation = 2;
  gasprice_multiplier_depeg = 2;
  max_consecutive_reverts = 3;
  gas_kill_threshold_hype = num 50_000_000;
  gas_kill_window_secs = 3600;
  api_port = 8080;
  api_key = "key";
  telegram_bot_token = "token";
  telegram_chat_id = "chat";
}

from_env-IsLoaded_example : All (Given environment) required_keys × IsLoaded config
unfolding from_env
from_env-IsLoaded_example = from_env-IsLoaded environment parsers refl

abbrev asset : ℕ → RegisteredAsset Grid
asset token = record {
  token = token;
  decimals = 18;
  liquidation_threshold = num 800_000;
  liquidation_bonus = num 1_050_000;
}

abbrev usdc : StableToken
usdc = record {
  token = 31;
  symbol = "USDC";
  oracle_token_index = 0;
  decimals = 6;
  pool_a = 41;
  pool_b = 42;
}

abbrev first_bot : BotState Grid
first_bot = record new_state {
  hype_price_usd = 2_500_000_000;
  hyperlend_fee_bps = 5;
  s2_enabled = true;
  s3_enabled = true;
}

-- The keys of the environment are hexadecimal only in name: the parser here reads digits.
abbrev six_wallets : WalletPool
six_wallets =
    new_slot 11 7
    ∷ new_slot 12 7
    ∷ new_slot 13 7
    ∷ new_slot 14 7
    ∷ new_slot 15 7
    ∷ new_slot 16 7
    ∷ []

abbrev started : Started Grid
started = record {
  config = config;
  assets = asset 21 ∷ asset 22 ∷ [];
  stables = usdc ∷ [];
  bot = record {
    s1 = record {
      executor = new_executor (num 30_000_000);
      world = record { bot = first_bot; wallets = six_wallets; sent = []; metrics = [] };
    };
    block_channel = record { capacity = 256; events = [] };
    tasks = [];
    alerts = [];
    last_refresh_block = 0;
    last_reconcile = 0;
  };
}

start-IsReady_example : IsReady started
unfolding start
start-IsReady_example = start-IsReady environment parsers node refl

start-run_sends_nothing_example :
    (run 5 config (asset 21 ∷ asset 22 ∷ []) (usdc ∷ []) a_block started.bot).s1.world.sent ≡ []
unfolding start
start-run_sends_nothing_example =
    start-run_sends_nothing environment parsers node {st = started} 5 a_block refl

open_wallets-OpensWell_example :
    OpensWell (open_wallets environment (parse_unsigned 256) (λ address. some 7))
open_wallets-OpensWell_example =
    open_wallets-OpensWell environment (parse_unsigned 256) (λ address. some 7)

abbrev colon : Char
colon = ":"

parse_stable-IsLineOf_iff_example :
    (parse_stable (parse_unsigned 160) (split (code colon) "USDC:31:0:6:41:42") ≡ some usdc)
    ↔ IsLineOf (parse_unsigned 160) colon "USDC:31:0:6:41:42" usdc
parse_stable-IsLineOf_iff_example =
    parse_stable-IsLineOf_iff (parse_unsigned 160) colon "USDC:31:0:6:41:42" usdc

-- The line of the example is read.
usdc_line : parse_stable (parse_unsigned 160) (split (code colon) "USDC:31:0:6:41:42") ≡ some usdc
unfolding parse_stable split
usdc_line = refl
