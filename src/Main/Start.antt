-- ===== src/Main/Start.antt =====
-- What `main` of bot/src/main.rs does before its evaluation loop.
use Prim.Native.String.{String}
use skua.Prelude.{
  ℕ, ◌*◌, ◌/◌, ◌%◌, ◌^◌, Bool, true, false, List, [], Option, none, some, ltb, if◌then◌else◌,
}
use skua.Float.{Float}
use skua.Core.Config.{SkuaConfig}
use skua.Core.State.{BotState, new_state}
use skua.Core.Environment.{
  Environment, Parsers, Result, loaded, failed, unavailable, panicked, ◌>>=◌,
}
use skua.Core.FromEnv.{from_env}
use skua.Executor.WalletPool.{WalletPool, fetch_initial_nonces, new_pool}
use skua.HyperCore.Precompile.{refresh_hype_price}
use skua.Liquidation.Monitor.{ReserveConfig, RegisteredAsset, load_registered_assets}
use skua.StableDepeg.{StableToken}
use skua.World.{ok, err}
use skua.EvmArb.Sending.{new_executor}
use skua.Main.Program.{Bot}
use skua.Main.Startup.{load_signers_from_env, hyperlend_asset_addrs, load_stable_tokens_from_env}

-- What the node answers while the program starts: whether the providers connect, the nonce of an
-- address, the price, the two fees, and the configuration of a reserve.
pub record Node : Type 0 where
  pub connected : Bool
  pub transaction_count : ℕ → Option ℕ
  pub price : Option ℕ
  pub hl_raw : Option ℕ
  pub bal_raw : Option ℕ
  pub reserve_config : ℕ → Option ReserveConfig

pub record Started (F : Type 0) : Type 0 where
  pub config : SkuaConfig F
  pub assets : List (RegisteredAsset F)
  pub stables : List StableToken
  pub bot : Bot F

-- The wallet pool, from the private keys and the nonces.
unfoldable pub open_wallets :
    Environment → (signer : String → Option ℕ) → (ℕ → Option ℕ) → Result WalletPool
unfolding load_signers_from_env fetch_initial_nonces new_pool
open_wallets env signer transaction_count = do
  signers ← load_signers_from_env env signer
  elim (fetch_initial_nonces transaction_count signers) [
    | none ↦ failed unavailable
    | some nonces ↦ elim (new_pool signers nonces) [
      | none ↦ failed panicked
      | some pool ↦ loaded pool
    ]
  ]

module _ {F : Type 0} where
  -- The state as it is created, with S2 and S3 enabled.
  unfoldable pub first_state : BotState F
  first_state = record new_state {
    s1_enabled = false;
    s2_enabled = true;
    s3_enabled = true;
    s4_enabled = false;
  }

  unfoldable pub fee_refresh_once : (hl_raw bal_raw : Option ℕ) → BotState F → Result (BotState F)
  fee_refresh_once none bal_raw s = failed unavailable
  fee_refresh_once (some hl_fee) none s = failed unavailable
  fee_refresh_once (some hl_fee) (some bal_wad) s =
      if ltb bal_wad (2 ^ 128)
      then loaded (record s {
        hyperlend_fee_bps = hl_fee % 2 ^ 64;
        balancer_fee_bps = (bal_wad * 10_000 % 2 ^ 128) / 1_000_000_000_000_000_000 % 2 ^ 64;
      })
      else failed unavailable

  unfoldable pub first_price : Option ℕ → BotState F → Result (BotState F)
  unfolding refresh_hype_price
  first_price price s =
      let r = refresh_hype_price price s in
      elim r.0 [ err e ↦ failed unavailable | ok _ ↦ loaded r.1 ]

module _ {F : Type 0} ⦃fl : Float F⦄ where
  -- The assets that S2 monitors; a failed query leaves none.
  unfoldable pub registered_assets : (ℕ → Option ReserveConfig) → List ℕ → List (RegisteredAsset F)
  unfolding load_registered_assets
  registered_assets query addrs = elim (load_registered_assets query addrs) [
    | none ↦ []
    | some assets ↦ assets
  ]

  -- From the configuration to the channel of 256 events; the loops are spawned after that.
  unfoldable pub start : Environment → Parsers F → Node → Result (Started F)
  unfolding from_env open_wallets first_state first_price fee_refresh_once hyperlend_asset_addrs
      registered_assets load_stable_tokens_from_env new_executor
  start env parsers node = do
    config ← from_env env parsers
    let s = first_state
    _ ← if node.connected then loaded tt else failed unavailable
    wallet_pool ← open_wallets env parsers.signer node.transaction_count
    priced ← first_price node.price s
    state ← fee_refresh_once node.hl_raw node.bal_raw priced
    let addrs = hyperlend_asset_addrs env parsers.address
    loaded (record {
      config = config;
      assets = registered_assets node.reserve_config addrs;
      stables = load_stable_tokens_from_env env parsers.address;
      bot = record {
        s1 = record {
          executor = new_executor config.s1_signal_threshold_bps;
          world = record { bot = state; wallets = wallet_pool; sent = []; metrics = [] };
        };
        block_channel = record { capacity = 256; events = [] };
        tasks = [];
        alerts = [];
        last_refresh_block = 0;
        last_reconcile = 0;
      };
    })
