-- ===== src/Core/Required.antt =====
-- What `SkuaConfig::from_env` of bot/crates/core/src/config.rs requires and checks.
use Prim.Native.String.{String}
use skua.Prelude.{◌<◌, ◌^◌, ◌≡◌, ◌≢◌, subst, List, ◌++◌, All, All-append}
use skua.Core.Config.{SkuaConfig}
use skua.Core.Environment.{Environment, Parsers, loaded, bind_lem, loaded-injective}
use skua.Core.FromEnv.{
  read_network, read_contracts, read_indices, read_amounts, read_multipliers, read_breakers,
  read_services, from_env,
}
use skua.Core.Loaded.{
  Given, network_keys, contracts_keys, indices_keys, amounts_keys, multipliers_keys, breakers_keys,
  services_keys, read_network_lem, read_contracts_lem, read_indices_lem, read_amounts_lem,
  read_multipliers_lem, read_breakers_lem, read_services_lem,
}

abbrev scalar_keys : List String
scalar_keys = amounts_keys ++ (multipliers_keys ++ (breakers_keys ++ services_keys))

-- The 31 variables.
abbrev pub required_keys : List String
required_keys = network_keys ++ (contracts_keys ++ (indices_keys ++ scalar_keys))

module _ {F : Type 0} where
  pub record IsLoaded (config : SkuaConfig F) : Type 0 where
    pub chain_id_low : config.chain_id < 2 ^ 64
    pub vault_set : config.balancer_vault ≢ 0
    pub pool_set : config.hyperlend_pool ≢ 0
    pub evm_arb_set : config.contract_evm_arb ≢ 0
    pub liquidation_set : config.contract_liquidation ≢ 0
    pub tri_arb_set : config.contract_tri_arb ≢ 0
    pub stable_depeg_set : config.contract_stable_depeg ≢ 0
    pub profit_wallet_set : config.profit_wallet ≢ 0
    pub market_low : config.hype_market_index < 2 ^ 32
    pub token_low : config.usdc_token_index < 2 ^ 32
    pub arb_low : config.gasprice_multiplier_arb < 2 ^ 64
    pub liquidation_low : config.gasprice_multiplier_liquidation < 2 ^ 64
    pub depeg_low : config.gasprice_multiplier_depeg < 2 ^ 64
    pub reverts_low : config.max_consecutive_reverts < 2 ^ 32
    pub window_low : config.gas_kill_window_secs < 2 ^ 64
    pub port_low : config.api_port < 2 ^ 16

  -- A configuration that is loaded had all 31 variables set, none of its seven addresses is zero, and
  -- each of its integers fits the width of its type.
  pub from_env-IsLoaded :
      (env : Environment) (parsers : Parsers F) {config : SkuaConfig F}
      → from_env env parsers ≡ loaded config
      → All (Given env) required_keys × IsLoaded config
  unfolding from_env
  from_env-IsLoaded env parsers {config} e =
      let (network, r1, e1) = bind_lem (read_network env) _ e in
      let (contracts, r2, e2) = bind_lem (read_contracts env parsers.address) _ e1 in
      let (indices, r3, e3) = bind_lem (read_indices env) _ e2 in
      let (amounts, r4, e4) = bind_lem (read_amounts env parsers.float) _ e3 in
      let (multipliers, r5, e5) = bind_lem (read_multipliers env) _ e4 in
      let (breakers, r6, e6) = bind_lem (read_breakers env parsers.float) _ e5 in
      let (services, r7, e7) = bind_lem (read_services env) _ e6 in
      let (k1, chain) = read_network_lem env r1 in
      let (k2, vault, pool, evm, liq, tri, depeg, wallet) =
        read_contracts_lem env parsers.address r2 in
      let (k3, market, token) = read_indices_lem env r3 in
      let k4 = read_amounts_lem env parsers.float r4 in
      let (k5, arb, liquidation, stable) = read_multipliers_lem env r5 in
      let (k6, reverts, window) = read_breakers_lem env parsers.float r6 in
      let (k7, port) = read_services_lem env r7 in
      let k67 = All-append (Given env) breakers_keys services_keys k6 k7 in
      let k57 = All-append (Given env) multipliers_keys (breakers_keys ++ services_keys) k5 k67 in
      let k47 =
        All-append (Given env) amounts_keys (multipliers_keys ++ (breakers_keys ++ services_keys))
          k4 k57 in
      let k37 = All-append (Given env) indices_keys scalar_keys k3 k47 in
      let keys =
        All-append (Given env) network_keys (contracts_keys ++ (indices_keys ++ scalar_keys)) k1
          (All-append (Given env) contracts_keys (indices_keys ++ scalar_keys) k2 k37) in
      (
        keys,
        subst IsLoaded (loaded-injective _ _ e7) (record {
          chain_id_low = chain;
          vault_set = vault;
          pool_set = pool;
          evm_arb_set = evm;
          liquidation_set = liq;
          tri_arb_set = tri;
          stable_depeg_set = depeg;
          profit_wallet_set = wallet;
          market_low = market;
          token_low = token;
          arb_low = arb;
          liquidation_low = liquidation;
          depeg_low = stable;
          reverts_low = reverts;
          window_low = window;
          port_low = port;
        }),
      )
