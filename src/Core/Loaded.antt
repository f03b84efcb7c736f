-- ===== src/Core/Loaded.antt =====
-- What a configuration that `from_env` has loaded promises (bot/crates/core/src/config.rs).
use Prim.Native.String.{String}
use mathlib.Core.Option.{some-ne-none}
use skua.Prelude.{ℕ, ◌<◌, ◌^◌, ◌≡◌, ◌≢◌, sym, ◌∙◌, subst, Option, none, List, [], ◌∷◌, All}
use skua.Core.Environment.{
  Environment, Result, loaded, ◌>>=◌, parse_unsigned, req, req_addr, bind_lem, req_lem,
  loaded-injective, req_addr_lem, parse_unsigned_bound,
}
use skua.Core.FromEnv.{
  text, Network, Contracts, Indices, Amounts, Multipliers, Breakers, Services, read_network,
  read_contracts, read_indices, read_amounts, read_multipliers, read_breakers, read_services,
}

-- The variables of each section.
abbrev pub network_keys : List String
network_keys =
    "SKUA_CHAIN_ID" ∷ "SKUA_RPC_WS_URL" ∷ "SKUA_RPC_HTTP_URL" ∷ "SKUA_RPC_FALLBACK_URL" ∷ []

abbrev pub contracts_keys : List String
contracts_keys =
    "SKUA_BALANCER_VAULT" ∷ "SKUA_HYPERLEND_POOL" ∷ "SKUA_CONTRACT_EVM_ARB" ∷ "SKUA_CONTRACT_LIQ"
    ∷ "SKUA_CONTRACT_TRI" ∷ "SKUA_CONTRACT_DEPEG" ∷ "SKUA_PROFIT_WALLET" ∷ []

abbrev pub indices_keys : List String
indices_keys = "SKUA_HYPE_MARKET_INDEX" ∷ "SKUA_USDC_TOKEN_INDEX" ∷ []

abbrev pub multipliers_keys : List String
multipliers_keys = "SKUA_GASPRICE_ARB" ∷ "SKUA_GASPRICE_LIQ" ∷ "SKUA_GASPRICE_DEPEG" ∷ []

abbrev pub services_keys : List String
services_keys =
    "SKUA_API_PORT" ∷ "SKUA_API_KEY" ∷ "SKUA_TELEGRAM_BOT_TOKEN" ∷ "SKUA_TELEGRAM_CHAT_ID" ∷ []

abbrev pub amounts_keys : List String
amounts_keys =
    "SKUA_S1_MIN_PROFIT_USD" ∷ "SKUA_S2_MIN_PROFIT_USD" ∷ "SKUA_S3_MIN_PROFIT_USD"
    ∷ "SKUA_S4_MIN_PROFIT_USD" ∷ "SKUA_S1_SIGNAL_BPS" ∷ "SKUA_S4_DEPEG_BPS" ∷ "SKUA_HARD_CAP_USD"
    ∷ "SKUA_GAS_ROI_MULTIPLIER" ∷ []

abbrev pub breakers_keys : List String
breakers_keys =
    "SKUA_MAX_CONSECUTIVE_REVERTS" ∷ "SKUA_GAS_KILL_HYPE" ∷ "SKUA_GAS_KILL_WINDOW_SECS" ∷ []

module _ (env : Environment) where
  abbrev pub Given : String → Type 0
  Given key = env key ≢ none

  given :
      {A : Type 0} (parse : String → Option A) (key : String) {a : A}
      → req env parse key ≡ loaded a
      → Given key
  given parse key e =
      let (raw, found, _) = req_lem env parse key e in λ unset. some-ne-none raw (sym found ∙ unset)

  -- A variable that is read, and what comes after it.
  read :
      {A B : Type 0} (parse : String → Option A) (key : String) (f : A → Result B) {b : B}
      → (req env parse key >>= f) ≡ loaded b
      → Given key × (a : A) × (f a ≡ loaded b)
  read parse key f e =
      let (a, found, past) = bind_lem (req env parse key) f e in (given parse key found, a, past)

  read_unsigned :
      {B : Type 0} (w : ℕ) (key : String) (f : ℕ → Result B) {b : B}
      → (req env (parse_unsigned w) key >>= f) ≡ loaded b
      → Given key × (a : ℕ) × (a < 2 ^ w) × (f a ≡ loaded b)
  read_unsigned w key f e =
      let (a, found, past) = bind_lem (req env (parse_unsigned w) key) f e in
      let (raw, _, parsed) = req_lem env (parse_unsigned w) key found in
      (given (parse_unsigned w) key found, a, parse_unsigned_bound w raw parsed, past)

  read_addr :
      {B : Type 0} (parse : String → Option ℕ) (key : String) (f : ℕ → Result B) {b : B}
      → (req_addr env parse key >>= f) ≡ loaded b
      → Given key × (a : ℕ) × (a ≢ 0) × (f a ≡ loaded b)
  unfolding req_addr
  read_addr parse key f e =
      let (a, found, past) = bind_lem (req_addr env parse key) f e in
      let (c, first, _) = bind_lem (req env parse key) _ found in
      (given parse key first, a, req_addr_lem env parse key found, past)

  pub read_network_lem :
      {n : Network} → read_network env ≡ loaded n → All Given network_keys × (n.chain_id < 2 ^ 64)
  unfolding read_network
  read_network_lem e =
      let (k1, _, h1, e1) = read_unsigned 64 "SKUA_CHAIN_ID" _ e in
      let (k2, _, e2) = read text "SKUA_RPC_WS_URL" _ e1 in
      let (k3, _, e3) = read text "SKUA_RPC_HTTP_URL" _ e2 in
      let (k4, _, e4) = read text "SKUA_RPC_FALLBACK_URL" _ e3 in
      let same = loaded-injective _ _ e4 in
      ((k1, (k2, (k3, (k4, tt)))), subst (λ (n : Network). n.chain_id < 2 ^ 64) same h1)

  pub read_contracts_lem :
      (address : String → Option ℕ) {n : Contracts}
      → read_contracts env address ≡ loaded n
      → All Given contracts_keys
        × (n.balancer_vault ≢ 0)
        × (n.hyperlend_pool ≢ 0)
        × (n.contract_evm_arb ≢ 0)
        × (n.contract_liquidation ≢ 0)
        × (n.contract_tri_arb ≢ 0)
        × (n.contract_stable_depeg ≢ 0)
        × (n.profit_wallet ≢ 0)
  unfolding read_contracts
  read_contracts_lem address e =
      let (k1, _, h1, e1) = read_addr address "SKUA_BALANCER_VAULT" _ e in
      let (k2, _, h2, e2) = read_addr address "SKUA_HYPERLEND_POOL" _ e1 in
      let (k3, _, h3, e3) = read_addr address "SKUA_CONTRACT_EVM_ARB" _ e2 in
      let (k4, _, h4, e4) = read_addr address "SKUA_CONTRACT_LIQ" _ e3 in
      let (k5, _, h5, e5) = read_addr address "SKUA_CONTRACT_TRI" _ e4 in
      let (k6, _, h6, e6) = read_addr address "SKUA_CONTRACT_DEPEG" _ e5 in
      let (k7, _, h7, e7) = read_addr address "SKUA_PROFIT_WALLET" _ e6 in
      let same = loaded-injective _ _ e7 in
      (
        (k1, (k2, (k3, (k4, (k5, (k6, (k7, tt))))))),
        subst (λ (n : Contracts). n.balancer_vault ≢ 0) same h1,
        subst (λ (n : Contracts). n.hyperlend_pool ≢ 0) same h2,
        subst (λ (n : Contracts). n.contract_evm_arb ≢ 0) same h3,
        subst (λ (n : Contracts). n.contract_liquidation ≢ 0) same h4,
        subst (λ (n : Contracts). n.contract_tri_arb ≢ 0) same h5,
        subst (λ (n : Contracts). n.contract_stable_depeg ≢ 0) same h6,
        subst (λ (n : Contracts). n.profit_wallet ≢ 0) same h7,
      )

  pub read_indices_lem :
      {n : Indices}
      → read_indices env ≡ loaded n
      → All Given indices_keys × (n.hype_market_index < 2 ^ 32) × (n.usdc_token_index < 2 ^ 32)
  unfolding read_indices
  read_indices_lem e =
      let (k1, _, h1, e1) = read_unsigned 32 "SKUA_HYPE_MARKET_INDEX" _ e in
      let (k2, _, h2, e2) = read_unsigned 32 "SKUA_USDC_TOKEN_INDEX" _ e1 in
      let same = loaded-injective _ _ e2 in
      (
        (k1, (k2, tt)),
        subst (λ (n : Indices). n.hype_market_index < 2 ^ 32) same h1,
        subst (λ (n : Indices). n.usdc_token_index < 2 ^ 32) same h2,
      )

  pub read_multipliers_lem :
      {n : Multipliers}
      → read_multipliers env ≡ loaded n
      → All Given multipliers_keys
        × (n.arb < 2 ^ 64)
        × (n.liquidation < 2 ^ 64)
        × (n.depeg < 2 ^ 64)
  unfolding read_multipliers
  read_multipliers_lem e =
      let (k1, _, h1, e1) = read_unsigned 64 "SKUA_GASPRICE_ARB" _ e in
      let (k2, _, h2, e2) = read_unsigned 64 "SKUA_GASPRICE_LIQ" _ e1 in
      let (k3, _, h3, e3) = read_unsigned 64 "SKUA_GASPRICE_DEPEG" _ e2 in
      let same = loaded-injective _ _ e3 in
      (
        (k1, (k2, (k3, tt))),
        subst (λ (n : Multipliers). n.arb < 2 ^ 64) same h1,
        subst (λ (n : Multipliers). n.liquidation < 2 ^ 64) same h2,
        subst (λ (n : Multipliers). n.depeg < 2 ^ 64) same h3,
      )

  pub read_services_lem :
      {n : Services}
      → read_services env ≡ loaded n
      → All Given services_keys × (n.api_port < 2 ^ 16)
  unfolding read_services
  read_services_lem e =
      let (k1, _, h1, e1) = read_unsigned 16 "SKUA_API_PORT" _ e in
      let (k2, _, e2) = read text "SKUA_API_KEY" _ e1 in
      let (k3, _, e3) = read text "SKUA_TELEGRAM_BOT_TOKEN" _ e2 in
      let (k4, _, e4) = read text "SKUA_TELEGRAM_CHAT_ID" _ e3 in
      let same = loaded-injective _ _ e4 in
      ((k1, (k2, (k3, (k4, tt)))), subst (λ (n : Services). n.api_port < 2 ^ 16) same h1)

  pub read_amounts_lem :
      {F : Type 0} (float : String → Option F) {n : Amounts F}
      → read_amounts env float ≡ loaded n
      → All Given amounts_keys
  unfolding read_amounts
  read_amounts_lem float e =
      let (k1, _, e1) = read float "SKUA_S1_MIN_PROFIT_USD" _ e in
      let (k2, _, e2) = read float "SKUA_S2_MIN_PROFIT_USD" _ e1 in
      let (k3, _, e3) = read float "SKUA_S3_MIN_PROFIT_USD" _ e2 in
      let (k4, _, e4) = read float "SKUA_S4_MIN_PROFIT_USD" _ e3 in
      let (k5, _, e5) = read float "SKUA_S1_SIGNAL_BPS" _ e4 in
      let (k6, _, e6) = read float "SKUA_S4_DEPEG_BPS" _ e5 in
      let (k7, _, e7) = read float "SKUA_HARD_CAP_USD" _ e6 in
      let (k8, _, e8) = read float "SKUA_GAS_ROI_MULTIPLIER" _ e7 in
      (k1, (k2, (k3, (k4, (k5, (k6, (k7, (k8, tt))))))))

  pub read_breakers_lem :
      {F : Type 0} (float : String → Option F) {n : Breakers F}
      → read_breakers env float ≡ loaded n
      → All Given breakers_keys
        × (n.max_consecutive_reverts < 2 ^ 32)
        × (n.gas_kill_window_secs < 2 ^ 64)
  unfolding read_breakers
  read_breakers_lem {F} float e =
      let (k1, _, h1, e1) = read_unsigned 32 "SKUA_MAX_CONSECUTIVE_REVERTS" _ e in
      let (k2, _, e2) = read float "SKUA_GAS_KILL_HYPE" _ e1 in
      let (k3, _, h3, e3) = read_unsigned 64 "SKUA_GAS_KILL_WINDOW_SECS" _ e2 in
      let same = loaded-injective _ _ e3 in
      (
        (k1, (k2, (k3, tt))),
        subst (λ (n : Breakers F). n.max_consecutive_reverts < 2 ^ 32) same h1,
        subst (λ (n : Breakers F). n.gas_kill_window_secs < 2 ^ 64) same h3,
      )
