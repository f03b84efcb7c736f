-- ===== src/Liquidation/Monitor.antt =====
-- bot/crates/strategies/liquidation/src/monitor.rs. What the pool contract answers to a query is an
-- argument, none for an error. The map of prices and that of positions are association lists in an
-- order of iteration.
use skua.Prelude.{
  ℕ, ◌+◌, ◌%◌, ◌^◌, ◌&&◌, Bool, Option, none, some, List, [], ◌∷◌, ◌++◌, ◌==◌, ltb, leb,
  if◌then◌else◌, lookup, insert,
}
use skua.Float.{Float, nought}
use skua.Core.State.{BotState}
use skua.Core.Types.{PriceMap, BorrowerPosition, CollateralAsset, DebtAsset}
use skua.World.{Outcome, ok, err, rpc_failed}

-- the fields of `getUserReserveData` that are read
pub record UserReserve : Type 0 where
  pub current_a_token_balance : ℕ
  pub current_stable_debt : ℕ
  pub current_variable_debt : ℕ
  pub usage_as_collateral_enabled : Bool

-- the fields of `getReserveConfigurationData` that are read
pub record ReserveConfig : Type 0 where
  pub decimals : ℕ
  pub liquidation_threshold : ℕ
  pub liquidation_bonus : ℕ
  pub is_active : Bool

pub record RegisteredAsset (F : Type 0) : Type 0 where
  pub token : ℕ
  pub decimals : ℕ
  pub liquidation_threshold : F
  pub liquidation_bonus : F

-- an addition in a U256, which wraps
unfoldable pub total_debt : UserReserve → ℕ
total_debt r = (r.current_stable_debt + r.current_variable_debt) % 2 ^ 256

-- The vectors that the loop over the assets has filled.
abbrev pub Assets : Type 0 → Type 0
Assets F = List (CollateralAsset F) × List DebtAsset

module _ {F : Type 0} where
  abbrev pub collateral_of : RegisteredAsset F → UserReserve → CollateralAsset F
  collateral_of a r = record {
    token = a.token;
    amount = r.current_a_token_balance;
    ltv = a.liquidation_threshold;
    liq_bonus = a.liquidation_bonus;
    decimals = a.decimals;
  }

  abbrev pub debt_of : RegisteredAsset F → UserReserve → DebtAsset
  debt_of a r = record { token = a.token; amount = total_debt r; decimals = a.decimals }

  -- One round of the loop.
  unfoldable pub push_reserve : RegisteredAsset F → UserReserve → Assets F → Assets F
  unfolding total_debt
  push_reserve a r (collateral, debts) =
      if r.current_a_token_balance == 0 && total_debt r == 0 then (collateral, debts) else (
        if ltb 0 r.current_a_token_balance && r.usage_as_collateral_enabled
            then collateral ++ (collateral_of a r ∷ [])
            else collateral,
        if ltb 0 (total_debt r) then debts ++ (debt_of a r ∷ []) else debts,
      )

  -- The loop; the first failed query ends it.
  unfoldable pub read_reserves :
      (ℕ → Option UserReserve) → List (RegisteredAsset F) → Assets F → Option (Assets F)
  unfolding push_reserve
  read_reserves query [] found = some found
  read_reserves query (a ∷ rest) found = elim (query a.token) [
    | none ↦ none
    | some r ↦ read_reserves query rest (push_reserve a r found)
  ]

module _ {F : Type 0} ⦃fl : Float F⦄ where
  open fl use {dec, cast, ◌⊕◌, ◌⊗◌, ◌⊘◌, lt, eqf, powi, max_value}

  infixl 70 ◌⊗◌ ◌⊘◌
  abbrev pub hf_presimulate : F
  hf_presimulate = dec 110 2

  abbrev pub hf_submit : F
  hf_submit = dec 105 2

  -- the amount of a token in its unit, in USD
  abbrev pub value_usd : ℕ → ℕ → F → F
  value_usd amount decimals price = cast amount ⊘ powi (dec 10 0) decimals ⊗ price

  unfoldable pub collateral_value : PriceMap F → CollateralAsset F → F
  collateral_value prices c = elim (lookup c.token prices) [
    | none ↦ nought
    | some price ↦ value_usd c.amount c.decimals price ⊗ c.ltv
  ]

  unfoldable pub debt_value : PriceMap F → DebtAsset → F
  debt_value prices d = elim (lookup d.token prices) [
    | none ↦ nought
    | some price ↦ value_usd d.amount d.decimals price
  ]

  -- `iter().map(f).sum()`, from the sum so far on
  abbrev pub sum_by : {A : Type 0} → (A → F) → F → List A → F
  sum_by f acc [] = acc
  sum_by f acc (x ∷ xs) = sum_by f (◌⊕◌ acc (f x)) xs

  unfoldable pub compute_health_factor : BorrowerPosition F → PriceMap F → F
  unfolding collateral_value debt_value
  compute_health_factor pos prices =
      let weighted_collateral = sum_by (collateral_value prices) nought pos.collateral_assets in
      let total_debt = sum_by (debt_value prices) nought pos.debt_assets in
      if eqf total_debt nought then max_value else weighted_collateral ⊘ total_debt

  -- The health factor that is stored: with debts it is 0, a sentinel.
  abbrev pub stored_hf : List DebtAsset → F
  stored_hf [] = max_value
  stored_hf (d ∷ ds) = nought

  unfoldable pub refresh_borrower_position :
      (ℕ → Option UserReserve)
      → (borrower : ℕ) → List (RegisteredAsset F)
      → BotState F
      → Outcome (Unit {0}) × BotState F
  unfolding read_reserves
  refresh_borrower_position query borrower registered_assets s =
      elim (read_reserves query registered_assets ([], [])) [
        | none ↦ (err rpc_failed, s)
        | some (collateral, debts) ↦ (
          ok tt,
          record s {
            hyperlend_positions =
                insert borrower
                  (record {
                    address = borrower;
                    collateral_assets = collateral;
                    debt_assets = debts;
                    computed_hf = stored_hf debts;
                    last_block = s.current_block;
                  })
                  s.hyperlend_positions;
          },
        )
      ]

  -- The loop of `load_registered_assets`; the first failed query ends it.
  unfoldable pub load_registered_assets :
      (ℕ → Option ReserveConfig) → List ℕ → Option (List (RegisteredAsset F))
  load_registered_assets query [] = some []
  load_registered_assets query (addr ∷ rest) = elim (query addr) [
    | none ↦ none
    | some cfg ↦ elim (load_registered_assets query rest) [
      | none ↦ none
      | some assets ↦ some (
          if cfg.is_active
          then record {
            token = addr;
            decimals = cfg.decimals % 256;
            liquidation_threshold = cast cfg.liquidation_threshold ⊘ dec 10_000 0;
            liquidation_bonus = cast cfg.liquidation_bonus ⊘ dec 10_000 0;
          }
            ∷ assets
          else assets)
    ]
  ]

  -- The addresses of the positions with a stored health factor under the threshold.
  unfoldable pub at_risk : List (ℕ × BorrowerPosition F) → List ℕ
  at_risk [] = []
  at_risk ((key, p) ∷ rest) =
      if lt p.computed_hf hf_presimulate then p.address ∷ at_risk rest else at_risk rest

  -- Refreshes of several borrowers, each with its own queries; a failed one changes nothing.
  unfoldable pub refresh_all :
      (ℕ → ℕ → Option UserReserve) → List (RegisteredAsset F) → List ℕ → BotState F → BotState F
  unfolding refresh_borrower_position
  refresh_all query assets [] s = s
  refresh_all query assets (addr ∷ rest) s =
      refresh_all query assets rest (refresh_borrower_position (query addr) addr assets s).1

  unfoldable pub reconcile_at_risk_positions :
      (ℕ → ℕ → Option UserReserve) → List (RegisteredAsset F) → BotState F → BotState F
  unfolding at_risk refresh_all
  reconcile_at_risk_positions query assets s =
      refresh_all query assets (at_risk s.hyperlend_positions) s

-- The third topic of a log names the borrower by its last 20 bytes.
unfoldable pub extract_borrower_from_log : List ℕ → Option ℕ
extract_borrower_from_log (t0 ∷ t1 ∷ t2 ∷ rest) = some (t2 % 2 ^ 160)
extract_borrower_from_log _ = none

-- What the stream gives in one round: a log by its topics, its end, or nothing in five seconds.
pub data LogEvent : Type 0 where
  log : List ℕ → LogEvent
  stream_ended timeout : LogEvent

module _ {F : Type 0} ⦃fl : Float F⦄ where
  -- One round of `position_indexer_loop`, with the block of the last reconciliation; `none` is the end
  -- of the stream.
  unfoldable pub indexer_round :
      (ℕ → ℕ → Option UserReserve)
      → List (RegisteredAsset F)
      → LogEvent
      → ℕ
      → BotState F
      → Option ℕ × BotState F
  unfolding reconcile_at_risk_positions extract_borrower_from_log refresh_borrower_position
  indexer_round query assets event last_reconcile s =
      let due = leb (last_reconcile + 10) s.current_block in
      let t = if due then reconcile_at_risk_positions query assets s else s in
      let last = if due then s.current_block else last_reconcile in
      elim event [
        | log topics ↦ elim (extract_borrower_from_log topics) [
          | none ↦ (some last, t)
          | some borrower ↦
              (some last, (refresh_borrower_position (query borrower) borrower assets t).1)
        ]
        | stream_ended ↦ (none, t)
        | timeout ↦ (some last, t)
      ]
