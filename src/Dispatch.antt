-- ===== src/Dispatch.antt =====
-- What `try_liquidate`, `try_execute_best_route` and `check_stable` have in common: from the acquisition
-- of a wallet to the metrics of the receipt (bot/crates/strategies/*/src/executor.rs).
use skua.Prelude.{ℕ, ◌+◌, Bool, List, Option, none, some, if◌then◌else◌}
use skua.Float.{Float}
use skua.Core.Config.{SkuaConfig}
use skua.Core.State.{base_fee_wei}
use skua.Core.Gas.{compute_gas_price}
use skua.Submit.{build_raw_tx, submit_sync}
use skua.World
use skua.World.{
  World, M, Outcome, ok, err, Call, SendAnswer, Receipt, Tx, Strategy, tx_submitted, signal_latency,
  tx_landed, tx_reverted, count_metric, get_bot, ◌>>=◌, ◌>>◌, pure, throw,
}
pub mod Guards
pub mod Stuck
pub mod Reuse

-- Whether the signing succeeds, the answers of the node, and the clock at the release of the wallet.
pub record Env : Type 0 where
  pub signed : Bool
  pub send_answer : SendAnswer
  pub sim_answer : Option (List ℕ)
  pub released_at : ℕ

-- What differs between the strategies.
pub record Plan : Type 0 where
  pub strategy : Strategy
  pub contract : ℕ
  pub gas_estimate : ℕ
  pub multiplier : ℕ

module _ {F : Type 0} ⦃fl : Float F⦄ where
  unfoldable pub count_receipt : Strategy → Receipt → M (World F) Receipt
  count_receipt strategy receipt w =
      let metric = if receipt.status then tx_landed else tx_reverted in
      (count_metric strategy metric >> pure receipt) w

  -- `submit_sync` and the release of the wallet, on success and on error.
  unfoldable pub submit_and_release : SkuaConfig F → Env → ℕ → Tx → M (World F) Receipt
  unfolding submit_sync
  submit_and_release config env wallet_idx raw_tx w =
      let (answer, v) = submit_sync config env.send_answer raw_tx w in
      (World.release env.released_at wallet_idx >> (λ u. (answer, u))) v

  unfoldable pub send_from : SkuaConfig F → Env → Plan → Call → ℕ → M (World F) Receipt
  unfolding submit_and_release build_raw_tx count_receipt
  send_from config env plan input wallet_idx = do
    bot ← get_bot
    let gas_price = compute_gas_price (base_fee_wei bot) plan.multiplier
    nonce ← World.next_nonce wallet_idx
    raw_tx ←
        build_raw_tx env.signed wallet_idx plan.contract input nonce (plan.gas_estimate + 50_000)
          gas_price config.chain_id
    count_metric plan.strategy tx_submitted
    count_metric plan.strategy signal_latency
    receipt ← submit_and_release config env wallet_idx raw_tx
    count_receipt plan.strategy receipt

  -- The receipt, or `none` with no wallet free.
  unfoldable pub dispatch : SkuaConfig F → Env → Plan → Call → M (World F) (Option Receipt)
  unfolding send_from
  dispatch config env plan input = do
    free ← World.acquire
    elim free [
      | none ↦ pure none
      | some wallet_idx ↦ do
        receipt ← send_from config env plan input wallet_idx
        pure (some receipt)
    ]
