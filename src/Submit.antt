-- ===== src/Submit.antt =====
-- bot/crates/executor/src/submit.rs. The signing of a transaction and the answer of the node are
-- external, and stand as arguments.
use Prim.Native.Nat.{min}
use skua.Prelude.{ℕ, ◌-◌, ◌*◌, ◌/◌, ◌%◌, ◌^◌, Bool, true, false, ◌∷◌, leb, if◌then◌else◌}
use skua.Float.{Float}
use skua.Core.Config.{SkuaConfig}
use skua.Core.State.{BotState, halt, record_success, record_revert}
use skua.World.{
  World, M, Tx, Call, Receipt, SendAnswer, request_failed, malformed, mined, ok, err, pure, throw,
  kill_switch_active, circuit_breaker, send_failed, bad_receipt, sign_failed,
}
pub mod Breaker
pub mod Abstract

-- `signed` says whether the signing code succeeds.
unfoldable pub build_raw_tx :
    {F : Type 0}
    → Bool
    → (from to : ℕ) → Call
    → (nonce gas_limit gas_price chain_id : ℕ) → M (World F) Tx
build_raw_tx signed from to input nonce gas_limit gas_price chain_id =
    if signed
    then pure (record {
      from = from;
      to = to;
      input = input;
      nonce = nonce;
      gas_limit = gas_limit;
      gas_price = gas_price;
      chain_id = chain_id;
    })
    else throw sign_failed

module _ {F : Type 0} where
  -- u64::saturating_mul; 10^10 takes wei to HYPE scaled by 10^8
  unfoldable pub gas_cost_hype_scaled : Receipt → BotState F → ℕ
  gas_cost_hype_scaled receipt s =
      min (receipt.gas_used % 2 ^ 64 * s.current_base_fee) (2 ^ 64 - 1) / 10_000_000_000

module _ {F : Type 0} ⦃fl : Float F⦄ where
  open fl use {cast, dec, ◌⊘◌, le}

  -- The two breakers after a revert: the gas spent, and the reverts in a row.
  unfoldable pub trip : SkuaConfig F → ℕ → BotState F → BotState F
  unfolding halt
  trip config new_count s =
      let gas_spent = ◌⊘◌ (cast s.gas_spent_window) (dec 100_000_000 0) in
      let t = if le config.gas_kill_threshold_hype gas_spent then halt s else s in
      if leb config.max_consecutive_reverts new_count then halt t else t

  -- What a receipt does to the state.
  unfoldable pub settle : SkuaConfig F → Receipt → BotState F → BotState F
  unfolding trip record_success record_revert
  settle config receipt s =
      if receipt.status
      then record_success s
      else let (new_count, t) = record_revert (gas_cost_hype_scaled receipt s) s in
        trip config new_count t

  unfoldable pub submit_sync : SkuaConfig F → SendAnswer → Tx → M (World F) Receipt
  unfolding halt
  submit_sync config answer raw_tx w =
      let reverts = w.bot.consecutive_reverts in
      if w.bot.kill_switch
      then (err kill_switch_active, w)
      else if leb config.max_consecutive_reverts reverts
      then (err (circuit_breaker reverts), record w { bot = halt w.bot })
      else elim answer [
        | request_failed ↦ (err send_failed, record w { sent = raw_tx ∷ w.sent })
        | malformed ↦ (err bad_receipt, record w { sent = raw_tx ∷ w.sent })
        | mined receipt ↦
            (ok receipt, record w { sent = raw_tx ∷ w.sent; bot = settle config receipt w.bot })
      ]
