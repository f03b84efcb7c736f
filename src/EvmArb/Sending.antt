-- ===== src/EvmArb/Sending.antt =====
-- The state of `S1Executor` of bot/crates/strategies/evm_arb/src/executor.rs, and how it sends. What is external stands as arguments:
-- the answers of the node, whether the signing succeeds, and the clock in milliseconds. The calls of
-- `build_raw_tx` here give it more arguments than it takes; they are read as the gas limit, the gas
-- price and the chain that it takes. An acquired wallet stands for its address.
use skua.Prelude.{
  ℕ, ◌+◌, ◌*◌, ◌/◌, ◌%◌, ◌^◌, List, Bool, true, false, Option, none, some, ◌==◌, ltb, if◌then◌else◌,
}
use skua.Float.{Float}
use skua.Core.Config.{SkuaConfig}
use skua.Core.State.{base_fee_wei}
use skua.Core.Gas.{compute_gas_price}
use skua.Scanner.Signals.{S1Detector, new_detector}
use skua.Submit.{build_raw_tx, submit_sync}
use skua.World
use skua.World.{
  World, M, Outcome, ok, err, Error, zero_amount_out, panicked, rpc_failed, out_of_fuel, Call,
  execute_phase1, emergency_exit, SwapCall, swap, no_bytes, SendAnswer, Receipt, ◌>>=◌, ◌>>◌, pure,
  throw,
}
use skua.EvmArb.Phase.{S1Phase, idle, VolEstimator, new_estimator}

pub record S1Executor (F : Type 0) : Type 0 where
  pub state_machine : S1Phase F
  pub vol_estimator : VolEstimator F
  pub detector : S1Detector F

-- What the node and the signing code answer in one tick, and the clock at its reads.
pub record Env : Type 0 where
  pub signed : Bool
  pub send_answer : SendAnswer
  pub sim_answer : Option (List ℕ)
  -- `token0()` and `getReserves()` of the pair
  pub token0 : Option ℕ
  pub reserves : Option (ℕ × ℕ)
  pub now : ℕ
  pub released_at : ℕ

-- The arguments of a tick that name what it trades.
pub record Market (F : Type 0) : Type 0 where
  pub evm_pool : ℕ
  pub bought_token : ℕ
  pub flash_asset : ℕ
  pub core_market_index : ℕ
  pub token_price_usd : F
  pub flash_available_usd : F

-- The executor and what it shares with the others.
pub record S1World (F : Type 0) : Type 0 where
  pub executor : S1Executor F
  pub world : World F

abbrev wrap : ℕ → ℕ
wrap n = n % 2 ^ 128

-- The amounts by the formula of a Uniswap V2 pair, in u128, which wraps in a release build.
unfoldable pub build_univ2_swap_calldata :
    Option ℕ → Option (ℕ × ℕ) → (token_in amount_in recipient : ℕ) → Outcome SwapCall
build_univ2_swap_calldata none reserves token_in amount_in recipient = err rpc_failed
build_univ2_swap_calldata (some t0) none token_in amount_in recipient = err rpc_failed
build_univ2_swap_calldata (some t0) (some (r0, r1)) token_in amount_in recipient =
    let reserve_in = if t0 == token_in then r0 else r1 in
    let reserve_out = if t0 == token_in then r1 else r0 in
    let numerator = wrap (wrap (amount_in * 997) * reserve_out) in
    let denominator = wrap (wrap (reserve_in * 1000) + wrap (amount_in * 997)) in
    let amount_out = if ltb 0 denominator then numerator / denominator else 0 in
    if amount_out == 0
    then err zero_amount_out
    else if t0 == token_in
    then ok (swap 0 amount_out recipient)
    else ok (swap amount_out 0 recipient)

unfoldable pub encode_phase1_calldata :
    (flash_amount_wei evm_pool : ℕ) → Bool → (market min_bid min_escrow : ℕ) → Call
encode_phase1_calldata = execute_phase1 0

-- With no calldata for the swap, the transaction is sent all the same.
abbrev pub or_no_bytes : Outcome SwapCall → SwapCall
or_no_bytes (ok c) = c
or_no_bytes (err e) = no_bytes

abbrev pub is_ok : {A : Type 0} → Outcome A → Bool
is_ok (ok a) = true
is_ok (err e) = false

module _ {F : Type 0} where
  abbrev pub lift : {A : Type 0} → M (World F) A → M (S1World F) A
  lift m s = let r = m s.world in (r.0, record s { world = r.1 })

  abbrev pub set_phase : S1Phase F → M (S1World F) (Unit {0})
  set_phase phase s = (ok tt, record s { executor = record s.executor { state_machine = phase } })

module _ {F : Type 0} ⦃fl : Float F⦄ where
  open fl use {dec, cast, ◌⊗◌, ◌⊘◌, le, trunc}

  infixl 70 ◌⊗◌ ◌⊘◌
  unfoldable pub new_executor : F → S1Executor F
  unfolding new_estimator new_detector
  new_executor threshold_bps = record {
    state_machine = idle;
    vol_estimator = new_estimator 60;
    detector = new_detector threshold_bps;
  }

  -- Sends a call from an acquired wallet, and releases the wallet if there is a receipt.
  unfoldable pub send_from :
      SkuaConfig F → Env → ℕ → (to : ℕ) → Call → (gas_limit : ℕ) → M (S1World F) Receipt
  unfolding build_raw_tx submit_sync
  send_from config env wallet_idx to input gas_limit s =
      lift
        (do
          let gas_price =
              compute_gas_price (base_fee_wei s.world.bot) config.gasprice_multiplier_arb
          nonce ← World.next_nonce wallet_idx
          raw_tx ←
              build_raw_tx env.signed wallet_idx to input nonce gas_limit gas_price config.chain_id
          receipt ← submit_sync config env.send_answer raw_tx
          World.release env.released_at wallet_idx
          pure receipt)
        s

  -- Acquires a wallet, sends from it, and goes on with the receipt; with no free wallet it does nothing.
  unfoldable pub with_wallet :
      SkuaConfig F
      → Env
      → (to : ℕ) → Call
      → (gas_limit : ℕ) → (Receipt → M (S1World F) (Unit {0}))
      → M (S1World F) (Unit {0})
  unfolding send_from
  with_wallet config env to input gas_limit go_on = do
    free ← lift World.acquire
    elim free [
      | none ↦ pure tt
      | some wallet_idx ↦ send_from config env wallet_idx to input gas_limit >>= go_on
    ]
