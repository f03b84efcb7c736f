-- ===== src/Core/State.antt =====
-- `BotState` of bot/crates/core/src/state.rs. The atomics and locked maps are the fields of a record,
-- and an operation returns the new record; additions wrap at the width of their atomic.
use Prim.Native.String.{String}
use skua.Prelude.{ℕ, ◌+◌, ◌%◌, ◌^◌, Bool, true, false, ◌||◌, List, [], leb}
use skua.Float.{Float}
use skua.Core.Types.{PoolState, BorrowerPosition, OrderBook}

pub record BotState (F : Type 0) : Type 0 where
  pub current_block : ℕ
  pub current_base_fee : ℕ
  pub hype_price_usd : ℕ
  pub last_block_time : ℕ
  pub balancer_fee_bps : ℕ
  pub hyperlend_fee_bps : ℕ
  pub pool_states : List (ℕ × PoolState F)
  pub hyperlend_positions : List (ℕ × BorrowerPosition F)
  pub orderbooks : List (String × OrderBook F)
  pub s1_enabled : Bool
  pub s2_enabled : Bool
  pub s3_enabled : Bool
  pub s4_enabled : Bool
  pub kill_switch : Bool
  pub consecutive_reverts : ℕ
  pub gas_spent_window : ℕ

module _ {F : Type 0} where
  abbrev pub new_state : BotState F
  new_state = record {
    current_block = 0;
    current_base_fee = 0;
    hype_price_usd = 0;
    last_block_time = 0;
    balancer_fee_bps = 0;
    hyperlend_fee_bps = 0;
    pool_states = [];
    hyperlend_positions = [];
    orderbooks = [];
    s1_enabled = false;
    s2_enabled = false;
    s3_enabled = false;
    s4_enabled = false;
    kill_switch = false;
    consecutive_reverts = 0;
    gas_spent_window = 0;
  }

  unfoldable pub base_fee_wei : BotState F → ℕ
  base_fee_wei s = s.current_base_fee

  unfoldable pub is_halted : ℕ → BotState F → Bool
  is_halted max_reverts s = s.kill_switch || leb max_reverts s.consecutive_reverts

  unfoldable pub halt : BotState F → BotState F
  halt s = record s { kill_switch = true }

  unfoldable pub record_success : BotState F → BotState F
  record_success s = record s { consecutive_reverts = 0 }

  -- the new count, and the new state
  unfoldable pub record_revert : ℕ → BotState F → ℕ × BotState F
  record_revert gas_hype_scaled s = (
    (s.consecutive_reverts + 1) % 2 ^ 32,
    record s {
      consecutive_reverts = (s.consecutive_reverts + 1) % 2 ^ 32;
      gas_spent_window = (s.gas_spent_window + gas_hype_scaled) % 2 ^ 64;
    },
  )

module _ {F : Type 0} ⦃fl : Float F⦄ where
  open fl use {cast, dec, ◌⊘◌}

  unfoldable pub hype_price_f64 : BotState F → F
  hype_price_f64 s = ◌⊘◌ (cast s.hype_price_usd) (dec 100_000_000 0)
