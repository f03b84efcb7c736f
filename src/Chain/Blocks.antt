-- ===== src/Chain/Blocks.antt =====
-- bot/crates/chain/src/block_loop.rs. The channel to the strategies is the list of the events in it,
-- newest first, with its capacity.
use skua.Prelude.{ℕ, ◌%◌, ◌^◌, Option, none, some, List, [], ◌∷◌, ltb, if◌then◌else◌, length}
use skua.Core.State.{BotState}
use skua.Core.Types.{BlockEvent, new_block}

pub record Header : Type 0 where
  pub number : ℕ
  pub base_fee_per_gas : Option ℕ

pub record Channel : Type 0 where
  pub capacity : ℕ
  pub events : List BlockEvent

-- An event that finds the channel full is dropped.
unfoldable pub try_send : BlockEvent → Channel → Channel
try_send e c = if ltb (length c.events) c.capacity then record c { events = e ∷ c.events } else c

-- the fee kept when a header has none
abbrev pub fee_or : ℕ → Option ℕ → ℕ
fee_or old none = old
fee_or old (some fee) = fee % 2 ^ 64

module _ {F : Type 0} where
  unfoldable pub process_block_header :
      Header → (now_ms : ℕ) → BotState F × Channel → BotState F × Channel
  unfolding try_send
  process_block_header header now_ms (s, strategy_tx) = (
    record s {
      current_block = header.number;
      current_base_fee = fee_or s.current_base_fee header.base_fee_per_gas;
      last_block_time = now_ms % 2 ^ 64;
    },
    try_send (new_block header.number) strategy_tx,
  )

  -- The loop over the headers of the stream, each with the time of its arrival; when the stream ends
  -- the code returns an error.
  unfoldable pub block_subscription_loop :
      List (Header × ℕ) → BotState F × Channel → BotState F × Channel
  unfolding process_block_header
  block_subscription_loop [] w = w
  block_subscription_loop ((header, now_ms) ∷ rest) w =
      block_subscription_loop rest (process_block_header header now_ms w)
