-- ===== src/Examples/Services.antt =====
-- Worked examples of the chain loops and of the API.
use skua.Prelude.{
  ℕ, true, ◌*◌, ◌^◌, List, none, ◌≡◌, ◌≤◌, refl, Option, some, [], ◌∷◌, inl, inr, lookup,
}
use Prim.Native.Nat.{min}
use Prim.Native.String.{String}
use skua.Chain.Providers.{Attempt, next_delay, reconnect_from, ws_with_reconnect}
use skua.Chain.Waits.{ws_with_reconnect_waits}
use skua.HyperCore.Book.{
  L2Level, WsEnvelope, Message, text_message, close, other, subscribe_l2_book,
}
use skua.HyperCore.Latest.{book_of, parsed, subscribe_l2_book-latest}
use skua.Float.Grid.{Grid, num, grid_float}
use skua.Chain.Blocks.{Header, Channel}
use skua.Chain.Pools.{reconcile_pools}
use skua.Chain.Synced.{synced, reconcile_pools-synced}
use skua.Api.{ApiState}
use skua.Examples.Data.{bot, pool}

abbrev answers : ℕ → Option (ℕ × ℕ)
answers addr = lookup addr ((11, (500, 700)) ∷ [])

reconcile_pools-synced_example :
    lookup 11 (reconcile_pools answers (10 ∷ 11 ∷ 13 ∷ []) bot).pool_states
    ≡ some (synced 500 700 100 (pool 2 3 1000 1000))
reconcile_pools-synced_example =
    reconcile_pools-synced answers (10 ∷ 11 ∷ 13 ∷ []) bot 11 500 700 (pool 2 3 1000 1000)
      (inr (inl refl)) refl refl

abbrev header : ℕ → Header
header number = record { number = number; base_fee_per_gas = some 1_000 }

abbrev channel : Channel
channel = record { capacity = 1; events = [] }

abbrev api : ApiState Grid
api = record { bot_state = bot; api_key = "key" }

-- Two failures, and then a connection.
abbrev attempts : String → List (Attempt ℕ)
attempts url = (none, 7) ∷ (none, 250) ∷ (some 1, 0) ∷ []

ws_with_reconnect_waits_example : (min (100 * 2 ^ 1) 30_000 ≤ 207) × (207 ≤ 30_000)
unfolding ws_with_reconnect reconnect_from next_delay
ws_with_reconnect_waits_example = ws_with_reconnect_waits attempts "ws" 1 {d = 207} refl

-- One level a side.
abbrev level : L2Level
level = record { px = "25.0"; sz = "3" }

abbrev message : String → Option WsEnvelope
message coin = some (record {
  channel = "l2Book";
  data_of = some (record { coin = coin; levels = (level ∷ []) ∷ (level ∷ []) ∷ [] });
})

-- Two books of HYPE, one of another coin, and one that comes after the close.
abbrev stream : List (ℕ × Option Message)
stream =
    (1, some (text_message (message "HYPE")))
    ∷ (2, some other)
    ∷ (3, some (text_message (message "HYPE")))
    ∷ (4, some (text_message (message "BTC")))
    ∷ (5, some close)
    ∷ (6, some (text_message (message "HYPE")))
    ∷ []

abbrev parse_price : String → Option Grid
parse_price digits = some (num 25_000_000)

subscribe_l2_book-latest_example :
    book_of "HYPE" (subscribe_l2_book parse_price true true stream bot).1.orderbooks
    ≡ some (
        parsed parse_price "HYPE" 3
          (record { coin = "HYPE"; levels = (level ∷ []) ∷ (level ∷ []) ∷ [] }))
subscribe_l2_book-latest_example = subscribe_l2_book-latest parse_price "HYPE" stream bot
