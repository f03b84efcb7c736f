-- ===== src/HyperCore/Book.antt =====
-- bot/crates/hypercore/src/orderbook.rs. The message stands for its JSON as serde reads it, none where
-- that fails; `parse` is `str::parse::<f64>` on the text of a number.
use Prim.Native.String.{String}
use skua.Prelude.{
  same_text, ℕ, ◌%◌, ◌^◌, ◌||◌, ◌&&◌, Bool, true, false, not, Option, none, some, List, [], ◌∷◌,
  if◌then◌else◌, get_elem?, map,
}
use skua.Float.{Float, nought, one}
use skua.Core.State.{BotState}
use skua.Core.Types.{OrderBook}
use skua.World.{Outcome, ok, err, rpc_failed}

pub record L2Level : Type 0 where
  pub px : String
  pub sz : String

pub record L2BookData : Type 0 where
  pub coin : String
  pub levels : List (List L2Level)

-- The channel, and the data if it is a book.
pub record WsEnvelope : Type 0 where
  pub channel : String
  pub data_of : Option L2BookData

-- A hash map by texts.
abbrev pub insert_book :
    {F : Type 0} → String → OrderBook F → List (String × OrderBook F) → List (String × OrderBook F)
insert_book coin ob [] = (coin, ob) ∷ []
insert_book coin ob ((c, b) ∷ books) =
    if same_text c coin then (coin, ob) ∷ books else (c, b) ∷ insert_book coin ob books

-- A message of the stream: a text, with what it deserializes to if it does, a close, or another kind.
-- A ping is answered, which changes nothing here.
pub data Message : Type 0 where
  text_message : Option WsEnvelope → Message
  close other : Message

module _ {F : Type 0} ⦃fl : Float F⦄ where
  open fl use {◌⊕◌, ◌⊖◌, ◌⊗◌, ◌⊘◌, lt, le, minimum, maximum}

  infixl 65 ◌⊕◌ ◌⊖◌
  infixl 70 ◌⊗◌ ◌⊘◌
  unfoldable pub parse_f64 : (String → Option F) → String → F
  parse_f64 parse s = elim (parse s) [ none ↦ nought | some x ↦ x ]

  -- One side of the book; a side that is missing is empty.
  unfoldable pub side : (String → Option F) → Option (List L2Level) → List (F × F)
  unfolding parse_f64
  side parse none = []
  side parse (some levels) = map (λ l. (parse_f64 parse l.px, parse_f64 parse l.sz)) levels

  abbrev pub best : List (F × F) → F
  best [] = nought
  best ((p, s) ∷ depth) = p

  unfoldable pub handle_l2_message :
      (String → Option F)
      → (now_ms : ℕ) → Option WsEnvelope
      → BotState F
      → Outcome (Unit {0}) × BotState F
  unfolding side
  handle_l2_message parse now_ms none s = (err rpc_failed, s)
  handle_l2_message parse now_ms (some env) s =
      if not (same_text env.channel "l2Book") then (ok tt, s) else elim env.data_of [
        | none ↦ (err rpc_failed, s)
        | some book_data ↦
            let bids = side parse (get_elem? book_data.levels 0) in
            let asks = side parse (get_elem? book_data.levels 1) in
            (
              ok tt,
              record s {
                orderbooks =
                    insert_book book_data.coin
                      (record {
                        coin = book_data.coin;
                        best_bid = best bids;
                        best_ask = best asks;
                        bid_depth = bids;
                        ask_depth = asks;
                        last_updated_ms = now_ms % 2 ^ 64;
                      })
                      s.orderbooks;
              },
            )
      ]

  -- The loop of `subscribe_l2_book` over the stream, each item with the time of its arrival. It never ends
  -- in success: the caller connects again.
  unfoldable pub l2_loop :
      (String → Option F) → List (ℕ × Option Message) → BotState F → Outcome (Unit {0}) × BotState F
  unfolding handle_l2_message
  l2_loop parse [] s = (err rpc_failed, s)
  l2_loop parse ((now_ms, none) ∷ rest) s = (err rpc_failed, s)
  l2_loop parse ((now_ms, some (text_message envelope)) ∷ rest) s =
      l2_loop parse rest (handle_l2_message parse now_ms envelope s).1
  l2_loop parse ((now_ms, some close) ∷ rest) s = (err rpc_failed, s)
  l2_loop parse ((now_ms, some other) ∷ rest) s = l2_loop parse rest s

  -- `connected` and `subscribed` say whether the connection and the first message succeed.
  unfoldable pub subscribe_l2_book :
      (String → Option F)
      → (connected subscribed : Bool) → List (ℕ × Option Message)
      → BotState F
      → Outcome (Unit {0}) × BotState F
  unfolding l2_loop
  subscribe_l2_book parse connected subscribed messages s =
      if connected && subscribed then l2_loop parse messages s else (err rpc_failed, s)

  -- The loop over the bids: what remains to sell, and the value so far.
  unfoldable pub fill_bids : F → F → List (F × F) → F × F
  fill_bids remaining total_value [] = (remaining, total_value)
  fill_bids remaining total_value ((price, level_size) ∷ depth) =
      let fill = minimum remaining level_size in
      let left = remaining ⊖ fill in
      let value = total_value ⊕ fill ⊗ price in
      let rest = fill_bids left value depth in if le left nought then (left, value) else rest

  abbrev is_empty : List (F × F) → Bool
  is_empty [] = true
  is_empty (l ∷ ls) = false

  unfoldable pub estimate_core_sell_slippage : OrderBook F → F → F
  unfolding fill_bids
  estimate_core_sell_slippage order_book size =
      if is_empty order_book.bid_depth || le size nought
      then one
      else let (remaining, total_value) = fill_bids size nought order_book.bid_depth in
        if lt nought remaining
        then one
        else let vwap = total_value ⊘ size in
          if le order_book.best_bid nought
          then one
          else maximum ((order_book.best_bid ⊖ vwap) ⊘ order_book.best_bid) nought
