-- ===== src/HyperCore/Latest.antt =====
-- What the subscription leaves in the order books (bot/crates/hypercore/src/orderbook.rs).
use Prim.Native.String.{String}
use skua.Prelude.{
  same_text, same_text_iff, ℕ, ◌%◌, ◌^◌, ◌≡◌, refl, ◌∙◌, ap, Bool, true, false, not, Option, none,
  some, List, [], ◌∷◌, inl, inr, Bool-cases, Option-cases, if◌then◌else◌, get_elem?, arith,
}
use skua.Float.{Float}
use skua.Core.State.{BotState}
use skua.Core.Types.{OrderBook}
use skua.HyperCore.Book.{
  WsEnvelope, L2BookData, Message, text_message, close, other, insert_book, side, best,
  handle_l2_message, l2_loop, subscribe_l2_book,
}

-- The order book of a coin.
abbrev pub book_of : {F : Type 0} → String → List (String × OrderBook F) → Option (OrderBook F)
book_of coin [] = none
book_of coin ((c, b) ∷ books) = if same_text c coin then some b else book_of coin books

book_of-insert_book :
    {F : Type 0} (coin other_coin : String) (ob : OrderBook F) (books : List (String × OrderBook F))
    → book_of other_coin (insert_book coin ob books)
      ≡ (if same_text coin other_coin then some ob else book_of other_coin books)
book_of-insert_book coin other_coin ob [] = refl
book_of-insert_book coin other_coin ob ((c, b) ∷ books) = ground (
  arith,
  same_text_iff c coin,
  same_text_iff c other_coin,
  same_text_iff coin other_coin,
  book_of-insert_book coin other_coin ob books,
)

abbrev pub or_else : {A : Type 0} → Option A → Option A → Option A
or_else (some a) b = some a
or_else none b = b

module _ {F : Type 0} ⦃fl : Float F⦄ (parse : String → Option F) (coin : String) where
  -- The order book that a message holds.
  abbrev pub parsed : ℕ → L2BookData → OrderBook F
  parsed now_ms book =
      let bids = side parse (get_elem? book.levels 0) in
      let asks = side parse (get_elem? book.levels 1) in
      record {
        coin = book.coin;
        best_bid = best bids;
        best_ask = best asks;
        bid_depth = bids;
        ask_depth = asks;
        last_updated_ms = now_ms % 2 ^ 64;
      }

  chosen :
      (b : Bool) (ob : OrderBook F) (before : Option (OrderBook F))
      → (if b then some ob else before) ≡ or_else (if b then some ob else none) before
  chosen true ob before = refl
  chosen false ob before = refl

  -- The book that a message holds for the coin.
  abbrev pub book_for : ℕ → Option WsEnvelope → Option (OrderBook F)
  book_for now_ms none = none
  book_for now_ms (some envelope) =
      if not (same_text envelope.channel "l2Book") then none else elim envelope.data_of [
        | none ↦ none
        | some book ↦ if same_text book.coin coin then some (parsed now_ms book) else none
      ]

  -- The last book for the coin before the stream breaks off.
  abbrev pub latest : List (ℕ × Option Message) → Option (OrderBook F)
  latest [] = none
  latest ((now_ms, none) ∷ rest) = none
  latest ((now_ms, some (text_message envelope)) ∷ rest) =
      or_else (latest rest) (book_for now_ms envelope)
  latest ((now_ms, some close) ∷ rest) = none
  latest ((now_ms, some other) ∷ rest) = latest rest

  handle_l2_message-book_of :
      (now_ms : ℕ) (envelope : Option WsEnvelope) (s : BotState F)
      → book_of coin (handle_l2_message parse now_ms envelope s).1.orderbooks
        ≡ or_else (book_for now_ms envelope) (book_of coin s.orderbooks)
  unfolding handle_l2_message
  handle_l2_message-book_of now_ms none s = refl
  handle_l2_message-book_of now_ms (some envelope) s =
      elim (Bool-cases (same_text envelope.channel "l2Book")) [
        | inl books ↦ elim (Option-cases envelope.data_of) [
          | inl empty ↦ rw (books, empty, handle_l2_message) refl
          | inr (book, held) ↦
              rw (books, held, handle_l2_message)
                (book_of-insert_book book.coin coin (parsed now_ms book) s.orderbooks
                  ∙ chosen (same_text book.coin coin) (parsed now_ms book)
                      (book_of coin s.orderbooks))
        ]
        | inr another ↦ rw (another, handle_l2_message) refl
      ]

  or_else_assoc : (a b c : Option (OrderBook F)) → or_else a (or_else b c) ≡ or_else (or_else a b) c
  or_else_assoc (some a) b c = refl
  or_else_assoc none b c = refl

  l2_loop-latest :
      (messages : List (ℕ × Option Message)) (s : BotState F)
      → book_of coin (l2_loop parse messages s).1.orderbooks
        ≡ or_else (latest messages) (book_of coin s.orderbooks)
  unfolding l2_loop
  l2_loop-latest [] s = refl
  l2_loop-latest ((now_ms, none) ∷ rest) s = refl
  l2_loop-latest ((now_ms, some (text_message envelope)) ∷ rest) s =
      l2_loop-latest rest (handle_l2_message parse now_ms envelope s).1
      ∙ ap (or_else (latest rest)) (handle_l2_message-book_of now_ms envelope s)
      ∙ or_else_assoc (latest rest) (book_for now_ms envelope) (book_of coin s.orderbooks)
  l2_loop-latest ((now_ms, some close) ∷ rest) s = refl
  l2_loop-latest ((now_ms, some other) ∷ rest) s = l2_loop-latest rest s

  -- When a subscription ends, the order book of each coin is the one of the last message for it before
  -- the stream closed or failed; with no such message, the one from before. Messages that do not parse,
  -- of other channels or for other coins leave it alone.
  pub subscribe_l2_book-latest :
      (messages : List (ℕ × Option Message)) (s : BotState F)
      → book_of coin (subscribe_l2_book parse true true messages s).1.orderbooks
        ≡ or_else (latest messages) (book_of coin s.orderbooks)
  unfolding subscribe_l2_book
  subscribe_l2_book-latest messages s = l2_loop-latest messages s
