-- ===== src/Main/Background.antt =====
-- What the background loops of bot/src/main.rs leave alone: the breakers and the pools.
use Prim.Native.String.{String}
use skua.Prelude.{
  ℕ, ◌≡◌, refl, ◌∙◌, List, [], ◌∷◌, Option, none, some, inl, inr, Option-cases, if_keep, leb, ◌+◌,
  arith, if◌then◌else◌,
}
use skua.Float.{Float}
use skua.Core.State.{BotState}
use skua.Chain.Blocks.{Header, Channel, process_block_header}
use skua.Chain.Fees.{refresh_fees, refresh_round}
use skua.HyperCore.Precompile.{read_price, refresh_hype_price}
use skua.HyperCore.Book.{WsEnvelope, handle_l2_message}
use skua.Liquidation.Monitor.{
  RegisteredAsset, UserReserve, LogEvent, log, stream_ended, timeout, read_reserves,
  refresh_borrower_position, at_risk, refresh_all, reconcile_at_risk_positions,
  extract_borrower_from_log, indexer_round,
}

-- The second state has the breakers and the pools of the first.
pub record Untouched {F : Type 0} (s t : BotState F) : Type 0 where
  pub switch : t.kill_switch ≡ s.kill_switch
  pub count : t.consecutive_reverts ≡ s.consecutive_reverts
  pub pools : t.pool_states ≡ s.pool_states

module _ {F : Type 0} where
  pub Untouched-refl : (s : BotState F) → Untouched s s
  Untouched-refl s = record { switch = refl; count = refl; pools = refl }

  Untouched-trans : (s t u : BotState F) → Untouched s t → Untouched t u → Untouched s u
  Untouched-trans s t u a b = record {
    switch = b.switch ∙ a.switch;
    count = b.count ∙ a.count;
    pools = b.pools ∙ a.pools;
  }

  pub process_block_header-Untouched :
      (h : Header) (now_ms : ℕ) (s : BotState F) (c : Channel)
      → Untouched s (process_block_header h now_ms (s, c)).0
  unfolding process_block_header
  process_block_header-Untouched h now_ms s c = record { switch = refl; count = refl; pools = refl }

  pub refresh_round-Untouched :
      (hl_raw bal_raw : Option ℕ) (last : ℕ) (s : BotState F)
      → Untouched s (refresh_round hl_raw bal_raw last s).1
  unfolding refresh_round refresh_fees
  refresh_round-Untouched none bal_raw last s = ground arith
  refresh_round-Untouched (some hl) none last s = ground arith
  refresh_round-Untouched (some hl) (some wad) last s = ground arith

  pub refresh_hype_price-Untouched :
      (answer : Option ℕ) (s : BotState F) → Untouched s (refresh_hype_price answer s).1
  unfolding refresh_hype_price read_price
  refresh_hype_price-Untouched none s = Untouched-refl s
  refresh_hype_price-Untouched (some price) s = ground arith

module _ {F : Type 0} ⦃fl : Float F⦄ where
  pub handle_l2_message-Untouched :
      (parse : String → Option F) (now_ms : ℕ) (message : Option WsEnvelope) (s : BotState F)
      → Untouched s (handle_l2_message parse now_ms message s).1
  unfolding handle_l2_message
  handle_l2_message-Untouched parse now_ms none s = Untouched-refl s
  handle_l2_message-Untouched parse now_ms (some env) s = ground arith

  refresh_borrower_position-Untouched :
      (query : ℕ → Option UserReserve) (borrower : ℕ) (assets : List (RegisteredAsset F))
      (s : BotState F)
      → Untouched s (refresh_borrower_position query borrower assets s).1
  unfolding refresh_borrower_position
  refresh_borrower_position-Untouched query borrower assets s =
      elim (Option-cases (read_reserves query assets ([], []))) [
        | inl failed ↦ rw (failed, refresh_borrower_position) (Untouched-refl s)
        | inr (found, done) ↦
            rw (done, refresh_borrower_position)
              (record { switch = refl; count = refl; pools = refl })
      ]

  refresh_all-Untouched :
      (query : ℕ → ℕ → Option UserReserve) (assets : List (RegisteredAsset F)) (addrs : List ℕ)
      (s : BotState F)
      → Untouched s (refresh_all query assets addrs s)
  unfolding refresh_all
  refresh_all-Untouched query assets [] s = Untouched-refl s
  refresh_all-Untouched query assets (addr ∷ rest) s =
      let t = (refresh_borrower_position (query addr) addr assets s).1 in
      Untouched-trans s t (refresh_all query assets rest t)
        (refresh_borrower_position-Untouched (query addr) addr assets s)
        (refresh_all-Untouched query assets rest t)

  abbrev reconciled :
      (ℕ → ℕ → Option UserReserve) → List (RegisteredAsset F) → (last : ℕ) → BotState F → BotState F
  reconciled query assets last s =
      if leb (last + 10) s.current_block then reconcile_at_risk_positions query assets s else s

  reconciled-Untouched :
      (query : ℕ → ℕ → Option UserReserve) (assets : List (RegisteredAsset F)) (last : ℕ)
      (s : BotState F)
      → Untouched s (reconciled query assets last s)
  unfolding reconcile_at_risk_positions
  reconciled-Untouched query assets last s =
      if_keep (Untouched s) (leb (last + 10) s.current_block)
        (refresh_all query assets (at_risk s.hyperlend_positions) s) s
        (refresh_all-Untouched query assets (at_risk s.hyperlend_positions) s) (Untouched-refl s)

  pub indexer_round-Untouched :
      (query : ℕ → ℕ → Option UserReserve) (assets : List (RegisteredAsset F)) (event : LogEvent)
      (last : ℕ) (s : BotState F)
      → Untouched s (indexer_round query assets event last s).1
  unfolding indexer_round
  indexer_round-Untouched query assets (log topics) last s =
      let t = reconciled query assets last s in
      let before = reconciled-Untouched query assets last s in
      elim (Option-cases (extract_borrower_from_log topics)) [
        | inl no_borrower ↦ rw (no_borrower, indexer_round) before
        | inr (borrower, found) ↦
            rw (found, indexer_round)
              (Untouched-trans s t (refresh_borrower_position (query borrower) borrower assets t).1
                before (refresh_borrower_position-Untouched (query borrower) borrower assets t))
      ]
  indexer_round-Untouched query assets stream_ended last s =
      reconciled-Untouched query assets last s
  indexer_round-Untouched query assets timeout last s = reconciled-Untouched query assets last s
