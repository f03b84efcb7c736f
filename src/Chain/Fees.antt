-- ===== src/Chain/Fees.antt =====
-- bot/crates/chain/src/fee_refresh.rs
use skua.Prelude.{
  ℕ, ◌+◌, ◌*◌, ◌/◌, ◌%◌, ◌^◌, ◌&&◌, not, Option, none, some, ◌==◌, ltb, if◌then◌else◌,
}
use skua.Core.State.{BotState}
use skua.World.{Outcome, ok, err, rpc_failed}

-- a percentage scaled by 10^18, in bps; the product in u128 wraps
unfoldable pub bps_of_wad : ℕ → ℕ
bps_of_wad wad = (wad * 10_000 % 2 ^ 128) / 1_000_000_000_000_000_000 % 2 ^ 64

module _ {F : Type 0} where
  -- `hl_raw` is the answer of the HyperLend pool and `bal_raw` that of the Balancer vault. The first fee
  -- is stored before the second is asked for.
  unfoldable pub refresh_fees : Option ℕ → Option ℕ → BotState F → Outcome (ℕ × ℕ) × BotState F
  unfolding bps_of_wad
  refresh_fees none bal_raw s = (err rpc_failed, s)
  refresh_fees (some hl_raw) none s =
      (err rpc_failed, record s { hyperlend_fee_bps = hl_raw % 2 ^ 64 })
  refresh_fees (some hl_raw) (some wad) s =
      let t = record s { hyperlend_fee_bps = hl_raw % 2 ^ 64 } in
      if ltb wad (2 ^ 128)
      then (ok (hl_raw % 2 ^ 64, bps_of_wad wad), record t { balancer_fee_bps = bps_of_wad wad })
      else (err rpc_failed, t)

  -- One round of `fee_refresh_loop`, with the block of the last refresh.
  unfoldable pub refresh_round :
      Option ℕ → Option ℕ → (last_refresh_block : ℕ) → BotState F → ℕ × BotState F
  unfolding refresh_fees
  refresh_round hl_raw bal_raw last_refresh_block s =
      if ltb s.current_block (last_refresh_block + 1_000) && not (last_refresh_block == 0)
      then (last_refresh_block, s)
      else let r = refresh_fees hl_raw bal_raw s in
        elim r.0 [ ok fees ↦ (s.current_block, r.1) | err e ↦ (last_refresh_block, r.1) ]
