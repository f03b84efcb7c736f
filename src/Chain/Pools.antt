-- ===== src/Chain/Pools.antt =====
-- bot/crates/chain/src/pool_monitor.rs
use skua.Prelude.{ℕ, ◌+◌, Option, none, some, List, [], ◌∷◌, ◌==◌, leb, if◌then◌else◌, insert}
use skua.Float.{Float, nought}
use skua.Core.State.{BotState}
use skua.Core.Types.{PoolState, PoolType, pool_updated}
use skua.World.{Outcome, ok, err, rpc_failed}
use skua.Chain.Blocks.{Channel, try_send}

-- A log, with the reserves that its data decodes to, or none.
pub record Log : Type 0 where
  pub address : ℕ
  pub block_number : Option ℕ
  pub sync : Option (ℕ × ℕ)

-- What the stream gives in one round.
pub data StreamEvent : Type 0 where
  next_log : Log → StreamEvent
  ended timed_out : StreamEvent

abbrev pub block_or_zero : Option ℕ → ℕ
block_or_zero none = 0
block_or_zero (some b) = b

module _ {F : Type 0} where
  -- `get_mut` of a pool and the writes of its reserves; an unknown pool is left out.
  unfoldable pub set_reserves :
      (pool r0 r1 block : ℕ) → List (ℕ × PoolState F) → List (ℕ × PoolState F)
  set_reserves pool r0 r1 block [] = []
  set_reserves pool r0 r1 block ((addr, ps) ∷ pools) =
      if addr == pool
      then (addr, record ps { reserve_a = r0; reserve_b = r1; last_updated = block }) ∷ pools
      else (addr, ps) ∷ set_reserves pool r0 r1 block pools

  unfoldable pub handle_sync_log :
      Log → BotState F × Channel → Outcome (Unit {0}) × BotState F × Channel
  unfolding set_reserves try_send
  handle_sync_log l (s, event_tx) = elim l.sync [
    | none ↦ (err rpc_failed, s, event_tx)
    | some (r0, r1) ↦ (
      ok tt,
      record s {
        pool_states = set_reserves l.address r0 r1 (block_or_zero l.block_number) s.pool_states;
      },
      try_send (pool_updated l.address) event_tx,
    )
  ]

  unfoldable pub reconcile_pool : (pool : ℕ) → Option (ℕ × ℕ) → BotState F → BotState F
  unfolding set_reserves
  reconcile_pool addr none s = s
  reconcile_pool addr (some (r0, r1)) s = record s {
    pool_states = set_reserves addr r0 r1 s.current_block s.pool_states;
  }

  -- `getReserves` of each pool in turn; a pool that does not answer keeps its state.
  unfoldable pub reconcile_pools : (ℕ → Option (ℕ × ℕ)) → List ℕ → BotState F → BotState F
  unfolding reconcile_pool
  reconcile_pools query [] s = s
  reconcile_pools query (addr ∷ rest) s =
      reconcile_pools query rest (reconcile_pool addr (query addr) s)

  -- One round of `pool_monitor_loop`, with the block of the last reconciliation; `none` is the end of
  -- the stream.
  unfoldable pub monitor_round :
      (ℕ → Option (ℕ × ℕ))
      → List ℕ
      → StreamEvent
      → ℕ
      → BotState F × Channel
      → Option ℕ × BotState F × Channel
  unfolding reconcile_pools handle_sync_log
  monitor_round query pool_addrs event last_reconcile_block (s, event_tx) =
      let due = leb (last_reconcile_block + 10) s.current_block in
      let t = if due then reconcile_pools query pool_addrs s else s in
      let last = if due then s.current_block else last_reconcile_block in
      elim event [
        | next_log l ↦
            let handled = handle_sync_log l (t, event_tx) in (some last, handled.1, handled.2)
        | ended ↦ (none, t, event_tx)
        | timed_out ↦ (some last, t, event_tx)
      ]

-- What the pair answers: its tokens and its reserves.
pub record PairAnswers : Type 0 where
  pub token0 : Option ℕ
  pub token1 : Option ℕ
  pub reserves : Option (ℕ × ℕ)

module _ {F : Type 0} ⦃fl : Float F⦄ where
  unfoldable pub register_pool :
      PairAnswers
      → (pool_addr : ℕ) → PoolType
      → (fee_bps : ℕ) → BotState F
      → Outcome (Unit {0}) × BotState F
  register_pool pair pool_addr pool_type fee_bps s = elim pair.token0 [
    | none ↦ (err rpc_failed, s)
    | some token_a ↦ elim pair.token1 [
      | none ↦ (err rpc_failed, s)
      | some token_b ↦ elim pair.reserves [
        | none ↦ (err rpc_failed, s)
        | some (r0, r1) ↦ (
          ok tt,
          record s {
            pool_states =
                insert pool_addr
                  (record {
                    reserve_a = r0;
                    reserve_b = r1;
                    token_a = token_a;
                    token_b = token_b;
                    fee_bps = fee_bps;
                    pool_type = pool_type;
                    last_updated = 0;
                    amp = nought;
                  })
                  s.pool_states;
          },
        )
      ]
    ]
  ]
