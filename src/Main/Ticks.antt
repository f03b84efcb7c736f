-- ===== src/Main/Ticks.antt =====
-- The tick of S1 keeps what every submission keeps (bot/crates/strategies/evm_arb/src/executor.rs).
use skua.Prelude.{
  ℕ, refl, List, none, some, inl, inr, In, Bool-cases, Option-cases, lookup, if_keep, ◌-◌, leb,
}
use skua.Float.{Float, nought}
use skua.Core.Config.{SkuaConfig}
use skua.Core.State.{BotState, base_fee_wei}
use skua.Core.Gas.{compute_gas_price}
use skua.Core.Types.{SizingResult, PoolState}
use skua.Executor.WalletPool
use skua.Submit.{build_raw_tx, submit_sync}
use skua.Scanner.Signals.{evaluate}
use skua.World
use skua.World.{World, M, Outcome, ok, err, Call, Tx, Receipt, ◌>>◌, out_of_fuel}
use skua.EvmArb.Phase.{
  S1Phase, idle, phase1_complete, phase2_pending, phase2_complete, emergency_exited,
  should_emergency_exit, phase2_timeout,
}
use skua.EvmArb.Sending.{S1World, Env, Market, with_wallet, send_from}
use skua.EvmArb.Executor.{
  core_bid, phase1_sizing, phase1_checks, record_phase1, enter_phase1, try_phase1, execute_phase2,
  trigger_emergency_exit, tick_phase, tick,
}
use skua.Main.Keeps.{Kept, Holds, contracts, after-Holds, release-Holds}

module _ {F : Type 0} (P : BotState F → List Tx → Type 0) where
  abbrev pub HoldsAt : S1World F → Type 0
  HoldsAt s = Holds P s.world

  after-HoldsAt :
      {A B : Type 0} (r : Outcome A × S1World F) (f : A → M (S1World F) B)
      → HoldsAt r.1
      → ((a : A) (s : S1World F) → HoldsAt s → HoldsAt (f a s).1)
      → HoldsAt (World.after r f).1
  after-HoldsAt (ok a, s) f h k = k a s h
  after-HoldsAt (err e, s) f h k = h

module _ {F : Type 0} ⦃fl : Float F⦄ (config : SkuaConfig F) (P : BotState F → List Tx → Type 0)
    (kept : Kept config P) where
  open fl use {le, cast, ◌⊘◌}

  send_from-HoldsAt :
      (env : Env) (i to : ℕ) (input : Call) (gas : ℕ) (s : S1World F)
      → In to (contracts config)
      → HoldsAt P s
      → HoldsAt P (send_from config env i to input gas s).1
  unfolding send_from build_raw_tx
  send_from-HoldsAt env i to input gas s ours h =
      elim (Option-cases (WalletPool.next_nonce i s.world.wallets)) [
        | inl gone ↦ rw (gone, World.next_nonce) h
        | inr ((n, p), next) ↦
            let u = record s.world { wallets = p } in
            let tx : Tx = record {
              from = i;
              to = to;
              input = input;
              nonce = n;
              gas_limit = gas;
              gas_price =
                  compute_gas_price (base_fee_wei s.world.bot) config.gasprice_multiplier_arb;
              chain_id = config.chain_id;
            } in
            rw (next, World.next_nonce)
              (elim (Bool-cases env.signed) [
                | inl signed ↦ rw signed (
                    after-Holds P (submit_sync config env.send_answer tx u)
                      (λ (receipt : Receipt). World.release env.released_at i >> World.pure receipt)
                      (kept.keep env.send_answer tx u (record { chain = refl; target = ours }) h)
                      (λ receipt v g.
                        after-Holds P (World.release env.released_at i v) _
                          (release-Holds P env.released_at i v g) (λ a w k. k)))
                | inr unsigned ↦ rw unsigned h
              ])
      ]

  with_wallet-HoldsAt :
      (env : Env) (to : ℕ) (input : Call) (gas : ℕ) (k : Receipt → M (S1World F) (Unit {0}))
      (s : S1World F)
      → In to (contracts config)
      → ((receipt : Receipt) (t : S1World F) → HoldsAt P t → HoldsAt P (k receipt t).1)
      → HoldsAt P s
      → HoldsAt P (with_wallet config env to input gas k s).1
  unfolding with_wallet
  with_wallet-HoldsAt env to input gas k s ours fine h =
      let claimed = WalletPool.acquire s.world.wallets in
      let t = record s { world = record s.world { wallets = claimed.1 } } in
      elim (Option-cases claimed.0) [
        | inl full ↦ rw (full, with_wallet) h
        | inr (i, free) ↦
            rw (free, with_wallet)
              (after-HoldsAt P (send_from config env i to input gas t) k
                (send_from-HoldsAt env i to input gas t ours h) fine)
      ]

  enter_phase1-HoldsAt :
      (env : Env) (market : Market F) (ps : PoolState F) (z : SizingResult F) (s : S1World F)
      → HoldsAt P s
      → HoldsAt P (enter_phase1 config env market ps z s).1
  unfolding enter_phase1 record_phase1
  enter_phase1-HoldsAt env market ps z s h =
      with_wallet-HoldsAt env config.contract_evm_arb _ _ (record_phase1 env market z) s (inl refl)
        (λ receipt t g.
          if_keep (λ (m : M (S1World F) (Unit {0})). HoldsAt P (m t).1) receipt.status _ _ g g)
        h

  try_phase1-HoldsAt :
      (fuel : ℕ) (env : Env) (market : Market F) (s : S1World F)
      → HoldsAt P s
      → HoldsAt P (try_phase1 fuel config env market s).1
  unfolding try_phase1
  try_phase1-HoldsAt fuel env market s h = elim (Option-cases (evaluate s.executor.detector)) [
    | inl calm ↦ rw (calm, try_phase1) h
    | inr (signal, found) ↦ elim (Option-cases (lookup market.evm_pool s.world.bot.pool_states)) [
      | inl unknown ↦ rw (found, unknown, try_phase1) h
      | inr (ps, known) ↦ elim (Option-cases (phase1_sizing fuel config market ps s)) [
        | inl out ↦ rw (found, known, out, try_phase1) h
        | inr (none, nothing) ↦ rw (found, known, nothing, try_phase1) h
        | inr (some z, sized) ↦
            rw (found, known, sized, try_phase1)
              (if_keep (λ (r : Outcome (Unit {0}) × S1World F). HoldsAt P r.1)
                (phase1_checks config env market z s) (enter_phase1 config env market ps z s)
                (ok tt, s) (enter_phase1-HoldsAt env market ps z s h) h)
      ]
    ]
  ]

  exit-HoldsAt :
      (env : Env) (market : Market F) (token amount : ℕ) (s : S1World F)
      → HoldsAt P s
      → HoldsAt P (trigger_emergency_exit config env market token amount s).1
  unfolding trigger_emergency_exit
  exit-HoldsAt env market token amount s h =
      with_wallet-HoldsAt env config.contract_evm_arb _ _ _ s (inl refl) (λ receipt t g. g) h

  execute_phase2-HoldsAt :
      (env : Env) (market : Market F) (token amount : ℕ) (s : S1World F)
      → HoldsAt P s
      → HoldsAt P (execute_phase2 config env market token amount s).1
  unfolding execute_phase2
  execute_phase2-HoldsAt env market token amount s h = elim (Bool-cases (le (core_bid s) nought)) [
    | inl dry ↦ rw dry h
    | inr bid ↦
        rw bid (
          with_wallet-HoldsAt env _ _ _ _ s (inr (inr (inr (inr (inl refl))))) (λ receipt t g. g) h)
  ]

  tick_phase-HoldsAt :
      (fuel : ℕ) (env : Env) (market : Market F) (p : S1Phase F) (s : S1World F)
      → HoldsAt P s
      → HoldsAt P (tick_phase fuel config env market p s).1
  unfolding tick_phase
  tick_phase-HoldsAt fuel env market idle s h = try_phase1-HoldsAt fuel env market s h
  tick_phase-HoldsAt fuel env market (phase1_complete x) s h =
      if_keep (λ (m : M (S1World F) (Unit {0})). HoldsAt P (m s).1)
        (should_emergency_exit env.now (phase1_complete x) market.token_price_usd
          (◌⊘◌ (cast x.min_phase2_proceeds) (cast x.held_amount)))
        (trigger_emergency_exit config env market x.held_token x.held_amount)
        (execute_phase2 config env market x.held_token x.held_amount)
        (exit-HoldsAt env market x.held_token x.held_amount s h)
        (execute_phase2-HoldsAt env market x.held_token x.held_amount s h)
  tick_phase-HoldsAt fuel env market (phase2_pending t a c placed) s h =
      if_keep (λ (m : M (S1World F) (Unit {0})). HoldsAt P (m s).1)
        (leb phase2_timeout (env.now - placed)) (trigger_emergency_exit config env market t a)
        (World.pure tt) (exit-HoldsAt env market t a s h) h
  tick_phase-HoldsAt fuel env market (phase2_complete proceeds) s h = h
  tick_phase-HoldsAt fuel env market (emergency_exited swapped) s h = h

  pub tick-HoldsAt :
      (fuel : ℕ) (env : Env) (market : Market F) (s : S1World F)
      → HoldsAt P s
      → HoldsAt P (tick fuel config env market s).1
  unfolding tick
  tick-HoldsAt fuel env market s h =
      if_keep (λ (r : Outcome (Unit {0}) × S1World F). HoldsAt P r.1) s.world.bot.s1_enabled _
        (ok tt, s) (tick_phase-HoldsAt fuel env market s.executor.state_machine _ h) h
