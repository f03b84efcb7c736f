-- ===== src/EvmArb/Leak.antt =====
-- What a failed transaction of S1 does to the wallets (bot/crates/strategies/evm_arb/src/executor.rs): the
-- errors of `build_raw_tx` and of `submit_sync` return before the release.
use skua.Prelude.{ℕ, ◌≡◌, refl, subst, sym, inl, inr, All, Bool-cases, Option-cases, leb, ◌-◌}
use skua.Float.{Float}
use skua.Core.Config.{SkuaConfig}
use skua.Executor.WalletPool
use skua.Executor.Selection.{IsBusy}
use skua.Executor.Leak.{acquire_claims-All}
use skua.Submit.{build_raw_tx, submit_sync}
use skua.Submit.Breaker.{IsErr}
use skua.Dispatch.Stuck.{next_nonce-All}
use skua.Dispatch.Reuse.{submit_sync-wallets}
use skua.World
use skua.World.{World, M, Outcome, ok, err, Call, Receipt, after, pure, ◌>>◌}
use skua.EvmArb.Phase.{
  S1Phase, idle, phase1_complete, phase2_pending, phase2_complete, emergency_exited,
  should_emergency_exit, phase2_timeout,
}
use skua.EvmArb.Sending.{S1World, Env, Market, with_wallet, send_from}
use skua.EvmArb.Executor.{execute_phase2, trigger_emergency_exit, tick_phase, tick}
use skua.EvmArb.Machine.{phase}

-- The strategy has left its first phase, and is not back there.
abbrev pub IsHolding : {F : Type 0} → S1Phase F → Type 0
IsHolding idle = ⊥
IsHolding _ = Unit

-- If it fails, then every wallet is claimed and the phase is the one given.
module _ {F : Type 0} where
  abbrev IsStuckAt : {A : Type 0} → S1Phase F → Outcome A × S1World F → Type 0
  IsStuckAt p r = IsErr r.0 → All IsBusy r.1.world.wallets × (phase r.1 ≡ p)

  release-stuck :
      (now i : ℕ) (r : Outcome Receipt × World F)
      → All IsBusy r.1.wallets
      → let x = after r (λ (receipt : Receipt). World.release now i >> pure receipt) in
        IsErr x.0 → All IsBusy x.1.wallets
  release-stuck now i (err e, w) busy = λ bad. busy
  release-stuck now i (ok receipt, w) busy =
      elim (Option-cases (WalletPool.release now i w.wallets)) [
        | inl gone ↦ rw (gone, World.release) (λ _. busy)
        | inr (p, freed) ↦ rw (freed, World.release) (λ bad. absurd bad)
      ]

  after-stuck :
      {A : Type 0} (p : S1Phase F) (r : Outcome A × S1World F) (k : A → M (S1World F) (Unit {0}))
      → IsStuckAt p r
      → ((a : A) (t : S1World F) → ¬ (IsErr (k a t).0))
      → IsStuckAt p (after r k)
  after-stuck p (err e, s) k h fine bad = h bad
  after-stuck p (ok a, s) k h fine bad = absurd (fine a s bad)

module _ {F : Type 0} ⦃fl : Float F⦄ where
  send_from-stuck :
      (config : SkuaConfig F) (env : Env) (i to : ℕ) (input : Call) (gas : ℕ) (s : S1World F)
      → All IsBusy s.world.wallets
      → IsStuckAt (phase s) (send_from config env i to input gas s)
  unfolding send_from build_raw_tx
  send_from-stuck config env i to input gas s busy =
      elim (Option-cases (WalletPool.next_nonce i s.world.wallets)) [
        | inl gone ↦ rw (gone, World.next_nonce) (λ _. (busy, refl))
        | inr ((n, p), next) ↦
            let still = next_nonce-All i s.world.wallets n p next busy in
            elim (Bool-cases env.signed) [
              | inl signed ↦
                  rw (next, World.next_nonce)
                    (rw signed (λ bad. (
                      release-stuck env.released_at i (submit_sync config env.send_answer _ _)
                          (subst (All IsBusy) (sym (submit_sync-wallets config env.send_answer _ _))
                            still)
                          bad,
                      refl,
                    )))
              | inr unsigned ↦ rw (next, World.next_nonce) (rw unsigned (λ _. (still, refl)))
            ]
      ]

  with_wallet-stuck :
      (config : SkuaConfig F) (env : Env) (to : ℕ) (input : Call) (gas : ℕ)
      (k : Receipt → M (S1World F) (Unit {0})) (s : S1World F)
      → ((receipt : Receipt) (t : S1World F) → ¬ (IsErr (k receipt t).0))
      → IsStuckAt (phase s) (with_wallet config env to input gas k s)
  unfolding with_wallet
  with_wallet-stuck config env to input gas k s fine =
      let claimed = WalletPool.acquire s.world.wallets in
      let t = record s { world = record s.world { wallets = claimed.1 } } in
      elim (Option-cases claimed.0) [
        | inl full ↦ rw (full, with_wallet) (λ bad. absurd bad)
        | inr (i, free) ↦
            rw (free, with_wallet)
              (after-stuck (phase s) (send_from config env i to input gas t) k
                (send_from-stuck config env i to input gas t (acquire_claims-All s.world.wallets))
                fine)
      ]

  exit-stuck :
      (config : SkuaConfig F) (env : Env) (market : Market F) (token amount : ℕ) (s : S1World F)
      → IsStuckAt (phase s) (trigger_emergency_exit config env market token amount s)
  unfolding trigger_emergency_exit
  exit-stuck config env market token amount s =
      with_wallet-stuck config env _ _ _ _ s (λ receipt t bad. bad)

  execute_phase2-stuck :
      (config : SkuaConfig F) (env : Env) (market : Market F) (token amount : ℕ) (s : S1World F)
      → IsStuckAt (phase s) (execute_phase2 config env market token amount s)
  unfolding execute_phase2
  execute_phase2-stuck config env market token amount s =
      elim (Bool-cases (fl.le (skua.EvmArb.Executor.core_bid s) skua.Float.nought)) [
        | inl dry ↦ rw dry (λ bad. absurd bad)
        | inr bid ↦ rw bid (with_wallet-stuck config env _ _ _ _ s (λ receipt t bad. bad))
      ]

  tick_phase-stuck :
      (fuel : ℕ) (config : SkuaConfig F) (env : Env) (market : Market F) (p : S1Phase F)
      (s : S1World F)
      → IsHolding p
      → IsStuckAt (phase s) (tick_phase fuel config env market p s)
  unfolding tick_phase
  tick_phase-stuck fuel config env market idle s h = absurd h
  tick_phase-stuck fuel config env market (phase1_complete x) s h =
      elim (Bool-cases (
        should_emergency_exit env.now (phase1_complete x) market.token_price_usd
          (fl.◌⊘◌ (fl.cast x.min_phase2_proceeds) (fl.cast x.held_amount)))) [
            | inl leave ↦ rw leave (exit-stuck config env market x.held_token x.held_amount s)
            | inr keep ↦
                rw keep (execute_phase2-stuck config env market x.held_token x.held_amount s)
          ]
  tick_phase-stuck fuel config env market (phase2_pending t a c placed) s h =
      elim (Bool-cases (leb phase2_timeout (env.now - placed))) [
        | inl out ↦ rw out (exit-stuck config env market t a s)
        | inr on ↦ rw on (λ bad. absurd bad)
      ]
  tick_phase-stuck fuel config env market (phase2_complete proceeds) s h = λ bad. absurd bad
  tick_phase-stuck fuel config env market (emergency_exited swapped) s h = λ bad. absurd bad

  -- A tick that fails while the strategy is past its first phase leaves every wallet of the pool claimed,
  -- and its phase as it was: the sale or the exit was not made, and no wallet is left to make it.
  pub tick_stuck :
      (fuel : ℕ) (config : SkuaConfig F) (env : Env) (market : Market F) (s : S1World F)
      → IsHolding (phase s)
      → IsErr (tick fuel config env market s).0
      → let t = (tick fuel config env market s).1 in
        All IsBusy t.world.wallets × (phase t ≡ phase s)
  unfolding tick
  tick_stuck fuel config env market s h = elim (Bool-cases s.world.bot.s1_enabled) [
    | inl on ↦ rw on (tick_phase-stuck fuel config env market (phase s) _ h)
    | inr off ↦ rw off (λ bad. absurd bad)
  ]
