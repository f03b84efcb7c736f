-- ===== src/EvmArb/Machine.antt =====
-- The state machine of `S1Executor` (bot/crates/strategies/evm_arb/src/executor.rs) as a relation on
-- phases, and the ticks as steps of it.
use skua.Prelude.{
  ℕ, ◌≡◌, refl, sym, subst, ◌-◌, none, some, List, [], ◌∷◌, inl, inr, Bool-cases, Option-cases, leb,
  lookup,
}
use skua.Float.{Float, nought}
use skua.Core.Config.{SkuaConfig}
use skua.Core.Types.{PoolState, SizingResult}
use skua.Scanner.Signals.{evaluate}
use skua.Executor.WalletPool
use skua.World.{M, Outcome, ok, err, Call, Receipt, after}
use skua.EvmArb.Phase.{
  S1Phase, Held, idle, phase1_complete, phase2_pending, phase2_complete, emergency_exited,
  should_emergency_exit, phase2_timeout,
}
use skua.EvmArb.Sending.{S1World, Env, Market, with_wallet, send_from}
use skua.EvmArb.Executor.{
  phase1_sizing, phase1_checks, core_bid, record_phase1, enter_phase1, try_phase1, execute_phase2,
  trigger_emergency_exit, tick_phase, tick,
}

-- Every way of a tick from one phase to another: what is held goes from phase to phase until it is
-- swapped out.
pub data Step (F : Type 0) : S1Phase F → S1Phase F → Type 0 where
  stay : (p : S1Phase F) → Step F p p
  enter : (h : Held F) → Step F idle (phase1_complete h)
  sell :
      (h : Held F) (now : ℕ)
      → Step F (phase1_complete h) (phase2_pending h.held_token h.held_amount 0 now)
  leave : (h : Held F) → Step F (phase1_complete h) (emergency_exited h.held_amount)
  expire : (t a c placed : ℕ) → Step F (phase2_pending t a c placed) (emergency_exited a)
  complete : (proceeds : F) → Step F (phase2_complete proceeds) idle
  recover : (swapped : ℕ) → Step F (emergency_exited swapped) idle

module _ {F : Type 0} where
  abbrev pub phase : S1World F → S1Phase F
  phase s = s.executor.state_machine

  Step-of : (p q : S1Phase F) → q ≡ p → Step F p q
  Step-of p q e = subst (Step F p) (sym e) (stay p)

  after-Step :
      {A : Type 0} (p : S1Phase F) (r : Outcome A × S1World F) (f : A → M (S1World F) (Unit {0}))
      → phase r.1 ≡ p
      → ((a : A) (s : S1World F) → phase s ≡ p → Step F p (phase (f a s).1))
      → Step F p (phase (after r f).1)
  after-Step p (ok a, s) f e k = k a s e
  after-Step p (err x, s) f e k = Step-of p (phase s) e

module _ {F : Type 0} ⦃fl : Float F⦄ where
  with_wallet-Step :
      (config : SkuaConfig F) (env : Env) (to : ℕ) (input : Call) (gas : ℕ) (p : S1Phase F)
      (k : Receipt → M (S1World F) (Unit {0})) (s : S1World F)
      → ((receipt : Receipt) (t : S1World F) → phase t ≡ p → Step F p (phase (k receipt t).1))
      → phase s ≡ p
      → Step F p (phase (with_wallet config env to input gas k s).1)
  unfolding with_wallet send_from
  with_wallet-Step config env to input gas p k s go e =
      let claimed = WalletPool.acquire s.world.wallets in
      let t = record s { world = record s.world { wallets = claimed.1 } } in
      elim (Option-cases claimed.0) [
        | inl busy ↦ rw (busy, with_wallet) (Step-of p (phase s) e)
        | inr (i, free) ↦
            rw (free, with_wallet) (after-Step p (send_from config env i to input gas t) k e go)
      ]

  record_phase1-Step :
      (env : Env) (market : Market F) (z : SizingResult F) (receipt : Receipt) (s : S1World F)
      → phase s ≡ idle
      → Step F idle (phase (record_phase1 env market z receipt s).1)
  unfolding record_phase1
  record_phase1-Step env market z receipt s e = elim (Bool-cases receipt.status) [
    | inl landed ↦ rw landed (enter _)
    | inr reverted ↦ rw reverted (Step-of idle (phase s) e)
  ]

  enter_phase1-Step :
      (config : SkuaConfig F) (env : Env) (market : Market F) (ps : PoolState F)
      (z : SizingResult F) (s : S1World F)
      → phase s ≡ idle
      → Step F idle (phase (enter_phase1 config env market ps z s).1)
  unfolding enter_phase1
  enter_phase1-Step config env market ps z s e =
      with_wallet-Step config env _ _ _ idle _ s (record_phase1-Step env market z) e

  execute_phase2-Step :
      (config : SkuaConfig F) (env : Env) (market : Market F) (h : Held F) (s : S1World F)
      → phase s ≡ phase1_complete h
      → Step F
          (phase1_complete h)
          (phase (execute_phase2 config env market h.held_token h.held_amount s).1)
  unfolding execute_phase2
  execute_phase2-Step config env market h s e = elim (Bool-cases (fl.le (core_bid s) nought)) [
    | inl dead ↦ rw dead (Step-of _ (phase s) e)
    | inr live ↦ rw live (
        with_wallet-Step config env _ _ _ (phase1_complete h) _ s (λ receipt t at. sell h env.now)
          e)
  ]

  trigger_emergency_exit-Step :
      (config : SkuaConfig F) (env : Env) (market : Market F) (token amount : ℕ) (p : S1Phase F)
      (s : S1World F)
      → Step F p (emergency_exited amount)
      → phase s ≡ p
      → Step F p (phase (trigger_emergency_exit config env market token amount s).1)
  unfolding trigger_emergency_exit
  trigger_emergency_exit-Step config env market token amount p s out e =
      with_wallet-Step config env _ _ _ p _ s (λ receipt t at. out) e

  try_phase1-Step :
      (fuel : ℕ) (config : SkuaConfig F) (env : Env) (market : Market F) (s : S1World F)
      → phase s ≡ idle
      → Step F idle (phase (try_phase1 fuel config env market s).1)
  unfolding try_phase1
  try_phase1-Step fuel config env market s e =
      let none_done = Step-of idle (phase s) e in
      elim (Option-cases (evaluate s.executor.detector)) [
        | inl quiet ↦ rw (quiet, try_phase1) none_done
        | inr (signal, seen) ↦
            rw (seen, try_phase1)
              (elim (Option-cases (lookup market.evm_pool s.world.bot.pool_states)) [
                | inl unknown ↦ rw unknown none_done
                | inr (ps, known) ↦
                    rw known (elim (Option-cases (phase1_sizing fuel config market ps s)) [
                      | inl out ↦ rw out none_done
                      | inr (none, nothing) ↦ rw nothing none_done
                      | inr (some z, sized) ↦
                          rw sized (elim (Bool-cases (phase1_checks config env market z s)) [
                            | inl good ↦ rw good (enter_phase1-Step config env market ps z s e)
                            | inr bad ↦ rw bad none_done
                          ])
                    ])
              ])
      ]

  tick_phase-Step :
      (fuel : ℕ) (config : SkuaConfig F) (env : Env) (market : Market F) (p : S1Phase F)
      (s : S1World F)
      → phase s ≡ p
      → Step F p (phase (tick_phase fuel config env market p s).1)
  unfolding tick_phase
  tick_phase-Step fuel config env market idle s e = try_phase1-Step fuel config env market s e
  tick_phase-Step fuel config env market (phase1_complete h) s e =
      let expected = fl.◌⊘◌ (fl.cast h.min_phase2_proceeds) (fl.cast h.held_amount) in
      elim (Bool-cases
        (should_emergency_exit env.now (phase1_complete h) market.token_price_usd expected)) [
          | inl out ↦ rw out (
              trigger_emergency_exit-Step config env market h.held_token h.held_amount _ s (leave h)
                e)
          | inr on ↦ rw on (execute_phase2-Step config env market h s e)
        ]
  tick_phase-Step fuel config env market (phase2_pending t a c placed) s e =
      elim (Bool-cases (leb phase2_timeout (env.now - placed))) [
        | inl out ↦
            rw out (trigger_emergency_exit-Step config env market t a _ s (expire t a c placed) e)
        | inr on ↦ rw on (Step-of _ (phase s) e)
      ]
  tick_phase-Step fuel config env market (phase2_complete proceeds) s e = complete proceeds
  tick_phase-Step fuel config env market (emergency_exited swapped) s e = recover swapped

  -- Every tick, whatever the node answers and the clock reads, stays in its phase or takes a step of
  -- the state machine: the amount bought in phase 1 stays recorded until an order to sell it or an
  -- emergency exit, and the order that is not confirmed in time is followed by an emergency exit of
  -- the same amount.
  pub tick-Step :
      (fuel : ℕ) (config : SkuaConfig F) (env : Env) (market : Market F) (s : S1World F)
      → Step F (phase s) (phase (tick fuel config env market s).1)
  unfolding tick
  tick-Step fuel config env market s = elim (Bool-cases s.world.bot.s1_enabled) [
    | inl on ↦ rw on (tick_phase-Step fuel config env market (phase s) _ refl)
    | inr off ↦ rw off (stay (phase s))
  ]

  -- Ticks one after another, whether or not they fail, each with its own answers and market.
  abbrev pub ticks : ℕ → SkuaConfig F → List (Env × Market F) → S1World F → S1World F
  ticks fuel config [] s = s
  ticks fuel config ((env, market) ∷ rest) s =
      ticks fuel config rest (tick fuel config env market s).1

  abbrev pub IsSold : S1Phase F → Type 0
  IsSold (phase2_complete proceeds) = Unit
  IsSold _ = ⊥

  Step-IsSold : (p q : S1Phase F) → Step F p q → ¬ (IsSold p) → ¬ (IsSold q)
  Step-IsSold _ _ (stay p) h = h
  Step-IsSold _ _ (enter x) h = λ v. v
  Step-IsSold _ _ (sell x now) h = λ v. v
  Step-IsSold _ _ (leave x) h = λ v. v
  Step-IsSold _ _ (expire t a c placed) h = λ v. v
  Step-IsSold _ _ (complete proceeds) h = λ v. v
  Step-IsSold _ _ (recover swapped) h = λ v. v

  -- No sequence of ticks reaches the phase of a completed sale from another phase, whatever the node
  -- answers and the clock reads.
  pub ticks-IsSold :
      (fuel : ℕ) (config : SkuaConfig F) (rounds : List (Env × Market F)) (s : S1World F)
      → ¬ (IsSold (phase s))
      → ¬ (IsSold (phase (ticks fuel config rounds s)))
  ticks-IsSold fuel config [] s h = h
  ticks-IsSold fuel config ((env, market) ∷ rest) s h =
      ticks-IsSold fuel config rest (tick fuel config env market s).1
        (Step-IsSold _ _ (tick-Step fuel config env market s) h)
