-- ===== src/Main/Keeps.antt =====
-- What the executors of S2, S3 and S4 leave true of the bot's state and of the transactions sent: they
-- change them by `submit_sync` only, on transactions that are the bot's own
-- (bot/crates/strategies/*/src/executor.rs).
use skua.Prelude.{ℕ, ◌≡◌, refl, List, [], ◌∷◌, some, inl, inr, In, Bool-cases, Option-cases}
use skua.Float.{Float}
use skua.Core.Config.{SkuaConfig}
use skua.Core.State.{BotState}
use skua.Executor.WalletPool
use skua.Submit.{build_raw_tx, submit_sync}
use skua.World
use skua.World.{
  World, M, Outcome, ok, err, Call, Tx, Receipt, SendAnswer, signal_latency, tx_submitted,
}
use skua.HyperCore.CoreWriter.{corewriter_address}
use skua.Dispatch.Guards.{planned}
use skua.Dispatch.{Env, Plan, submit_and_release, count_receipt, send_from, dispatch}

module _ {F : Type 0} where
  -- Where the bot's transactions go.
  abbrev pub contracts : SkuaConfig F → List ℕ
  contracts config =
      config.contract_evm_arb ∷ config.contract_liquidation ∷ config.contract_tri_arb
      ∷ config.contract_stable_depeg ∷ corewriter_address ∷ []

  -- A transaction for the configured chain, to a contract of the configuration or the CoreWriter.
  pub record IsOurs (config : SkuaConfig F) (tx : Tx) : Type 0 where
    pub chain : tx.chain_id ≡ config.chain_id
    pub target : In tx.to (contracts config)

-- A property of the bot's state and of the transactions sent that every submission keeps.
pub record Kept {F : Type 0} ⦃fl : Float F⦄ (config : SkuaConfig F)
    (P : BotState F → List Tx → Type 0) : Type 0 where
  pub keep :
      (answer : SendAnswer) (tx : Tx) (w : World F)
      → IsOurs config tx
      → P w.bot w.sent
      → P (submit_sync config answer tx w).1.bot (submit_sync config answer tx w).1.sent

module _ {F : Type 0} (P : BotState F → List Tx → Type 0) where
  abbrev pub Holds : World F → Type 0
  Holds w = P w.bot w.sent

  pub release-Holds : (now i : ℕ) (w : World F) → Holds w → Holds (World.release now i w).1
  release-Holds now i w h = elim (Option-cases (WalletPool.release now i w.wallets)) [
    | inl gone ↦ rw (gone, World.release) h
    | inr (p, done) ↦ rw (done, World.release) h
  ]

  pub after-Holds :
      {A B : Type 0} (r : Outcome A × World F) (f : A → M (World F) B)
      → Holds r.1
      → ((a : A) (w : World F) → Holds w → Holds (f a w).1)
      → Holds (World.after r f).1
  after-Holds (ok a, w) f h k = k a w h
  after-Holds (err e, w) f h k = h

module _ {F : Type 0} ⦃fl : Float F⦄ (config : SkuaConfig F) (P : BotState F → List Tx → Type 0)
    (kept : Kept config P) where
  submit_and_release-Holds :
      (env : Env) (i : ℕ) (tx : Tx) (w : World F)
      → IsOurs config tx
      → Holds P w
      → Holds P (submit_and_release config env i tx w).1
  unfolding submit_and_release
  submit_and_release-Holds env i tx w ours h =
      let v = (submit_sync config env.send_answer tx w).1 in
      after-Holds P (World.release env.released_at i v) _
        (release-Holds P env.released_at i v (kept.keep env.send_answer tx w ours h)) (λ a u g. g)

  send_from-Holds :
      (env : Env) (plan : Plan) (input : Call) (i : ℕ) (w : World F)
      → In plan.contract (contracts config)
      → Holds P w
      → Holds P (send_from config env plan input i w).1
  unfolding send_from build_raw_tx count_receipt
  send_from-Holds env plan input i w to h =
      elim (Option-cases (WalletPool.next_nonce i w.wallets)) [
        | inl gone ↦ rw (gone, World.next_nonce) h
        | inr ((n, p), next) ↦
            rw (next, World.next_nonce)
              (elim (Bool-cases env.signed) [
                | inl signed ↦
                    let tx = planned config plan input w i n in
                    let u = record w {
                      wallets = p;
                      metrics =
                          (plan.strategy, signal_latency)
                          ∷ (plan.strategy, tx_submitted)
                          ∷ w.metrics;
                    } in
                    rw signed (
                      after-Holds P (submit_and_release config env i tx u)
                        (count_receipt plan.strategy)
                        (submit_and_release-Holds env i tx u (record { chain = refl; target = to })
                          h)
                        (λ a v g. g))
                | inr unsigned ↦ rw unsigned h
              ])
      ]

  pub dispatch-Holds :
      (env : Env) (plan : Plan) (input : Call) (w : World F)
      → In plan.contract (contracts config)
      → Holds P w
      → Holds P (dispatch config env plan input w).1
  unfolding dispatch
  dispatch-Holds env plan input w to h =
      let claimed = WalletPool.acquire w.wallets in
      elim (Option-cases claimed.0) [
        | inl full ↦ rw (full, dispatch) h
        | inr (i, free) ↦
            let u = record w { wallets = claimed.1 } in
            rw (free, dispatch)
              (after-Holds P (send_from config env plan input i u) (λ r. World.pure (some r))
                (send_from-Holds env plan input i u to h) (λ a v g. g))
      ]
