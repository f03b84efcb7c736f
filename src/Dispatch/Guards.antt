-- ===== src/Dispatch/Guards.antt =====
-- When an executor sends a transaction, and what becomes of its wallet
-- (bot/crates/strategies/*/src/executor.rs).
use skua.Prelude.{
  ℕ, ◌+◌, ◌≡◌, refl, ◌∙◌, false, some, ◌∷◌, ◌⊎◌, inl, inr, arith, Bool-cases, Option-cases,
}
use skua.Float.{Float}
use skua.Core.Config.{SkuaConfig}
use skua.Core.State.{is_halted, base_fee_wei}
use skua.Core.Gas.{compute_gas_price}
use skua.Executor.WalletPool
use skua.Executor.WalletPool.{WalletPool}
use skua.Submit.{build_raw_tx, submit_sync}
use skua.World
use skua.World.{
  World, M, Outcome, ok, err, Call, Tx, Receipt, SendAnswer, request_failed, malformed, mined,
  Strategy, signal_latency, tx_submitted,
}
use skua.Dispatch.{Env, Plan, submit_and_release, count_receipt, send_from, dispatch}

module _ {F : Type 0} where
  release-sent : (now i : ℕ) (w : World F) → (World.release now i w).1.sent ≡ w.sent
  release-sent now i w = elim (Option-cases (WalletPool.release now i w.wallets)) [
    | inl gone ↦ rw (gone, World.release) refl
    | inr (p, done) ↦ rw (done, World.release) refl
  ]

  pub after_keep :
      {A B : Type 0} (r : Outcome A × World F) (f : A → M (World F) B)
      → ((a : A) (w : World F) → (f a w).1.sent ≡ w.sent)
      → (World.after r f).1.sent ≡ r.1.sent
  after_keep (ok a, w) f h = h a w
  after_keep (err e, w) f h = refl

module _ {F : Type 0} ⦃fl : Float F⦄ where
  count_receipt-sent :
      (strategy : Strategy) (receipt : Receipt) (w : World F)
      → (count_receipt strategy receipt w).1.sent ≡ w.sent
  unfolding count_receipt
  count_receipt-sent strategy receipt w = refl

  -- The transactions sent are as before, or one more, that the bot was free to send.
  abbrev SentOnly : SkuaConfig F → Tx → (before after : World F) → Type 0
  SentOnly config tx w v =
      (v.sent ≡ w.sent)
      ⊎ (v.sent ≡ tx ∷ w.sent) × (is_halted config.max_consecutive_reverts w.bot ≡ false)

  submit_sync-SentOnly :
      (config : SkuaConfig F) (answer : SendAnswer) (tx : Tx) (w : World F)
      → SentOnly config tx w (submit_sync config answer tx w).1
  unfolding submit_sync is_halted
  submit_sync-SentOnly config answer tx w = ground arith

  submit_and_release-SentOnly :
      (config : SkuaConfig F) (env : Env) (i : ℕ) (tx : Tx) (w : World F)
      → SentOnly config tx w (submit_and_release config env i tx w).1
  unfolding submit_and_release
  submit_and_release-SentOnly config env i tx w =
      let (answer, v) = submit_sync config env.send_answer tx w in
      let same : (submit_and_release config env i tx w).1.sent
          ≡ (submit_sync config env.send_answer tx w).1.sent =
        after_keep (World.release env.released_at i (submit_sync config env.send_answer tx w).1) _
          (λ a u. refl)
        ∙ release-sent env.released_at i (submit_sync config env.send_answer tx w).1 in
      elim (submit_sync-SentOnly config env.send_answer tx w) [
        | inl e ↦ inl (same ∙ e)
        | inr (e, free) ↦ inr (same ∙ e, free)
      ]

  -- The transaction of a plan, from a wallet and with a nonce.
  abbrev pub planned : SkuaConfig F → Plan → Call → World F → (wallet nonce : ℕ) → Tx
  planned config plan input w wallet_idx nonce = record {
    from = wallet_idx;
    to = plan.contract;
    input = input;
    nonce = nonce;
    gas_limit = plan.gas_estimate + 50_000;
    gas_price = compute_gas_price (base_fee_wei w.bot) plan.multiplier;
    chain_id = config.chain_id;
  }

  abbrev pub AtMostOne : SkuaConfig F → Plan → Call → (before after : World F) → Type 0
  AtMostOne config plan input w v =
      (v.sent ≡ w.sent)
      ⊎ (i : ℕ) × (n : ℕ) × (v.sent ≡ planned config plan input w i n ∷ w.sent)
        × (is_halted config.max_consecutive_reverts w.bot ≡ false)

  pub AtMostOne-same :
      (config : SkuaConfig F) (plan : Plan) (input : Call) (w v u : World F)
      → u.sent ≡ v.sent
      → AtMostOne config plan input w v
      → AtMostOne config plan input w u
  AtMostOne-same config plan input w v u same (inl e) = inl (same ∙ e)
  AtMostOne-same config plan input w v u same (inr (i, n, e, free)) = inr (i, n, same ∙ e, free)

  AtMostOne-of :
      (config : SkuaConfig F) (plan : Plan) (input : Call) (i n : ℕ) (w v : World F)
      → SentOnly config (planned config plan input w i n) w v
      → AtMostOne config plan input w v
  AtMostOne-of config plan input i n w v (inl e) = inl e
  AtMostOne-of config plan input i n w v (inr (e, free)) = inr (i, n, e, free)

  send_from-AtMostOne :
      (config : SkuaConfig F) (env : Env) (plan : Plan) (input : Call) (i : ℕ) (w : World F)
      → AtMostOne config plan input w (send_from config env plan input i w).1
  unfolding send_from build_raw_tx
  send_from-AtMostOne config env plan input i w =
      elim (Option-cases (WalletPool.next_nonce i w.wallets)) [
        | inl gone ↦ rw (gone, World.next_nonce) (inl refl)
        | inr ((n, p), next) ↦
            rw (next, World.next_nonce)
              (elim (Bool-cases env.signed) [
                | inl signed ↦ rw signed (
                    let u = record w {
                      wallets = p;
                      metrics =
                          (plan.strategy, signal_latency)
                          ∷ (plan.strategy, tx_submitted)
                          ∷ w.metrics;
                    } in
                    let tx = planned config plan input w i n in
                    let sent = submit_and_release config env i tx u in
                    AtMostOne-same config plan input w sent.1
                      (World.after sent (count_receipt plan.strategy)).1
                      (after_keep sent (count_receipt plan.strategy)
                        (count_receipt-sent plan.strategy))
                      (AtMostOne-of config plan input i n w sent.1
                        (submit_and_release-SentOnly config env i tx u)))
                | inr unsigned ↦ rw unsigned (inl refl)
              ])
      ]

  pub dispatch-AtMostOne :
      (config : SkuaConfig F) (env : Env) (plan : Plan) (input : Call) (w : World F)
      → AtMostOne config plan input w (dispatch config env plan input w).1
  unfolding dispatch
  dispatch-AtMostOne config env plan input w =
      let claimed = WalletPool.acquire w.wallets in
      elim (Option-cases claimed.0) [
        | inl busy ↦ rw (busy, dispatch) (inl refl)
        | inr (i, free) ↦
            rw (free, dispatch)
              (let u = record w { wallets = claimed.1 } in
                let sent = send_from config env plan input i u in
                AtMostOne-same config plan input w sent.1
                  (World.after sent (λ receipt. World.pure (some receipt))).1
                  (after_keep sent (λ receipt. World.pure (some receipt)) (λ receipt v. refl))
                  (send_from-AtMostOne config env plan input i u))
      ]
